-- ===== src/Tests/ConsumerRuns.antt =====
-- Runs of the batch writer of service/consumer.go.
use log_forge.Prelude.{ℕ, ◌+◌, ◌≡◌, refl, true, some, none, List, [], ◌∷◌, length, arith}
use log_forge.Prelude.Int.{pos, ◌<ℤ◌}
use log_forge.Prelude.Weights.{weigh}
use log_forge.World.{add_logs_ingested}
use log_forge.Model.{ConsumedMessage, LogRecord}
use log_forge.Consumer.{
  ConsumerBatchConfig, Writer, new_writer, persist, after_commit, commit_all, append_pending,
  take_pending,
}
use log_forge.Consumer.Sink.Recording.{Recorded, recording, unrecorded}
use log_forge.Consumer.Sink.{
  Sink, idle, appended, drained, persisted, Reach, here, next, enter, append, tick, save, added,
}
use log_forge.Consumer.Sink.Stores.{of_message, sink_conserves}
use log_forge.Consumer.Sink.Race.{add_races_close}
use log_forge.Tests.Samples.{empty_world, home_visit, answers, memory}

abbrev two_at_a_time : ConsumerBatchConfig
two_at_a_time = record {
  flush_size = pos 2;
  flush_interval = pos 0;
  persist_timeout = pos 0;
  dlq_dir = [];
}

abbrev at_offset : ℕ → ConsumedMessage
at_offset n = record { log_record = home_visit; partition = 0; offset = n; commit = some none }

-- A record weighs the length of its path.
abbrev length_of : LogRecord → ℕ
length_of rec = length rec.path

abbrev writer : Writer (Recorded (List (List LogRecord)))
writer = new_writer (unrecorded []) two_at_a_time

-- Two calls of Add fill a batch, a third one waits; the ticker drains, and the later batch is persisted
-- first.
abbrev s0 : Sink (Recorded (List (List LogRecord)))
s0 = idle writer empty_world

abbrev s3 : Sink (Recorded (List (List LogRecord)))
s3 = record s0 { adding = at_offset 3 ∷ at_offset 2 ∷ at_offset 1 ∷ [] }

abbrev s4 : Sink (Recorded (List (List LogRecord)))
s4 = appended (at_offset 2) (at_offset 3 ∷ at_offset 1 ∷ []) s3

abbrev s5 : Sink (Recorded (List (List LogRecord)))
s5 = appended (at_offset 1) (at_offset 3 ∷ []) s4

abbrev s6 : Sink (Recorded (List (List LogRecord)))
s6 = drained (appended (at_offset 3) [] s5)

abbrev s7 : Sink (Recorded (List (List LogRecord)))
s7 =
    persisted (recording memory) answers (at_offset 3 ∷ []) ((at_offset 2 ∷ at_offset 1 ∷ []) ∷ [])
      s6

run : Reach (recording memory) s0 s7
unfolding idle appended drained persisted new_writer append_pending take_pending
run =
    let entered =
      next (next (next here (enter (at_offset 1) refl refl)) (enter (at_offset 2) refl refl))
        (enter (at_offset 3) refl refl) in
    let second =
      next entered (append (at_offset 3 ∷ []) (at_offset 2) (at_offset 1 ∷ []) refl refl) in
    let first = next second (append (at_offset 3 ∷ []) (at_offset 1) [] refl refl) in
    let third = next first (append [] (at_offset 3) [] refl refl) in
    next (next third (tick refl refl)) (save answers [] (at_offset 3 ∷ []) _ refl refl)

sink_conserves_example :
    (weigh (of_message length_of) (added (recording memory) run)
      ≡ weigh (of_message length_of) s7.writer.pending
        + weigh (weigh (of_message length_of)) s7.batches
        + weigh (weigh length_of) s7.writer.repo.given)
    × (pos (length s7.writer.pending) <ℤ s7.writer.flush_size)
sink_conserves_example = sink_conserves length_of memory [] two_at_a_time empty_world run

-- The message of the one persisted batch is committed.
committed_one : s7.world.commits ≡ (0, 3) ∷ []
unfolding idle appended drained persisted new_writer append_pending take_pending persist commit_all
    after_commit recording add_logs_ingested
committed_one = refl

add_races_close_example :
    (t : Sink (List (List LogRecord))) × Reach memory
      (idle (new_writer [] two_at_a_time) empty_world)
      t
    × (t.writer.pending ≡ at_offset 1 ∷ [])
    × (t.swept ≡ true)
    × (t.adding ≡ [])
    × (t.batches ≡ [] ∷ [])
unfolding new_writer
add_races_close_example =
    add_races_close memory (new_writer [] two_at_a_time) (at_offset 1) empty_world refl refl
      (omega arith)
