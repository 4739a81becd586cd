-- ===== src/Producer/Publish.antt =====
-- Publishing one batch (service/producer.go): tryEnqueueWithRetry, EnqueueSync, the body of a
-- worker's loop, and the dead-letter file.
use log_forge.Prelude.{
  ℕ, zero, suc, ◌+◌, ◌/◌, ◌*◌, Bool, true, ◌||◌, Option, none, some, if◌then◌else◌, ◌==◌, is_empty,
}
use log_forge.Prelude.Int.{pos, wrap_64, ◌+ℤ◌, ltb_ℤ, pos_part}
use log_forge.Text.{codes}
use log_forge.Errors.{Err, sentinel, message, producer_stopped, producer_circuit_open, text_of}
use log_forge.World.{
  World, warn, log_line, inc_ingest_errors, set_ingestion_queue_depth, write_file, DlqPath,
  producer_batch, queue_takes,
}
use log_forge.Producer.State.{Producer, Batch, Return, ok, fail, second}
use log_forge.Producer.Circuit.{
  is_circuit_open, on_enqueue_success, on_enqueue_failure, log_enqueue_failure,
}

-- What the queue, the clock and the context answer during one attempt: the result of
-- `EnqueueBatch`, the clock readings of the two failure handlers, and `ctx.Err()` if the context
-- is done before the backoff is over.
pub record Attempt : Type 0 where
  pub result : Option Err
  pub log_now : ℕ
  pub failure_now : ℕ
  pub ctx_done : Option Err

-- `maxAttempts`, an int of 64 bits.
unfoldable pub max_attempts : Producer → ℕ
max_attempts p =
    let n = wrap_64 (p.max_retries +ℤ pos 1) in if ltb_ℤ n (pos 1) then 1 else pos_part n

-- What follows a failed attempt, up to the end of its round: the metrics, the log, and, on the last
-- attempt, the breaker. The result is the error to return, if the loop ends here.
unfoldable pub after_failure :
    Attempt → Err → Bool → Producer → World → Producer × World × Option Err
unfolding inc_ingest_errors log_enqueue_failure on_enqueue_failure
after_failure a e is_last p w =
    let (p', w') = log_enqueue_failure a.log_now e p (inc_ingest_errors w) in
    if is_last
    then (let (p'', w'') = on_enqueue_failure a.failure_now p' w' in (p'', w'', some e))
    else (p', w', a.ctx_done)

-- The loop of `tryEnqueueWithRetry` from `attempt` on, with `left` rounds left. `last_err` is what
-- the code after the loop returns, which is reached only where no round was left at the start.
unfoldable pub try_loop :
    (ℕ → Attempt) → Batch → ℕ → ℕ → Err → Producer → World → Producer × World × Option Err
unfolding on_enqueue_success
try_loop env batch attempt zero last_err p w = (p, w, some last_err)
try_loop env batch attempt (suc left) last_err p w = elim (env attempt).result [
  | none ↦ (on_enqueue_success p, queue_takes batch w, none)
  | some e ↦
      let (p', w', stop) = after_failure (env attempt) e (left == 0) p w in
      elim stop [ some x ↦ (p', w', some x) | none ↦ try_loop env batch (attempt + 1) left e p' w' ]
]

-- `tryEnqueueWithRetry`; attempts count from 1.
unfoldable pub try_enqueue_with_retry :
    (ℕ → Attempt) → Batch → Producer → World → Producer × World × Option Err
unfolding max_attempts try_loop
try_enqueue_with_retry env batch p w =
    try_loop env batch 1 (max_attempts p) (message (codes "enqueue failed")) p w

abbrev returned : Option Err → Return
returned none = ok
returned (some e) = fail e

-- `EnqueueSync` at the clock reading `now`.
unfoldable pub enqueue_sync :
    ℕ → (ℕ → Attempt) → Batch → Producer → World → Producer × World × Return
unfolding is_circuit_open
enqueue_sync now env batch p w =
    if is_empty batch
    then (p, w, ok)
    else if p.closed
    then (p, w, fail (sentinel producer_stopped))
    else let (p', is_open) = is_circuit_open now p in
      if is_open
      then (p', w, fail (sentinel producer_circuit_open))
      else let (p'', w', r) = try_enqueue_with_retry env batch p' w in (p'', w', returned r)

-- What the file system and the clock answer while a dead-letter file is written.
pub record DlqAnswers : Type 0 where
  pub date_now : ℕ
  pub stamp_now : ℕ
  pub entry_now : ℕ
  pub mkdir_err : Option Err
  pub marshal_err : Option Err
  pub write_err : Option Err

abbrev pub day_ns : ℕ
day_ns = 86400 * second

-- `writeProducerDLQ`. A failed `os.WriteFile` is taken to leave no file.
unfoldable pub write_producer_dlq : DlqAnswers → Batch → Err → Producer → World → World
unfolding log_line
write_producer_dlq a batch reason p w =
    if is_empty p.dlq_dir || is_empty batch
    then w
    else let file_path : DlqPath = record {
      dir = p.dlq_dir;
      day = a.date_now / day_ns;
      by_producer = true;
      stamp = a.stamp_now;
    } in
      elim a.mkdir_err [
        | some _ ↦ log_line warn "failed to create producer dlq directory" w
        | none ↦ elim a.marshal_err [
          | some _ ↦ log_line warn "failed to marshal producer dlq batch" w
          | none ↦ elim a.write_err [
            | some _ ↦ log_line warn "failed to write producer dlq batch" w
            | none ↦ log_line warn "wrote producer batch to dlq" (record w {
              dlq = write_file file_path (producer_batch batch (text_of reason) a.entry_now) w.dlq;
            })
          ]
        ]
      ]

-- One round of `runProducer` on a batch received from the channel. The two depths are `len(workCh)`
-- as it is read before and after publishing, while other goroutines use the channel.
unfoldable pub run_producer_round :
    ℕ → ℕ → (ℕ → Attempt) → DlqAnswers → Batch → Producer → World → Producer × World × Option Err
unfolding try_enqueue_with_retry write_producer_dlq set_ingestion_queue_depth
run_producer_round before after env a batch p w =
    let (p', w', r) =
      try_enqueue_with_retry env batch p (set_ingestion_queue_depth (pos before) w) in
    let w'' : World = elim r [ none ↦ w' | some e ↦ write_producer_dlq a batch e p' w' ] in
    (p', set_ingestion_queue_depth (pos after) w'', r)
