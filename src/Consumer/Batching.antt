-- ===== src/Consumer/Batching.antt =====
-- service/consumer.go: consumerBatchWriter.
use log_forge.Prelude.{
  ◌/◌, Bool, true, false, Option, none, some, List, [], ◌∷◌, ◌++◌, map, length, is_empty,
  if◌then◌else◌,
}
use log_forge.Prelude.Int.{ℤ, pos, is_nonpos, leb_ℤ}
use log_forge.Text.{Text, codes}
use log_forge.Errors.{Err, text_of}
use log_forge.Model.{ConsumedMessage}
use log_forge.World.{
  World, DlqPath, DlqEntry, consumer_batch, warn, error, log_line, inc_ingest_errors,
  add_logs_ingested, write_file,
}
use log_forge.Producer.Publish.{DlqAnswers, day_ns}
use log_forge.Ingestion.{RepositoryOps}

pub record ConsumerBatchConfig : Type 0 where
  pub flush_size : ℤ
  pub flush_interval : ℤ
  pub persist_timeout : ℤ
  pub dlq_dir : Text

-- `ctx_done` is whether `cancel` was called, and `finished` whether `done` is closed.
pub record Writer (R : Type 0) : Type 0 where
  pub repo : R
  pub flush_size : ℤ
  pub flush_interval : ℤ
  pub persist_timeout : ℤ
  pub dlq_dir : Text
  pub ctx_done : Bool
  pub pending : List ConsumedMessage
  pub finished : Bool

module _ {R : Type 0} where
  -- `newConsumerWriter`.
  unfoldable pub new_writer : R → ConsumerBatchConfig → Writer R
  new_writer repo cfg = record {
    repo = repo;
    flush_size = if is_nonpos cfg.flush_size then pos 512 else cfg.flush_size;
    flush_interval = if is_nonpos cfg.flush_interval then pos 500000000 else cfg.flush_interval;
    persist_timeout = if is_nonpos cfg.persist_timeout then pos 5000000000 else cfg.persist_timeout;
    dlq_dir = if is_empty cfg.dlq_dir then codes "dlq" else cfg.dlq_dir;
    ctx_done = false;
    pending = [];
    finished = false;
  }

-- What a call of `Commit` with its answer leaves behind.
unfoldable pub after_commit : ConsumedMessage → Option Err → World → World
unfolding log_line
after_commit msg none w = record w { commits = (msg.partition, msg.offset) ∷ w.commits }
after_commit msg (some _) w = log_line warn "failed to commit kafka message after persist" w

-- The loop of `persist` over a stored batch: the messages that have a `Commit` are committed, and a
-- refusal is logged.
unfoldable pub commit_all : List ConsumedMessage → World → World
unfolding after_commit
commit_all [] w = w
commit_all (msg ∷ batch) w = elim msg.commit [
  | none ↦ commit_all batch w
  | some answer ↦ commit_all batch (after_commit msg answer w)
]

abbrev entry_of : Err → ConsumedMessage → DlqEntry
entry_of reason msg = record {
  log_record = msg.log_record;
  partition = msg.partition;
  offset = msg.offset;
  reason = text_of reason;
}

-- `writeDLQ`. A failed `os.WriteFile` is taken to leave no file.
unfoldable pub write_dlq : DlqAnswers → Text → List ConsumedMessage → Err → World → World
unfolding log_line write_file text_of
write_dlq a dlq_dir batch reason w =
    if is_empty dlq_dir
    then w
    else let file_path : DlqPath = record {
      dir = dlq_dir;
      day = a.date_now / day_ns;
      by_producer = false;
      stamp = a.stamp_now;
    } in
      elim a.mkdir_err [
        | some _ ↦ log_line warn "failed to create dlq directory" w
        | none ↦ elim a.marshal_err [
          | some _ ↦ log_line warn "failed to marshal dlq batch" w
          | none ↦ elim a.write_err [
            | some _ ↦ log_line warn "failed to write dlq batch" w
            | none ↦ log_line warn "wrote batch to dlq" (record w {
              dlq = write_file file_path (consumer_batch (map (entry_of reason) batch)) w.dlq;
            })
          ]
        ]
      ]

module _ {R : Type 0} where
  -- The part of `Add` that holds the lock, where `drainLocked` empties a full batch: the batch to
  -- persist, if any.
  unfoldable pub append_pending :
      ConsumedMessage → Writer R → Writer R × Option (List ConsumedMessage)
  append_pending msg wr =
      let all = wr.pending ++ msg ∷ [] in
      if leb_ℤ wr.flush_size (pos (length all))
      then (record wr { pending = [] }, some all)
      else (record wr { pending = all }, none)

  -- `takePending`.
  unfoldable pub take_pending : Writer R → Writer R × List ConsumedMessage
  take_pending wr = (record wr { pending = [] }, wr.pending)

module _ {R : Type 0} (repository : RepositoryOps R) where
  -- `persist`. The contexts of the calls are not part of the model.
  unfoldable pub persist : DlqAnswers → List ConsumedMessage → Writer R → World → Writer R × World
  unfolding commit_all write_dlq
  persist a batch wr w =
      if is_empty batch
      then (wr, w)
      else let (repo', w', r) = repository.save_batch (map (λ m. m.log_record) batch) wr.repo w in
        elim r [
          | some e ↦ (
            record wr { repo = repo' },
            write_dlq a wr.dlq_dir batch e
                (log_line error "consumer batch write failed" (inc_ingest_errors w')),
          )
          | none ↦ (
            record wr { repo = repo' },
            commit_all batch (add_logs_ingested (pos (length batch)) w'),
          )
        ]

  -- `flush`, with no other goroutine in between.
  unfoldable pub flush : DlqAnswers → Writer R → World → Writer R × World
  unfolding take_pending persist
  flush a wr w = let (wr', batch) = take_pending wr in persist a batch wr' w

  -- `Add`, with no other goroutine in between.
  unfoldable pub add : DlqAnswers → ConsumedMessage → Writer R → World → Writer R × World
  unfolding append_pending persist
  add a msg wr w =
      if wr.ctx_done
      then (wr, w)
      else let (wr', full) = append_pending msg wr in
        elim full [ none ↦ (wr', w) | some batch ↦ persist a batch wr' w ]

  -- `Close`: the context is cancelled, and the loop of `flushLoop` ends with a last flush.
  unfoldable pub close : DlqAnswers → Writer R → World → Writer R × World
  unfolding flush
  close a wr w =
      if wr.finished
      then (wr, w)
      else let (wr', w') = flush a (record wr { ctx_done = true }) w in
        (record wr' { finished = true }, w')
