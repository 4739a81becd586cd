-- ===== src/Ingestion.antt =====
-- service/ingestion.go: IngestionService routes a batch to the repository or to the producer. Both
-- are interfaces of the source (repo.Repository and service.Producer), taken here as operations on
-- states of their own, which they share with the world.
pub mod Laws
pub mod Backends
use log_forge.Prelude.{
  ℕ, ◌+◌, ◌*◌, ◌%◌, Bool, true, false, ◌||◌, Option, none, some, List, if◌then◌else◌, is_empty,
  length, ltb,
}
use log_forge.Prelude.Int.{pos, two_64}
use log_forge.Errors.{
  Err, sentinel, is, ingestion_stopped, producer_not_configured, log_store_not_configured,
  producer_circuit_open, queue_full, producer_not_started, producer_stopped, deadline_exceeded,
  canceled,
}
use log_forge.Model.{LogRecord}
use log_forge.World.{
  World, warn, error, log_line, inc_ingest_errors, inc_batches_received, add_logs_ingested,
}
use log_forge.Producer.{Return, ok, fail, panic}

pub data PipelineMode : Type 0 where
  mode_direct mode_queue : PipelineMode

-- `service.Producer` over a producer's state `S`.
pub record ProducerOps (S : Type 0) : Type 0 where
  pub enqueue : List LogRecord → S → World → S × World × Return
  pub enqueue_sync : List LogRecord → S → World → S × World × Return

-- `repo.Repository` over a repository's state `R`.
pub record RepositoryOps (R : Type 0) : Type 0 where
  pub save_batch : List LogRecord → R → World → R × World × Option Err

-- An absent `repo` or `producer` is a nil interface.
pub record Ingestion (R S : Type 0) : Type 0 where
  pub repo : Option R
  pub producer : Option S
  pub mode : PipelineMode
  pub sync_on_ingest : Bool
  pub closed : Bool
  pub last_transient_queue_log_ns : ℕ
  -- A uint64.
  pub transient_queue_err_events : ℕ

-- `isTransientQueueError`.
unfoldable pub is_transient_queue_error : Err → Bool
unfolding is
is_transient_queue_error e =
    is e producer_circuit_open
    || is e queue_full
    || is e producer_not_started
    || is e producer_stopped
    || is e deadline_exceeded
    || is e canceled

module _ {R S : Type 0} where
  -- `NewIngestionService`.
  unfoldable pub new_ingestion : Option R → Option S → PipelineMode → Bool → Ingestion R S
  new_ingestion repo producer mode sync_on_ingest = record {
    repo = repo;
    producer = producer;
    mode = mode;
    sync_on_ingest = sync_on_ingest;
    closed = false;
    last_transient_queue_log_ns = 0;
    transient_queue_err_events = 0;
  }

  -- `Close`.
  unfoldable pub close : Ingestion R S → Ingestion R S
  close s = elim s.mode [ mode_queue ↦ record s { closed = true } | mode_direct ↦ s ]

  -- `logQueueEnqueueError` at the clock reading `now`, with no concurrent call in between.
  unfoldable pub log_queue_enqueue_error : ℕ → Err → Ingestion R S → World → Ingestion R S × World
  unfolding log_line
  log_queue_enqueue_error now e s w =
      if is_transient_queue_error e
      then (let events = (s.transient_queue_err_events + 1) % two_64 in
          if ltb now (s.last_transient_queue_log_ns + 5 * 1000000000)
          then (record s { transient_queue_err_events = events }, w)
          else (
            record s { transient_queue_err_events = 0; last_transient_queue_log_ns = now },
            log_line warn "failed to enqueue logs (transient, suppressed)" w,
          ))
      else (s, log_line error "failed to enqueue logs" w)

  -- What ProcessBatch does with the answer of the producer.
  unfoldable pub settle_queue : ℕ → Return → Ingestion R S → World → Ingestion R S × World × Return
  unfolding inc_ingest_errors inc_batches_received log_queue_enqueue_error
  settle_queue now ok s w = (s, inc_batches_received w, ok)
  settle_queue now (fail e) s w =
      let (s', w') = log_queue_enqueue_error now e s (inc_ingest_errors w) in (s', w', fail e)
  settle_queue now panic s w = (s, w, panic)

  -- What ProcessBatch does with the answer of the repository.
  unfoldable pub settle_direct :
      ℕ → Option Err → Ingestion R S → World → Ingestion R S × World × Return
  unfolding inc_ingest_errors inc_batches_received add_logs_ingested log_line
  settle_direct n none s w = (s, add_logs_ingested (pos n) (inc_batches_received w), ok)
  settle_direct n (some e) s w =
      (s, log_line error "failed to save logs" (inc_ingest_errors w), fail e)

module _ {R S : Type 0} (repository : RepositoryOps R) (producer_ops : ProducerOps S) where
  -- `ProcessBatch`; `now` is the clock reading of its logging.
  unfoldable pub process_batch :
      ℕ → List LogRecord → Ingestion R S → World → Ingestion R S × World × Return
  unfolding settle_queue settle_direct
  process_batch now records s w = if is_empty records then (s, w, ok) else elim s.mode [
    | mode_queue ↦ if s.closed then (s, w, fail (sentinel ingestion_stopped)) else elim s.producer [
      | none ↦ (s, w, fail (sentinel producer_not_configured))
      | some p ↦
          let (p', w', r) =
            if s.sync_on_ingest
            then producer_ops.enqueue_sync records p w
            else producer_ops.enqueue records p w in
          settle_queue now r (record s { producer = some p' }) w'
    ]
    | mode_direct ↦ elim s.repo [
      | none ↦ (s, w, fail (sentinel log_store_not_configured))
      | some store ↦
          let (store', w', r) = repository.save_batch records store w in
          settle_direct (length records) r (record s { repo = some store' }) w'
    ]
  ]
