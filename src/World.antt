-- ===== src/World.antt =====
-- What the services change outside themselves: the process-wide counters of
-- internal/metrics/metrics.go, the log lines, and the dead-letter files of service/producer.go and
-- service/consumer.go. The Prometheus client that keeps the counters is not modelled: a counter is
-- a number. Log lines, queued batches and commits are listed newest first; a line keeps its constant
-- text.
use log_forge.Prelude.{ℕ, ◌+◌, Bool, not, ◌&&◌, String, List, [], ◌∷◌, ◌==◌, if◌then◌else◌}
use log_forge.Prelude.Int.{ℤ, pos_part, is_nonpos}
use log_forge.Text.{Text, text_eq}
use log_forge.Model.{LogRecord}

pub record Metrics : Type 0 where
  pub logs_ingested : ℕ
  pub batches_received : ℕ
  pub ingest_errors : ℕ
  pub invalid_requests : ℕ
  pub aggregation_runs : ℕ
  pub ingestion_queue_depth : ℕ
  pub kafka_up : ℕ
  pub kafka_consumer_errors : ℕ
  pub kafka_writer_errors : ℕ

pub data Level : Type 0 where
  debug info warn error : Level

pub record LogLine : Type 0 where
  pub level : Level
  pub text : String

-- One entry of a consumer's dead-letter file.
pub record DlqEntry : Type 0 where
  pub log_record : LogRecord
  pub partition : ℕ
  pub offset : ℕ
  pub reason : Text

pub data DlqContent : Type 0 where
  producer_batch : List LogRecord → Text → ℕ → DlqContent
  consumer_batch : List DlqEntry → DlqContent

-- `<dir>/<day>/producer_<stamp>.json` or `<dir>/<day>/consumer_<stamp>.json`.
pub record DlqPath : Type 0 where
  pub dir : Text
  pub day : ℕ
  pub by_producer : Bool
  pub stamp : ℕ

pub record World : Type 0 where
  pub metrics : Metrics
  pub log : List LogLine
  pub dlq : List (DlqPath × DlqContent)
  -- The batches for which `EnqueueBatch` of the queue returned no error.
  pub queued : List (List LogRecord)
  -- The messages of the broker that were committed, by partition and offset.
  pub commits : List (ℕ × ℕ)

-- `metrics.AddLogsIngested`.
unfoldable pub add_logs_ingested : ℤ → World → World
add_logs_ingested n w =
    let m = w.metrics in
    if is_nonpos n
    then w
    else record w { metrics = record m { logs_ingested = m.logs_ingested + pos_part n } }

unfoldable pub inc_batches_received : World → World
inc_batches_received w =
    let m = w.metrics in
    record w { metrics = record m { batches_received = m.batches_received + 1 } }

unfoldable pub inc_ingest_errors : World → World
inc_ingest_errors w =
    let m = w.metrics in record w { metrics = record m { ingest_errors = m.ingest_errors + 1 } }

unfoldable pub inc_invalid_requests : World → World
inc_invalid_requests w =
    let m = w.metrics in
    record w { metrics = record m { invalid_requests = m.invalid_requests + 1 } }

unfoldable pub inc_aggregation_runs : World → World
inc_aggregation_runs w =
    let m = w.metrics in
    record w { metrics = record m { aggregation_runs = m.aggregation_runs + 1 } }

-- A negative depth is stored as 0.
unfoldable pub set_ingestion_queue_depth : ℤ → World → World
set_ingestion_queue_depth n w =
    let m = w.metrics in record w { metrics = record m { ingestion_queue_depth = pos_part n } }

unfoldable pub set_kafka_up : Bool → World → World
set_kafka_up up w =
    let m = w.metrics in
    if up
    then record w { metrics = record m { kafka_up = 1 } }
    else record w { metrics = record m { kafka_up = 0 } }

unfoldable pub inc_kafka_consumer_errors : World → World
inc_kafka_consumer_errors w =
    let m = w.metrics in
    record w { metrics = record m { kafka_consumer_errors = m.kafka_consumer_errors + 1 } }

unfoldable pub inc_kafka_writer_errors : World → World
inc_kafka_writer_errors w =
    let m = w.metrics in
    record w { metrics = record m { kafka_writer_errors = m.kafka_writer_errors + 1 } }

-- `logger.Debug`, `Info`, `Warn` and `Error`.
unfoldable pub log_line : Level → String → World → World
log_line l s w = record w { log = record { level = l; text = s } ∷ w.log }

unfoldable pub same_path : DlqPath → DlqPath → Bool
same_path p q =
    text_eq p.dir q.dir
    && p.day == q.day
    && (if p.by_producer then q.by_producer else not q.by_producer)
    && p.stamp == q.stamp

-- `EnqueueBatch` of a queue that takes the batch.
abbrev pub queue_takes : List LogRecord → World → World
queue_takes batch w = record w { queued = batch ∷ w.queued }

-- `os.WriteFile`: a file of the same name is replaced.
unfoldable pub write_file :
    DlqPath → DlqContent → List (DlqPath × DlqContent) → List (DlqPath × DlqContent)
unfolding same_path
write_file p c [] = (p, c) ∷ []
write_file p c ((q, d) ∷ files) =
    if same_path p q then (p, c) ∷ files else (q, d) ∷ write_file p c files
