-- ===== src/Tests/Samples.antt =====
-- Sample data for the runs.
use log_forge.Prelude.{ℕ, ◌+◌, some, none, List, [], ◌∷◌, arith, ◌==◌, leb, length, if◌then◌else◌}
use log_forge.Prelude.Int.{pos}
use log_forge.Text.{codes}
use log_forge.Errors.{Err, message}
use log_forge.Model.{LogRecord, zero_instant}
use log_forge.World.{World}
use log_forge.Producer.{Producer, ProducerConfig, Batch, new_producer, start_async, resolve}
use log_forge.Producer.Publish.{Attempt, DlqAnswers}
use log_forge.Producer.Laws.Setup.{IsValid, new_producer-IsValid, start_async-IsValid}
use log_forge.Ingestion.{RepositoryOps}

abbrev pub empty_world : World
empty_world = record {
  metrics = record {
    logs_ingested = 0;
    batches_received = 0;
    ingest_errors = 0;
    invalid_requests = 0;
    aggregation_runs = 0;
    ingestion_queue_depth = 0;
    kafka_up = 0;
    kafka_consumer_errors = 0;
    kafka_writer_errors = 0;
  };
  log = [];
  dlq = [];
  queued = [];
  commits = [];
}

abbrev pub home_visit : LogRecord
home_visit = record {
  timestamp = record { instant = zero_instant + 1; offset = pos 3600 };
  path = codes " /home ";
  user_agent = codes "curl";
}

abbrev pub one_batch : Batch
one_batch = home_visit ∷ []

abbrev pub small_config : ProducerConfig
small_config = record {
  queue_buffer_size = pos 2;
  workers = pos 1;
  write_timeout = pos 0;
  queue_high_water_percent = pos 0;
  max_retries = pos 1;
  retry_backoff = pos 0;
  dlq_dir = [];
  circuit_failure_threshold = pos 2;
  circuit_cooldown = pos 100;
}

abbrev pub fresh : Producer
fresh = new_producer (some small_config)

abbrev pub started : Producer
started = start_async fresh

pub fresh-IsValid : IsValid fresh
unfolding resolve
fresh-IsValid = (new_producer-IsValid (some small_config) (omega arith)).0

pub started-IsValid : IsValid started
started-IsValid = start_async-IsValid fresh fresh-IsValid

abbrev pub refusal : Err
refusal = message (codes "broker said no")

-- A queue that refuses every attempt, one that takes the first, and one that takes the second.
abbrev pub refusing : ℕ → Attempt
refusing k = record { result = some refusal; log_now = 10; failure_now = 20; ctx_done = none }

abbrev pub taking : ℕ → Attempt
taking k = record { result = none; log_now = 10; failure_now = 20; ctx_done = none }

abbrev pub taking_second : ℕ → Attempt
taking_second k = record {
  result = if k == 2 then none else some refusal;
  log_now = 10;
  failure_now = 20;
  ctx_done = none;
}

abbrev pub answers : DlqAnswers
answers = record {
  date_now = 30;
  stamp_now = 31;
  entry_now = 32;
  mkdir_err = none;
  marshal_err = none;
  write_err = none;
}

-- A repository that keeps all records, and fails once it holds two batches.
abbrev pub memory : RepositoryOps (List (List LogRecord))
memory = record {
  save_batch = λ l r w. if leb 2 (length r) then (r, w, some refusal) else (l ∷ r, w, none);
}
