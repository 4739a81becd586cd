-- ===== src/Bootstrap.antt =====
-- cmd/bootstrap/app.go: BuildApp, which makes the parts of the application and the cleanups.
-- The children have the readiness checks, the configuration and the application's own endpoints.
pub mod Checks
pub mod Settings
pub mod Endpoints
pub mod Wiring
pub mod Readiness
pub use Checks.{Stat, a_directory, a_file, missing, unknown, DirAnswers}
unfoldable pub use Checks.{try_directory, check_writable_dir, run_readiness_checks}
pub use Settings.{BuildInfo, AppConfig, App, app_config}
unfoldable pub use Settings.{normalize_build_info, new_app_with_build_info}
use log_forge.Prelude.{
  ◌+◌, Bool, true, false, not, Option, some, none, List, [], ◌∷◌, ◌++◌, if◌then◌else◌, is_empty,
}
use log_forge.Prelude.Int.{ℤ, pos, is_nonpos, ◌-ℤ◌, is_zero}
use log_forge.Text.{Text, codes, text_eq}
use log_forge.Errors.{Err, message, wrap, Result, done, failed}
use log_forge.World.{World}
use log_forge.Config.{IngestionSettings, ConsumerSettings, KafkaSettings}
use log_forge.Queue.{KafkaQueue, new_queue, check_connectivity}
use log_forge.Producer.{Producer, ProducerConfig, new_producer, start_async}
use log_forge.Consumer.{ConsumerService, ConsumerBatchConfig, new_consumer_service, start_service}
use log_forge.Ingestion.{
  Ingestion, RepositoryOps, PipelineMode, mode_direct, mode_queue, new_ingestion,
}
use log_forge.Http.{Handler, new_handler, with_request_timeout, with_api_key_auth}
use log_forge.ObjectRepo.{ObjectRepo}
use log_forge.ObjectRepo.Options.{OptionAnswers, new_object_repo}

-- The repository that BuildApp chooses; the services share it.
pub data Store : Type 0 where
  file_store : Text → Store
  object_store : ObjectRepo → Store

-- A check of the readiness endpoint.
pub data ReadyCheck : Type 0 where
  writable_dir : Text → ReadyCheck
  bucket_ready : ObjectRepo → ReadyCheck
  kafka_reachable : ReadyCheck

-- A function in `cleanups`.
pub data Cleanup : Type 0 where
  close_consumer close_producer close_ingestion : Cleanup

-- What a started aggregation reads, where it writes, and its interval.
pub data LogSource : Type 0 where
  log_dir : Text → LogSource
  log_bucket : ObjectRepo → LogSource

pub record Aggregator : Type 0 where
  pub source : LogSource
  pub analytics_dir : Text
  pub interval : ℤ

-- The Kafka parts, of version 2 only.
pub record QueueParts : Type 0 where
  pub queue : KafkaQueue
  pub consumer : ConsumerService Store
  pub producer : Producer

-- What BuildApp has made when it returns a server.
pub record Built : Type 0 where
  pub store : Store
  pub parts : Option QueueParts
  pub aggregator : Aggregator
  -- The producer is an interface around a `*ProducerService`, which is nil where there is none.
  pub ingestion : Ingestion Store (Option Producer)
  pub handler : Handler
  pub ready_checks : List ReadyCheck
  pub cleanups : List Cleanup

-- What the libraries and Kafka answer during BuildApp.
pub record BuildAnswers : Type 0 where
  pub options : OptionAnswers
  pub dial : Text → Option Err × Option Err
  pub start_consumers : Option Err
  -- `%q`.
  pub quoted : Text → Text

-- The choice of the repository.
unfoldable pub build_store : BuildAnswers → AppConfig → Result (Store × ReadyCheck)
unfolding new_object_repo text_eq
build_store a cfg =
    let backend = if is_empty cfg.storage_backend then codes "file" else cfg.storage_backend in
    if text_eq backend (codes "file")
    then done (file_store cfg.logs_dir, writable_dir cfg.logs_dir)
    else if text_eq backend (codes "minio")
    then elim (new_object_repo a.options (record {
      endpoint = cfg.min_io.endpoint;
      bucket = cfg.min_io.bucket;
      access_key = cfg.min_io.access_key;
      secret_key = cfg.min_io.secret_key;
      use_ssl = cfg.min_io.use_ssl;
      logs_prefix = cfg.min_io.logs_prefix;
      writer_id = [];
      has_client = false;
    })) [
      | failed e ↦ failed (wrap (codes "configure minio repo: ") e)
      | done r ↦ done (object_store r, bucket_ready r)
    ]
    else failed (message (codes "unsupported storage backend " ++ a.quoted backend))

-- The configuration of the producer; the fields that are not named are zero.
abbrev pub producer_config : IngestionSettings → ProducerConfig
producer_config i = record {
  queue_buffer_size = i.queue_buffer_size;
  workers = i.producer_workers;
  write_timeout = i.producer_write_timeout;
  queue_high_water_percent = i.queue_high_water_percent;
  max_retries = pos 0;
  retry_backoff = pos 0;
  dlq_dir = [];
  circuit_failure_threshold = i.circuit_failure_threshold;
  circuit_cooldown = i.circuit_cooldown;
}

abbrev pub consumer_batch_config : ConsumerSettings → ConsumerBatchConfig
consumer_batch_config c = record {
  flush_size = c.flush_size;
  flush_interval = c.flush_interval;
  persist_timeout = c.persist_timeout;
  dlq_dir = [];
}

-- The settings of the queue.
abbrev pub queue_settings : KafkaSettings → KafkaSettings
queue_settings k = record k {
  batch_timeout = if is_nonpos k.batch_timeout then pos 1000000000 else k.batch_timeout;
}

-- The block of version 2.
unfoldable pub build_queue :
    RepositoryOps Store → BuildAnswers → AppConfig → Store → World → Result QueueParts × World
unfolding new_queue check_connectivity new_consumer_service start_service new_producer start_async
build_queue repository a cfg store w = elim cfg.kafka_settings [
  | none ↦ (failed (message (codes "kafka settings are required for version 2")), w)
  | some k ↦
      if is_empty k.brokers
      then (failed (message (codes "kafka settings are required for version 2")), w)
      else elim (new_queue (queue_settings k)) [
        | failed e ↦ (failed (wrap (codes "configure kafka: ") e), w)
        | done q ↦
            let (q', w', reached) = check_connectivity a.dial q w in
            let service =
              new_consumer_service true store (consumer_batch_config cfg.consumer) true in
            let (consumer, started) = start_service repository a.start_consumers service in
            let producer = new_producer (some (producer_config cfg.ingestion)) in
            elim reached [
              | some e ↦ (failed (wrap (codes "kafka startup check: ") e), w')
              | none ↦ elim started [
                | some e ↦ (failed (wrap (codes "start kafka consumers: ") e), w')
                | none ↦ (
                  done (record {
                    queue = q';
                    consumer = consumer;
                    producer =
                        if cfg.ingestion.sync_on_ingest then producer else start_async producer;
                  }),
                  w',
                )
              ]
            ]
      ]
]

-- What BuildApp makes once its store, and its queue if any, are there.
unfoldable pub assemble : AppConfig → Store → ReadyCheck → Option QueueParts → Built
unfolding new_ingestion new_handler with_request_timeout with_api_key_auth
assemble cfg store check parts =
    let producer : Option Producer = elim parts [ none ↦ none | some p ↦ some p.producer ] in
    let mode : PipelineMode = elim parts [ none ↦ mode_direct | some p ↦ mode_queue ] in
    let checks : List ReadyCheck = elim parts [ none ↦ [] | some p ↦ kafka_reachable ∷ [] ] in
    let closes : List Cleanup = elim parts [
      | none ↦ []
      | some p ↦ close_consumer ∷ (close_producer ∷ [])
    ] in
    record {
      store = store;
      parts = parts;
      aggregator = record {
        source = elim store [ file_store _ ↦ log_dir cfg.logs_dir | object_store r ↦ log_bucket r ];
        analytics_dir = cfg.analytics_dir;
        interval = cfg.aggregation_interval;
      };
      ingestion = new_ingestion (some store) (some producer) mode cfg.ingestion.sync_on_ingest;
      handler =
          with_api_key_auth cfg.auth.enabled cfg.auth.header_name cfg.auth.keys
            (with_request_timeout cfg.request_timeout new_handler);
      ready_checks = writable_dir cfg.analytics_dir ∷ (check ∷ checks);
      cleanups = closes ++ (close_ingestion ∷ []);
    }

-- `a.cfg.Version == 2`.
abbrev pub is_version_2 : AppConfig → Bool
is_version_2 cfg = is_zero (cfg.version -ℤ pos 2)

-- `BuildApp`. With an error no cleanup is registered.
unfoldable pub build_app :
    RepositoryOps Store → BuildAnswers → AppConfig → World → Result Built × World
unfolding build_store build_queue assemble
build_app repository a cfg w = elim (build_store a cfg) [
  | failed e ↦ (failed e, w)
  | done (store, check) ↦
      if is_version_2 cfg
      then (let (parts, w') = build_queue repository a cfg store w in
          elim parts [
            | failed e ↦ (failed e, w')
            | done p ↦ (done (assemble cfg store check (some p)), w')
          ])
      else (done (assemble cfg store check none), w)
]

-- The order in which `runCleanups` calls the functions: the last one first.
unfoldable pub run_cleanups : List Cleanup → List Cleanup
run_cleanups [] = []
run_cleanups (c ∷ cleanups) = run_cleanups cleanups ++ (c ∷ [])
