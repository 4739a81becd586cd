-- ===== src/Tests/BootstrapRuns.antt =====
-- Runs of cmd/bootstrap/app.go.
use log_forge.Prelude.{◌≡◌, ◌↔◌, refl, false, none, some, [], ◌∷◌}
use log_forge.Prelude.Int.{pos}
use log_forge.Text.{
  Text, codes, text_eq, to_lower, lower_rune, trim_space, trim, trim_left, trim_right, is_space,
}
use log_forge.Errors.{done, failed}
use log_forge.Config.{KafkaSettings}
use log_forge.Queue.{new_queue, check_connectivity, dial_brokers, compression_codec, gzip}
use log_forge.Consumer.{start_service, new_consumer_service}
use log_forge.Ingestion.{RepositoryOps}
use log_forge.Bootstrap.{
  AppConfig, Store, Built, BuildAnswers, build_app, missing, DirAnswers, writable_dir, QueueParts,
  file_store, assemble, build_store, build_queue,
}
use log_forge.Bootstrap.Endpoints.{ReadyAnswers, serve_ready}
use log_forge.Bootstrap.Wiring.{app_producer, app_consumer, Wired, build_app_wires}
use log_forge.Bootstrap.Readiness.{DirectoryReady, StoreReady, KafkaReady, serve_ready_iff}
use log_forge.Tests.Samples.{empty_world, refusal}

abbrev kafka : KafkaSettings
kafka = record {
  brokers = codes "kafka:9092" ∷ [];
  topic = codes "logs";
  group_id = codes "g";
  batch_size = pos 100;
  batch_timeout = pos 0;
  consumers = pos 1;
  require_all_acks = false;
  batch_bytes = pos 0;
  compression = codes "gzip";
  async = false;
}

abbrev app : AppConfig
app = record {
  addr = codes ":8082";
  read_header_timeout = pos 1;
  read_timeout = pos 1;
  write_timeout = pos 1;
  idle_timeout = pos 1;
  request_timeout = pos 1;
  version = pos 2;
  logs_dir = codes "logs";
  analytics_dir = codes "analytics";
  storage_backend = [];
  min_io = record {
    endpoint = [];
    bucket = [];
    access_key = [];
    secret_key = [];
    use_ssl = false;
    logs_prefix = [];
    analytics_prefix = [];
  };
  auth = record { enabled = false; header_name = []; keys = [] };
  aggregation_interval = pos 60;
  kafka_settings = some kafka;
  ingestion = record {
    queue_buffer_size = pos 10;
    producer_workers = pos 2;
    producer_write_timeout = pos 1;
    queue_high_water_percent = pos 900000;
    sync_on_ingest = false;
    circuit_failure_threshold = pos 5;
    circuit_cooldown = pos 1;
  };
  consumer = record { flush_size = pos 10; flush_interval = pos 1; persist_timeout = pos 1 };
}

abbrev calm : BuildAnswers
calm = record {
  options = record {
    client_err = λ endpoint access secret ssl. none;
    writer_variable = [];
    pod_name = [];
    hostname_variable = [];
    hostname = failed refusal;
    process_id = 1;
    now_ns = 1;
  };
  dial = λ broker. (none, none);
  start_consumers = none;
  quoted = λ t. t;
}

abbrev keeper : RepositoryOps Store
keeper = record { save_batch = λ records s w. (s, w, none) }

abbrev parts : QueueParts
parts = record {
  queue = record {
    brokers = codes "kafka:9092" ∷ [];
    topic = codes "logs";
    group_id = codes "g";
    consumers = pos 1;
    batch_size = pos 100;
    batch_bytes = pos 0;
    batch_timeout = pos 1000000000;
    async = false;
    require_all_acks = false;
    codec = gzip;
    kafka_down = false;
    last_down_log_ns = 0;
    last_writer_log_ns = 0;
  };
  consumer = app_consumer keeper calm app (file_store (codes "logs"));
  producer = app_producer app.ingestion;
}

-- The application that BuildApp makes from this configuration.
abbrev built : Built
built = assemble app (file_store (codes "logs")) (writable_dir (codes "logs")) (some parts)

built-app : (build_app keeper calm app empty_world).0 ≡ done built
unfolding build_app build_store text_eq build_queue new_queue check_connectivity dial_brokers
    compression_codec to_lower lower_rune trim_space trim trim_left trim_right is_space
    start_service new_consumer_service
built-app = refl

build_app_wires_example : Wired app built
build_app_wires_example = build_app_wires keeper calm app empty_world built built-app

-- A file system with the two directories, one of them still missing.
abbrev directories : Text → DirAnswers
directories path = record {
  stat = missing;
  mkdir_err = none;
  create_err = none;
  close_err = none;
  remove_err = none;
  temp_path = [];
  quoted = λ t. t;
}

abbrev all_well : ReadyAnswers
all_well = record {
  directories = directories;
  bucket_exists = failed refusal;
  dial = λ broker. (none, none);
  quoted = λ t. t;
}

serve_ready_iff_example :
    ((serve_ready all_well (codes "GET") built empty_world).1.status ≡ 200) ↔ (
      (codes "GET" ≡ codes "GET")
      × DirectoryReady all_well app.analytics_dir
      × StoreReady all_well built.store
      × KafkaReady all_well built.parts)
serve_ready_iff_example =
    serve_ready_iff keeper calm app empty_world built built-app all_well (codes "GET") empty_world
