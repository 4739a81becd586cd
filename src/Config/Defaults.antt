-- ===== src/Config/Defaults.antt =====
-- config/config.go: the defaults of each section, validate, Load and AggregationInterval.
use log_forge.Prelude.{
  ℕ, Bool, ◌||◌, ◌++◌, List, [], ◌∷◌, ◌*◌, Option, none, some, if◌then◌else◌, is_empty,
}
use log_forge.Prelude.Int.{ℤ, pos, is_zero, is_nonpos}
use log_forge.Text.{Text, codes, trim_space, is_blank, to_lower, text_eq}
use log_forge.Errors.{Err, message, wrap, Result, done, failed}
use log_forge.Config.Settings.{
  Config, ServerConfig, AuthSettings, StorageConfig, IngestionSettings, ConsumerSettings,
  KafkaSettings,
}

-- `if x == 0 { x = d }`, `if x <= 0 { x = d }` and `if strings.TrimSpace(s) == "" { s = d }`.
abbrev pub or_if_zero : ℤ → ℤ → ℤ
or_if_zero x d = if is_zero x then d else x

abbrev pub or_if_nonpos : ℤ → ℤ → ℤ
or_if_nonpos x d = if is_nonpos x then d else x

abbrev pub or_if_blank : Text → Text → Text
or_if_blank s d = if is_blank s then d else s

abbrev pub second : ℕ
second = 1000000000

-- `ServerConfig.applyDefaults`.
unfoldable pub server_defaults : ServerConfig → ServerConfig
server_defaults s = record s {
  read_header_timeout = or_if_zero s.read_header_timeout (pos (2 * second));
  read_timeout = or_if_zero s.read_timeout (pos (10 * second));
  write_timeout = or_if_zero s.write_timeout (pos (10 * second));
  idle_timeout = or_if_zero s.idle_timeout (pos (60 * second));
  request_timeout = or_if_zero s.request_timeout (pos (5 * second));
}

-- The loop of `AuthSettings.applyDefaults`: keys are trimmed, and blank ones dropped.
unfoldable pub trim_keys : List Text → List Text
trim_keys [] = []
trim_keys (key ∷ keys) =
    let rest = trim_keys keys in
    let trimmed = trim_space key in if is_empty trimmed then rest else trimmed ∷ rest

-- `AuthSettings.applyDefaults`.
unfoldable pub auth_defaults : AuthSettings → AuthSettings
auth_defaults a =
    let trimmed = trim_space a.header_name in
    let named = record a {
      header_name = if is_empty trimmed then codes "X-API-Key" else trimmed;
    } in
    if is_empty named.keys then named else record named { keys = trim_keys named.keys }

-- `StorageBackend.normalized`.
unfoldable pub normalized : Text → Text
unfolding to_lower trim_space
normalized b = to_lower (trim_space b)

-- `StorageBackend.IsValid`.
unfoldable pub is_valid_backend : Text → Bool
is_valid_backend b = text_eq (normalized b) (codes "file") || text_eq (normalized b) (codes "minio")

-- `StorageConfig.applyDefaults`.
unfoldable pub storage_defaults : StorageConfig → StorageConfig
storage_defaults s =
    let backend = normalized s.backend in
    record s {
      backend = if is_empty backend then codes "file" else backend;
      logs_dir = or_if_blank s.logs_dir (codes "logs");
      analytics_dir = or_if_blank s.analytics_dir (codes "analytics");
      min_io = record (s.min_io) {
        logs_prefix = or_if_blank s.min_io.logs_prefix (codes "logs");
        analytics_prefix = or_if_blank s.min_io.analytics_prefix (codes "analytics");
      };
    }

-- `IngestionSettings.applyDefaults`.
unfoldable pub ingestion_defaults : IngestionSettings → IngestionSettings
ingestion_defaults i = record i {
  queue_buffer_size = or_if_zero i.queue_buffer_size (pos 10000);
  producer_workers = or_if_zero i.producer_workers (pos 10);
  producer_write_timeout = or_if_zero i.producer_write_timeout (pos (10 * second));
  queue_high_water_percent = or_if_zero i.queue_high_water_percent (pos 900000);
  circuit_failure_threshold = or_if_nonpos i.circuit_failure_threshold (pos 5);
  circuit_cooldown = or_if_zero i.circuit_cooldown (pos (10 * second));
}

-- `ConsumerSettings.applyDefaults`.
unfoldable pub consumer_defaults : ConsumerSettings → ConsumerSettings
consumer_defaults c = record c {
  flush_size = or_if_zero c.flush_size (pos 512);
  flush_interval = or_if_zero c.flush_interval (pos 500000000);
  persist_timeout = or_if_zero c.persist_timeout (pos (5 * second));
}

-- `KafkaSettings.applyDefaults`.
unfoldable pub kafka_defaults : KafkaSettings → KafkaSettings
kafka_defaults k = record k {
  topic = or_if_blank k.topic (codes "logs");
  group_id = or_if_blank k.group_id (codes "logs-consumer-group");
  batch_size = or_if_zero k.batch_size (pos 100);
  batch_timeout = or_if_zero k.batch_timeout (pos second);
  consumers = or_if_zero k.consumers (pos 1);
  compression = or_if_blank k.compression (codes "none");
}

-- `Config.applyDefaults`.
unfoldable pub apply_defaults : Config → Config
apply_defaults c = record c {
  version = or_if_zero c.version (pos 1);
  server = server_defaults (record (c.server) { addr = or_if_blank c.server.addr (codes ":8082") });
  storage = storage_defaults c.storage;
  auth = auth_defaults c.auth;
  aggregation = record { interval = or_if_blank c.aggregation.interval (codes "1m") };
  ingestion = ingestion_defaults c.ingestion;
  consumer = consumer_defaults c.consumer;
  kafka = kafka_defaults c.kafka;
}

-- `Config.validate`: nil or the error. `quoted` is the backend as `%q` prints it.
unfoldable pub validate : (Text → Text) → Config → Option Err
validate quoted c =
    if is_valid_backend c.storage.backend
    then none
    else some (message (codes "invalid storage backend " ++ quoted c.storage.backend))

-- What Load calls: `os.ReadFile`, `yaml.Unmarshal` and the verb `%q`.
pub record FileOps : Type 0 where
  pub read_file : Text → Result Text
  pub unmarshal : Text → Result Config
  pub quoted : Text → Text

-- `Load`.
unfoldable pub load : FileOps → Text → Result Config
load files path = elim (files.read_file path) [
  | failed e ↦ failed (wrap (codes "read config: ") e)
  | done data_ ↦ elim (files.unmarshal data_) [
    | failed e ↦ failed (wrap (codes "parse config: ") e)
    | done cfg ↦ elim (validate files.quoted (apply_defaults cfg)) [
      | some e ↦ failed e
      | none ↦ done (apply_defaults cfg)
    ]
  ]
]

-- `Config.AggregationInterval`, with `parseDurationOrFallback`. `parse` is `time.ParseDuration`.
unfoldable pub aggregation_interval : (Text → Result ℤ) → Config → ℤ → Result ℤ
aggregation_interval parse c fallback =
    let value = trim_space c.aggregation.interval in
    if is_empty value
    then done fallback
    else elim (parse value) [ failed e ↦ failed e | done d ↦ done d ]
