-- ===== src/Config/Settings.antt =====
-- config/config.go: the sections of the configuration file, with the YAML tags left out.
use log_forge.Prelude.{Bool, List}
use log_forge.Prelude.Int.{ℤ}
use log_forge.Text.{Text}

-- The durations of a configuration are in nanoseconds.
pub record ServerConfig : Type 0 where
  pub addr : Text
  pub read_header_timeout : ℤ
  pub read_timeout : ℤ
  pub write_timeout : ℤ
  pub idle_timeout : ℤ
  pub request_timeout : ℤ

pub record AuthSettings : Type 0 where
  pub enabled : Bool
  pub header_name : Text
  pub keys : List Text

pub record MinIoSettings : Type 0 where
  pub endpoint : Text
  pub bucket : Text
  pub access_key : Text
  pub secret_key : Text
  pub use_ssl : Bool
  pub logs_prefix : Text
  pub analytics_prefix : Text

pub record StorageConfig : Type 0 where
  pub backend : Text
  pub logs_dir : Text
  pub analytics_dir : Text
  pub min_io : MinIoSettings

pub record AggregationConfig : Type 0 where
  pub interval : Text

-- `queue_high_water_percent` is a float64 in the source; here it counts millionths.
pub record IngestionSettings : Type 0 where
  pub queue_buffer_size : ℤ
  pub producer_workers : ℤ
  pub producer_write_timeout : ℤ
  pub queue_high_water_percent : ℤ
  pub sync_on_ingest : Bool
  pub circuit_failure_threshold : ℤ
  pub circuit_cooldown : ℤ

pub record ConsumerSettings : Type 0 where
  pub flush_size : ℤ
  pub flush_interval : ℤ
  pub persist_timeout : ℤ

pub record KafkaSettings : Type 0 where
  pub brokers : List Text
  pub topic : Text
  pub group_id : Text
  pub batch_size : ℤ
  pub batch_timeout : ℤ
  pub consumers : ℤ
  pub require_all_acks : Bool
  pub batch_bytes : ℤ
  pub compression : Text
  pub async : Bool

pub record Config : Type 0 where
  pub version : ℤ
  pub server : ServerConfig
  pub storage : StorageConfig
  pub auth : AuthSettings
  pub aggregation : AggregationConfig
  pub ingestion : IngestionSettings
  pub consumer : ConsumerSettings
  pub kafka : KafkaSettings
