-- ===== src/Config.antt =====
-- config/config.go: the configuration file's sections, their defaults, and Load. Reading the file,
-- the YAML parser and `time.ParseDuration` are parameters.
mod Settings
mod Defaults
pub mod Idempotence
pub mod Complete
pub mod Load
pub use Settings.{
  Config, ServerConfig, AuthSettings, MinIoSettings, StorageConfig, AggregationConfig,
  IngestionSettings, ConsumerSettings, KafkaSettings,
}
pub use Defaults.{FileOps}
unfoldable pub use Defaults.{
  normalized, storage_defaults, apply_defaults, validate, load, aggregation_interval,
}
