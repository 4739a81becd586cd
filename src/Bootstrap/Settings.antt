-- ===== src/Bootstrap/Settings.antt =====
-- cmd/bootstrap/app.go: the build metadata and NewAppWithBuildInfo.
use log_forge.Prelude.{Option, some, if◌then◌else◌}
use log_forge.Prelude.Int.{ℤ, pos, is_nonpos}
use log_forge.Text.{Text, codes, is_blank}
use log_forge.Errors.{message, wrap, Result, done, failed}
use log_forge.Config.{
  Config, FileOps, AuthSettings, MinIoSettings, IngestionSettings, ConsumerSettings, KafkaSettings,
  load, aggregation_interval,
}

pub record BuildInfo : Type 0 where
  pub version : Text
  pub commit : Text
  pub build_date : Text

-- `normalizeBuildInfo`.
unfoldable pub normalize_build_info : BuildInfo → BuildInfo
normalize_build_info info = record {
  version = if is_blank info.version then codes "dev" else info.version;
  commit = if is_blank info.commit then codes "none" else info.commit;
  build_date = if is_blank info.build_date then codes "unknown" else info.build_date;
}

pub record AppConfig : Type 0 where
  pub addr : Text
  pub read_header_timeout : ℤ
  pub read_timeout : ℤ
  pub write_timeout : ℤ
  pub idle_timeout : ℤ
  pub request_timeout : ℤ
  pub version : ℤ
  pub logs_dir : Text
  pub analytics_dir : Text
  pub storage_backend : Text
  pub min_io : MinIoSettings
  pub auth : AuthSettings
  pub aggregation_interval : ℤ
  pub kafka_settings : Option KafkaSettings
  pub ingestion : IngestionSettings
  pub consumer : ConsumerSettings

pub record App : Type 0 where
  pub cfg : AppConfig
  pub build_info : BuildInfo

abbrev pub app_config : Config → ℤ → AppConfig
app_config c interval = record {
  addr = c.server.addr;
  read_header_timeout = c.server.read_header_timeout;
  read_timeout = c.server.read_timeout;
  write_timeout = c.server.write_timeout;
  idle_timeout = c.server.idle_timeout;
  request_timeout = c.server.request_timeout;
  version = c.version;
  logs_dir = c.storage.logs_dir;
  analytics_dir = c.storage.analytics_dir;
  storage_backend = c.storage.backend;
  min_io = c.storage.min_io;
  auth = c.auth;
  aggregation_interval = interval;
  kafka_settings = some c.kafka;
  ingestion = c.ingestion;
  consumer = c.consumer;
}

-- `NewAppWithBuildInfo`; `parse` is time.ParseDuration.
unfoldable pub new_app_with_build_info : FileOps → (Text → Result ℤ) → Text → BuildInfo → Result App
unfolding load normalize_build_info
new_app_with_build_info files parse config_path build_info =
    if is_blank config_path
    then failed (message (codes "config file path is required"))
    else elim (load files config_path) [
      | failed e ↦ failed (wrap (codes "load config file: ") e)
      | done c ↦ elim (log_forge.Config.aggregation_interval parse c (pos 0)) [
        | failed e ↦ failed (wrap (codes "invalid aggregation interval: ") e)
        | done interval ↦
            if is_nonpos interval
            then failed (message (codes "aggregation interval must be positive"))
            else done (record {
              cfg = app_config c interval;
              build_info = normalize_build_info build_info;
            })
      ]
    ]
