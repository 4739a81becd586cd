-- ===== src/Tests/ConfigRuns.antt =====
-- Loading configurations (config/config.go).
use log_forge.Prelude.{◌≡◌, ◌↔◌, inr, refl, false, [], ◌∷◌}
use log_forge.Prelude.Int.{pos, negsuc}
use log_forge.Text.{Text, codes}
use log_forge.Errors.{done}
use log_forge.Config.{Config, FileOps, apply_defaults, storage_defaults, normalized, load}
use log_forge.Config.Complete.{IsComplete, IsBackend}
use log_forge.Config.Load.{load_accepts_iff, load-IsComplete}

-- A file that sets the backend, two keys and a threshold, and nothing else.
abbrev sparse : Config
sparse = record {
  version = pos 0;
  server = record {
    addr = [];
    read_header_timeout = pos 0;
    read_timeout = pos 0;
    write_timeout = pos 0;
    idle_timeout = pos 0;
    request_timeout = pos 7;
  };
  storage = record {
    backend = codes " MinIO ";
    logs_dir = [];
    analytics_dir = [];
    min_io = record {
      endpoint = [];
      bucket = [];
      access_key = [];
      secret_key = [];
      use_ssl = false;
      logs_prefix = [];
      analytics_prefix = [];
    };
  };
  auth = record {
    enabled = false;
    header_name = codes " X-Key ";
    keys = codes " secret " ∷ codes " " ∷ [];
  };
  aggregation = record { interval = [] };
  ingestion = record {
    queue_buffer_size = pos 0;
    producer_workers = pos 0;
    producer_write_timeout = pos 0;
    queue_high_water_percent = pos 0;
    sync_on_ingest = false;
    circuit_failure_threshold = negsuc 0;
    circuit_cooldown = pos 0;
  };
  consumer = record { flush_size = pos 0; flush_interval = pos 0; persist_timeout = pos 0 };
  kafka = record {
    brokers = [];
    topic = [];
    group_id = [];
    batch_size = pos 0;
    batch_timeout = pos 0;
    consumers = pos 0;
    require_all_acks = false;
    batch_bytes = pos 0;
    compression = [];
    async = false;
  };
}

abbrev files : FileOps
files = record { read_file = λ path. done path; unmarshal = λ text. done sparse; quoted = λ s. s }

load_accepts_iff_example : (load files (codes "app.yaml") ≡ done (apply_defaults sparse)) ↔ (
    (text : Text) × (raw : Config) × (files.read_file (codes "app.yaml") ≡ done text)
    × (files.unmarshal text ≡ done raw)
    × (apply_defaults sparse ≡ apply_defaults raw)
    × IsBackend (apply_defaults sparse).storage.backend)
load_accepts_iff_example = load_accepts_iff files (codes "app.yaml") (apply_defaults sparse)

-- The backend's name may have space around it and letters of any case.
minio_chosen : (apply_defaults sparse).storage.backend ≡ codes "minio"
unfolding apply_defaults storage_defaults normalized
minio_chosen = refl

loaded : load files (codes "app.yaml") ≡ done (apply_defaults sparse)
loaded =
    let accepts = load_accepts_iff files (codes "app.yaml") (apply_defaults sparse) in
    accepts.1 (codes "app.yaml", sparse, refl, refl, refl, inr minio_chosen)

load-IsComplete_example :
    IsComplete (apply_defaults sparse)
    × (apply_defaults (apply_defaults sparse) ≡ apply_defaults sparse)
load-IsComplete_example = load-IsComplete files (codes "app.yaml") (apply_defaults sparse) loaded
