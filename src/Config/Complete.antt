-- ===== src/Config/Complete.antt =====
-- After applyDefaults of config/config.go no setting is missing.
use log_forge.Prelude.{
  ◌≡◌, ◌⊎◌, inl, inr, refl, ap, ◌∙◌, false, List, [], ◌∷◌, All, arith, Bool-cases, is_empty,
}
use log_forge.Prelude.Int.{ℤ, is_zero, is_nonpos}
use log_forge.Text.{Text, codes, trim_space, is_blank}
use log_forge.Text.Trim.{trim_space-trim_space}
use log_forge.Config.Settings.{Config, AuthSettings}
use log_forge.Config.Defaults.{
  or_if_zero, or_if_blank, server_defaults, trim_keys, auth_defaults, storage_defaults,
  ingestion_defaults, consumer_defaults, kafka_defaults, apply_defaults,
}
use log_forge.Config.Idempotence.{auth_fields, or_if_empty}

abbrev pub IsSet_ℤ : ℤ → Type 0
IsSet_ℤ x = is_zero x ≡ false

abbrev pub IsGiven : Text → Type 0
IsGiven s = is_blank s ≡ false

-- A key as `auth_defaults` keeps it.
abbrev pub IsKey : Text → Type 0
IsKey key = IsGiven key × (trim_space key ≡ key)

abbrev pub IsBackend : Text → Type 0
IsBackend b = (b ≡ codes "file") ⊎ (b ≡ codes "minio")

-- No setting that has a default is missing.
pub record IsComplete (c : Config) : Type 0 where
  pub version_set : IsSet_ℤ c.version
  pub addr_given : IsGiven c.server.addr
  pub read_header_timeout_set : IsSet_ℤ c.server.read_header_timeout
  pub read_timeout_set : IsSet_ℤ c.server.read_timeout
  pub write_timeout_set : IsSet_ℤ c.server.write_timeout
  pub idle_timeout_set : IsSet_ℤ c.server.idle_timeout
  pub request_timeout_set : IsSet_ℤ c.server.request_timeout
  pub logs_dir_given : IsGiven c.storage.logs_dir
  pub analytics_dir_given : IsGiven c.storage.analytics_dir
  pub logs_prefix_given : IsGiven c.storage.min_io.logs_prefix
  pub analytics_prefix_given : IsGiven c.storage.min_io.analytics_prefix
  pub header_name_key : IsKey c.auth.header_name
  pub keys_trimmed : All IsKey c.auth.keys
  pub interval_given : IsGiven c.aggregation.interval
  pub queue_buffer_size_set : IsSet_ℤ c.ingestion.queue_buffer_size
  pub producer_workers_set : IsSet_ℤ c.ingestion.producer_workers
  pub producer_write_timeout_set : IsSet_ℤ c.ingestion.producer_write_timeout
  pub queue_high_water_percent_set : IsSet_ℤ c.ingestion.queue_high_water_percent
  pub circuit_failure_threshold_pos : is_nonpos c.ingestion.circuit_failure_threshold ≡ false
  pub circuit_cooldown_set : IsSet_ℤ c.ingestion.circuit_cooldown
  pub flush_size_set : IsSet_ℤ c.consumer.flush_size
  pub flush_interval_set : IsSet_ℤ c.consumer.flush_interval
  pub persist_timeout_set : IsSet_ℤ c.consumer.persist_timeout
  pub topic_given : IsGiven c.kafka.topic
  pub group_id_given : IsGiven c.kafka.group_id
  pub batch_size_set : IsSet_ℤ c.kafka.batch_size
  pub batch_timeout_set : IsSet_ℤ c.kafka.batch_timeout
  pub consumers_set : IsSet_ℤ c.kafka.consumers
  pub compression_given : IsGiven c.kafka.compression

or_if_zero_set : (x d : ℤ) → is_zero d ≡ false → IsSet_ℤ (or_if_zero x d)
or_if_zero_set x d h = ground arith

or_if_blank-IsGiven : (s d : Text) → is_blank d ≡ false → IsGiven (or_if_blank s d)
or_if_blank-IsGiven s d h = ground arith

or_if_empty-IsKey : (s d : Text) → IsKey d → IsKey (or_if_empty (trim_space s) d)
unfolding is_blank
or_if_empty-IsKey s d (g, t) = elim (Bool-cases (is_empty (trim_space s))) [
  | inl e ↦ rw e (g, t)
  | inr e ↦ rw e (ap is_empty (trim_space-trim_space s) ∙ e, trim_space-trim_space s)
]

trim_keys_trimmed : (keys : List Text) → All IsKey (trim_keys keys)
unfolding trim_keys is_blank
trim_keys_trimmed [] = tt
trim_keys_trimmed (key ∷ keys) = elim (Bool-cases (is_empty (trim_space key))) [
  | inl e ↦ rw e (trim_keys_trimmed keys)
  | inr e ↦ rw e (
    (ap is_empty (trim_space-trim_space key) ∙ e, trim_space-trim_space key),
    trim_keys_trimmed keys,
  )
]

auth_complete :
    (a : AuthSettings) → IsKey (auth_defaults a).header_name × All IsKey (auth_defaults a).keys
unfolding is_blank trim_space
auth_complete a =
    rw (auth_fields a)
      (or_if_empty-IsKey a.header_name (codes "X-API-Key") (refl, refl), trim_keys_trimmed a.keys)

pub apply_defaults-IsComplete : (c : Config) → IsComplete (apply_defaults c)
unfolding apply_defaults server_defaults storage_defaults ingestion_defaults consumer_defaults
    kafka_defaults is_blank
apply_defaults-IsComplete c =
    let auth = auth_complete c.auth in
    record {
      version_set = or_if_zero_set c.version _ refl;
      addr_given = or_if_blank-IsGiven c.server.addr _ refl;
      read_header_timeout_set = or_if_zero_set c.server.read_header_timeout _ refl;
      read_timeout_set = or_if_zero_set c.server.read_timeout _ refl;
      write_timeout_set = or_if_zero_set c.server.write_timeout _ refl;
      idle_timeout_set = or_if_zero_set c.server.idle_timeout _ refl;
      request_timeout_set = or_if_zero_set c.server.request_timeout _ refl;
      logs_dir_given = or_if_blank-IsGiven c.storage.logs_dir _ refl;
      analytics_dir_given = or_if_blank-IsGiven c.storage.analytics_dir _ refl;
      logs_prefix_given = or_if_blank-IsGiven c.storage.min_io.logs_prefix _ refl;
      analytics_prefix_given = or_if_blank-IsGiven c.storage.min_io.analytics_prefix _ refl;
      header_name_key = auth.0;
      keys_trimmed = auth.1;
      interval_given = or_if_blank-IsGiven c.aggregation.interval _ refl;
      queue_buffer_size_set = or_if_zero_set c.ingestion.queue_buffer_size _ refl;
      producer_workers_set = or_if_zero_set c.ingestion.producer_workers _ refl;
      producer_write_timeout_set = or_if_zero_set c.ingestion.producer_write_timeout _ refl;
      queue_high_water_percent_set = or_if_zero_set c.ingestion.queue_high_water_percent _ refl;
      circuit_failure_threshold_pos = ground arith;
      circuit_cooldown_set = or_if_zero_set c.ingestion.circuit_cooldown _ refl;
      flush_size_set = or_if_zero_set c.consumer.flush_size _ refl;
      flush_interval_set = or_if_zero_set c.consumer.flush_interval _ refl;
      persist_timeout_set = or_if_zero_set c.consumer.persist_timeout _ refl;
      topic_given = or_if_blank-IsGiven c.kafka.topic _ refl;
      group_id_given = or_if_blank-IsGiven c.kafka.group_id _ refl;
      batch_size_set = or_if_zero_set c.kafka.batch_size _ refl;
      batch_timeout_set = or_if_zero_set c.kafka.batch_timeout _ refl;
      consumers_set = or_if_zero_set c.kafka.consumers _ refl;
      compression_given = or_if_blank-IsGiven c.kafka.compression _ refl;
    }
