-- ===== src/Config/Idempotence.antt =====
-- The defaults of config/config.go are set once and for all.
use log_forge.Prelude.{
  ℕ, ◌≡◌, inl, inr, refl, ap, sym, ◌∙◌, false, List, [], ◌∷◌, arith, Bool-cases, is_empty,
  if◌then◌else◌, map,
}
use log_forge.Prelude.Int.{ℤ, pos, is_zero, is_nonpos}
use log_forge.Text.{
  Text, codes, trim_space, trim, trim_left, trim_right, is_space, is_blank, to_lower, lower_rune,
}
use log_forge.Text.Trim.{trim_space-trim_space}
use log_forge.Config.Settings.{
  Config, ServerConfig, AuthSettings, StorageConfig, IngestionSettings, ConsumerSettings,
  KafkaSettings,
}
use log_forge.Config.Defaults.{
  or_if_zero, or_if_nonpos, or_if_blank, server_defaults, trim_keys, auth_defaults, normalized,
  storage_defaults, ingestion_defaults, consumer_defaults, kafka_defaults, apply_defaults, second,
}

zero_twice : (x d : ℤ) → is_zero d ≡ false → or_if_zero (or_if_zero x d) d ≡ or_if_zero x d
zero_twice x d h = ground arith

nonpos_twice :
    (x d : ℤ) → is_nonpos d ≡ false → or_if_nonpos (or_if_nonpos x d) d ≡ or_if_nonpos x d
nonpos_twice x d h = ground arith

blank_twice : (s d : Text) → is_blank d ≡ false → or_if_blank (or_if_blank s d) d ≡ or_if_blank s d
blank_twice s d h = ground arith

is_space-lower_rune : (c : ℕ) → is_space (lower_rune c) ≡ is_space c
unfolding is_space lower_rune
is_space-lower_rune c = ground arith

lower_rune-lower_rune : (c : ℕ) → lower_rune (lower_rune c) ≡ lower_rune c
unfolding lower_rune
lower_rune-lower_rune c = ground arith

map-trim_left :
    (s : Text) → trim_left is_space (map lower_rune s) ≡ map lower_rune (trim_left is_space s)
unfolding trim_left
map-trim_left [] = refl
map-trim_left (c ∷ s) = ground (arith, map-trim_left s, is_space-lower_rune c)

is_empty-map : (f : ℕ → ℕ) (s : Text) → is_empty (map f s) ≡ is_empty s
is_empty-map f [] = refl
is_empty-map f (c ∷ s) = refl

map-trim_right :
    (s : Text) → trim_right is_space (map lower_rune s) ≡ map lower_rune (trim_right is_space s)
unfolding trim_right
map-trim_right [] = refl
map-trim_right (c ∷ s) = ground (
  arith,
  map-trim_right s,
  is_space-lower_rune c,
  is_empty-map lower_rune (trim_right is_space s),
)

map-map : (s : Text) → map lower_rune (map lower_rune s) ≡ map lower_rune s
map-map [] = refl
map-map (c ∷ s) = cc (lower_rune-lower_rune c, map-map s)

trim_space-to_lower : (s : Text) → trim_space (to_lower s) ≡ to_lower (trim_space s)
unfolding trim_space trim to_lower
trim_space-to_lower s =
    ap (trim_right is_space) (map-trim_left s) ∙ map-trim_right (trim_left is_space s)

pub normalized-normalized : (b : Text) → normalized (normalized b) ≡ normalized b
unfolding normalized to_lower
normalized-normalized b =
    ap to_lower (trim_space-to_lower (trim_space b) ∙ ap to_lower (trim_space-trim_space b))
    ∙ map-map (trim_space b)

server_twice : (s : ServerConfig) → server_defaults (server_defaults s) ≡ server_defaults s
unfolding server_defaults
server_twice s = ground arith

consumer_twice :
    (s : ConsumerSettings) → consumer_defaults (consumer_defaults s) ≡ consumer_defaults s
unfolding consumer_defaults
consumer_twice s = ground arith

ingestion_twice :
    (i : IngestionSettings) → ingestion_defaults (ingestion_defaults i) ≡ ingestion_defaults i
unfolding ingestion_defaults
ingestion_twice i = ground arith

kafka_twice : (k : KafkaSettings) → kafka_defaults (kafka_defaults k) ≡ kafka_defaults k
unfolding kafka_defaults is_blank
kafka_twice k = cc (
  blank_twice k.topic (codes "logs") refl,
  blank_twice k.group_id (codes "logs-consumer-group") refl,
  blank_twice k.compression (codes "none") refl,
  zero_twice k.batch_size (pos 100) refl,
  zero_twice k.batch_timeout (pos second) refl,
  zero_twice k.consumers (pos 1) refl,
)

-- What a trimmed text becomes where a blank one has a default.
abbrev pub or_if_empty : Text → Text → Text
or_if_empty s d = if is_empty s then d else s

or_if_empty_twice :
    (f : Text → Text) (s d : Text)
    → f d ≡ d
    → f (f s) ≡ f s
    → or_if_empty (f (or_if_empty (f s) d)) d ≡ or_if_empty (f s) d
or_if_empty_twice f s d h g = elim (Bool-cases (is_empty (f s))) [
  | inl e ↦ rw (e, h) (ground arith)
  | inr e ↦ rw (e, g, e) refl
]

storage_twice : (s : StorageConfig) → storage_defaults (storage_defaults s) ≡ storage_defaults s
unfolding storage_defaults is_blank normalized
storage_twice s =
    let file =
      or_if_empty_twice normalized s.backend (codes "file") refl
        (normalized-normalized s.backend) in
    let logs = blank_twice s.logs_dir (codes "logs") refl in
    let analytics = blank_twice s.analytics_dir (codes "analytics") refl in
    let logs_prefix = blank_twice s.min_io.logs_prefix (codes "logs") refl in
    let analytics_prefix = blank_twice s.min_io.analytics_prefix (codes "analytics") refl in
    λ i. record s {
      backend = file i;
      logs_dir = logs i;
      analytics_dir = analytics i;
      min_io = record (s.min_io) {
        logs_prefix = logs_prefix i;
        analytics_prefix = analytics_prefix i;
      };
    }

trim_keys-trim_keys : (keys : List Text) → trim_keys (trim_keys keys) ≡ trim_keys keys
unfolding trim_keys
trim_keys-trim_keys [] = refl
trim_keys-trim_keys (key ∷ keys) =
    ground (arith, trim_keys-trim_keys keys, trim_space-trim_space key)

-- What `auth_defaults` sets.
abbrev pub set_auth : AuthSettings → AuthSettings
set_auth a = record a {
  header_name = or_if_empty (trim_space a.header_name) (codes "X-API-Key");
  keys = trim_keys a.keys;
}

auth_with_keys :
    (a : AuthSettings) (keys : List Text)
    → auth_defaults (record a { keys = keys }) ≡ set_auth (record a { keys = keys })
unfolding auth_defaults trim_keys
auth_with_keys a [] = refl
auth_with_keys a (key ∷ keys) = refl

pub auth_fields : (a : AuthSettings) → auth_defaults a ≡ set_auth a
auth_fields a = auth_with_keys a a.keys

auth_twice : (a : AuthSettings) → auth_defaults (auth_defaults a) ≡ auth_defaults a
unfolding trim_space
auth_twice a =
    let header =
      or_if_empty_twice trim_space a.header_name (codes "X-API-Key") refl
        (trim_space-trim_space a.header_name) in
    let keys = trim_keys-trim_keys a.keys in
    auth_fields (auth_defaults a)
    ∙ ap set_auth (auth_fields a)
    ∙ (λ i. record a { header_name = header i; keys = keys i })
    ∙ sym (auth_fields a)

agg_twice :
    (c : Config) → (apply_defaults (apply_defaults c)).aggregation ≡ (apply_defaults c).aggregation
unfolding apply_defaults is_blank
agg_twice c = λ i. record { interval = blank_twice c.aggregation.interval (codes "1m") refl i }

addr_twice : (c : Config) → (apply_defaults (apply_defaults c)).server ≡ (apply_defaults c).server
unfolding apply_defaults server_defaults is_blank
addr_twice c =
    let addr = blank_twice c.server.addr (codes ":8082") refl in
    let twice = server_twice c.server in λ i. record (twice i) { addr = addr i }

-- The defaults of a configuration are set once and for all: applying them to a configuration that
-- has them changes nothing, in any section.
pub apply_defaults-apply_defaults :
    (c : Config) → apply_defaults (apply_defaults c) ≡ apply_defaults c
unfolding apply_defaults
apply_defaults-apply_defaults c =
    let version = zero_twice c.version (pos 1) refl in
    λ i. record {
      version = version i;
      server = addr_twice c i;
      storage = storage_twice c.storage i;
      auth = auth_twice c.auth i;
      aggregation = agg_twice c i;
      ingestion = ingestion_twice c.ingestion i;
      consumer = consumer_twice c.consumer i;
      kafka = kafka_twice c.kafka i;
    }
