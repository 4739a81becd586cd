-- ===== src/Config/Load.antt =====
-- What Load of config/config.go accepts, and what holds of the configuration that it returns.
use log_forge.Prelude.{
  ◌≡◌, ◌⊎◌, ◌↔◌, if◌then◌else◌, Option-cases, inl, inr, refl, ap, sym, ◌∙◌, Bool, true, arith,
  Bool-cases, is_empty, none, some, ◌||◌,
}
use log_forge.Text.{Text, codes, text_eq}
use log_forge.Text.Trim.{text_eq_iff}
use log_forge.Errors.{Err, wrap, done, failed}
use log_forge.Errors.Cases.{Result-cases, done_injective, done_not_failed}
use log_forge.Config.Settings.{Config, StorageConfig}
use log_forge.Config.Defaults.{
  normalized, is_valid_backend, storage_defaults, apply_defaults, validate, FileOps, load,
}
use log_forge.Config.Idempotence.{normalized-normalized, apply_defaults-apply_defaults}
use log_forge.Config.Complete.{IsBackend, IsComplete, apply_defaults-IsComplete}

default_backend_normal :
    (s : StorageConfig) → normalized (storage_defaults s).backend ≡ (storage_defaults s).backend
unfolding storage_defaults normalized
default_backend_normal s = elim (Bool-cases (is_empty (normalized s.backend))) [
  | inl e ↦ rw e refl
  | inr e ↦ rw e (normalized-normalized s.backend)
]

or_iff : (a b : Bool) → ((a || b) ≡ true) ↔ ((a ≡ true) ⊎ (b ≡ true))
or_iff a b = ground arith

backend_valid_iff :
    (s : StorageConfig)
    → let b = (storage_defaults s).backend in (is_valid_backend b ≡ true) ↔ IsBackend b
unfolding is_valid_backend
backend_valid_iff s =
    let b = (storage_defaults s).backend in
    let o = or_iff (text_eq b (codes "file")) (text_eq b (codes "minio")) in
    let f = text_eq_iff b (codes "file") in
    let m = text_eq_iff b (codes "minio") in
    rw (default_backend_normal s) (
      (λ h. elim (o.0 h) [ inl e ↦ inl (f.0 e) | inr e ↦ inr (m.0 e) ]),
      (λ h. elim h [ inl e ↦ o.1 (inl (f.1 e)) | inr e ↦ o.1 (inr (m.1 e)) ]),
    )

guard_iff : (b : Bool) (e : Err) → ((if b then none else some e) ≡ none) ↔ (b ≡ true)
guard_iff b e = ground arith

validate_iff :
    (files : FileOps) (c : Config)
    → let d = apply_defaults c in (validate files.quoted d ≡ none) ↔ IsBackend d.storage.backend
unfolding validate apply_defaults
validate_iff files c =
    let v = backend_valid_iff c.storage in
    let g = guard_iff (is_valid_backend (storage_defaults c.storage).backend) _ in
    ((λ h. v.0 (g.0 h)), (λ h. g.1 (v.1 h)))

module _ (files : FileOps) (path : Text) where
  load_unread :
      (e : Err)
      → files.read_file path ≡ failed e
      → load files path ≡ failed (wrap (codes "read config: ") e)
  unfolding load
  load_unread e h = ground arith

  load_unparsed :
      (text : Text) (e : Err)
      → files.read_file path ≡ done text
      → files.unmarshal text ≡ failed e
      → load files path ≡ failed (wrap (codes "parse config: ") e)
  unfolding load
  load_unparsed text e h u = ground arith

  load_valid :
      (text : Text) (raw : Config)
      → files.read_file path ≡ done text
      → files.unmarshal text ≡ done raw
      → validate files.quoted (apply_defaults raw) ≡ none
      → load files path ≡ done (apply_defaults raw)
  unfolding load
  load_valid text raw h u v = ground arith

  load_invalid :
      (text : Text) (raw : Config) (e : Err)
      → files.read_file path ≡ done text
      → files.unmarshal text ≡ done raw
      → validate files.quoted (apply_defaults raw) ≡ some e
      → load files path ≡ failed e
  unfolding load
  load_invalid text raw e h u v = ground arith

-- What Load has read when it returns a configuration.
abbrev Accepted : FileOps → Text → Config → Type 0
Accepted files path c =
    (text : Text) × (raw : Config) × (files.read_file path ≡ done text)
    × (files.unmarshal text ≡ done raw)
    × (c ≡ apply_defaults raw)
    × IsBackend c.storage.backend

load_accepted :
    (files : FileOps) (path : Text) (c : Config) → load files path ≡ done c → Accepted files path c
load_accepted files path c h = elim (Result-cases (files.read_file path)) [
  | inr (e, r) ↦ elim (done_not_failed c _ (sym (load_unread files path e r) ∙ h)) [ ]
  | inl (text, r) ↦ elim (Result-cases (files.unmarshal text)) [
    | inr (e, u) ↦ elim (done_not_failed c _ (sym (load_unparsed files path text e r u) ∙ h)) [ ]
    | inl (raw, u) ↦ elim (Option-cases (validate files.quoted (apply_defaults raw))) [
      | inr (e, v) ↦
          elim (done_not_failed c _ (sym (load_invalid files path text raw e r u v) ∙ h)) [ ]
      | inl v ↦
          let same = sym h ∙ load_valid files path text raw r u v in
          let same_config = done_injective c (apply_defaults raw) same in
          let backend = (validate_iff files raw).0 v in
          (text, raw, r, u, same_config, rw same_config backend)
    ]
  ]
]

load_accepts :
    (files : FileOps) (path : Text) (c : Config) → Accepted files path c → load files path ≡ done c
load_accepts files path c (text, raw, r, u, same, backend) =
    let valid = (validate_iff files raw).1 (rw (sym same) backend) in
    load_valid files path text raw r u valid ∙ ap done (sym same)

-- Load returns a configuration exactly if the file is read, its text parses to a configuration, and
-- the result is that one with its defaults set, whose backend is then `file` or `minio`.
pub load_accepts_iff :
    (files : FileOps) (path : Text) (c : Config)
    → (load files path ≡ done c) ↔ (
        (text : Text) × (raw : Config) × (files.read_file path ≡ done text)
        × (files.unmarshal text ≡ done raw)
        × (c ≡ apply_defaults raw)
        × IsBackend c.storage.backend)
load_accepts_iff files path c = (load_accepted files path c, load_accepts files path c)

-- A configuration that Load returns misses nothing: every setting that has a default is set (no
-- zero number or duration, no blank text), the failure threshold of the circuit is positive, the
-- header name and the API keys are trimmed and not blank, and setting the defaults once more
-- changes nothing.
pub load-IsComplete :
    (files : FileOps) (path : Text) (c : Config)
    → load files path ≡ done c
    → IsComplete c × (apply_defaults c ≡ c)
load-IsComplete files path c h =
    let (text, raw, r, u, same, backend) = load_accepted files path c h in
    rw same (apply_defaults-IsComplete raw, apply_defaults-apply_defaults raw)
