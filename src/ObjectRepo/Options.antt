-- ===== src/ObjectRepo/Options.antt =====
-- repo/minio_repo.go: NewMinIORepo and the identifier of a writer.
use log_forge.Prelude.{
  ℕ, Bool, ◌||◌, ◌&&◌, Option, some, none, List, [], ◌∷◌, ◌++◌, ◌==◌, leb, map, if◌then◌else◌,
  is_empty,
}
use log_forge.Text.{Text, codes, trim, trim_space, is_blank, decimal}
use log_forge.Errors.{Err, message, wrap, Result, done, failed}
use log_forge.ObjectRepo.{ObjectRepo}

pub record ObjectRepoOptions : Type 0 where
  pub endpoint : Text
  pub bucket : Text
  pub access_key : Text
  pub secret_key : Text
  pub use_ssl : Bool
  pub logs_prefix : Text
  pub writer_id : Text
  -- Whether the caller gives a client of its own.
  pub has_client : Bool

-- What the client library, the environment, the host and the clock answer.
pub record OptionAnswers : Type 0 where
  pub client_err : Text → Text → Text → Bool → Option Err
  -- LOGFORGE_WRITER_ID, POD_NAME and HOSTNAME.
  pub writer_variable : Text
  pub pod_name : Text
  pub hostname_variable : Text
  pub hostname : Result Text
  pub process_id : ℕ
  pub now_ns : ℕ

-- The characters that a writer's identifier keeps.
unfoldable pub is_writer_rune : ℕ → Bool
is_writer_rune c =
    (leb b'a' c && leb c b'z')
    || (leb b'A' c && leb c b'Z')
    || (leb b'0' c && leb c b'9')
    || c == b'-'
    || c == b'_'
    || c == b'.'

unfoldable pub writer_rune : ℕ → ℕ
unfolding is_writer_rune
writer_rune c = if is_writer_rune c then c else b'-'

abbrev pub is_dash : ℕ → Bool
is_dash c = c == b'-'

-- `sanitizeWriterID`.
unfoldable pub sanitize_writer_id : Text → Text
unfolding trim_space trim writer_rune
sanitize_writer_id value =
    let value = trim_space value in
    if is_empty value then [] else trim is_dash (map writer_rune value)

-- The first candidate that is not empty once it is sanitized.
unfoldable pub first_writer_id : List Text → Text → Text
unfolding sanitize_writer_id
first_writer_id [] otherwise = otherwise
first_writer_id (candidate ∷ candidates) otherwise =
    let rest = first_writer_id candidates otherwise in
    let id = sanitize_writer_id candidate in if is_empty id then rest else id

-- `defaultWriterID`.
unfoldable pub default_writer_id : OptionAnswers → Text
unfolding first_writer_id
default_writer_id a =
    let host : List Text = elim a.hostname [ done host ↦ host ∷ [] | failed e ↦ [] ] in
    first_writer_id (a.writer_variable ∷ (a.pod_name ∷ (a.hostname_variable ∷ host)))
      (codes "writer")

-- The checks of the settings of the client, and its creation.
unfoldable pub open_client : OptionAnswers → ObjectRepoOptions → Option Err
unfolding trim_space is_blank
open_client a o =
    if o.has_client
    then none
    else if is_blank o.endpoint
    then some (message (codes "minio endpoint is required"))
    else if is_blank o.access_key
    then some (message (codes "minio access key is required"))
    else if is_blank o.secret_key
    then some (message (codes "minio secret key is required"))
    else elim (a.client_err (trim_space o.endpoint) (trim_space o.access_key)
        (trim_space o.secret_key) o.use_ssl) [
          | none ↦ none
          | some e ↦ some (wrap (codes "create minio client: ") e)
        ]

-- `NewMinIORepo`.
unfoldable pub new_object_repo : OptionAnswers → ObjectRepoOptions → Result ObjectRepo
unfolding trim_space trim open_client sanitize_writer_id default_writer_id decimal
new_object_repo a o =
    let prefix = trim (λ c. c == b'/') (trim_space o.logs_prefix) in
    let id = sanitize_writer_id o.writer_id in
    let base = if is_empty id then default_writer_id a else id in
    let repo : ObjectRepo = record {
      bucket = trim_space o.bucket;
      logs_prefix = if is_empty prefix then codes "logs" else prefix;
      writer_id = base ++ (codes "-" ++ (decimal a.process_id ++ (codes "-" ++ decimal a.now_ns)));
      object_seq = 0;
    } in
    if is_empty (trim_space o.bucket)
    then failed (message (codes "minio bucket is required"))
    else elim (open_client a o) [ some e ↦ failed e | none ↦ done repo ]
