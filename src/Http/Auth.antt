-- ===== src/Http/Auth.antt =====
-- internal/http/handler.go: the Handler, its options and authorizeLogsRequest.
use log_forge.Prelude.{
  ◌-◌, ◌||◌, ◌&&◌, not, ◌∷◌, ℕ, ◌*◌, Bool, true, false, List, [], is_empty, if◌then◌else◌, leb,
  ◌==◌,
}
use log_forge.Prelude.Int.{ℤ, pos, is_pos}
use log_forge.Text.{lower, Text, codes, trim_space, is_blank, text_eq}
use log_forge.Http.Decode.{Request}

-- `allowed_api_keys` is a set, as the list of its members.
pub record Handler : Type 0 where
  pub request_timeout : ℤ
  pub auth_enabled : Bool
  pub auth_header : Text
  pub allowed_api_keys : List Text
  pub last_transient_log_ns : ℕ

abbrev pub default_auth_header_name : Text
default_auth_header_name = codes "X-API-Key"

-- `NewHandler`.
unfoldable pub new_handler : Handler
new_handler = record {
  request_timeout = pos (5 * 1000000000);
  auth_enabled = false;
  auth_header = default_auth_header_name;
  allowed_api_keys = [];
  last_transient_log_ns = 0;
}

-- `WithRequestTimeout`.
unfoldable pub with_request_timeout : ℤ → Handler → Handler
with_request_timeout timeout h =
    if is_pos timeout then record h { request_timeout = timeout } else h

-- The characters of a header name: letters, digits and the listed marks.
is_token : ℕ → Bool
is_token c =
    (leb b'a' c && leb c b'z')
    || (leb b'A' c && leb c b'Z')
    || (leb b'0' c && leb c b'9')
    || c == b'!'
    || c == b'#'
    || c == b'$'
    || c == b'%'
    || c == b'&'
    || c == b'\''
    || c == b'*'
    || c == b'+'
    || c == b'-'
    || c == b'.'
    || c == b'^'
    || c == b'_'
    || c == b'`'
    || c == b'|'
    || c == b'~'

upper : ℕ → ℕ
upper c = if leb b'a' c && leb c b'z' then c - 32 else c

all_tokens : Text → Bool
unfolding is_token
all_tokens [] = true
all_tokens (c ∷ s) = is_token c && all_tokens s

-- Upper case at the start and after a dash, lower case elsewhere.
recase : Bool → Text → Text
unfolding upper lower
recase start [] = []
recase start (c ∷ s) = (if start then upper c else lower c) ∷ recase (c == b'-') s

-- `http.CanonicalHeaderKey`: a name with other characters is returned as it is.
unfoldable pub canonical_header_key : Text → Text
unfolding all_tokens recase
canonical_header_key s = if all_tokens s then recase true s else s

-- The keys that `WithAPIKeyAuth` keeps, trimmed.
unfoldable pub allowed_keys : List Text → List Text
unfolding trim_space
allowed_keys [] = []
allowed_keys (key ∷ keys) =
    let rest = allowed_keys keys in
    if is_empty (trim_space key) then rest else trim_space key ∷ rest

-- `WithAPIKeyAuth`.
unfoldable pub with_api_key_auth : Bool → Text → List Text → Handler → Handler
with_api_key_auth enabled header keys h =
    let auth_header =
      if not (is_empty (trim_space header))
      then canonical_header_key (trim_space header)
      else if is_blank h.auth_header
      then default_auth_header_name
      else h.auth_header in
    record h {
      auth_enabled = enabled;
      auth_header = auth_header;
      allowed_api_keys = allowed_keys keys;
    }

-- `r.Header.Get(name)`: the empty text where the header is missing.
unfoldable pub header_get : Text → List (Text × Text) → Text
unfolding text_eq
header_get name [] = []
header_get name ((n, v) ∷ headers) = if text_eq n name then v else header_get name headers

-- Membership in the set of allowed keys.
unfoldable pub has_key : Text → List Text → Bool
unfolding text_eq
has_key key [] = false
has_key key (k ∷ keys) = text_eq k key || has_key key keys

-- `authorizeLogsRequest`.
unfoldable pub authorize : Handler → Request → Bool
authorize h r =
    if not h.auth_enabled
    then true
    else let trimmed = trim_space h.auth_header in
      let name = if is_empty trimmed then default_auth_header_name else trimmed in
      let key = trim_space (header_get (canonical_header_key name) r.headers) in
      if is_empty key then false else has_key key h.allowed_api_keys
