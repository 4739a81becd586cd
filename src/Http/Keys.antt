-- ===== src/Http/Keys.antt =====
-- The API key check of internal/http/handler.go.
use log_forge.Prelude.{
  ◌≡◌, ◌≢◌, ◌↔◌, ◌⊎◌, inl, inr, refl, sym, ◌∙◌, Bool, true, false, List, [], ◌∷◌, arith, is_empty,
  if◌then◌else◌,
}
use log_forge.Text.{Text, trim_space}
use log_forge.Text.Trim.{text_eq_iff}
use log_forge.Http.{
  Handler, Request, default_auth_header_name, with_api_key_auth, authorize, allowed_keys, has_key,
  header_get, canonical_header_key,
}

-- The key that a request presents: the value of the handler's header, trimmed.
abbrev pub presented : Handler → Request → Text
presented h r =
    let trimmed = trim_space h.auth_header in
    let name = if is_empty trimmed then default_auth_header_name else trimmed in
    trim_space (header_get (canonical_header_key name) r.headers)

-- Whether one of the configured keys is the given text up to space around it.
abbrev pub Among : Text → List Text → Type 0
Among key [] = ⊥
Among key (k ∷ keys) = (trim_space k ≡ key) ⊎ Among key keys

has_key-allowed_keys :
    (key : Text) (keys : List Text)
    → key ≢ []
    → (has_key key (allowed_keys keys) ≡ true) ↔ Among key keys
unfolding has_key allowed_keys
has_key-allowed_keys key [] ne = (λ h. cc, λ h. absurd h)
has_key-allowed_keys key (k ∷ keys) ne =
    ground (arith, has_key-allowed_keys key keys ne, text_eq_iff (trim_space k) key)

checked :
    (key : Text) (keys : List Text)
    → ((if is_empty key then false else has_key key (allowed_keys keys)) ≡ true)
      ↔ ((key ≢ []) × Among key keys)
checked [] keys = (λ e. cc, λ h. absurd (h.0 refl))
checked (c ∷ key) keys =
    let found = has_key-allowed_keys (c ∷ key) keys (λ e. cc) in
    (λ e. (λ q. cc, found.0 e), λ h. found.1 h.1)

authorize_keys :
    (h : Handler) (r : Request)
    → h.auth_enabled ≡ true
    → authorize h r
      ≡ (if is_empty (presented h r) then false else has_key (presented h r) h.allowed_api_keys)
unfolding authorize
authorize_keys h r on = ground arith

-- After WithAPIKeyAuth with any header name and keys: with the check enabled a request is
-- authorized exactly when it presents a key that is not blank and that is one of the given keys,
-- up to space around either; with the check disabled every request is.
pub authorize_iff :
    (enabled : Bool) (header : Text) (keys : List Text) (h : Handler) (r : Request)
    → let h' = with_api_key_auth enabled header keys h in
      (authorize h' r ≡ true)
      ↔ ((enabled ≡ false) ⊎ ((presented h' r ≢ []) × Among (presented h' r) keys))
unfolding with_api_key_auth authorize
authorize_iff false header keys h r = (λ e. inl refl, λ e. refl)
authorize_iff true header keys h r =
    let h' = with_api_key_auth true header keys h in
    let c = checked (presented h' r) keys in
    let same = authorize_keys h' r refl in
    (λ e. inr (c.0 (sym same ∙ e)), λ e. elim e [ inl off ↦ cc | inr ok ↦ same ∙ c.1 ok ])
