-- ===== src/Http/Validate.antt =====
-- validate of internal/http/handler.go: which records it takes, and what it makes of them.
use log_forge.Prelude.{
  ℕ, ◌+◌, ◌≡◌, ◌≢◌, ◌↔◌, refl, ap, ◌∙◌, Bool, true, false, List, [], ◌∷◌, All, arith,
}
use log_forge.Text.{trim_space, is_blank}
use log_forge.Text.Trim.{trim_space-trim_space, is_blank-trim_space}
use log_forge.Model.{LogRecord, utc, is_zero_time}
use log_forge.Http.Decode.{Result, done, failed, validate_record, validate_from, validate}

-- A record that can be stored.
abbrev pub IsComplete : LogRecord → Type 0
IsComplete rec =
    (is_zero_time rec.timestamp ≡ false)
    × (is_blank rec.path ≡ false)
    × (is_blank rec.user_agent ≡ false)

-- The record that is stored: UTC, and texts without space around them.
abbrev pub normalize : LogRecord → LogRecord
normalize rec = record {
  timestamp = utc rec.timestamp;
  path = trim_space rec.path;
  user_agent = trim_space rec.user_agent;
}

abbrev pub normalize_all : List LogRecord → List LogRecord
normalize_all [] = []
normalize_all (rec ∷ records) = normalize rec ∷ normalize_all records

-- Whether there is a value.
abbrev pub is_done : {A : Type 0} → Result A → Bool
is_done (done _) = true
is_done (failed _) = false

validate_record_complete :
    (i : ℕ) (rec : LogRecord) → IsComplete rec → validate_record i rec ≡ done (normalize rec)
unfolding validate_record
validate_record_complete i rec (a, b, c) = ground arith

validate_record_done :
    (i : ℕ) (rec : LogRecord) → is_done (validate_record i rec) ≡ true → IsComplete rec
unfolding validate_record
validate_record_done i rec h = ground arith

validate_from_complete :
    (i : ℕ) (l : List LogRecord) → All IsComplete l → validate_from i l ≡ done (normalize_all l)
unfolding validate_from
validate_from_complete i [] h = refl
validate_from_complete i (rec ∷ l) h =
    ground (arith, validate_record_complete i rec h.0, validate_from_complete (i + 1) l h.1)

validate_from_done :
    (i : ℕ) (l : List LogRecord) → is_done (validate_from i l) ≡ true → All IsComplete l
unfolding validate_from
validate_from_done i [] h = tt
validate_from_done i (rec ∷ l) h =
    (ground (arith, validate_record_done i rec), validate_from_done (i + 1) l (ground arith))

-- A request's records are taken exactly when there is one at least and each has a timestamp, a path
-- and a user agent that is not blank; then every record is kept, in order, in UTC and without space
-- around its texts.
pub validate_takes_iff :
    (l : List LogRecord)
    → ((is_done (validate l) ≡ true) ↔ ((l ≢ []) × All IsComplete l))
      × (is_done (validate l) ≡ true → validate l ≡ done (normalize_all l))
unfolding validate
validate_takes_iff [] = ((λ h. cc, λ h. absurd (h.0 refl)), λ h. cc)
validate_takes_iff (rec ∷ l) = (
  (
    λ h. (λ e. cc, validate_from_done 0 (rec ∷ l) h),
    λ h. ap is_done (validate_from_complete 0 (rec ∷ l) h.1),
  ),
  λ h. validate_from_complete 0 (rec ∷ l) (validate_from_done 0 (rec ∷ l) h),
)

normalize-normalize : (rec : LogRecord) → normalize (normalize rec) ≡ normalize rec
normalize-normalize rec =
    ground (arith, trim_space-trim_space rec.path, trim_space-trim_space rec.user_agent)

normalize_all-normalize_all :
    (l : List LogRecord) → normalize_all (normalize_all l) ≡ normalize_all l
normalize_all-normalize_all [] = refl
normalize_all-normalize_all (rec ∷ l) = rw (normalize-normalize rec, normalize_all-normalize_all l)

normalize_all-IsComplete :
    (l : List LogRecord) → All IsComplete l → All IsComplete (normalize_all l)
normalize_all-IsComplete [] h = tt
normalize_all-IsComplete (rec ∷ l) ((t, p, u), h) = (
  (t, is_blank-trim_space rec.path ∙ p, is_blank-trim_space rec.user_agent ∙ u),
  normalize_all-IsComplete l h,
)

normalize_all_ne_nil : (l : List LogRecord) → l ≢ [] → normalize_all l ≢ []
normalize_all_ne_nil [] h e = h refl
normalize_all_ne_nil (rec ∷ l) h e = cc

-- Validating the result of a validation gives it again.
pub validate_again : (l l' : List LogRecord) → validate l ≡ done l' → validate l' ≡ done l'
validate_again l l' h =
    let (exactly, result) = validate_takes_iff l in
    let taken : is_done (validate l) ≡ true = ap is_done h in
    let kept : l' ≡ normalize_all l = cc (result taken) in
    let (some_record, complete) = exactly.0 taken in
    let (exactly', result') = validate_takes_iff (normalize_all l) in
    let taken' =
      exactly'.1 (normalize_all_ne_nil l some_record, normalize_all-IsComplete l complete) in
    rw kept (result' taken' ∙ ap done (normalize_all-normalize_all l))
