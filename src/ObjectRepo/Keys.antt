-- ===== src/ObjectRepo/Keys.antt =====
-- The keys that newShardObjectKey of repo/minio_repo.go makes.
use log_forge.Prelude.{
  ℕ, ◌+◌, ◌-◌, ◌/◌, ◌%◌, ◌<◌, ◌≤◌, ◌≡◌, ◌≢◌, refl, ap, sym, false, [], ◌∷◌, ◌++◌, ◌==◌, arith,
  is_empty, All-append, All-map, Bool-cases, inl, inr, length, length-append,
}
use mathlib.Core.Path.{subst}
use mathlib.Core.List.{append-nil}
use log_forge.Text.{Text, codes, text_eq, decimal}
use log_forge.Text.Trim.{text_eq_iff}
use log_forge.Text.Decimal.{decimal-IsDigits}
use log_forge.Calendar.{
  day_ns, hour_ns, date_of, format_date, format_hour, digit, two_digits, year_text,
}
use log_forge.Calendar.RoundTrip.{HasYear}
use log_forge.Slash.{split, path_join}
use log_forge.Slash.Laws.{NoSlash, Plain}
use log_forge.Slash.Ends.{EndsIn, path_join-EndsIn}
use log_forge.ObjectRepo.{ObjectRepo, hour_prefix, shard_file}

-- A repository whose prefix is not empty and whose writer's identifier has no slash, as NewMinIORepo
-- makes them.
pub record IsValid (r : ObjectRepo) : Type 0 where
  pub has_prefix : is_empty r.logs_prefix ≡ false
  pub plain_writer : NoSlash r.writer_id

other_length : (s t : Text) → length s ≢ length t → text_eq s t ≡ false
other_length s t h = elim (Bool-cases (text_eq s t)) [
  | inl e ↦ absurd (h (ap length ((text_eq_iff s t).0 e)))
  | inr e ↦ e
]

not_empty : (name : Text) → 3 ≤ length name → is_empty name ≡ false
not_empty [] h = absurd (omega arith)
not_empty (c ∷ name) h = refl

-- A name of three characters or more is neither `.` nor `..`.
long-Plain : (name : Text) → 3 ≤ length name → NoSlash name → Plain name
long-Plain name long h = (
  h,
  not_empty name long,
  other_length name (codes ".") (λ e. let sum : length (codes ".") ≡ 1 = refl in omega arith),
  other_length name (codes "..") (λ e. let sum : length (codes "..") ≡ 2 = refl in omega arith),
)

digit_not_slash : (n : ℕ) → (digit n == b'/') ≡ false
digit_not_slash n = ground arith

year_text-digits :
    (y : ℕ)
    → 400 ≤ y
    → y < 10400
    → year_text y
      ≡ digit ((y - 400) / 1000)
        ∷ (digit ((y - 400) / 100) ∷ (digit ((y - 400) / 10) ∷ (digit (y - 400) ∷ [])))
year_text-digits y h₁ h₂ = ground arith

year_text-NoSlash : (y : ℕ) → 400 ≤ y → y < 10400 → NoSlash (year_text y)
year_text-NoSlash y h₁ h₂ =
    let n = y - 400 in
    subst NoSlash (sym (year_text-digits y h₁ h₂)) (
      digit_not_slash (n / 1000),
      (digit_not_slash (n / 100), (digit_not_slash (n / 10), (digit_not_slash n, tt))),
    )

date-Plain : (instant : ℕ) → HasYear (date_of (instant / day_ns)) → Plain (format_date instant)
unfolding format_date
date-Plain instant y =
    let d = date_of (instant / day_ns) in
    let year = year_text d.year in
    let rest : Text = b'-' ∷ (two_digits d.month ++ (b'-' ∷ two_digits d.day)) in
    let rest_plain : NoSlash rest = (
      refl,
      (
        digit_not_slash (d.month / 10),
        (
          digit_not_slash d.month,
          (refl, (digit_not_slash (d.day / 10), (digit_not_slash d.day, tt))),
        ),
      ),
    ) in
    let sum : length (year ++ rest) ≡ length year + 6 = length-append year rest in
    long-Plain (year ++ rest) (omega arith) (
      All-append (λ c. (c == b'/') ≡ false) year rest (year_text-NoSlash d.year y.0 y.1) rest_plain)

hour-Plain : (instant : ℕ) → Plain (format_hour instant)
unfolding format_hour text_eq
hour-Plain instant =
    let h = instant % day_ns / hour_ns in
    ((digit_not_slash (h / 10), (digit_not_slash h, tt)), refl, ground arith, ground arith)

pub decimal-NoSlash : (n : ℕ) → NoSlash (decimal n)
decimal-NoSlash n =
    All-map (λ c. (48 ≤ c) × (c ≤ 57)) (λ c. (c == b'/') ≡ false) (decimal n)
      (λ c h. let low = h.0 in ground arith) (decimal-IsDigits n)

pub shard_file-Plain :
    (writer_id : Text) (seq : ℕ) → NoSlash writer_id → Plain (shard_file writer_id seq)
unfolding shard_file
shard_file-Plain writer_id seq h =
    let NotSlash = λ (c : ℕ). (c == b'/') ≡ false in
    let suffix = codes ".log.json" in
    let suffix_plain : NoSlash suffix =
      (refl, (refl, (refl, (refl, (refl, (refl, (refl, (refl, (refl, tt))))))))) in
    let tail : Text = codes "-" ++ (decimal seq ++ suffix) in
    let tail_plain : NoSlash tail =
      (refl, All-append NotSlash (decimal seq) suffix (decimal-NoSlash seq) suffix_plain) in
    let sum₁ = length-append writer_id tail in
    let sum₂ = length-append (decimal seq) suffix in
    let nine : length suffix ≡ 9 = refl in
    long-Plain (writer_id ++ tail) (omega arith) (All-append NotSlash writer_id tail h tail_plain)

hour_prefix-EndsIn :
    (r : ObjectRepo)
    → IsValid r
    → (instant : ℕ) → HasYear (date_of (instant / day_ns))
    → EndsIn (format_date instant ∷ (format_hour instant ∷ [])) (hour_prefix r instant)
unfolding hour_prefix
hour_prefix-EndsIn r valid instant y =
    path_join-EndsIn r.logs_prefix [] (format_date instant) (format_hour instant ∷ [])
      valid.has_prefix (split r.logs_prefix, sym (append-nil (split r.logs_prefix))) tt
      (date-Plain instant y, (hour-Plain instant, tt))

pub two_parts : (s : Text) (x y : Text) → EndsIn (x ∷ (y ∷ [])) s → is_empty s ≡ false
unfolding split
two_parts [] x y (before, h) =
    let parts = ap length h in let sum = length-append before (x ∷ (y ∷ [])) in absurd (omega arith)
two_parts (c ∷ s) x y h = refl

-- The last parts of a key: the date, the hour and the file of the shard.
pub key-EndsIn :
    (r : ObjectRepo)
    → IsValid r
    → (instant seq : ℕ) → HasYear (date_of (instant / day_ns))
    → EndsIn
        (format_date instant ∷ (format_hour instant ∷ (shard_file r.writer_id seq ∷ [])))
        (path_join (hour_prefix r instant ∷ (shard_file r.writer_id seq ∷ [])))
key-EndsIn r valid instant seq y =
    let prefix = hour_prefix-EndsIn r valid instant y in
    path_join-EndsIn (hour_prefix r instant) (format_date instant ∷ (format_hour instant ∷ []))
      (shard_file r.writer_id seq) []
      (two_parts (hour_prefix r instant) (format_date instant) (format_hour instant) prefix) prefix
      (date-Plain instant y, (hour-Plain instant, tt))
      (shard_file-Plain r.writer_id seq valid.plain_writer, tt)
