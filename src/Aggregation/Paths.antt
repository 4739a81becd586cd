-- ===== src/Aggregation/Paths.antt =====
-- The paths of hour files and summaries in service/aggregation.go and repo/file_repo.go.
use log_forge.Prelude.{
  ℕ, ◌/◌, ◌%◌, ◌≡◌, ◌↔◌, inl, inr, refl, ap, sym, ◌∙◌, true, false, some, [], ◌∷◌, ◌++◌, arith,
  Bool-cases, length, length-append,
}
use log_forge.Text.{Text, codes, text_eq, has_suffix}
use log_forge.Text.Trim.{text_eq_iff, text_eq_refl}
use log_forge.Calendar.{
  hour_ns, day_ns, date_of, format_date, format_hour, parse_date, parse_hour, hour_start,
  truncate_hour, year_text, two_digits,
}
use log_forge.Calendar.RoundTrip.{
  HasYear, parse_date-format_date, parse_hour-format_hour, hour_start-truncate_hour,
}
use log_forge.FileRepo.{log_path}
use log_forge.Aggregation.{trim_suffix, rel_dir, rel_base, parse_hour_from_path}

pub has_suffix-append : (t suffix : Text) → has_suffix (t ++ suffix) suffix ≡ true
unfolding has_suffix
has_suffix-append [] [] = refl
has_suffix-append [] (c ∷ suffix) = let same = text_eq_refl (c ∷ suffix) in ground arith
has_suffix-append (c ∷ t) suffix = let rest = has_suffix-append t suffix in ground arith

longer : (c : ℕ) (t suffix : Text) → text_eq (c ∷ (t ++ suffix)) suffix ≡ false
longer c t suffix = elim (Bool-cases (text_eq (c ∷ (t ++ suffix)) suffix)) [
  | inr h ↦ h
  | inl h ↦
      let same = ap length ((text_eq_iff (c ∷ (t ++ suffix)) suffix).0 h) in
      let sum = length-append t suffix in absurd (omega arith)
]

pub trim_suffix-append :
    (t : Text) (d : ℕ) (suffix : Text) → trim_suffix (d ∷ suffix) (t ++ d ∷ suffix) ≡ t
unfolding trim_suffix
trim_suffix-append [] d suffix = let same = text_eq_refl (d ∷ suffix) in ground arith
trim_suffix-append (c ∷ t) d suffix =
    let rest = trim_suffix-append t d suffix in let other = longer c t (d ∷ suffix) in ground arith

-- A date is no dot.
dated :
    (instant : ℕ)
    → HasYear (date_of (instant / day_ns))
    → text_eq (format_date instant) (codes ".") ≡ false
unfolding parse_date
dated instant y = elim (Bool-cases (text_eq (format_date instant) (codes "."))) [
  | inr h ↦ h
  | inl h ↦
      let same = (text_eq_iff (format_date instant) (codes ".")).0 h in
      let parsed = sym (ap parse_date same) ∙ parse_date-format_date instant y in ground arith
]

path_parts :
    (dir base : Text) (day hour : ℕ)
    → text_eq dir (codes ".") ≡ false
    → has_suffix base (codes ".log.json") ≡ true
    → parse_date dir ≡ some day
    → parse_hour (trim_suffix (codes ".log.json") base) ≡ some hour
    → parse_hour_from_path (dir ∷ (base ∷ [])) ≡ some (hour_start day hour)
unfolding parse_hour_from_path rel_dir rel_base
path_parts dir base day hour h₁ h₂ h₃ h₄ = ground arith

-- The aggregation reads the hour of a file back from the path that the file repository gave it, for a
-- time in the years 0 to 9999.
pub parse_hour_from_path-log_path :
    (instant : ℕ)
    → HasYear (date_of (instant / day_ns))
    → parse_hour_from_path (log_path instant) ≡ some (truncate_hour instant)
unfolding log_path
parse_hour_from_path-log_path instant y =
    let hour = format_hour instant in
    path_parts (format_date instant) (hour ++ codes ".log.json") (instant / day_ns)
      (instant % day_ns / hour_ns) (dated instant y) (has_suffix-append hour (codes ".log.json"))
      (parse_date-format_date instant y)
      (ap parse_hour (trim_suffix-append hour b'.' (codes "log.json"))
        ∙ parse_hour-format_hour instant)
    ∙ ap some (hour_start-truncate_hour instant)

format_date_same : (i j : ℕ) → i / day_ns ≡ j / day_ns → format_date i ≡ format_date j
unfolding format_date
format_date_same i j h =
    ap
      (λ z.
        year_text (date_of z).year
        ++ (b'-' ∷ (two_digits (date_of z).month ++ (b'-' ∷ two_digits (date_of z).day))))
      h

format_hour_same :
    (i j : ℕ) → i % day_ns / hour_ns ≡ j % day_ns / hour_ns → format_hour i ≡ format_hour j
unfolding format_hour
format_hour_same i j h = ap two_digits h

some_injective : (x y : ℕ) → some x ≡ some y → x ≡ y
some_injective x y h = ground arith

-- A time and the start of its hour have the same file.
pub log_path-truncate_hour : (instant : ℕ) → log_path (truncate_hour instant) ≡ log_path instant
unfolding log_path
log_path-truncate_hour instant =
    let same_day : truncate_hour instant / day_ns ≡ instant / day_ns = omega arith in
    let same_hour : truncate_hour instant % day_ns / hour_ns ≡ instant % day_ns / hour_ns =
      omega arith in
    ap (λ d. d ∷ ((format_hour (truncate_hour instant) ++ codes ".log.json") ∷ []))
      (format_date_same (truncate_hour instant) instant same_day)
    ∙ ap (λ h. format_date instant ∷ ((h ++ codes ".log.json") ∷ []))
        (format_hour_same (truncate_hour instant) instant same_hour)

-- Two times have the same file exactly if they are in the same hour.
pub log_path_iff :
    (i j : ℕ)
    → HasYear (date_of (i / day_ns))
    → HasYear (date_of (j / day_ns))
    → (log_path i ≡ log_path j) ↔ (truncate_hour i ≡ truncate_hour j)
log_path_iff i j y z = (
  (λ h.
      let parsed =
        sym (parse_hour_from_path-log_path i y)
        ∙ ap parse_hour_from_path h
        ∙ parse_hour_from_path-log_path j z in
      some_injective (truncate_hour i) (truncate_hour j) parsed),
  (λ h. sym (log_path-truncate_hour i) ∙ ap log_path h ∙ log_path-truncate_hour j),
)
