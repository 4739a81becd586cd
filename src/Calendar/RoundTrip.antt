-- ===== src/Calendar/RoundTrip.antt =====
-- Parsing undoes formatting.
use log_forge.Prelude.{
  ℕ, ◌+◌, ◌-◌, ◌*◌, ◌/◌, ◌%◌, ◌≤◌, ◌<◌, ◌≡◌, refl, ap, ◌∙◌, true, some, [], ◌∷◌, ◌++◌, arith,
  if◌then◌else◌, ltb, leb, Bool-cases, inl, inr, ◌⊎◌, ◌&&◌,
}
use log_forge.Calendar.{
  Date, hour_ns, day_ns, year_of_era, days_before, date_of, days_of, is_leap, days_in_month,
  format_date, format_hour, parse_date, parse_hour, hour_start, truncate_hour, digit, two_digits,
  year_text, is_digit,
}

-- Within a cycle of 400 years: the year, the day of the year and the month of a day.
yoe_range : (doe : ℕ) → doe < 146097 → year_of_era doe < 400
yoe_range doe h = omega arith

yoe_lo : (doe : ℕ) → doe < 146097 → days_before (year_of_era doe) ≤ doe
yoe_lo doe h = omega arith

yoe_hi : (doe : ℕ) → doe < 146097 → doe < days_before (year_of_era doe) + 366
yoe_hi doe h = omega arith

-- The last day of a long year falls into a leap year.
yoe_leap :
    (doe : ℕ)
    → doe < 146097
    → doe ≡ days_before (year_of_era doe) + 365
    → is_leap (year_of_era doe + 1) ≡ true
unfolding is_leap
yoe_leap doe h e = ground arith

-- The month that begins `mp` months after March.
abbrev month_of : ℕ → ℕ
month_of mp = if ltb mp 10 then mp + 3 else mp - 9

month_start :
    (doy : ℕ) → doy ≤ 365 → let mp = (5 * doy + 2) / 153 in (mp ≤ 11) × ((153 * mp + 2) / 5 ≤ doy)
month_start doy h = omega arith

-- The day with the parts that `date_of` finds.
days_of_parts :
    (era yoe mp doy : ℕ)
    → yoe < 400
    → mp ≤ 11
    → (153 * mp + 2) / 5 ≤ doy
    → days_of (record {
      year = yoe + era * 400 + (if leb (month_of mp) 2 then 1 else 0);
      month = month_of mp;
      day = doy - (153 * mp + 2) / 5 + 1;
    })
      ≡ era * 146097 + (days_before yoe + doy)
unfolding days_of
days_of_parts era yoe mp doy h m d = elim (Bool-cases (ltb mp 10)) [
  | inl early ↦ ground arith
  | inr late ↦ ground arith
]

days_of-date_of : (z : ℕ) → days_of (date_of z) ≡ z
unfolding date_of
days_of-date_of z =
    let doe = z % 146097 in
    let yoe = year_of_era doe in
    let doy = doe - days_before yoe in
    let (m, d) = month_start doy (omega (arith, yoe_hi doe)) in
    days_of_parts (z / 146097) yoe ((5 * doy + 2) / 153) doy (yoe_range doe (omega arith)) m d
    ∙ omega (arith, yoe_lo doe)

is_leap-cycle : (y era : ℕ) → is_leap (y + era * 400) ≡ is_leap y
unfolding is_leap
is_leap-cycle y era = ground arith

-- A month's last day.
month_last :
    (doy y mp : ℕ)
    → doy ≤ 365
    → mp ≤ 11
    → 5 * doy + 2 < 153 * (mp + 1)
    → (doy ≡ 365) × (is_leap y ≡ true) ⊎ (doy < 365)
    → doy - (153 * mp + 2) / 5 + 1 ≤ days_in_month y (month_of mp)
unfolding days_in_month
month_last doy y mp h m d leap = ground arith

pub record IsDate (d : Date) : Type 0 where
  pub month_pos : 1 ≤ d.month
  pub month_le : d.month ≤ 12
  pub day_pos : 1 ≤ d.day
  pub day_le : d.day ≤ days_in_month d.year d.month

-- The years that a layout writes with four digits.
abbrev pub HasYear : Date → Type 0
HasYear d = (400 ≤ d.year) × (d.year < 10400)

digit-IsDigit : (n : ℕ) → is_digit (digit n) ≡ true
digit-IsDigit n = ground arith

four_values :
    (n : ℕ)
    → n < 10000
    → (digit (n / 1000) - 48) * 1000
        + (digit (n / 100) - 48) * 100
        + (digit (n / 10) - 48) * 10
        + (digit n - 48)
      ≡ n
four_values n h = omega arith

two_values : (n : ℕ) → n < 100 → (digit (n / 10) - 48) * 10 + (digit n - 48) ≡ n
two_values n h = omega arith

parse_digits :
    (n m k : ℕ)
    → n < 10000
    → m < 100
    → k < 100
    → (leb 1 m && leb m 12 && leb 1 k && leb k (days_in_month (400 + n) m)) ≡ true
    → parse_date (
        digit (n / 1000)
        ∷ (digit (n / 100)
            ∷ (digit (n / 10)
                ∷ (digit n ∷ (b'-' ∷ (digit (m / 10) ∷ (digit m ∷ (b'-' ∷ two_digits k))))))))
      ≡ some (days_of (record { year = 400 + n; month = m; day = k }))
unfolding parse_date
parse_digits n m k a b c ok =
    rw
      (
        digit-IsDigit (n / 1000),
        digit-IsDigit (n / 100),
        digit-IsDigit (n / 10),
        digit-IsDigit n,
        digit-IsDigit (m / 10),
        digit-IsDigit m,
        digit-IsDigit (k / 10),
        digit-IsDigit k,
        four_values n a,
        two_values m b,
        two_values k c,
        ok,
      )
      refl

three_six_five : (doy : ℕ) → doy ≤ 365 → (doy ≡ 365) ⊎ (doy < 365)
three_six_five doy h = omega arith

leap_at :
    (doe era mp : ℕ)
    → doe < 146097
    → doe ≡ days_before (year_of_era doe) + 365
    → mp ≡ 11
    → is_leap (year_of_era doe + era * 400 + (if leb (month_of mp) 2 then 1 else 0)) ≡ true
leap_at doe era mp h e m =
    let y : ℕ = year_of_era doe in
    let swap : y + era * 400 + 1 ≡ (y + 1) + era * 400 = omega arith in
    rw m (rw (swap, is_leap-cycle (y + 1) era) (yoe_leap doe h e))

-- The 366th day of a year that begins in March is a leap year's 29 February.
last_day :
    (z : ℕ)
    → let doe = z % 146097 in
      let yoe = year_of_era doe in
      let doy = doe - days_before yoe in
      let mp = (5 * doy + 2) / 153 in
      let y = yoe + z / 146097 * 400 + (if leb (month_of mp) 2 then 1 else 0) in
      (doy ≡ 365) × (is_leap y ≡ true) ⊎ (doy < 365)
last_day z =
    let doe = z % 146097 in
    let doy = doe - days_before (year_of_era doe) in
    let lo = yoe_lo doe (omega arith) in
    let hi = yoe_hi doe (omega arith) in
    elim (three_six_five doy (omega arith)) [
      | inr short ↦ inr short
      | inl long ↦ inl (
        long,
        leap_at doe (z / 146097) ((5 * doy + 2) / 153) (omega arith) (omega arith) (omega arith),
      )
    ]

days_le : (y m : ℕ) → days_in_month y m ≤ 31
unfolding days_in_month
days_le y m = ground arith

year_text_four :
    (y : ℕ)
    → 400 ≤ y
    → y < 10400
    → let n = y - 400 in
      year_text y ≡ digit (n / 1000) ∷ (digit (n / 100) ∷ (digit (n / 10) ∷ (digit n ∷ [])))
year_text_four y lo hi = ground arith

date_text :
    (d : Date)
    → IsDate d
    → HasYear d
    → parse_date (year_text d.year ++ (b'-' ∷ (two_digits d.month ++ (b'-' ∷ two_digits d.day))))
      ≡ some (days_of d)
date_text d v (lo, hi) =
    let n = d.year - 400 in
    let same : 400 + n ≡ d.year = omega arith in
    let ok : (leb 1 d.month
          && leb d.month 12
          && leb 1 d.day
          && leb d.day (days_in_month (400 + n) d.month))
        ≡ true =
      rw same (ground (arith, v.month_pos, v.month_le, v.day_pos, v.day_le)) in
    rw (year_text_four d.year lo hi) (
      parse_digits n d.month d.day (omega arith) (omega (arith, v.month_le))
        (omega (arith, days_le d.year d.month, v.day_le)) ok
      ∙ ap (λ (y : ℕ). some (days_of (record { year = y; month = d.month; day = d.day }))) same)

date_of-IsDate : (z : ℕ) → IsDate (date_of z)
unfolding date_of
date_of-IsDate z =
    let doe = z % 146097 in
    let yoe = year_of_era doe in
    let doy = doe - days_before yoe in
    let mp = (5 * doy + 2) / 153 in
    let y = yoe + z / 146097 * 400 + (if leb (month_of mp) 2 then 1 else 0) in
    let short : doy ≤ 365 = omega (arith, yoe_hi doe) in
    let (m, d) = month_start doy short in
    record {
      month_pos = ground arith;
      month_le = ground arith;
      day_pos = omega arith;
      day_le = month_last doy y mp short m (omega arith) (last_day z);
    }

-- Formatting and parsing a date give its day.
pub parse_date-format_date :
    (instant : ℕ)
    → HasYear (date_of (instant / day_ns))
    → parse_date (format_date instant) ≡ some (instant / day_ns)
unfolding format_date
parse_date-format_date instant y =
    let z = instant / day_ns in
    date_text (date_of z) (date_of-IsDate z) y ∙ ap some (days_of-date_of z)

pub parse_hour-format_hour :
    (instant : ℕ) → parse_hour (format_hour instant) ≡ some (instant % day_ns / hour_ns)
unfolding parse_hour format_hour
parse_hour-format_hour instant = ground arith

pub hour_start-truncate_hour :
    (instant : ℕ)
    → hour_start (instant / day_ns) (instant % day_ns / hour_ns) ≡ truncate_hour instant
hour_start-truncate_hour instant = omega arith
