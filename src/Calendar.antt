-- ===== src/Calendar.antt =====
-- The calendar of package time as the program uses it: formatting an instant in UTC by the layouts
-- DateLayout and HourLayout of util/constant.go, and parsing such texts.
-- A year counts from -400, so that every year of a timestamp is a natural number here.
pub mod RoundTrip
use log_forge.Prelude.{
  ℕ, ◌+◌, ◌-◌, ◌*◌, ◌/◌, ◌%◌, Bool, true, false, not, ◌&&◌, ◌||◌, Option, none, some, List, [], ◌∷◌,
  ◌++◌, ◌==◌, leb, ltb, if◌then◌else◌,
}
use log_forge.Text.{Text, decimal}

abbrev pub hour_ns : ℕ
hour_ns = 3600000000000

abbrev pub day_ns : ℕ
day_ns = 24 * hour_ns

pub record Date : Type 0 where
  pub year : ℕ
  pub month : ℕ
  pub day : ℕ

-- The year of a 400-year cycle on its day `doe`, where years begin on 1 March.
abbrev pub year_of_era : ℕ → ℕ
year_of_era doe = (doe + doe / 36524 - doe / 1460 - doe / 146096) / 365

abbrev pub days_before : ℕ → ℕ
days_before yoe = 365 * yoe + yoe / 4 - yoe / 100

-- The date of a day, counted from 1 March -400.
unfoldable pub date_of : ℕ → Date
date_of z =
    let doe = z % 146097 in
    let yoe = year_of_era doe in
    let doy = doe - days_before yoe in
    let mp = (5 * doy + 2) / 153 in
    let month = if ltb mp 10 then mp + 3 else mp - 9 in
    record {
      year = yoe + z / 146097 * 400 + (if leb month 2 then 1 else 0);
      month = month;
      day = doy - (153 * mp + 2) / 5 + 1;
    }

unfoldable pub days_of : Date → ℕ
days_of d =
    let y = if leb d.month 2 then d.year - 1 else d.year in
    let mp = if leb d.month 2 then d.month + 9 else d.month - 3 in
    let doy = (153 * mp + 2) / 5 + d.day - 1 in y / 400 * 146097 + (days_before (y % 400) + doy)

-- The Gregorian leap rule; -400 is a multiple of 400.
unfoldable pub is_leap : ℕ → Bool
is_leap y = y % 4 == 0 && (not (y % 100 == 0) || y % 400 == 0)

unfoldable pub days_in_month : ℕ → ℕ → ℕ
unfolding is_leap
days_in_month y m =
    if m == 2
    then (if is_leap y then 29 else 28)
    else if m == 4 || m == 6 || m == 9 || m == 11
    then 30
    else 31

abbrev pub digit : ℕ → ℕ
digit n = 48 + n % 10

abbrev pub two_digits : ℕ → Text
two_digits n = digit (n / 10) ∷ digit n ∷ []

-- At least four digits.
abbrev pub four_digits : ℕ → Text
four_digits n =
    if ltb n 10000
    then digit (n / 1000) ∷ digit (n / 100) ∷ digit (n / 10) ∷ digit n ∷ []
    else decimal n

abbrev pub year_text : ℕ → Text
year_text y = if ltb y 400 then b'-' ∷ four_digits (400 - y) else four_digits (y - 400)

-- `t.Format(DateLayout)` and `t.Format(HourLayout)` for a time in UTC, by its instant.
unfoldable pub format_date : ℕ → Text
unfolding date_of
format_date instant =
    let d = date_of (instant / day_ns) in
    year_text d.year ++ (b'-' ∷ (two_digits d.month ++ (b'-' ∷ two_digits d.day)))

unfoldable pub format_hour : ℕ → Text
format_hour instant = two_digits (instant % day_ns / hour_ns)

abbrev pub is_digit : ℕ → Bool
is_digit c = leb 48 c && leb c 57

-- `time.Parse(DateLayout, text)`: the day, if there is one.
unfoldable pub parse_date : Text → Option ℕ
unfolding days_in_month days_of
parse_date (a ∷ (b ∷ (c ∷ (d ∷ (e ∷ (f ∷ (g ∷ (h ∷ (i ∷ (j ∷ [])))))))))) =
    let year = 400 + ((a - 48) * 1000 + (b - 48) * 100 + (c - 48) * 10 + (d - 48)) in
    let month = (f - 48) * 10 + (g - 48) in
    let day = (i - 48) * 10 + (j - 48) in
    if is_digit a
      && is_digit b
      && is_digit c
      && is_digit d
      && e == b'-'
      && is_digit f
      && is_digit g
      && h == b'-'
      && is_digit i
      && is_digit j
    then (if leb 1 month && leb month 12 && leb 1 day && leb day (days_in_month year month)
        then some (days_of (record { year = year; month = month; day = day }))
        else none)
    else none
parse_date _ = none

-- `time.Parse(HourLayout, text)`: the layout takes one digit too.
unfoldable pub parse_hour : Text → Option ℕ
parse_hour (a ∷ []) = if is_digit a then some (a - 48) else none
parse_hour (a ∷ (b ∷ [])) =
    let hour = (a - 48) * 10 + (b - 48) in
    if is_digit a && is_digit b && ltb hour 24 then some hour else none
parse_hour _ = none

-- `time.Date(year, month, day, hour, 0, 0, 0, time.UTC)` for a parsed date and hour.
abbrev pub hour_start : ℕ → ℕ → ℕ
hour_start day hour = day * day_ns + hour * hour_ns

-- The start of the hour of an instant.
abbrev pub truncate_hour : ℕ → ℕ
truncate_hour instant = instant - instant % hour_ns
