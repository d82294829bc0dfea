-- ===== src/Timestamp/Iso.antt =====
-- The texts of instants and dates: `datetime.isoformat()` in `_timestamp` of
-- src/database/repositories.py, and `date().isoformat()` in
-- src/orchestration/synthetic_worker.py. The civil date is read off the days since 0001-01-01 by
-- cycles of 400, 100, 4 and 1 years, as `date.fromordinal` does.
use Prim.Native.String.{◌++◌ as ◌<>◌}
use scraper_project.Base.{
  ℕ, ◌+◌, ◌-◌, ◌*◌, ◌/◌, ◌%◌, String, Bool, not, ◌&&◌, ◌||◌, Option, none, some, List, [], ◌∷◌, ltb,
  nat_eq, if◌then◌else◌,
}
use scraper_project.Timestamp.{Timestamp, Datetime, timestamp}

abbrev pub digit : ℕ → String
digit d =
    if nat_eq d 0
    then "0"
    else if nat_eq d 1
    then "1"
    else if nat_eq d 2
    then "2"
    else if nat_eq d 3
    then "3"
    else if nat_eq d 4
    then "4"
    else if nat_eq d 5
    then "5"
    else if nat_eq d 6
    then "6"
    else if nat_eq d 7
    then "7"
    else if nat_eq d 8
    then "8"
    else "9"

-- `%02d`, `%04d` and `%06d`
abbrev pub two_digits : ℕ → String
two_digits n = digit (n / 10 % 10) <> digit (n % 10)

abbrev pub four_digits : ℕ → String
four_digits n = two_digits (n / 100) <> two_digits n

abbrev pub six_digits : ℕ → String
six_digits n = two_digits (n / 10000) <> four_digits n

abbrev at_most : ℕ → ℕ → ℕ
at_most limit n = if ltb limit n then limit else n

pub record CivilDate : Type 0 where
  pub year : ℕ
  pub month : ℕ
  pub day : ℕ

unfoldable pub is_leap : ℕ → Bool
is_leap year = nat_eq (year % 4) 0 && (not (nat_eq (year % 100) 0) || nat_eq (year % 400) 0)

abbrev pub month_lengths : Bool → List ℕ
month_lengths leap =
    31 ∷ (if leap then 29 else 28) ∷ 31 ∷ 30 ∷ 31 ∷ 30 ∷ 31 ∷ 31 ∷ 30 ∷ 31 ∷ 30 ∷ 31 ∷ []

-- The month and the day, from the days since the first of a month.
unfoldable pub month_day : ℕ → List ℕ → ℕ → ℕ × ℕ
month_day month [] days = (month, days + 1)
month_day month (length ∷ lengths) days =
    let later = month_day (month + 1) lengths (days - length) in
    if ltb days length then (month, days + 1) else later

-- The civil date of a count of days since 0001-01-01.
unfoldable pub civil : ℕ → CivilDate
unfolding month_day is_leap
civil days =
    let n400 = days / 146097 in
    let in400 = days % 146097 in
    let n100 = at_most 3 (in400 / 36524) in
    let in100 = in400 - n100 * 36524 in
    let n4 = in100 / 1461 in
    let in4 = in100 % 1461 in
    let n1 = at_most 3 (in4 / 365) in
    let year = 400 * n400 + 100 * n100 + 4 * n4 + n1 + 1 in
    let (month, day) = month_day 1 (month_lengths (is_leap year)) (in4 - n1 * 365) in
    record { year = year; month = month; day = day }

unfoldable pub date_text : ℕ → String
unfolding civil
date_text days =
    let date = civil days in
    four_digits date.year <> "-" <> two_digits date.month <> "-" <> two_digits date.day

abbrev fraction_text : Option ℕ → String
fraction_text none = ""
fraction_text (some microseconds) = "." <> six_digits microseconds

-- `isoformat()` with the offset replaced by `Z`
unfoldable pub isoformat : Timestamp → String
unfolding date_text
isoformat t =
    let seconds = t.whole % 86400 in
    date_text (t.whole / 86400)
    <> "T"
    <> two_digits (seconds / 3600)
    <> ":"
    <> two_digits (seconds / 60 % 60)
    <> ":"
    <> two_digits (seconds % 60)
    <> fraction_text t.fraction
    <> "Z"

-- `current.date().isoformat()`
unfoldable pub date_isoformat : Datetime → String
unfolding timestamp date_text
date_isoformat t = date_text ((timestamp t).whole / 86400)
