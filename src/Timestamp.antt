-- ===== src/Timestamp.antt =====
-- Instants, and the texts under which src/database/repositories.py `_timestamp` stores them.
-- A datetime is its UTC instant: the microseconds since 0001-01-01T00:00:00Z. Its text is
-- `YYYY-MM-DDTHH:MM:SS`, then `.ffffff` unless the microseconds are 0, then `Z`. The first part
-- has one width and sorts as the whole seconds do, so a text is the pair of the whole seconds and
-- the optional fraction.
pub mod Order
pub mod Iso
use scraper_project.Base.{
  ℕ, ◌+◌, ◌*◌, ◌/◌, ◌%◌, Bool, true, false, not, Option, none, some, ltb, leb, nat_eq,
  if◌then◌else◌,
}
use scraper_project.Errors.{Result, ok, err, overflow_error}

abbrev pub Datetime : Type 0
Datetime = ℕ

abbrev pub second : ℕ
second = 1000000

pub record Timestamp : Type 0 where
  pub whole : ℕ
  pub fraction : Option ℕ

-- `isoformat()` leaves the fraction out when the microseconds are 0.
unfoldable pub timestamp : Datetime → Timestamp
timestamp t = record {
  whole = t / second;
  fraction = if nat_eq (t % second) 0 then none else some (t % second);
}

-- `datetime.max`
abbrev pub last_instant : Datetime
last_instant = 315537897599999999

abbrev pub after_seconds : Datetime → ℕ → Datetime
after_seconds t n = t + n * second

-- `current + timedelta(seconds=n)`: past the last instant it is an OverflowError, be it of the length
-- or of the sum.
abbrev pub plus_seconds : Datetime → ℕ → Result Datetime
plus_seconds t n =
    if leb (after_seconds t n) last_instant then ok (after_seconds t n) else err overflow_error

-- What follows the seconds is `Z`, or `.` and six digits; `.` sorts before `Z`.
abbrev pub tail_lt : Option ℕ → Option ℕ → Bool
tail_lt (some a) (some b) = ltb a b
tail_lt (some a) none = true
tail_lt none b = false

-- `<` and `<=` of SQL on two stored texts.
unfoldable pub text_lt : Timestamp → Timestamp → Bool
text_lt a b = if nat_eq a.whole b.whole then tail_lt a.fraction b.fraction else ltb a.whole b.whole

unfoldable pub text_le : Timestamp → Timestamp → Bool
unfolding text_lt
text_le a b = not (text_lt b a)
