-- ===== src/Timestamp/Order.antt =====
-- How far the order of the stored texts agrees with the order of the instants.
use scraper_project.Base.{◌+◌, ◌%◌, ◌<◌, ◌≡◌, ◌↔◌, ◌⊎◌, true, false, arith}
use scraper_project.Timestamp.{Datetime, second, timestamp, text_lt}

-- When both instants are whole seconds, or neither is, the stored texts sort as the instants do.
pub text_lt_iff :
    (a b : Datetime)
    → ((a % second ≡ 0) ↔ (b % second ≡ 0))
    → (text_lt (timestamp a) (timestamp b) ≡ true) ↔ (a < b)
unfolding timestamp text_lt
text_lt_iff a b h = ground arith

-- The two orders agree up to less than a second: unless the text of `a` sorts before that of `b`, the
-- instant `b` is less than a second after `a`; and if it does, `a` is less than a second after `b`.
pub text_lt_within :
    (a b : Datetime)
    → ((text_lt (timestamp a) (timestamp b) ≡ true) ⊎ (b < a + second))
      × ((text_lt (timestamp a) (timestamp b) ≡ false) ⊎ (a < b + second))
unfolding timestamp text_lt
text_lt_within a b = ground arith

-- Within one second the order of the texts is wrong: if `a` is a whole second and `b` comes less
-- than a second after it, the text of `b` sorts before that of `a`, and not after it.
pub text_lt_fraction :
    (a b : Datetime)
    → a % second ≡ 0
    → a < b
    → b < a + second
    → (text_lt (timestamp b) (timestamp a) ≡ true) × (text_lt (timestamp a) (timestamp b) ≡ false)
unfolding timestamp text_lt
text_lt_fraction a b h k l = ground arith
