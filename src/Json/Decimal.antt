-- ===== src/Json/Decimal.antt =====
-- The decimal text of a natural number, `int.__repr__`, and the number that it reads as.
use scraper_project.Base.{
  ℕ, zero, suc, ◌+◌, ◌-◌, ◌*◌, ◌/◌, ◌%◌, ◌≤◌, ◌≡◌, refl, List, [], ◌∷◌, ◌++◌, arith, ltb,
  if◌then◌else◌,
}

-- A round for each digit; the fuel is the number, which has no more digits than its value and one.
digits : ℕ → ℕ → List ℕ
digits zero n = (n + 48) ∷ []
digits (suc fuel) n =
    let rest = digits fuel (n / 10) in
    if ltb n 10 then (n + 48) ∷ [] else rest ++ (n % 10 + 48) ∷ []

unfoldable pub decimal : ℕ → List ℕ
unfolding digits
decimal n = digits n n

-- The number that a text of digits reads as, from the left.
abbrev pub reading : ℕ → List ℕ → ℕ
reading so_far [] = so_far
reading so_far (c ∷ cs) = reading (so_far * 10 + (c - 48)) cs

reading-append :
    (so_far : ℕ) (cs : List ℕ) (c : ℕ)
    → reading so_far (cs ++ c ∷ []) ≡ reading so_far cs * 10 + (c - 48)
reading-append so_far [] c = refl
reading-append so_far (d ∷ cs) c = reading-append (so_far * 10 + (d - 48)) cs c

reading-digits : (fuel n : ℕ) → n ≤ fuel → reading 0 (digits fuel n) ≡ n
unfolding digits
reading-digits zero n enough = omega arith
reading-digits (suc fuel) n enough =
    ground
      (arith, reading-digits fuel (n / 10), reading-append 0 (digits fuel (n / 10)) (n % 10 + 48))

-- The decimal text of every natural number reads back as that number.
pub reading-decimal : (n : ℕ) → reading 0 (decimal n) ≡ n
unfolding decimal
reading-decimal n = reading-digits n n (omega arith)
