-- ===== src/Contracts/Text.antt =====
-- Texts as lists of code points, and what src/contracts/validation.py asks of them.
use Prim.Native.Char.{code}
use scraper_project.Base.{
  ℕ, ◌+◌, String, Bool, true, false, ◌&&◌, ◌||◌, List, [], ◌∷◌, leb, nat_eq, if◌then◌else◌,
}

abbrev pub codes : String → List ℕ
codes String.[] = []
codes (String.◌∷◌ c text) = code c ∷ codes text

abbrev pub between : ℕ → ℕ → ℕ → Bool
between low high c = leb low c && leb c high

-- The white space of `str.strip`.
unfoldable pub is_space : ℕ → Bool
is_space c =
    between 9 13 c
    || between 28 32 c
    || nat_eq c 133
    || nat_eq c 160
    || nat_eq c 5760
    || between 8192 8202 c
    || between 8232 8233 c
    || nat_eq c 8239
    || nat_eq c 8287
    || nat_eq c 12288

abbrev pub all_of : (ℕ → Bool) → List ℕ → Bool
all_of test [] = true
all_of test (c ∷ cs) = test c && all_of test cs

-- `not value.strip()`
abbrev pub is_blank : String → Bool
is_blank text = all_of is_space (codes text)

abbrev pub begins_with : List ℕ → List ℕ → Bool
begins_with [] cs = true
begins_with (p ∷ ps) [] = false
begins_with (p ∷ ps) (c ∷ cs) = nat_eq p c && begins_with ps cs

-- `part in text`
abbrev pub has_part : List ℕ → List ℕ → Bool
has_part part [] = begins_with part []
has_part part (c ∷ cs) = begins_with part (c ∷ cs) || has_part part cs

-- `str.lower`, as far as an ASCII text can occur in it: the Kelvin sign lowers to `k`, the capital I
-- with a dot to `i` and a combining dot; every other character outside ASCII stays outside it, and
-- stands for itself here.
unfoldable pub lower : List ℕ → List ℕ
lower [] = []
lower (c ∷ cs) =
    let rest = lower cs in
    if between 65 90 c
    then (c + 32) ∷ rest
    else if nat_eq c 8490
    then 107 ∷ rest
    else if nat_eq c 304
    then 105 ∷ 775 ∷ rest
    else c ∷ rest

-- The code points before the first `stop`: `value.split(".", 1)[0]`
abbrev pub before : ℕ → List ℕ → List ℕ
before stop [] = []
before stop (c ∷ cs) = let rest = before stop cs in if nat_eq c stop then [] else c ∷ rest

abbrev pub same_codes : List ℕ → List ℕ → Bool
same_codes [] [] = true
same_codes [] (d ∷ ds) = false
same_codes (c ∷ cs) [] = false
same_codes (c ∷ cs) (d ∷ ds) = nat_eq c d && same_codes cs ds
