-- ===== src/Database/Table.antt =====
-- The SQL statements that the repositories issue, on the rows of one table. A table keeps its rows
-- in order of insertion.
pub mod Laws
pub mod Key
use scraper_project.Base.{
  ℕ, ◌+◌, Bool, true, false, ◌||◌, Option, none, some, List, [], ◌∷◌, ◌++◌, if◌then◌else◌,
}

module _ {ℓ} {A : Type ℓ} where
  -- SELECT … WHERE test, `fetchone()`
  abbrev pub select_first : (A → Bool) → List A → Option A
  select_first test [] = none
  select_first test (x ∷ xs) = if test x then some x else select_first test xs

  -- SELECT … WHERE test, `fetchall()`
  abbrev pub select_all : (A → Bool) → List A → List A
  select_all test [] = []
  select_all test (x ∷ xs) = let rest = select_all test xs in if test x then x ∷ rest else rest

  -- Is there a row that satisfies the test?
  abbrev pub exists : (A → Bool) → List A → Bool
  exists test [] = false
  exists test (x ∷ xs) = test x || exists test xs

  -- UPDATE … SET change WHERE test
  abbrev pub update : (A → Bool) → (A → A) → List A → List A
  update test change [] = []
  update test change (x ∷ xs) = (if test x then change x else x) ∷ update test change xs

  -- The `rowcount` of such an update, and COUNT(*).
  abbrev pub count_where : (A → Bool) → List A → ℕ
  count_where test [] = 0
  count_where test (x ∷ xs) = (if test x then 1 else 0) + count_where test xs

  -- INSERT of a row that meets the constraints
  abbrev pub append_row : A → List A → List A
  append_row x xs = xs ++ x ∷ []
