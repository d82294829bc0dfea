-- ===== src/Database/Table/Key.antt =====
-- A table with a text as its primary key.
use scraper_project.Base.{
  ◌≡◌, ◌≢◌, refl, ap, ◌∙◌, subst, inl, inr, String, Bool, true, false, ◌&&◌, none, some, List, [],
  ◌∷◌, arith, eq_iff, ◌==◌, if◌then◌else◌, All, Among, or-eq-false, ne_sym, Bool-cases,
  Option-cases,
}
use scraper_project.Database.Table.{select_first, exists, update, count_where, append_row}
use scraper_project.Database.Table.Laws.{
  select_first-eq-some, exists-Among, exists-append, exists-update,
}

-- WHERE key=?
abbrev pub has_key : {A : Type 0} → (A → String) → String → A → Bool
has_key key id a = key a == id

-- No two rows share their key.
abbrev pub IsKeyed : {A : Type 0} → (A → String) → List A → Type 0
IsKeyed key [] = Unit
IsKeyed key (x ∷ xs) = (exists (has_key key (key x)) xs ≡ false) × IsKeyed key xs

module _ {A : Type 0} (key : A → String) where
  -- By the key, the rows that carry the key of `row` are `row`.
  no_other :
      (row : A) (xs : List A)
      → exists (has_key key (key row)) xs ≡ false
      → All (λ a. has_key key (key row) a ≡ true → a ≡ row) xs
  no_other row [] h = tt
  no_other row (x ∷ xs) h = ground (arith, no_other row xs)

  pub IsKeyed-Among :
      (row : A) (xs : List A)
      → IsKeyed key xs
      → Among row xs
      → All (λ a. has_key key (key row) a ≡ true → a ≡ row) xs
  IsKeyed-Among row [] k m = tt
  IsKeyed-Among row (x ∷ xs) k (inl e) = (
    (λ _. e),
    subst (λ r. All (λ a. has_key key (key r) a ≡ true → a ≡ r) xs) e (no_other x xs k.0),
  )
  IsKeyed-Among row (x ∷ xs) k (inr m) = (
    (λ same.
        let e : has_key key (key x) row ≡ true =
          ground (arith, eq_iff (key x) (key row), eq_iff (key row) (key x)) in
        cc (k.0, exists-Among (has_key key (key x)) xs row m e)),
    IsKeyed-Among row xs k.1 m,
  )

  pub IsKeyed-append :
      (x : A) (xs : List A)
      → IsKeyed key xs
      → exists (has_key key (key x)) xs ≡ false
      → IsKeyed key (append_row x xs)
  IsKeyed-append x [] k h = (refl, tt)
  IsKeyed-append x (y ∷ xs) k h =
      let (other, rest) = or-eq-false _ _ h in
      (
        exists-append (has_key key (key y)) xs x (ne_sym (key y) (key x) other) ∙ k.0,
        IsKeyed-append x xs k.1 rest,
      )

  pub IsKeyed-update :
      (test : A → Bool) (change : A → A) (xs : List A)
      → ((a : A) → key (change a) ≡ key a)
      → IsKeyed key xs
      → IsKeyed key (update test change xs)
  IsKeyed-update test change [] same k = tt
  IsKeyed-update test change (x ∷ xs) same k =
      let e : key (if test x then change x else x) ≡ key x = ground (arith, same x) in
      (
        rw e (
            exists-update test change (has_key key (key x)) xs (λ a. ap (λ s. s == key x) (same a))
            ∙ k.0),
        IsKeyed-update test change xs same k.1,
      )

  count_where-absent :
      (id : String) (test : A → Bool) (xs : List A)
      → exists (has_key key id) xs ≡ false
      → count_where (λ a. has_key key id a && test a) xs ≡ 0
  count_where-absent id test [] h = refl
  count_where-absent id test (x ∷ xs) h = ground (arith, count_where-absent id test xs)

  -- How many rows an UPDATE of one row by its key and a condition changes.
  pub count_where-key :
      (id : String) (test : A → Bool) (xs : List A)
      → IsKeyed key xs
      → count_where (λ a. has_key key id a && test a) xs
        ≡ elim (select_first (has_key key id) xs) [ none ↦ 0 | some a ↦ if test a then 1 else 0 ]
  count_where-key id test [] k = refl
  count_where-key id test (x ∷ xs) k = elim (Bool-cases (key x == id)) [
    | inl e ↦
        let alone : exists (has_key key id) xs ≡ false =
          subst (λ s. exists (has_key key s) xs ≡ false) ((eq_iff (key x) id).0 e) k.0 in
        ground (arith, e, count_where-absent id test xs alone)
    | inr e ↦ ground (arith, e, count_where-key id test xs k.1)
  ]

  -- What such an UPDATE makes of the row that a key selects.
  pub select_first-update :
      (id : String) (test : A → Bool) (change : A → A) (xs : List A)
      → ((a : A) → key (change a) ≡ key a)
      → select_first (has_key key id) (update test change xs)
        ≡ elim (select_first (has_key key id) xs) [
          | none ↦ none
          | some a ↦ some (if test a then change a else a)
        ]
  select_first-update id test change [] same = refl
  select_first-update id test change (x ∷ xs) same =
      ground (arith, same x, select_first-update id test change xs same)

  -- Does the row that a key selects satisfy the condition?
  abbrev pub selected : String → (A → Bool) → List A → Bool
  selected id test xs = elim (select_first (has_key key id) xs) [ none ↦ false | some a ↦ test a ]

  -- The row count of an UPDATE by the key and a condition is 1 or 0, by that row.
  pub count_where-selected :
      (id : String) (test : A → Bool) (xs : List A)
      → IsKeyed key xs
      → count_where (λ a. has_key key id a && test a) xs ≡ (if selected id test xs then 1 else 0)
  count_where-selected id test xs k = elim (Option-cases (select_first (has_key key id) xs)) [
    | inl e ↦ ground (arith, e, count_where-key id test xs k)
    | inr (a, e) ↦ ground (arith, e, count_where-key id test xs k)
  ]

  -- A row under another key is not touched.
  pub select_first-other :
      (id other : String) (test : A → Bool) (change : A → A) (xs : List A)
      → ((a : A) → key (change a) ≡ key a)
      → other ≢ id
      → select_first (has_key key other) (update (λ a. has_key key id a && test a) change xs)
        ≡ select_first (has_key key other) xs
  select_first-other id other test change [] same ne = refl
  select_first-other id other test change (x ∷ xs) same ne = ground (
    arith,
    same x,
    eq_iff (key x) id,
    eq_iff (key x) other,
    select_first-other id other test change xs same ne,
  )

  -- The row that a key selects, after it has been changed under that key.
  pub select_first-moved :
      (id : String) (test : A → Bool) (change : A → A) (xs : List A) (a : A)
      → ((b : A) → key (change b) ≡ key b)
      → select_first (has_key key id) xs ≡ some a
      → test a ≡ true
      → select_first (has_key key id) (update (λ b. has_key key id b && test b) change xs)
        ≡ some (change a)
  select_first-moved id test change xs a same e h = ground (
    arith,
    select_first-update id (λ b. has_key key id b && test b) change xs same,
    select_first-eq-some (has_key key id) xs a e,
  )
