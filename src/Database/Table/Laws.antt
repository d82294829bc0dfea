-- ===== src/Database/Table/Laws.antt =====
-- What an UPDATE, an INSERT and a SELECT keep, for any table.
use scraper_project.Base.{
  ◌+◌, ◌≡◌, refl, subst, inl, inr, Bool, true, false, none, some, List, [], ◌∷◌, arith,
  if◌then◌else◌, All, Among, Pointwise,
}
use scraper_project.Database.Table.{
  select_first, select_all, exists, update, count_where, append_row,
}

module _ {A : Type 0} (test : A → Bool) (change : A → A) where
  -- An update that keeps what a test reads keeps its answer and its count.
  pub exists-update :
      (other : A → Bool) (xs : List A)
      → ((a : A) → other (change a) ≡ other a)
      → exists other (update test change xs) ≡ exists other xs
  exists-update other [] same = refl
  exists-update other (x ∷ xs) same = ground (arith, same x, exists-update other xs same)

  pub count_where-update :
      (other : A → Bool) (xs : List A)
      → ((a : A) → other (change a) ≡ other a)
      → count_where other (update test change xs) ≡ count_where other xs
  count_where-update other [] same = refl
  count_where-update other (x ∷ xs) same = ground (arith, same x, count_where-update other xs same)

  pub All-update :
      (P : A → Type 0) (xs : List A)
      → ((a : A) → test a ≡ true → P a → P (change a))
      → All P xs
      → All P (update test change xs)
  All-update P [] keep h = tt
  All-update P (x ∷ xs) keep h = ground (arith, keep x, All-update P xs keep h.1)

  -- Where the updated rows are known to satisfy `P`, an update relates the two tables row by row.
  pub Pointwise-update :
      (P : A → Type 0) (R : A → A → Type 0) (xs : List A)
      → ((a : A) → R a a)
      → ((a : A) → test a ≡ true → P a → R a (change a))
      → All P xs
      → Pointwise R xs (update test change xs)
  Pointwise-update P R [] same step h = tt
  Pointwise-update P R (x ∷ xs) same step h =
      ground (arith, same x, step x, Pointwise-update P R xs same step h.1)

  pub update_none : (xs : List A) → exists test xs ≡ false → update test change xs ≡ xs
  update_none [] h = refl
  update_none (x ∷ xs) h = ground (arith, update_none xs)

  -- An update whose row count is 0 has changed nothing.
  pub update-count_zero : (xs : List A) → count_where test xs ≡ 0 → update test change xs ≡ xs
  update-count_zero [] h = refl
  update-count_zero (x ∷ xs) h = ground (arith, update-count_zero xs)

module _ {A : Type 0} (test : A → Bool) where
  pub exists-append :
      (xs : List A) (a : A) → test a ≡ false → exists test (append_row a xs) ≡ exists test xs
  exists-append [] a h = ground arith
  exists-append (x ∷ xs) a h = ground (arith, exists-append xs a h)

  pub exists-append_self :
      (xs : List A) (a : A) → test a ≡ true → exists test (append_row a xs) ≡ true
  exists-append_self [] a h = ground arith
  exists-append_self (x ∷ xs) a h = ground (arith, exists-append_self xs a)

  pub exists-append_keep :
      (xs : List A) (a : A) → exists test xs ≡ true → exists test (append_row a xs) ≡ true
  exists-append_keep [] a h = cc
  exists-append_keep (x ∷ xs) a h = ground (arith, exists-append_keep xs a)

  pub select_first-append_self :
      (xs : List A) (a : A)
      → exists test xs ≡ false
      → test a ≡ true
      → select_first test (append_row a xs) ≡ some a
  select_first-append_self [] a h t = ground arith
  select_first-append_self (x ∷ xs) a h t = ground (arith, select_first-append_self xs a)

  pub count_where-append :
      (xs : List A) (a : A)
      → count_where test (append_row a xs) ≡ count_where test xs + (if test a then 1 else 0)
  count_where-append [] a = ground arith
  count_where-append (x ∷ xs) a = ground (arith, count_where-append xs a)

  pub select_first-eq-some :
      (xs : List A) (a : A) → select_first test xs ≡ some a → Among a xs × (test a ≡ true)
  select_first-eq-some [] a h = cc
  select_first-eq-some (x ∷ xs) a h = ground (arith, select_first-eq-some xs a)

  pub select_first-eq-none : (xs : List A) → select_first test xs ≡ none → exists test xs ≡ false
  select_first-eq-none [] h = refl
  select_first-eq-none (x ∷ xs) h = ground (arith, select_first-eq-none xs)

  pub Among-select_all :
      (xs : List A) (a : A) → Among a (select_all test xs) → Among a xs × (test a ≡ true)
  Among-select_all [] a h = absurd h
  Among-select_all (x ∷ xs) a h = ground (arith, Among-select_all xs a)

  pub exists-Among : (xs : List A) (a : A) → Among a xs → test a ≡ true → exists test xs ≡ true
  exists-Among [] a h t = absurd h
  exists-Among (x ∷ xs) a h t = ground (arith, exists-Among xs a)

  pub select_first-exists : (xs : List A) → exists test xs ≡ false → select_first test xs ≡ none
  select_first-exists [] h = refl
  select_first-exists (x ∷ xs) h = ground (arith, select_first-exists xs)

pub All-Among : {A : Type 0} (P : A → Type 0) (xs : List A) (a : A) → All P xs → Among a xs → P a
All-Among P [] a h m = absurd m
All-Among P (x ∷ xs) a h (inl e) = subst P e h.0
All-Among P (x ∷ xs) a h (inr m) = All-Among P xs a h.1 m
