-- ===== src/Worker/Actions.antt =====
-- The effects of src/orchestration/synthetic_worker.py: the database, the files, and a process
-- that may be killed. An action takes the world to its outcome and the world that it leaves.
-- Every transaction, every creation of a file and every write of one is an effect; a process with
-- `left` effects is killed when it comes to the next one, so each interruption between two
-- effects is some `left`.
use scraper_project.Base.{
  ℕ, zero, suc, String, Option, none, some, List, [], ◌∷◌, ◌==◌, is_some, if◌then◌else◌,
}
use scraper_project.Errors.{Error, Result, ok, err}
use scraper_project.Database.{Database}
use scraper_project.Database.Transaction.{Exec}

pub record World : Type 0 where
  pub database : Database
  pub files : List (String × List ℕ)
  pub left : ℕ

pub data Outcome (A : Type 0) : Type 0 where
  returned : A → Outcome A
  raised : Error → Outcome A
  killed : Outcome A

abbrev pub Action : Type 0 → Type 0
Action A = World → Outcome A × World

-- The bytes of the file at a path.
abbrev pub content : String → List (String × List ℕ) → Option (List ℕ)
content path [] = none
content path ((other, bytes) ∷ files) = if other == path then some bytes else content path files

abbrev pub overwrite : String → List ℕ → List (String × List ℕ) → List (String × List ℕ)
overwrite path bytes [] = []
overwrite path bytes ((other, old) ∷ files) =
    (if other == path then (other, bytes) else (other, old)) ∷ overwrite path bytes files

module _ {A : Type 0} where
  unfoldable pub pure : A → Action A
  pure a w = (returned a, w)

  unfoldable pub raise : Error → Action A
  raise e w = (raised e, w)

  abbrev pub outcome_of : Result A → Outcome A
  outcome_of (ok a) = returned a
  outcome_of (err e) = raised e

  unfoldable pub attempt : Result A → Action A
  attempt r w = (outcome_of r, w)

  unfoldable pub on_database : Exec A → Action A
  on_database m w = let (r, db) = m w.database in (outcome_of r, record w { database = db })

infixl 10 ◌>>=◌ ◌>>◌
unfoldable pub ◌>>=◌ : {A B : Type 0} → Action A → (A → Action B) → Action B
◌>>=◌ m f w =
    let (o, w') = m w in
    elim o [ returned a ↦ f a w' | raised e ↦ (raised e, w') | killed ↦ (killed, w') ]

abbrev pub ◌>>◌ : {A B : Type 0} → Action A → Action B → Action B
m >> k = m >>= λ _. k

-- One effect, or the end of the process.
unfoldable pub spend_one : ℕ → Action (Unit {0})
spend_one zero w = (killed, w)
spend_one (suc n) w = (returned tt, record w { left = n })

unfoldable pub spend : Action (Unit {0})
unfolding spend_one
spend w = spend_one w.left w

unfoldable pub transact : {A : Type 0} → Exec A → Action A
transact m = do spend; on_database m

-- `path.read_bytes()`, and `path.exists()`
unfoldable pub read_file : String → Action (Option (List ℕ))
read_file path w = (returned (content path w.files), w)

unfoldable pub set_files : (List (String × List ℕ) → List (String × List ℕ)) → Action (Unit {0})
set_files change w = (returned tt, record w { files = change w.files })

-- `path.open("xb")` creates an empty file, `write` fills it; `exists_error` is what the source raises
-- where the file is there.
unfoldable pub create_file : Error → String → List ℕ → Action (Unit {0})
unfolding set_files
create_file exists_error path bytes = do
  spend
  there ← read_file path
  (if is_some there then raise exists_error else set_files (λ files. (path, []) ∷ files))
  spend
  set_files (overwrite path bytes)
