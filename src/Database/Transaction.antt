-- ===== src/Database/Transaction.antt =====
-- src/database/connection.py `RuntimeDatabase.write_transaction` and `read_connection`. A body runs
-- as a function from the database to its result and the database that it leaves; SQLite and the
-- writer lock let one transaction run at a time, so an operation is one step.
use scraper_project.Base.{ℕ, Bool, true, false, leb}
use scraper_project.Errors.{Error, Result, ok, err, raise_if}
use scraper_project.Database.{Database}

abbrev pub Exec : Type 0 → Type 0
Exec A = Database → Result A × Database

module _ {A : Type 0} where
  abbrev pub pure : A → Exec A
  pure a db = (ok a, db)

  abbrev pub raise : Error → Exec A
  raise e db = (err e, db)

  abbrev pub gets : (Database → A) → Exec A
  gets f db = (ok (f db), db)

  -- COMMIT where the body returns; ROLLBACK, and the exception again, where it raises.
  unfoldable pub write_transaction : Exec A → Exec A
  write_transaction body db =
      let (r, db') = body db in elim r [ ok a ↦ (ok a, db') | err e ↦ (err e, db) ]

  -- A connection that only reads leaves the database as it is.
  unfoldable pub read_connection : (Database → A) → Exec A
  read_connection query db = (ok (query db), db)

  abbrev pub lift : Result A → Exec A
  lift r db = (r, db)

abbrev pub modify : (Database → Database) → Exec (Unit {0})
modify f db = (ok tt, f db)

-- A violated constraint: the statement raises and has changed nothing.
abbrev pub require : Bool → Exec (Unit {0})
require true db = (ok tt, db)
require false db = (err Error.integrity_error, db)

abbrev pub guard : Bool → Error → Exec (Unit {0})
guard b e db = (raise_if b e, db)

-- The largest of SQLite's integers.
abbrev pub largest_integer : ℕ
largest_integer = 0x7fff_ffff_ffff_ffff

-- A natural number that can be bound to a parameter.
abbrev pub fits : ℕ → Bool
fits n = leb n largest_integer

infixl 10 ◌>>=◌ ◌>>◌
abbrev pub ◌>>=◌ : {A B : Type 0} → Exec A → (A → Exec B) → Exec B
◌>>=◌ m f db = let (r, db') = m db in elim r [ ok a ↦ f a db' | err e ↦ (err e, db') ]

abbrev pub ◌>>◌ : {A B : Type 0} → Exec A → Exec B → Exec B
m >> k = m >>= λ _. k
