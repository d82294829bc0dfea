-- ===== src/Queue/Owner.antt =====
-- `DetailFetchQueue.__init__` of src/orchestration/queue.py.
use scraper_project.Base.{◌≡◌, refl, inl, inr, true, some, ◌⊎◌, List, [], ◌∷◌, arith, ◌==◌, eq_refl}
use scraper_project.Errors.{ok}
use scraper_project.Timestamp.{Timestamp}
use scraper_project.Database.{Database}
use scraper_project.Database.Rows.{QueueOwnerRow}
use scraper_project.Database.Table.{select_first}
use scraper_project.Queue.{owner_name, register_owner}

rows_cases :
    (rows : List QueueOwnerRow)
    → (rows ≡ []) ⊎ ((row : QueueOwnerRow) × (rest : List QueueOwnerRow) × (rows ≡ row ∷ rest))
rows_cases [] = inl refl
rows_cases (row ∷ rest) = inr (row, rest, refl)

-- A database whose first registration is the owner's.
again :
    (now : Timestamp) (db : Database) (row : QueueOwnerRow)
    → select_first (λ _. true) db.runtime_queue_owner ≡ some row
    → (row.owner_name == owner_name) ≡ true
    → register_owner now db ≡ (ok tt, db)
unfolding register_owner
again now db row found own = ground (arith, found, own)

-- Opening the queue again is accepted and changes nothing: once a registration of the owner has been
-- accepted, every later one is, and it leaves the database as it was.
pub register_owner_twice :
    (now later : Timestamp) (db db' : Database)
    → register_owner now db ≡ (ok tt, db')
    → register_owner later db' ≡ (ok tt, db')
unfolding register_owner
register_owner_twice now later db db' h = elim (rows_cases db.runtime_queue_owner) [
  | inl empty ↦
      let new : QueueOwnerRow = record { owner_name = owner_name; registered_at = now } in
      again later db' new (ground (arith, h, empty)) (eq_refl owner_name)
  | inr (row, rest, e) ↦ again later db' row (ground (arith, h, e)) (ground (arith, h, e))
]
