-- ===== src/Worker/Waiting.antt =====
-- A run of src/orchestration/synthetic_worker.py whose checkpoint is `queued` while the queue has
-- nothing left to lease. The worker comes here when it is killed between `queue.succeed` and the
-- save of the checkpoint that follows it, and when `queue.fail` takes the last attempt of its
-- job.
pub mod Forever
use scraper_project.Base.{
  ℕ, zero, suc, String, ◌≡◌, refl, ap, sym, subst, Bool, true, false, Option, none, some, List, [],
  ◌∷◌, arith, All, is_some, if◌then◌else◌, ◌&&◌, ◌⊎◌, inl, inr,
}
use scraper_project.Errors.{Error, Result, ok, err}
use scraper_project.Timestamp.{Datetime, Timestamp, timestamp}
use scraper_project.Contracts.Value.{ℤ, pos, negsuc}
use scraper_project.Database.{Database}
use scraper_project.Database.Rows.{JobRow, PartitionRow, CheckpointRow}
use scraper_project.Database.Table.{select_all, select_first}
use scraper_project.Database.Transaction.{Exec}
use scraper_project.Repositories.Sources.{upsert}
use scraper_project.Repositories.Crawls
use scraper_project.Repositories.Checkpoints
use scraper_project.Queue
use scraper_project.Queue.{JobLease, Recovery}
use scraper_project.Queue.Invariant.{IsFinal}
use scraper_project.Queue.Lease.{lease_cases}
use scraper_project.Worker
use scraper_project.Worker.{SyntheticWorkerResult, Progress, ended, reached}
use scraper_project.Worker.Actions.{
  World, Outcome, returned, raised, killed, Action, pure, on_database, transact,
}
use scraper_project.Worker.Environment.{Platform}
use scraper_project.Worker.Steps
use scraper_project.Worker.Keeps.{
  After, Holds, Keeps, IsSteady, Holds-pure, Holds-attempt, Holds-bind, Holds-if, Holds-on_database,
  Holds-transact,
}
use scraper_project.Worker.Calls.{stored, After-both}
use scraper_project.Worker.Kept.{Keeps-pure, Keeps-attempt, Keeps-bind, Keeps-if}

-- Nothing can be recovered, and nothing can be leased.
final-abandoned :
    (now : Timestamp) (jobs : List JobRow)
    → All IsFinal jobs
    → select_all (Queue.is_abandoned now) jobs ≡ []
unfolding Queue.is_abandoned
final-abandoned now [] h = refl
final-abandoned now (job ∷ jobs) h = ground (arith, h.0, final-abandoned now jobs h.1)

final-eligible :
    (now : Timestamp) (jobs : List JobRow)
    → All IsFinal jobs
    → select_all (Queue.is_eligible now) jobs ≡ []
unfolding Queue.is_eligible
final-eligible now [] h = refl
final-eligible now (job ∷ jobs) h = ground (arith, h.0, final-eligible now jobs h.1)

next-final :
    (now : Timestamp) (jobs : List JobRow) → All IsFinal jobs → Queue.next_job now jobs ≡ none
unfolding Queue.next_job
next-final now jobs h = rw (final-eligible now jobs h) refl

recover-final :
    (current : Datetime) (db : Database)
    → All IsFinal db.detail_fetch_jobs
    → (Queue.recover_abandoned current db).1 ≡ db
unfolding Queue.recover_abandoned
recover-final current db h =
    ap (λ rows. Queue.recover_rows current rows db)
      (final-abandoned (timestamp current) db.detail_fetch_jobs h)

-- The two facts, and what they read of the database.
module _ (run_id id : String) where
  abbrev pub IsStuckIn : Database → Type 0
  IsStuckIn db = (stored run_id id db ≡ some "queued") × All IsFinal db.detail_fetch_jobs

  abbrev pub IsStuck : World → Type 0
  IsStuck w = IsStuckIn w.database

  IsStuck-IsSteady : IsSteady IsStuck
  IsStuck-IsSteady = record { at = λ w n h. h }

  abbrev Leaves : {A : Type 0} → Exec A → Type 0
  Leaves m =
      (db : Database)
      → ((m db).1.checkpoints ≡ db.checkpoints)
        × ((m db).1.detail_fetch_jobs ≡ db.detail_fetch_jobs)

  kept-by :
      (db db' : Database)
      → db'.checkpoints ≡ db.checkpoints
      → db'.detail_fetch_jobs ≡ db.detail_fetch_jobs
      → IsStuckIn db
      → IsStuckIn db'
  kept-by db db' ec ej h = (
    subst
        (λ rows.
          Checkpoints.value_of (select_first (Checkpoints.is_checkpoint run_id id) rows)
          ≡ some "queued")
        (sym ec) h.0,
    subst (All IsFinal) (sym ej) h.1,
  )

  pub Stuck-transact : {A : Type 0} (m : Exec A) → Leaves m → Keeps IsStuck (transact m)
  unfolding on_database
  Stuck-transact m same =
      Holds-transact IsStuck-IsSteady m (λ w h. h)
        λ w h.
          After-both IsStuck _ _
            (kept-by w.database (m w.database).1 (same w.database).0 (same w.database).1 h)

  Stuck-query :
      {A : Type 0} (m : Exec A) → ((db : Database) → (m db).1 ≡ db) → Keeps IsStuck (on_database m)
  unfolding on_database
  Stuck-query m same =
      Holds-on_database m λ w h. After-both IsStuck _ _ (subst IsStuckIn (sym (same w.database)) h)

  pub Stuck-recover :
      (current : Datetime) → Keeps IsStuck (transact (Queue.recover_abandoned current))
  unfolding on_database
  Stuck-recover current =
      Holds-transact IsStuck-IsSteady _ (λ w h. h)
        λ w h.
          After-both IsStuck _ _ (subst IsStuckIn (sym (recover-final current w.database h.1)) h)

  -- `lease_next` finds nothing, or raises.
  lease-final :
      (worker : String) (seconds : ℤ) (current : Datetime) (attempt_id : String) (db : Database)
      → All IsFinal db.detail_fetch_jobs
      → (Queue.lease_next worker seconds current attempt_id db ≡ (ok none, db))
        ⊎ ((e : Error) × (Queue.lease_next worker seconds current attempt_id db ≡ (err e, db)))
  lease-final worker seconds current attempt_id db h =
      lease_cases (λ r. (r ≡ (ok none, db)) ⊎ ((e : Error) × (r ≡ (err e, db)))) worker current
        attempt_id db (λ e. inr (e, refl)) seconds (λ _. inl refl)
        λ k row found.
          let none_left = next-final (timestamp current) db.detail_fetch_jobs h in
          ground (arith, found, none_left)

  pub Stuck-lease :
      (worker : String) (seconds : ℤ) (current : Datetime) (attempt_id : String)
      → Holds IsStuck
          (λ lease w. IsStuck w × (lease ≡ none))
          IsStuck
          (transact (Queue.lease_next worker seconds current attempt_id))
  unfolding on_database
  Stuck-lease worker seconds current attempt_id =
      Holds-transact IsStuck-IsSteady _ (λ w h. h)
        λ w h. elim (lease-final worker seconds current attempt_id w.database h.1) [
          | inl e ↦ rw e (h, refl)
          | inr (e, raises) ↦ rw raises h
        ]

module _ (env : Platform) (run_id : String) where
  abbrev id : String
  id = Worker.partition_id_of env run_id

  Stuck-create_and_start : Keeps (IsStuck run_id id) (Steps.create_and_start env run_id)
  unfolding Steps.create_and_start Crawls.create_run Crawls.start Crawls.transition_run
  Stuck-create_and_start =
      Keeps-bind _ _ (Stuck-transact run_id id _ λ db. (ground arith, ground arith))
        λ _. Stuck-transact run_id id _ λ db. (ground arith, ground arith)

  Stuck-start_if_pending :
      (row : Option PartitionRow) → Keeps (IsStuck run_id id) (Steps.start_if_pending env id row)
  unfolding Steps.start_if_pending Crawls.start_partition Crawls.transition_partition
  Stuck-start_if_pending none = Keeps-pure tt
  Stuck-start_if_pending (some row) =
      Keeps-if _ _ _ (Stuck-transact run_id id _ λ db. (ground arith, ground arith)) (Keeps-pure tt)

  Stuck-create_if_missing :
      (row : Option PartitionRow)
      → Keeps (IsStuck run_id id) (Steps.create_if_missing env run_id id row)
  unfolding Steps.create_if_missing Crawls.create_partition Crawls.get_partition
  Stuck-create_if_missing (some row) = Keeps-pure (some row)
  Stuck-create_if_missing none =
      Keeps-bind _ _ (Stuck-transact run_id id _ λ db. (ground arith, ground arith))
        λ _. Stuck-query run_id id _ λ db. refl

  pub Stuck-ensure_run : Keeps (IsStuck run_id id) (Steps.ensure_run env run_id id)
  unfolding Steps.ensure_run upsert Crawls.get_run Crawls.get_partition
  Stuck-ensure_run = Keeps-bind _ _ (Stuck-transact run_id id _ λ db. (refl, refl)) λ _.
      Keeps-bind _ _ (Stuck-query run_id id _ λ db. refl) λ run.
        Keeps-bind _ _ (Keeps-if _ _ _ (Keeps-pure tt) Stuck-create_and_start) λ _.
          Keeps-bind _ _ (Stuck-query run_id id _ λ db. refl)
            λ found. Keeps-bind _ _ (Stuck-create_if_missing found) Stuck-start_if_pending
