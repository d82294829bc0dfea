-- ===== src/Worker/Queueing.antt =====
-- The worker of src/orchestration/synthetic_worker.py and the queue: which of its calls touch the two
-- tables of the queue, and the invariant of those tables.
use scraper_project.Base.{
  ℕ, String, ◌≡◌, refl, sym, subst, Option, List, ◌⊎◌, inl, inr, arith, Among,
}
use scraper_project.Timestamp.{Datetime, Timestamp}
use scraper_project.Contracts.Value.{ℤ}
use scraper_project.Contracts.Models.{RawFetchArtifact}
use scraper_project.Database.{Database}
use scraper_project.Database.Rows.{JobRow}
use scraper_project.Repositories.Sources.{upsert}
use scraper_project.Repositories.Crawls
use scraper_project.Repositories.Observations
use scraper_project.Repositories.Checkpoints
use scraper_project.Repositories.Snapshots
use scraper_project.Repositories.ParserRuns
use scraper_project.Repositories.DatasetBatches
use scraper_project.Queue
use scraper_project.Queue.History
use scraper_project.Queue.History.{step, step-IsValid, step-IsFinal}
use scraper_project.Queue.Invariant.{IsFinal}
use scraper_project.Queue.Valid.{IsValid}
use scraper_project.Queue.Creation.{same-IsValid}
use scraper_project.Worker.{run}
use scraper_project.Worker.Actions.{World}
use scraper_project.Worker.Environment.{Platform}
use scraper_project.Worker.Keeps.{Keeps-world}
use scraper_project.Worker.Calls.{Call, perform, IsKept, always}
use scraper_project.Worker.Interrupted.{run-Keeps}

-- The tables of the queue are as they were.
abbrev pub Apart : Database → Database → Type 0
Apart db db' = (db'.detail_fetch_jobs ≡ db.detail_fetch_jobs) × (db'.job_attempts ≡ db.job_attempts)

-- A call leaves the two tables alone, or is a call of the queue or of `create_idempotent`.
abbrev pub QueueCall : Call → Database → Type 0
QueueCall call db =
    Apart db (perform call db) ⊎ ((c : History.Call) × (perform call db ≡ step c db))

queue_call : (call : Call) (db : Database) → QueueCall call db
unfolding perform step upsert Crawls.create_run Crawls.start Crawls.complete Crawls.transition_run
    Crawls.transition_partition ParserRuns.transition Crawls.create_partition Crawls.start_partition
    Crawls.complete_partition Observations.append ParserRuns.start ParserRuns.complete
    DatasetBatches.record_batch Queue.register_owner
queue_call (Call.upsert_source name enabled strategy notes now) db = inl (refl, refl)
queue_call (Call.create_run id source kind now) db = inl (ground arith)
queue_call (Call.start_run id now) db = inl (ground arith)
queue_call (Call.complete_run id now) db = inl (ground arith)
queue_call (Call.create_partition id run source key created updated) db = inl (ground arith)
queue_call (Call.start_partition id now) db = inl (ground arith)
queue_call (Call.complete_partition id now) db = inl (ground arith)
queue_call (Call.append_observation o given fresh) db = inl (ground arith)
queue_call (Call.start_parser artifact name version fresh now) db = inl (ground arith)
queue_call (Call.complete_parser id now) db = inl (ground arith)
queue_call (Call.record_batch manifest) db = inl (ground arith)
queue_call (Call.register_owner now) db = inl (ground arith)
queue_call (Call.create_job job created updated) db =
    inr (History.Call.creation job created updated, refl)
queue_call (Call.recover_abandoned current) db = inr (History.Call.recovery current, refl)
queue_call (Call.lease_next worker seconds current fresh) db =
    inr (History.Call.lease worker seconds current fresh, refl)
queue_call (Call.succeed_job job worker current) db =
    inr (History.Call.success job worker current, refl)
queue_call (Call.fail_job job worker error_class current) db =
    inr (History.Call.failure job worker error_class current, refl)

record_artifact-Apart :
    (artifact : RawFetchArtifact) (db : Database)
    → Apart db (Snapshots.record_artifact artifact db).1
unfolding Snapshots.record_artifact
record_artifact-Apart artifact db = ground arith

save-Apart :
    (run_id id value : String) (now : Timestamp) (db : Database)
    → Apart db (Checkpoints.save run_id id value now db).1
unfolding Checkpoints.save
save-Apart run_id id value now db = ground arith

Apart-IsValid : (db db' : Database) → Apart db db' → IsValid db → IsValid db'
Apart-IsValid db db' same v = same-IsValid db db' same.0 same.1 v

perform-IsValid :
    (call : Call) (db : Database) → QueueCall call db → IsValid db → IsValid (perform call db)
perform-IsValid call db (inl same) v = Apart-IsValid db (perform call db) same v
perform-IsValid call db (inr (c, e)) v = subst IsValid (sym e) (step-IsValid c db v)

pub IsValid-IsKept :
    (sha256 : List ℕ → String) (run_id id : String)
    → IsKept sha256 run_id id (λ _. Unit) (λ w. IsValid w.database)
IsValid-IsKept sha256 run_id id = record {
  forward = always;
  loads = λ w v. tt;
  saves =
      λ value now w _ v. Apart-IsValid w.database _ (save-Apart run_id id value now w.database) v;
  steady = λ w n v. v;
  calls = λ call w v. perform-IsValid call w.database (queue_call call w.database) v;
  snapshots = λ artifact path digest w _ _ _ v.
      Apart-IsValid w.database _ (record_artifact-Apart artifact w.database) v;
  creations = λ path bytes w _ v. v;
}

-- A job that is over stays in the table as it is.
abbrev StillThere : JobRow → World → Type 0
StillThere job w = IsValid w.database × Among job w.database.detail_fetch_jobs

Apart-Among :
    (job : JobRow) (db db' : Database)
    → Apart db db'
    → IsValid db × Among job db.detail_fetch_jobs
    → IsValid db' × Among job db'.detail_fetch_jobs
Apart-Among job db db' same h = (Apart-IsValid db db' same h.0, subst (Among job) (sym same.0) h.1)

perform-Among :
    (job : JobRow) (call : Call) (db : Database)
    → IsFinal job
    → QueueCall call db
    → IsValid db × Among job db.detail_fetch_jobs
    → IsValid (perform call db) × Among job (perform call db).detail_fetch_jobs
perform-Among job call db final (inl same) h = Apart-Among job db (perform call db) same h
perform-Among job call db final (inr (c, e)) h =
    subst (λ db'. IsValid db' × Among job db'.detail_fetch_jobs) (sym e)
      (step-IsValid c db h.0, step-IsFinal c db job h.0 final h.1)

IsFinal-IsKept :
    (sha256 : List ℕ → String) (run_id id : String) (job : JobRow)
    → IsFinal job
    → IsKept sha256 run_id id (λ _. Unit) (StillThere job)
IsFinal-IsKept sha256 run_id id job final = record {
  forward = always;
  loads = λ w h. tt;
  saves =
      λ value now w _ h. Apart-Among job w.database _ (save-Apart run_id id value now w.database) h;
  steady = λ w n h. h;
  calls = λ call w h. perform-Among job call w.database final (queue_call call w.database) h;
  snapshots = λ artifact path digest w _ _ _ h.
      Apart-Among job w.database _ (record_artifact-Apart artifact w.database) h;
  creations = λ path bytes w _ h. h;
}

module _ (env : Platform) (run_id : String) (lease_seconds : ℤ) (stop_after : Option String)
    (current : Datetime) (w : World) where
  -- From a world with a valid database, `run` leaves a valid database, whatever the server answers,
  -- wherever it is asked to stop, and before whichever of its effects the process is killed.
  pub worker_run-IsValid :
      IsValid w.database → IsValid (run env run_id lease_seconds stop_after current w).1.database
  worker_run-IsValid v =
      Keeps-world _
        (run-Keeps env run_id (IsValid-IsKept env.sha256 run_id _) lease_seconds stop_after current)
        w v

  -- From a world with a valid database, a job that has succeeded or is exhausted is still in the
  -- table, unchanged, after every `run`, also one that is killed.
  pub worker_run-IsFinal :
      (job : JobRow)
      → IsValid w.database
      → IsFinal job
      → Among job w.database.detail_fetch_jobs
      → Among job (run env run_id lease_seconds stop_after current w).1.database.detail_fetch_jobs
  worker_run-IsFinal job v final among =
      (Keeps-world _
        (run-Keeps env run_id (IsFinal-IsKept env.sha256 run_id _ job final) lease_seconds
          stop_after current)
        w (v, among)).1
