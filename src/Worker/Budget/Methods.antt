-- ===== src/Worker/Budget/Methods.antt =====
-- How many effects a run of src/orchestration/synthetic_worker.py has at most.
use scraper_project.Base.{ℕ, String, Option, none, some, List, arith}
use scraper_project.Errors.{file_exists_error, synthetic_worker_error}
use scraper_project.Timestamp.{Datetime}
use scraper_project.Contracts.Value.{Value}
use scraper_project.Contracts.Models.{DatasetBatchManifest}
use scraper_project.Database.Rows.{PartitionRow, SnapshotRow}
use scraper_project.Worker.Actions.{Action}
use scraper_project.Worker.Environment.{Platform}
use scraper_project.Worker.Steps
use scraper_project.Worker.Budget.{
  Spends, Spends-pure, Spends-raise, Spends-attempt, Spends-on_database, Spends-more, Spends-if,
  Spends-bind, Spends-transact, Spends-read_file, Spends-create_file,
}

pub Spends-idle : {A : Type 0} {m : Action A} (n : ℕ) → Spends 0 m → Spends n m
Spends-idle {m} n h = Spends-more 0 n m (omega arith) h

module _ (env : Platform) where
  Spends-start_if_pending :
      (id : String) (row : Option PartitionRow) → Spends 1 (Steps.start_if_pending env id row)
  unfolding Steps.start_if_pending
  Spends-start_if_pending id none = Spends-idle 1 (Spends-pure tt)
  Spends-start_if_pending id (some row) =
      Spends-if 1 _ _ _ (Spends-transact _) (Spends-idle 1 (Spends-pure tt))

  Spends-create_if_missing :
      (run_id id : String) (row : Option PartitionRow)
      → Spends 1 (Steps.create_if_missing env run_id id row)
  unfolding Steps.create_if_missing
  Spends-create_if_missing run_id id (some row) = Spends-idle 1 (Spends-pure (some row))
  Spends-create_if_missing run_id id none =
      Spends-bind 1 0 _ _ (Spends-transact _) λ _. Spends-on_database _

  pub Spends-ensure_run : (run_id id : String) → Spends 5 (Steps.ensure_run env run_id id)
  unfolding Steps.ensure_run Steps.create_and_start
  Spends-ensure_run run_id id = Spends-bind 1 4 _ _ (Spends-transact _) λ _.
      Spends-bind 0 4 _ _ (Spends-on_database _) λ run.
        Spends-bind 2 2 _ _
          (Spends-if 2 _ _ _ (Spends-idle 2 (Spends-pure tt))
            (Spends-bind 1 1 _ _ (Spends-transact _) λ _. Spends-transact _))
          λ _. Spends-bind 0 2 _ _ (Spends-on_database _) λ found.
            Spends-bind 1 1 _ _ (Spends-create_if_missing run_id id found)
              (Spends-start_if_pending id)

  pub Spends-discover_and_queue :
      (run_id id job_id : String) (current : Datetime)
      → Spends 3 (Steps.discover_and_queue env run_id id job_id current)
  unfolding Steps.discover_and_queue
  Spends-discover_and_queue run_id id job_id current =
      Spends-bind 0 3 _ _ (Spends-attempt _) λ fixture.
        Spends-bind 0 3 _ _ (Spends-attempt _) λ listing_key.
          Spends-bind 0 3 _ _ (Spends-attempt _) λ listing_url.
            Spends-bind 0 3 _ _ (Spends-attempt _) λ observation.
              Spends-bind 1 2 _ _ (Spends-transact _) λ _.
                Spends-bind 0 2 _ _ (Spends-attempt _)
                  λ job. Spends-bind 1 1 _ _ (Spends-transact _) λ _. Spends-transact _

  Spends-keep_or_create :
      (path : String) (body : List ℕ) (old : Option (List ℕ))
      → Spends 2 (Steps.keep_or_create env path body old)
  unfolding Steps.keep_or_create
  Spends-keep_or_create path body none = Spends-create_file synthetic_worker_error path body
  Spends-keep_or_create path body (some old) =
      Spends-if 2 _ _ _ (Spends-idle 2 (Spends-pure tt)) (Spends-idle 2 (Spends-raise _))

  Spends-record_if_missing :
      (artifact_id job_id run_id : String) (fixture : Value) (path digest : String)
      (current : Datetime) (row : Option SnapshotRow)
      → Spends 1
          (Steps.record_if_missing env artifact_id job_id run_id fixture path digest current row)
  unfolding Steps.record_if_missing
  Spends-record_if_missing artifact_id job_id run_id fixture path digest current (some row) =
      Spends-idle 1 (Spends-pure tt)
  Spends-record_if_missing artifact_id job_id run_id fixture path digest current none =
      Spends-bind 0 1 _ _ (Spends-attempt _)
        λ fields. Spends-bind 0 1 _ _ (Spends-attempt _) λ artifact. Spends-transact _

  pub Spends-record_snapshot :
      (artifact_id job_id run_id : String) (current : Datetime)
      → Spends 3 (Steps.record_snapshot env artifact_id job_id run_id current)
  unfolding Steps.record_snapshot
  Spends-record_snapshot artifact_id job_id run_id current =
      Spends-bind 0 3 _ _ (Spends-attempt _) λ payload.
        Spends-bind 0 3 _ _ (Spends-read_file _) λ old.
          Spends-bind 2 1 _ _ (Spends-keep_or_create _ _ old) λ _.
            Spends-bind 0 1 _ _ (Spends-attempt _) λ fixture.
              Spends-bind 0 1 _ _ (Spends-on_database _) λ row.
                Spends-bind 1 0 _ _ (Spends-record_if_missing _ _ _ fixture _ _ current row)
                  λ _. Spends-pure _

  Spends-same_or_create :
      (path : String) (records : List ℕ) (old : Option (List ℕ))
      → Spends 2 (Steps.same_or_create env path records old)
  unfolding Steps.same_or_create
  Spends-same_or_create path records none = Spends-create_file file_exists_error path records
  Spends-same_or_create path records (some old) =
      Spends-if 2 _ _ _ (Spends-idle 2 (Spends-pure tt)) (Spends-idle 2 (Spends-raise _))

  Spends-record_missing_batch :
      (batch_id run_id artifact_id : String) (current : Datetime)
      (existing : Option DatasetBatchManifest)
      → Spends 3 (Steps.record_missing_batch env batch_id run_id artifact_id current existing)
  unfolding Steps.record_missing_batch
  Spends-record_missing_batch batch_id run_id artifact_id current (some manifest) =
      Spends-idle 3 (Spends-pure tt)
  Spends-record_missing_batch batch_id run_id artifact_id current none =
      Spends-bind 0 3 _ _ (Spends-read_file _) λ old.
        Spends-bind 2 1 _ _ (Spends-same_or_create _ _ old)
          λ _. Spends-bind 0 1 _ _ (Spends-attempt _) λ manifest. Spends-transact _

  pub Spends-record_batch :
      (batch_id run_id artifact_id : String) (current : Datetime)
      → Spends 3 (Steps.record_batch env batch_id run_id artifact_id current)
  unfolding Steps.record_batch
  Spends-record_batch batch_id run_id artifact_id current =
      Spends-bind 0 3 _ _ (Spends-on_database _)
        (Spends-record_missing_batch batch_id run_id artifact_id current)
