-- ===== src/Worker/Kept.antt =====
-- A property that every effect keeps, and the methods of src/orchestration/synthetic_worker.py.
use scraper_project.Base.{String, refl, Bool, Option, none, some, if◌then◌else◌}
use scraper_project.Errors.{Error, Result}
use scraper_project.Timestamp.{Datetime}
use scraper_project.Database.Rows.{PartitionRow}
use scraper_project.Repositories.Crawls
use scraper_project.Repositories.Checkpoints
use scraper_project.Worker.Actions.{
  World, Action, pure, raise, attempt, on_database, transact, ◌>>=◌,
}
use scraper_project.Worker.Environment.{Platform, Reading}
use scraper_project.Worker.Steps
use scraper_project.Worker.Keeps.{
  Keeps, Holds-pure, Holds-raise, Holds-attempt, Holds-if, Holds-bind,
}
use scraper_project.Worker.Calls.{IsKept, Call, Keeps-call, Keeps-query, Keeps-save, perform}

module _ {I : World → Type 0} where
  pub Keeps-pure : {A : Type 0} (a : A) → Keeps I (pure a)
  Keeps-pure a = Holds-pure a λ w h. h

  pub Keeps-raise : {A : Type 0} (e : Error) → Keeps I (raise {A = A} e)
  Keeps-raise e = Holds-raise e λ w h. h

  pub Keeps-attempt : {A : Type 0} (r : Result A) → Keeps I (attempt r)
  Keeps-attempt r = Holds-attempt r (λ a _ w h. h) λ w h. h

  pub Keeps-bind :
      {A B : Type 0} (m : Action A) (f : A → Action B)
      → Keeps I m
      → ((a : A) → Keeps I (f a))
      → Keeps I (m >>= f)
  Keeps-bind m f hm hf = Holds-bind (λ _. I) m f hm hf

  pub Keeps-if :
      {A : Type 0} (b : Bool) (m n : Action A)
      → Keeps I m
      → Keeps I n
      → Keeps I (if b then m else n)
  Keeps-if b m n hm hn = Holds-if b m n (λ _. hm) (λ _. hn)

module _ (env : Platform) {run_id partition_id : String} {From : Option String → Type 0}
    {I : World → Type 0} (kept : IsKept env.sha256 run_id partition_id From I) where
  pub get_run-Keeps : (id : String) → Keeps I (on_database (Crawls.get_run id))
  unfolding Crawls.get_run
  get_run-Keeps id = Keeps-query kept _ λ db. refl

  get_partition-Keeps : (id : String) → Keeps I (on_database (Crawls.get_partition id))
  unfolding Crawls.get_partition
  get_partition-Keeps id = Keeps-query kept _ λ db. refl

  create_and_start-Keeps : (run_id : String) → Keeps I (Steps.create_and_start env run_id)
  unfolding Steps.create_and_start perform
  create_and_start-Keeps run_id =
      Keeps-bind _ _ (Keeps-call kept _ (Call.create_run _ _ _ _) λ db. refl)
        λ _. Keeps-call kept _ (Call.start_run _ _) λ db. refl

  start_if_pending-Keeps :
      (id : String) (row : Option PartitionRow) → Keeps I (Steps.start_if_pending env id row)
  unfolding Steps.start_if_pending perform
  start_if_pending-Keeps id none = Keeps-pure tt
  start_if_pending-Keeps id (some row) =
      Keeps-if _ _ _ (Keeps-call kept _ (Call.start_partition _ _) λ db. refl) (Keeps-pure tt)

  create_if_missing-Keeps :
      (run_id id : String) (row : Option PartitionRow)
      → Keeps I (Steps.create_if_missing env run_id id row)
  unfolding Steps.create_if_missing perform
  create_if_missing-Keeps run_id id (some row) = Keeps-pure (some row)
  create_if_missing-Keeps run_id id none =
      Keeps-bind _ _ (Keeps-call kept _ (Call.create_partition _ _ _ _ _ _) λ db. refl)
        λ _. get_partition-Keeps id

  pub ensure_run-Keeps : (run_id id : String) → Keeps I (Steps.ensure_run env run_id id)
  unfolding Steps.ensure_run perform
  ensure_run-Keeps run_id id =
      Keeps-bind _ _ (Keeps-call kept _ (Call.upsert_source _ _ _ _ _) λ db. refl) λ _.
        Keeps-bind _ _ (get_run-Keeps run_id) λ run.
          Keeps-bind _ _ (Keeps-if _ _ _ (Keeps-pure tt) (create_and_start-Keeps run_id)) λ _.
            Keeps-bind _ _ (get_partition-Keeps id) λ found.
              Keeps-bind _ _ (create_if_missing-Keeps run_id id found) (start_if_pending-Keeps id)

  pub save-Keeps :
      (value : String) (reading : Reading)
      → From (some value)
      → Keeps I (transact (Checkpoints.save run_id partition_id value (env.clock reading)))
  save-Keeps value reading known = Keeps-save kept value (env.clock reading) known

  pub discover_and_queue-Keeps :
      (job_id : String) (current : Datetime)
      → From (some "queued")
      → Keeps I (Steps.discover_and_queue env run_id partition_id job_id current)
  unfolding Steps.discover_and_queue perform
  discover_and_queue-Keeps job_id current known = Keeps-bind _ _ (Keeps-attempt _) λ fixture.
      Keeps-bind _ _ (Keeps-attempt _) λ listing_key.
        Keeps-bind _ _ (Keeps-attempt _) λ listing_url.
          Keeps-bind _ _ (Keeps-attempt _) λ observation.
            Keeps-bind _ _ (Keeps-call kept _ (Call.append_observation _ _ _) λ db. refl) λ _.
              Keeps-bind _ _ (Keeps-attempt _) λ job.
                Keeps-bind _ _ (Keeps-call kept _ (Call.create_job _ _ _) λ db. refl)
                  λ _. save-Keeps "queued" Reading.queued_saved known
