-- ===== src/Worker/Calls.antt =====
-- The calls of the repositories and of the queue that src/orchestration/synthetic_worker.py makes, and
-- what a property of the world needs in order to survive each of the worker's effects.
use scraper_project.Base.{
  ℕ, String, ◌≡◌, subst, sym, Bool, true, false, Option, none, some, List, ◌∷◌, ◌==◌,
}
use scraper_project.Timestamp.{Datetime, Timestamp}
use scraper_project.Contracts.Value.{ℤ}
use scraper_project.Contracts.Models.{
  DetailFetchJob, DiscoveryObservation, RawFetchArtifact, DatasetBatchManifest,
}
use scraper_project.Database.{Database}
use scraper_project.Database.Table.{select_first}
use scraper_project.Database.Transaction.{Exec}
use scraper_project.Repositories.Sources
use scraper_project.Repositories.Crawls
use scraper_project.Repositories.Observations
use scraper_project.Repositories.Jobs
use scraper_project.Repositories.Checkpoints
use scraper_project.Repositories.Snapshots
use scraper_project.Repositories.ParserRuns
use scraper_project.Repositories.DatasetBatches
use scraper_project.Queue
use scraper_project.Worker.Actions.{
  World, Outcome, returned, raised, killed, on_database, transact, content,
}
use scraper_project.Worker.Keeps.{After, Keeps, IsSteady, Holds-transact, Holds-on_database}

-- A call, with what it reads of the clock and of the source of identifiers. That of
-- `snapshots.record` and of `checkpoints.save` are apart: the first may use the file that was written
-- before it, the second the checkpoint that was stored before it.
pub data Call : Type 0 where
  upsert_source : String → Bool → String → Option String → Timestamp → Call
  create_run : String → String → String → Timestamp → Call
  start_run : String → Timestamp → Call
  complete_run : String → Timestamp → Call
  create_partition : String → String → String → String → Timestamp → Timestamp → Call
  start_partition : String → Timestamp → Call
  complete_partition : String → Timestamp → Call
  append_observation : DiscoveryObservation → Option String → String → Call
  create_job : DetailFetchJob → Timestamp → Timestamp → Call
  start_parser : String → String → String → String → Timestamp → Call
  complete_parser : String → Timestamp → Call
  record_batch : DatasetBatchManifest → Call
  register_owner : Timestamp → Call
  recover_abandoned : Datetime → Call
  lease_next : String → ℤ → Datetime → String → Call
  succeed_job : String → String → Datetime → Call
  fail_job : String → String → String → Datetime → Call

-- The database that a call leaves.
unfoldable pub perform : Call → Database → Database
perform (upsert_source name enabled strategy notes now) db =
    (Sources.upsert name enabled strategy notes now db).1
perform (create_run id source kind now) db = (Crawls.create_run id source kind now db).1
perform (start_run id now) db = (Crawls.start id now db).1
perform (complete_run id now) db = (Crawls.complete id now db).1
perform (create_partition id run source key created updated) db =
    (Crawls.create_partition id run source key created updated db).1
perform (start_partition id now) db = (Crawls.start_partition id now db).1
perform (complete_partition id now) db = (Crawls.complete_partition id now db).1
perform (append_observation observation given fresh) db =
    (Observations.append observation given fresh db).1
perform (create_job job created updated) db = (Jobs.create_idempotent job created updated db).1
perform (start_parser artifact name version fresh now) db =
    (ParserRuns.start artifact name version fresh now db).1
perform (complete_parser id now) db = (ParserRuns.complete id now db).1
perform (record_batch manifest) db = (DatasetBatches.record_batch manifest db).1
perform (register_owner now) db = (Queue.register_owner now db).1
perform (recover_abandoned current) db = (Queue.recover_abandoned current db).1
perform (lease_next worker seconds current fresh) db =
    (Queue.lease_next worker seconds current fresh db).1
perform (succeed_job job worker current) db = (Queue.succeed job worker current db).1
perform (fail_job job worker error_class current) db =
    (Queue.fail job worker error_class current db).1

-- The file at the path has this digest.
abbrev pub has_digest : (List ℕ → String) → String → Option (List ℕ) → Bool
has_digest sha256 digest none = false
has_digest sha256 digest (some bytes) = sha256 bytes == digest

abbrev pub is_saved : (List ℕ → String) → String → String → List (String × List ℕ) → Bool
is_saved sha256 path digest files = has_digest sha256 digest (content path files)

-- What is known of the checkpoint that a run has loaded or saved is known of the next one.
pub record IsForward (From : Option String → Type 0) : Type 0 where
  pub discovered : From none → From (some "queued")
  pub queued : From (some "queued") → From (some "snapshot-recorded")
  pub recorded : From (some "snapshot-recorded") → From (some "parser-completed")
  pub parsed : From (some "parser-completed") → From (some "batch-recorded")
  pub batched : From (some "batch-recorded") → From (some "completed")

-- The checkpoint that is stored for a partition.
abbrev pub stored : String → String → Database → Option String
stored run_id partition_id db =
    Checkpoints.value_of
      (select_first (Checkpoints.is_checkpoint run_id partition_id) db.checkpoints)

-- A property that every effect keeps: each call, the recording of an artifact whose file has its
-- digest, the creation of a file where there was none, and the saving of a checkpoint of which
-- `From` is known.
pub record IsKept (sha256 : List ℕ → String) (run_id partition_id : String)
    (From : Option String → Type 0) (I : World → Type 0) : Type 0 where
  pub forward : IsForward From
  pub loads : (w : World) → I w → From (stored run_id partition_id w.database)
  pub saves :
      (value : String) (now : Timestamp) (w : World)
      → From (some value)
      → I w
      → I (record w { database = (Checkpoints.save run_id partition_id value now w.database).1 })
  pub steady : (w : World) (n : ℕ) → I w → I (record w { left = n })
  pub calls : (call : Call) (w : World) → I w → I (record w { database = perform call w.database })
  pub snapshots :
      (artifact : RawFetchArtifact) (path digest : String) (w : World)
      → artifact.snapshot_path ≡ some path
      → artifact.content_hash ≡ some digest
      → is_saved sha256 path digest w.files ≡ true
      → I w
      → I (record w { database = (Snapshots.record_artifact artifact w.database).1 })
  pub creations :
      (path : String) (bytes : List ℕ) (w : World)
      → content path w.files ≡ none
      → I w
      → I (record w { files = (path, bytes) ∷ w.files })

pub After-both :
    {A : Type 0} (I : World → Type 0) (o : Outcome A) (w : World) → I w → After (λ _. I) I (o, w)
After-both I (returned a) w h = h
After-both I (raised e) w h = h
After-both I killed w h = h

module _ {sha256 : List ℕ → String} {run_id partition_id : String} {From : Option String → Type 0}
    {I : World → Type 0} (kept : IsKept sha256 run_id partition_id From I) where
  pub steady_of : IsSteady I
  steady_of = record { at = kept.steady }

  pub Keeps-call :
      {A : Type 0} (m : Exec A) (call : Call)
      → ((db : Database) → (m db).1 ≡ perform call db)
      → Keeps I (transact m)
  unfolding on_database
  Keeps-call m call same =
      Holds-transact steady_of m (λ w h. h)
        λ w h. After-both I _ _ (
          subst (λ db. I (record w { database = db })) (sym (same w.database))
            (kept.calls call w h))

  pub Keeps-query :
      {A : Type 0} (m : Exec A) → ((db : Database) → (m db).1 ≡ db) → Keeps I (on_database m)
  unfolding on_database
  Keeps-query m same = Holds-on_database m λ w h.
      After-both I _ _ (subst (λ db. I (record w { database = db })) (sym (same w.database)) h)

  pub Keeps-save :
      (value : String) (now : Timestamp)
      → From (some value)
      → Keeps I (transact (Checkpoints.save run_id partition_id value now))
  unfolding on_database
  Keeps-save value now known =
      Holds-transact steady_of _ (λ w h. h) λ w h. After-both I _ _ (kept.saves value now w known h)

-- Where nothing need be known of the checkpoints.
pub always : IsForward (λ _. Unit)
always = record {
  discovered = λ _. tt;
  queued = λ _. tt;
  recorded = λ _. tt;
  parsed = λ _. tt;
  batched = λ _. tt;
}
