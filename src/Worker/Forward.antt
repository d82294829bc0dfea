-- ===== src/Worker/Forward.antt =====
-- The checkpoint of a run of src/orchestration/synthetic_worker.py: docs/runtime-state.md gives
-- its order.
use scraper_project.Base.{
  ℕ, String, ◌≡◌, ◌≤◌, ◌⊎◌, refl, ap, sym, subst, Option, none, some, List, inl, inr, arith, ◌==◌,
  eq_refl, if◌then◌else◌,
}
use scraper_project.Errors.{Error, ok, err, Result-cases}
use scraper_project.Timestamp.{Datetime, Timestamp, timestamp}
use scraper_project.Contracts.Value.{ℤ}
use scraper_project.Contracts.Models.{RawFetchArtifact}
use scraper_project.Database.{Database}
use scraper_project.Database.Rows.{CheckpointRow}
use scraper_project.Database.Table.{select_all, select_first}
use scraper_project.Repositories.Sources.{upsert}
use scraper_project.Repositories.Crawls
use scraper_project.Repositories.Observations
use scraper_project.Repositories.Jobs.{create_idempotent, insert_identity}
use scraper_project.Repositories.Checkpoints
use scraper_project.Repositories.Checkpoints.RoundTrip.{load-save}
use scraper_project.Repositories.Snapshots.{record_artifact}
use scraper_project.Repositories.ParserRuns
use scraper_project.Repositories.DatasetBatches
use scraper_project.Queue
use scraper_project.Queue.Tables.{recover_rows-tables}
use scraper_project.Worker.{run, partition_id_of}
use scraper_project.Worker.Actions.{World}
use scraper_project.Worker.Environment.{Platform}
use scraper_project.Worker.Keeps.{Keeps-world}
use scraper_project.Worker.Calls.{Call, perform, IsKept, IsForward, stored}
use scraper_project.Worker.Interrupted.{run-Keeps}

-- How far a checkpoint is. A text that the worker does not know is past all of its own.
abbrev pub rank_of : String → ℕ
rank_of checkpoint =
    if checkpoint == "queued"
    then 1
    else if checkpoint == "snapshot-recorded"
    then 2
    else if checkpoint == "parser-completed"
    then 3
    else if checkpoint == "batch-recorded"
    then 4
    else if checkpoint == "completed"
    then 5
    else 6

abbrev pub rank : Option String → ℕ
rank none = 0
rank (some checkpoint) = rank_of checkpoint

perform-checkpoints : (call : Call) (db : Database) → (perform call db).checkpoints ≡ db.checkpoints
unfolding perform upsert Crawls.create_run Crawls.start Crawls.complete Crawls.transition_run
    Crawls.transition_partition Crawls.create_partition Crawls.start_partition
    Crawls.complete_partition Observations.append ParserRuns.start ParserRuns.complete
    ParserRuns.transition DatasetBatches.record_batch Queue.register_owner insert_identity
    create_idempotent Queue.succeed Queue.fail Queue.lease_next Queue.finish Queue.recover_abandoned
perform-checkpoints (Call.upsert_source name enabled strategy notes now) db = refl
perform-checkpoints (Call.create_run id source kind now) db = ground arith
perform-checkpoints (Call.start_run id now) db = ground arith
perform-checkpoints (Call.complete_run id now) db = ground arith
perform-checkpoints (Call.create_partition id run source key created updated) db = ground arith
perform-checkpoints (Call.start_partition id now) db = ground arith
perform-checkpoints (Call.complete_partition id now) db = ground arith
perform-checkpoints (Call.append_observation o given fresh) db = ground arith
perform-checkpoints (Call.start_parser artifact name version fresh now) db = ground arith
perform-checkpoints (Call.complete_parser id now) db = ground arith
perform-checkpoints (Call.record_batch manifest) db = ground arith
perform-checkpoints (Call.register_owner now) db = ground arith
perform-checkpoints (Call.create_job job created updated) db = ground arith
perform-checkpoints (Call.recover_abandoned current) db =
    ap (λ (d : Database). d.checkpoints)
      (recover_rows-tables current
        (select_all (Queue.is_abandoned (timestamp current)) db.detail_fetch_jobs) db)
perform-checkpoints (Call.lease_next worker seconds current fresh) db = ground arith
perform-checkpoints (Call.succeed_job job worker current) db = ground arith
perform-checkpoints (Call.fail_job job worker error_class current) db = ground arith

artifact-checkpoints :
    (artifact : RawFetchArtifact) (db : Database)
    → (record_artifact artifact db).1.checkpoints ≡ db.checkpoints
unfolding record_artifact
artifact-checkpoints artifact db = ground arith

module _ (run_id id value : String) (now : Timestamp) (db : Database) where
  abbrev after_save : Database
  after_save = (Checkpoints.save run_id id value now db).1

  stored-saved :
      Checkpoints.save run_id id value now db ≡ (ok tt, after_save)
      → stored run_id id after_save ≡ some value
  unfolding Checkpoints.load
  stored-saved saved = ground (
    arith,
    load-save run_id id value now db after_save saved run_id id,
    eq_refl run_id,
    eq_refl id,
  )

  refused_same : (e : Error) → (Checkpoints.save run_id id value now db).0 ≡ err e → after_save ≡ db
  unfolding Checkpoints.save
  refused_same e h = ground (arith, h)

  -- A save stores its value, or changes nothing.
  pub stored-save : (stored run_id id after_save ≡ some value) ⊎ (after_save ≡ db)
  stored-save = elim (Result-cases (Checkpoints.save run_id id value now db).0) [
    | inl (e, h) ↦ inr (refused_same e h)
    | inr (done, h) ↦ inl (stored-saved (ap (λ r. (r, after_save)) h))
  ]

module _ (run_id id : String) (k : ℕ) where
  abbrev Past : Option String → Type 0
  Past checkpoint = k ≤ rank checkpoint

  abbrev IsPast : World → Type 0
  IsPast w = Past (stored run_id id w.database)

  Past-IsForward : IsForward Past
  Past-IsForward = record {
    discovered = λ h. ground (arith, h);
    queued = λ h. ground (arith, h);
    recorded = λ h. ground (arith, h);
    parsed = λ h. ground (arith, h);
    batched = λ h. ground (arith, h);
  }

  -- `IsPast` reads one table only.
  same-checkpoints :
      (before after : List CheckpointRow)
      → after ≡ before
      → Past (Checkpoints.value_of (select_first (Checkpoints.is_checkpoint run_id id) before))
      → Past (Checkpoints.value_of (select_first (Checkpoints.is_checkpoint run_id id) after))
  same-checkpoints before after e h = rw e h

  save-Past :
      (value : String) (now : Timestamp) (db : Database)
      → Past (some value)
      → Past (stored run_id id db)
      → Past (stored run_id id (Checkpoints.save run_id id value now db).1)
  save-Past value now db known h = elim (stored-save run_id id value now db) [
    | inl e ↦ subst Past (sym e) known
    | inr e ↦ subst (λ d. Past (stored run_id id d)) (sym e) h
  ]

  Past-IsKept : (sha256 : List ℕ → String) → IsKept sha256 run_id id Past IsPast
  Past-IsKept sha256 = record {
    forward = Past-IsForward;
    loads = λ w h. h;
    saves = λ value now w known h. save-Past value now w.database known h;
    steady = λ w n h. h;
    calls = λ call w h.
        same-checkpoints w.database.checkpoints _ (perform-checkpoints call w.database) h;
    snapshots = λ artifact path digest w _ _ _ h.
        same-checkpoints w.database.checkpoints _ (artifact-checkpoints artifact w.database) h;
    creations = λ path bytes w _ h. h;
  }

-- A run never takes its checkpoint back: in the order none, queued, snapshot-recorded,
-- parser-completed, batch-recorded, completed, what is stored after a run is not before what was
-- stored before it, whatever the server answers, wherever it is asked to stop, and before whichever
-- of its effects the process is killed.
pub rank-run :
    (env : Platform) (run_id : String) (lease_seconds : ℤ) (stop_after : Option String)
    (current : Datetime) (w : World)
    → let id = partition_id_of env run_id in
      rank (stored run_id id w.database)
      ≤ rank (stored run_id id (run env run_id lease_seconds stop_after current w).1.database)
rank-run env run_id lease_seconds stop_after current w =
    let id = partition_id_of env run_id in
    let k = rank (stored run_id id w.database) in
    Keeps-world _
      (run-Keeps env run_id (Past-IsKept run_id id k env.sha256) lease_seconds stop_after current) w
      (omega arith)
