-- ===== src/Worker/Evidence.antt =====
-- The files that src/orchestration/synthetic_worker.py writes: the snapshots and the dataset records,
-- and the rows of `raw_snapshot_manifests` that name a snapshot with its digest.
use scraper_project.Base.{
  ℕ, String, ◌≡◌, refl, ap, sym, subst, Bool, true, Option, none, some, List, [], ◌∷◌, arith, All,
  All-append, All-map, eq_iff,
}
use scraper_project.Timestamp.{Datetime, Timestamp, timestamp}
use scraper_project.Contracts.Value.{ℤ}
use scraper_project.Contracts.Models.{RawFetchArtifact}
use scraper_project.Database.{Database}
use scraper_project.Database.Rows.{SnapshotRow}
use scraper_project.Database.Table.{select_all, append_row}
use scraper_project.Repositories.Sources.{upsert}
use scraper_project.Repositories.Crawls
use scraper_project.Repositories.Observations
use scraper_project.Repositories.Jobs.{create_idempotent, insert_identity}
use scraper_project.Repositories.Checkpoints
use scraper_project.Repositories.Snapshots.{new_snapshot, record_artifact}
use scraper_project.Repositories.ParserRuns
use scraper_project.Repositories.DatasetBatches
use scraper_project.Queue
use scraper_project.Queue.Tables.{recover_rows-tables}
use scraper_project.Worker.{run}
use scraper_project.Worker.Actions.{World, content}
use scraper_project.Worker.Environment.{Platform}
use scraper_project.Worker.Keeps.{Keeps-world}
use scraper_project.Worker.Calls.{Call, perform, IsKept, is_saved, always}
use scraper_project.Worker.Interrupted.{run-Keeps}

other_path :
    (path other : String) (files : List (String × List ℕ)) (bytes added : List ℕ)
    → content other files ≡ none
    → content path files ≡ some bytes
    → content path ((other, added) ∷ files) ≡ some bytes
other_path path other files bytes added absent there = ground (arith, eq_iff other path)

written-IsKept :
    (sha256 : List ℕ → String) (run_id id path : String) (bytes : List ℕ)
    → IsKept sha256 run_id id (λ _. Unit) (λ w. content path w.files ≡ some bytes)
written-IsKept sha256 run_id id path bytes = record {
  forward = always;
  loads = λ w h. tt;
  saves = λ value now w _ h. h;
  steady = λ w n h. h;
  calls = λ call w h. h;
  snapshots = λ artifact p digest w _ _ _ h. h;
  creations = λ other added w absent h. other_path path other w.files bytes added absent h;
}

-- A row that names a file and a digest: the file is there and has the digest.
abbrev pub has_evidence :
    (List ℕ → String) → List (String × List ℕ) → Option String → Option String → Bool
has_evidence sha256 files none digest = true
has_evidence sha256 files (some path) none = true
has_evidence sha256 files (some path) (some digest) = is_saved sha256 path digest files

abbrev pub IsEvident : (List ℕ → String) → World → Type 0
IsEvident sha256 w =
    All
      (λ (row : SnapshotRow). has_evidence sha256 w.files row.snapshot_path row.content_hash ≡ true)
      w.database.raw_snapshot_manifests

perform-snapshots :
    (call : Call) (db : Database)
    → (perform call db).raw_snapshot_manifests ≡ db.raw_snapshot_manifests
unfolding perform upsert Crawls.create_run Crawls.start Crawls.complete Crawls.transition_run
    Crawls.transition_partition Crawls.create_partition Crawls.start_partition
    Crawls.complete_partition Observations.append ParserRuns.start ParserRuns.complete
    ParserRuns.transition DatasetBatches.record_batch Queue.register_owner insert_identity
    create_idempotent Queue.succeed Queue.fail Queue.lease_next Queue.finish Queue.recover_abandoned
perform-snapshots (Call.upsert_source name enabled strategy notes now) db = refl
perform-snapshots (Call.create_run id source kind now) db = ground arith
perform-snapshots (Call.start_run id now) db = ground arith
perform-snapshots (Call.complete_run id now) db = ground arith
perform-snapshots (Call.create_partition id run source key created updated) db = ground arith
perform-snapshots (Call.start_partition id now) db = ground arith
perform-snapshots (Call.complete_partition id now) db = ground arith
perform-snapshots (Call.append_observation o given fresh) db = ground arith
perform-snapshots (Call.start_parser artifact name version fresh now) db = ground arith
perform-snapshots (Call.complete_parser id now) db = ground arith
perform-snapshots (Call.record_batch manifest) db = ground arith
perform-snapshots (Call.register_owner now) db = ground arith
perform-snapshots (Call.create_job job created updated) db = ground arith
perform-snapshots (Call.recover_abandoned current) db =
    ap (λ (d : Database). d.raw_snapshot_manifests)
      (recover_rows-tables current
        (select_all (Queue.is_abandoned (timestamp current)) db.detail_fetch_jobs) db)
perform-snapshots (Call.lease_next worker seconds current fresh) db = ground arith
perform-snapshots (Call.succeed_job job worker current) db = ground arith
perform-snapshots (Call.fail_job job worker error_class current) db = ground arith

save-snapshots :
    (run_id id value : String) (now : Timestamp) (db : Database)
    → (Checkpoints.save run_id id value now db).1.raw_snapshot_manifests ≡ db.raw_snapshot_manifests
unfolding Checkpoints.save
save-snapshots run_id id value now db = ground arith

record_artifact_cases :
    (P : Database → Type 0) (artifact : RawFetchArtifact) (db : Database)
    → P db
    → P (record db {
      raw_snapshot_manifests = append_row (new_snapshot artifact) db.raw_snapshot_manifests;
    })
    → P (record_artifact artifact db).1
unfolding record_artifact
record_artifact_cases P artifact db old new = ground (arith, old, new)

module _ (sha256 : List ℕ → String) where
  more_files :
      (row : SnapshotRow) (files : List (String × List ℕ)) (path : String) (bytes : List ℕ)
      → content path files ≡ none
      → has_evidence sha256 files row.snapshot_path row.content_hash ≡ true
      → has_evidence sha256 ((path, bytes) ∷ files) row.snapshot_path row.content_hash ≡ true
  more_files row files path bytes absent h = evidence row.snapshot_path row.content_hash h
    where
      evidence :
          (p digest : Option String)
          → has_evidence sha256 files p digest ≡ true
          → has_evidence sha256 ((path, bytes) ∷ files) p digest ≡ true
      evidence none digest h = refl
      evidence (some p) none h = refl
      evidence (some p) (some digest) h = ground (arith, absent, eq_iff path p)

  appended :
      (artifact : RawFetchArtifact) (path digest : String) (w : World)
      → artifact.snapshot_path ≡ some path
      → artifact.content_hash ≡ some digest
      → is_saved sha256 path digest w.files ≡ true
      → has_evidence sha256 w.files artifact.snapshot_path artifact.content_hash ≡ true
  appended artifact path digest w ep ed saved = rw ep (rw ed saved)

  IsEvident-IsKept : (run_id id : String) → IsKept sha256 run_id id (λ _. Unit) (IsEvident sha256)
  IsEvident-IsKept run_id id = record {
    forward = always;
    loads = λ w h. tt;
    saves = λ value now w _ h.
        subst
          (All λ (row : SnapshotRow).
            has_evidence sha256 w.files row.snapshot_path row.content_hash ≡ true)
          (sym (save-snapshots run_id id value now w.database)) h;
    steady = λ w n h. h;
    calls = λ call w h.
        subst
          (All λ (row : SnapshotRow).
            has_evidence sha256 w.files row.snapshot_path row.content_hash ≡ true)
          (sym (perform-snapshots call w.database)) h;
    snapshots = λ artifact path digest w ep ed saved h.
        record_artifact_cases (λ db. IsEvident sha256 (record w { database = db })) artifact
          w.database h
          (All-append _ w.database.raw_snapshot_manifests (new_snapshot artifact ∷ []) h
            (appended artifact path digest w ep ed saved, tt));
    creations = λ path bytes w absent h.
        All-map _ _ w.database.raw_snapshot_manifests
          (λ row g. more_files row w.files path bytes absent g) h;
  }

module _ (env : Platform) (run_id : String) (lease_seconds : ℤ) (stop_after : Option String)
    (current : Datetime) (w : World) where
  -- Where every row of `raw_snapshot_manifests` that names a file and a digest has that file with
  -- that digest, this is so after every `run`, whatever the server answers, wherever it is asked
  -- to stop, and before whichever of its effects the process is killed.
  pub run-IsEvident :
      IsEvident env.sha256 w
      → IsEvident env.sha256 (run env run_id lease_seconds stop_after current w).1
  run-IsEvident h =
      Keeps-world _
        (run-Keeps env run_id (IsEvident-IsKept env.sha256 run_id _) lease_seconds stop_after
          current)
        w h

  -- A file that is there keeps its bytes, in every `run`, also one that is killed.
  pub content-run :
      (path : String) (bytes : List ℕ)
      → content path w.files ≡ some bytes
      → content path (run env run_id lease_seconds stop_after current w).1.files ≡ some bytes
  content-run path bytes h =
      Keeps-world _
        (run-Keeps env run_id (written-IsKept env.sha256 run_id _ path bytes) lease_seconds
          stop_after current)
        w h
