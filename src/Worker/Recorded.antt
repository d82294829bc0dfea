-- ===== src/Worker/Recorded.antt =====
-- A property that every effect keeps, and `_record_snapshot` and `_record_batch` of
-- src/orchestration/synthetic_worker.py.
use scraper_project.Base.{
  ℕ, String, ◌≡◌, refl, ap, ◌∙◌, true, Option, none, some, List, ◌==◌, arith,
}
use scraper_project.Errors.{ok, file_exists_error, synthetic_worker_error}
use scraper_project.Timestamp.{Datetime}
use scraper_project.Contracts.Value.{Value, Fields}
use scraper_project.Contracts.Models.{DatasetBatchManifest, RawFetchArtifact}
use scraper_project.Database.{Database}
use scraper_project.Database.Rows.{SnapshotRow}
use scraper_project.Database.Transaction.{Exec}
use scraper_project.Repositories.Snapshots
use scraper_project.Repositories.DatasetBatches
use scraper_project.Json.{canonical_json_bytes}
use scraper_project.Worker.Actions.{World, on_database, transact, content}
use scraper_project.Worker.Environment.{Platform}
use scraper_project.Worker.Records.{artifact_of, snapshot_path_of, records_path_of}
use scraper_project.Worker.Steps
use scraper_project.Worker.Keeps.{
  Holds-weaken, Holds, Keeps, IsSteady, Holds-pure, Holds-raise, Holds-attempt, Holds-if,
  Holds-bind, Holds-transact, Holds-on_database,
}
use scraper_project.Worker.Calls.{
  IsKept, Call, Keeps-call, Keeps-query, perform, is_saved, has_digest, After-both,
}
use scraper_project.Worker.Files.{Holds-read_file, Holds-create_file, Saved}
use scraper_project.Worker.Kept.{Keeps-pure, Keeps-attempt, Keeps-bind}

artifact_of-file :
    (env : Platform) (artifact_id job_id run_id : String) (fixture : Fields) (path digest : String)
    (current : Datetime) (artifact : RawFetchArtifact)
    → artifact_of env artifact_id job_id run_id fixture path digest current ≡ ok artifact
    → (artifact.snapshot_path ≡ some path) × (artifact.content_hash ≡ some digest)
unfolding artifact_of
artifact_of-file env artifact_id job_id run_id fixture path digest current artifact e =
    ground (arith, e)

Holds-query :
    {A : Type 0} {P R : World → Type 0} (m : Exec (Option A)) (query : Database → Option A)
    → ((db : Database) → m db ≡ (ok (query db), db))
    → Holds P (λ _. P) R (on_database m)
unfolding on_database
Holds-query m query same = Holds-on_database m λ w h. rw (same w.database) h

module _ (env : Platform) {run_id partition_id : String} {From : Option String → Type 0}
    {I : World → Type 0} (kept : IsKept env.sha256 run_id partition_id From I) where
  module _ (path : String) (body : List ℕ) where
    -- The file of the snapshot has the digest of the body.
    abbrev WithFile : World → Type 0
    WithFile = Saved kept path body

    WithFile-IsSteady : IsSteady WithFile
    WithFile-IsSteady = record { at = λ w n h. (kept.steady w n h.0, h.1) }

    same_digest :
        (old : List ℕ) (w : World)
        → (env.sha256 old == env.sha256 body) ≡ true
        → content path w.files ≡ some old
        → is_saved env.sha256 path (env.sha256 body) w.files ≡ true
    same_digest old w same e = ap (λ o. has_digest env.sha256 (env.sha256 body) o) e ∙ same

    keep_or_create-Holds :
        (old : Option (List ℕ))
        → Holds
            (λ w. I w × (content path w.files ≡ old))
            (λ _. WithFile)
            I
            (Steps.keep_or_create env path body old)
    unfolding Steps.keep_or_create
    keep_or_create-Holds none = Holds-create_file kept path body synthetic_worker_error
    keep_or_create-Holds (some old) =
        Holds-if _ _ _ (λ same. Holds-pure tt λ w h. (h.0, same_digest old w same h.1))
          λ _. Holds-raise synthetic_worker_error λ w h. h.0

    record-Holds :
        (artifact : RawFetchArtifact)
        → (artifact.snapshot_path ≡ some path) × (artifact.content_hash ≡ some (env.sha256 body))
        → Holds WithFile (λ _. I) I (transact (Snapshots.record_artifact artifact))
    unfolding on_database
    record-Holds artifact e =
        Holds-transact WithFile-IsSteady _ (λ w h. h.0)
          λ w h. After-both I _ _ (kept.snapshots artifact path (env.sha256 body) w e.0 e.1 h.1 h.0)

    record_if_missing-Holds :
        (artifact_id job_id run_id : String) (fixture : Value) (current : Datetime)
        (row : Option SnapshotRow)
        → Holds WithFile
            (λ _. I)
            I
            (Steps.record_if_missing env artifact_id job_id run_id fixture path
              (env.sha256 body)
              current
              row)
    unfolding Steps.record_if_missing
    record_if_missing-Holds artifact_id job_id run_id fixture current (some row) =
        Holds-pure tt λ w h. h.0
    record_if_missing-Holds artifact_id job_id run_id fixture current none =
        Holds-bind (λ _. WithFile) _ _ (Holds-attempt _ (λ a _ w h. h) λ w h. h.0)
          λ fields.
            let made =
              artifact_of env artifact_id job_id run_id fields path (env.sha256 body) current in
            Holds-bind (λ artifact w. WithFile w × (made ≡ ok artifact)) _ _
              (Holds-attempt made (λ a e w h. (h, e)) λ w h. h.0)
              λ artifact. record {
                at = λ w h.
                    (record-Holds artifact (
                        artifact_of-file env artifact_id job_id run_id fields path (env.sha256 body)
                          current artifact h.1)).at
                      w h.0;
              }

  pub record_snapshot-Keeps :
      (artifact_id job_id run_id : String) (current : Datetime)
      → Keeps I (Steps.record_snapshot env artifact_id job_id run_id current)
  unfolding Steps.record_snapshot Snapshots.get
  record_snapshot-Keeps artifact_id job_id run_id current =
      Keeps-bind _ _ (Keeps-attempt _) λ payload.
        let body = canonical_json_bytes env.float_text (Value.object payload) in
        let path = snapshot_path_of env artifact_id in
        Holds-bind (λ old w. I w × (content path w.files ≡ old)) _ _ (Holds-read_file path)
          λ old.
            Holds-bind (λ _. WithFile path body) _ _ (keep_or_create-Holds path body old)
              λ _.
                Holds-bind (λ _. WithFile path body) _ _ (Holds-attempt _ (λ a _ w h. h) λ w h. h.0)
                  λ fixture.
                    Holds-bind (λ _. WithFile path body) _ _ (Holds-query _ _ λ db. refl)
                      λ row.
                        Holds-bind (λ _. I) _ _
                          (record_if_missing-Holds path body artifact_id job_id run_id fixture
                            current row)
                          λ _. Keeps-pure path

  same_or_create-Holds :
      (path : String) (records : List ℕ) (old : Option (List ℕ))
      → Holds
          (λ w. I w × (content path w.files ≡ old))
          (λ _. I)
          I
          (Steps.same_or_create env path records old)
  unfolding Steps.same_or_create
  same_or_create-Holds path records none =
      Holds-weaken (λ _. Saved kept path records) (λ _ w h. h.0)
        (Holds-create_file kept path records file_exists_error)
  same_or_create-Holds path records (some old) =
      Holds-if _ _ _ (λ _. Holds-pure tt λ w h. h.0)
        λ _. Holds-raise synthetic_worker_error λ w h. h.0

  record_missing_batch-Keeps :
      (batch_id run_id artifact_id : String) (current : Datetime)
      (existing : Option DatasetBatchManifest)
      → Keeps I (Steps.record_missing_batch env batch_id run_id artifact_id current existing)
  unfolding Steps.record_missing_batch perform
  record_missing_batch-Keeps batch_id run_id artifact_id current (some manifest) = Keeps-pure tt
  record_missing_batch-Keeps batch_id run_id artifact_id current none =
      Holds-bind (λ old w. I w × (content (records_path_of env batch_id) w.files ≡ old)) _ _
        (Holds-read_file (records_path_of env batch_id))
        λ old.
          Holds-bind (λ _. I) _ _ (same_or_create-Holds _ _ old)
            λ _.
              Keeps-bind _ _ (Keeps-attempt _)
                λ manifest. Keeps-call kept _ (Call.record_batch _) λ db. refl

  pub record_batch-Keeps :
      (batch_id run_id artifact_id : String) (current : Datetime)
      → Keeps I (Steps.record_batch env batch_id run_id artifact_id current)
  unfolding Steps.record_batch DatasetBatches.get
  record_batch-Keeps batch_id run_id artifact_id current =
      Keeps-bind _ _ (Keeps-query kept _ λ db. refl)
        (record_missing_batch-Keeps batch_id run_id artifact_id current)
