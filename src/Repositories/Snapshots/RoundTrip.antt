-- ===== src/Repositories/Snapshots/RoundTrip.antt =====
-- `record` and `get` of `SnapshotRepository` of src/database/repositories.py.
use scraper_project.Base.{
  String, ◌≡◌, ◌↔◌, ◌⊎◌, refl, true, false, some, List, [], ◌∷◌, arith, ◌==◌, eq_iff, if◌then◌else◌,
}
use scraper_project.Errors.{ok, err, integrity_error}
use scraper_project.Timestamp.{timestamp}
use scraper_project.Contracts.Models.{RawFetchArtifact}
use scraper_project.Database.{Database}
use scraper_project.Database.Rows.{JobRow, SnapshotRow}
use scraper_project.Database.Table.{select_first, exists, append_row}
use scraper_project.Database.Table.Key.{has_key}
use scraper_project.Repositories.Crawls.{has_run_id}
use scraper_project.Repositories.Snapshots.{has_artifact_id, new_snapshot, record_artifact, get}

snapshot-append :
    (id : String) (row : SnapshotRow) (rows : List SnapshotRow)
    → exists (has_artifact_id row.artifact_id) rows ≡ false
    → select_first (has_artifact_id id) (append_row row rows)
      ≡ (if row.artifact_id == id then some row else select_first (has_artifact_id id) rows)
snapshot-append id row [] h = refl
snapshot-append id row (x ∷ rows) h =
    ground (arith, snapshot-append id row rows, eq_iff row.artifact_id id)

-- An artifact that has been recorded is read back under its identifier, each of its fields in the
-- column of that name, and every other identifier reads as before.
pub get-record_artifact :
    (artifact : RawFetchArtifact) (db db' : Database)
    → record_artifact artifact db ≡ (ok tt, db')
    → (id : String)
    → (get id db').0 ≡ (
        if artifact.artifact_id == id
        then ok (
            some (record {
              artifact_id = artifact.artifact_id;
              job_id = artifact.job_id;
              crawl_run_id = artifact.crawl_run_id;
              source_name = artifact.source_name;
              source_listing_key = artifact.source_listing_key;
              listing_url = artifact.listing_url;
              fetched_at = timestamp artifact.fetched_at;
              fetch_method = artifact.fetch_method;
              acquisition_version = artifact.acquisition_version;
              snapshot_path = artifact.snapshot_path;
              content_hash = artifact.content_hash;
              response_status = artifact.response_status;
              mime_type = artifact.mime_type;
              artifact_status = artifact.artifact_status;
            }))
        else (get id db).0)
unfolding record_artifact get
get-record_artifact artifact db db' done id =
    ground (arith, done, snapshot-append id (new_snapshot artifact) db.raw_snapshot_manifests)

-- Recording an artifact is refused exactly when its identifier is taken, its job is unknown or its
-- run is unknown, and then it changes nothing.
pub record_artifact-refused :
    (artifact : RawFetchArtifact) (db : Database)
    → (record_artifact artifact db ≡ (err integrity_error, db)) ↔ (
        (exists (has_artifact_id artifact.artifact_id) db.raw_snapshot_manifests ≡ true)
        ⊎ ((exists (has_key (λ (job : JobRow). job.job_id) artifact.job_id) db.detail_fetch_jobs
              ≡ false)
            ⊎ (exists (has_run_id artifact.crawl_run_id) db.crawl_runs ≡ false)))
unfolding record_artifact
record_artifact-refused artifact db = ground arith
