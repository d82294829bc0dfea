-- ===== src/Repositories/Snapshots.antt =====
-- `SnapshotRepository` of src/database/repositories.py.
pub mod RoundTrip
use scraper_project.Base.{String, Bool, not, Option}
use scraper_project.Timestamp.{timestamp}
use scraper_project.Contracts.Models.{RawFetchArtifact}
use scraper_project.Database.{Database}
use scraper_project.Database.Rows.{JobRow, SnapshotRow}
use scraper_project.Database.Table.{select_first, exists, append_row}
use scraper_project.Database.Table.Key.{has_key}
use scraper_project.Database.Transaction.{
  Exec, gets, modify, require, write_transaction, read_connection, ◌>>=◌, ◌>>◌,
}
use scraper_project.Repositories.Crawls.{has_run_id}

-- WHERE artifact_id=?
abbrev pub has_artifact_id : String → SnapshotRow → Bool
has_artifact_id = has_key (λ (row : SnapshotRow). row.artifact_id)

abbrev pub new_snapshot : RawFetchArtifact → SnapshotRow
new_snapshot artifact = record {
  artifact_id = artifact.artifact_id;
  job_id = artifact.job_id;
  crawl_run_id = artifact.crawl_run_id;
  source_name = artifact.source_name;
  source_listing_key = artifact.source_listing_key;
  listing_url = artifact.listing_url;
  fetched_at = timestamp artifact.fetched_at;
  fetch_method = artifact.fetch_method;
  acquisition_version = artifact.acquisition_version;
  snapshot_path = artifact.snapshot_path;
  content_hash = artifact.content_hash;
  response_status = artifact.response_status;
  mime_type = artifact.mime_type;
  artifact_status = artifact.artifact_status;
}

-- The primary key and the foreign keys are checked; UNIQUE (job_id, artifact_id) follows from the
-- primary key.
unfoldable pub record_artifact : RawFetchArtifact → Exec (Unit {0})
unfolding write_transaction
record_artifact artifact = write_transaction do
  taken ← gets λ db. exists (has_artifact_id artifact.artifact_id) db.raw_snapshot_manifests
  require (not taken)
  job_known ←
      gets
        λ db. exists (has_key (λ (job : JobRow). job.job_id) artifact.job_id) db.detail_fetch_jobs
  require job_known
  run_known ← gets λ db. exists (has_run_id artifact.crawl_run_id) db.crawl_runs
  require run_known
  modify λ db. record db {
    raw_snapshot_manifests = append_row (new_snapshot artifact) db.raw_snapshot_manifests;
  }

unfoldable pub get : String → Exec (Option SnapshotRow)
unfolding read_connection
get artifact_id =
    read_connection λ db. select_first (has_artifact_id artifact_id) db.raw_snapshot_manifests
