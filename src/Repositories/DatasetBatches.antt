-- ===== src/Repositories/DatasetBatches.antt =====
-- `DatasetBatchRepository` of src/database/repositories.py. The column manifest_json holds the
-- value that its text stands for: `json.dumps` with `sort_keys` writes every mapping in the order
-- of its keys.
pub mod Stored
pub mod RoundTrip
use scraper_project.Base.{String, Bool, not, Option, none, some}
use scraper_project.Errors.{Result, ok, err}
use scraper_project.Timestamp.{Datetime, timestamp}
use scraper_project.Contracts.Models.{DatasetBatchManifest}
use scraper_project.Json.{sorted_fields}
use scraper_project.Database.{Database}
use scraper_project.Database.Rows.{BatchRow}
use scraper_project.Database.Table.{select_first, exists, append_row}
use scraper_project.Database.Table.Key.{has_key}
use scraper_project.Database.Transaction.{
  Exec, lift, gets, modify, require, write_transaction, read_connection, ◌>>=◌, ◌>>◌,
}
use Stored.{payload_of, manifest_of}

-- WHERE batch_id=?
abbrev pub has_batch_id : String → BatchRow → Bool
has_batch_id = has_key (λ (row : BatchRow). row.batch_id)

-- UNIQUE manifest_checksum
abbrev pub has_manifest_checksum : String → BatchRow → Bool
has_manifest_checksum = has_key (λ (row : BatchRow). row.manifest_checksum)

unfoldable pub new_batch : DatasetBatchManifest → BatchRow
unfolding sorted_fields
new_batch manifest = record {
  batch_id = manifest.batch_id;
  source_name = manifest.source_name;
  batch_version = manifest.batch_version;
  created_at = timestamp manifest.created_at;
  manifest_json = sorted_fields (payload_of manifest);
  manifest_checksum = manifest.manifest_checksum;
}

-- `record`, with the primary key and the UNIQUE constraint
unfoldable pub record_batch : DatasetBatchManifest → Exec (Unit {0})
unfolding write_transaction
record_batch manifest = write_transaction do
  taken ← gets λ db. exists (has_batch_id manifest.batch_id) db.dataset_batch_manifests
  require (not taken)
  repeated ←
      gets
        λ db. exists (has_manifest_checksum manifest.manifest_checksum) db.dataset_batch_manifests
  require (not repeated)
  modify λ db. record db {
    dataset_batch_manifests = append_row (new_batch manifest) db.dataset_batch_manifests;
  }

abbrev some_of : Result DatasetBatchManifest → Result (Option DatasetBatchManifest)
some_of (ok manifest) = ok (some manifest)
some_of (err e) = err e

module _ (fromisoformat : String → Option Datetime) where
  abbrev pub manifest_of_row : Option BatchRow → Result (Option DatasetBatchManifest)
  manifest_of_row none = ok none
  manifest_of_row (some row) = some_of (manifest_of fromisoformat row.manifest_json)

  unfoldable pub get : String → Exec (Option DatasetBatchManifest)
  unfolding read_connection
  get batch_id = do
    row ← read_connection λ db. select_first (has_batch_id batch_id) db.dataset_batch_manifests
    lift (manifest_of_row row)
