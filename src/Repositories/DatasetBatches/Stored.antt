-- ===== src/Repositories/DatasetBatches/Stored.antt =====
-- The stored form of a manifest, which `DatasetBatchRepository` of src/database/repositories.py
-- writes and reads. `fromisoformat` is `datetime.fromisoformat` on the text with `Z` replaced, as
-- `parse_utc_timestamp` calls it, and gives the instant if it is in UTC.
use scraper_project.Base.{String, Option, List, [], ◌∷◌, not}
use scraper_project.Errors.{Result, ok, raise_if, repository_state_error}
use scraper_project.Timestamp.{Datetime, timestamp}
use scraper_project.Timestamp.Iso.{isoformat}
use scraper_project.Contracts.Value.{pos, Value, Fields}
use scraper_project.Contracts.Models.{DatasetBatchManifest}
use scraper_project.Contracts.Checks.{check_manifest}
use scraper_project.Contracts.Payload.{
  parse_utc_timestamp, entry, has_keys, text_of, count_of, tuple_of, counts_of, of_counts, of_texts,
  mapping, ◌>>=◌, ◌>>◌,
}

-- The `payload` of `record`.
abbrev pub payload_of : DatasetBatchManifest → Fields
payload_of m = mapping (
    ("contract_version", Value.str m.contract_version)
    ∷ ("batch_id", Value.str m.batch_id)
    ∷ ("batch_version", Value.str m.batch_version)
    ∷ ("source_name", Value.str m.source_name)
    ∷ ("created_at", Value.str (isoformat (timestamp m.created_at)))
    ∷ ("snapshot_date", Value.str m.snapshot_date)
    ∷ ("record_count", Value.int (pos m.record_count))
    ∷ ("terminal_state_counts", Value.object (of_counts m.terminal_state_counts))
    ∷ ("acquisition_versions", Value.array (of_texts m.acquisition_versions))
    ∷ ("parser_versions", Value.array (of_texts m.parser_versions))
    ∷ ("records_path", Value.str m.records_path)
    ∷ ("records_checksum", Value.str m.records_checksum)
    ∷ ("manifest_checksum", Value.str m.manifest_checksum)
    ∷ ("proxy_bytes_used", Value.int (pos m.proxy_bytes_used))
    ∷ ("known_limitations", Value.array (of_texts m.known_limitations))
    ∷ [])

abbrev pub required_keys : List String
required_keys =
    "contract_version" ∷ "batch_id" ∷ "batch_version" ∷ "source_name" ∷ "created_at"
    ∷ "snapshot_date" ∷ "record_count" ∷ "terminal_state_counts" ∷ "acquisition_versions"
    ∷ "parser_versions" ∷ "records_path" ∷ "records_checksum" ∷ "manifest_checksum"
    ∷ "proxy_bytes_used" ∷ "known_limitations" ∷ []

module _ (fromisoformat : String → Option Datetime) where
  -- What `get` makes of the stored mapping. The instant and the three tuples are read first, then
  -- the record checks its fields.
  unfoldable pub manifest_of : Fields → Result DatasetBatchManifest
  manifest_of payload = do
    raise_if (not (has_keys required_keys payload)) repository_state_error
    created_at ← parse_utc_timestamp fromisoformat (entry "created_at" payload)
    acquisition_versions ← tuple_of (entry "acquisition_versions" payload)
    parser_versions ← tuple_of (entry "parser_versions" payload)
    known_limitations ← tuple_of (entry "known_limitations" payload)
    contract_version ← text_of (entry "contract_version" payload)
    batch_id ← text_of (entry "batch_id" payload)
    batch_version ← text_of (entry "batch_version" payload)
    source_name ← text_of (entry "source_name" payload)
    snapshot_date ← text_of (entry "snapshot_date" payload)
    records_path ← text_of (entry "records_path" payload)
    record_count ← count_of (entry "record_count" payload)
    proxy_bytes_used ← count_of (entry "proxy_bytes_used" payload)
    records_checksum ← text_of (entry "records_checksum" payload)
    manifest_checksum ← text_of (entry "manifest_checksum" payload)
    terminal_state_counts ← counts_of (entry "terminal_state_counts" payload)
    let manifest : DatasetBatchManifest = record {
      contract_version = contract_version;
      batch_id = batch_id;
      batch_version = batch_version;
      source_name = source_name;
      created_at = created_at;
      snapshot_date = snapshot_date;
      record_count = record_count;
      terminal_state_counts = terminal_state_counts;
      acquisition_versions = acquisition_versions;
      parser_versions = parser_versions;
      records_path = records_path;
      records_checksum = records_checksum;
      manifest_checksum = manifest_checksum;
      proxy_bytes_used = proxy_bytes_used;
      known_limitations = known_limitations;
    }
    check_manifest manifest
    ok manifest
