-- ===== src/Contracts/Totals.antt =====
-- The `from_mapping` methods of src/contracts/models.py, up to `__post_init__`: telemetry
-- and batch manifests. Each
-- gives the record, and whether every field that no check looks at holds a value of its annotation.
use scraper_project.Base.{String, Bool, ◌&&◌, Option, [], ◌∷◌}
use scraper_project.Errors.{Result, ok}
use scraper_project.Timestamp.{Datetime}
use scraper_project.Contracts.Value.{Fields}
use scraper_project.Contracts.Models.{FetchTelemetry, DatasetBatchManifest}
use scraper_project.Contracts.Payload.{
  entry, text_of, count_of, counts_of, parse_utc_timestamp, ◌>>=◌, ◌>>◌,
}
use scraper_project.Contracts.Readers.{arguments, loose_text, loose_tuple, parse_outcome}

module _ (fromisoformat : String → Option Datetime) where
  unfoldable pub read_telemetry : Fields → Result (FetchTelemetry × Bool)
  unfolding parse_outcome arguments loose_text
  read_telemetry payload = do
    started_at ← parse_utc_timestamp fromisoformat (entry "started_at" payload)
    finished_at ← parse_utc_timestamp fromisoformat (entry "finished_at" payload)
    outcome ← parse_outcome (entry "outcome" payload)
    arguments
        ("contract_version" ∷ "job_id" ∷ "source_name" ∷ "attempt_number" ∷ "duration_ms"
          ∷ "bytes_sent" ∷ "bytes_received" ∷ "error_class" ∷ "proxy_pool_label" ∷ [])
        ("started_at" ∷ "finished_at" ∷ "outcome" ∷ []) payload
    contract_version ← text_of (entry "contract_version" payload)
    job_id ← text_of (entry "job_id" payload)
    source_name ← text_of (entry "source_name" payload)
    proxy_pool_label ← text_of (entry "proxy_pool_label" payload)
    attempt_number ← count_of (entry "attempt_number" payload)
    duration_ms ← count_of (entry "duration_ms" payload)
    bytes_sent ← count_of (entry "bytes_sent" payload)
    bytes_received ← count_of (entry "bytes_received" payload)
    let (error_class, error_class_typed) = loose_text (entry "error_class" payload)
    let telemetry : FetchTelemetry = record {
      contract_version = contract_version;
      job_id = job_id;
      source_name = source_name;
      attempt_number = attempt_number;
      started_at = started_at;
      finished_at = finished_at;
      duration_ms = duration_ms;
      bytes_sent = bytes_sent;
      bytes_received = bytes_received;
      outcome = outcome;
      error_class = error_class;
      proxy_pool_label = proxy_pool_label;
    }
    ok (telemetry, error_class_typed)

  unfoldable pub read_manifest : Fields → Result (DatasetBatchManifest × Bool)
  unfolding arguments loose_tuple
  read_manifest payload = do
    created_at ← parse_utc_timestamp fromisoformat (entry "created_at" payload)
    acquisition_versions_read ← loose_tuple (entry "acquisition_versions" payload)
    let (acquisition_versions, acquisition_versions_typed) = acquisition_versions_read
    parser_versions_read ← loose_tuple (entry "parser_versions" payload)
    let (parser_versions, parser_versions_typed) = parser_versions_read
    known_limitations_read ← loose_tuple (entry "known_limitations" payload)
    let (known_limitations, known_limitations_typed) = known_limitations_read
    arguments
        ("contract_version" ∷ "batch_id" ∷ "batch_version" ∷ "source_name" ∷ "snapshot_date"
          ∷ "record_count" ∷ "terminal_state_counts" ∷ "records_path" ∷ "records_checksum"
          ∷ "manifest_checksum" ∷ "proxy_bytes_used" ∷ [])
        ("created_at" ∷ "acquisition_versions" ∷ "parser_versions" ∷ "known_limitations" ∷ [])
        payload
    contract_version ← text_of (entry "contract_version" payload)
    batch_id ← text_of (entry "batch_id" payload)
    batch_version ← text_of (entry "batch_version" payload)
    source_name ← text_of (entry "source_name" payload)
    snapshot_date ← text_of (entry "snapshot_date" payload)
    records_path ← text_of (entry "records_path" payload)
    records_checksum ← text_of (entry "records_checksum" payload)
    manifest_checksum ← text_of (entry "manifest_checksum" payload)
    record_count ← count_of (entry "record_count" payload)
    proxy_bytes_used ← count_of (entry "proxy_bytes_used" payload)
    terminal_state_counts ← counts_of (entry "terminal_state_counts" payload)
    let manifest : DatasetBatchManifest = record {
      contract_version = contract_version;
      batch_id = batch_id;
      batch_version = batch_version;
      source_name = source_name;
      created_at = created_at;
      snapshot_date = snapshot_date;
      record_count = record_count;
      terminal_state_counts = terminal_state_counts;
      acquisition_versions = acquisition_versions;
      parser_versions = parser_versions;
      records_path = records_path;
      records_checksum = records_checksum;
      manifest_checksum = manifest_checksum;
      proxy_bytes_used = proxy_bytes_used;
      known_limitations = known_limitations;
    }
    ok (manifest, acquisition_versions_typed && parser_versions_typed && known_limitations_typed)
