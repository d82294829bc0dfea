-- ===== src/Contracts/Dispatch/Payloads.antt =====
-- Payloads for the contracts of src/contracts/models.py: an entry for each field under its name,
-- an instant as the text of `_timestamp`, a member of an enumeration as its value. They describe
-- what a producer writes; the program itself only reads payloads.
use scraper_project.Base.{ℕ, String, Option, none, some, List, [], ◌∷◌}
use scraper_project.Timestamp.{Datetime, timestamp}
use scraper_project.Timestamp.Iso.{isoformat}
use scraper_project.Contracts.Value.{pos, Float, Value, Fields}
use scraper_project.Contracts.Models.{
  reason_value, ArtifactStatus, TelemetryOutcome, ParseStatus, DetailFetchJob, DiscoveryObservation,
  RawFetchArtifact, FetchTelemetry, ParsedListingCandidate, DatasetBatchManifest,
}
use scraper_project.Contracts.Payload.{of_counts, of_texts, mapping}
use scraper_project.Contracts.Dispatch.{Contract}

abbrev pub instant : Datetime → Value
instant t = Value.str (isoformat (timestamp t))

abbrev pub nullable : Option String → Value
nullable none = Value.null
nullable (some text) = Value.str text

abbrev pub status_value : Option ℕ → Value
status_value none = Value.null
status_value (some n) = Value.int (pos n)

abbrev pub artifact_text : ArtifactStatus → String
artifact_text ArtifactStatus.success = "SUCCESS"
artifact_text ArtifactStatus.failed = "FAILED"
artifact_text ArtifactStatus.not_modified = "NOT_MODIFIED"

abbrev pub outcome_text : TelemetryOutcome → String
outcome_text TelemetryOutcome.success = "SUCCESS"
outcome_text TelemetryOutcome.failed = "FAILED"
outcome_text TelemetryOutcome.skipped = "SKIPPED"

abbrev pub parse_text : ParseStatus → String
parse_text ParseStatus.success = "SUCCESS"
parse_text ParseStatus.partial = "PARTIAL"
parse_text ParseStatus.failed = "FAILED"

abbrev pub of_confidence : List (String × Float) → Fields
of_confidence [] = Fields.end
of_confidence ((field, confidence) ∷ rest) =
    Fields.field field (Value.float confidence) (of_confidence rest)

abbrev pub job_payload : DetailFetchJob → Fields
job_payload j = mapping (
    ("contract_version", Value.str j.contract_version)
    ∷ ("job_id", Value.str j.job_id)
    ∷ ("crawl_run_id", Value.str j.crawl_run_id)
    ∷ ("source_name", Value.str j.source_name)
    ∷ ("source_listing_key", Value.str j.source_listing_key)
    ∷ ("listing_url", Value.str j.listing_url)
    ∷ ("reason_code", Value.str (reason_value j.reason_code))
    ∷ ("priority", Value.int (pos j.priority))
    ∷ ("attempt_number", Value.int (pos j.attempt_number))
    ∷ ("max_attempts", Value.int (pos j.max_attempts))
    ∷ ("scheduled_at", instant j.scheduled_at)
    ∷ ("metadata", Value.object j.metadata)
    ∷ [])

abbrev pub observation_payload : DiscoveryObservation → Fields
observation_payload o = mapping (
    ("contract_version", Value.str o.contract_version)
    ∷ ("crawl_run_id", Value.str o.crawl_run_id)
    ∷ ("source_name", Value.str o.source_name)
    ∷ ("source_listing_key", Value.str o.source_listing_key)
    ∷ ("listing_url", Value.str o.listing_url)
    ∷ ("observed_at", instant o.observed_at)
    ∷ ("visible_title", nullable o.visible_title)
    ∷ ("visible_price_text", nullable o.visible_price_text)
    ∷ ("visible_currency", nullable o.visible_currency)
    ∷ ("visible_specs", Value.object o.visible_specs)
    ∷ ("visible_status", nullable o.visible_status)
    ∷ ("card_fingerprint", nullable o.card_fingerprint)
    ∷ ("discovery_partition", Value.str o.discovery_partition)
    ∷ [])

abbrev pub artifact_payload : RawFetchArtifact → Fields
artifact_payload a = mapping (
    ("contract_version", Value.str a.contract_version)
    ∷ ("artifact_id", Value.str a.artifact_id)
    ∷ ("job_id", Value.str a.job_id)
    ∷ ("crawl_run_id", Value.str a.crawl_run_id)
    ∷ ("source_name", Value.str a.source_name)
    ∷ ("source_listing_key", Value.str a.source_listing_key)
    ∷ ("listing_url", Value.str a.listing_url)
    ∷ ("fetched_at", instant a.fetched_at)
    ∷ ("fetch_method", Value.str a.fetch_method)
    ∷ ("acquisition_version", Value.str a.acquisition_version)
    ∷ ("snapshot_path", nullable a.snapshot_path)
    ∷ ("content_hash", nullable a.content_hash)
    ∷ ("response_status", status_value a.response_status)
    ∷ ("mime_type", nullable a.mime_type)
    ∷ ("artifact_status", Value.str (artifact_text a.artifact_status))
    ∷ [])

abbrev pub telemetry_payload : FetchTelemetry → Fields
telemetry_payload t = mapping (
    ("contract_version", Value.str t.contract_version)
    ∷ ("job_id", Value.str t.job_id)
    ∷ ("source_name", Value.str t.source_name)
    ∷ ("attempt_number", Value.int (pos t.attempt_number))
    ∷ ("started_at", instant t.started_at)
    ∷ ("finished_at", instant t.finished_at)
    ∷ ("duration_ms", Value.int (pos t.duration_ms))
    ∷ ("bytes_sent", Value.int (pos t.bytes_sent))
    ∷ ("bytes_received", Value.int (pos t.bytes_received))
    ∷ ("outcome", Value.str (outcome_text t.outcome))
    ∷ ("error_class", nullable t.error_class)
    ∷ ("proxy_pool_label", Value.str t.proxy_pool_label)
    ∷ [])

abbrev pub candidate_payload : ParsedListingCandidate → Fields
candidate_payload c = mapping (
    ("contract_version", Value.str c.contract_version)
    ∷ ("candidate_id", Value.str c.candidate_id)
    ∷ ("artifact_id", Value.str c.artifact_id)
    ∷ ("source_name", Value.str c.source_name)
    ∷ ("source_listing_key", Value.str c.source_listing_key)
    ∷ ("listing_url", Value.str c.listing_url)
    ∷ ("parsed_at", instant c.parsed_at)
    ∷ ("parser_name", Value.str c.parser_name)
    ∷ ("parser_version", Value.str c.parser_version)
    ∷ ("parse_status", Value.str (parse_text c.parse_status))
    ∷ ("raw_fields", Value.object c.raw_fields)
    ∷ ("field_evidence", Value.object c.field_evidence)
    ∷ ("field_confidence", Value.object (of_confidence c.field_confidence))
    ∷ ("warnings", Value.array (of_texts c.warnings))
    ∷ ("failure_reasons", Value.array (of_texts c.failure_reasons))
    ∷ [])

abbrev pub manifest_payload : DatasetBatchManifest → Fields
manifest_payload m = mapping (
    ("contract_version", Value.str m.contract_version)
    ∷ ("batch_id", Value.str m.batch_id)
    ∷ ("batch_version", Value.str m.batch_version)
    ∷ ("source_name", Value.str m.source_name)
    ∷ ("created_at", instant m.created_at)
    ∷ ("snapshot_date", Value.str m.snapshot_date)
    ∷ ("record_count", Value.int (pos m.record_count))
    ∷ ("terminal_state_counts", Value.object (of_counts m.terminal_state_counts))
    ∷ ("acquisition_versions", Value.array (of_texts m.acquisition_versions))
    ∷ ("parser_versions", Value.array (of_texts m.parser_versions))
    ∷ ("records_path", Value.str m.records_path)
    ∷ ("records_checksum", Value.str m.records_checksum)
    ∷ ("manifest_checksum", Value.str m.manifest_checksum)
    ∷ ("proxy_bytes_used", Value.int (pos m.proxy_bytes_used))
    ∷ ("known_limitations", Value.array (of_texts m.known_limitations))
    ∷ [])

-- The name under which CONTRACT_TYPES has the class.
abbrev pub name_of : Contract → String
name_of (Contract.job j) = "DetailFetchJob"
name_of (Contract.observation o) = "DiscoveryObservation"
name_of (Contract.artifact a) = "RawFetchArtifact"
name_of (Contract.telemetry t) = "FetchTelemetry"
name_of (Contract.candidate c) = "ParsedListingCandidate"
name_of (Contract.manifest m) = "DatasetBatchManifest"

abbrev pub payload_of : Contract → Fields
payload_of (Contract.job j) = job_payload j
payload_of (Contract.observation o) = observation_payload o
payload_of (Contract.artifact a) = artifact_payload a
payload_of (Contract.telemetry t) = telemetry_payload t
payload_of (Contract.candidate c) = candidate_payload c
payload_of (Contract.manifest m) = manifest_payload m

abbrev pub instants : Contract → List Datetime
instants (Contract.job j) = j.scheduled_at ∷ []
instants (Contract.observation o) = o.observed_at ∷ []
instants (Contract.artifact a) = a.fetched_at ∷ []
instants (Contract.telemetry t) = t.started_at ∷ t.finished_at ∷ []
instants (Contract.candidate c) = c.parsed_at ∷ []
instants (Contract.manifest m) = m.created_at ∷ []
