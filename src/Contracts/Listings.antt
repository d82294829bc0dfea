-- ===== src/Contracts/Listings.antt =====
-- The `from_mapping` methods of src/contracts/models.py, up to `__post_init__`: the four
-- contracts of a listing. Each
-- gives the record, and whether every field that no check looks at holds a value of its annotation.
use scraper_project.Base.{ℕ, String, Bool, true, ◌&&◌, Option, List, [], ◌∷◌}
use scraper_project.Errors.{Result, ok}
use scraper_project.Timestamp.{Datetime}
use scraper_project.Contracts.Value.{Fields}
use scraper_project.Contracts.Models.{
  DetailFetchJob, DiscoveryObservation, RawFetchArtifact, ParsedListingCandidate,
}
use scraper_project.Contracts.Validation.{require_contract_version}
use scraper_project.Contracts.Checks.{require_texts, require_source_identity}
use scraper_project.Contracts.Payload.{entry, text_of, count_of, parse_utc_timestamp, ◌>>=◌, ◌>>◌}
use scraper_project.Contracts.Readers.{
  arguments, loose_text, loose_tuple, mapping_of, metadata_of, status_of, parse_reason,
  parse_artifact_status, parse_parse_status, confidence_of,
}

module _ (bad_netloc : List ℕ → Bool) (fromisoformat : String → Option Datetime) where
  -- The checks that come first; a number is looked at after them.
  unfoldable pub leading : String → List String → String → String → String → Result (Unit {0})
  leading contract_version texts source_name source_listing_key listing_url = do
    require_contract_version contract_version
    require_texts texts
    require_source_identity bad_netloc source_name source_listing_key listing_url

  unfoldable pub read_job : Fields → Result (DetailFetchJob × Bool)
  unfolding parse_reason arguments leading metadata_of
  read_job payload = do
    reason_code ← parse_reason (entry "reason_code" payload)
    scheduled_at ← parse_utc_timestamp fromisoformat (entry "scheduled_at" payload)
    arguments
        ("contract_version" ∷ "job_id" ∷ "crawl_run_id" ∷ "source_name" ∷ "source_listing_key"
          ∷ "listing_url" ∷ "priority" ∷ "attempt_number" ∷ "max_attempts" ∷ [])
        ("reason_code" ∷ "scheduled_at" ∷ "metadata" ∷ []) payload
    contract_version ← text_of (entry "contract_version" payload)
    job_id ← text_of (entry "job_id" payload)
    crawl_run_id ← text_of (entry "crawl_run_id" payload)
    source_name ← text_of (entry "source_name" payload)
    source_listing_key ← text_of (entry "source_listing_key" payload)
    listing_url ← text_of (entry "listing_url" payload)
    leading contract_version (job_id ∷ crawl_run_id ∷ []) source_name source_listing_key listing_url
    priority ← count_of (entry "priority" payload)
    attempt_number ← count_of (entry "attempt_number" payload)
    max_attempts ← count_of (entry "max_attempts" payload)
    metadata ← metadata_of (entry "metadata" payload)
    let job : DetailFetchJob = record {
      contract_version = contract_version;
      job_id = job_id;
      crawl_run_id = crawl_run_id;
      source_name = source_name;
      source_listing_key = source_listing_key;
      listing_url = listing_url;
      reason_code = reason_code;
      priority = priority;
      attempt_number = attempt_number;
      max_attempts = max_attempts;
      scheduled_at = scheduled_at;
      metadata = metadata;
    }
    ok (job, true)

  unfoldable pub read_observation : Fields → Result (DiscoveryObservation × Bool)
  unfolding arguments leading mapping_of loose_text
  read_observation payload = do
    observed_at ← parse_utc_timestamp fromisoformat (entry "observed_at" payload)
    arguments
        ("contract_version" ∷ "crawl_run_id" ∷ "source_name" ∷ "source_listing_key" ∷ "listing_url"
          ∷ "visible_title" ∷ "visible_price_text" ∷ "visible_currency" ∷ "visible_specs"
          ∷ "visible_status" ∷ "card_fingerprint" ∷ "discovery_partition" ∷ [])
        ("observed_at" ∷ []) payload
    contract_version ← text_of (entry "contract_version" payload)
    crawl_run_id ← text_of (entry "crawl_run_id" payload)
    source_name ← text_of (entry "source_name" payload)
    source_listing_key ← text_of (entry "source_listing_key" payload)
    listing_url ← text_of (entry "listing_url" payload)
    leading contract_version (crawl_run_id ∷ []) source_name source_listing_key listing_url
    discovery_partition ← text_of (entry "discovery_partition" payload)
    visible_specs ← mapping_of (entry "visible_specs" payload)
    let (visible_title, visible_title_typed) = loose_text (entry "visible_title" payload)
    let (visible_price_text, visible_price_text_typed) =
        loose_text (entry "visible_price_text" payload)
    let (visible_currency, visible_currency_typed) = loose_text (entry "visible_currency" payload)
    let (visible_status, visible_status_typed) = loose_text (entry "visible_status" payload)
    let (card_fingerprint, card_fingerprint_typed) = loose_text (entry "card_fingerprint" payload)
    let observation : DiscoveryObservation = record {
      contract_version = contract_version;
      crawl_run_id = crawl_run_id;
      source_name = source_name;
      source_listing_key = source_listing_key;
      listing_url = listing_url;
      observed_at = observed_at;
      visible_title = visible_title;
      visible_price_text = visible_price_text;
      visible_currency = visible_currency;
      visible_specs = visible_specs;
      visible_status = visible_status;
      card_fingerprint = card_fingerprint;
      discovery_partition = discovery_partition;
    }
    ok (
      observation,
      visible_title_typed && visible_price_text_typed && visible_currency_typed
          && visible_status_typed && card_fingerprint_typed,
    )

  unfoldable pub read_artifact : Fields → Result (RawFetchArtifact × Bool)
  unfolding parse_artifact_status arguments leading status_of loose_text
  read_artifact payload = do
    fetched_at ← parse_utc_timestamp fromisoformat (entry "fetched_at" payload)
    artifact_status ← parse_artifact_status (entry "artifact_status" payload)
    arguments
        ("contract_version" ∷ "artifact_id" ∷ "job_id" ∷ "crawl_run_id" ∷ "source_name"
          ∷ "source_listing_key" ∷ "listing_url" ∷ "fetch_method" ∷ "acquisition_version"
          ∷ "snapshot_path" ∷ "content_hash" ∷ "response_status" ∷ "mime_type" ∷ [])
        ("fetched_at" ∷ "artifact_status" ∷ []) payload
    contract_version ← text_of (entry "contract_version" payload)
    artifact_id ← text_of (entry "artifact_id" payload)
    job_id ← text_of (entry "job_id" payload)
    crawl_run_id ← text_of (entry "crawl_run_id" payload)
    fetch_method ← text_of (entry "fetch_method" payload)
    acquisition_version ← text_of (entry "acquisition_version" payload)
    source_name ← text_of (entry "source_name" payload)
    source_listing_key ← text_of (entry "source_listing_key" payload)
    listing_url ← text_of (entry "listing_url" payload)
    leading contract_version
        (artifact_id ∷ job_id ∷ crawl_run_id ∷ fetch_method ∷ acquisition_version ∷ []) source_name
        source_listing_key listing_url
    response_status ← status_of (entry "response_status" payload)
    let (snapshot_path, snapshot_path_typed) = loose_text (entry "snapshot_path" payload)
    let (content_hash, content_hash_typed) = loose_text (entry "content_hash" payload)
    let (mime_type, mime_type_typed) = loose_text (entry "mime_type" payload)
    let artifact : RawFetchArtifact = record {
      contract_version = contract_version;
      artifact_id = artifact_id;
      job_id = job_id;
      crawl_run_id = crawl_run_id;
      source_name = source_name;
      source_listing_key = source_listing_key;
      listing_url = listing_url;
      fetched_at = fetched_at;
      fetch_method = fetch_method;
      acquisition_version = acquisition_version;
      snapshot_path = snapshot_path;
      content_hash = content_hash;
      response_status = response_status;
      mime_type = mime_type;
      artifact_status = artifact_status;
    }
    ok (artifact, snapshot_path_typed && content_hash_typed && mime_type_typed)

  unfoldable pub read_candidate : Fields → Result (ParsedListingCandidate × Bool)
  unfolding parse_parse_status arguments leading mapping_of confidence_of loose_tuple
  read_candidate payload = do
    parsed_at ← parse_utc_timestamp fromisoformat (entry "parsed_at" payload)
    parse_status ← parse_parse_status (entry "parse_status" payload)
    warnings_read ← loose_tuple (entry "warnings" payload)
    let (warnings, warnings_typed) = warnings_read
    failure_reasons_read ← loose_tuple (entry "failure_reasons" payload)
    let (failure_reasons, failure_reasons_typed) = failure_reasons_read
    arguments
        ("contract_version" ∷ "candidate_id" ∷ "artifact_id" ∷ "source_name" ∷ "source_listing_key"
          ∷ "listing_url" ∷ "parser_name" ∷ "parser_version" ∷ "raw_fields" ∷ "field_evidence"
          ∷ "field_confidence" ∷ [])
        ("parsed_at" ∷ "parse_status" ∷ "warnings" ∷ "failure_reasons" ∷ []) payload
    contract_version ← text_of (entry "contract_version" payload)
    candidate_id ← text_of (entry "candidate_id" payload)
    artifact_id ← text_of (entry "artifact_id" payload)
    parser_name ← text_of (entry "parser_name" payload)
    parser_version ← text_of (entry "parser_version" payload)
    source_name ← text_of (entry "source_name" payload)
    source_listing_key ← text_of (entry "source_listing_key" payload)
    listing_url ← text_of (entry "listing_url" payload)
    leading contract_version (candidate_id ∷ artifact_id ∷ parser_name ∷ parser_version ∷ [])
        source_name source_listing_key listing_url
    raw_fields ← mapping_of (entry "raw_fields" payload)
    field_evidence ← mapping_of (entry "field_evidence" payload)
    confidence ← mapping_of (entry "field_confidence" payload)
    field_confidence ← confidence_of confidence
    let candidate : ParsedListingCandidate = record {
      contract_version = contract_version;
      candidate_id = candidate_id;
      artifact_id = artifact_id;
      source_name = source_name;
      source_listing_key = source_listing_key;
      listing_url = listing_url;
      parsed_at = parsed_at;
      parser_name = parser_name;
      parser_version = parser_version;
      parse_status = parse_status;
      raw_fields = raw_fields;
      field_evidence = field_evidence;
      field_confidence = field_confidence;
      warnings = warnings;
      failure_reasons = failure_reasons;
    }
    ok (candidate, warnings_typed && failure_reasons_typed)
