-- ===== src/Contracts/Models.antt =====
-- The records and enumerations of src/contracts/models.py that the runtime stores. A field has the
-- type of its annotation; a number that `__post_init__` requires to be non-negative is a ℕ.
use scraper_project.Base.{ℕ, String, Bool, Option, List, ◌==◌}
use scraper_project.Timestamp.{Datetime}
use scraper_project.Contracts.Value.{Float, Fields}

pub data DetailReasonCode : Type 0 where
  new_listing : DetailReasonCode
  no_detail_snapshot : DetailReasonCode
  price_change_requires_detail : DetailReasonCode
  card_fingerprint_changed : DetailReasonCode
  high_priority_listing : DetailReasonCode
  critical_fields_missing : DetailReasonCode
  stale_detail_refresh : DetailReasonCode
  parser_version_recheck : DetailReasonCode
  missing_listing_verification : DetailReasonCode
  manual_reprocess_request : DetailReasonCode

-- The member's value.
abbrev pub reason_value : DetailReasonCode → String
reason_value new_listing = "NEW_LISTING"
reason_value no_detail_snapshot = "NO_DETAIL_SNAPSHOT"
reason_value price_change_requires_detail = "PRICE_CHANGE_REQUIRES_DETAIL"
reason_value card_fingerprint_changed = "CARD_FINGERPRINT_CHANGED"
reason_value high_priority_listing = "HIGH_PRIORITY_LISTING"
reason_value critical_fields_missing = "CRITICAL_FIELDS_MISSING"
reason_value stale_detail_refresh = "STALE_DETAIL_REFRESH"
reason_value parser_version_recheck = "PARSER_VERSION_RECHECK"
reason_value missing_listing_verification = "MISSING_LISTING_VERIFICATION"
reason_value manual_reprocess_request = "MANUAL_REPROCESS_REQUEST"

-- Members are stored and compared by their values.
abbrev pub same_reason : DetailReasonCode → DetailReasonCode → Bool
same_reason a b = reason_value a == reason_value b

pub data ArtifactStatus : Type 0 where
  success failed not_modified : ArtifactStatus

pub data TelemetryOutcome : Type 0 where
  success failed skipped : TelemetryOutcome

pub data ParseStatus : Type 0 where
  success partial failed : ParseStatus

pub record DetailFetchJob : Type 0 where
  pub contract_version : String
  pub job_id : String
  pub crawl_run_id : String
  pub source_name : String
  pub source_listing_key : String
  pub listing_url : String
  pub reason_code : DetailReasonCode
  pub priority : ℕ
  pub attempt_number : ℕ
  pub max_attempts : ℕ
  pub scheduled_at : Datetime
  pub metadata : Fields

pub record DiscoveryObservation : Type 0 where
  pub contract_version : String
  pub crawl_run_id : String
  pub source_name : String
  pub source_listing_key : String
  pub listing_url : String
  pub observed_at : Datetime
  pub visible_title : Option String
  pub visible_price_text : Option String
  pub visible_currency : Option String
  pub visible_specs : Fields
  pub visible_status : Option String
  pub card_fingerprint : Option String
  pub discovery_partition : String

pub record RawFetchArtifact : Type 0 where
  pub contract_version : String
  pub artifact_id : String
  pub job_id : String
  pub crawl_run_id : String
  pub source_name : String
  pub source_listing_key : String
  pub listing_url : String
  pub fetched_at : Datetime
  pub fetch_method : String
  pub acquisition_version : String
  pub snapshot_path : Option String
  pub content_hash : Option String
  pub response_status : Option ℕ
  pub mime_type : Option String
  pub artifact_status : ArtifactStatus

pub record FetchTelemetry : Type 0 where
  pub contract_version : String
  pub job_id : String
  pub source_name : String
  pub attempt_number : ℕ
  pub started_at : Datetime
  pub finished_at : Datetime
  pub duration_ms : ℕ
  pub bytes_sent : ℕ
  pub bytes_received : ℕ
  pub outcome : TelemetryOutcome
  pub error_class : Option String
  pub proxy_pool_label : String

pub record ParsedListingCandidate : Type 0 where
  pub contract_version : String
  pub candidate_id : String
  pub artifact_id : String
  pub source_name : String
  pub source_listing_key : String
  pub listing_url : String
  pub parsed_at : Datetime
  pub parser_name : String
  pub parser_version : String
  pub parse_status : ParseStatus
  pub raw_fields : Fields
  pub field_evidence : Fields
  pub field_confidence : List (String × Float)
  pub warnings : List String
  pub failure_reasons : List String

pub record DatasetBatchManifest : Type 0 where
  pub contract_version : String
  pub batch_id : String
  pub batch_version : String
  pub source_name : String
  pub created_at : Datetime
  pub snapshot_date : String
  pub record_count : ℕ
  pub terminal_state_counts : List (String × ℕ)
  pub acquisition_versions : List String
  pub parser_versions : List String
  pub records_path : String
  pub records_checksum : String
  pub manifest_checksum : String
  pub proxy_bytes_used : ℕ
  pub known_limitations : List String
