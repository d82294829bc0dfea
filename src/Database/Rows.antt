-- ===== src/Database/Rows.antt =====
-- The rows of src/database/migrations/0001_runtime_schema.sql. A column that may be NULL is an
-- option, a CHECK over a list of words is an enumeration, and a JSON column is held as the value
-- whose text it is.
use scraper_project.Base.{ℕ, String, Bool, Option}
use scraper_project.Timestamp.{Timestamp}
use scraper_project.Contracts.Value.{Fields}
use scraper_project.Contracts.Models.{DetailReasonCode, ArtifactStatus}

pub record SourceRow : Type 0 where
  pub source_name : String
  pub enabled : Bool
  pub identity_strategy : String
  pub identity_notes : Option String
  pub updated_at : Timestamp

pub data RunState : Type 0 where
  created running completed failed : RunState

pub record RunRow : Type 0 where
  pub crawl_run_id : String
  pub source_name : String
  pub run_kind : String
  pub state : RunState
  pub started_at : Option Timestamp
  pub finished_at : Option Timestamp
  pub created_at : Timestamp

pub data PartitionState : Type 0 where
  pending processing completed failed : PartitionState

pub record PartitionRow : Type 0 where
  pub partition_id : String
  pub crawl_run_id : String
  pub source_name : String
  pub partition_key : String
  pub state : PartitionState
  pub created_at : Timestamp
  pub updated_at : Timestamp

pub record IdentityRow : Type 0 where
  pub source_name : String
  pub source_listing_key : String
  pub listing_url : String
  pub first_observed_at : Timestamp
  pub last_observed_at : Timestamp

pub record ObservationRow : Type 0 where
  pub observation_id : String
  pub crawl_run_id : String
  pub source_name : String
  pub source_listing_key : String
  pub listing_url : String
  pub observed_at : Timestamp
  pub visible_title : Option String
  pub visible_price_text : Option String
  pub visible_currency : Option String
  pub visible_specs_json : Fields
  pub visible_status : Option String
  pub card_fingerprint : Option String
  pub discovery_partition : String

pub data JobState : Type 0 where
  pending processing succeeded failed_exhausted : JobState

pub record JobRow : Type 0 where
  pub job_id : String
  pub crawl_run_id : String
  pub source_name : String
  pub source_listing_key : String
  pub listing_url : String
  pub reason_code : DetailReasonCode
  pub priority : ℕ
  pub attempt_count : ℕ
  pub max_attempts : ℕ
  pub state : JobState
  pub scheduled_at : Timestamp
  pub lease_owner : Option String
  pub lease_expires_at : Option Timestamp
  pub metadata_json : Fields
  pub last_error_class : Option String
  pub created_at : Timestamp
  pub updated_at : Timestamp

pub data Outcome : Type 0 where
  succeeded failed_retryable failed_exhausted abandoned : Outcome

pub record AttemptRow : Type 0 where
  pub job_attempt_id : String
  pub job_id : String
  pub attempt_number : ℕ
  pub worker_id : String
  pub started_at : Timestamp
  pub finished_at : Option Timestamp
  pub outcome : Option Outcome
  pub error_class : Option String

pub record CheckpointRow : Type 0 where
  pub crawl_run_id : String
  pub partition_id : String
  pub checkpoint_value : String
  pub updated_at : Timestamp

pub record SnapshotRow : Type 0 where
  pub artifact_id : String
  pub job_id : String
  pub crawl_run_id : String
  pub source_name : String
  pub source_listing_key : String
  pub listing_url : String
  pub fetched_at : Timestamp
  pub fetch_method : String
  pub acquisition_version : String
  pub snapshot_path : Option String
  pub content_hash : Option String
  pub response_status : Option ℕ
  pub mime_type : Option String
  pub artifact_status : ArtifactStatus

pub data ParserRunState : Type 0 where
  running completed failed : ParserRunState

pub record ParserRunRow : Type 0 where
  pub parser_run_id : String
  pub artifact_id : String
  pub parser_name : String
  pub parser_version : String
  pub started_at : Timestamp
  pub finished_at : Option Timestamp
  pub state : ParserRunState
  pub failure_reason : Option String

pub record LedgerRow : Type 0 where
  pub ledger_id : String
  pub crawl_run_id : String
  pub job_id : Option String
  pub source_name : String
  pub proxy_pool_label : String
  pub recorded_at : Timestamp
  pub bytes_sent : ℕ
  pub bytes_received : ℕ

pub record BatchRow : Type 0 where
  pub batch_id : String
  pub source_name : String
  pub batch_version : String
  pub created_at : Timestamp
  pub manifest_json : Fields
  pub manifest_checksum : String

pub record QueueOwnerRow : Type 0 where
  pub owner_name : String
  pub registered_at : Timestamp
