-- ===== src/Tests/Data.antt =====
-- A database with one source and one crawl run, and the calls that the tests make on it.
use scraper_project.Base.{ℕ, String, true, none, List, [], ◌∷◌}
use scraper_project.Timestamp.{Timestamp}
use scraper_project.Contracts.Value.{pos, Fields}
use scraper_project.Contracts.Models.{
  DetailReasonCode, DetailFetchJob, DiscoveryObservation, RawFetchArtifact, ArtifactStatus,
}
use scraper_project.Database.{Database, new_database}
use scraper_project.Database.Rows.{RunState, PartitionState}
use scraper_project.Queue.History.{Call}

-- The instant `n` seconds after midnight of the first day.
abbrev pub at : ℕ → Timestamp
at n = record { whole = n; fraction = none }

abbrev pub ready : Database
ready = record new_database {
  source_registry_state =
      record {
        source_name = "fixture";
        enabled = true;
        identity_strategy = "stable_source_key";
        identity_notes = none;
        updated_at = at 1;
      }
      ∷ [];
  crawl_runs =
      record {
        crawl_run_id = "run";
        source_name = "fixture";
        run_kind = "fixture";
        state = RunState.created;
        started_at = none;
        finished_at = none;
        created_at = at 2;
      }
      ∷ [];
  crawl_partitions =
      record {
        partition_id = "page";
        crawl_run_id = "run";
        source_name = "fixture";
        partition_key = "page-1";
        state = PartitionState.pending;
        created_at = at 2;
        updated_at = at 2;
      }
      ∷ [];
}

abbrev pub job_of : String → String → ℕ → ℕ → DetailFetchJob
job_of job_id key priority max_attempts = record {
  contract_version = "0.1";
  job_id = job_id;
  crawl_run_id = "run";
  source_name = "fixture";
  source_listing_key = key;
  listing_url = "https://example.test/listing";
  reason_code = DetailReasonCode.new_listing;
  priority = priority;
  attempt_number = 1;
  max_attempts = max_attempts;
  scheduled_at = 3000000;
  metadata = Fields.end;
}

abbrev pub create_a : Call
create_a = Call.creation (job_of "a" "listing-a" 1 1) (at 3) (at 3)

abbrev pub create_b : Call
create_b = Call.creation (job_of "b" "listing-b" 5 2) (at 4) (at 4)

-- Two jobs; `b` has the higher priority.
abbrev pub two_jobs : List Call
two_jobs = create_a ∷ create_b ∷ []

-- Job `b` is leased, fails, is leased again and abandoned; job `a` is leased and succeeds.
abbrev pub busy_day : List Call
busy_day =
    create_a
    ∷ create_b
    ∷ Call.lease "w1" (pos 60) 10000000 "attempt-1"
    ∷ Call.failure "b" "w1" "timeout" 20000000
    ∷ Call.lease "w2" (pos 60) 30000000 "attempt-2"
    ∷ Call.lease "w1" (pos 60) 40000000 "attempt-3"
    ∷ Call.success "a" "w2" 45000000
    ∷ Call.success "a" "w1" 50000000
    ∷ Call.recovery 200000000
    ∷ []

abbrev pub seen : DiscoveryObservation
seen = record {
  contract_version = "0.1";
  crawl_run_id = "run";
  source_name = "fixture";
  source_listing_key = "listing-a";
  listing_url = "https://example.test/listing";
  observed_at = 5000000;
  visible_title = none;
  visible_price_text = none;
  visible_currency = none;
  visible_specs = Fields.end;
  visible_status = none;
  card_fingerprint = none;
  discovery_partition = "page-1";
}

abbrev pub fetched : RawFetchArtifact
fetched = record {
  contract_version = "0.1";
  artifact_id = "artifact";
  job_id = "a";
  crawl_run_id = "run";
  source_name = "fixture";
  source_listing_key = "listing-a";
  listing_url = "https://example.test/listing";
  fetched_at = 6000000;
  fetch_method = "fixture";
  acquisition_version = "1";
  snapshot_path = none;
  content_hash = none;
  response_status = none;
  mime_type = none;
  artifact_status = ArtifactStatus.failed;
}
