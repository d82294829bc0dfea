-- ===== src/Cli/Crawl.antt =====
-- `_runtime_fixture_crawl` of src/cli/main.py, and the queue after it.
use scraper_project.Base.{String, false, none, some, List, ℕ, Bool, [], ◌∷◌}
use scraper_project.Timestamp.{Datetime, Timestamp}
use scraper_project.Contracts.Value.{Value, Fields}
use scraper_project.Contracts.Models.{DetailReasonCode, DetailFetchJob, DiscoveryObservation}
use scraper_project.Contracts.Checks.{check_observation, check_job}
use scraper_project.Contracts.Payload.{mapping}
use scraper_project.Worker.Actions.{Action, pure, attempt, transact, ◌>>=◌, ◌>>◌}
use scraper_project.Repositories.Sources
use scraper_project.Repositories.Crawls
use scraper_project.Repositories.Observations
use scraper_project.Repositories.Jobs
use scraper_project.Repositories.Checkpoints

abbrev source_name : String
source_name = "fixture_source"

abbrev listing_key : String
listing_key = "fixture-listing-001"

abbrev listing_url : String
listing_url = "https://example.invalid/fixture-listing-001"

-- What the command takes from the clock and from `uuid4()`, in the order of the source.
pub record Draws : Type 0 where
  pub crawl_run_id : String
  pub partition_id : String
  pub now : Datetime
  pub source_updated : Timestamp
  pub run_created : Timestamp
  pub run_started : Timestamp
  pub partition_created : Timestamp
  pub partition_updated : Timestamp
  pub observation_id : String
  pub job_id : String
  pub job_created : Timestamp
  pub job_updated : Timestamp
  pub checkpoint_saved : Timestamp

abbrev pub crawl_observation : Draws → DiscoveryObservation
crawl_observation draws = record {
  contract_version = "0.1";
  crawl_run_id = draws.crawl_run_id;
  source_name = source_name;
  source_listing_key = listing_key;
  listing_url = listing_url;
  observed_at = draws.now;
  visible_title = some "Synthetic fixture boat";
  visible_price_text = none;
  visible_currency = none;
  visible_specs = Fields.end;
  visible_status = some "observed";
  card_fingerprint = some "fixture-card-v1";
  discovery_partition = "fixture-page-1";
}

abbrev pub crawl_job : Draws → DetailFetchJob
crawl_job draws = record {
  contract_version = "0.1";
  job_id = draws.job_id;
  crawl_run_id = draws.crawl_run_id;
  source_name = source_name;
  source_listing_key = listing_key;
  listing_url = listing_url;
  reason_code = DetailReasonCode.new_listing;
  priority = 0;
  attempt_number = 1;
  max_attempts = 3;
  scheduled_at = draws.now;
  metadata = mapping (("fixture", Value.str "synthetic") ∷ []);
}

module _ (bad_netloc : List ℕ → Bool) where
  -- The run, the partition and the job that it prints. Each call is a transaction of its own.
  unfoldable pub fixture_crawl : Draws → Action (String × String × String)
  fixture_crawl draws = do
    transact (
        Sources.upsert source_name false "stable_source_key" (some "Synthetic local fixture only.")
          draws.source_updated)
    transact (Crawls.create_run draws.crawl_run_id source_name "fixture" draws.run_created)
    transact (Crawls.start draws.crawl_run_id draws.run_started)
    transact (
        Crawls.create_partition draws.partition_id draws.crawl_run_id source_name "fixture-page-1"
          draws.partition_created draws.partition_updated)
    attempt (check_observation bad_netloc (crawl_observation draws))
    transact (Observations.append (crawl_observation draws) none draws.observation_id)
    attempt (check_job bad_netloc (crawl_job draws))
    job_id ← transact (Jobs.create_idempotent (crawl_job draws) draws.job_created draws.job_updated)
    transact (
        Checkpoints.save draws.crawl_run_id draws.partition_id "fixture-page-1"
          draws.checkpoint_saved)
    pure (draws.crawl_run_id, draws.partition_id, job_id)
