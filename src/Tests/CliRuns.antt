-- ===== src/Tests/CliRuns.antt =====
-- The commands of the command line on small inputs.
use scraper_project.Errors.{ok}
use scraper_project.Base.{true, ℕ, ◌≡◌, refl, Bool, false, some, List, [], ◌∷◌}
use scraper_project.Contracts.Value.{pos, Value}
use scraper_project.Contracts.Text.{is_space}
use scraper_project.Contracts.Validation.{require_contract_version}
use scraper_project.Contracts.Payload.{mapping, parse_utc_timestamp}
use scraper_project.Contracts.Totals.{read_telemetry}
use scraper_project.Contracts.Checks.{check_telemetry}
use scraper_project.Contracts.Dispatch.{Contract, post_init, validate_contract_payload}
use scraper_project.Contracts.Dispatch.Payloads
use scraper_project.Contracts.Dispatch.RoundTrip.{validate_contract_payload-payload_of}
use scraper_project.Contracts.Models.{FetchTelemetry, TelemetryOutcome}
use scraper_project.Database.{new_database}
use scraper_project.Queue.Valid.{IsValid}
use scraper_project.Cli
use scraper_project.Cli.{contract_validate}
use scraper_project.Cli.Crawl.{Draws, fixture_crawl}
use scraper_project.Cli.Valid.{fixture_crawl-IsValid}
use scraper_project.Worker.Actions.{World}
use scraper_project.Tests.Data.{at}

abbrev any_netloc : List ℕ → Bool
any_netloc netloc = false

abbrev telemetry_payload : Value
telemetry_payload = Value.object (
    mapping (
      ("contract_version", Value.str "0.1")
      ∷ ("job_id", Value.str "job")
      ∷ ("source_name", Value.str "fixture")
      ∷ ("attempt_number", Value.int (pos 1))
      ∷ ("started_at", Value.str "2024-02-28T12:00:00Z")
      ∷ ("finished_at", Value.str "2024-02-28T12:00:00Z")
      ∷ ("duration_ms", Value.int (pos 5))
      ∷ ("bytes_sent", Value.int (pos 7))
      ∷ ("bytes_received", Value.int (pos 9))
      ∷ ("outcome", Value.str "SUCCESS")
      ∷ ("error_class", Value.null)
      ∷ ("proxy_pool_label", Value.str "none")
      ∷ []))

validated_telemetry :
    contract_validate any_netloc
      (λ text. some 30)
      "FetchTelemetry"
      (Cli.Input.loaded telemetry_payload)
    ≡ Cli.Exit.printed "FetchTelemetry"
unfolding contract_validate require_contract_version is_space validate_contract_payload
    read_telemetry parse_utc_timestamp check_telemetry
validated_telemetry = refl

abbrev telemetry : FetchTelemetry
telemetry = record {
  contract_version = "0.1";
  job_id = "job";
  source_name = "fixture";
  attempt_number = 1;
  started_at = 30;
  finished_at = 30;
  duration_ms = 5;
  bytes_sent = 7;
  bytes_received = 9;
  outcome = TelemetryOutcome.failed;
  error_class = some "timeout";
  proxy_pool_label = "none";
}

telemetry_passes : post_init any_netloc (λ text. some 30) (Contract.telemetry telemetry) ≡ ok tt
unfolding check_telemetry require_contract_version is_space
telemetry_passes = refl

validate_contract_payload-payload_of_example :
    validate_contract_payload any_netloc
      (λ text. some 30)
      "FetchTelemetry"
      (Value.object (Payloads.telemetry_payload telemetry))
    ≡ ok (Contract.telemetry telemetry, true)
validate_contract_payload-payload_of_example =
    validate_contract_payload-payload_of any_netloc (λ text. some 30) (Contract.telemetry telemetry)
      telemetry_passes (refl, (refl, tt))

abbrev draws : Draws
draws = record {
  crawl_run_id = "run";
  partition_id = "partition";
  now = 30;
  source_updated = at 1;
  run_created = at 2;
  run_started = at 3;
  partition_created = at 4;
  partition_updated = at 5;
  observation_id = "observation";
  job_id = "job";
  job_created = at 6;
  job_updated = at 7;
  checkpoint_saved = at 8;
}

abbrev started : World
started = record { database = new_database; files = []; left = 7 }

new_database-IsValid : IsValid new_database
new_database-IsValid = record { keyed = tt; consistent = tt; audited = tt; known = tt }

fixture_crawl-IsValid_example : IsValid (fixture_crawl any_netloc draws started).1.database
fixture_crawl-IsValid_example = fixture_crawl-IsValid any_netloc draws started new_database-IsValid
