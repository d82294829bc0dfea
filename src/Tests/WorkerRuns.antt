-- ===== src/Tests/WorkerRuns.antt =====
-- Runs of the synthetic worker against a fixture server that answers, and the theorems on it.
use scraper_project.Base.{List, ℕ, ◌≤◌, String, ◌≡◌, refl, inl, false, none, some, [], ◌∷◌, arith}
use scraper_project.Errors.{ok, runtime_safety_error}
use scraper_project.Timestamp.{Datetime, timestamp}
use scraper_project.Contracts.Value.{pos, Value}
use scraper_project.Contracts.Text.{codes}
use scraper_project.Database.{Database, new_database}
use scraper_project.FixtureServer.{synthetic_listing, do_get}
use scraper_project.Worker
use scraper_project.Worker.Actions
use scraper_project.Worker.Steps
use scraper_project.Worker.Records
use scraper_project.Runtime.{require_free_space}
use scraper_project.Queue
use scraper_project.Repositories.Sources.{upsert}
use scraper_project.Repositories.Crawls
use scraper_project.Repositories.Observations
use scraper_project.Repositories.Jobs
use scraper_project.Repositories.Checkpoints
use scraper_project.Repositories.Snapshots
use scraper_project.Repositories.ParserRuns
use scraper_project.Repositories.DatasetBatches.Stored
use scraper_project.Contracts.Validation
use scraper_project.Contracts.Validation.{require_text}
use scraper_project.Contracts.Text
use scraper_project.Contracts.Checks
use scraper_project.Timestamp.Iso.{date_isoformat}
use scraper_project.Worker.Actions.{World, returned, raised, content}
use scraper_project.Worker.Environment.{
  answered, decoded, Platform, Fresh, Fetch, Response, Decoded,
}
use scraper_project.Worker.Keeps.{After}
use scraper_project.Worker.Calls.{stored}
use scraper_project.Worker.Fixture.{
  fetch_fixture, text, optional_text, string_mapping, hostname, is_local_fixture_host,
}
use scraper_project.Worker.Queueing.{worker_run-IsValid}
use scraper_project.Worker.Evidence.{IsEvident, run-IsEvident, content-run}
use scraper_project.Worker.Forward.{rank, rank-run}
use scraper_project.Worker.Waiting.Forever.{Stuck, Returns, run-waits}
use scraper_project.Worker.Refused.{run-full}
use scraper_project.Worker.Served.{IsLocal, fetch_fixture-IsLocal}
use scraper_project.Contracts.Payload.{entry}
use scraper_project.Contracts.Models.{DatasetBatchManifest}
use scraper_project.Contracts.Checks.{
  check_manifest, check_observation, check_job, check_artifact, require_texts,
}
use scraper_project.Contracts.Url.{urlparse}
use scraper_project.Queue.Valid.{IsValid}
use scraper_project.Repositories.DatasetBatches.{record_batch, get}
use scraper_project.Repositories.DatasetBatches.RoundTrip.{with_sorted_counts, get-record_batch}
use scraper_project.Tests.Data.{at}

abbrev fresh_text : Fresh → String
fresh_text Fresh.observation_id = "observation-1"
fresh_text Fresh.attempt_id = "attempt-1"
fresh_text Fresh.parser_run_id = "parser-run-1"

abbrev noon : Datetime
noon = 63844718400000000

abbrev digest : String
digest = "0123456789abcdef0123456789abcdef0123456789abcdef0123456789abcdef"

abbrev platform : Platform
platform = record {
  root = "/data";
  fixture_url = "http://127.0.0.1:8080/listing.json";
  minimum_free_bytes = pos 1;
  free_bytes = 1000;
  shutdown_requested = false;
  clock = λ _. at 63844718400;
  fresh = fresh_text;
  response = λ _. Response.answered 200 (codes "listing");
  decode_json = λ _. Decoded.decoded (Value.object synthetic_listing);
  sha256 = λ _. digest;
  uuid5 = λ name. name;
  float_text = λ _. codes "0.0";
  bad_netloc = λ _. false;
  fromisoformat = λ _. some noon;
}

abbrev started : ℕ → World
started left = record { database = new_database; files = []; left = left }

-- 26 effects are what the first run has.
complete_run :
    (Worker.run platform "run" (pos 30) none noon (started 26)).0
    ≡ returned (record {
      run_id = "run";
      state = "completed";
      checkpoint = "completed";
      recovered_abandoned = 0;
      exhausted_abandoned = 0;
      snapshot_path = some "/data/snapshots/run:artifact.json";
      batch_id = some "run:batch";
    })
unfolding Worker.run Worker.resume Worker.discovery_stage Worker.queued_stage Worker.snapshot_stage
    Worker.parser_stage Worker.batch_stage Worker.continue_with Worker.at_checkpoint Actions.◌>>=◌
    Actions.pure Actions.raise Actions.attempt Actions.transact Actions.spend Actions.spend_one
    Actions.on_database Actions.read_file Actions.set_files Actions.create_file require_free_space
    Queue.register_owner Queue.recover_abandoned Queue.lease_next Queue.next_job Queue.is_eligible
    Queue.precedes Queue.is_abandoned Queue.succeed Queue.fail Queue.finish Queue.finish_state
    Steps.ensure_run Steps.discover_and_queue Steps.record_snapshot Steps.record_batch upsert
    Crawls.get_run Crawls.create_run Crawls.start Crawls.complete Crawls.transition_run
    Crawls.get_partition Crawls.create_partition Crawls.start_partition Crawls.complete_partition
    Crawls.transition_partition Observations.append Jobs.create_idempotent Jobs.insert_identity
    Checkpoints.save Checkpoints.load Snapshots.get Snapshots.record_artifact ParserRuns.start
    ParserRuns.complete ParserRuns.transition record_batch get Stored.manifest_of fetch_fixture text
    optional_text string_mapping Records.observation_of Records.job_of Records.artifact_of
    Records.batch_records Records.manifest_of check_observation check_job check_artifact
    check_manifest require_texts require_text urlparse hostname is_local_fixture_host timestamp
    Validation.require_contract_version Text.is_space Checks.require_source_identity
    Validation.require_http_url Validation.reject_fields Validation.is_sensitive
    Validation.require_sha256 date_isoformat
complete_run = refl

-- Killed after the sixteenth effect, and run again: the snapshot is there, and the run is completed.
abbrev resumed : World
resumed = record (Worker.run platform "run" (pos 30) none noon (started 16)).1 { left = 26 }

resumed-run :
    stored "run" "run:partition" (Worker.run platform "run" (pos 30) none noon resumed).1.database
    ≡ some "completed"
unfolding Worker.run Worker.resume Worker.discovery_stage Worker.queued_stage Worker.snapshot_stage
    Worker.parser_stage Worker.batch_stage Worker.continue_with Worker.at_checkpoint Actions.◌>>=◌
    Actions.pure Actions.raise Actions.attempt Actions.transact Actions.spend Actions.spend_one
    Actions.on_database Actions.read_file Actions.set_files Actions.create_file require_free_space
    Queue.register_owner Queue.recover_abandoned Queue.lease_next Queue.next_job Queue.is_eligible
    Queue.precedes Queue.is_abandoned Queue.succeed Queue.fail Queue.finish Queue.finish_state
    Steps.ensure_run Steps.discover_and_queue Steps.record_snapshot Steps.record_batch upsert
    Crawls.get_run Crawls.create_run Crawls.start Crawls.complete Crawls.transition_run
    Crawls.get_partition Crawls.create_partition Crawls.start_partition Crawls.complete_partition
    Crawls.transition_partition Observations.append Jobs.create_idempotent Jobs.insert_identity
    Checkpoints.save Checkpoints.load Snapshots.get Snapshots.record_artifact ParserRuns.start
    ParserRuns.complete ParserRuns.transition record_batch get Stored.manifest_of fetch_fixture text
    optional_text string_mapping Records.observation_of Records.job_of Records.artifact_of
    Records.batch_records Records.manifest_of check_observation check_job check_artifact
    check_manifest require_texts require_text urlparse hostname is_local_fixture_host timestamp
    Validation.require_contract_version Text.is_space Checks.require_source_identity
    Validation.require_http_url Validation.reject_fields Validation.is_sensitive
    Validation.require_sha256 date_isoformat
resumed-run = refl

-- Killed between `queue.succeed` and the save of the checkpoint.
abbrev stuck : World
stuck = record (Worker.run platform "run" (pos 30) none noon (started 15)).1 { left = 26 }

stuck-run :
    (Worker.run platform "run" (pos 30) none noon stuck).0
    ≡ returned (record {
      run_id = "run";
      state = "waiting_for_lease";
      checkpoint = "queued";
      recovered_abandoned = 0;
      exhausted_abandoned = 0;
      snapshot_path = none;
      batch_id = none;
    })
unfolding Worker.run Worker.resume Worker.discovery_stage Worker.queued_stage Worker.snapshot_stage
    Worker.parser_stage Worker.batch_stage Worker.continue_with Worker.at_checkpoint Actions.◌>>=◌
    Actions.pure Actions.raise Actions.attempt Actions.transact Actions.spend Actions.spend_one
    Actions.on_database Actions.read_file Actions.set_files Actions.create_file require_free_space
    Queue.register_owner Queue.recover_abandoned Queue.lease_next Queue.next_job Queue.is_eligible
    Queue.precedes Queue.is_abandoned Queue.succeed Queue.fail Queue.finish Queue.finish_state
    Steps.ensure_run Steps.discover_and_queue Steps.record_snapshot Steps.record_batch upsert
    Crawls.get_run Crawls.create_run Crawls.start Crawls.complete Crawls.transition_run
    Crawls.get_partition Crawls.create_partition Crawls.start_partition Crawls.complete_partition
    Crawls.transition_partition Observations.append Jobs.create_idempotent Jobs.insert_identity
    Checkpoints.save Checkpoints.load Snapshots.get Snapshots.record_artifact ParserRuns.start
    ParserRuns.complete ParserRuns.transition record_batch get Stored.manifest_of fetch_fixture text
    optional_text string_mapping Records.observation_of Records.job_of Records.artifact_of
    Records.batch_records Records.manifest_of check_observation check_job check_artifact
    check_manifest require_texts require_text urlparse hostname is_local_fixture_host timestamp
    Validation.require_contract_version Text.is_space Checks.require_source_identity
    Validation.require_http_url Validation.reject_fields Validation.is_sensitive
    Validation.require_sha256 date_isoformat
stuck-run = refl

stuck-Stuck : Stuck platform "run" (pos 30) none noon stuck
unfolding Worker.run Worker.resume Worker.discovery_stage Worker.queued_stage Worker.snapshot_stage
    Worker.parser_stage Worker.batch_stage Worker.continue_with Worker.at_checkpoint Actions.◌>>=◌
    Actions.pure Actions.raise Actions.attempt Actions.transact Actions.spend Actions.spend_one
    Actions.on_database Actions.read_file Actions.set_files Actions.create_file require_free_space
    Queue.register_owner Queue.recover_abandoned Queue.lease_next Queue.next_job Queue.is_eligible
    Queue.precedes Queue.is_abandoned Queue.succeed Queue.fail Queue.finish Queue.finish_state
    Steps.ensure_run Steps.discover_and_queue Steps.record_snapshot Steps.record_batch upsert
    Crawls.get_run Crawls.create_run Crawls.start Crawls.complete Crawls.transition_run
    Crawls.get_partition Crawls.create_partition Crawls.start_partition Crawls.complete_partition
    Crawls.transition_partition Observations.append Jobs.create_idempotent Jobs.insert_identity
    Checkpoints.save Checkpoints.load Snapshots.get Snapshots.record_artifact ParserRuns.start
    ParserRuns.complete ParserRuns.transition record_batch get Stored.manifest_of fetch_fixture text
    optional_text string_mapping Records.observation_of Records.job_of Records.artifact_of
    Records.batch_records Records.manifest_of check_observation check_job check_artifact
    check_manifest require_texts require_text urlparse hostname is_local_fixture_host timestamp
    Validation.require_contract_version Text.is_space Checks.require_source_identity
    Validation.require_http_url Validation.reject_fields Validation.is_sensitive
    Validation.require_sha256 date_isoformat
stuck-Stuck = (refl, (inl refl, tt))

run-waits_example :
    After
      (Returns platform "run" (pos 30) none noon)
      (Stuck platform "run" (pos 30) none noon)
      (Worker.run platform "run" (pos 30) none noon stuck)
run-waits_example = run-waits platform "run" (pos 30) none noon stuck stuck-Stuck

new_database-IsValid : IsValid new_database
new_database-IsValid = record { keyed = tt; consistent = tt; audited = tt; known = tt }

worker_run-IsValid_example :
    IsValid (Worker.run platform "run" (pos 30) none noon (started 14)).1.database
worker_run-IsValid_example =
    worker_run-IsValid platform "run" (pos 30) none noon (started 14) new_database-IsValid

run-IsEvident_example :
    IsEvident platform.sha256 (Worker.run platform "run" (pos 30) none noon (started 16)).1
run-IsEvident_example = run-IsEvident platform "run" (pos 30) none noon (started 16) tt

abbrev with_file : World
with_file = record (started 20) { files = ("/data/exports/old.jsonl", codes "old") ∷ [] }

content-run_example :
    content "/data/exports/old.jsonl"
      (Worker.run platform "run" (pos 30) none noon with_file).1.files
    ≡ some (codes "old")
content-run_example =
    content-run platform "run" (pos 30) none noon with_file "/data/exports/old.jsonl" (codes "old")
      refl

rank-run_example :
    rank (stored "run" "run:partition" resumed.database)
    ≤ rank (
        stored "run" "run:partition"
          (Worker.run platform "run" (pos 30) none noon resumed).1.database)
rank-run_example = rank-run platform "run" (pos 30) none noon resumed

abbrev full : Platform
full = record platform { minimum_free_bytes = pos 2000 }

run-full_example :
    Worker.run full "run" (pos 30) (some "lease") noon (started 26)
    ≡ (raised runtime_safety_error, started 26)
run-full_example =
    run-full full "run" (pos 30) (some "lease") noon (started 26) 2000 refl refl (omega arith)

fetched_listing : fetch_fixture platform Fetch.snapshot ≡ ok synthetic_listing
unfolding fetch_fixture do_get urlparse hostname is_local_fixture_host text
fetched_listing = refl

fetch_fixture-IsLocal_example :
    IsLocal platform
    × ((body : List ℕ) × (platform.response Fetch.snapshot ≡ answered 200 body)
        × (platform.decode_json body ≡ decoded (Value.object synthetic_listing)))
    × (entry "source_name" synthetic_listing ≡ some (Value.str "synthetic_fixture"))
fetch_fixture-IsLocal_example =
    fetch_fixture-IsLocal platform Fetch.snapshot synthetic_listing fetched_listing

abbrev manifest : DatasetBatchManifest
manifest = record {
  contract_version = "0.1";
  batch_id = "batch";
  batch_version = "1";
  source_name = "synthetic_fixture";
  created_at = noon;
  snapshot_date = "2024-02-28";
  record_count = 3;
  terminal_state_counts = ("manual_review", 1) ∷ ("detail_success", 2) ∷ [];
  acquisition_versions = "a" ∷ [];
  parser_versions = [];
  records_path = "/data/exports/batch.jsonl";
  records_checksum = digest;
  manifest_checksum = digest;
  proxy_bytes_used = 0;
  known_limitations = "none" ∷ "some" ∷ [];
}

abbrev recorded : Database
recorded = (record_batch manifest new_database).1

get-record_batch_example :
    (get (λ _. some noon) "batch" recorded).0 ≡ ok (some (with_sorted_counts manifest))
unfolding check_manifest record_batch Validation.require_contract_version Text.is_space
    require_texts Validation.require_sha256
get-record_batch_example =
    get-record_batch (λ _. some noon) manifest new_database recorded refl refl refl
