-- ===== src/Worker/Records.antt =====
-- The records that src/orchestration/synthetic_worker.py builds, each with the checks of its
-- constructor, and the paths and bytes of the files that it writes.
use Prim.Native.String.{◌++◌ as ◌<>◌}
use scraper_project.Base.{ℕ, String, some, List, [], ◌∷◌, ◌++◌}
use scraper_project.Errors.{Result, ok}
use scraper_project.Timestamp.{Datetime}
use scraper_project.Timestamp.Iso.{date_isoformat}
use scraper_project.Contracts.Value.{Value, Fields}
use scraper_project.Contracts.Models.{
  DetailReasonCode, DetailFetchJob, DiscoveryObservation, RawFetchArtifact, ArtifactStatus,
  DatasetBatchManifest,
}
use scraper_project.Contracts.Checks.{check_observation, check_job, check_artifact, check_manifest}
use scraper_project.Contracts.Payload.{entry, mapping, ◌>>=◌, ◌>>◌}
use scraper_project.Json.{canonical_json_bytes}
use scraper_project.Runtime.{joined, from_root}
use scraper_project.Worker.Environment.{Platform}
use scraper_project.Worker.Fixture.{worker_source_name, text, optional_text, string_mapping}

abbrev pub contract_version : String
contract_version = "0.1"

abbrev pub partition_key : String
partition_key = "synthetic-page-1"

abbrev acquisition_version : String
acquisition_version = "step3a-synthetic-0.1"

abbrev pub job_for : String → String → String → String → Datetime → DetailFetchJob
job_for run_id job_id listing_key listing_url current = record {
  contract_version = contract_version;
  job_id = job_id;
  crawl_run_id = run_id;
  source_name = worker_source_name;
  source_listing_key = listing_key;
  listing_url = listing_url;
  reason_code = DetailReasonCode.new_listing;
  priority = 0;
  attempt_number = 1;
  max_attempts = 2;
  scheduled_at = current;
  metadata = mapping (("fixture", Value.str "synthetic_step3a") ∷ []);
}

module _ (env : Platform) where
  -- `str(self.paths.snapshots / f"{artifact_id}.json")`
  abbrev pub snapshot_path_of : String → String
  snapshot_path_of artifact_id = joined (from_root env.root).snapshots (artifact_id <> ".json")

  -- `str(self.paths.exports / f"{batch_id}.jsonl")`
  abbrev pub records_path_of : String → String
  records_path_of batch_id = joined (from_root env.root).exports (batch_id <> ".jsonl")

  unfoldable pub observation_of :
      String → Fields → String → String → Datetime → Result DiscoveryObservation
  observation_of run_id fixture listing_key listing_url current = do
    source_name ← text fixture "source_name"
    visible_title ← optional_text fixture "visible_title"
    visible_price_text ← optional_text fixture "visible_price_text"
    visible_currency ← optional_text fixture "visible_currency"
    visible_specs ← string_mapping (entry "visible_specs" fixture)
    visible_status ← optional_text fixture "visible_status"
    card_fingerprint ← optional_text fixture "card_fingerprint"
    let observation : DiscoveryObservation = record {
      contract_version = contract_version;
      crawl_run_id = run_id;
      source_name = source_name;
      source_listing_key = listing_key;
      listing_url = listing_url;
      observed_at = current;
      visible_title = visible_title;
      visible_price_text = visible_price_text;
      visible_currency = visible_currency;
      visible_specs = visible_specs;
      visible_status = visible_status;
      card_fingerprint = card_fingerprint;
      discovery_partition = partition_key;
    }
    check_observation env.bad_netloc observation
    ok observation

  unfoldable pub job_of : String → String → String → String → Datetime → Result DetailFetchJob
  job_of run_id job_id listing_key listing_url current = do
    let job = job_for run_id job_id listing_key listing_url current
    check_job env.bad_netloc job
    ok job

  -- `fixture` is what `json.loads(body)` makes of the bytes of the snapshot.
  unfoldable pub artifact_of :
      String → String → String → Fields → String → String → Datetime → Result RawFetchArtifact
  artifact_of artifact_id job_id run_id fixture snapshot_path digest current = do
    listing_key ← text fixture "source_listing_key"
    listing_url ← text fixture "listing_url"
    let artifact : RawFetchArtifact = record {
      contract_version = contract_version;
      artifact_id = artifact_id;
      job_id = job_id;
      crawl_run_id = run_id;
      source_name = worker_source_name;
      source_listing_key = listing_key;
      listing_url = listing_url;
      fetched_at = current;
      fetch_method = "local_synthetic_fixture";
      acquisition_version = acquisition_version;
      snapshot_path = some snapshot_path;
      content_hash = some digest;
      response_status = some 200;
      mime_type = some "application/json";
      artifact_status = ArtifactStatus.success;
    }
    check_artifact env.bad_netloc artifact
    ok artifact

  -- `_canonical_json_bytes(record) + b"\n"`
  unfoldable pub batch_records : String → String → List ℕ
  batch_records artifact_id run_id =
      canonical_json_bytes env.float_text (
        Value.object (
          mapping (
            ("artifact_id", Value.str artifact_id)
            ∷ ("crawl_run_id", Value.str run_id)
            ∷ ("source_name", Value.str worker_source_name)
            ∷ [])))
      ++ 10 ∷ []

  unfoldable pub manifest_checksum_of : String → String → String → String
  manifest_checksum_of batch_id records_checksum run_id = env.sha256 (
      canonical_json_bytes env.float_text (
        Value.object (
          mapping (
            ("batch_id", Value.str batch_id)
            ∷ ("records_checksum", Value.str records_checksum)
            ∷ ("run_id", Value.str run_id)
            ∷ ("source_name", Value.str worker_source_name)
            ∷ []))))

  unfoldable pub manifest_of : String → String → String → Datetime → Result DatasetBatchManifest
  unfolding manifest_checksum_of
  manifest_of batch_id run_id records_checksum current = do
    let manifest : DatasetBatchManifest = record {
      contract_version = contract_version;
      batch_id = batch_id;
      batch_version = acquisition_version;
      source_name = worker_source_name;
      created_at = current;
      snapshot_date = date_isoformat current;
      record_count = 1;
      terminal_state_counts = ("detail_success", 1) ∷ [];
      acquisition_versions = acquisition_version ∷ [];
      parser_versions = "synthetic_placeholder-0.1" ∷ [];
      records_path = records_path_of batch_id;
      records_checksum = records_checksum;
      manifest_checksum = manifest_checksum_of batch_id records_checksum run_id;
      proxy_bytes_used = 0;
      known_limitations = "synthetic local fixture only" ∷ "no live acquisition" ∷ [];
    }
    check_manifest manifest
    ok manifest
