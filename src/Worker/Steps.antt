-- ===== src/Worker/Steps.antt =====
-- The private methods of `SyntheticWorker` of src/orchestration/synthetic_worker.py that write:
-- `_ensure_run`, `_discover_and_queue`, `_record_snapshot` and `_record_batch`. The messages that
-- they log are not modelled.
use scraper_project.Base.{
  ℕ, String, Bool, false, Option, none, some, List, ◌==◌, is_some, if◌then◌else◌,
}
use scraper_project.Errors.{
  Result, ok, err, synthetic_worker_error, file_exists_error, value_error, attribute_error,
}
use scraper_project.Timestamp.{Datetime}
use scraper_project.Contracts.Value.{Value, Fields}
use scraper_project.Contracts.Models.{DatasetBatchManifest}
use scraper_project.Contracts.Text.{same_codes}
use scraper_project.Json.{canonical_json_bytes}
use scraper_project.Database.Rows.{PartitionRow, PartitionState, SnapshotRow}
use scraper_project.Repositories.Sources
use scraper_project.Repositories.Crawls
use scraper_project.Repositories.Observations
use scraper_project.Repositories.Jobs
use scraper_project.Repositories.Checkpoints
use scraper_project.Repositories.Snapshots
use scraper_project.Repositories.DatasetBatches
use scraper_project.Worker.Actions.{
  Action, pure, raise, attempt, on_database, transact, read_file, create_file, ◌>>=◌, ◌>>◌,
}
use scraper_project.Worker.Environment.{Platform, Reading, Fresh, Fetch, Decoded}
use scraper_project.Worker.Fixture.{worker_source_name, text, fetch_fixture}
use scraper_project.Worker.Records.{
  partition_key, snapshot_path_of, records_path_of, observation_of, job_of, artifact_of,
  batch_records, manifest_of,
}

abbrev pub is_pending_partition : PartitionRow → Bool
is_pending_partition row = Crawls.in_partition_state PartitionState.pending row.state

module _ (env : Platform) where
  unfoldable pub create_and_start : String → Action (Unit {0})
  create_and_start run_id = do
    transact (
        Crawls.create_run run_id worker_source_name "synthetic_step3a"
          (env.clock Reading.run_created))
    transact (Crawls.start run_id (env.clock Reading.run_started))

  unfoldable pub start_if_pending : String → Option PartitionRow → Action (Unit {0})
  start_if_pending partition_id none = pure tt
  start_if_pending partition_id (some row) =
      if is_pending_partition row
      then transact (Crawls.start_partition partition_id (env.clock Reading.partition_started))
      else pure tt

  unfoldable pub create_if_missing :
      String → String → Option PartitionRow → Action (Option PartitionRow)
  create_if_missing run_id partition_id (some row) = pure (some row)
  create_if_missing run_id partition_id none = do
    transact (
        Crawls.create_partition partition_id run_id worker_source_name partition_key
          (env.clock Reading.partition_created) (env.clock Reading.partition_updated))
    on_database (Crawls.get_partition partition_id)

  -- `_ensure_run`
  unfoldable pub ensure_run : String → String → Action (Unit {0})
  unfolding create_and_start start_if_pending create_if_missing
  ensure_run run_id partition_id = do
    transact (
        Sources.upsert worker_source_name false "stable_source_key"
          (some "Synthetic Step 3A fixture only.") (env.clock Reading.source_updated))
    run ← on_database (Crawls.get_run run_id)
    (if is_some run then pure tt else create_and_start run_id)
    found ← on_database (Crawls.get_partition partition_id)
    partition ← create_if_missing run_id partition_id found
    start_if_pending partition_id partition

  -- `_discover_and_queue`
  unfoldable pub discover_and_queue : String → String → String → Datetime → Action (Unit {0})
  discover_and_queue run_id partition_id job_id current = do
    fixture ← attempt (fetch_fixture env Fetch.discovery)
    listing_key ← attempt (text fixture "source_listing_key")
    listing_url ← attempt (text fixture "listing_url")
    observation ← attempt (observation_of env run_id fixture listing_key listing_url current)
    transact (Observations.append observation none (env.fresh Fresh.observation_id))
    job ← attempt (job_of env run_id job_id listing_key listing_url current)
    transact
        (Jobs.create_idempotent job (env.clock Reading.job_created) (env.clock Reading.job_updated))
    transact (Checkpoints.save run_id partition_id "queued" (env.clock Reading.queued_saved))

  -- The file of the snapshot: an old one must have the same digest.
  unfoldable pub keep_or_create : String → List ℕ → Option (List ℕ) → Action (Unit {0})
  keep_or_create path body (some old) =
      if env.sha256 old == env.sha256 body then pure tt else raise synthetic_worker_error
  keep_or_create path body none = create_file synthetic_worker_error path body

  -- `json.loads(body)`
  unfoldable pub loaded : Decoded → Result Value
  loaded (Decoded.decoded value) = ok value
  loaded _ = err value_error

  -- `payload.get` of what is no mapping
  unfoldable pub fields_of : Value → Result Fields
  fields_of (Value.object fields) = ok fields
  fields_of _ = err attribute_error

  unfoldable pub record_if_missing :
      String
      → String
      → String
      → Value
      → String
      → String
      → Datetime
      → Option SnapshotRow
      → Action (Unit {0})
  unfolding fields_of
  record_if_missing artifact_id job_id run_id fixture path digest current (some row) = pure tt
  record_if_missing artifact_id job_id run_id fixture path digest current none = do
    fields ← attempt (fields_of fixture)
    artifact ← attempt (artifact_of env artifact_id job_id run_id fields path digest current)
    transact (Snapshots.record_artifact artifact)

  -- `_record_snapshot`
  unfoldable pub record_snapshot : String → String → String → Datetime → Action String
  unfolding keep_or_create loaded record_if_missing
  record_snapshot artifact_id job_id run_id current = do
    payload ← attempt (fetch_fixture env Fetch.snapshot)
    let body = canonical_json_bytes env.float_text (Value.object payload)
    let path = snapshot_path_of env artifact_id
    old ← read_file path
    keep_or_create path body old
    fixture ← attempt (loaded (env.decode_json body))
    existing ← on_database (Snapshots.get artifact_id)
    record_if_missing artifact_id job_id run_id fixture path (env.sha256 body) current existing
    pure path

  -- The records of the batch: an old file must have the same bytes.
  unfoldable pub same_or_create : String → List ℕ → Option (List ℕ) → Action (Unit {0})
  same_or_create path records (some old) =
      if same_codes old records then pure tt else raise synthetic_worker_error
  same_or_create path records none = create_file file_exists_error path records

  unfoldable pub record_missing_batch :
      String → String → String → Datetime → Option DatasetBatchManifest → Action (Unit {0})
  unfolding same_or_create
  record_missing_batch batch_id run_id artifact_id current (some manifest) = pure tt
  record_missing_batch batch_id run_id artifact_id current none = do
    let path = records_path_of env batch_id
    let records = batch_records env artifact_id run_id
    old ← read_file path
    same_or_create path records old
    manifest ← attempt (manifest_of env batch_id run_id (env.sha256 records) current)
    transact (DatasetBatches.record_batch manifest)

  -- `_record_batch`
  unfoldable pub record_batch : String → String → String → Datetime → Action (Unit {0})
  unfolding record_missing_batch
  record_batch batch_id run_id artifact_id current = do
    existing ← on_database (DatasetBatches.get env.fromisoformat batch_id)
    record_missing_batch batch_id run_id artifact_id current existing
