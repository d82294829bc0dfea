-- ===== src/Worker.antt =====
-- `SyntheticWorker` of src/orchestration/synthetic_worker.py.
pub mod Actions
pub mod Environment
pub mod Fixture
pub mod Records
pub mod Steps
pub mod Keeps
pub mod Calls
pub mod Files
pub mod Kept
pub mod Recorded
pub mod Interrupted
pub mod Queueing
pub mod Evidence
pub mod Forward
pub mod Budget
pub mod Enough
pub mod Waiting
pub mod Refused
pub mod Served
use Prim.Native.String.{◌++◌ as ◌<>◌}
use scraper_project.Base.{
  ℕ, String, Bool, true, false, not, ◌||◌, Option, none, some, List, [], ◌∷◌, ◌==◌, if◌then◌else◌,
}
use scraper_project.Errors.{raise_if, value_error}
use scraper_project.Timestamp.{Datetime}
use scraper_project.Contracts.Value.{ℤ, pos, Value, Fields}
use scraper_project.Contracts.Payload.{mapping}
use scraper_project.Runtime.{joined, from_root, require_free_space}
use scraper_project.Database.Rows.{RunRow, RunState}
use scraper_project.Repositories.Crawls
use scraper_project.Repositories.Checkpoints
use scraper_project.Repositories.ParserRuns
use scraper_project.Queue
use scraper_project.Queue.{JobLease, Recovery}
use Actions.{Action, pure, attempt, on_database, transact, ◌>>=◌, ◌>>◌}
use Environment.{Platform, Reading, Fresh}
use Steps.{ensure_run, discover_and_queue, record_snapshot, record_batch}

pub record SyntheticWorkerResult : Type 0 where
  pub run_id : String
  pub state : String
  pub checkpoint : String
  pub recovered_abandoned : ℕ
  pub exhausted_abandoned : ℕ
  pub snapshot_path : Option String
  pub batch_id : Option String

-- How far `run` has come: it has returned, or goes on with a checkpoint.
pub data Progress : Type 0 where
  ended : SyntheticWorkerResult → Progress
  reached : String → Progress

abbrev pub worker_id : String
worker_id = "synthetic-worker"

abbrev pub stops : Option String → String → Bool
stops none point = false
stops (some stop_after) point = stop_after == point

abbrev pub is_stop_point : Option String → Bool
is_stop_point none = true
is_stop_point (some stop_after) =
    stop_after == "discovery"
    || stop_after == "lease"
    || stop_after == "graceful_shutdown"
    || stop_after == "snapshot"

abbrev pub is_running : Option RunRow → Bool
is_running none = false
is_running (some row) = Crawls.in_run_state RunState.running row.state

-- `_result`
abbrev pub result_of :
    String → String → String → Recovery → Option String → Option String → SyntheticWorkerResult
result_of run_id state checkpoint recovery snapshot_path batch_id = record {
  run_id = run_id;
  state = state;
  checkpoint = checkpoint;
  recovered_abandoned = recovery.recovered;
  exhausted_abandoned = recovery.exhausted;
  snapshot_path = snapshot_path;
  batch_id = batch_id;
}

-- A stage is skipped once `run` has returned.
unfoldable pub continue_with : (String → Action Progress) → Progress → Action Progress
continue_with stage (ended result) = pure (ended result)
continue_with stage (reached checkpoint) = stage checkpoint

-- `if checkpoint == expected`: the stage runs, or `run` goes on with the checkpoint.
unfoldable pub at_checkpoint : String → Action Progress → String → Action Progress
at_checkpoint expected stage checkpoint =
    if checkpoint == expected then stage else pure (reached checkpoint)

module _ (env : Platform) where
  abbrev pub partition_id_of : String → String
  partition_id_of run_id = env.uuid5 (run_id <> ":partition")

  abbrev pub job_id_of : String → String
  job_id_of run_id = env.uuid5 (run_id <> ":detail-job")

  abbrev pub artifact_id_of : String → String
  artifact_id_of run_id = env.uuid5 (run_id <> ":artifact")

  abbrev pub batch_id_of : String → String
  batch_id_of run_id = env.uuid5 (run_id <> ":batch")

  module _ (run_id : String) (lease_seconds : ℤ) (stop_after : Option String)
      (current : Datetime) where
    -- `if checkpoint is None`
    unfoldable pub discovery_stage : Recovery → Option String → Action Progress
    discovery_stage recovery (some checkpoint) = pure (reached checkpoint)
    discovery_stage recovery none = do
      discover_and_queue env run_id (partition_id_of run_id) (job_id_of run_id) current
      pure (
          if stops stop_after "discovery"
          then ended (result_of run_id "interrupted" "queued" recovery none none)
          else reached "queued")

    save : String → Reading → Action (Unit {0})
    save value reading =
        transact (Checkpoints.save run_id (partition_id_of run_id) value (env.clock reading))

    stop_gracefully : Recovery → JobLease → Action Progress
    stop_gracefully recovery lease = do
      transact (Queue.fail lease.job_id worker_id "graceful_shutdown" current)
      pure (ended (result_of run_id "gracefully_stopped" "queued" recovery none none))

    fetch_detail : Recovery → JobLease → Action Progress
    unfolding save
    fetch_detail recovery lease = do
      path ← record_snapshot env (artifact_id_of run_id) lease.job_id run_id current
      transact (Queue.succeed lease.job_id worker_id current)
      save "snapshot-recorded" Reading.snapshot_saved
      pure (
          if stops stop_after "snapshot"
          then ended (result_of run_id "interrupted" "snapshot-recorded" recovery (some path) none)
          else reached "snapshot-recorded")

    -- What follows `lease_next`.
    work : Recovery → Option JobLease → Action Progress
    unfolding stop_gracefully fetch_detail
    work recovery none =
        pure (ended (result_of run_id "waiting_for_lease" "queued" recovery none none))
    work recovery (some lease) =
        if stops stop_after "lease"
        then pure (ended (result_of run_id "interrupted" "queued" recovery none none))
        else if stops stop_after "graceful_shutdown" || env.shutdown_requested
        then stop_gracefully recovery lease
        else fetch_detail recovery lease

    -- `if checkpoint == "queued"`
    unfoldable pub queued_stage : Recovery → Action Progress
    unfolding work
    queued_stage recovery = do
      lease ←
          transact (Queue.lease_next worker_id lease_seconds current (env.fresh Fresh.attempt_id))
      work recovery lease

    -- `if checkpoint == "snapshot-recorded"`
    unfoldable pub snapshot_stage : Action Progress
    unfolding save
    snapshot_stage = do
      parser_run_id ← transact (
          ParserRuns.start (artifact_id_of run_id) "synthetic_placeholder" "0.1"
            (env.fresh Fresh.parser_run_id) (env.clock Reading.parser_started))
      transact (ParserRuns.complete parser_run_id (env.clock Reading.parser_completed))
      save "parser-completed" Reading.parser_saved
      pure (reached "parser-completed")

    -- `if checkpoint == "parser-completed"`
    unfoldable pub parser_stage : Action Progress
    unfolding save
    parser_stage = do
      record_batch env (batch_id_of run_id) run_id (artifact_id_of run_id) current
      save "batch-recorded" Reading.batch_saved
      pure (reached "batch-recorded")

    complete_both : Action (Unit {0})
    complete_both = do
      transact (
          Crawls.complete_partition (partition_id_of run_id)
            (env.clock Reading.partition_completed))
      transact (Crawls.complete run_id (env.clock Reading.run_completed))

    close_run : Option RunRow → Action (Unit {0})
    unfolding complete_both
    close_run row = if is_running row then complete_both else pure tt

    -- `if checkpoint == "batch-recorded"`
    unfoldable pub batch_stage : Action Progress
    unfolding save close_run
    batch_stage = do
      row ← on_database (Crawls.get_run run_id)
      close_run row
      save "completed" Reading.completed_saved
      pure (reached "completed")

    abbrev pub completed_result : Recovery → Progress → SyntheticWorkerResult
    completed_result recovery (ended result) = result
    completed_result recovery (reached checkpoint) =
        result_of run_id "completed" checkpoint recovery
          (some (Records.snapshot_path_of env (artifact_id_of run_id))) (some (batch_id_of run_id))

    -- From the checkpoint that is stored to the result.
    unfoldable pub resume : Recovery → Action SyntheticWorkerResult
    unfolding discovery_stage queued_stage snapshot_stage parser_stage batch_stage continue_with
        at_checkpoint
    resume recovery = do
      checkpoint ← on_database (Checkpoints.load run_id (partition_id_of run_id))
      discovered ← discovery_stage recovery checkpoint
      queued ← continue_with (at_checkpoint "queued" (queued_stage recovery)) discovered
      recorded ← continue_with (at_checkpoint "snapshot-recorded" snapshot_stage) queued
      parsed ← continue_with (at_checkpoint "parser-completed" parser_stage) recorded
      batched ← continue_with (at_checkpoint "batch-recorded" batch_stage) parsed
      pure (completed_result recovery batched)

    -- `run`. The database is one that the migrations have made, which `RuntimeRepositories` finds up
    -- to date; `DetailFetchQueue` registers its owner.
    unfoldable pub run : Action SyntheticWorkerResult
    unfolding resume
    run = do
      attempt (raise_if (not (is_stop_point stop_after)) value_error)
      attempt (require_free_space env.free_bytes env.minimum_free_bytes)
      transact (Queue.register_owner (env.clock Reading.owner_registered))
      recovery ← transact (Queue.recover_abandoned current)
      ensure_run env run_id (partition_id_of run_id)
      resume recovery

  -- `health`, with the JSON mapping that it returns
  unfoldable pub health : Action Fields
  health = do
    let paths = from_root env.root
    free_bytes ← attempt (require_free_space env.free_bytes env.minimum_free_bytes)
    transact (Queue.register_owner (env.clock Reading.owner_registered))
    pure (
        mapping (
          ("status", Value.str "ok")
          ∷ ("runtime_root", Value.str paths.root)
          ∷ ("database", Value.str (joined paths.database "scraper.sqlite"))
          ∷ ("free_bytes", Value.int (pos free_bytes))
          ∷ []))
