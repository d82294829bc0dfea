-- ===== src/Repositories/Crawls.antt =====
-- `CrawlRepository` of src/database/repositories.py: crawl runs and their partitions. `now` is the
-- reading of the clock.
pub mod Lifecycle
use scraper_project.Base.{
  ℕ, String, Bool, true, false, not, ◌&&◌, Option, none, some, ◌==◌, nat_eq, if◌then◌else◌,
}
use scraper_project.Errors.{repository_state_error}
use scraper_project.Timestamp.{Timestamp}
use scraper_project.Database.{Database}
use scraper_project.Database.Rows.{RunRow, RunState, PartitionRow, PartitionState}
use scraper_project.Database.Table.{select_first, exists, update, count_where, append_row}
use scraper_project.Database.Table.Key.{has_key}
use scraper_project.Database.Transaction.{
  Exec, pure, gets, modify, require, guard, write_transaction, read_connection, ◌>>=◌, ◌>>◌,
}
use scraper_project.Repositories.Sources.{has_source_name}

-- WHERE crawl_run_id=?
abbrev pub has_run_id : String → RunRow → Bool
has_run_id = has_key (λ (row : RunRow). row.crawl_run_id)

-- WHERE partition_id=?
abbrev pub has_partition_id : String → PartitionRow → Bool
has_partition_id = has_key (λ (row : PartitionRow). row.partition_id)

abbrev pub in_run_state : RunState → RunState → Bool
in_run_state RunState.created RunState.created = true
in_run_state RunState.running RunState.running = true
in_run_state RunState.completed RunState.completed = true
in_run_state RunState.failed RunState.failed = true
in_run_state _ _ = false

abbrev pub in_partition_state : PartitionState → PartitionState → Bool
in_partition_state PartitionState.pending PartitionState.pending = true
in_partition_state PartitionState.processing PartitionState.processing = true
in_partition_state PartitionState.completed PartitionState.completed = true
in_partition_state PartitionState.failed PartitionState.failed = true
in_partition_state _ _ = false

abbrev pub new_run : String → String → String → Timestamp → RunRow
new_run crawl_run_id source_name run_kind now = record {
  crawl_run_id = crawl_run_id;
  source_name = source_name;
  run_kind = run_kind;
  state = RunState.created;
  started_at = none;
  finished_at = none;
  created_at = now;
}

-- The primary key, and the foreign key to `source_registry_state`, are checked.
unfoldable pub create_run : String → String → String → Timestamp → Exec (Unit {0})
unfolding write_transaction
create_run crawl_run_id source_name run_kind now = write_transaction do
  taken ← gets λ db. exists (has_run_id crawl_run_id) db.crawl_runs
  require (not taken)
  known ← gets λ db. exists (has_source_name source_name) db.source_registry_state
  require known
  modify λ db. record db {
    crawl_runs = append_row (new_run crawl_run_id source_name run_kind now) db.crawl_runs;
  }

-- The assignments that `_transition_run` puts together.
abbrev pub moved_run : RunState → Bool → Bool → Timestamp → RunRow → RunRow
moved_run target set_started set_finished now row = record row {
  state = target;
  started_at = if set_started then some now else row.started_at;
  finished_at = if set_finished then some now else row.finished_at;
}

-- `_transition_run`: the row count is tested when the transaction has committed.
unfoldable pub transition_run :
    String → RunState → RunState → Bool → Bool → Timestamp → Exec (Unit {0})
unfolding write_transaction
transition_run crawl_run_id expected target set_started set_finished now = do
  rowcount ← write_transaction do
    let test = λ (row : RunRow). has_run_id crawl_run_id row && in_run_state expected row.state
    changed ← gets λ db. count_where test db.crawl_runs
    modify λ db. record db {
      crawl_runs = update test (moved_run target set_started set_finished now) db.crawl_runs;
    }
    pure changed
  guard (not (nat_eq rowcount 1)) repository_state_error

unfoldable pub start : String → Timestamp → Exec (Unit {0})
start crawl_run_id now =
    transition_run crawl_run_id RunState.created RunState.running true false now

unfoldable pub complete : String → Timestamp → Exec (Unit {0})
complete crawl_run_id now =
    transition_run crawl_run_id RunState.running RunState.completed false true now

unfoldable pub fail : String → Timestamp → Exec (Unit {0})
fail crawl_run_id now = transition_run crawl_run_id RunState.running RunState.failed false true now

unfoldable pub get_run : String → Exec (Option RunRow)
unfolding read_connection
get_run crawl_run_id = read_connection λ db. select_first (has_run_id crawl_run_id) db.crawl_runs

-- UNIQUE (crawl_run_id, partition_key)
abbrev pub is_partition : String → String → PartitionRow → Bool
is_partition crawl_run_id partition_key row =
    row.crawl_run_id == crawl_run_id && row.partition_key == partition_key

-- `created` and `updated` are the two readings of the clock, in this order.
unfoldable pub create_partition :
    String → String → String → String → Timestamp → Timestamp → Exec (Unit {0})
unfolding write_transaction
create_partition partition_id crawl_run_id source_name partition_key created updated =
    write_transaction do
      taken ← gets λ db. exists (has_partition_id partition_id) db.crawl_partitions
      require (not taken)
      repeated ← gets λ db. exists (is_partition crawl_run_id partition_key) db.crawl_partitions
      require (not repeated)
      known ← gets λ db. exists (has_run_id crawl_run_id) db.crawl_runs
      require known
      let row : PartitionRow = record {
        partition_id = partition_id;
        crawl_run_id = crawl_run_id;
        source_name = source_name;
        partition_key = partition_key;
        state = PartitionState.pending;
        created_at = created;
        updated_at = updated;
      }
      modify λ db. record db { crawl_partitions = append_row row db.crawl_partitions }

abbrev pub moved_partition : PartitionState → Timestamp → PartitionRow → PartitionRow
moved_partition target now row = record row { state = target; updated_at = now }

-- `_transition_partition`
unfoldable pub transition_partition :
    String → PartitionState → PartitionState → Timestamp → Exec (Unit {0})
unfolding write_transaction
transition_partition partition_id expected target now = do
  rowcount ← write_transaction do
    let test = λ (row : PartitionRow).
        has_partition_id partition_id row && in_partition_state expected row.state
    changed ← gets λ db. count_where test db.crawl_partitions
    modify λ db. record db {
      crawl_partitions = update test (moved_partition target now) db.crawl_partitions;
    }
    pure changed
  guard (not (nat_eq rowcount 1)) repository_state_error

unfoldable pub start_partition : String → Timestamp → Exec (Unit {0})
start_partition partition_id now =
    transition_partition partition_id PartitionState.pending PartitionState.processing now

unfoldable pub complete_partition : String → Timestamp → Exec (Unit {0})
complete_partition partition_id now =
    transition_partition partition_id PartitionState.processing PartitionState.completed now

unfoldable pub fail_partition : String → Timestamp → Exec (Unit {0})
fail_partition partition_id now =
    transition_partition partition_id PartitionState.processing PartitionState.failed now

unfoldable pub get_partition : String → Exec (Option PartitionRow)
unfolding read_connection
get_partition partition_id =
    read_connection λ db. select_first (has_partition_id partition_id) db.crawl_partitions
