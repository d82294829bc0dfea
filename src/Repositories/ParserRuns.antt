-- ===== src/Repositories/ParserRuns.antt =====
-- `ParserRunRepository` of src/database/repositories.py. `now` is the reading of the clock,
-- `fresh` the text of `uuid4()`.
pub mod Lifecycle
use scraper_project.Base.{
  String, Bool, true, false, not, ◌&&◌, Option, none, some, ◌==◌, nat_eq, if◌then◌else◌,
}
use scraper_project.Errors.{repository_state_error, value_error}
use scraper_project.Timestamp.{Timestamp}
use scraper_project.Database.{Database}
use scraper_project.Database.Rows.{ParserRunRow, ParserRunState}
use scraper_project.Database.Table.{select_first, exists, update, count_where, append_row}
use scraper_project.Database.Table.Key.{has_key}
use scraper_project.Database.Transaction.{
  Exec, pure, raise, gets, modify, require, guard, write_transaction, read_connection, ◌>>=◌, ◌>>◌,
}
use scraper_project.Repositories.Snapshots.{has_artifact_id}

-- WHERE parser_run_id=?
abbrev pub has_parser_run_id : String → ParserRunRow → Bool
has_parser_run_id = has_key (λ (row : ParserRunRow). row.parser_run_id)

abbrev pub is_running : ParserRunState → Bool
is_running ParserRunState.running = true
is_running _ = false

abbrev pub new_parser_run : String → String → String → String → Timestamp → ParserRunRow
new_parser_run parser_run_id artifact_id parser_name parser_version now = record {
  parser_run_id = parser_run_id;
  artifact_id = artifact_id;
  parser_name = parser_name;
  parser_version = parser_version;
  started_at = now;
  finished_at = none;
  state = ParserRunState.running;
  failure_reason = none;
}

unfoldable pub start : String → String → String → String → Timestamp → Exec String
unfolding write_transaction
start artifact_id parser_name parser_version fresh now = do
  write_transaction do
    taken ← gets λ db. exists (has_parser_run_id fresh) db.parser_runs
    require (not taken)
    known ← gets λ db. exists (has_artifact_id artifact_id) db.raw_snapshot_manifests
    require known
    modify λ db. record db {
      parser_runs =
          append_row (new_parser_run fresh artifact_id parser_name parser_version now)
            db.parser_runs;
    }
  pure fresh

abbrev pub moved_parser_run :
    ParserRunState → Option String → Timestamp → ParserRunRow → ParserRunRow
moved_parser_run target failure_reason now row = record row {
  state = target;
  finished_at = some now;
  failure_reason = failure_reason;
}

-- `_transition`
unfoldable pub transition : String → ParserRunState → Option String → Timestamp → Exec (Unit {0})
unfolding write_transaction
transition parser_run_id target failure_reason now = do
  rowcount ← write_transaction do
    let test = λ (row : ParserRunRow). has_parser_run_id parser_run_id row && is_running row.state
    changed ← gets λ db. count_where test db.parser_runs
    modify λ db. record db {
      parser_runs = update test (moved_parser_run target failure_reason now) db.parser_runs;
    }
    pure changed
  guard (not (nat_eq rowcount 1)) repository_state_error

unfoldable pub complete : String → Timestamp → Exec (Unit {0})
complete parser_run_id now = transition parser_run_id ParserRunState.completed none now

unfoldable pub fail : String → String → Timestamp → Exec (Unit {0})
fail parser_run_id failure_reason now =
    if failure_reason == ""
    then raise value_error
    else transition parser_run_id ParserRunState.failed (some failure_reason) now

unfoldable pub get : String → Exec (Option ParserRunRow)
unfolding read_connection
get parser_run_id =
    read_connection λ db. select_first (has_parser_run_id parser_run_id) db.parser_runs
