-- ===== src/Repositories/ParserRuns/Lifecycle.antt =====
-- The lifecycle of parser runs, of `ParserRunRepository` of src/database/repositories.py.
use scraper_project.Base.{
  String, ◌≡◌, inl, inr, ◌&&◌, Option, some, arith, if◌then◌else◌, Bool-cases,
}
use scraper_project.Errors.{ok, err, repository_state_error}
use scraper_project.Timestamp.{Timestamp}
use scraper_project.Database.{Database}
use scraper_project.Database.Rows.{ParserRunRow, ParserRunState}
use scraper_project.Database.Table.{update}
use scraper_project.Database.Table.Key.{IsKeyed, selected, count_where-selected}
use scraper_project.Database.Table.Laws.{update-count_zero}
use scraper_project.Repositories.ParserRuns.{
  has_parser_run_id, is_running, moved_parser_run, transition,
}

abbrev pub parser_run_id : ParserRunRow → String
parser_run_id row = row.parser_run_id

-- If parser run identifiers are unique, a transition is accepted exactly when the parser run
-- exists and is running: it then is in the target state, ends at the clock's reading and has the
-- reason, and all else is as it was. Otherwise the call is refused and changes nothing.
pub transition-exact :
    (id : String) (target : ParserRunState) (reason : Option String) (now : Timestamp)
    (db : Database)
    → IsKeyed parser_run_id db.parser_runs
    → transition id target reason now db ≡ (
        if selected parser_run_id id (λ row. is_running row.state) db.parser_runs
        then (
          ok tt,
          record db {
            parser_runs =
                update
                  (λ row. has_parser_run_id id row && is_running row.state)
                  (λ row. record row {
                    state = target;
                    finished_at = some now;
                    failure_reason = reason;
                  })
                  db.parser_runs;
          },
        )
        else (err repository_state_error, db))
unfolding transition
transition-exact id target reason now db keyed =
    let test = λ (row : ParserRunRow). is_running row.state in
    let both = λ (row : ParserRunRow). has_parser_run_id id row && test row in
    let rowcount = count_where-selected parser_run_id id test db.parser_runs keyed in
    elim (Bool-cases (selected parser_run_id id test db.parser_runs)) [
      | inl here ↦ ground (arith, rowcount, here)
      | inr other ↦ ground (
        arith,
        rowcount,
        other,
        update-count_zero both (moved_parser_run target reason now) db.parser_runs,
      )
    ]
