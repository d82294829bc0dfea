-- ===== src/Repositories/Crawls/Lifecycle.antt =====
-- The lifecycle of crawl runs and partitions, of `CrawlRepository` of src/database/repositories.py.
use scraper_project.Base.{
  String, ◌≡◌, refl, ap, inl, inr, Bool, true, false, ◌&&◌, some, arith, if◌then◌else◌, Bool-cases,
}
use scraper_project.Errors.{ok, err, repository_state_error}
use scraper_project.Timestamp.{Timestamp}
use scraper_project.Database.{Database}
use scraper_project.Database.Rows.{RunRow, RunState, PartitionRow, PartitionState}
use scraper_project.Database.Table.{select_first, update}
use scraper_project.Database.Table.Key.{
  IsKeyed, selected, count_where-selected, IsKeyed-update, select_first-moved,
}
use scraper_project.Database.Table.Laws.{update-count_zero}
use scraper_project.Repositories.Crawls.{
  has_partition_id, in_partition_state, moved_partition, transition_partition, has_run_id,
  in_run_state, moved_run, transition_run, get_run, start, complete, fail,
}

abbrev pub run_id : RunRow → String
run_id row = row.crawl_run_id

in_run_state-eq :
    (expected state : RunState) → in_run_state expected state ≡ true → state ≡ expected
in_run_state-eq expected state h = ground arith

-- If run identifiers are unique, a transition is accepted exactly when the run exists and is in
-- the expected state: the run is then in the target state, its start and its end are the clock's
-- reading where the call sets them, and all else is as it was. Otherwise the call is refused and
-- the database is as it was.
pub transition_run-exact :
    (id : String) (expected target : RunState) (started finished : Bool) (now : Timestamp)
    (db : Database)
    → IsKeyed run_id db.crawl_runs
    → transition_run id expected target started finished now db ≡ (
        if selected run_id id (λ row. in_run_state expected row.state) db.crawl_runs
        then (
          ok tt,
          record db {
            crawl_runs =
                update
                  (λ row. has_run_id id row && in_run_state expected row.state)
                  (λ row. record row {
                    state = target;
                    started_at = if started then some now else row.started_at;
                    finished_at = if finished then some now else row.finished_at;
                  })
                  db.crawl_runs;
          },
        )
        else (err repository_state_error, db))
unfolding transition_run
transition_run-exact id expected target started finished now db keyed =
    let test = λ (row : RunRow). in_run_state expected row.state in
    let set = moved_run target started finished now in
    let rowcount = count_where-selected run_id id test db.crawl_runs keyed in
    elim (Bool-cases (selected run_id id test db.crawl_runs)) [
      | inl here ↦ ground (arith, rowcount, here)
      | inr other ↦ ground (
        arith,
        rowcount,
        other,
        update-count_zero (λ row. has_run_id id row && test row) set db.crawl_runs,
      )
    ]

-- The database shows this row under this identifier.
pub record Shows (db : Database) (id : String) (row : RunRow) : Type 0 where
  pub keyed : IsKeyed run_id db.crawl_runs
  pub found : select_first (has_run_id id) db.crawl_runs ≡ some row

module _ (id : String) (expected target : RunState) (started finished : Bool) (now : Timestamp)
    (db : Database) (row : RunRow) (shows : Shows db id row) where
  transition_run-accepted :
      in_run_state expected row.state ≡ true
      → Shows
          (transition_run id expected target started finished now db).1
          id
          (moved_run target started finished now row)
  transition_run-accepted h =
      let test = λ (r : RunRow). has_run_id id r && in_run_state expected r.state in
      let set = moved_run target started finished now in
      let here : selected run_id id (λ r. in_run_state expected r.state) db.crawl_runs ≡ true =
        ground (arith, shows.found, h) in
      rw (transition_run-exact id expected target started finished now db shows.keyed, here)
        (record {
          keyed = IsKeyed-update run_id test set db.crawl_runs (λ r. refl) shows.keyed;
          found =
              select_first-moved run_id id (λ r. in_run_state expected r.state) set db.crawl_runs
                row (λ r. refl) shows.found h;
        })

  transition_run-refused :
      in_run_state expected row.state ≡ false
      → transition_run id expected target started finished now db ≡ (err repository_state_error, db)
  transition_run-refused h =
      let other : selected run_id id (λ r. in_run_state expected r.state) db.crawl_runs ≡ false =
        ground (arith, shows.found, h) in
      rw (transition_run-exact id expected target started finished now db shows.keyed, other) refl

-- If run identifiers are unique, a created run that is started and completed reads as completed,
-- with both times; after that it is not started, completed or failed at any time: the call is refused
-- and changes nothing.
pub run_lifecycle :
    (id : String) (begun done : Timestamp) (db : Database) (row : RunRow)
    → Shows db id row
    → row.state ≡ RunState.created
    → let db' = (complete id done (start id begun db).1).1 in
      ((get_run id db').0
        ≡ ok (
            some (record row {
              state = RunState.completed;
              started_at = some begun;
              finished_at = some done;
            })))
      × ((later : Timestamp)
          → (start id later db' ≡ (err repository_state_error, db'))
            × (complete id later db' ≡ (err repository_state_error, db'))
            × (fail id later db' ≡ (err repository_state_error, db')))
unfolding start complete fail get_run
run_lifecycle id begun done db row shows created =
    let running = moved_run RunState.running true false begun row in
    let completed = moved_run RunState.completed false true done running in
    let after_start = (start id begun db).1 in
    let after_complete = (complete id done after_start).1 in
    let started_shows : Shows after_start id running =
      transition_run-accepted id RunState.created RunState.running true false begun db row shows
        (rw created) in
    let completed_shows : Shows after_complete id completed =
      transition_run-accepted id RunState.running RunState.completed false true done after_start
        running started_shows refl in
    (
      ap ok completed_shows.found,
      λ later. (
        transition_run-refused id RunState.created _ _ _ later after_complete completed
            completed_shows refl,
        transition_run-refused id RunState.running _ _ _ later after_complete completed
            completed_shows refl,
        transition_run-refused id RunState.running _ _ _ later after_complete completed
            completed_shows refl,
      ),
    )

abbrev pub partition_id : PartitionRow → String
partition_id row = row.partition_id

-- If partition identifiers are unique, a transition is accepted exactly when the partition exists
-- and is in the expected state: it is then moved. Otherwise the call is refused and the database
-- is as it was.
pub transition_partition-exact :
    (id : String) (expected target : PartitionState) (now : Timestamp) (db : Database)
    → IsKeyed partition_id db.crawl_partitions
    → transition_partition id expected target now db ≡ (
        if selected partition_id id
          (λ row. in_partition_state expected row.state)
          db.crawl_partitions
        then (
          ok tt,
          record db {
            crawl_partitions =
                update
                  (λ row. has_partition_id id row && in_partition_state expected row.state)
                  (moved_partition target now)
                  db.crawl_partitions;
          },
        )
        else (err repository_state_error, db))
unfolding transition_partition
transition_partition-exact id expected target now db keyed =
    let test = λ (row : PartitionRow). in_partition_state expected row.state in
    let both = λ (row : PartitionRow). has_partition_id id row && test row in
    let rowcount = count_where-selected partition_id id test db.crawl_partitions keyed in
    elim (Bool-cases (selected partition_id id test db.crawl_partitions)) [
      | inl here ↦ ground (arith, rowcount, here)
      | inr other ↦ ground (
        arith,
        rowcount,
        other,
        update-count_zero both (moved_partition target now) db.crawl_partitions,
      )
    ]
