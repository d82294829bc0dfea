-- ===== src/Queue/Tables.antt =====
-- The tables that `recover_abandoned` of src/orchestration/queue.py changes.
use scraper_project.Base.{◌≡◌, refl, List, [], ◌∷◌}
use scraper_project.Timestamp.{Datetime}
use scraper_project.Database.{Database}
use scraper_project.Database.Rows.{JobRow, AttemptRow}
use scraper_project.Queue.{recover_row, recover_rows}

abbrev pub with_queue : List JobRow → List AttemptRow → Database → Database
with_queue jobs attempts db = record db { detail_fetch_jobs = jobs; job_attempts = attempts }

-- The loop changes the two tables of the queue and no other.
pub recover_rows-tables :
    (current : Datetime) (rows : List JobRow) (db : Database)
    → let db' = recover_rows current rows db in
      db' ≡ with_queue db'.detail_fetch_jobs db'.job_attempts db
unfolding recover_rows recover_row
recover_rows-tables current [] db = refl
recover_rows-tables current (row ∷ rows) db =
    recover_rows-tables current rows (recover_row current row db)
