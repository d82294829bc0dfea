-- ===== src/Repositories/Checkpoints.antt =====
-- `CheckpointRepository` of src/database/repositories.py.
pub mod RoundTrip
use scraper_project.Base.{String, Bool, ◌&&◌, Option, none, some, List, ◌==◌, if◌then◌else◌}
use scraper_project.Timestamp.{Timestamp}
use scraper_project.Database.{Database}
use scraper_project.Database.Rows.{CheckpointRow}
use scraper_project.Database.Table.{select_first, exists, update, append_row}
use scraper_project.Database.Transaction.{
  Exec, pure, gets, modify, require, write_transaction, read_connection, ◌>>=◌, ◌>>◌,
}
use scraper_project.Repositories.Crawls.{has_run_id, has_partition_id}

-- PRIMARY KEY (crawl_run_id, partition_id)
abbrev pub is_checkpoint : String → String → CheckpointRow → Bool
is_checkpoint crawl_run_id partition_id row =
    row.crawl_run_id == crawl_run_id && row.partition_id == partition_id

abbrev pub new_checkpoint : String → String → String → Timestamp → CheckpointRow
new_checkpoint crawl_run_id partition_id value now = record {
  crawl_run_id = crawl_run_id;
  partition_id = partition_id;
  checkpoint_value = value;
  updated_at = now;
}

-- DO UPDATE SET checkpoint_value=excluded.checkpoint_value, updated_at=excluded.updated_at
abbrev pub overwritten : String → Timestamp → CheckpointRow → CheckpointRow
overwritten value now row = record row { checkpoint_value = value; updated_at = now }

-- A new row has its two foreign keys checked.
insert_checkpoint : CheckpointRow → Exec (Unit {0})
insert_checkpoint row = do
  run_known ← gets λ db. exists (has_run_id row.crawl_run_id) db.crawl_runs
  require run_known
  partition_known ← gets λ db. exists (has_partition_id row.partition_id) db.crawl_partitions
  require partition_known
  modify λ db. record db { checkpoints = append_row row db.checkpoints }

unfoldable pub save : String → String → String → Timestamp → Exec (Unit {0})
unfolding insert_checkpoint write_transaction
save crawl_run_id partition_id value now = write_transaction do
  let test = is_checkpoint crawl_run_id partition_id
  conflict ← gets λ db. exists test db.checkpoints
  (if conflict
      then modify
          (λ db. record db { checkpoints = update test (overwritten value now) db.checkpoints })
      else insert_checkpoint (new_checkpoint crawl_run_id partition_id value now))

abbrev pub value_of : Option CheckpointRow → Option String
value_of none = none
value_of (some row) = some row.checkpoint_value

unfoldable pub load : String → String → Exec (Option String)
unfolding read_connection
load crawl_run_id partition_id =
    read_connection
      λ db. value_of (select_first (is_checkpoint crawl_run_id partition_id) db.checkpoints)
