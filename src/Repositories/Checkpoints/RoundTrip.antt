-- ===== src/Repositories/Checkpoints/RoundTrip.antt =====
-- `save` and `load` of `CheckpointRepository` of src/database/repositories.py.
use scraper_project.Base.{
  String, ◌≡◌, ◌↔◌, ◌⊎◌, refl, inl, inr, Bool, true, false, ◌&&◌, some, List, [], ◌∷◌, arith, ◌==◌,
  eq_iff, eq_refl, if◌then◌else◌, Bool-cases,
}
use scraper_project.Errors.{ok, err, integrity_error}
use scraper_project.Timestamp.{Timestamp}
use scraper_project.Database.{Database}
use scraper_project.Database.Rows.{CheckpointRow}
use scraper_project.Database.Table.{select_first, exists, update, append_row}
use scraper_project.Repositories.Crawls.{has_run_id, has_partition_id}
use scraper_project.Repositories.Checkpoints.{
  is_checkpoint, new_checkpoint, overwritten, value_of, save, load,
}

module _ (run partition value : String) (now : Timestamp) where
  abbrev test : CheckpointRow → Bool
  test = is_checkpoint run partition

  abbrev row : CheckpointRow
  row = new_checkpoint run partition value now

  value-update_self :
      (rows : List CheckpointRow)
      → exists test rows ≡ true
      → value_of (select_first test (update test (overwritten value now) rows)) ≡ some value
  value-update_self [] h = cc
  value-update_self (old ∷ rows) h = ground (arith, value-update_self rows)

  value-append_self :
      (rows : List CheckpointRow)
      → exists test rows ≡ false
      → value_of (select_first test (append_row row rows)) ≡ some value
  value-append_self [] h = ground (arith, eq_refl run, eq_refl partition)
  value-append_self (old ∷ rows) h = ground (arith, value-append_self rows)

  module _ (run' partition' : String)
      (other : (run == run' && partition == partition') ≡ false) where
    value-update_other :
        (rows : List CheckpointRow)
        → select_first (is_checkpoint run' partition') (update test (overwritten value now) rows)
          ≡ select_first (is_checkpoint run' partition') rows
    value-update_other [] = refl
    value-update_other (old ∷ rows) = ground (
      arith,
      other,
      eq_iff old.crawl_run_id run,
      eq_iff old.partition_id partition,
      value-update_other rows,
    )

    value-append_other :
        (rows : List CheckpointRow)
        → select_first (is_checkpoint run' partition') (append_row row rows)
          ≡ select_first (is_checkpoint run' partition') rows
    value-append_other [] = ground (arith, other)
    value-append_other (old ∷ rows) = ground (arith, value-append_other rows)

saved-checkpoints :
    (run partition value : String) (now : Timestamp) (db db' : Database)
    → save run partition value now db ≡ (ok tt, db')
    → db'.checkpoints ≡ (
        if exists (is_checkpoint run partition) db.checkpoints
        then update (is_checkpoint run partition) (overwritten value now) db.checkpoints
        else append_row (new_checkpoint run partition value now) db.checkpoints)
unfolding save
saved-checkpoints run partition value now db db' saved = ground arith

-- A checkpoint that `save` has stored is the one that `load` reads; what is read for any other run
-- and partition is as before.
pub load-save :
    (run partition value : String) (now : Timestamp) (db db' : Database)
    → save run partition value now db ≡ (ok tt, db')
    → (run' partition' : String)
    → (load run' partition' db').0 ≡ (
        if run == run' && partition == partition'
        then ok (some value)
        else (load run' partition' db).0)
unfolding load
load-save run partition value now db db' saved run' partition' =
    elim (Bool-cases (run == run' && partition == partition')) [
      | inl same ↦ ground (
        arith,
        saved-checkpoints run partition value now db db' saved,
        eq_iff run run',
        eq_iff partition partition',
        same,
        value-update_self run partition value now db.checkpoints,
        value-append_self run partition value now db.checkpoints,
      )
      | inr other ↦ ground (
        arith,
        saved-checkpoints run partition value now db db' saved,
        other,
        value-update_other run partition value now run' partition' other db.checkpoints,
        value-append_other run partition value now run' partition' other db.checkpoints,
      )
    ]

-- `save` is refused exactly for a new checkpoint of an unknown run or partition, and then it
-- changes nothing.
pub save-refused :
    (run partition value : String) (now : Timestamp) (db : Database)
    → (save run partition value now db ≡ (err integrity_error, db)) ↔ (
        (exists (is_checkpoint run partition) db.checkpoints ≡ false)
        × ((exists (has_run_id run) db.crawl_runs ≡ false)
            ⊎ (exists (has_partition_id partition) db.crawl_partitions ≡ false)))
unfolding save
save-refused run partition value now db = ground arith
