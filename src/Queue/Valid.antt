-- ===== src/Queue/Valid.antt =====
-- The invariant of the two tables of src/orchestration/queue.py, and its operations.
use scraper_project.Base.{String, ◌≡◌, Bool, false, Option, arith, All}
use scraper_project.Timestamp.{Datetime, timestamp, after_seconds}
use scraper_project.Contracts.Value.{ℤ}
use scraper_project.Database.{Database}
use scraper_project.Database.Rows.{JobRow}
use scraper_project.Database.Table.{select_all}
use scraper_project.Database.Table.Laws.{Among-select_all, select_first-eq-some}
use scraper_project.Queue.{
  is_processing, has_job_id, is_abandoned, recover_abandoned, lease_next, finish, finish_state,
}
use scraper_project.Queue.Moves.{IsKeyed}
use scraper_project.Queue.Lease.{lease_cases, lease_next-Move}
use scraper_project.Queue.Order.{next_job-cases}
use scraper_project.Queue.Finish.{finish_cases, finish-Move}
use scraper_project.Queue.Recover.{recover_abandoned-Move}
use scraper_project.Queue.Invariant.{IsConsistent, Moves-All, Moves-IsKeyed}
use scraper_project.Queue.Kept.{
  IsKnown, release-IsAudited, lease-IsAudited, release-IsKnown, lease-IsKnown,
  recover_rows-IsAudited, select_all-IsKeyed, abandoned-IsRunning,
}
use scraper_project.Queue.Audit.{IsAudited}

pub record IsValid (db : Database) : Type 0 where
  pub keyed : IsKeyed db.detail_fetch_jobs
  pub consistent : All IsConsistent db.detail_fetch_jobs
  pub audited : All (IsAudited db.job_attempts) db.detail_fetch_jobs
  pub known : All (IsKnown db.detail_fetch_jobs) db.job_attempts

-- The two parts that speak of the attempts.
abbrev Audit : Database → Type 0
Audit db =
    All (IsAudited db.job_attempts) db.detail_fetch_jobs
    × All (IsKnown db.detail_fetch_jobs) db.job_attempts

finished_not_processing :
    (success : Bool) (row : JobRow) → is_processing (finish_state success row).0 ≡ false
unfolding finish_state
finished_not_processing success row = ground arith

-- Leasing keeps the invariant, whether it raises, finds nothing or leases a job.
pub lease_next-IsValid :
    (worker_id : String) (n : ℤ) (current : Datetime) (attempt_id : String) (db : Database)
    → IsValid db
    → IsValid (lease_next worker_id n current attempt_id db).1
lease_next-IsValid worker_id n current attempt_id db v =
    let moves = lease_next-Move worker_id n current attempt_id db v.keyed in
    let (audited, known) =
      lease_cases (λ r. Audit r.1) worker_id current attempt_id db (λ _. (v.audited, v.known)) n
        (λ _. (v.audited, v.known))
        λ k row fetched.
          let (among, eligible, _) = next_job-cases _ _ row fetched in
          let expires = after_seconds current k in
          (
            lease-IsAudited worker_id expires current current attempt_id row db eligible v.keyed
                among v.audited,
            lease-IsKnown worker_id expires current attempt_id row db among v.known,
          ) in
    record {
      keyed = Moves-IsKeyed db.detail_fetch_jobs _ moves v.keyed;
      consistent = Moves-All db.detail_fetch_jobs _ moves v.consistent;
      audited = audited;
      known = known;
    }

-- Finishing keeps the invariant, whether it is refused or closes the lease.
pub finish-IsValid :
    (job_id worker_id : String) (success : Bool) (error_class : Option String) (current : Datetime)
    (db : Database)
    → IsValid db
    → IsValid (finish job_id worker_id success error_class current db).1
finish-IsValid job_id worker_id success error_class current db v =
    let moves = finish-Move job_id worker_id success error_class current db v.keyed in
    let (audited, known) =
      finish_cases (λ r. Audit r.1) job_id worker_id success error_class current db
        (v.audited, v.known)
        λ row found _ _.
          let (state, outcome) = finish_state success row in
          (
            release-IsAudited row state outcome error_class current db
                (finished_not_processing success row) v.keyed
                (select_first-eq-some (has_job_id job_id) db.detail_fetch_jobs row found).0
                v.audited,
            release-IsKnown row.job_id row.attempt_count state outcome error_class current db
                v.known,
          ) in
    record {
      keyed = Moves-IsKeyed db.detail_fetch_jobs _ moves v.keyed;
      consistent = Moves-All db.detail_fetch_jobs _ moves v.consistent;
      audited = audited;
      known = known;
    }

-- Recovery keeps the invariant.
pub recover_abandoned-IsValid :
    (current : Datetime) (db : Database) → IsValid db → IsValid (recover_abandoned current db).1
unfolding recover_abandoned
recover_abandoned-IsValid current db v =
    let moves = recover_abandoned-Move current db v.keyed in
    let now = timestamp current in
    let rows = select_all (is_abandoned now) db.detail_fetch_jobs in
    let (audited, known) =
      recover_rows-IsAudited current rows db (select_all-IsKeyed _ db.detail_fetch_jobs v.keyed)
        (abandoned-IsRunning now db.detail_fetch_jobs rows
          (Among-select_all (is_abandoned now) db.detail_fetch_jobs))
        v.keyed v.audited v.known in
    record {
      keyed = Moves-IsKeyed db.detail_fetch_jobs _ moves v.keyed;
      consistent = Moves-All db.detail_fetch_jobs _ moves v.consistent;
      audited = audited;
      known = known;
    }
