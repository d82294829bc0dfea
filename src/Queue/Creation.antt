-- ===== src/Queue/Creation.antt =====
-- `JobRepository.create_idempotent` of src/database/repositories.py and the invariant of the queue.
use scraper_project.Base.{
  String, ◌≤◌, ◌≡◌, refl, sym, subst, false, List, [], ◌∷◌, arith, eq_iff, All, All-append, All-map,
}
use scraper_project.Timestamp.{Timestamp}
use scraper_project.Contracts.Models.{DetailFetchJob}
use scraper_project.Database.{Database}
use scraper_project.Database.Rows.{JobRow, AttemptRow}
use scraper_project.Database.Table.{exists, append_row}
use scraper_project.Database.Table.Laws.{exists-append_keep}
use scraper_project.Database.Table.Key
use scraper_project.Repositories.Jobs.{new_job, insert_identity, create_idempotent}
use scraper_project.Repositories.Jobs.Creation.{listed, create_cases, listed-jobs}
use scraper_project.Queue.{has_job_id}
use scraper_project.Queue.Invariant.{IsConsistent}
use scraper_project.Queue.Audit.{of_job, IsAudited, IsAudited-new}
use scraper_project.Queue.Kept.{IsKnown}
use scraper_project.Queue.Valid.{IsValid}

listed-attempts :
    (job : DetailFetchJob) (db : Database) → (listed job db).job_attempts ≡ db.job_attempts
unfolding insert_identity
listed-attempts job db = ground arith

-- A job that is not in the table has no attempts.
no_attempts :
    (id : String) (jobs : List JobRow) (attempts : List AttemptRow)
    → exists (has_job_id id) jobs ≡ false
    → All (IsKnown jobs) attempts
    → exists (of_job id) attempts ≡ false
no_attempts id jobs [] h known = refl
no_attempts id jobs (a ∷ attempts) h known =
    ground (arith, eq_iff a.job_id id, no_attempts id jobs attempts h known.1)

new_job-IsConsistent :
    (job : DetailFetchJob) (created updated : Timestamp)
    → 1 ≤ job.max_attempts
    → IsConsistent (new_job job created updated)
new_job-IsConsistent job created updated limit = ground arith

-- The invariant speaks of two tables only.
pub same-IsValid :
    (db db' : Database)
    → db'.detail_fetch_jobs ≡ db.detail_fetch_jobs
    → db'.job_attempts ≡ db.job_attempts
    → IsValid db
    → IsValid db'
same-IsValid db db' ej ea v = record {
  keyed = subst (Key.IsKeyed (λ (row : JobRow). row.job_id)) (sym ej) v.keyed;
  consistent = subst (All IsConsistent) (sym ej) v.consistent;
  audited =
      subst (All (IsAudited db'.job_attempts)) (sym ej)
        (subst (λ a. All (IsAudited a) db.detail_fetch_jobs) (sym ea) v.audited);
  known =
      subst (λ j. All (IsKnown j) db'.job_attempts) (sym ej)
        (subst (All (IsKnown db.detail_fetch_jobs)) (sym ea) v.known);
}

append-IsValid :
    (job : DetailFetchJob) (created updated : Timestamp) (db : Database)
    → 1 ≤ job.max_attempts
    → exists (has_job_id job.job_id) db.detail_fetch_jobs ≡ false
    → IsValid db
    → IsValid (record db {
      detail_fetch_jobs = append_row (new_job job created updated) db.detail_fetch_jobs;
    })
append-IsValid job created updated db limit unused v =
    let new = new_job job created updated in
    let jobs = append_row new db.detail_fetch_jobs in
    let fresh = no_attempts job.job_id db.detail_fetch_jobs db.job_attempts unused v.known in
    record {
      keyed =
          Key.IsKeyed-append (λ (row : JobRow). row.job_id) new db.detail_fetch_jobs v.keyed unused;
      consistent =
          All-append IsConsistent db.detail_fetch_jobs (new ∷ []) v.consistent
            (new_job-IsConsistent job created updated limit, tt);
      audited =
          All-append (IsAudited db.job_attempts) db.detail_fetch_jobs (new ∷ []) v.audited
            (IsAudited-new db.job_attempts new fresh refl refl, tt);
      known =
          All-map (IsKnown db.detail_fetch_jobs) (IsKnown jobs) db.job_attempts
            (λ a h. exists-append_keep (has_job_id a.job_id) db.detail_fetch_jobs new h) v.known;
    }

-- Creation keeps the invariant, whether it is refused, finds the job or adds it.
pub create_idempotent-IsValid :
    (job : DetailFetchJob) (created updated : Timestamp) (db : Database)
    → IsValid db
    → IsValid (create_idempotent job created updated db).1
create_idempotent-IsValid job created updated db v =
    create_cases (λ r. IsValid r.1) job created updated db (λ _. v)
      (λ row _ _. same-IsValid db _ (listed-jobs job db) (listed-attempts job db) v)
      λ limit _ unused _.
        same-IsValid
          (record db {
            detail_fetch_jobs = append_row (new_job job created updated) db.detail_fetch_jobs;
          })
          _ refl (listed-attempts job db) (append-IsValid job created updated db limit unused v)
