-- ===== src/Repositories/Jobs/Checked.antt =====
-- Jobs that their contract accepts, and `create_idempotent` of src/database/repositories.py.
use scraper_project.Base.{
  ℕ, ◌≤◌, ◌≡◌, inl, inr, Bool, true, false, none, some, List, arith, Option-cases,
}
use scraper_project.Errors.{ok}
use scraper_project.Timestamp.{Timestamp}
use scraper_project.Contracts.Models.{DetailFetchJob}
use scraper_project.Contracts.Checks.{check_job}
use scraper_project.Contracts.Accepted.{check_job-accepted}
use scraper_project.Database.{Database}
use scraper_project.Database.Rows.{JobRow}
use scraper_project.Database.Table.{select_first, exists}
use scraper_project.Database.Transaction.{largest_integer}
use scraper_project.Database.Table.Laws.{
  select_first-eq-some, select_first-eq-none, select_first-append_self, exists-Among,
}
use scraper_project.Database.Table.Key.{has_key}
use scraper_project.Repositories.Crawls.{has_run_id}
use scraper_project.Repositories.Jobs.{is_same_job, new_job, create_idempotent}
use scraper_project.Repositories.Jobs.Creation.{
  listed-jobs, listed-runs, listed-identity, new_job-same,
}

returns :
    (job : DetailFetchJob) (created updated : Timestamp) (db : Database)
    → 1 ≤ job.max_attempts
    → job.priority ≤ largest_integer
    → job.max_attempts ≤ largest_integer
    → exists (has_run_id job.crawl_run_id) db.crawl_runs ≡ true
    → exists (has_key (λ (row : JobRow). row.job_id) job.job_id) db.detail_fetch_jobs ≡ false
    → (create_idempotent job created updated db).0
      ≡ ok (elim (select_first (is_same_job job) db.detail_fetch_jobs) [
        | none ↦ job.job_id
        | some row ↦ row.job_id
      ])
unfolding create_idempotent
returns job created updated db limit low high run_known unused =
    let rows = db.detail_fetch_jobs in
    elim (Option-cases (select_first (is_same_job job) rows)) [
      | inl fresh ↦
          let absent = select_first-eq-none (is_same_job job) rows fresh in
          let own = new_job-same job created updated in
          ground (
            arith,
            fresh,
            absent,
            own,
            select_first-append_self (is_same_job job) rows (new_job job created updated) absent
                own,
            listed-jobs job db,
            listed-runs job db,
            listed-identity job db,
          )
      | inr (row, e) ↦
          let (among, hit) = select_first-eq-some (is_same_job job) rows row e in
          ground (arith, e, exists-Among (is_same_job job) rows row among hit, listed-jobs job db)
    ]

-- A job whose contract accepts it, whose priority and limit are 64-bit integers, of a known run,
-- under an identifier that no job has, is never refused: the call returns the identifier of the
-- job that has its run, listing and reason, and its own if there is none.
pub create_idempotent-checked :
    (bad_netloc : List ℕ → Bool) (job : DetailFetchJob) (created updated : Timestamp)
    (db : Database)
    → check_job bad_netloc job ≡ ok tt
    → job.priority ≤ largest_integer
    → job.max_attempts ≤ largest_integer
    → exists (has_run_id job.crawl_run_id) db.crawl_runs ≡ true
    → exists (has_key (λ (row : JobRow). row.job_id) job.job_id) db.detail_fetch_jobs ≡ false
    → (create_idempotent job created updated db).0
      ≡ ok (elim (select_first (is_same_job job) db.detail_fetch_jobs) [
        | none ↦ job.job_id
        | some row ↦ row.job_id
      ])
create_idempotent-checked bad_netloc job created updated db checked priority attempts run_known
      unused =
    let (low, high, _) = check_job-accepted bad_netloc job checked in
    returns job created updated db (ground (arith, low, high)) priority attempts run_known unused
