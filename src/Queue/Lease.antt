-- ===== src/Queue/Lease.antt =====
-- `lease_next` of src/orchestration/queue.py: its branches, and what each does.
use scraper_project.Base.{
  ℕ, zero, suc, ◌+◌, String, ◌≡◌, refl, inl, inr, true, ◌&&◌, Option, none, some, arith, Pointwise,
  Pointwise-refl, Option-cases, Bool-cases, leb,
}
use scraper_project.Errors.{Error, Result, ok, err}
use scraper_project.Timestamp.{Datetime, timestamp, last_instant, after_seconds}
use scraper_project.Contracts.Value.{ℤ, pos, negsuc}
use scraper_project.Database.{Database}
use scraper_project.Database.Rows.{JobRow}
use scraper_project.Database.Table.{update, append_row}
use scraper_project.Database.Table.Laws.{Pointwise-update}
use scraper_project.Queue.{
  JobLease, is_pending, has_job_id, is_eligible, next_job, leased, new_attempt, lease_of,
  lease_next,
}
use scraper_project.Queue.Order.{next_job-cases}
use scraper_project.Queue.Moves.{Move, lease, stay, leased-SameJob, IsKeyed, IsKeyed-Among}

-- The database after `worker_id` has leased `row`.
abbrev pub with_lease : String → Datetime → Datetime → String → JobRow → Database → Database
with_lease worker_id expires current attempt_id row db = record db {
  detail_fetch_jobs =
      update (λ job. has_job_id row.job_id job && is_pending job.state)
        (leased (row.attempt_count + 1) worker_id expires current) db.detail_fetch_jobs;
  job_attempts =
      append_row (new_attempt attempt_id row.job_id (row.attempt_count + 1) worker_id current)
        db.job_attempts;
}

module _ (P : Result (Option JobLease) × Database → Type 0) (worker_id : String)
    (current : Datetime) (attempt_id : String) (db : Database)
    (failed : (e : Error) → P (err e, db)) where
  -- A call raises and changes nothing, finds no job, or leases the job that it fetched.
  pub lease_cases :
      (n : ℤ)
      → (next_job (timestamp current) db.detail_fetch_jobs ≡ none → P (ok none, db))
      → ((k : ℕ) (row : JobRow)
          → next_job (timestamp current) db.detail_fetch_jobs ≡ some row
          → let expires = after_seconds current k in
            P (
              ok (some (lease_of row (row.attempt_count + 1) worker_id expires)),
              with_lease worker_id expires current attempt_id row db,
            ))
      → P (lease_next worker_id n current attempt_id db)
  unfolding lease_next
  lease_cases (negsuc m) idle leases = failed Error.value_error
  lease_cases (pos zero) idle leases = failed Error.value_error
  lease_cases (pos (suc n)) idle leases =
      elim (Bool-cases (leb (after_seconds current (suc n)) last_instant)) [
        | inr late ↦ ground (arith, late, failed Error.overflow_error)
        | inl held ↦ elim (Option-cases (next_job (timestamp current) db.detail_fetch_jobs)) [
          | inl e ↦ ground (arith, held, e, idle e)
          | inr (row, e) ↦
              let found = leases (suc n) row e in
              ground (arith, held, found, e, failed Error.integrity_error)
        ]
      ]

leased-Move :
    (worker_id : String) (expires current now : Datetime) (row job : JobRow)
    → is_eligible (timestamp now) row ≡ true
    → (has_job_id row.job_id job && is_pending job.state) ≡ true
    → (has_job_id row.job_id job ≡ true → job ≡ row)
    → Move job (leased (row.attempt_count + 1) worker_id expires current job)
unfolding is_eligible
leased-Move worker_id expires current now row job eligible hit only =
    let e : job ≡ row = ground arith in
    lease (ground arith) refl (ground arith) (ground arith) (ground arith)
      (leased-SameJob _ worker_id expires current job)

-- If job identifiers are unique, leasing leaves each row of the jobs as it was or moves it along
-- one edge of the state diagram, with the edge's condition on the attempts.
pub lease_next-Move :
    (worker_id : String) (n : ℤ) (current : Datetime) (attempt_id : String) (db : Database)
    → IsKeyed db.detail_fetch_jobs
    → Pointwise Move db.detail_fetch_jobs
        (lease_next worker_id n current attempt_id db).1.detail_fetch_jobs
lease_next-Move worker_id n current attempt_id db keyed =
    lease_cases (λ r. Pointwise Move db.detail_fetch_jobs r.1.detail_fetch_jobs) worker_id current
      attempt_id db (λ _. same) n (λ _. same)
      λ k row fetched.
        let (among, eligible, _) = next_job-cases _ _ row fetched in
        Pointwise-update (λ job. has_job_id row.job_id job && is_pending job.state)
          (leased (row.attempt_count + 1) worker_id (after_seconds current k) current)
          (λ job. has_job_id row.job_id job ≡ true → job ≡ row) Move db.detail_fetch_jobs
          (λ a. stay refl)
          (λ job. leased-Move worker_id (after_seconds current k) current current row job eligible)
          (IsKeyed-Among row db.detail_fetch_jobs keyed among)
  where
    same : Pointwise Move db.detail_fetch_jobs db.detail_fetch_jobs
    same = Pointwise-refl Move db.detail_fetch_jobs (λ a. stay refl)
