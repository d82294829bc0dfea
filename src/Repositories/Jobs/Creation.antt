-- ===== src/Repositories/Jobs/Creation.antt =====
-- `JobRepository.create_idempotent` of src/database/repositories.py: its branches.
use scraper_project.Base.{
  ◌≤◌, String, ◌≡◌, refl, subst, inl, inr, true, false, some, none, arith, eq_refl, Option-cases,
}
use scraper_project.Errors.{Error, Result, ok, err}
use scraper_project.Timestamp.{Timestamp, timestamp}
use scraper_project.Contracts.Models.{DetailFetchJob, reason_value}
use scraper_project.Database.{Database}
use scraper_project.Database.Rows.{JobRow}
use scraper_project.Database.Table.{select_first, exists, append_row}
use scraper_project.Database.Table.Laws.{
  exists-append_self, select_first-append_self, exists-Among, select_first-eq-some,
  select_first-eq-none,
}
use scraper_project.Database.Table.Key.{has_key}
use scraper_project.Database.Transaction.{largest_integer}
use scraper_project.Repositories.Crawls.{has_run_id}
use scraper_project.Repositories.Jobs.{
  is_identity, is_same_job, new_identity, new_job, insert_identity, create_idempotent,
}

abbrev pub listed : DetailFetchJob → Database → Database
listed job = insert_identity (
    new_identity job.source_name job.source_listing_key job.listing_url
      (timestamp job.scheduled_at))

module _ (job : DetailFetchJob) (db : Database) where
  pub listed-jobs : (listed job db).detail_fetch_jobs ≡ db.detail_fetch_jobs
  unfolding insert_identity
  listed-jobs = ground arith

  pub listed-runs : (listed job db).crawl_runs ≡ db.crawl_runs
  unfolding insert_identity
  listed-runs = ground arith

  pub listed-identity :
      exists
        (is_identity job.source_name job.source_listing_key)
        (listed job db).source_listing_identity
      ≡ true
  unfolding insert_identity
  listed-identity = ground (
    arith,
    exists-append_self (is_identity job.source_name job.source_listing_key)
        db.source_listing_identity
        (new_identity job.source_name job.source_listing_key job.listing_url
          (timestamp job.scheduled_at)),
    eq_refl job.source_name,
    eq_refl job.source_listing_key,
  )

-- The row that is appended is found under its run, listing and reason.
pub new_job-same :
    (job : DetailFetchJob) (created updated : Timestamp)
    → is_same_job job (new_job job created updated) ≡ true
new_job-same job created updated = ground (
  arith,
  eq_refl job.crawl_run_id,
  eq_refl job.source_name,
  eq_refl job.source_listing_key,
  eq_refl (reason_value job.reason_code),
)

module _ (P : Result String × Database → Type 0) (job : DetailFetchJob)
    (created updated : Timestamp) (db : Database) where
  -- A call is refused and changes nothing, finds the job that is there, or appends a new row.
  pub create_cases :
      ((e : Error) → P (err e, db))
      → ((row : JobRow)
          → 1 ≤ job.max_attempts
          → select_first (is_same_job job) db.detail_fetch_jobs ≡ some row
          → P (ok row.job_id, listed job db))
      → (1 ≤ job.max_attempts
          → select_first (is_same_job job) db.detail_fetch_jobs ≡ none
          → exists (has_key (λ (row : JobRow). row.job_id) job.job_id) db.detail_fetch_jobs ≡ false
          → exists (has_run_id job.crawl_run_id) db.crawl_runs ≡ true
          → let db' = listed job db in
            P (
              ok job.job_id,
              record db' {
                detail_fetch_jobs = append_row (new_job job created updated) db.detail_fetch_jobs;
              },
            ))
      → P (create_idempotent job created updated db)
  unfolding create_idempotent
  create_cases refused found appended =
      elim (Option-cases (select_first (is_same_job job) db.detail_fetch_jobs)) [
        | inl fresh ↦ ground (
          arith,
          refused Error.integrity_error,
          refused Error.overflow_error,
          appended,
          fresh,
          select_first-eq-none (is_same_job job) db.detail_fetch_jobs fresh,
          select_first-append_self (is_same_job job) db.detail_fetch_jobs
              (new_job job created updated),
          new_job-same job created updated,
          listed-jobs job db,
          listed-runs job db,
          listed-identity job db,
        )
        | inr (row, e) ↦
            let (among, hit) = select_first-eq-some (is_same_job job) db.detail_fetch_jobs row e in
            ground (
              arith,
              refused Error.integrity_error,
              refused Error.overflow_error,
              found row,
              e,
              exists-Among (is_same_job job) db.detail_fetch_jobs row among hit,
              listed-jobs job db,
            )
      ]

create-again :
    (job : DetailFetchJob) (created updated : Timestamp) (db : Database) (row : JobRow)
    → 1 ≤ job.max_attempts
    → job.priority ≤ largest_integer
    → job.max_attempts ≤ largest_integer
    → select_first (is_same_job job) db.detail_fetch_jobs ≡ some row
    → exists (is_identity job.source_name job.source_listing_key) db.source_listing_identity ≡ true
    → create_idempotent job created updated db ≡ (ok row.job_id, db)
unfolding create_idempotent insert_identity
create-again job created updated db row limit priority attempts e known =
    let (among, hit) = select_first-eq-some (is_same_job job) db.detail_fetch_jobs row e in
    ground (arith, exists-Among (is_same_job job) db.detail_fetch_jobs row among hit)

-- What a successful call leaves: the job is found by its key, and its listing is known.
abbrev Created : DetailFetchJob → Result String × Database → Type 0
Created job (err e, db) = Unit
Created job (ok id, db) =
    (row : JobRow) × (select_first (is_same_job job) db.detail_fetch_jobs ≡ some row)
    × (row.job_id ≡ id)
    × (exists (is_identity job.source_name job.source_listing_key) db.source_listing_identity
        ≡ true)

create-Created :
    (job : DetailFetchJob) (created updated : Timestamp) (db : Database)
    → Created job (create_idempotent job created updated db)
create-Created job created updated db =
    create_cases (Created job) job created updated db (λ _. tt)
      (λ row limit e. (row, rw (listed-jobs job db) e, refl, listed-identity job db))
      λ limit fresh unused run_known. (
        new_job job created updated,
        select_first-append_self (is_same_job job) db.detail_fetch_jobs
            (new_job job created updated)
            (select_first-eq-none (is_same_job job) db.detail_fetch_jobs fresh)
            (new_job-same job created updated),
        refl,
        listed-identity job db,
      )

-- Creation is idempotent: when a call has returned an identifier, a later call for the same run,
-- listing and reason, with a limit of at least one attempt, and a limit and a priority that are 64-bit
-- integers, returns that identifier and changes nothing, whatever its own identifier, schedule and
-- clock.
pub create_idempotent_twice :
    (job again : DetailFetchJob) (created updated created' updated' : Timestamp) (db db' : Database)
    (id : String)
    → create_idempotent job created updated db ≡ (ok id, db')
    → again.crawl_run_id ≡ job.crawl_run_id
    → again.source_name ≡ job.source_name
    → again.source_listing_key ≡ job.source_listing_key
    → again.reason_code ≡ job.reason_code
    → 1 ≤ again.max_attempts
    → again.priority ≤ largest_integer
    → again.max_attempts ≤ largest_integer
    → create_idempotent again created' updated' db' ≡ (ok id, db')
create_idempotent_twice job again created updated created' updated' db db' id done run source key
      reason limit high attempts =
    let (row, e, same_id, known) =
      subst (Created job) done (create-Created job created updated db) in
    subst (λ i. create_idempotent again created' updated' db' ≡ (ok i, db')) same_id
      (create-again again created' updated' db' row limit high attempts
        (rw (run, source, key, reason) e) (rw (source, key) known))
