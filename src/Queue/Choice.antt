-- ===== src/Queue/Choice.antt =====
-- What `lease_next` of src/orchestration/queue.py returns for a valid database.
use scraper_project.Base.{
  ℕ, suc, ◌+◌, ◌≤◌, ◌<◌, String, ◌≡◌, ◌⊎◌, refl, inl, inr, true, false, Bool, none, some, List, [],
  ◌∷◌, arith, All, All-map, Among, ◌==◌, ◌&&◌, eq_refl, Option-cases, Bool-cases, or-eq-false,
}
use scraper_project.Errors.{ok}
use scraper_project.Timestamp.{Datetime, Timestamp, timestamp, text_lt, last_instant, after_seconds}
use scraper_project.Contracts.Value.{pos}
use scraper_project.Database.{Database}
use scraper_project.Database.Rows.{JobRow, JobState, AttemptRow}
use scraper_project.Database.Table.{exists, update}
use scraper_project.Database.Table.Laws.{All-Among, exists-Among, exists-update}
use scraper_project.Queue.{
  is_pending, has_job_id, is_attempt, is_eligible, precedes, next_job, leased, lease_of, lease_next,
}
use scraper_project.Queue.Order.{next_job-cases, next_job-eq-none}
use scraper_project.Queue.Lease.{with_lease}
use scraper_project.Queue.Audit.{of_job, IsAudited}
use scraper_project.Queue.Valid.{IsValid}

-- No attempt has a number that the job has not reached.
next_unused :
    (id : String) (n : ℕ) (attempts : List AttemptRow)
    → All (λ a. of_job id a ≡ true → a.attempt_number ≤ n) attempts
    → exists (is_attempt id (n + 1)) attempts ≡ false
next_unused id n [] h = refl
next_unused id n (a ∷ attempts) h = ground (arith, h.0, next_unused id n attempts h.1)

abbrev pub has_attempt_id : String → AttemptRow → Bool
has_attempt_id id attempt = attempt.job_attempt_id == id

lease_next-some :
    (worker_id : String) (n : ℕ) (current : Datetime) (attempt_id : String) (db : Database)
    (row : JobRow)
    → after_seconds current (suc n) ≤ last_instant
    → next_job (timestamp current) db.detail_fetch_jobs ≡ some row
    → exists (has_attempt_id attempt_id) db.job_attempts ≡ false
    → exists (is_attempt row.job_id (row.attempt_count + 1)) db.job_attempts ≡ false
    → exists (has_job_id row.job_id) (
        update
          (λ job. has_job_id row.job_id job && is_pending job.state)
          (leased (row.attempt_count + 1) worker_id (after_seconds current (suc n)) current)
          db.detail_fetch_jobs)
      ≡ true
    → lease_next worker_id (pos (suc n)) current attempt_id db ≡ (
      ok (some (lease_of row (row.attempt_count + 1) worker_id (after_seconds current (suc n)))),
      with_lease worker_id (after_seconds current (suc n)) current attempt_id row db,
    )
unfolding lease_next
lease_next-some worker_id n current attempt_id db row held found fresh unused known = ground arith

lease_next-none :
    (worker_id : String) (n : ℕ) (current : Datetime) (attempt_id : String) (db : Database)
    → after_seconds current (suc n) ≤ last_instant
    → next_job (timestamp current) db.detail_fetch_jobs ≡ none
    → lease_next worker_id (pos (suc n)) current attempt_id db ≡ (ok none, db)
unfolding lease_next
lease_next-none worker_id n current attempt_id db held found = ground arith

-- The job waits, its time is not after `now`, and it has an attempt left.
abbrev pub IsDue : Timestamp → JobRow → Type 0
IsDue now job =
    (job.state ≡ JobState.pending)
    × (text_lt now job.scheduled_at ≡ false)
    × (job.attempt_count < job.max_attempts)

-- `job` has a lower priority than `row`; or the same one and a later time, or the same time too
-- and was not created earlier.
abbrev pub IsNotBefore : JobRow → JobRow → Type 0
IsNotBefore row job =
    (job.priority < row.priority)
    ⊎ ((job.priority ≡ row.priority)
        × (text_lt job.scheduled_at row.scheduled_at ≡ false)
        × ((text_lt row.scheduled_at job.scheduled_at ≡ true)
            ⊎ (text_lt job.created_at row.created_at ≡ false)))

eligible-IsDue : (now : Timestamp) (job : JobRow) → is_eligible now job ≡ true → IsDue now job
unfolding is_eligible
eligible-IsDue now job h = ground arith

not_eligible : (now : Timestamp) (job : JobRow) → is_eligible now job ≡ false → ¬ IsDue now job
unfolding is_eligible
not_eligible now job h (pending, due, left) = ground arith

none-IsDue :
    (now : Timestamp) (jobs : List JobRow)
    → exists (is_eligible now) jobs ≡ false
    → All (λ job. ¬ IsDue now job) jobs
none-IsDue now [] h = tt
none-IsDue now (job ∷ jobs) h =
    let (first, rest) = or-eq-false _ _ h in (not_eligible now job first, none-IsDue now jobs rest)

precedes-IsNotBefore : (job row : JobRow) → precedes job row ≡ false → IsNotBefore row job
unfolding precedes
precedes-IsNotBefore job row h = ground arith

not_before :
    (now : Timestamp) (job row : JobRow)
    → (is_eligible now job ≡ true → precedes job row ≡ false)
    → (¬ IsDue now job) ⊎ IsNotBefore row job
not_before now job row h = elim (Bool-cases (is_eligible now job)) [
  | inl due ↦ inr (precedes-IsNotBefore job row (h due))
  | inr other ↦ inl (not_eligible now job other)
]

-- For a valid database, at least one second, a lease that ends no later than the last datetime, and an
-- attempt identifier that no attempt has, leasing never raises. It returns nothing and changes
-- nothing only if no job is due: waiting, with its stored time not after the clock's, and with an
-- attempt left. Else it leases a due job of the table
-- that no due job comes before, by higher priority, then earlier time, then earlier creation, and
-- adds its attempt.
pub lease_next-exact :
    (worker_id : String) (n : ℕ) (current : Datetime) (attempt_id : String) (db : Database)
    → after_seconds current (suc n) ≤ last_instant
    → IsValid db
    → exists (has_attempt_id attempt_id) db.job_attempts ≡ false
    → let now = timestamp current in
      let jobs = db.detail_fetch_jobs in
      let expires = after_seconds current (suc n) in
      let returned = lease_next worker_id (pos (suc n)) current attempt_id db in
      ((returned ≡ (ok none, db)) × All (λ job. ¬ IsDue now job) jobs)
      ⊎ ((row : JobRow) × Among row jobs
          × IsDue now row
          × All (λ job. (¬ IsDue now job) ⊎ IsNotBefore row job) jobs
          × (returned ≡ (
            ok (some (lease_of row (row.attempt_count + 1) worker_id expires)),
            with_lease worker_id expires current attempt_id row db,
          )))
lease_next-exact worker_id n current attempt_id db held v fresh =
    elim (Option-cases (next_job (timestamp current) db.detail_fetch_jobs)) [
      | inl e ↦ inl (
        lease_next-none worker_id n current attempt_id db held e,
        none-IsDue (timestamp current) db.detail_fetch_jobs (next_job-eq-none _ _ e),
      )
      | inr (row, e) ↦
          let (among, eligible, minimal) = next_job-cases _ _ row e in
          let audited =
            All-Among (IsAudited db.job_attempts) db.detail_fetch_jobs row v.audited among in
          inr (
            row,
            among,
            eligible-IsDue (timestamp current) row eligible,
            All-map _ _ db.detail_fetch_jobs (λ job h. not_before (timestamp current) job row h)
                minimal,
            lease_next-some worker_id n current attempt_id db row held e fresh
                (next_unused row.job_id row.attempt_count db.job_attempts audited.numbered)
                (rw
                  (exists-update (λ job. has_job_id row.job_id job && is_pending job.state)
                    (leased (row.attempt_count + 1) worker_id (after_seconds current (suc n))
                      current)
                    (has_job_id row.job_id) db.detail_fetch_jobs (λ j. refl))
                  (exists-Among (has_job_id row.job_id) db.detail_fetch_jobs row among
                    (eq_refl row.job_id))),
          )
    ]
