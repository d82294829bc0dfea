-- ===== src/Queue/Ownership.antt =====
-- Who holds a lease of src/orchestration/queue.py, and what the holder may do.
use scraper_project.Base.{
  ◌+◌, String, ◌≡◌, ◌≢◌, refl, ap, sym, subst, ◌∙◌, inl, inr, true, false, Bool, Option, none, some,
  List, arith, Among, ◌&&◌, eq_iff, eq_refl, Option-cases, leb, if◌then◌else◌,
}
use scraper_project.Errors.{Result, ok, err, queue_transition_error}
use scraper_project.Timestamp.{Datetime, Timestamp, after_seconds}
use scraper_project.Contracts.Value.{ℤ}
use scraper_project.Database.{Database}
use scraper_project.Database.Rows.{JobRow, JobState}
use scraper_project.Database.Table.{select_first}
use scraper_project.Database.Table.Laws.{
  All-Among, exists-Among, select_first-eq-some, select_first-eq-none,
}
use scraper_project.Database.Table.Key
use scraper_project.Queue.{
  JobLease, is_pending, is_processing, is_owner, has_job_id, is_eligible, leased, lease_next,
  finish, finish_state,
}
use scraper_project.Queue.Order.{next_job-cases}
use scraper_project.Queue.Lease.{lease_cases}
use scraper_project.Queue.Moves.{IsKeyed, IsKeyed-Among}
use scraper_project.Queue.Valid.{IsValid, lease_next-IsValid}
use scraper_project.Queue.Closing.{row_same, Holds, finish-closes, finish-refuses}

select_first-Among :
    (row : JobRow) (jobs : List JobRow)
    → IsKeyed jobs
    → Among row jobs
    → select_first (has_job_id row.job_id) jobs ≡ some row
select_first-Among row jobs keyed among =
    let test = has_job_id row.job_id in
    elim (Option-cases (select_first test jobs)) [
      | inl e ↦ ground (
        arith,
        select_first-eq-none test jobs e,
        exists-Among test jobs row among (eq_refl row.job_id),
      )
      | inr (a, e) ↦
          let (there, hit) = select_first-eq-some test jobs a e in
          e ∙ ap some (All-Among _ jobs a (IsKeyed-Among row jobs keyed among) there hit)
    ]

-- The job of a lease as the table shows it when the lease is returned.
pub record Shown (worker_id : String) (lease : JobLease) (db : Database) : Type 0 where
  pub row : JobRow
  pub found : select_first (has_job_id lease.job_id) db.detail_fetch_jobs ≡ some row
  pub holds : Holds worker_id row
  pub number : row.attempt_count ≡ lease.attempt_number
  pub limit : row.max_attempts ≡ lease.max_attempts

abbrev ShownIf : String → Result (Option JobLease) × Database → Type 0
ShownIf worker_id (err e, db) = Unit
ShownIf worker_id (ok none, db) = Unit
ShownIf worker_id (ok (some lease), db) = Shown worker_id lease db

eligible_pending :
    (now : Timestamp) (row : JobRow) → is_eligible now row ≡ true → is_pending row.state ≡ true
unfolding is_eligible
eligible_pending now row h = ground arith

lease_next-ShownIf :
    (worker_id : String) (n : ℤ) (current : Datetime) (attempt_id : String) (db : Database)
    → IsValid db
    → ShownIf worker_id (lease_next worker_id n current attempt_id db)
lease_next-ShownIf worker_id n current attempt_id db v =
    lease_cases (ShownIf worker_id) worker_id current attempt_id db (λ _. tt) n (λ _. tt)
      λ k row fetched.
        let (among, eligible, _) = next_job-cases _ _ row fetched in
        let set = leased (row.attempt_count + 1) worker_id (after_seconds current k) current in
        record {
          row = set row;
          found =
              Key.select_first-moved (λ (job : JobRow). job.job_id) row.job_id
                (λ job. is_pending job.state) set db.detail_fetch_jobs row (λ job. refl)
                (select_first-Among row db.detail_fetch_jobs v.keyed among)
                (eligible_pending _ row eligible);
          holds = (refl, refl);
          number = refl;
          limit = refl;
        }

holder_holds :
    (worker_id : String) (row : JobRow)
    → Holds worker_id row
    → (is_processing row.state && is_owner worker_id row.lease_owner) ≡ true
holder_holds worker_id row h = ground (arith, h, eq_refl worker_id)

other_not :
    (worker_id other : String) (row : JobRow)
    → other ≢ worker_id
    → Holds worker_id row
    → (is_processing row.state && is_owner other row.lease_owner) ≡ false
other_not worker_id other row ne h = ground (arith, h, eq_iff worker_id other)

abbrev OtherIf : String → Result (Option JobLease) × Database → Type 0
OtherIf id (err e, db) = Unit
OtherIf id (ok none, db) = Unit
OtherIf id (ok (some lease), db) = lease.job_id ≢ id

-- A job that is processed is not leased.
lease_next-OtherIf :
    (id worker_id : String) (n : ℤ) (current : Datetime) (attempt_id : String) (db : Database)
    (running : JobRow)
    → select_first (has_job_id id) db.detail_fetch_jobs ≡ some running
    → running.state ≡ JobState.processing
    → IsValid db
    → OtherIf id (lease_next worker_id n current attempt_id db)
lease_next-OtherIf id worker_id n current attempt_id db running found processing v =
    lease_cases (OtherIf id) worker_id current attempt_id db (λ _. tt) n (λ _. tt)
      λ k row fetched same.
        let (among, eligible, _) = next_job-cases _ _ row fetched in
        let e : some running ≡ some row =
          sym found
          ∙ ap (λ i. select_first (has_job_id i) db.detail_fetch_jobs) (sym same)
          ∙ select_first-Among row db.detail_fetch_jobs v.keyed among in
        ground (arith, e, row_same running row e, processing, eligible_pending _ row eligible)

-- In a valid database, the lease that a worker was given is its own to finish: right after it,
-- the worker's `_finish` is accepted, with the state that the ladder gives for the lease's
-- attempt, and that of any other worker is refused and changes nothing.
pub finish-lease_next :
    (worker_id other : String) (n : ℤ) (current later : Datetime) (attempt_id : String)
    (success : Bool) (cause : Option String) (db db' : Database) (lease : JobLease)
    → IsValid db
    → lease_next worker_id n current attempt_id db ≡ (ok (some lease), db')
    → other ≢ worker_id
    → ((finish lease.job_id worker_id success cause later db').0
        ≡ ok (
            if success
            then JobState.succeeded
            else if leb lease.max_attempts lease.attempt_number
            then JobState.failed_exhausted
            else JobState.pending))
      × (finish lease.job_id other success cause later db' ≡ (err queue_transition_error, db'))
finish-lease_next worker_id other n current later attempt_id success cause db db' lease v leased
      other_worker =
    let shown =
      subst (ShownIf worker_id) leased (lease_next-ShownIf worker_id n current attempt_id db v) in
    (
      rw
          (finish-closes lease.job_id worker_id success cause later db' shown.row shown.found
            (holder_holds worker_id shown.row shown.holds))
          (unfold finish_state in ground (arith, shown.number, shown.limit)),
      finish-refuses lease.job_id other success cause later db' shown.row shown.found
          (other_not worker_id other shown.row other_worker shown.holds),
    )

-- No two workers hold a job: from a valid database, of two successful leases that follow each
-- other, whatever their workers, clocks and lengths, the second is of another job than the first.
pub lease_next_twice :
    (worker_id worker_id' : String) (n n' : ℤ) (current current' : Datetime)
    (attempt_id attempt_id' : String) (db db' db'' : Database) (lease lease' : JobLease)
    → IsValid db
    → lease_next worker_id n current attempt_id db ≡ (ok (some lease), db')
    → lease_next worker_id' n' current' attempt_id' db' ≡ (ok (some lease'), db'')
    → lease'.job_id ≢ lease.job_id
lease_next_twice worker_id worker_id' n n' current current' attempt_id attempt_id' db db' db'' lease
      lease' v first second =
    let shown =
      subst (ShownIf worker_id) first (lease_next-ShownIf worker_id n current attempt_id db v) in
    subst (OtherIf lease.job_id) second (
      lease_next-OtherIf lease.job_id worker_id' n' current' attempt_id' db' shown.row shown.found
        shown.holds.0
        (subst (λ r. IsValid r.1) first (lease_next-IsValid worker_id n current attempt_id db v)))
