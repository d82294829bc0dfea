-- ===== src/Queue/Closing.antt =====
-- `_finish` of src/orchestration/queue.py on each branch.
use scraper_project.Base.{
  String, ◌≡◌, ◌≤◌, ◌<◌, ◌==◌, nat_eq, refl, false, ◌⊎◌, ap, sym, subst, ◌∙◌, inl, inr, true, false,
  Bool, Option, none, some, arith, ◌&&◌, eq_iff, eq_refl, Option-cases, Bool-cases,
}
use scraper_project.Errors.{ok, err, queue_transition_error}
use scraper_project.Timestamp.{Datetime, timestamp}
use scraper_project.Database.{Database}
use scraper_project.Database.Rows.{JobRow, JobState, Outcome}
use scraper_project.Database.Table.{select_first, update}
use scraper_project.Queue.{is_processing, is_owner, has_job_id, finish, finish_state, release}

pub row_same : (a b : JobRow) → some a ≡ some b → a ≡ b
row_same a b h = ground arith

-- The job is processed under a lease of this worker.
abbrev pub Holds : String → JobRow → Type 0
Holds worker_id row = (row.state ≡ JobState.processing) × (row.lease_owner ≡ some worker_id)

pub is_owner-held :
    (worker_id : String) (owner : Option String)
    → is_owner worker_id owner ≡ true
    → owner ≡ some worker_id
is_owner-held worker_id none h = cc
is_owner-held worker_id (some owner) h = ap some ((eq_iff owner worker_id).0 h)

module _ (job_id worker_id : String) (success : Bool) (cause : Option String) (current : Datetime)
    (db : Database) (row : JobRow)
    (e : select_first (has_job_id job_id) db.detail_fetch_jobs ≡ some row) where
  abbrev holds : Bool
  holds = is_processing row.state && is_owner worker_id row.lease_owner

  held : holds ≡ true → Holds worker_id row
  held h = (ground arith, is_owner-held worker_id row.lease_owner (ground arith))

  not_held : holds ≡ false → Holds worker_id row → ⊥
  not_held h (running, owner) = ground (arith, eq_refl worker_id)

  pub finish-closes :
      holds ≡ true
      → let (state, outcome) = finish_state success row in
        finish job_id worker_id success cause current db
        ≡ (ok state, release row.job_id row.attempt_count state outcome cause current db)
  unfolding finish
  finish-closes h = ground (arith, e)

  pub finish-refuses :
      holds ≡ false
      → finish job_id worker_id success cause current db ≡ (err queue_transition_error, db)
  unfolding finish
  finish-refuses h = ground (arith, e)

finish-missing :
    (job_id worker_id : String) (success : Bool) (cause : Option String) (current : Datetime)
    (db : Database)
    → select_first (has_job_id job_id) db.detail_fetch_jobs ≡ none
    → finish job_id worker_id success cause current db ≡ (err queue_transition_error, db)
unfolding finish
finish-missing job_id worker_id success cause current db e = ground (arith, e)

-- The ladder: a success ends the job; a failure ends it once no attempt is left, and else puts it
-- back.
abbrev pub Ladder : Bool → JobRow → JobState → Outcome → Type 0
Ladder success row state outcome =
    ((success ≡ true) × (state ≡ JobState.succeeded) × (outcome ≡ Outcome.succeeded))
    ⊎ ((success ≡ false)
        × (((row.max_attempts ≤ row.attempt_count)
              × (state ≡ JobState.failed_exhausted)
              × (outcome ≡ Outcome.failed_exhausted))
            ⊎ ((row.attempt_count < row.max_attempts)
                × (state ≡ JobState.pending)
                × (outcome ≡ Outcome.failed_retryable))))

finish_state-Ladder :
    (success : Bool) (row : JobRow)
    → let (state, outcome) = finish_state success row in Ladder success row state outcome
unfolding finish_state
finish_state-Ladder true row = inl (refl, refl, refl)
finish_state-Ladder false row = ground arith

-- `_finish` closes the lease of the worker that holds the job: the job takes the state of the
-- ladder, has no owner and no lease, is due at once and keeps the cause; its running attempt is
-- finished with the ladder's outcome and the cause. It refuses every other call, and then changes
-- nothing.
pub finish-exact :
    (job_id worker_id : String) (success : Bool) (cause : Option String) (current : Datetime)
    (db : Database)
    → let found = select_first (has_job_id job_id) db.detail_fetch_jobs in
      let returned = finish job_id worker_id success cause current db in
      ((row : JobRow) × (found ≡ some row)
        × Holds worker_id row
        × ((state : JobState) × (outcome : Outcome) × Ladder success row state outcome
            × (returned ≡ (
              ok state,
              record db {
                detail_fetch_jobs =
                    update
                      (λ job. job.job_id == row.job_id)
                      (λ job. record job {
                        state = state;
                        lease_owner = none;
                        lease_expires_at = none;
                        scheduled_at = timestamp current;
                        last_error_class = cause;
                        updated_at = timestamp current;
                      })
                      db.detail_fetch_jobs;
                job_attempts =
                    update
                      (λ attempt.
                        attempt.job_id == row.job_id
                        && nat_eq attempt.attempt_number row.attempt_count)
                      (λ attempt. record attempt {
                        finished_at = some (timestamp current);
                        outcome = some outcome;
                        error_class = cause;
                      })
                      db.job_attempts;
              },
            ))))
      ⊎ ((returned ≡ (err queue_transition_error, db))
          × ¬ ((row : JobRow) × (found ≡ some row) × Holds worker_id row))
finish-exact job_id worker_id success cause current db =
    elim (Option-cases (select_first (has_job_id job_id) db.detail_fetch_jobs)) [
      | inl e ↦ inr (
        finish-missing job_id worker_id success cause current db e,
        λ (row, found, holds). ground (arith, e, found),
      )
      | inr (row, e) ↦
          let same =
            λ (r : JobRow) (found : select_first (has_job_id job_id) db.detail_fetch_jobs ≡ some r).
              row_same row r (sym e ∙ found) in
          elim (Bool-cases (is_processing row.state && is_owner worker_id row.lease_owner)) [
            | inl h ↦ inl (
              row,
              e,
              held job_id worker_id success cause current db row e h,
              (
                (finish_state success row).0,
                (finish_state success row).1,
                finish_state-Ladder success row,
                finish-closes job_id worker_id success cause current db row e h,
              ),
            )
            | inr h ↦ inr (
              finish-refuses job_id worker_id success cause current db row e h,
              λ (r, found, holds).
                  not_held job_id worker_id success cause current db row e h
                    (subst (Holds worker_id) (sym (same r found)) holds),
            )
          ]
    ]
