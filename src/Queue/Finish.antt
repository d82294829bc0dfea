-- ===== src/Queue/Finish.antt =====
-- `_finish`, `succeed` and `fail` of src/orchestration/queue.py.
use scraper_project.Base.{
  String, ◌≡◌, refl, ap, sym, subst, inl, inr, Bool, true, false, Option, none, some, arith, eq_iff,
  Pointwise, Pointwise-refl, Option-cases,
}
use scraper_project.Errors.{Result, ok, err, queue_transition_error}
use scraper_project.Timestamp.{Datetime}
use scraper_project.Database.{Database}
use scraper_project.Database.Rows.{JobRow, JobState}
use scraper_project.Database.Table.{select_first}
use scraper_project.Database.Table.Laws.{Pointwise-update, select_first-eq-some}
use scraper_project.Queue.{
  is_owner, has_job_id, released, release, finish_state, finish, recovered_state,
}
use scraper_project.Queue.Moves.{Move, stay, succeeded-Move, recovered-Move, IsKeyed, IsKeyed-Among}

is_owner-eq :
    (worker_id : String) (owner : Option String)
    → is_owner worker_id owner ≡ true
    → owner ≡ some worker_id
is_owner-eq worker_id none h = cc
is_owner-eq worker_id (some owner) h = ap some ((eq_iff owner worker_id).0 h)

module _ (P : Result JobState × Database → Type 0) (job_id worker_id : String) (success : Bool)
    (error_class : Option String) (current : Datetime) (db : Database) where
  -- A call is refused and changes nothing, or closes the lease that the worker holds.
  pub finish_cases :
      P (err queue_transition_error, db)
      → ((row : JobRow)
          → select_first (has_job_id job_id) db.detail_fetch_jobs ≡ some row
          → row.state ≡ JobState.processing
          → row.lease_owner ≡ some worker_id
          → let (state, outcome) = finish_state success row in
            P (ok state, release row.job_id row.attempt_count state outcome error_class current db))
      → P (finish job_id worker_id success error_class current db)
  unfolding finish
  finish_cases refused closes =
      elim (Option-cases (select_first (has_job_id job_id) db.detail_fetch_jobs)) [
        | inl e ↦ ground (arith, e, refused)
        | inr (row, e) ↦
            ground (arith, e, refused, closes row e, is_owner-eq worker_id row.lease_owner)
      ]

-- Without success, `_finish` and `recover_abandoned` choose the same state.
pub finish_state-retry : (job : JobRow) → (finish_state false job).0 ≡ recovered_state job
unfolding finish_state
finish_state-retry job = ground arith

-- The state that a closed lease leads to is an edge of the diagram.
finished-Move :
    (success : Bool) (error_class : Option String) (current : Datetime) (job : JobRow)
    → job.state ≡ JobState.processing
    → Move job (released (finish_state success job).0 error_class current job)
unfolding finish_state
finished-Move true error_class current job h = succeeded-Move error_class current job h
finished-Move false error_class current job h =
    subst (λ s. Move job (released s error_class current job)) (sym (finish_state-retry job))
      (recovered-Move error_class current job h)

-- If job identifiers are unique, finishing leaves each row of the jobs as it was or moves it
-- along one edge of the state diagram, with the edge's condition on the attempts.
pub finish-Move :
    (job_id worker_id : String) (success : Bool) (error_class : Option String) (current : Datetime)
    (db : Database)
    → IsKeyed db.detail_fetch_jobs
    → Pointwise Move db.detail_fetch_jobs
        (finish job_id worker_id success error_class current db).1.detail_fetch_jobs
finish-Move job_id worker_id success error_class current db keyed =
    finish_cases (λ r. Pointwise Move db.detail_fetch_jobs r.1.detail_fetch_jobs) job_id worker_id
      success error_class current db (Pointwise-refl Move db.detail_fetch_jobs (λ a. stay refl))
      λ row found running _.
        let (among, _) = select_first-eq-some (has_job_id job_id) db.detail_fetch_jobs row found in
        Pointwise-update (has_job_id row.job_id)
          (released (finish_state success row).0 error_class current)
          (λ job. has_job_id row.job_id job ≡ true → job ≡ row) Move db.detail_fetch_jobs
          (λ a. stay refl)
          (λ job hit only.
            subst (λ r. Move r (released (finish_state success row).0 error_class current r))
              (sym (only hit)) (finished-Move success error_class current row running))
          (IsKeyed-Among row db.detail_fetch_jobs keyed among)
