-- ===== src/Queue/History.antt =====
-- Histories of the queue of src/orchestration/queue.py, as lists of calls in any order.
use scraper_project.Base.{
  String, ◌≤◌, ◌≡◌, refl, ◌⊎◌, inl, inr, true, false, none, some, List, [], ◌∷◌, arith, All,
  All-map, Among, Pointwise, Pointwise-refl,
}
use scraper_project.Timestamp.{Datetime, Timestamp}
use scraper_project.Contracts.Value.{ℤ}
use scraper_project.Contracts.Models.{DetailFetchJob}
use scraper_project.Database.{Database}
use scraper_project.Database.Rows.{JobRow, JobState}
use scraper_project.Database.Table.{count_where, append_row}
use scraper_project.Repositories.Jobs.{create_idempotent, new_job}
use scraper_project.Repositories.Jobs.Creation.{create_cases, listed-jobs}
use scraper_project.Queue.{lease_next, succeed, fail, finish, recover_abandoned}
use scraper_project.Queue.Moves.{Move, stay}
use scraper_project.Queue.Lease.{lease_next-Move}
use scraper_project.Queue.Finish.{finish-Move}
use scraper_project.Queue.Recover.{recover_abandoned-Move}
use scraper_project.Queue.Invariant.{IsConsistent, IsFinal, Moves-IsFinal}
use scraper_project.Queue.Audit.{of_job, IsAudited}
use scraper_project.Queue.Kept.{All-both}
use scraper_project.Queue.Valid.{
  IsValid, lease_next-IsValid, finish-IsValid, recover_abandoned-IsValid,
}
use scraper_project.Queue.Creation.{create_idempotent-IsValid}

-- A call of a method, with what it reads of the clock and of the source of identifiers.
pub data Call : Type 0 where
  lease : String → ℤ → Datetime → String → Call
  success : String → String → Datetime → Call
  failure : String → String → String → Datetime → Call
  recovery : Datetime → Call
  creation : DetailFetchJob → Timestamp → Timestamp → Call

-- A call that raises is over; the database is what it left.
unfoldable pub step : Call → Database → Database
step (lease worker_id seconds current attempt_id) db =
    (lease_next worker_id seconds current attempt_id db).1
step (success job_id worker_id current) db = (succeed job_id worker_id current db).1
step (failure job_id worker_id error_class current) db =
    (fail job_id worker_id error_class current db).1
step (recovery current) db = (recover_abandoned current db).1
step (creation job created updated) db = (create_idempotent job created updated db).1

unfoldable pub run : List Call → Database → Database
unfolding step
run [] db = db
run (call ∷ calls) db = run calls (step call db)

succeed-finish :
    (job_id worker_id : String) (current : Datetime) (db : Database)
    → (succeed job_id worker_id current db).1 ≡ (finish job_id worker_id true none current db).1
unfolding succeed
succeed-finish job_id worker_id current db = ground arith

pub step-IsValid : (call : Call) (db : Database) → IsValid db → IsValid (step call db)
unfolding step fail
step-IsValid (lease worker_id seconds current attempt_id) db v =
    lease_next-IsValid worker_id seconds current attempt_id db v
step-IsValid (success job_id worker_id current) db v =
    rw (succeed-finish job_id worker_id current db)
      (finish-IsValid job_id worker_id true none current db v)
step-IsValid (failure job_id worker_id error_class current) db v =
    finish-IsValid job_id worker_id false (some error_class) current db v
step-IsValid (recovery current) db v = recover_abandoned-IsValid current db v
step-IsValid (creation job created updated) db v =
    create_idempotent-IsValid job created updated db v

-- From a valid database, a call takes each row of the jobs through one move of the state machine
-- (it stays, is leased, succeeds, is requeued or is exhausted), or appends one pending job.
pub step-Moves :
    (call : Call) (db : Database)
    → IsValid db
    → let jobs = (step call db).detail_fetch_jobs in
      Pointwise Move db.detail_fetch_jobs jobs
      ⊎ ((job : JobRow) × (job.state ≡ JobState.pending)
          × (jobs ≡ append_row job db.detail_fetch_jobs))
unfolding step fail
step-Moves (lease worker_id seconds current attempt_id) db v =
    inl (lease_next-Move worker_id seconds current attempt_id db v.keyed)
step-Moves (success job_id worker_id current) db v =
    rw (succeed-finish job_id worker_id current db)
      (inl (finish-Move job_id worker_id true none current db v.keyed))
step-Moves (failure job_id worker_id error_class current) db v =
    inl (finish-Move job_id worker_id false (some error_class) current db v.keyed)
step-Moves (recovery current) db v = inl (recover_abandoned-Move current db v.keyed)
step-Moves (creation job created updated) db v =
    let same : Pointwise Move db.detail_fetch_jobs db.detail_fetch_jobs =
      Pointwise-refl Move db.detail_fetch_jobs (λ a. stay refl) in
    create_cases
      (λ r.
        Pointwise Move db.detail_fetch_jobs r.1.detail_fetch_jobs
        ⊎ ((row : JobRow) × (row.state ≡ JobState.pending)
            × (r.1.detail_fetch_jobs ≡ append_row row db.detail_fetch_jobs)))
      job created updated db (λ _. inl same) (λ _ _ _. inl (rw (listed-jobs job db) same))
      λ _ _ _ _. inr (new_job job created updated, refl, refl)

-- From a valid database, every list of calls of the queue and of `create_idempotent`, raising or
-- not, leaves a valid database: job identifiers are unique, each row's attempt count, state and
-- lease agree, each job has the attempt rows that its count says, and each attempt has its job.
pub run-IsValid : (calls : List Call) (db : Database) → IsValid db → IsValid (run calls db)
unfolding run
run-IsValid [] db v = v
run-IsValid (call ∷ calls) db v = run-IsValid calls (step call db) (step-IsValid call db v)

-- From a valid database, after every list of calls, a job has been leased at most `max_attempts`
-- times: its attempt rows are as many as its attempt count says, and no more than its limit.
pub run-attempts :
    (calls : List Call) (db : Database)
    → IsValid db
    → let db' = run calls db in
      All
        (λ job.
          (count_where (of_job job.job_id) db'.job_attempts ≡ job.attempt_count)
          × (count_where (of_job job.job_id) db'.job_attempts ≤ job.max_attempts))
        db'.detail_fetch_jobs
run-attempts calls db v =
    let v' = run-IsValid calls db v in
    let db' = run calls db in
    All-map (λ job. IsAudited db'.job_attempts job × IsConsistent job) _ db'.detail_fetch_jobs
      (λ job h. (h.0.total, rw (h.0.total) h.1.bounded))
      (All-both (IsAudited db'.job_attempts) IsConsistent db'.detail_fetch_jobs v'.audited
        v'.consistent)

Among-append_row : {A : Type 0} (a x : A) (xs : List A) → Among a xs → Among a (append_row x xs)
Among-append_row a x [] m = absurd m
Among-append_row a x (y ∷ xs) (inl e) = inl e
Among-append_row a x (y ∷ xs) (inr m) = inr (Among-append_row a x xs m)

pub step-IsFinal :
    (call : Call) (db : Database) (job : JobRow)
    → IsValid db
    → IsFinal job
    → Among job db.detail_fetch_jobs
    → Among job (step call db).detail_fetch_jobs
unfolding step fail
step-IsFinal (lease worker_id seconds current attempt_id) db job v =
    Moves-IsFinal job db.detail_fetch_jobs _
      (lease_next-Move worker_id seconds current attempt_id db v.keyed)
step-IsFinal (success job_id worker_id current) db job v =
    rw (succeed-finish job_id worker_id current db) (
      Moves-IsFinal job db.detail_fetch_jobs _
        (finish-Move job_id worker_id true none current db v.keyed))
step-IsFinal (failure job_id worker_id error_class current) db job v =
    Moves-IsFinal job db.detail_fetch_jobs _
      (finish-Move job_id worker_id false (some error_class) current db v.keyed)
step-IsFinal (recovery current) db job v =
    Moves-IsFinal job db.detail_fetch_jobs _ (recover_abandoned-Move current db v.keyed)
step-IsFinal (creation new created updated) db job v = λ final among.
    create_cases (λ r. Among job r.1.detail_fetch_jobs) new created updated db (λ _. among)
      (λ _ _ _. rw (listed-jobs new db) among)
      λ _ _ _ _. Among-append_row job (new_job new created updated) db.detail_fetch_jobs among

-- From a valid database, a row that has succeeded or is exhausted is still in the table,
-- unchanged, after every list of calls.
pub run-IsFinal :
    (calls : List Call) (db : Database) (job : JobRow)
    → IsValid db
    → IsFinal job
    → Among job db.detail_fetch_jobs
    → Among job (run calls db).detail_fetch_jobs
unfolding run
run-IsFinal [] db job v final among = among
run-IsFinal (call ∷ calls) db job v final among =
    run-IsFinal calls (step call db) job (step-IsValid call db v) final
      (step-IsFinal call db job v final among)
