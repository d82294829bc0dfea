-- ===== src/Queue/Moves.antt =====
-- The state machine of a detail job of src/orchestration/queue.py, by the diagram in
-- docs/runtime-state.md: how one call may change a row of `detail_fetch_jobs`.
use scraper_project.Base.{
  ℕ, suc, ◌≤◌, ◌<◌, String, ◌≡◌, refl, inl, inr, true, Option, none, is_some, List, arith, All,
  Among, Bool-cases, leb,
}
use scraper_project.Timestamp.{Datetime}
use scraper_project.Database.Rows.{JobRow, JobState}
use scraper_project.Database.Table.Key
use scraper_project.Queue.{has_job_id, leased, released, recovered_state}

-- What no operation of the queue writes.
pub record SameJob (a b : JobRow) : Type 0 where
  pub job_id : b.job_id ≡ a.job_id
  pub crawl_run_id : b.crawl_run_id ≡ a.crawl_run_id
  pub source_name : b.source_name ≡ a.source_name
  pub source_listing_key : b.source_listing_key ≡ a.source_listing_key
  pub listing_url : b.listing_url ≡ a.listing_url
  pub reason_code : b.reason_code ≡ a.reason_code
  pub priority : b.priority ≡ a.priority
  pub max_attempts : b.max_attempts ≡ a.max_attempts
  pub metadata_json : b.metadata_json ≡ a.metadata_json
  pub created_at : b.created_at ≡ a.created_at

-- A row with a running lease, and a row without one.
pub record IsLeased (job : JobRow) : Type 0 where
  pub owned : is_some job.lease_owner ≡ true
  pub expires : is_some job.lease_expires_at ≡ true

pub record IsIdle (job : JobRow) : Type 0 where
  pub not_owned : job.lease_owner ≡ none
  pub no_expiry : job.lease_expires_at ≡ none

-- From `a` to `b` in one step.
pub data Move (a b : JobRow) : Type 0 where
  stay : b ≡ a → Move a b
  lease :
      a.state ≡ JobState.pending
      → b.state ≡ JobState.processing
      → a.attempt_count < a.max_attempts
      → b.attempt_count ≡ suc a.attempt_count
      → IsLeased b
      → SameJob a b
      → Move a b
  complete :
      a.state ≡ JobState.processing
      → b.state ≡ JobState.succeeded
      → b.attempt_count ≡ a.attempt_count
      → IsIdle b
      → SameJob a b
      → Move a b
  requeue :
      a.state ≡ JobState.processing
      → b.state ≡ JobState.pending
      → a.attempt_count < a.max_attempts
      → b.attempt_count ≡ a.attempt_count
      → IsIdle b
      → SameJob a b
      → Move a b
  exhaust :
      a.state ≡ JobState.processing
      → b.state ≡ JobState.failed_exhausted
      → a.max_attempts ≤ a.attempt_count
      → b.attempt_count ≡ a.attempt_count
      → IsIdle b
      → SameJob a b
      → Move a b

-- Job identifiers are a primary key.
abbrev pub IsKeyed : List JobRow → Type 0
IsKeyed = Key.IsKeyed (λ (job : JobRow). job.job_id)

pub IsKeyed-Among :
    (row : JobRow) (jobs : List JobRow)
    → IsKeyed jobs
    → Among row jobs
    → All (λ job. has_job_id row.job_id job ≡ true → job ≡ row) jobs
IsKeyed-Among = Key.IsKeyed-Among (λ (job : JobRow). job.job_id)

-- What the three SET clauses leave alone.
pub leased-SameJob :
    (n : ℕ) (worker_id : String) (expires current : Datetime) (job : JobRow)
    → SameJob job (leased n worker_id expires current job)
leased-SameJob n worker_id expires current job = ground arith

pub released-SameJob :
    (state : JobState) (error_class : Option String) (current : Datetime) (job : JobRow)
    → SameJob job (released state error_class current job)
released-SameJob state error_class current job = ground arith

released-IsIdle :
    (state : JobState) (error_class : Option String) (current : Datetime) (job : JobRow)
    → IsIdle (released state error_class current job)
released-IsIdle state error_class current job = record { not_owned = refl; no_expiry = refl }

-- A processing row that is released as succeeded, or by the attempts that it has left.
pub succeeded-Move :
    (error_class : Option String) (current : Datetime) (job : JobRow)
    → job.state ≡ JobState.processing
    → Move job (released JobState.succeeded error_class current job)
succeeded-Move error_class current job h =
    complete h refl refl (released-IsIdle _ error_class current job)
      (released-SameJob _ error_class current job)

pub recovered-Move :
    (error_class : Option String) (current : Datetime) (job : JobRow)
    → job.state ≡ JobState.processing
    → Move job (released (recovered_state job) error_class current job)
recovered-Move error_class current job h =
    elim (Bool-cases (leb job.max_attempts job.attempt_count)) [
      | inl spent ↦
          rw (spent, recovered_state)
            (exhaust h refl (ground arith) refl (released-IsIdle _ error_class current job)
              (released-SameJob _ error_class current job))
      | inr left ↦
          rw (left, recovered_state)
            (requeue h refl (ground arith) refl (released-IsIdle _ error_class current job)
              (released-SameJob _ error_class current job))
    ]
