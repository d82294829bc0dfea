-- ===== src/Queue/Audit.antt =====
-- The record of attempts: each lease of a job has its row in `job_attempts`.
use scraper_project.Base.{
  ℕ, ◌+◌, ◌≤◌, String, ◌≡◌, refl, sym, ◌∙◌, Bool, true, false, not, ◌&&◌, Option, is_some, List, [],
  ◌∷◌, arith, ◌==◌, eq_iff, eq_refl, if◌then◌else◌, All, All-append, All-map,
}
use scraper_project.Timestamp.{Datetime}
use scraper_project.Database.Rows.{JobRow, JobState, AttemptRow, Outcome}
use scraper_project.Database.Table.{exists, update, count_where, append_row}
use scraper_project.Database.Table.Laws.{All-update, count_where-update, count_where-append}
use scraper_project.Queue.{is_processing, is_attempt, new_attempt, leased, released, closed}

-- The attempts of a job, and those that have no outcome yet.
abbrev pub of_job : String → AttemptRow → Bool
of_job id attempt = attempt.job_id == id

abbrev pub is_open : String → AttemptRow → Bool
is_open id attempt = of_job id attempt && not (is_some attempt.outcome)

-- A job has one attempt row for each time it was leased, numbered up to its attempt count; one is
-- open while it is processed, the last, and none otherwise.
pub record IsAudited (attempts : List AttemptRow) (job : JobRow) : Type 0 where
  pub total : count_where (of_job job.job_id) attempts ≡ job.attempt_count
  pub numbered :
      All (λ a. of_job job.job_id a ≡ true → a.attempt_number ≤ job.attempt_count) attempts
  pub open_count :
      count_where (is_open job.job_id) attempts ≡ (if is_processing job.state then 1 else 0)
  pub latest :
      All (λ a. is_open job.job_id a ≡ true → a.attempt_number ≡ job.attempt_count) attempts

All-shut :
    (id : String) (n : ℕ) (attempts : List AttemptRow)
    → count_where (is_open id) attempts ≡ 0
    → All (λ a. is_open id a ≡ true → a.attempt_number ≡ n) attempts
All-shut id n [] h = tt
All-shut id n (a ∷ attempts) h = ground (arith, All-shut id n attempts)

-- A new attempt of another job.
pub IsAudited-append_other :
    (attempts : List AttemptRow) (new : AttemptRow) (job : JobRow)
    → of_job job.job_id new ≡ false
    → IsAudited attempts job
    → IsAudited (append_row new attempts) job
IsAudited-append_other attempts new job other h = record {
  total = ground (arith, count_where-append (of_job job.job_id) attempts new);
  numbered = All-append _ attempts (new ∷ []) h.numbered ((λ e. cc), tt);
  open_count = ground (arith, count_where-append (is_open job.job_id) attempts new);
  latest = All-append _ attempts (new ∷ []) h.latest ((λ e. ground arith), tt);
}

-- The attempt that a lease of this job records.
pub IsAudited-lease :
    (attempts : List AttemptRow) (attempt_id worker_id : String) (expires current : Datetime)
    (job : JobRow)
    → job.state ≡ JobState.pending
    → IsAudited attempts job
    → IsAudited
        (append_row
          (new_attempt attempt_id job.job_id (job.attempt_count + 1) worker_id current)
          attempts)
        (leased (job.attempt_count + 1) worker_id expires current job)
IsAudited-lease attempts attempt_id worker_id expires current job pending h =
    let new = new_attempt attempt_id job.job_id (job.attempt_count + 1) worker_id current in
    let idle : count_where (is_open job.job_id) attempts ≡ 0 =
      ground (arith, h.open_count, pending) in
    record {
      total =
          ground (
            arith,
            h.total,
            eq_refl job.job_id,
            count_where-append (of_job job.job_id) attempts new,
          );
      numbered =
          All-append _ attempts (new ∷ [])
            (All-map _ _ attempts (λ a p e. omega (arith, p e)) h.numbered)
            ((λ e. omega arith), tt);
      open_count =
          ground
            (arith, idle, eq_refl job.job_id, count_where-append (is_open job.job_id) attempts new);
      latest =
          All-append _ attempts (new ∷ [])
            (All-shut job.job_id (job.attempt_count + 1) attempts idle) ((λ e. refl), tt);
    }

open-close :
    (id : String) (n : ℕ) (outcome : Outcome) (error_class : Option String) (current : Datetime)
    (attempts : List AttemptRow)
    → All (λ a. is_open id a ≡ true → a.attempt_number ≡ n) attempts
    → count_where
        (is_open id)
        (update (is_attempt id n) (closed outcome error_class current) attempts)
      ≡ 0
open-close id n outcome error_class current [] h = refl
open-close id n outcome error_class current (a ∷ attempts) h =
    ground (arith, open-close id n outcome error_class current attempts h.1)

open-close_other :
    (id other : String) (n : ℕ) (outcome : Outcome) (error_class : Option String)
    (current : Datetime) (attempts : List AttemptRow)
    → (other == id) ≡ false
    → count_where
        (is_open other)
        (update (is_attempt id n) (closed outcome error_class current) attempts)
      ≡ count_where (is_open other) attempts
open-close_other id other n outcome error_class current [] ne = refl
open-close_other id other n outcome error_class current (a ∷ attempts) ne = ground (
  arith,
  eq_iff a.job_id id,
  eq_iff a.job_id other,
  eq_iff other id,
  open-close_other id other n outcome error_class current attempts ne,
)

module _ (job_id : String) (n : ℕ) (outcome : Outcome) (error_class : Option String)
    (current : Datetime) (attempts : List AttemptRow) where
  abbrev after : List AttemptRow
  after = update (is_attempt job_id n) (closed outcome error_class current) attempts

  -- Closing an attempt of another job.
  pub IsAudited-close_other :
      (job : JobRow) → (job.job_id == job_id) ≡ false → IsAudited attempts job → IsAudited after job
  IsAudited-close_other job other h =
      let set = closed outcome error_class current in
      let numbered =
        λ (a : AttemptRow). of_job job.job_id a ≡ true → a.attempt_number ≤ job.attempt_count in
      let latest =
        λ (a : AttemptRow). is_open job.job_id a ≡ true → a.attempt_number ≡ job.attempt_count in
      record {
        total =
            count_where-update (is_attempt job_id n) set (of_job job.job_id) attempts (λ a. refl)
            ∙ h.total;
        numbered = All-update (is_attempt job_id n) set numbered attempts (λ a _ p. p) h.numbered;
        open_count =
            open-close_other job_id job.job_id n outcome error_class current attempts other
            ∙ h.open_count;
        latest =
            All-update (is_attempt job_id n) set latest attempts (λ a _ p. ground arith) h.latest;
      }

-- Closing the attempt of this job when its lease ends.
pub IsAudited-close :
    (outcome : Outcome) (error_class : Option String) (state : JobState) (cause : Option String)
    (current : Datetime) (attempts : List AttemptRow) (job : JobRow)
    → is_processing state ≡ false
    → IsAudited attempts job
    → IsAudited
        (after job.job_id job.attempt_count outcome error_class current attempts)
        (released state cause current job)
IsAudited-close outcome error_class state cause current attempts job ended h =
    let test = is_attempt job.job_id job.attempt_count in
    let set = closed outcome error_class current in
    let numbered =
      λ (a : AttemptRow). of_job job.job_id a ≡ true → a.attempt_number ≤ job.attempt_count in
    let none_open =
      open-close job.job_id job.attempt_count outcome error_class current attempts h.latest in
    record {
      total = count_where-update test set (of_job job.job_id) attempts (λ a. refl) ∙ h.total;
      numbered = All-update test set numbered attempts (λ a _ p. p) h.numbered;
      open_count = ground (arith, none_open, ended);
      latest = All-shut job.job_id job.attempt_count (update test set attempts) none_open;
    }

-- A job that has not been leased yet.
pub IsAudited-new :
    (attempts : List AttemptRow) (job : JobRow)
    → exists (of_job job.job_id) attempts ≡ false
    → job.attempt_count ≡ 0
    → job.state ≡ JobState.pending
    → IsAudited attempts job
IsAudited-new attempts job fresh zero_count pending = record {
  total = no_attempts attempts fresh ∙ sym zero_count;
  numbered = none_numbered attempts fresh;
  open_count = ground (arith, no_open attempts fresh, pending);
  latest = All-shut job.job_id job.attempt_count attempts (no_open attempts fresh);
}
  where
    no_attempts :
        (rows : List AttemptRow)
        → exists (of_job job.job_id) rows ≡ false
        → count_where (of_job job.job_id) rows ≡ 0
    no_attempts [] h = refl
    no_attempts (a ∷ rows) h = ground (arith, no_attempts rows)

    no_open :
        (rows : List AttemptRow)
        → exists (of_job job.job_id) rows ≡ false
        → count_where (is_open job.job_id) rows ≡ 0
    no_open [] h = refl
    no_open (a ∷ rows) h = ground (arith, no_open rows)

    none_numbered :
        (rows : List AttemptRow)
        → exists (of_job job.job_id) rows ≡ false
        → All (λ a. of_job job.job_id a ≡ true → a.attempt_number ≤ job.attempt_count) rows
    none_numbered [] h = tt
    none_numbered (a ∷ rows) h = ground (arith, none_numbered rows)
