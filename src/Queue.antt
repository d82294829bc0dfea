-- ===== src/Queue.antt =====
-- src/orchestration/queue.py: the detail-fetch queue, over the tables `detail_fetch_jobs` and
-- `job_attempts`. `current` is the instant that the source takes from `now` or from the clock, and
-- `attempt_id` the text of the fresh `uuid4()`.
pub mod Order
pub mod Moves
pub mod Lease
pub mod Finish
pub mod Recover
pub mod Tables
pub mod Invariant
pub mod Audit
pub mod Kept
pub mod Valid
pub mod Creation
pub mod History
pub mod Choice
pub mod Closing
pub mod Ownership
pub mod Owner
use scraper_project.Base.{
  ℕ, zero, suc, ◌+◌, String, Bool, true, false, not, ◌&&◌, ◌||◌, Option, none, some, List, [], ◌∷◌,
  ltb, leb, nat_eq, ◌==◌, if◌then◌else◌,
}
use scraper_project.Errors.{queue_transition_error, value_error}
use scraper_project.Timestamp.{Datetime, Timestamp, timestamp, plus_seconds, text_lt, text_le}
use scraper_project.Contracts.Value.{ℤ, pos, negsuc}
use scraper_project.Contracts.Models.{DetailReasonCode}
use scraper_project.Database.{Database}
use scraper_project.Database.Rows.{JobRow, JobState, AttemptRow, Outcome, QueueOwnerRow}
use scraper_project.Database.Table.{select_first, select_all, exists, update, append_row}
use scraper_project.Database.Transaction.{
  Exec, pure, raise, gets, modify, require, lift, write_transaction, ◌>>=◌, ◌>>◌,
}

pub record JobLease : Type 0 where
  pub job_id : String
  pub source_name : String
  pub source_listing_key : String
  pub reason_code : DetailReasonCode
  pub attempt_number : ℕ
  pub max_attempts : ℕ
  pub lease_owner : String
  pub lease_expires_at : Timestamp

abbrev pub is_pending : JobState → Bool
is_pending JobState.pending = true
is_pending _ = false

abbrev pub is_processing : JobState → Bool
is_processing JobState.processing = true
is_processing _ = false

-- WHERE job_id=?
abbrev pub has_job_id : String → JobRow → Bool
has_job_id id job = job.job_id == id

-- WHERE job_id=? AND attempt_number=?
abbrev pub is_attempt : String → ℕ → AttemptRow → Bool
is_attempt id n attempt = attempt.job_id == id && nat_eq attempt.attempt_number n

-- `DetailFetchQueue.__init__`: the singleton registration of the queue owner
abbrev pub owner_name : String
owner_name = "source_neutral_orchestrator"

check_owner : Timestamp → Option QueueOwnerRow → Exec (Unit {0})
check_owner now none = do
  -- the trigger runtime_queue_owner_singleton_insert
  registered ← gets (λ db. exists (λ _. true) db.runtime_queue_owner)
  require (not registered)
  modify λ db. record db {
    runtime_queue_owner =
        append_row (record { owner_name = owner_name; registered_at = now }) db.runtime_queue_owner;
  }
check_owner now (some row) =
    if row.owner_name == owner_name then pure tt else raise queue_transition_error

unfoldable pub register_owner : Timestamp → Exec (Unit {0})
unfolding check_owner write_transaction
register_owner now = write_transaction do
  existing ← gets (λ db. select_first (λ _. true) db.runtime_queue_owner)
  check_owner now existing

-- WHERE state='pending' AND scheduled_at <= ? AND attempt_count < max_attempts
unfoldable pub is_eligible : Timestamp → JobRow → Bool
unfolding text_le
is_eligible now job =
    is_pending job.state && text_le job.scheduled_at now && ltb job.attempt_count job.max_attempts

-- ORDER BY priority DESC, scheduled_at, created_at
unfoldable pub precedes : JobRow → JobRow → Bool
precedes a b =
    if ltb b.priority a.priority
    then true
    else if ltb a.priority b.priority
    then false
    else if text_lt a.scheduled_at b.scheduled_at
    then true
    else if text_lt b.scheduled_at a.scheduled_at
    then false
    else text_lt a.created_at b.created_at

earlier : JobRow → Option JobRow → Option JobRow
earlier job none = some job
earlier job (some other) = if precedes other job then some other else some job

-- ORDER BY … LIMIT 1; of rows that tie, the first in the table
first_in_order : List JobRow → Option JobRow
unfolding earlier
first_in_order [] = none
first_in_order (job ∷ jobs) = earlier job (first_in_order jobs)

-- The row that the SELECT of `lease_next` fetches.
unfoldable pub next_job : Timestamp → List JobRow → Option JobRow
unfolding first_in_order is_eligible
next_job now jobs = first_in_order (select_all (is_eligible now) jobs)

-- INSERT INTO job_attempts, with its primary key, its UNIQUE constraint and its foreign key
unfoldable pub insert_attempt : AttemptRow → Exec (Unit {0})
insert_attempt row = do
  taken ← gets λ db. exists (λ a. a.job_attempt_id == row.job_attempt_id) db.job_attempts
  require (not taken)
  recorded ← gets λ db. exists (is_attempt row.job_id row.attempt_number) db.job_attempts
  require (not recorded)
  known ← gets λ db. exists (has_job_id row.job_id) db.detail_fetch_jobs
  require known
  modify λ db. record db { job_attempts = append_row row db.job_attempts }

-- The SET of the UPDATE in `lease_next`.
abbrev pub leased : ℕ → String → Datetime → Datetime → JobRow → JobRow
leased attempt_number worker_id expires current job = record job {
  state = JobState.processing;
  attempt_count = attempt_number;
  lease_owner = some worker_id;
  lease_expires_at = some (timestamp expires);
  updated_at = timestamp current;
}

abbrev pub new_attempt : String → String → ℕ → String → Datetime → AttemptRow
new_attempt attempt_id job_id attempt_number worker_id current = record {
  job_attempt_id = attempt_id;
  job_id = job_id;
  attempt_number = attempt_number;
  worker_id = worker_id;
  started_at = timestamp current;
  finished_at = none;
  outcome = none;
  error_class = none;
}

abbrev pub lease_of : JobRow → ℕ → String → Datetime → JobLease
lease_of row attempt_number worker_id expires = record {
  job_id = row.job_id;
  source_name = row.source_name;
  source_listing_key = row.source_listing_key;
  reason_code = row.reason_code;
  attempt_number = attempt_number;
  max_attempts = row.max_attempts;
  lease_owner = worker_id;
  lease_expires_at = timestamp expires;
}

lease_row : String → Datetime → Datetime → String → Option JobRow → Exec (Option JobLease)
unfolding insert_attempt
lease_row worker_id expires current attempt_id none = pure none
lease_row worker_id expires current attempt_id (some row) = do
  let attempt_number = row.attempt_count + 1
  modify λ db. record db {
    detail_fetch_jobs =
        update (λ job. has_job_id row.job_id job && is_pending job.state)
          (leased attempt_number worker_id expires current) db.detail_fetch_jobs;
  }
  insert_attempt (new_attempt attempt_id row.job_id attempt_number worker_id current)
  pure (some (lease_of row attempt_number worker_id expires))

-- `lease_next`; `lease_seconds < 1`, and an end of the lease that no datetime can hold, are refused
-- before the transaction.
unfoldable pub lease_next : String → ℤ → Datetime → String → Exec (Option JobLease)
unfolding lease_row write_transaction
lease_next worker_id (negsuc n) current attempt_id = raise value_error
lease_next worker_id (pos zero) current attempt_id = raise value_error
lease_next worker_id (pos (suc n)) current attempt_id = do
  expires ← lift (plus_seconds current (suc n))
  write_transaction do
    row ← gets (λ db. next_job (timestamp current) db.detail_fetch_jobs)
    lease_row worker_id expires current attempt_id row

-- The SET that `_finish` and `recover_abandoned` share.
abbrev pub released : JobState → Option String → Datetime → JobRow → JobRow
released state error_class current job = record job {
  state = state;
  lease_owner = none;
  lease_expires_at = none;
  scheduled_at = timestamp current;
  last_error_class = error_class;
  updated_at = timestamp current;
}

abbrev pub closed : Outcome → Option String → Datetime → AttemptRow → AttemptRow
closed outcome error_class current attempt = record attempt {
  finished_at = some (timestamp current);
  outcome = some outcome;
  error_class = error_class;
}

-- The two UPDATE statements: the job, and its attempt of that number.
abbrev pub release :
    String → ℕ → JobState → Outcome → Option String → Datetime → Database → Database
release job_id n state outcome error_class current db = record db {
  detail_fetch_jobs =
      update (has_job_id job_id) (released state error_class current) db.detail_fetch_jobs;
  job_attempts = update (is_attempt job_id n) (closed outcome error_class current) db.job_attempts;
}

-- The job's new state and the attempt's outcome, by the ladder of `_finish`.
unfoldable pub finish_state : Bool → JobRow → JobState × Outcome
finish_state success row =
    if success
    then (JobState.succeeded, Outcome.succeeded)
    else if leb row.max_attempts row.attempt_count
    then (JobState.failed_exhausted, Outcome.failed_exhausted)
    else (JobState.pending, Outcome.failed_retryable)

-- `row["lease_owner"] == worker_id`
abbrev pub is_owner : String → Option String → Bool
is_owner worker_id none = false
is_owner worker_id (some owner) = owner == worker_id

finish_row : String → Bool → Option String → Datetime → Option JobRow → Exec JobState
unfolding finish_state
finish_row worker_id success error_class current none = raise queue_transition_error
finish_row worker_id success error_class current (some row) =
    if not (is_processing row.state) || not (is_owner worker_id row.lease_owner)
    then raise queue_transition_error
    else do
      let (state, outcome) = finish_state success row
      modify (release row.job_id row.attempt_count state outcome error_class current)
      pure state

-- `_finish`
unfoldable pub finish : String → String → Bool → Option String → Datetime → Exec JobState
unfolding finish_row write_transaction
finish job_id worker_id success error_class current = write_transaction do
  row ← gets (λ db. select_first (has_job_id job_id) db.detail_fetch_jobs)
  finish_row worker_id success error_class current row

unfoldable pub succeed : String → String → Datetime → Exec (Unit {0})
succeed job_id worker_id current = do finish job_id worker_id true none current; pure tt

unfoldable pub fail : String → String → String → Datetime → Exec JobState
fail job_id worker_id error_class current = finish job_id worker_id false (some error_class) current

-- WHERE state='processing' AND lease_expires_at < ?; a NULL is not less.
unfoldable pub is_abandoned : Timestamp → JobRow → Bool
unfolding text_lt
is_abandoned now job =
    is_processing job.state
    && elim job.lease_expires_at [ none ↦ false | some expires ↦ text_lt expires now ]

abbrev pub recovered_state : JobRow → JobState
recovered_state row =
    if leb row.max_attempts row.attempt_count then JobState.failed_exhausted else JobState.pending

-- One round of the loop of `recover_abandoned`.
recover_row : Datetime → JobRow → Database → Database
recover_row current row =
    release row.job_id row.attempt_count (recovered_state row) Outcome.abandoned
      (some "abandoned_lease") current

pub recover_rows : Datetime → List JobRow → Database → Database
unfolding recover_row
recover_rows current [] db = db
recover_rows current (row ∷ rows) db = recover_rows current rows (recover_row current row db)

pub record Recovery : Type 0 where
  pub recovered : ℕ
  pub exhausted : ℕ

count_row : JobRow → Recovery → Recovery
count_row row counts =
    if is_pending (recovered_state row)
    then record counts { recovered = suc counts.recovered }
    else record counts { exhausted = suc counts.exhausted }

count_rows : List JobRow → Recovery
unfolding count_row
count_rows [] = record { recovered = 0; exhausted = 0 }
count_rows (row ∷ rows) = count_row row (count_rows rows)

unfoldable pub recover_abandoned : Datetime → Exec Recovery
unfolding recover_rows count_rows write_transaction
recover_abandoned current = write_transaction do
  rows ← gets λ db. select_all (is_abandoned (timestamp current)) db.detail_fetch_jobs
  modify (recover_rows current rows)
  pure (count_rows rows)
