-- ===== src/Repositories/Jobs.antt =====
-- `JobRepository` of src/database/repositories.py.
pub mod Creation
pub mod Checked
pub mod Counts
use scraper_project.Base.{
  ℕ, String, Bool, true, false, not, ◌&&◌, Option, none, some, List, [], ◌∷◌, leb, nat_eq, ◌==◌,
  if◌then◌else◌,
}
use scraper_project.Errors.{Result, ok, err, assertion_error, overflow_error}
use scraper_project.Timestamp.{Timestamp, timestamp}
use scraper_project.Contracts.Models.{DetailReasonCode, same_reason, DetailFetchJob}
use scraper_project.Database.{Database}
use scraper_project.Database.Rows.{IdentityRow, JobRow, JobState}
use scraper_project.Database.Table.{select_first, exists, count_where, append_row}
use scraper_project.Database.Transaction.{
  Exec, pure, raise, gets, modify, require, guard, fits, write_transaction, read_connection, ◌>>=◌,
  ◌>>◌,
}
use scraper_project.Repositories.Crawls.{has_run_id}

-- PRIMARY KEY (source_name, source_listing_key)
abbrev pub is_identity : String → String → IdentityRow → Bool
is_identity source_name key row = row.source_name == source_name && row.source_listing_key == key

-- UNIQUE (crawl_run_id, source_name, source_listing_key, reason_code)
abbrev pub is_job : String → String → String → DetailReasonCode → JobRow → Bool
is_job run source_name key reason row =
    row.crawl_run_id == run
    && row.source_name == source_name
    && row.source_listing_key == key
    && same_reason row.reason_code reason

abbrev pub is_same_job : DetailFetchJob → JobRow → Bool
is_same_job job = is_job job.crawl_run_id job.source_name job.source_listing_key job.reason_code

abbrev pub new_identity : String → String → String → Timestamp → IdentityRow
new_identity source_name key url now = record {
  source_name = source_name;
  source_listing_key = key;
  listing_url = url;
  first_observed_at = now;
  last_observed_at = now;
}

-- INSERT INTO source_listing_identity … ON CONFLICT DO NOTHING
unfoldable pub insert_identity : IdentityRow → Database → Database
insert_identity row db =
    if exists (is_identity row.source_name row.source_listing_key) db.source_listing_identity
    then db
    else record db { source_listing_identity = append_row row db.source_listing_identity }

abbrev pub new_job : DetailFetchJob → Timestamp → Timestamp → JobRow
new_job job created updated = record {
  job_id = job.job_id;
  crawl_run_id = job.crawl_run_id;
  source_name = job.source_name;
  source_listing_key = job.source_listing_key;
  listing_url = job.listing_url;
  reason_code = job.reason_code;
  priority = job.priority;
  attempt_count = 0;
  max_attempts = job.max_attempts;
  state = JobState.pending;
  scheduled_at = timestamp job.scheduled_at;
  lease_owner = none;
  lease_expires_at = none;
  metadata_json = job.metadata;
  last_error_class = none;
  created_at = created;
  updated_at = updated;
}

-- The primary key and the foreign keys of a row that meets no conflict.
insert_new_job : JobRow → Exec (Unit {0})
insert_new_job row = do
  taken ← gets λ db. exists (λ (job : JobRow). job.job_id == row.job_id) db.detail_fetch_jobs
  require (not taken)
  run_known ← gets λ db. exists (has_run_id row.crawl_run_id) db.crawl_runs
  require run_known
  listing_known ←
      gets
        λ db. exists (is_identity row.source_name row.source_listing_key) db.source_listing_identity
  require listing_known
  modify λ db. record db { detail_fetch_jobs = append_row row db.detail_fetch_jobs }

-- INSERT INTO detail_fetch_jobs … ON CONFLICT(…) DO NOTHING. The parameters are bound first, where an
-- integer of more than 64 bits is an OverflowError; the CHECK comes next, then the
-- conflict target, then the other constraints.
insert_job : DetailFetchJob → JobRow → Exec (Unit {0})
unfolding insert_new_job
insert_job job row = do
  guard (not (fits row.priority && fits row.max_attempts)) overflow_error
  require (leb 1 row.max_attempts)
  conflict ← gets λ db. exists (is_same_job job) db.detail_fetch_jobs
  if conflict then pure tt else insert_new_job row

-- `assert existing is not None`, and its `job_id`
id_of : Option JobRow → Exec String
id_of none = raise assertion_error
id_of (some row) = pure row.job_id

-- `create_idempotent`; `created` and `updated` are the two readings of the clock.
unfoldable pub create_idempotent : DetailFetchJob → Timestamp → Timestamp → Exec String
unfolding insert_job id_of write_transaction
create_idempotent job created updated = do
  existing ← write_transaction do
    modify (
        insert_identity (
          new_identity job.source_name job.source_listing_key job.listing_url
            (timestamp job.scheduled_at)))
    insert_job job (new_job job created updated)
    gets λ db. select_first (is_same_job job) db.detail_fetch_jobs
  id_of existing

abbrev pub in_job_state : JobState → JobRow → Bool
in_job_state JobState.pending row = elim row.state [ JobState.pending ↦ true | _ ↦ false ]
in_job_state JobState.processing row = elim row.state [ JobState.processing ↦ true | _ ↦ false ]
in_job_state JobState.succeeded row = elim row.state [ JobState.succeeded ↦ true | _ ↦ false ]
in_job_state JobState.failed_exhausted row = elim row.state [
  | JobState.failed_exhausted ↦ true
  | _ ↦ false
]

-- GROUP BY state: a state with no row has no group.
count_states : List JobRow → List JobState → List (JobState × ℕ)
count_states jobs [] = []
count_states jobs (state ∷ states) =
    let rest = count_states jobs states in
    let n = count_where (in_job_state state) jobs in if nat_eq n 0 then rest else (state, n) ∷ rest

unfoldable pub status_counts : Exec (List (JobState × ℕ))
unfolding count_states read_connection
status_counts = read_connection λ db.
    count_states db.detail_fetch_jobs
      (JobState.failed_exhausted ∷ JobState.pending ∷ JobState.processing ∷ JobState.succeeded ∷ [])
