-- ===== src/Repositories/Jobs/Counts.antt =====
-- `JobRepository.status_counts` of src/database/repositories.py: the groups of GROUP BY state.
use scraper_project.Base.{
  ℕ, ◌+◌, ◌≡◌, refl, Bool, true, false, List, [], ◌∷◌, arith, if◌then◌else◌, length,
}
use scraper_project.Errors.{ok}
use scraper_project.Database.{Database}
use scraper_project.Database.Rows.{JobRow, JobState}
use scraper_project.Database.Table.{count_where}
use scraper_project.Repositories.Jobs.{in_job_state, count_states, status_counts}

abbrev pub same_state : JobState → JobState → Bool
same_state JobState.pending JobState.pending = true
same_state JobState.processing JobState.processing = true
same_state JobState.succeeded JobState.succeeded = true
same_state JobState.failed_exhausted JobState.failed_exhausted = true
same_state _ _ = false

-- What the mapping holds for a state, 0 where it has no such key.
abbrev pub count_of : JobState → List (JobState × ℕ) → ℕ
count_of state [] = 0
count_of state ((other, n) ∷ counts) = if same_state other state then n else count_of state counts

abbrev pub sum_of : List (JobState × ℕ) → ℕ
sum_of [] = 0
sum_of ((state, n) ∷ counts) = n + sum_of counts

states-length :
    (jobs : List JobRow)
    → count_where (in_job_state JobState.failed_exhausted) jobs
        + (count_where (in_job_state JobState.pending) jobs
            + (count_where (in_job_state JobState.processing) jobs
                + count_where (in_job_state JobState.succeeded) jobs))
      ≡ length jobs
states-length [] = refl
states-length (job ∷ jobs) = ground (arith, states-length jobs)

-- `status_counts` never raises. It holds for each state the number of jobs in that state, and the
-- numbers add up to the number of jobs.
pub status_counts-exact :
    (db : Database)
    → (counts : List (JobState × ℕ)) × (status_counts db ≡ (ok counts, db))
      × ((state : JobState)
          → count_of state counts ≡ count_where (in_job_state state) db.detail_fetch_jobs)
      × (sum_of counts ≡ length db.detail_fetch_jobs)
unfolding status_counts count_states
status_counts-exact db =
    (_, refl, (λ state. ground arith), ground (arith, states-length db.detail_fetch_jobs))
