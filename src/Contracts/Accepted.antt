-- ===== src/Contracts/Accepted.antt =====
-- What the records of src/contracts/models.py satisfy once they are built.
use scraper_project.Base.{
  ℕ, String, ◌≤◌, ◌≡◌, ◌↔◌, Bool, true, false, ◌&&◌, List, [], ◌∷◌, arith, is_some, All,
}
use scraper_project.Errors.{Result, ok, ◌andthen◌}
use scraper_project.Contracts.Models.{DetailFetchJob, FetchTelemetry, DatasetBatchManifest}
use scraper_project.Contracts.Checks.{
  is_terminal_state, sum_counts, all_terminal, is_success, check_job, check_telemetry,
  check_manifest,
}
use scraper_project.Contracts.Sensitive.{CleanFields, reject_fields-exact}

andthen-ok : (a b : Result (Unit {0})) → (a andthen b ≡ ok tt) ↔ ((a ≡ ok tt) × (b ≡ ok tt))
andthen-ok a b = ground arith

-- A job that is built has its attempt number between 1 and its limit, and no sensitive key in its
-- metadata.
pub check_job-accepted :
    (bad_netloc : List ℕ → Bool) (job : DetailFetchJob)
    → check_job bad_netloc job ≡ ok tt
    → (1 ≤ job.attempt_number) × (job.attempt_number ≤ job.max_attempts) × CleanFields job.metadata
unfolding check_job
check_job-accepted bad_netloc job h = ground (arith, reject_fields-exact job.metadata)

-- Telemetry that the checks accept counts its attempts from 1, does not end before it starts, and
-- has no error class if it is a success.
pub check_telemetry-accepted :
    (t : FetchTelemetry)
    → check_telemetry t ≡ ok tt
    → (1 ≤ t.attempt_number)
      × (t.started_at ≤ t.finished_at)
      × ((is_success t.outcome && is_some t.error_class) ≡ false)
unfolding check_telemetry
check_telemetry-accepted t h = ground arith

all_terminal-All :
    (counts : List (String × ℕ))
    → all_terminal counts ≡ true
    → All (λ (c : String × ℕ). is_terminal_state c.0 ≡ true) counts
all_terminal-All [] h = tt
all_terminal-All ((state, n) ∷ counts) h = ground (arith, all_terminal-All counts)

-- A batch manifest that the checks accept counts only terminal states, and its record count is
-- the sum of those counts.
pub check_manifest-accepted :
    (m : DatasetBatchManifest)
    → check_manifest m ≡ ok tt
    → All (λ (c : String × ℕ). is_terminal_state c.0 ≡ true) m.terminal_state_counts
      × (sum_counts m.terminal_state_counts ≡ m.record_count)
unfolding check_manifest
check_manifest-accepted m h = ground (arith, all_terminal-All m.terminal_state_counts)
