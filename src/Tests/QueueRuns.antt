-- ===== src/Tests/QueueRuns.antt =====
-- The queue's theorems at concrete databases.
use scraper_project.Base.{
  arith, String, eq_iff, ◌+◌, ◌≤◌, ◌≡◌, ◌≢◌, ◌⊎◌, refl, inl, true, false, ◌&&◌, none, some, List,
  [], ◌∷◌, map, ltb, leb, All, Among, Pointwise,
}
use scraper_project.Errors.{ok, err, queue_transition_error}
use scraper_project.Timestamp.{timestamp, after_seconds}
use scraper_project.Contracts.Value.{pos, Fields}
use scraper_project.Contracts.Models.{DetailReasonCode}
use scraper_project.Database.{Database}
use scraper_project.Database.Rows.{Outcome, JobRow, JobState}
use scraper_project.Database.Table.{append_row, select_first, exists, count_where}
use scraper_project.Queue.{
  JobLease, Recovery, register_owner, has_job_id, precedes, is_abandoned, lease_of, lease_next,
  finish, release, succeed, fail, recover_abandoned, next_job,
}
use scraper_project.Queue.Moves.{Move, IsKeyed}
use scraper_project.Queue.Lease.{with_lease}
use scraper_project.Queue.Recover.{
  recover_job, recover_abandoned-map, recover_abandoned_twice, recover_abandoned-counts,
}
use scraper_project.Queue.Audit.{of_job}
use scraper_project.Queue.Valid.{IsValid}
use scraper_project.Queue.History.{run, step, step-Moves, run-IsValid, run-attempts, run-IsFinal}
use scraper_project.Queue.Choice.{IsDue, IsNotBefore, has_attempt_id, lease_next-exact}
use scraper_project.Queue.Closing.{Ladder, Holds, finish-exact}
use scraper_project.Queue.Ownership.{finish-lease_next, lease_next_twice}
use scraper_project.Queue.Owner.{register_owner_twice}
use scraper_project.Repositories.Jobs.{create_idempotent, insert_identity}
use scraper_project.Tests.Data.{create_a, ready, two_jobs, busy_day, at}

ready-IsValid : IsValid ready
ready-IsValid = record { keyed = tt; consistent = tt; audited = tt; known = tt }

states : Database → List JobState
states db = map (λ (job : JobRow). job.state) db.detail_fetch_jobs

busy_day-states :
    states (run busy_day ready) ≡ (JobState.succeeded ∷ JobState.failed_exhausted ∷ [])
unfolding run recover_abandoned succeed finish lease_next next_job fail create_idempotent
    insert_identity timestamp precedes is_abandoned states
busy_day-states = refl

abbrev stocked : Database
stocked = run two_jobs ready

stocked-IsValid : IsValid stocked
stocked-IsValid = run-IsValid two_jobs ready ready-IsValid

-- Job `b` is the first to be leased, for its priority.
abbrev lease_b : JobLease
lease_b = record {
  job_id = "b";
  source_name = "fixture";
  source_listing_key = "listing-b";
  reason_code = DetailReasonCode.new_listing;
  attempt_number = 1;
  max_attempts = 2;
  lease_owner = "w1";
  lease_expires_at = at 70;
}

abbrev lease_a : JobLease
lease_a = record lease_b {
  job_id = "a";
  source_listing_key = "listing-a";
  max_attempts = 1;
  lease_owner = "w2";
  lease_expires_at = at 71;
}

abbrev one_leased : Database
one_leased = (lease_next "w1" (pos 60) 10000000 "attempt-1" stocked).1

abbrev both_leased : Database
both_leased = (lease_next "w2" (pos 60) 11000000 "attempt-2" one_leased).1

first_lease :
    lease_next "w1" (pos 60) 10000000 "attempt-1" stocked ≡ (ok (some lease_b), one_leased)
unfolding run recover_abandoned succeed finish lease_next next_job fail create_idempotent
    insert_identity timestamp precedes is_abandoned
first_lease = refl

second_lease :
    lease_next "w2" (pos 60) 11000000 "attempt-2" one_leased ≡ (ok (some lease_a), both_leased)
unfolding run recover_abandoned succeed finish lease_next next_job fail create_idempotent
    insert_identity timestamp precedes is_abandoned
second_lease = refl

both_leased-IsKeyed : IsKeyed both_leased.detail_fetch_jobs
unfolding run recover_abandoned succeed finish lease_next next_job fail create_idempotent
    insert_identity timestamp precedes is_abandoned
both_leased-IsKeyed = (refl, (refl, tt))

stocked-IsKeyed : IsKeyed stocked.detail_fetch_jobs
stocked-IsKeyed = stocked-IsValid.keyed

one_leased-IsKeyed : IsKeyed one_leased.detail_fetch_jobs
unfolding run recover_abandoned succeed finish lease_next next_job fail create_idempotent
    insert_identity timestamp precedes is_abandoned
one_leased-IsKeyed = (refl, (refl, tt))

no_attempt : exists (has_attempt_id "attempt-1") stocked.job_attempts ≡ false
unfolding run recover_abandoned succeed finish lease_next next_job fail create_idempotent
    insert_identity timestamp precedes is_abandoned
no_attempt = refl

others : ◌≢◌ {A = String} "w2" "w1"
others = λ e. cc ((eq_iff "w2" "w1").1 e)

run-IsValid_example : IsValid (run busy_day ready)
run-IsValid_example = run-IsValid busy_day ready ready-IsValid

step-Moves_example :
    let jobs = (step create_a ready).detail_fetch_jobs in
    Pointwise Move ready.detail_fetch_jobs jobs
    ⊎ ((job : JobRow) × (job.state ≡ JobState.pending)
        × (jobs ≡ append_row job ready.detail_fetch_jobs))
step-Moves_example = step-Moves create_a ready ready-IsValid

run-attempts_example :
    All
      (λ job.
        (count_where (of_job job.job_id) (run busy_day ready).job_attempts ≡ job.attempt_count)
        × (count_where (of_job job.job_id) (run busy_day ready).job_attempts ≤ job.max_attempts))
      (run busy_day ready).detail_fetch_jobs
run-attempts_example = run-attempts busy_day ready ready-IsValid

lease_next-exact_example :
    let now = timestamp 10000000 in
    let jobs = stocked.detail_fetch_jobs in
    let expires = after_seconds 10000000 60 in
    let returned = lease_next "w1" (pos 60) 10000000 "attempt-1" stocked in
    ((returned ≡ (ok none, stocked)) × All (λ job. ¬ IsDue now job) jobs)
    ⊎ ((row : JobRow) × Among row jobs
        × IsDue now row
        × All (λ job. (¬ IsDue now job) ⊎ IsNotBefore row job) jobs
        × (returned ≡ (
          ok (some (lease_of row (row.attempt_count + 1) "w1" expires)),
          with_lease "w1" expires 10000000 "attempt-1" row stocked,
        )))
lease_next-exact_example =
    lease_next-exact "w1" 59 10000000 "attempt-1" stocked (omega arith) stocked-IsValid no_attempt

lease_next_twice_example : ◌≢◌ {A = String} "a" "b"
lease_next_twice_example =
    lease_next_twice "w1" "w2" (pos 60) (pos 60) 10000000 11000000 "attempt-1" "attempt-2" stocked
      one_leased both_leased lease_b lease_a stocked-IsValid first_lease second_lease

finish-lease_next_example :
    ((finish "b" "w1" false (some "timeout") 12000000 one_leased).0 ≡ ok JobState.pending)
    × (finish "b" "w2" false (some "timeout") 12000000 one_leased
        ≡ (err queue_transition_error, one_leased))
finish-lease_next_example =
    finish-lease_next "w1" "w2" (pos 60) 10000000 12000000 "attempt-1" false (some "timeout")
      stocked one_leased lease_b stocked-IsValid first_lease others

finish-exact_example :
    let found = select_first (has_job_id "b") one_leased.detail_fetch_jobs in
    let returned = finish "b" "w1" true none 12000000 one_leased in
    ((row : JobRow) × (found ≡ some row)
      × Holds "w1" row
      × ((state : JobState) × (outcome : Outcome) × Ladder true row state outcome
          × (returned ≡ (
            ok state,
            release row.job_id row.attempt_count state outcome none 12000000 one_leased,
          ))))
    ⊎ ((returned ≡ (err queue_transition_error, one_leased))
        × ¬ ((row : JobRow) × (found ≡ some row) × Holds "w1" row))
finish-exact_example = finish-exact "b" "w1" true none 12000000 one_leased

abbrev done_job : JobRow
done_job = record {
  job_id = "a";
  crawl_run_id = "run";
  source_name = "fixture";
  source_listing_key = "listing-a";
  listing_url = "https://example.test/listing";
  reason_code = DetailReasonCode.new_listing;
  priority = 1;
  attempt_count = 1;
  max_attempts = 1;
  state = JobState.succeeded;
  scheduled_at = at 50;
  lease_owner = none;
  lease_expires_at = none;
  metadata_json = Fields.end;
  last_error_class = none;
  created_at = at 3;
  updated_at = at 50;
}

done_job-Among : Among done_job (run busy_day ready).detail_fetch_jobs
unfolding run recover_abandoned succeed finish lease_next next_job fail create_idempotent
    insert_identity timestamp precedes is_abandoned
done_job-Among = inl refl

run-IsFinal_example : Among done_job (run busy_day (run busy_day ready)).detail_fetch_jobs
run-IsFinal_example =
    run-IsFinal busy_day (run busy_day ready) done_job (run-IsValid busy_day ready ready-IsValid)
      (inl refl) done_job-Among

recover_abandoned-map_example :
    (recover_abandoned 200000000 both_leased).1.detail_fetch_jobs
    ≡ map (recover_job 200000000) both_leased.detail_fetch_jobs
recover_abandoned-map_example = recover_abandoned-map 200000000 both_leased both_leased-IsKeyed

recover_abandoned_twice_example :
    let db = (recover_abandoned 200000000 both_leased).1 in
    recover_abandoned 200000000 db ≡ (ok (record { recovered = 0; exhausted = 0 }), db)
recover_abandoned_twice_example = recover_abandoned_twice 200000000 both_leased both_leased-IsKeyed

recover_abandoned-counts_example :
    (counts : Recovery) × ((recover_abandoned 200000000 both_leased).0 ≡ ok counts)
    × (counts.recovered
        ≡ count_where
            (λ job.
              is_abandoned (timestamp 200000000) job && ltb job.attempt_count job.max_attempts)
            both_leased.detail_fetch_jobs)
    × (counts.exhausted
        ≡ count_where
            (λ job.
              is_abandoned (timestamp 200000000) job && leb job.max_attempts job.attempt_count)
            both_leased.detail_fetch_jobs)
recover_abandoned-counts_example = recover_abandoned-counts 200000000 both_leased

abbrev registered : Database
registered = (register_owner (at 1) ready).1

first_registration : register_owner (at 1) ready ≡ (ok tt, registered)
unfolding register_owner
first_registration = refl

register_owner_twice_example : register_owner (at 2) registered ≡ (ok tt, registered)
register_owner_twice_example =
    register_owner_twice (at 1) (at 2) ready registered first_registration
