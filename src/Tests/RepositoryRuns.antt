-- ===== src/Tests/RepositoryRuns.antt =====
-- The theorems on the repositories and on stored timestamps at concrete databases.
use scraper_project.Base.{
  ℕ, String, ◌+◌, ◌<◌, ◌≤◌, ◌≡◌, ◌⊎◌, refl, true, false, none, some, List, [], ◌∷◌, arith, length,
}
use scraper_project.Errors.{ok, err, repository_state_error}
use scraper_project.Timestamp.{Timestamp, second, timestamp, text_lt}
use scraper_project.Timestamp.Order.{text_lt_within, text_lt_fraction}
use scraper_project.Database.{Database}
use scraper_project.Database.Rows.{LedgerRow, JobState, RunState, RunRow, ParserRunState}
use scraper_project.Database.Table.{select_first, count_where, append_row}
use scraper_project.Database.Transaction.{largest_integer}
use scraper_project.Repositories.Crawls
use scraper_project.Repositories.Crawls.Lifecycle.{Shows, run_lifecycle, transition_run-exact}
use scraper_project.Repositories.Observations
use scraper_project.Repositories.Observations.Append.{observed, append-accepted}
use scraper_project.Repositories.Jobs.{
  create_idempotent, insert_identity, in_job_state, status_counts, is_identity,
}
use scraper_project.Repositories.Jobs.Creation.{create_idempotent_twice}
use scraper_project.Repositories.Jobs.Counts.{count_of, sum_of, status_counts-exact}
use scraper_project.Repositories.Checkpoints
use scraper_project.Repositories.Checkpoints.RoundTrip.{load-save}
use scraper_project.Repositories.Snapshots
use scraper_project.Repositories.Snapshots.RoundTrip.{get-record_artifact}
use scraper_project.Repositories.ParserRuns
use scraper_project.Repositories.ParserRuns.Lifecycle.{transition-exact}
use scraper_project.Repositories.ProxyUsage
use scraper_project.Repositories.DatasetBatches
use scraper_project.Repositories.ProxyUsage.Totals.{ledger_sum, group_sum, totals-sums}
use scraper_project.Tests.Data.{at, ready, job_of, seen, fetched}

abbrev with_job : Database
with_job = (create_idempotent (job_of "a" "listing-a" 1 1) (at 3) (at 3) ready).1

created_job :
    create_idempotent (job_of "a" "listing-a" 1 1) (at 3) (at 3) ready ≡ (ok "a", with_job)
unfolding create_idempotent insert_identity timestamp
created_job = refl

create_idempotent_twice_example :
    create_idempotent (job_of "other" "listing-a" 9 4) (at 8) (at 9) with_job ≡ (ok "a", with_job)
create_idempotent_twice_example =
    create_idempotent_twice (job_of "a" "listing-a" 1 1) (job_of "other" "listing-a" 9 4) (at 3)
      (at 3) (at 8) (at 9) ready with_job "a" created_job refl refl refl refl (ground arith)
      (omega arith) (omega arith)

abbrev the_run : RunRow
the_run = record {
  crawl_run_id = "run";
  source_name = "fixture";
  run_kind = "fixture";
  state = RunState.created;
  started_at = none;
  finished_at = none;
  created_at = at 2;
}

the_run-Shows : Shows ready "run" the_run
the_run-Shows = record { keyed = (refl, tt); found = refl }

run_lifecycle_example :
    let db = (Crawls.complete "run" (at 9) (Crawls.start "run" (at 8) ready).1).1 in
    ((Crawls.get_run "run" db).0
      ≡ ok (
          some (record the_run {
            state = RunState.completed;
            started_at = some (at 8);
            finished_at = some (at 9);
          })))
    × ((later : Timestamp)
        → (Crawls.start "run" later db ≡ (err repository_state_error, db))
          × (Crawls.complete "run" later db ≡ (err repository_state_error, db))
          × (Crawls.fail "run" later db ≡ (err repository_state_error, db)))
run_lifecycle_example = run_lifecycle "run" (at 8) (at 9) ready the_run the_run-Shows refl

transition_run-exact_example :
    Crawls.transition_run "run" RunState.running RunState.failed false true (at 9) ready
    ≡ (err repository_state_error, ready)
transition_run-exact_example =
    transition_run-exact "run" RunState.running RunState.failed false true (at 9) ready (refl, tt)

abbrev parsing : Database
parsing = record ready {
  parser_runs =
      record {
        parser_run_id = "parse";
        artifact_id = "artifact";
        parser_name = "fixture";
        parser_version = "1";
        started_at = at 7;
        finished_at = none;
        state = ParserRunState.running;
        failure_reason = none;
      }
      ∷ [];
}

transition-exact_example :
    ParserRuns.transition "parse" ParserRunState.failed (some "no title") (at 8) parsing ≡ (
      ok tt,
      record parsing {
        parser_runs =
            record {
              parser_run_id = "parse";
              artifact_id = "artifact";
              parser_name = "fixture";
              parser_version = "1";
              started_at = at 7;
              finished_at = some (at 8);
              state = ParserRunState.failed;
              failure_reason = some "no title";
            }
            ∷ [];
      },
    )
transition-exact_example =
    transition-exact "parse" ParserRunState.failed (some "no title") (at 8) parsing (refl, tt)

abbrev saved : Database
saved = (Checkpoints.save "run" "page" "cursor-7" (at 9) ready).1

saved_checkpoint : Checkpoints.save "run" "page" "cursor-7" (at 9) ready ≡ (ok tt, saved)
unfolding Checkpoints.save
saved_checkpoint = refl

load-save_example : (Checkpoints.load "run" "page" saved).0 ≡ ok (some "cursor-7")
load-save_example =
    load-save "run" "page" "cursor-7" (at 9) ready saved saved_checkpoint "run" "page"

abbrev recorded : Database
recorded = (Snapshots.record_artifact fetched with_job).1

recorded_artifact : Snapshots.record_artifact fetched with_job ≡ (ok tt, recorded)
unfolding Snapshots.record_artifact create_idempotent insert_identity timestamp
recorded_artifact = refl

get-record_artifact_example :
    (Snapshots.get "artifact" recorded).0 ≡ ok (some (Snapshots.new_snapshot fetched))
get-record_artifact_example =
    get-record_artifact fetched with_job recorded recorded_artifact "artifact"

abbrev noted : Database
noted = (Observations.append seen none "observation-1" ready).1

noted_observation :
    Observations.append seen none "observation-1" ready ≡ (ok "observation-1", noted)
unfolding Observations.append timestamp
noted_observation = refl

append-accepted_example :
    ◌≡◌ {A = String} "observation-1" "observation-1"
    × (noted.discovery_observations
        ≡ append_row
            (Observations.new_observation seen "observation-1")
            ready.discovery_observations)
    × (select_first (is_identity "fixture" "listing-a") noted.source_listing_identity
        ≡ some (
            observed seen
              (select_first (is_identity "fixture" "listing-a") ready.source_listing_identity)))
    × (noted.detail_fetch_jobs ≡ ready.detail_fetch_jobs)
append-accepted_example =
    append-accepted seen none "observation-1" "observation-1" ready noted noted_observation

abbrev entry : String → String → ℕ → ℕ → LedgerRow
entry id label sent received = record {
  ledger_id = id;
  crawl_run_id = "run";
  job_id = none;
  source_name = "fixture";
  proxy_pool_label = label;
  recorded_at = at 5;
  bytes_sent = sent;
  bytes_received = received;
}

-- Two entries of one pool, around one of another.
abbrev metered : Database
metered = record ready {
  proxy_usage_ledger = entry "1" "p" 10 1 ∷ entry "2" "q" 20 2 ∷ entry "3" "p" 30 3 ∷ [];
}

metered-totals :
    (ProxyUsage.totals metered).0
    ≡ ok (
        record {
          source_name = "fixture";
          proxy_pool_label = "p";
          bytes_sent = 40;
          bytes_received = 4;
        }
        ∷ record {
          source_name = "fixture";
          proxy_pool_label = "q";
          bytes_sent = 20;
          bytes_received = 2;
        }
        ∷ [])
unfolding ProxyUsage.totals
metered-totals = refl

metered_fits :
    (source label : String)
    → (ledger_sum (λ r. r.bytes_sent) source label metered.proxy_usage_ledger ≤ largest_integer)
      × (ledger_sum (λ r. r.bytes_received) source label metered.proxy_usage_ledger
          ≤ largest_integer)
metered_fits source label = ground arith

totals-sums_example :
    (groups : List ProxyUsage.Total) × (ProxyUsage.totals metered ≡ (ok groups, metered))
    × ((source label : String)
        → (group_sum (λ t. t.bytes_sent) source label groups
            ≡ ledger_sum (λ r. r.bytes_sent) source label metered.proxy_usage_ledger)
          × (group_sum (λ t. t.bytes_received) source label groups
              ≡ ledger_sum (λ r. r.bytes_received) source label metered.proxy_usage_ledger))
totals-sums_example = totals-sums metered metered_fits

status_counts-exact_example :
    (counts : List (JobState × ℕ)) × (status_counts with_job ≡ (ok counts, with_job))
    × ((state : JobState)
        → count_of state counts ≡ count_where (in_job_state state) with_job.detail_fetch_jobs)
    × (sum_of counts ≡ length with_job.detail_fetch_jobs)
status_counts-exact_example = status_counts-exact with_job

text_lt_within_example :
    ((text_lt (timestamp 3500000) (timestamp 4600000) ≡ true) ⊎ (4600000 < 3500000 + second))
    × ((text_lt (timestamp 3500000) (timestamp 4600000) ≡ false) ⊎ (3500000 < 4600000 + second))
text_lt_within_example = text_lt_within 3500000 4600000

-- A job scheduled for 3.0 s is not due at 3.5 s.
text_lt_fraction_example :
    (text_lt (timestamp 3500000) (timestamp 3000000) ≡ true)
    × (text_lt (timestamp 3000000) (timestamp 3500000) ≡ false)
text_lt_fraction_example = text_lt_fraction 3000000 3500000 refl (ground arith) (ground arith)
