-- ===== src/Cli/Valid.antt =====
-- `_runtime_fixture_crawl` of src/cli/main.py and the invariant of the queue.
use scraper_project.Base.{refl, String, ℕ, Bool, List}
use scraper_project.Queue.Valid.{IsValid}
use scraper_project.Cli.Crawl.{Draws, fixture_crawl}
use scraper_project.Worker.Actions.{World}
use scraper_project.Worker.Keeps.{Keeps, Keeps-world}
use scraper_project.Worker.Calls.{Call, perform, Keeps-call, Keeps-save}
use scraper_project.Worker.Kept.{Keeps-pure, Keeps-attempt, Keeps-bind}
use scraper_project.Worker.Queueing.{IsValid-IsKept}

-- The invariant does not depend on a digest.
abbrev no_digest : List ℕ → String
no_digest bytes = ""

fixture_crawl-Keeps :
    (bad_netloc : List ℕ → Bool) (draws : Draws)
    → Keeps (λ w. IsValid w.database) (fixture_crawl bad_netloc draws)
unfolding fixture_crawl perform
fixture_crawl-Keeps bad_netloc draws =
    let kept = IsValid-IsKept no_digest draws.crawl_run_id draws.partition_id in
    Keeps-bind _ _ (Keeps-call kept _ (Call.upsert_source _ _ _ _ _) λ db. refl) λ _.
      Keeps-bind _ _ (Keeps-call kept _ (Call.create_run _ _ _ _) λ db. refl) λ _.
        Keeps-bind _ _ (Keeps-call kept _ (Call.start_run _ _) λ db. refl) λ _.
          Keeps-bind _ _ (Keeps-call kept _ (Call.create_partition _ _ _ _ _ _) λ db. refl) λ _.
            Keeps-bind _ _ (Keeps-attempt _) λ _.
              Keeps-bind _ _ (Keeps-call kept _ (Call.append_observation _ _ _) λ db. refl) λ _.
                Keeps-bind _ _ (Keeps-attempt _) λ _.
                  Keeps-bind _ _ (Keeps-call kept _ (Call.create_job _ _ _) λ db. refl)
                    λ job_id. Keeps-bind _ _ (Keeps-save kept _ _ tt) λ _. Keeps-pure _

-- From a valid database, `runtime fixture-crawl` leaves a valid database, whether it ends with its
-- output, with an exception after any of its transactions, or is killed before one of them.
pub fixture_crawl-IsValid :
    (bad_netloc : List ℕ → Bool) (draws : Draws) (w : World)
    → IsValid w.database
    → IsValid (fixture_crawl bad_netloc draws w).1.database
fixture_crawl-IsValid bad_netloc draws w v =
    Keeps-world _ (fixture_crawl-Keeps bad_netloc draws) w v
