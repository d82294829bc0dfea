-- ===== src/Worker/Refused.antt =====
-- Runs of src/orchestration/synthetic_worker.py that are refused before they change anything.
use scraper_project.Base.{ℕ, String, ◌≡◌, ◌<◌, true, Option, arith}
use scraper_project.Errors.{runtime_safety_error}
use scraper_project.Timestamp.{Datetime}
use scraper_project.Contracts.Value.{ℤ, pos}
use scraper_project.Runtime.{require_free_space}
use scraper_project.Worker.{run, is_stop_point}
use scraper_project.Worker.Actions.{World, raised, attempt, ◌>>=◌}
use scraper_project.Worker.Environment.{Platform}

module _ (env : Platform) (run_id : String) (lease_seconds : ℤ) (stop_after : Option String)
    (current : Datetime) (w : World) where
  -- With fewer free bytes than are required, `run` raises RuntimeSafetyError for every stop point that
  -- it knows, and the database and the files are as they were.
  pub run-full :
      (minimum : ℕ)
      → is_stop_point stop_after ≡ true
      → env.minimum_free_bytes ≡ pos minimum
      → env.free_bytes < minimum
      → run env run_id lease_seconds stop_after current w ≡ (raised runtime_safety_error, w)
  unfolding run attempt require_free_space ◌>>=◌
  run-full minimum known required full = rw known (rw required (ground (arith, full)))
