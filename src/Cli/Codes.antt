-- ===== src/Cli/Codes.antt =====
-- The exit codes of src/cli/main.py.
use scraper_project.Base.{ℕ, String, ◌≡◌, ◌<◌, refl, Bool, true, Option}
use scraper_project.Timestamp.{Datetime}
use scraper_project.Contracts.Value.{ℤ, pos}
use scraper_project.Cli.{worker_run_synthetic, stop_point, code}
use scraper_project.Worker.{is_stop_point}
use scraper_project.Worker.Actions.{World}
use scraper_project.Worker.Environment.{Platform}
use scraper_project.Worker.Refused.{run-full}

-- `worker run-synthetic` ends with exit code 2, and changes neither the database nor the files, where
-- fewer bytes are free than `--minimum-free-bytes` asks for and the stop point is one of the choices.
pub worker_run_synthetic-full :
    (env : Platform) (requested : Bool) (run_id : String) (lease_seconds : ℤ)
    (stop_after : Option String) (current : Datetime) (w : World) (minimum : ℕ)
    → is_stop_point (stop_point requested stop_after) ≡ true
    → env.minimum_free_bytes ≡ pos minimum
    → env.free_bytes < minimum
    → worker_run_synthetic env requested run_id lease_seconds stop_after current w ≡ (code 2, w)
unfolding worker_run_synthetic
worker_run_synthetic-full env requested run_id lease_seconds stop_after current w minimum known
      required full =
    rw
      (run-full env run_id lease_seconds (stop_point requested stop_after) current w minimum known
        required full)
      refl
