-- ===== src/Cli.antt =====
-- The command handlers of src/cli/main.py, on arguments that have been parsed. What is printed is a
-- value; an exception that a handler does not catch ends the process with a traceback.
pub mod Crawl
pub mod Valid
pub mod Codes
use scraper_project.Base.{ℕ, String, Bool, Option, none, some, List, [], ◌∷◌, if◌then◌else◌}
use scraper_project.Errors.{
  Error, Result, ok, err, registry_config_error, contract_validation_error,
}
use scraper_project.Timestamp.{Datetime, Timestamp}
use scraper_project.Contracts.Value.{ℤ, Value, Fields}
use scraper_project.Contracts.Dispatch.{Contract, validate_contract_payload}
use scraper_project.Registry.{SourceRegistryConfig, SourceDefinition}
use scraper_project.Worker.{SyntheticWorkerResult, run, health}
use scraper_project.Worker.Actions.{World, Outcome, returned, raised, killed, Action}
use scraper_project.Worker.Environment.{Platform}

-- How a command ends: its output with exit code 0, an exit code with a message, an exception, or the
-- process is killed.
pub data Exit (A : Type 0) : Type 0 where
  printed : A → Exit A
  code : ℕ → Exit A
  traceback : Error → Exit A
  died : Exit A

-- The lines of `_source_list`: name, state and strategy.
abbrev source_lines : List SourceDefinition → List (String × String × String)
source_lines [] = []
source_lines (source ∷ sources) =
    (source.name, (if source.enabled then "enabled" else "disabled"), source.identity_strategy)
    ∷ source_lines sources

-- `_source_list`, on what `load_source_registry` returns or raises
unfoldable pub source_list : Result SourceRegistryConfig → Exit (List (String × String × String))
source_list (ok registry) = printed (source_lines registry.sources)
source_list (err Error.registry_config_error) = code 2
source_list (err e) = traceback e

-- What `json.load` of the input file gives: an OSError or a JSONDecodeError, or a value.
pub data Input : Type 0 where
  unreadable : Input
  loaded : Value → Input

validation_exit : Result (Contract × Bool) → String → Exit String
validation_exit (ok found) contract_name = printed contract_name
validation_exit (err Error.contract_validation_error) contract_name = code 2
validation_exit (err e) contract_name = traceback e

module _ (bad_netloc : List ℕ → Bool) (fromisoformat : String → Option Datetime) where
  -- `_contract_validate`, with both arguments given
  unfoldable pub contract_validate : String → Input → Exit String
  unfolding validation_exit
  contract_validate contract_name unreadable = code 2
  contract_validate contract_name (loaded payload) =
      validation_exit (validate_contract_payload bad_netloc fromisoformat contract_name payload)
        contract_name

-- `except (RuntimeSafetyError, ValueError)`: a ContractValidationError is a ValueError too.
abbrev health_error : {A : Type 0} → Error → Exit A
health_error Error.runtime_safety_error = code 2
health_error Error.value_error = code 2
health_error Error.contract_validation_error = code 2
health_error e = traceback e

-- `except (RuntimeSafetyError, SyntheticWorkerError, ValueError)`
abbrev worker_error : {A : Type 0} → Error → Exit A
worker_error Error.synthetic_worker_error = code 2
worker_error e = health_error e

health_exit : Outcome Fields → Exit Fields
health_exit (returned result) = printed result
health_exit (raised e) = health_error e
health_exit killed = died

run_exit : Outcome SyntheticWorkerResult → Exit SyntheticWorkerResult
run_exit (returned result) = printed result
run_exit (raised e) = worker_error e
run_exit killed = died

-- `_worker_health`
unfoldable pub worker_health : Platform → World → Exit Fields × World
unfolding health_exit
worker_health env w = let (outcome, w') = health env w in (health_exit outcome, w')

-- `stop_after`: a shutdown that was requested before the run began comes first.
abbrev stop_point : Bool → Option String → Option String
stop_point requested stop_after = if requested then some "graceful_shutdown" else stop_after

-- `_worker_run_synthetic`; `requested` is `shutdown_requested.is_set()` before the run.
unfoldable pub worker_run_synthetic :
    Platform
    → Bool
    → String
    → ℤ
    → Option String
    → Datetime
    → World
    → Exit SyntheticWorkerResult × World
unfolding run_exit
worker_run_synthetic env requested run_id lease_seconds stop_after current w =
    let (outcome, w') = run env run_id lease_seconds (stop_point requested stop_after) current w in
    (run_exit outcome, w')
