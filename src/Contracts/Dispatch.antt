-- ===== src/Contracts/Dispatch.antt =====
-- `validate_contract_payload` of src/contracts/validation.py and CONTRACT_TYPES of
-- src/contracts/models.py.
pub mod Payloads
pub mod RoundTrip
use scraper_project.Base.{ℕ, String, Bool, Option, List, ◌==◌, if◌then◌else◌}
use scraper_project.Errors.{Error, Result, ok, err, contract_validation_error, type_error}
use scraper_project.Timestamp.{Datetime}
use scraper_project.Contracts.Value.{Value, Fields}
use scraper_project.Contracts.Models.{
  DetailFetchJob, DiscoveryObservation, RawFetchArtifact, FetchTelemetry, ParsedListingCandidate,
  DatasetBatchManifest,
}
use scraper_project.Contracts.Checks.{
  check_job, check_observation, check_artifact, check_telemetry, check_candidate, check_manifest,
}
use scraper_project.Contracts.Payload.{◌>>=◌, ◌>>◌}
use scraper_project.Contracts.Listings.{read_job, read_observation, read_artifact, read_candidate}
use scraper_project.Contracts.Totals.{read_telemetry, read_manifest}

pub data Contract : Type 0 where
  job : DetailFetchJob → Contract
  observation : DiscoveryObservation → Contract
  artifact : RawFetchArtifact → Contract
  telemetry : FetchTelemetry → Contract
  candidate : ParsedListingCandidate → Contract
  manifest : DatasetBatchManifest → Contract

-- The record that is read, once `__post_init__` has checked it.
unfoldable pub checked :
    {A : Type 0}
    → (A → Result (Unit {0}))
    → (A → Contract)
    → Result (A × Bool)
    → Result (Contract × Bool)
checked check contract_of read = do found ← read; check found.0; ok (contract_of found.0, found.1)

-- `except TypeError`
unfoldable pub shape_error : {A : Type 0} → Result A → Result A
shape_error (err Error.type_error) = err contract_validation_error
shape_error r = r

module _ (bad_netloc : List ℕ → Bool) (fromisoformat : String → Option Datetime) where
  -- `__post_init__` of the contract
  abbrev pub post_init : Contract → Result (Unit {0})
  post_init (job j) = check_job bad_netloc j
  post_init (observation o) = check_observation bad_netloc o
  post_init (artifact a) = check_artifact bad_netloc a
  post_init (telemetry t) = check_telemetry t
  post_init (candidate c) = check_candidate bad_netloc c
  post_init (manifest m) = check_manifest m

  -- `CONTRACT_TYPES.get(contract_name)`, and its `from_mapping`
  unfoldable pub from_mapping : String → Fields → Result (Contract × Bool)
  unfolding checked
  from_mapping contract_name payload =
      if contract_name == "DetailFetchJob"
      then checked (check_job bad_netloc) job (read_job bad_netloc fromisoformat payload)
      else if contract_name == "DiscoveryObservation"
      then checked (check_observation bad_netloc) observation
          (read_observation bad_netloc fromisoformat payload)
      else if contract_name == "RawFetchArtifact"
      then checked (check_artifact bad_netloc) artifact
          (read_artifact bad_netloc fromisoformat payload)
      else if contract_name == "FetchTelemetry"
      then checked check_telemetry telemetry (read_telemetry fromisoformat payload)
      else if contract_name == "ParsedListingCandidate"
      then checked (check_candidate bad_netloc) candidate
          (read_candidate bad_netloc fromisoformat payload)
      else if contract_name == "DatasetBatchManifest"
      then checked check_manifest manifest (read_manifest fromisoformat payload)
      else err contract_validation_error

  unfoldable pub validate_contract_payload : String → Value → Result (Contract × Bool)
  unfolding from_mapping shape_error
  validate_contract_payload contract_name (Value.object payload) =
      shape_error (from_mapping contract_name payload)
  validate_contract_payload contract_name _ = err contract_validation_error
