-- ===== src/Contracts/Checks.antt =====
-- The `__post_init__` methods of src/contracts/models.py: what a record must satisfy to be built.
-- That a count is not negative, that a member is one of its enumeration and that an instant is in
-- UTC hold by the types of the fields.
use scraper_project.Base.{
  ℕ, ◌+◌, ◌^◌, String, Bool, true, false, not, ◌&&◌, ◌||◌, Option, none, some, List, [], ◌∷◌, ltb,
  leb, nat_eq, is_some, ◌==◌,
}
use scraper_project.Errors.{Result, ok, err, raise_if, contract_validation_error, ◌andthen◌}
use scraper_project.Contracts.Value.{pos, negsuc, Float}
use scraper_project.Contracts.Models.{
  DetailFetchJob, DiscoveryObservation, RawFetchArtifact, ArtifactStatus, FetchTelemetry,
  TelemetryOutcome, ParsedListingCandidate, DatasetBatchManifest,
}
use scraper_project.Contracts.Validation.{
  require_text, require_contract_version, require_http_url, require_sha256, reject_fields,
}

-- A loop of `require_text` over several fields.
unfoldable pub require_texts : List String → Result (Unit {0})
require_texts [] = ok tt
require_texts (value ∷ values) = require_text value andthen require_texts values

-- An HTTP status code or null
abbrev pub bad_status : Option ℕ → Bool
bad_status none = false
bad_status (some status) = not (leb 100 status && leb status 599)

-- What a successful artifact requires.
success_artifact : Option String → Option String → Result (Unit {0})
success_artifact none content_hash = err contract_validation_error
success_artifact (some path) none = err contract_validation_error
success_artifact (some path) (some content_hash) =
    require_text path andthen require_sha256 content_hash

check_status : RawFetchArtifact → ArtifactStatus → Result (Unit {0})
unfolding success_artifact
check_status artifact ArtifactStatus.success =
    success_artifact artifact.snapshot_path artifact.content_hash
check_status artifact _ = ok tt

abbrev pub is_success : TelemetryOutcome → Bool
is_success TelemetryOutcome.success = true
is_success _ = false

-- `0 <= confidence <= 1`
abbrev pub in_unit : Float → Bool
in_unit (Float.finite (pos m) k) = leb m (2 ^ k)
in_unit (Float.finite (negsuc m) k) = false
in_unit Float.infinity = false
in_unit Float.minus_infinity = false
in_unit Float.nan = false

unfoldable pub check_confidence : List (String × Float) → Result (Unit {0})
check_confidence [] = ok tt
check_confidence ((name, confidence) ∷ rest) =
    require_text name
    andthen raise_if (not (in_unit confidence)) contract_validation_error
    andthen check_confidence rest

abbrev pub is_terminal_state : String → Bool
is_terminal_state state =
    state == "detail_success"
    || state == "list_only_accepted"
    || state == "excluded_with_reason"
    || state == "failed_classified"
    || state == "manual_review"

abbrev pub all_terminal : List (String × ℕ) → Bool
all_terminal [] = true
all_terminal ((state, n) ∷ counts) = is_terminal_state state && all_terminal counts

abbrev pub sum_counts : List (String × ℕ) → ℕ
sum_counts [] = 0
sum_counts ((state, n) ∷ counts) = n + sum_counts counts

unfoldable pub check_telemetry : FetchTelemetry → Result (Unit {0})
check_telemetry t =
    require_contract_version t.contract_version
    andthen require_text t.job_id
    andthen require_text t.source_name
    andthen raise_if (ltb t.attempt_number 1) contract_validation_error
    andthen raise_if (ltb t.finished_at t.started_at) contract_validation_error
    andthen require_text t.proxy_pool_label
    andthen raise_if (is_success t.outcome && is_some t.error_class) contract_validation_error

unfoldable pub check_manifest : DatasetBatchManifest → Result (Unit {0})
check_manifest m =
    require_contract_version m.contract_version
    andthen require_texts
        (m.batch_id ∷ m.batch_version ∷ m.source_name ∷ m.snapshot_date ∷ m.records_path ∷ [])
    andthen require_sha256 m.records_checksum
    andthen require_sha256 m.manifest_checksum
    andthen raise_if (not (all_terminal m.terminal_state_counts)) contract_validation_error
    andthen raise_if (not (nat_eq (sum_counts m.terminal_state_counts) m.record_count))
        contract_validation_error

module _ (bad_netloc : List ℕ → Bool) where
  unfoldable pub require_source_identity : String → String → String → Result (Unit {0})
  require_source_identity source_name source_listing_key listing_url =
      require_text source_name
      andthen require_text source_listing_key
      andthen require_http_url bad_netloc listing_url

  unfoldable pub check_job : DetailFetchJob → Result (Unit {0})
  check_job job =
      require_contract_version job.contract_version
      andthen require_texts (job.job_id ∷ job.crawl_run_id ∷ [])
      andthen require_source_identity job.source_name job.source_listing_key job.listing_url
      andthen raise_if (ltb job.attempt_number 1 || ltb job.max_attempts job.attempt_number)
          contract_validation_error
      andthen reject_fields job.metadata

  unfoldable pub check_observation : DiscoveryObservation → Result (Unit {0})
  check_observation o =
      require_contract_version o.contract_version
      andthen require_text o.crawl_run_id
      andthen require_source_identity o.source_name o.source_listing_key o.listing_url
      andthen require_text o.discovery_partition
      andthen reject_fields o.visible_specs

  unfoldable pub check_artifact : RawFetchArtifact → Result (Unit {0})
  unfolding check_status
  check_artifact a =
      require_contract_version a.contract_version
      andthen require_texts
          (a.artifact_id ∷ a.job_id ∷ a.crawl_run_id ∷ a.fetch_method ∷ a.acquisition_version ∷ [])
      andthen require_source_identity a.source_name a.source_listing_key a.listing_url
      andthen raise_if (bad_status a.response_status) contract_validation_error
      andthen check_status a a.artifact_status

  unfoldable pub check_candidate : ParsedListingCandidate → Result (Unit {0})
  check_candidate c =
      require_contract_version c.contract_version
      andthen require_texts (c.candidate_id ∷ c.artifact_id ∷ c.parser_name ∷ c.parser_version ∷ [])
      andthen require_source_identity c.source_name c.source_listing_key c.listing_url
      andthen check_confidence c.field_confidence
      andthen reject_fields c.raw_fields
      andthen reject_fields c.field_evidence
