-- ===== src/Contracts/Dispatch/RoundTrip.antt =====
-- `validate_contract_payload` of src/contracts/validation.py, and the six `from_mapping` methods,
-- on the payloads of contracts that their checks accept.
use scraper_project.Base.{
  ℕ, String, ◌≡◌, refl, true, Bool, Option, none, some, List, [], ◌∷◌, arith, All,
}
use scraper_project.Errors.{Result, ok}
use scraper_project.Timestamp.{Datetime, timestamp}
use scraper_project.Timestamp.Iso.{isoformat}
use scraper_project.Contracts.Value.{Float, Value}
use scraper_project.Contracts.Models.{
  DetailReasonCode, reason_value, ArtifactStatus, TelemetryOutcome, ParseStatus, DetailFetchJob,
  DiscoveryObservation, RawFetchArtifact, FetchTelemetry, ParsedListingCandidate,
  DatasetBatchManifest,
}
use scraper_project.Contracts.Checks.{
  require_texts, check_job, check_observation, check_artifact, check_telemetry, check_candidate,
  check_manifest,
}
use scraper_project.Contracts.Payload.{parse_utc_timestamp, counts_in, of_counts, of_texts}
use scraper_project.Contracts.Readers.{
  arguments, loose_text, loose_tuple, mapping_of, metadata_of, status_of, parse_reason,
  parse_artifact_status, parse_outcome, parse_parse_status, confidence_of,
}
use scraper_project.Contracts.Listings.{
  leading, read_job, read_observation, read_artifact, read_candidate,
}
use scraper_project.Contracts.Totals.{read_telemetry, read_manifest}
use scraper_project.Contracts.Dispatch.{
  Contract, checked, shape_error, post_init, from_mapping, validate_contract_payload,
}
use scraper_project.Contracts.Dispatch.Payloads

loose_text-nullable : (t : Option String) → loose_text (some (Payloads.nullable t)) ≡ (t, true)
unfolding loose_text
loose_text-nullable none = refl
loose_text-nullable (some text) = refl

status_of-value : (n : Option ℕ) → status_of (some (Payloads.status_value n)) ≡ ok n
unfolding status_of
status_of-value none = refl
status_of-value (some n) = refl

parse_reason-value :
    (r : DetailReasonCode) → parse_reason (some (Value.str (reason_value r))) ≡ ok r
unfolding parse_reason
parse_reason-value DetailReasonCode.new_listing = refl
parse_reason-value DetailReasonCode.no_detail_snapshot = refl
parse_reason-value DetailReasonCode.price_change_requires_detail = refl
parse_reason-value DetailReasonCode.card_fingerprint_changed = refl
parse_reason-value DetailReasonCode.high_priority_listing = refl
parse_reason-value DetailReasonCode.critical_fields_missing = refl
parse_reason-value DetailReasonCode.stale_detail_refresh = refl
parse_reason-value DetailReasonCode.parser_version_recheck = refl
parse_reason-value DetailReasonCode.missing_listing_verification = refl
parse_reason-value DetailReasonCode.manual_reprocess_request = refl

parse_artifact_status-text :
    (a : ArtifactStatus)
    → parse_artifact_status (some (Value.str (Payloads.artifact_text a))) ≡ ok a
unfolding parse_artifact_status
parse_artifact_status-text ArtifactStatus.success = refl
parse_artifact_status-text ArtifactStatus.failed = refl
parse_artifact_status-text ArtifactStatus.not_modified = refl

parse_outcome-text :
    (o : TelemetryOutcome) → parse_outcome (some (Value.str (Payloads.outcome_text o))) ≡ ok o
unfolding parse_outcome
parse_outcome-text TelemetryOutcome.success = refl
parse_outcome-text TelemetryOutcome.failed = refl
parse_outcome-text TelemetryOutcome.skipped = refl

parse_parse_status-text :
    (p : ParseStatus) → parse_parse_status (some (Value.str (Payloads.parse_text p))) ≡ ok p
unfolding parse_parse_status
parse_parse_status-text ParseStatus.success = refl
parse_parse_status-text ParseStatus.partial = refl
parse_parse_status-text ParseStatus.failed = refl

confidence_of-of_confidence :
    (cs : List (String × Float)) → confidence_of (Payloads.of_confidence cs) ≡ ok cs
unfolding confidence_of
confidence_of-of_confidence [] = refl
confidence_of-of_confidence ((field, x) ∷ cs) = ground (arith, confidence_of-of_confidence cs)

loose_tuple-of_texts :
    (texts : List String) → loose_tuple (some (Value.array (of_texts texts))) ≡ ok (texts, true)
unfolding loose_tuple
loose_tuple-of_texts [] = refl
loose_tuple-of_texts (text ∷ texts) = ground (arith, loose_tuple-of_texts texts)

counts_in-of_counts : (counts : List (String × ℕ)) → counts_in (of_counts counts) ≡ ok counts
counts_in-of_counts [] = refl
counts_in-of_counts ((state, n) ∷ counts) = ground (arith, counts_in-of_counts counts)

module _ (bad_netloc : List ℕ → Bool) (fromisoformat : String → Option Datetime) where
  parse_utc_timestamp-instant :
      (t : Datetime)
      → fromisoformat (isoformat (timestamp t)) ≡ some t
      → parse_utc_timestamp fromisoformat (some (Payloads.instant t)) ≡ ok t
  unfolding parse_utc_timestamp
  parse_utc_timestamp-instant t read = ground (arith, read)

  read_job-payload :
      (j : DetailFetchJob)
      → leading bad_netloc fromisoformat j.contract_version
          (j.job_id ∷ j.crawl_run_id ∷ [])
          j.source_name
          j.source_listing_key
          j.listing_url
        ≡ ok tt
      → fromisoformat (isoformat (timestamp j.scheduled_at)) ≡ some j.scheduled_at
      → read_job bad_netloc fromisoformat (Payloads.job_payload j) ≡ ok (j, true)
  unfolding read_job arguments metadata_of
  read_job-payload j led read =
      rw (parse_utc_timestamp-instant j.scheduled_at read, parse_reason-value j.reason_code, led)
        refl

  read_observation-payload :
      (o : DiscoveryObservation)
      → leading bad_netloc fromisoformat o.contract_version
          (o.crawl_run_id ∷ [])
          o.source_name
          o.source_listing_key
          o.listing_url
        ≡ ok tt
      → fromisoformat (isoformat (timestamp o.observed_at)) ≡ some o.observed_at
      → read_observation bad_netloc fromisoformat (Payloads.observation_payload o) ≡ ok (o, true)
  unfolding read_observation arguments mapping_of
  read_observation-payload o led read =
      rw
        (
          parse_utc_timestamp-instant o.observed_at read,
          loose_text-nullable o.visible_title,
          loose_text-nullable o.visible_price_text,
          loose_text-nullable o.visible_currency,
          loose_text-nullable o.visible_status,
          loose_text-nullable o.card_fingerprint,
          led,
        )
        refl

  read_artifact-payload :
      (a : RawFetchArtifact)
      → leading bad_netloc fromisoformat a.contract_version
          (a.artifact_id ∷ a.job_id ∷ a.crawl_run_id ∷ a.fetch_method ∷ a.acquisition_version ∷ [])
          a.source_name
          a.source_listing_key
          a.listing_url
        ≡ ok tt
      → fromisoformat (isoformat (timestamp a.fetched_at)) ≡ some a.fetched_at
      → read_artifact bad_netloc fromisoformat (Payloads.artifact_payload a) ≡ ok (a, true)
  unfolding read_artifact arguments
  read_artifact-payload a led read =
      rw
        (
          parse_utc_timestamp-instant a.fetched_at read,
          parse_artifact_status-text a.artifact_status,
          status_of-value a.response_status,
          loose_text-nullable a.snapshot_path,
          loose_text-nullable a.content_hash,
          loose_text-nullable a.mime_type,
          led,
        )
        refl

  read_candidate-payload :
      (c : ParsedListingCandidate)
      → leading bad_netloc fromisoformat c.contract_version
          (c.candidate_id ∷ c.artifact_id ∷ c.parser_name ∷ c.parser_version ∷ [])
          c.source_name
          c.source_listing_key
          c.listing_url
        ≡ ok tt
      → fromisoformat (isoformat (timestamp c.parsed_at)) ≡ some c.parsed_at
      → read_candidate bad_netloc fromisoformat (Payloads.candidate_payload c) ≡ ok (c, true)
  unfolding read_candidate arguments mapping_of
  read_candidate-payload c led read = ground (
    arith,
    parse_utc_timestamp-instant c.parsed_at read,
    parse_parse_status-text c.parse_status,
    loose_tuple-of_texts c.warnings,
    loose_tuple-of_texts c.failure_reasons,
    confidence_of-of_confidence c.field_confidence,
    led,
  )

  read_telemetry-payload :
      (t : FetchTelemetry)
      → fromisoformat (isoformat (timestamp t.started_at)) ≡ some t.started_at
      → fromisoformat (isoformat (timestamp t.finished_at)) ≡ some t.finished_at
      → read_telemetry fromisoformat (Payloads.telemetry_payload t) ≡ ok (t, true)
  unfolding read_telemetry arguments
  read_telemetry-payload t started finished =
      rw
        (
          parse_utc_timestamp-instant t.started_at started,
          parse_utc_timestamp-instant t.finished_at finished,
          parse_outcome-text t.outcome,
          loose_text-nullable t.error_class,
        )
        refl

  read_manifest-payload :
      (m : DatasetBatchManifest)
      → fromisoformat (isoformat (timestamp m.created_at)) ≡ some m.created_at
      → read_manifest fromisoformat (Payloads.manifest_payload m) ≡ ok (m, true)
  unfolding read_manifest arguments
  read_manifest-payload m read = ground (
    arith,
    parse_utc_timestamp-instant m.created_at read,
    loose_tuple-of_texts m.acquisition_versions,
    loose_tuple-of_texts m.parser_versions,
    loose_tuple-of_texts m.known_limitations,
    counts_in-of_counts m.terminal_state_counts,
  )

  job-leading :
      (j : DetailFetchJob)
      → check_job bad_netloc j ≡ ok tt
      → leading bad_netloc fromisoformat j.contract_version
          (j.job_id ∷ j.crawl_run_id ∷ [])
          j.source_name
          j.source_listing_key
          j.listing_url
        ≡ ok tt
  unfolding check_job leading
  job-leading j passed = ground (arith, passed)

  observation-leading :
      (o : DiscoveryObservation)
      → check_observation bad_netloc o ≡ ok tt
      → leading bad_netloc fromisoformat o.contract_version
          (o.crawl_run_id ∷ [])
          o.source_name
          o.source_listing_key
          o.listing_url
        ≡ ok tt
  unfolding check_observation leading require_texts
  observation-leading o passed = ground (arith, passed)

  artifact-leading :
      (a : RawFetchArtifact)
      → check_artifact bad_netloc a ≡ ok tt
      → leading bad_netloc fromisoformat a.contract_version
          (a.artifact_id ∷ a.job_id ∷ a.crawl_run_id ∷ a.fetch_method ∷ a.acquisition_version ∷ [])
          a.source_name
          a.source_listing_key
          a.listing_url
        ≡ ok tt
  unfolding check_artifact leading
  artifact-leading a passed = ground (arith, passed)

  candidate-leading :
      (c : ParsedListingCandidate)
      → check_candidate bad_netloc c ≡ ok tt
      → leading bad_netloc fromisoformat c.contract_version
          (c.candidate_id ∷ c.artifact_id ∷ c.parser_name ∷ c.parser_version ∷ [])
          c.source_name
          c.source_listing_key
          c.listing_url
        ≡ ok tt
  unfolding check_candidate leading
  candidate-leading c passed = ground (arith, passed)

  checked-read :
      {A : Type 0} (check : A → Result (Unit {0})) (contract_of : A → Contract) (a : A)
      (read : Result (A × Bool))
      → read ≡ ok (a, true)
      → check a ≡ ok tt
      → shape_error (checked check contract_of read) ≡ ok (contract_of a, true)
  unfolding checked shape_error
  checked-read check contract_of a read e passed = rw e (rw passed refl)

  -- Every contract that its checks accept is read back from its payload under the name of its
  -- class: the same class, each field from the entry of its name, and every field with a value of
  -- its annotation, if `fromisoformat` reads the texts of its instants as those instants.
  pub validate_contract_payload-payload_of :
      (contract : Contract)
      → post_init bad_netloc fromisoformat contract ≡ ok tt
      → All (λ t. fromisoformat (isoformat (timestamp t)) ≡ some t) (Payloads.instants contract)
      → validate_contract_payload bad_netloc fromisoformat
          (Payloads.name_of contract)
          (Value.object (Payloads.payload_of contract))
        ≡ ok (contract, true)
  unfolding validate_contract_payload from_mapping
  validate_contract_payload-payload_of (Contract.job j) passed read =
      checked-read (check_job bad_netloc) Contract.job j _
        (read_job-payload j (job-leading j passed) read.0) passed
  validate_contract_payload-payload_of (Contract.observation o) passed read =
      checked-read (check_observation bad_netloc) Contract.observation o _
        (read_observation-payload o (observation-leading o passed) read.0) passed
  validate_contract_payload-payload_of (Contract.artifact a) passed read =
      checked-read (check_artifact bad_netloc) Contract.artifact a _
        (read_artifact-payload a (artifact-leading a passed) read.0) passed
  validate_contract_payload-payload_of (Contract.telemetry t) passed read =
      checked-read check_telemetry Contract.telemetry t _ (read_telemetry-payload t read.0 read.1.0)
        passed
  validate_contract_payload-payload_of (Contract.candidate c) passed read =
      checked-read (check_candidate bad_netloc) Contract.candidate c _
        (read_candidate-payload c (candidate-leading c passed) read.0) passed
  validate_contract_payload-payload_of (Contract.manifest m) passed read =
      checked-read check_manifest Contract.manifest m _ (read_manifest-payload m read.0) passed
