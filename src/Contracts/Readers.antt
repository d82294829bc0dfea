-- ===== src/Contracts/Readers.antt =====
-- How the `from_mapping` methods of src/contracts/models.py read a field. A field that no check
-- looks at may hold a value against its annotation, which the program keeps: the reader then gives
-- a stand-in for the value, and `false`.
use scraper_project.Base.{
  ℕ, String, Bool, true, false, not, ◌&&◌, ◌||◌, Option, none, some, List, [], ◌∷◌, ◌==◌,
  if◌then◌else◌,
}
use scraper_project.Errors.{Result, ok, err, raise_if, contract_validation_error, type_error}
use scraper_project.Contracts.Value.{pos, Float, Value, Items, Fields}
use scraper_project.Contracts.Models.{
  DetailReasonCode, reason_value, ArtifactStatus, TelemetryOutcome, ParseStatus,
}
use scraper_project.Contracts.Payload.{keys_of, characters, has_keys, text_of, ◌>>=◌}

abbrev among : String → List String → Bool
among key [] = false
among key (other ∷ keys) = other == key || among key keys

abbrev only_keys : List String → Fields → Bool
only_keys keys Fields.end = true
only_keys keys (Fields.field key value fields) = among key keys && only_keys keys fields

abbrev joined_keys : List String → List String → List String
joined_keys [] others = others
joined_keys (key ∷ keys) others = key ∷ joined_keys keys others

-- `cls(**data)`: a missing argument, and one that the class does not have, are a TypeError. The keys
-- in `set` are those that `from_mapping` sets itself or that have a default.
unfoldable pub arguments : List String → List String → Fields → Result (Unit {0})
arguments required set payload =
    raise_if (not (has_keys required payload) || not (only_keys (joined_keys required set) payload))
      type_error

-- A text or null that no check looks at.
unfoldable pub loose_text : Option Value → Option String × Bool
loose_text (some (Value.str text)) = (some text, true)
loose_text (some Value.null) = (none, true)
loose_text _ = (some "", false)

loose_items : Items → List String × Bool
loose_items Items.nil = ([], true)
loose_items (Items.cons (Value.str text) items) =
    let (texts, typed) = loose_items items in (text ∷ texts, typed)
loose_items (Items.cons _ items) = let (texts, typed) = loose_items items in ("" ∷ texts, false)

-- `tuple(data.get(key, ()))`, whose items no check looks at
unfoldable pub loose_tuple : Option Value → Result (List String × Bool)
unfolding loose_items
loose_tuple none = ok ([], true)
loose_tuple (some (Value.array items)) = ok (loose_items items)
loose_tuple (some (Value.str text)) = ok (characters text, true)
loose_tuple (some (Value.object fields)) = ok (keys_of fields, true)
loose_tuple _ = err type_error

unfoldable pub mapping_of : Option Value → Result Fields
mapping_of (some (Value.object fields)) = ok fields
mapping_of _ = err contract_validation_error

-- `metadata`, an empty mapping by default
unfoldable pub metadata_of : Option Value → Result Fields
unfolding mapping_of
metadata_of none = ok Fields.end
metadata_of (some value) = mapping_of (some value)

-- A status code or null; `check_artifact` asks for its range.
unfoldable pub status_of : Option Value → Result (Option ℕ)
status_of (some Value.null) = ok none
status_of (some (Value.int (pos n))) = ok (some n)
status_of _ = err contract_validation_error

-- `_parse_enum`
reason_in : String → List DetailReasonCode → Result DetailReasonCode
reason_in text [] = err contract_validation_error
reason_in text (reason ∷ reasons) =
    if reason_value reason == text then ok reason else reason_in text reasons

abbrev reasons : List DetailReasonCode
reasons =
    DetailReasonCode.new_listing ∷ DetailReasonCode.no_detail_snapshot
    ∷ DetailReasonCode.price_change_requires_detail ∷ DetailReasonCode.card_fingerprint_changed
    ∷ DetailReasonCode.high_priority_listing ∷ DetailReasonCode.critical_fields_missing
    ∷ DetailReasonCode.stale_detail_refresh ∷ DetailReasonCode.parser_version_recheck
    ∷ DetailReasonCode.missing_listing_verification ∷ DetailReasonCode.manual_reprocess_request ∷ []

unfoldable pub parse_reason : Option Value → Result DetailReasonCode
unfolding reason_in
parse_reason value = do text ← text_of value; reason_in text reasons

unfoldable pub parse_artifact_status : Option Value → Result ArtifactStatus
parse_artifact_status value = do
  text ← text_of value
  (if text == "SUCCESS"
      then ok ArtifactStatus.success
      else if text == "FAILED"
      then ok ArtifactStatus.failed
      else if text == "NOT_MODIFIED"
      then ok ArtifactStatus.not_modified
      else err contract_validation_error)

unfoldable pub parse_outcome : Option Value → Result TelemetryOutcome
parse_outcome value = do
  text ← text_of value
  (if text == "SUCCESS"
      then ok TelemetryOutcome.success
      else if text == "FAILED"
      then ok TelemetryOutcome.failed
      else if text == "SKIPPED"
      then ok TelemetryOutcome.skipped
      else err contract_validation_error)

unfoldable pub parse_parse_status : Option Value → Result ParseStatus
parse_parse_status value = do
  text ← text_of value
  (if text == "SUCCESS"
      then ok ParseStatus.success
      else if text == "PARTIAL"
      then ok ParseStatus.partial
      else if text == "FAILED"
      then ok ParseStatus.failed
      else err contract_validation_error)

-- A number: an `int` counts as one, a `bool` does not.
number_of : Value → Result Float
number_of (Value.int n) = ok (Float.finite n 0)
number_of (Value.float x) = ok x
number_of _ = err contract_validation_error

unfoldable pub confidence_of : Fields → Result (List (String × Float))
unfolding number_of
confidence_of Fields.end = ok []
confidence_of (Fields.field key value fields) = do
  number ← number_of value
  rest ← confidence_of fields
  ok ((key, number) ∷ rest)
