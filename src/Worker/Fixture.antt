-- ===== src/Worker/Fixture.antt =====
-- `_fetch_fixture` of src/orchestration/synthetic_worker.py, and the helpers that read its payload.
use scraper_project.Base.{
  ℕ, String, Bool, true, false, not, ◌||◌, Option, none, some, List, [], ◌∷◌, nat_eq, ◌==◌,
  if◌then◌else◌,
}
use scraper_project.Errors.{Result, ok, err, raise_if, synthetic_worker_error, value_error}
use scraper_project.Contracts.Value.{Value, Fields}
use scraper_project.Contracts.Text.{codes, lower, before, same_codes}
use scraper_project.Contracts.Url.{urlparse}
use scraper_project.Contracts.Payload.{entry, ◌>>=◌, ◌>>◌}
use scraper_project.Worker.Environment.{
  Platform, Fetch, Response, unavailable, failing, answered, Decoded, not_unicode, not_json,
  decoded,
}

abbrev pub worker_source_name : String
worker_source_name = "synthetic_fixture"

-- `_text`
text_value : Option Value → Result String
text_value (some (Value.str text)) = if text == "" then err synthetic_worker_error else ok text
text_value _ = err synthetic_worker_error

unfoldable pub text : Fields → String → Result String
unfolding text_value
text payload key = text_value (entry key payload)

-- `_optional_text`
optional_value : Option Value → Result (Option String)
optional_value none = ok none
optional_value (some Value.null) = ok none
optional_value (some (Value.str text)) = ok (some text)
optional_value (some _) = err synthetic_worker_error

unfoldable pub optional_text : Fields → String → Result (Option String)
unfolding optional_value
optional_text payload key = optional_value (entry key payload)

all_optional : Fields → Bool
all_optional Fields.end = true
all_optional (Fields.field key Value.null fields) = all_optional fields
all_optional (Fields.field key (Value.str text) fields) = all_optional fields
all_optional (Fields.field key _ fields) = false

-- `_string_mapping`
unfoldable pub string_mapping : Option Value → Result Fields
unfolding all_optional
string_mapping (some (Value.object fields)) =
    if all_optional fields then ok fields else err synthetic_worker_error
string_mapping _ = err synthetic_worker_error

-- What follows the last `stop`; the whole text where there is none.
after_last : ℕ → List ℕ → List ℕ
after_last stop cs = scan cs cs
  where
    scan : List ℕ → List ℕ → List ℕ
    scan kept [] = kept
    scan kept (c ∷ cs) = if nat_eq c stop then scan cs cs else scan kept cs

-- What follows the first `stop`, if there is one.
after_first : ℕ → List ℕ → Option (List ℕ)
after_first stop [] = none
after_first stop (c ∷ cs) =
    let rest = after_first stop cs in if nat_eq c stop then some cs else rest

-- `parsed.hostname`: without user, password and port, in lower case
unfoldable pub hostname : List ℕ → List ℕ
unfolding after_last after_first lower
hostname netloc =
    let host = after_last b'@' netloc in
    lower (elim (after_first b'[' host) [
      | none ↦ before b':' host
      | some bracketed ↦ before b']' bracketed
    ])

unfoldable pub is_local_fixture_host : List ℕ → Bool
is_local_fixture_host host =
    same_codes host (codes "localhost")
    || same_codes host (codes "127.0.0.1")
    || same_codes host (codes "fixture-server")

module _ (env : Platform) where
  pub check_url : Result (Unit {0})
  unfolding urlparse hostname is_local_fixture_host
  check_url =
      let (scheme, netloc) = urlparse (codes env.fixture_url) in
      do
        raise_if (env.bad_netloc netloc) value_error
        raise_if
            (not (same_codes scheme (codes "http"))
              || not (is_local_fixture_host (hostname netloc)))
            synthetic_worker_error

  -- `json.loads(response.read().decode("utf-8"))`: a JSONDecodeError is caught, a UnicodeDecodeError
  -- is a ValueError and is not.
  payload_of : Decoded → Result Value
  payload_of not_unicode = err value_error
  payload_of not_json = err synthetic_worker_error
  payload_of (decoded value) = ok value

  unfoldable pub body_of : Response → Result Value
  unfolding payload_of
  body_of unavailable = err synthetic_worker_error
  body_of (failing e) = err e
  body_of (answered status body) = do
    raise_if (not (nat_eq status 200)) synthetic_worker_error
    payload_of (env.decode_json body)

  -- `isinstance(payload, dict)`, and the source's name
  unfoldable pub identified : Value → Result Fields
  unfolding text
  identified (Value.object payload) = do
    name ← text payload "source_name"
    raise_if (not (name == worker_source_name)) synthetic_worker_error
    ok payload
  identified _ = err synthetic_worker_error

  -- `_fetch_fixture`
  unfoldable pub fetch_fixture : Fetch → Result Fields
  unfolding check_url body_of identified
  fetch_fixture call = do check_url; payload ← body_of (env.response call); identified payload
