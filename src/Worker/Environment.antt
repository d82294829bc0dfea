-- ===== src/Worker/Environment.antt =====
-- What src/orchestration/synthetic_worker.py takes from outside: its settings, the clock, fresh
-- identifiers, the answers of the fixture server, and functions of Python's library.
use scraper_project.Base.{ℕ, String, Bool, Option, List}
use scraper_project.Errors.{Error}
use scraper_project.Timestamp.{Datetime, Timestamp}
use scraper_project.Contracts.Value.{ℤ, Float, Value}

-- Where the clock is read.
pub data Reading : Type 0 where
  owner_registered source_updated run_created run_started : Reading
  partition_created partition_updated partition_started : Reading
  job_created job_updated queued_saved : Reading
  snapshot_saved parser_started parser_completed parser_saved : Reading
  batch_saved partition_completed run_completed completed_saved : Reading

-- Where a `uuid4()` is taken.
pub data Fresh : Type 0 where
  observation_id attempt_id parser_run_id : Fresh

-- The two calls of `_fetch_fixture`.
pub data Fetch : Type 0 where
  discovery snapshot : Fetch

-- What `urlopen` does: an OSError, another exception, or a status and a body.
pub data Response : Type 0 where
  unavailable : Response
  failing : Error → Response
  answered : ℕ → List ℕ → Response

-- What `json.loads` makes of bytes: no text in UTF-8, no JSON, or a value.
pub data Decoded : Type 0 where
  not_unicode not_json : Decoded
  decoded : Value → Decoded

pub record Platform : Type 0 where
  pub root : String
  pub fixture_url : String
  pub minimum_free_bytes : ℤ
  pub free_bytes : ℕ
  pub shutdown_requested : Bool
  pub clock : Reading → Timestamp
  pub fresh : Fresh → String
  pub response : Fetch → Response
  pub decode_json : List ℕ → Decoded
  -- `sha256(…).hexdigest()` and `str(uuid5(NAMESPACE_URL, …))`
  pub sha256 : List ℕ → String
  pub uuid5 : String → String
  pub float_text : Float → List ℕ
  pub bad_netloc : List ℕ → Bool
  pub fromisoformat : String → Option Datetime
