-- ===== src/Tests/ContractRuns.antt =====
-- The theorems on contracts and on the source registry at concrete records.
use scraper_project.Base.{
  arith, ℕ, ◌≡◌, ◌↔◌, refl, Bool, true, false, ◌||◌, none, some, List, [], ◌∷◌, nat_eq,
}
use scraper_project.Errors.{ok, err, contract_validation_error}
use scraper_project.Contracts.Value.{Value, Fields}
use scraper_project.Contracts.Models.{FetchTelemetry, TelemetryOutcome}
use scraper_project.Contracts.Text.{between, is_space, lower}
use scraper_project.Contracts.Url.{urlparse}
use scraper_project.Contracts.Validation.{
  reject_fields, require_http_url, require_contract_version, is_sensitive,
}
use scraper_project.Contracts.Checks.{
  require_texts, require_source_identity, check_job, check_telemetry,
}
use scraper_project.Contracts.Sensitive.{CleanFields, reject_fields-exact}
use scraper_project.Repositories.Jobs.{create_idempotent}
use scraper_project.Repositories.Jobs.Checked.{create_idempotent-checked}
use scraper_project.Registry.{
  read_source_definition, read_sources, check_source, SourceRegistryConfig, Document,
  load_source_registry,
}
use scraper_project.Registry.Sources.{
  IsLoaded, config_table, load_source_registry-IsLoaded, load_source_registry-table,
}
use scraper_project.Tests.Data.{at, ready, job_of}

-- A network location with a bracket is one of those that `urlparse` may raise for.
abbrev has_bracket : List ℕ → Bool
has_bracket [] = false
has_bracket (c ∷ cs) = nat_eq c b'[' || nat_eq c b']' || has_bracket cs

abbrev ascii_alnum : ℕ → Bool
ascii_alnum c = between b'0' b'9' c || between b'A' b'Z' c || between b'a' b'z' c

-- A sensitive key two levels down, in capitals.
abbrev nested : Fields
nested =
    Fields.field "page" (Value.object (Fields.field "Api_Key" (Value.str "x") Fields.end))
      Fields.end

nested_refused : reject_fields nested ≡ err contract_validation_error
unfolding reject_fields is_sensitive
nested_refused = refl

urls :
    (require_http_url has_bracket "HTTPS://example.test/a?b" ≡ ok tt)
    × (require_http_url has_bracket "https:/example.test" ≡ err contract_validation_error)
    × (require_http_url has_bracket "ftp://example.test" ≡ err contract_validation_error)
unfolding require_http_url is_space urlparse lower
urls = (refl, refl, refl)

reject_fields-exact_example : (reject_fields nested ≡ ok tt) ↔ CleanFields nested
reject_fields-exact_example = reject_fields-exact nested

job_checked : check_job has_bracket (job_of "a" "listing-a" 1 1) ≡ ok tt
unfolding check_job require_texts require_source_identity require_http_url require_contract_version
    is_space reject_fields urlparse lower
job_checked = refl

create_idempotent-checked_example :
    (create_idempotent (job_of "a" "listing-a" 1 1) (at 3) (at 3) ready).0 ≡ ok "a"
create_idempotent-checked_example =
    create_idempotent-checked has_bracket (job_of "a" "listing-a" 1 1) (at 3) (at 3) ready
      job_checked (omega arith) (omega arith) refl refl

abbrev telemetry : FetchTelemetry
telemetry = record {
  contract_version = "0.1";
  job_id = "a";
  source_name = "fixture";
  attempt_number = 1;
  started_at = 10;
  finished_at = 20;
  duration_ms = 1;
  bytes_sent = 5;
  bytes_received = 7;
  outcome = TelemetryOutcome.success;
  error_class = none;
  proxy_pool_label = "local";
}

telemetry_checked : check_telemetry telemetry ≡ ok tt
unfolding check_telemetry require_contract_version is_space
telemetry_checked = refl

abbrev config : SourceRegistryConfig
config = record {
  registry_version = "0.1";
  sources =
      record {
        name = "fixture-source_1";
        enabled = true;
        identity_strategy = "stable_source_key";
        identity_notes = none;
      }
      ∷ record {
        name = "other";
        enabled = false;
        identity_strategy = "deterministic_url_fallback";
        identity_notes = some "the listing's path";
      }
      ∷ [];
}

config_loaded : load_source_registry ascii_alnum (Document.parsed (config_table config)) ≡ ok config
unfolding load_source_registry read_source_definition read_sources check_source
config_loaded = refl

load_source_registry-IsLoaded_example : IsLoaded ascii_alnum config
load_source_registry-IsLoaded_example =
    load_source_registry-IsLoaded ascii_alnum (Document.parsed (config_table config)) config
      config_loaded

config-IsLoaded : IsLoaded ascii_alnum config
unfolding load_source_registry read_source_definition read_sources check_source
config-IsLoaded = record { version = refl; unique = refl; checked = (refl, (refl, tt)) }

load_source_registry-table_example :
    load_source_registry ascii_alnum (Document.parsed (config_table config)) ≡ ok config
load_source_registry-table_example = load_source_registry-table ascii_alnum config config-IsLoaded
