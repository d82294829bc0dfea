-- ===== src/Contracts/Validation.antt =====
-- src/contracts/validation.py: the checks at the boundaries. A check of the type of a value is not
-- written where the model's type has made it, and an instant is in UTC.
use scraper_project.Base.{ℕ, String, Bool, false, not, ◌&&◌, ◌||◌, List, [], ◌∷◌, nat_eq, length}
use scraper_project.Errors.{Result, ok, raise_if, contract_validation_error, value_error, ◌andthen◌}
use scraper_project.Contracts.Value.{Value, Items, Fields}
use scraper_project.Contracts.Text.{
  codes, between, all_of, is_blank, has_part, lower, before, same_codes,
}
use scraper_project.Contracts.Url.{urlparse}

unfoldable pub require_text : String → Result (Unit {0})
require_text value = raise_if (is_blank value) contract_validation_error

abbrev pub sensitive_key_parts : List String
sensitive_key_parts = "password" ∷ "secret" ∷ "token" ∷ "cookie" ∷ "authorization" ∷ "api_key" ∷ []

abbrev pub has_any_part : List ℕ → List String → Bool
has_any_part text [] = false
has_any_part text (part ∷ parts) = has_part (codes part) text || has_any_part text parts

unfoldable pub is_sensitive : String → Bool
unfolding lower
is_sensitive key = has_any_part (lower (codes key)) sensitive_key_parts

-- `reject_sensitive_keys`, for a value, a list and a mapping
unfoldable mutual
  pub reject_value : Value → Result (Unit {0})
  reject_value (Value.array items) = reject_items items
  reject_value (Value.object fields) = reject_fields fields
  reject_value Value.null = ok tt
  reject_value (Value.bool b) = ok tt
  reject_value (Value.int n) = ok tt
  reject_value (Value.float x) = ok tt
  reject_value (Value.str s) = ok tt

  pub reject_items : Items → Result (Unit {0})
  reject_items Items.nil = ok tt
  reject_items (Items.cons item items) = reject_value item andthen reject_items items

  pub reject_fields : Fields → Result (Unit {0})
  reject_fields Fields.end = ok tt
  reject_fields (Fields.field key value fields) =
      raise_if (is_sensitive key) contract_validation_error
      andthen reject_value value
      andthen reject_fields fields

-- The part before the first dot is `0`, as that of CONTRACT_VERSION is.
unfoldable pub require_contract_version : String → Result (Unit {0})
unfolding require_text
require_contract_version value =
    require_text value
    andthen raise_if (not (same_codes (before b'.' (codes value)) (codes "0")))
        contract_validation_error

abbrev pub is_hex : ℕ → Bool
is_hex c = between b'0' b'9' c || between b'a' b'f' c

unfoldable pub require_sha256 : String → Result (Unit {0})
require_sha256 value =
    raise_if (not (nat_eq (length (codes value)) 64 && all_of is_hex (codes value)))
      contract_validation_error

-- `bad_netloc` tells for which network locations `urlparse` raises `ValueError`: those with a
-- bracket that is not closed or opened, with brackets around no IP address, or with a character that
-- compatibility normalisation makes a delimiter.
module _ (bad_netloc : List ℕ → Bool) where
  unfoldable pub require_http_url : String → Result (Unit {0})
  unfolding require_text urlparse
  require_http_url value =
      let (scheme, netloc) = urlparse (codes value) in
      require_text value
      andthen raise_if (bad_netloc netloc) value_error
      andthen raise_if
          (not (same_codes scheme (codes "http") || same_codes scheme (codes "https"))
            || same_codes netloc [])
          contract_validation_error
