-- ===== src/Contracts/Payload.antt =====
-- Reading a JSON mapping: `payload.get(key)`, and values of the types that the contracts ask for.
use scraper_project.Base.{
  ℕ, String, Bool, true, false, Option, none, some, List, [], ◌∷◌, ◌==◌, is_some, if◌then◌else◌,
}
use scraper_project.Errors.{Result, ok, err, contract_validation_error, type_error}
use scraper_project.Timestamp.{Datetime}
use scraper_project.Contracts.Value.{pos, Value, Items, Fields}

infixl 10 ◌>>=◌ ◌>>◌
abbrev pub ◌>>=◌ : {A B : Type 0} → Result A → (A → Result B) → Result B
ok a >>= f = f a
err e >>= f = err e

abbrev pub ◌>>◌ : {A B : Type 0} → Result A → Result B → Result B
m >> k = m >>= λ _. k

-- `payload.get(key)`; a mapping has a key once.
abbrev pub entry : String → Fields → Option Value
entry key Fields.end = none
entry key (Fields.field other value rest) = if other == key then some value else entry key rest

abbrev pub has_keys : List String → Fields → Bool
has_keys [] fields = true
has_keys (key ∷ keys) fields = if is_some (entry key fields) then has_keys keys fields else false

abbrev pub text_of : Option Value → Result String
text_of (some (Value.str text)) = ok text
text_of _ = err contract_validation_error

-- `require_non_negative_int`
abbrev pub count_of : Option Value → Result ℕ
count_of (some (Value.int (pos n))) = ok n
count_of _ = err contract_validation_error

-- The characters of a text, as texts.
abbrev pub characters : String → List String
characters String.[] = []
characters (String.◌∷◌ c text) = (String.◌∷◌ c String.[]) ∷ characters text

abbrev pub keys_of : Fields → List String
keys_of Fields.end = []
keys_of (Fields.field key value fields) = key ∷ keys_of fields

-- The items of a list, which the annotation says are texts.
abbrev pub texts_of : Items → Result (List String)
texts_of Items.nil = ok []
texts_of (Items.cons (Value.str text) items) = do texts ← texts_of items; ok (text ∷ texts)
texts_of (Items.cons _ items) = err type_error

-- `tuple(value)`: of a list its items, of a text its characters, of a mapping its keys. A list with an
-- item that is no text is refused here; the program would keep it, against its annotation.
abbrev pub tuple_of : Option Value → Result (List String)
tuple_of (some (Value.array items)) = texts_of items
tuple_of (some (Value.str text)) = ok (characters text)
tuple_of (some (Value.object fields)) = ok (keys_of fields)
tuple_of _ = err type_error

abbrev pub counts_in : Fields → Result (List (String × ℕ))
counts_in Fields.end = ok []
counts_in (Fields.field state (Value.int (pos n)) fields) = do
  counts ← counts_in fields
  ok ((state, n) ∷ counts)
counts_in (Fields.field state _ fields) = err contract_validation_error

-- A mapping from states to counts.
abbrev pub counts_of : Option Value → Result (List (String × ℕ))
counts_of (some (Value.object fields)) = counts_in fields
counts_of _ = err contract_validation_error

-- The mappings and lists that `json.dumps` writes for them.
abbrev pub of_counts : List (String × ℕ) → Fields
of_counts [] = Fields.end
of_counts ((state, n) ∷ counts) = Fields.field state (Value.int (pos n)) (of_counts counts)

abbrev pub of_texts : List String → Items
of_texts [] = Items.nil
of_texts (text ∷ texts) = Items.cons (Value.str text) (of_texts texts)

abbrev pub mapping : List (String × Value) → Fields
mapping [] = Fields.end
mapping ((key, value) ∷ entries) = Fields.field key value (mapping entries)

-- `fromisoformat` is `datetime.fromisoformat` on the text with `Z` replaced; it gives the instant
-- where that is in UTC.
module _ (fromisoformat : String → Option Datetime) where
  parsed_instant : Option Datetime → Result Datetime
  parsed_instant none = err contract_validation_error
  parsed_instant (some instant) = ok instant

  unfoldable pub parse_utc_timestamp : Option Value → Result Datetime
  unfolding parsed_instant
  parse_utc_timestamp (some (Value.str text)) = parsed_instant (fromisoformat text)
  parse_utc_timestamp _ = err contract_validation_error
