-- ===== src/Json.antt =====
-- `json.dumps(payload, sort_keys=True, separators=(",", ":")).encode("utf-8")`, which
-- `_canonical_json_bytes` of src/orchestration/synthetic_worker.py calls, as the list of the
-- bytes. The keyword `ensure_ascii` has its default, so every character outside printable ASCII
-- is escaped and the bytes are the code points. `float_text` is `float.__repr__`.
pub mod Decimal
use scraper_project.Base.{
  ℕ, ◌+◌, ◌-◌, ◌/◌, ◌%◌, String, Bool, true, false, not, ◌&&◌, List, [], ◌∷◌, ◌++◌, ltb, leb,
  nat_eq, if◌then◌else◌,
}
use scraper_project.Contracts.Value.{ℤ, pos, negsuc, Float, Value, Items, Fields}
use scraper_project.Contracts.Text.{codes, between}
use Decimal.{decimal}

abbrev hex_digit : ℕ → ℕ
hex_digit d = if ltb d 10 then d + 48 else d + 87

-- `\uXXXX`
abbrev unicode_escape : ℕ → List ℕ
unicode_escape n =
    92
    ∷ 117
    ∷ hex_digit (n / 4096 % 16)
    ∷ hex_digit (n / 256 % 16)
    ∷ hex_digit (n / 16 % 16)
    ∷ hex_digit (n % 16)
    ∷ []

-- A quote, a backslash, the control characters that have a name, and everything outside `' '..'~'`;
-- a character outside the first plane is a surrogate pair.
escape : ℕ → List ℕ
escape c =
    if nat_eq c b'"'
    then 92 ∷ 34 ∷ []
    else if nat_eq c 92
    then 92 ∷ 92 ∷ []
    else if between 32 126 c
    then c ∷ []
    else if nat_eq c 10
    then 92 ∷ b'n' ∷ []
    else if nat_eq c 13
    then 92 ∷ b'r' ∷ []
    else if nat_eq c 9
    then 92 ∷ b't' ∷ []
    else if nat_eq c 12
    then 92 ∷ b'f' ∷ []
    else if nat_eq c 8
    then 92 ∷ b'b' ∷ []
    else if ltb c 65536
    then unicode_escape c
    else unicode_escape (55296 + (c - 65536) / 1024 % 1024) ++ unicode_escape (56320 + c % 1024)

escape_all : List ℕ → List ℕ
unfolding escape
escape_all [] = []
escape_all (c ∷ cs) = escape c ++ escape_all cs

dump_string : String → List ℕ
unfolding escape_all
dump_string text = 34 ∷ escape_all (codes text) ++ 34 ∷ []

dump_int : ℤ → List ℕ
unfolding decimal
dump_int (pos n) = decimal n
dump_int (negsuc n) = 45 ∷ decimal (n + 1)

-- `<=` of two strings, by their code points
abbrev pub codes_le : List ℕ → List ℕ → Bool
codes_le [] ds = true
codes_le (c ∷ cs) [] = false
codes_le (c ∷ cs) (d ∷ ds) = if nat_eq c d then codes_le cs ds else ltb c d

-- `sorted(dct.items())`: the keys of a mapping differ, so no two values are compared.
unfoldable pub insert_field : String → Value → Fields → Fields
insert_field key value Fields.end = Fields.field key value Fields.end
insert_field key value (Fields.field other old fields) =
    let rest = insert_field key value fields in
    if codes_le (codes key) (codes other)
    then Fields.field key value (Fields.field other old fields)
    else Fields.field other old rest

-- A mapping with its own keys in order, and so are those of the mappings in it.
unfoldable mutual
  unfolding insert_field

  pub sorted_value : Value → Value
  sorted_value (Value.array items) = Value.array (sorted_items items)
  sorted_value (Value.object fields) = Value.object (sorted_fields fields)
  sorted_value Value.null = Value.null
  sorted_value (Value.bool b) = Value.bool b
  sorted_value (Value.int n) = Value.int n
  sorted_value (Value.float x) = Value.float x
  sorted_value (Value.str s) = Value.str s

  pub sorted_items : Items → Items
  sorted_items Items.nil = Items.nil
  sorted_items (Items.cons item items) = Items.cons (sorted_value item) (sorted_items items)

  pub sorted_fields : Fields → Fields
  sorted_fields Fields.end = Fields.end
  sorted_fields (Fields.field key value fields) =
      insert_field key (sorted_value value) (sorted_fields fields)

module _ (float_text : Float → List ℕ) where
  unfoldable mutual
    unfolding dump_string dump_int

    pub dump_value : Value → List ℕ
    dump_value Value.null = codes "null"
    dump_value (Value.bool b) = if b then codes "true" else codes "false"
    dump_value (Value.int n) = dump_int n
    dump_value (Value.float x) = float_text x
    dump_value (Value.str s) = dump_string s
    dump_value (Value.array items) = b'[' ∷ dump_items items ++ b']' ∷ []
    dump_value (Value.object fields) = b'{' ∷ dump_fields fields ++ b'}' ∷ []

    pub dump_items : Items → List ℕ
    dump_items Items.nil = []
    dump_items (Items.cons item Items.nil) = dump_value item
    dump_items (Items.cons item (Items.cons next items)) =
        dump_value item ++ b',' ∷ dump_items (Items.cons next items)

    pub dump_fields : Fields → List ℕ
    dump_fields Fields.end = []
    dump_fields (Fields.field key value Fields.end) = dump_string key ++ b':' ∷ dump_value value
    dump_fields (Fields.field key value (Fields.field other next fields)) =
        dump_string key
        ++ b':' ∷ dump_value value
        ++ b',' ∷ dump_fields (Fields.field other next fields)

  unfoldable pub canonical_json_bytes : Value → List ℕ
  unfolding sorted_value dump_value
  canonical_json_bytes payload = dump_value (sorted_value payload)
