-- ===== src/Contracts/Sensitive.antt =====
-- `reject_sensitive_keys` of src/contracts/validation.py and the keys of a payload.
use scraper_project.Base.{◌≡◌, ◌↔◌, false, arith}
use scraper_project.Errors.{Result, ok, ◌andthen◌}
use scraper_project.Contracts.Value.{Value, Items, Fields}
use scraper_project.Contracts.Validation.{is_sensitive, reject_value, reject_items, reject_fields}

-- No key of the value, or of a value in it, is sensitive.
mutual
  pub CleanValue : Value → Type 0
  CleanValue (Value.array items) = CleanItems items
  CleanValue (Value.object fields) = CleanFields fields
  CleanValue Value.null = Unit
  CleanValue (Value.bool b) = Unit
  CleanValue (Value.int n) = Unit
  CleanValue (Value.float x) = Unit
  CleanValue (Value.str s) = Unit

  pub CleanItems : Items → Type 0
  CleanItems Items.nil = Unit
  CleanItems (Items.cons item items) = CleanValue item × CleanItems items

  pub CleanFields : Fields → Type 0
  CleanFields Fields.end = Unit
  CleanFields (Fields.field key value fields) =
      (is_sensitive key ≡ false) × CleanValue value × CleanFields fields

andthen-ok : (a b : Result (Unit {0})) → (a andthen b ≡ ok tt) ↔ ((a ≡ ok tt) × (b ≡ ok tt))
andthen-ok a b = ground arith

mutual
  unfolding reject_value reject_items reject_fields CleanValue CleanItems CleanFields

  value-exact : (v : Value) → (reject_value v ≡ ok tt) ↔ CleanValue v
  value-exact (Value.array items) = items-exact items
  value-exact (Value.object fields) = fields-exact fields
  value-exact Value.null = ground arith
  value-exact (Value.bool b) = ground arith
  value-exact (Value.int n) = ground arith
  value-exact (Value.float x) = ground arith
  value-exact (Value.str s) = ground arith

  items-exact : (items : Items) → (reject_items items ≡ ok tt) ↔ CleanItems items
  items-exact Items.nil = ground arith
  items-exact (Items.cons item items) = ground (
    arith,
    andthen-ok (reject_value item) (reject_items items),
    value-exact item,
    items-exact items,
  )

  fields-exact : (fields : Fields) → (reject_fields fields ≡ ok tt) ↔ CleanFields fields
  fields-exact Fields.end = ground arith
  fields-exact (Fields.field key value fields) =
      ground (arith, value-exact value, fields-exact fields)

-- `reject_sensitive_keys` accepts a mapping exactly when no key of it, and of no mapping inside it at
-- any depth, has a sensitive part.
pub reject_fields-exact : (fields : Fields) → (reject_fields fields ≡ ok tt) ↔ CleanFields fields
reject_fields-exact = fields-exact
