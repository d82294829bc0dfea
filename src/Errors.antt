-- ===== src/Errors.antt =====
-- The exceptions of the program as values. A message is not modelled: the class is.
use scraper_project.Base.{◌≡◌, refl, ◌⊎◌, inl, inr, Bool, true, false}

-- `integrity_error` is `sqlite3.IntegrityError`, which a violated constraint or a trigger raises.
pub data Error : Type 0 where
  integrity_error : Error
  queue_transition_error : Error
  repository_state_error : Error
  value_error : Error
  type_error : Error
  assertion_error : Error
  migration_error : Error
  operational_error : Error
  contract_validation_error : Error
  registry_config_error : Error
  synthetic_worker_error : Error
  runtime_safety_error : Error
  file_exists_error : Error
  attribute_error : Error
  overflow_error : Error

pub data Result {ℓ} (A : Type ℓ) : Type ℓ where
  ok : A → Result A
  err : Error → Result A

abbrev pub raise_if : Bool → Error → Result (Unit {0})
raise_if true e = err e
raise_if false e = ok tt

-- One check after another: the first that raises ends them.
infixl 10 ◌andthen◌
abbrev pub ◌andthen◌ : Result (Unit {0}) → Result (Unit {0}) → Result (Unit {0})
ok tt andthen next = next
err e andthen next = err e

-- To split on a computed result and keep the equation.
pub Result-cases {ℓ} :
    {A : Type ℓ} (r : Result A) → ((e : Error) × (r ≡ err e)) ⊎ ((a : A) × (r ≡ ok a))
Result-cases (ok a) = inr (a, refl)
Result-cases (err e) = inl (e, refl)
