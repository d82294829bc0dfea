-- ===== src/Worker/Budget.antt =====
-- How many effects the actions of src/orchestration/synthetic_worker.py have.
pub mod Methods
use scraper_project.Base.{
  ℕ, zero, suc, ◌+◌, ◌≤◌, String, ◌≡◌, refl, Bool, true, false, Option, none, some, List, arith,
  if◌then◌else◌, is_some,
}
use scraper_project.Errors.{Error, Result, ok, err}
use scraper_project.Timestamp.{Datetime}
use scraper_project.Contracts.Value.{ℤ, Value}
use scraper_project.Contracts.Models.{DatasetBatchManifest}
use scraper_project.Database.Rows.{RunRow, PartitionRow, SnapshotRow}
use scraper_project.Database.Transaction.{Exec}
use scraper_project.Queue.{JobLease, Recovery}
use scraper_project.Worker
use scraper_project.Worker.{Progress, ended, reached}
use scraper_project.Worker.Actions.{
  World, Outcome, returned, raised, killed, Action, pure, raise, attempt, on_database, transact,
  spend, spend_one, read_file, set_files, create_file, ◌>>=◌,
}

abbrev pub is_killed : {A : Type 0} → Outcome A → Bool
is_killed killed = true
is_killed _ = false

-- With `n` effects left the action is not killed, and it has no more than `n`.
pub record Spends (n : ℕ) {A : Type 0} (m : Action A) : Type 0 where
  pub at : (w : World) → n ≤ w.left → (is_killed (m w).0 ≡ false) × (w.left ≤ (m w).1.left + n)

module _ {A : Type 0} where
  pub Spends-pure : (a : A) → Spends 0 (pure a)
  unfolding pure
  Spends-pure a = record { at = λ w h. (refl, omega arith) }

  pub Spends-raise : (e : Error) → Spends 0 (raise {A = A} e)
  unfolding raise
  Spends-raise e = record { at = λ w h. (refl, omega arith) }

  pub Spends-attempt : (r : Result A) → Spends 0 (attempt r)
  unfolding attempt
  Spends-attempt (ok a) = record { at = λ w h. (refl, omega arith) }
  Spends-attempt (err e) = record { at = λ w h. (refl, omega arith) }

  outcome_lives : (r : Result A) → is_killed (Worker.Actions.outcome_of r) ≡ false
  outcome_lives (ok a) = refl
  outcome_lives (err e) = refl

  pub Spends-on_database : (m : Exec A) → Spends 0 (on_database m)
  unfolding on_database
  Spends-on_database m = record { at = λ w h. (outcome_lives (m w.database).0, omega arith) }

  pub Spends-more : (a b : ℕ) (m : Action A) → a ≤ b → Spends a m → Spends b m
  Spends-more a b m more h = record {
    at = λ w enough.
        let (lives, spent) = h.at w (omega (arith, more, enough)) in
        (lives, omega (arith, more, spent));
  }

  pub Spends-if :
      (n : ℕ) (b : Bool) (m k : Action A) → Spends n m → Spends n k → Spends n (if b then m else k)
  Spends-if n true m k hm hk = hm
  Spends-if n false m k hm hk = hk

bind-Spends :
    {A B : Type 0} (a b left : ℕ) (f : A → Action B) (o : Outcome A) (w : World)
    → ((x : A) → Spends b (f x))
    → a + b ≤ left
    → is_killed o ≡ false
    → left ≤ w.left + a
    → let r : Outcome B × World = elim o [
      | returned x ↦ f x w
      | raised e ↦ (raised e, w)
      | killed ↦ (killed, w)
    ] in
      (is_killed r.0 ≡ false) × (left ≤ r.1.left + (a + b))
bind-Spends a b left f (returned x) w hf enough lives spent =
    let (h, k) = (hf x).at w (omega (arith, enough, spent)) in (h, omega (arith, k, spent))
bind-Spends a b left f (raised e) w hf enough lives spent = (refl, omega (arith, spent))
bind-Spends a b left f killed w hf enough lives spent = ground (arith, lives)

pub Spends-bind :
    (a b : ℕ) {A B : Type 0} (m : Action A) (f : A → Action B)
    → Spends a m
    → ((x : A) → Spends b (f x))
    → Spends (a + b) (m >>= f)
unfolding ◌>>=◌
Spends-bind a b m f hm hf = record {
  at = λ w enough.
      let (lives, spent) = hm.at w (omega (arith, enough)) in
      bind-Spends a b w.left f (m w).0 (m w).1 hf enough lives spent;
}

spend_one-Spends :
    (n : ℕ) (w : World)
    → 1 ≤ n
    → (is_killed (spend_one n w).0 ≡ false) × (n ≤ (spend_one n w).1.left + 1)
unfolding spend_one
spend_one-Spends zero w h = ground (arith, h)
spend_one-Spends (suc n) w h = (refl, omega arith)

Spends-spend : Spends 1 spend
unfolding spend
Spends-spend = record { at = λ w h. spend_one-Spends w.left w h }

pub Spends-transact : {A : Type 0} (m : Exec A) → Spends 1 (transact m)
unfolding transact
Spends-transact m = Spends-bind 1 0 _ _ Spends-spend λ _. Spends-on_database m

pub Spends-read_file : (path : String) → Spends 0 (read_file path)
unfolding read_file
Spends-read_file path = record { at = λ w h. (refl, omega arith) }

Spends-set_files :
    (change : List (String × List ℕ) → List (String × List ℕ)) → Spends 0 (set_files change)
unfolding set_files
Spends-set_files change = record { at = λ w h. (refl, omega arith) }

pub Spends-create_file :
    (e : Error) (path : String) (bytes : List ℕ) → Spends 2 (create_file e path bytes)
unfolding create_file
Spends-create_file e path bytes = Spends-bind 1 1 _ _ Spends-spend λ _.
    Spends-bind 0 1 _ _ (Spends-read_file path) λ there.
      Spends-bind 0 1 _ _ (Spends-if 0 _ _ _ (Spends-raise e) (Spends-set_files _))
        λ _. Spends-bind 1 0 _ _ Spends-spend λ _. Spends-set_files _
