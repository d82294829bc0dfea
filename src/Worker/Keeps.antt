-- ===== src/Worker/Keeps.antt =====
-- What holds after the actions of src/orchestration/synthetic_worker.py: one rule for each way to
-- build an action. `P` holds before it, `Q` with what it returns, `R` where it raises or is
-- killed.
use scraper_project.Base.{ℕ, zero, suc, ◌≡◌, refl, Bool, true, false, if◌then◌else◌}
use scraper_project.Errors.{Error, Result, ok, err}
use scraper_project.Database.Transaction.{Exec}
use scraper_project.Worker.Actions.{
  World, spend_one, Outcome, returned, raised, killed, Action, pure, raise, attempt, on_database,
  transact, spend, ◌>>=◌,
}

abbrev pub After :
    {A : Type 0} → (A → World → Type 0) → (World → Type 0) → Outcome A × World → Type 0
After Q R (returned a, w) = Q a w
After Q R (raised e, w) = R w
After Q R (killed, w) = R w

pub record Holds {A : Type 0} (P : World → Type 0) (Q : A → World → Type 0) (R : World → Type 0)
    (m : Action A) : Type 0 where
  pub at : (w : World) → P w → After Q R (m w)

weaken_after :
    {A : Type 0} (Q S : A → World → Type 0) (R : World → Type 0)
    → ((a : A) (w : World) → Q a w → S a w)
    → (r : Outcome A × World) → After Q R r
    → After S R r
weaken_after Q S R weak (returned a, w) h = weak a w h
weaken_after Q S R weak (raised e, w) h = h
weaken_after Q S R weak (killed, w) h = h

pub Holds-weaken :
    {A : Type 0} {P R : World → Type 0} {S : A → World → Type 0} {m : Action A}
    (Q : A → World → Type 0)
    → ((a : A) (w : World) → Q a w → S a w)
    → Holds P Q R m
    → Holds P S R m
Holds-weaken {R} {S} {m} Q weak h = record { at = λ w p. weaken_after Q S R weak (m w) (h.at w p) }

-- The action keeps `P`, whether it returns, raises or is killed.
abbrev pub Keeps : {A : Type 0} → (World → Type 0) → Action A → Type 0
Keeps P m = Holds P (λ _. P) P m

world_after : {A : Type 0} (P : World → Type 0) (r : Outcome A × World) → After (λ _. P) P r → P r.1
world_after P (returned a, w) h = h
world_after P (raised e, w) h = h
world_after P (killed, w) h = h

pub Keeps-world :
    {A : Type 0} {P : World → Type 0} (m : Action A) → Keeps P m → (w : World) → P w → P (m w).1
Keeps-world {P} m keeps w h = world_after P (m w) (keeps.at w h)

module _ {A : Type 0} {P R : World → Type 0} {Q : A → World → Type 0} where
  pub Holds-pure : (a : A) → ((w : World) → P w → Q a w) → Holds P Q R (pure a)
  unfolding pure
  Holds-pure a h = record { at = h }

  pub Holds-raise : (e : Error) → ((w : World) → P w → R w) → Holds P Q R (raise e)
  unfolding raise
  Holds-raise e h = record { at = h }

  pub Holds-attempt :
      (r : Result A)
      → ((a : A) → r ≡ ok a → (w : World) → P w → Q a w)
      → ((w : World) → P w → R w)
      → Holds P Q R (attempt r)
  unfolding attempt
  Holds-attempt (ok a) hq hr = record { at = hq a refl }
  Holds-attempt (err e) hq hr = record { at = hr }

  pub Holds-if :
      (b : Bool) (m n : Action A)
      → (b ≡ true → Holds P Q R m)
      → (b ≡ false → Holds P Q R n)
      → Holds P Q R (if b then m else n)
  Holds-if true m n hm hn = hm refl
  Holds-if false m n hm hn = hn refl

  -- A read or a transaction, by what it makes of the world.
  pub Holds-on_database :
      (m : Exec A) → ((w : World) → P w → After Q R (on_database m w)) → Holds P Q R (on_database m)
  Holds-on_database m h = record { at = h }

module _ {A B : Type 0} {R : World → Type 0} {Q : B → World → Type 0} where
  bind_after :
      (M : A → World → Type 0) (f : A → Action B) (o : Outcome A) (w : World)
      → ((a : A) → Holds (M a) Q R (f a))
      → After M R (o, w)
      → After Q R (elim o [ returned a ↦ f a w | raised e ↦ (raised e, w) | killed ↦ (killed, w) ])
  bind_after M f (returned a) w hf h = (hf a).at w h
  bind_after M f (raised e) w hf h = h
  bind_after M f killed w hf h = h

  pub Holds-bind :
      {P : World → Type 0} (M : A → World → Type 0) (m : Action A) (f : A → Action B)
      → Holds P M R m
      → ((a : A) → Holds (M a) Q R (f a))
      → Holds P Q R (m >>= f)
  unfolding ◌>>=◌
  Holds-bind M m f hm hf = record {
    at = λ w h. let (o, w') = m w in bind_after M f o w' hf (hm.at w h);
  }

-- `P` does not read how many effects are left.
pub record IsSteady (P : World → Type 0) : Type 0 where
  pub at : (w : World) (n : ℕ) → P w → P (record w { left = n })

module _ {P : World → Type 0} (steady : IsSteady P) where
  spend_one-after :
      (R : World → Type 0) (w : World) (n : ℕ)
      → ((v : World) → P v → R v)
      → P w
      → After (λ _. P) R (spend_one n w)
  unfolding spend_one
  spend_one-after R w zero weak h = weak w h
  spend_one-after R w (suc n) weak h = steady.at w n h

  pub Holds-spend : {R : World → Type 0} → ((w : World) → P w → R w) → Holds P (λ _. P) R spend
  unfolding spend
  Holds-spend {R} weak = record { at = λ w h. spend_one-after R w w.left weak h }

  pub Holds-transact :
      {A : Type 0} {Q : A → World → Type 0} {R : World → Type 0} (m : Exec A)
      → ((w : World) → P w → R w)
      → ((w : World) → P w → After Q R (on_database m w))
      → Holds P Q R (transact m)
  unfolding transact
  Holds-transact m weak h =
      Holds-bind (λ _. P) spend _ (Holds-spend weak) (λ _. Holds-on_database m h)
