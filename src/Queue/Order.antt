-- ===== src/Queue/Order.antt =====
-- The choice of a job by `lease_next` of src/orchestration/queue.py.
use scraper_project.Base.{
  ◌≡◌, refl, subst, ◌⊎◌, inl, inr, true, false, Option, none, some, List, [], ◌∷◌, arith, All,
  Among, Bool-cases,
}
use scraper_project.Timestamp.{Timestamp, text_lt}
use scraper_project.Database.Rows.{JobRow}
use scraper_project.Database.Table.{select_all, exists}
use scraper_project.Database.Table.Laws.{Among-select_all}
use scraper_project.Queue.{precedes, is_eligible, earlier, first_in_order, next_job}

text_lt_asym : (a b : Timestamp) → text_lt a b ≡ true → text_lt b a ≡ false
unfolding text_lt
text_lt_asym a b h = ground arith

text_lt_split :
    (a b c : Timestamp) → text_lt a c ≡ true → (text_lt a b ≡ true) ⊎ (text_lt b c ≡ true)
unfolding text_lt
text_lt_split a b c h = ground arith

precedes_asym : (a b : JobRow) → precedes a b ≡ true → precedes b a ≡ false
unfolding precedes
precedes_asym a b h = ground (
  arith,
  text_lt_asym a.scheduled_at b.scheduled_at,
  text_lt_asym b.scheduled_at a.scheduled_at,
  text_lt_asym a.created_at b.created_at,
)

precedes_split :
    (a b c : JobRow) → precedes a c ≡ true → (precedes a b ≡ true) ⊎ (precedes b c ≡ true)
unfolding precedes
precedes_split a b c h = ground (
  arith,
  text_lt_split a.scheduled_at b.scheduled_at c.scheduled_at,
  text_lt_split c.scheduled_at a.scheduled_at b.scheduled_at,
  text_lt_split b.scheduled_at c.scheduled_at a.scheduled_at,
  text_lt_split a.created_at b.created_at c.created_at,
)

precedes_irrefl : (a : JobRow) → precedes a a ≡ false
precedes_irrefl a = ground (arith, precedes_asym a a)

-- No row of the list precedes this one.
abbrev IsMinimal : JobRow → List JobRow → Type 0
IsMinimal best = All (λ job. precedes job best ≡ false)

IsMinimal-trans :
    (best other : JobRow) (jobs : List JobRow)
    → precedes other best ≡ false
    → IsMinimal other jobs
    → IsMinimal best jobs
IsMinimal-trans best other [] h m = tt
IsMinimal-trans best other (job ∷ jobs) h m =
    ground (arith, precedes_split job other best, IsMinimal-trans best other jobs h m.1)

first_in_order-eq-none : (jobs : List JobRow) → first_in_order jobs ≡ none → jobs ≡ []
unfolding first_in_order
first_in_order-eq-none [] h = refl
first_in_order-eq-none (job ∷ jobs) h = ground arith

-- One step of the search, given what the search of the rest has found.
earlier-cases :
    (job best : JobRow) (rest : Option JobRow) (jobs : List JobRow)
    → (rest ≡ none → jobs ≡ [])
    → ((other : JobRow) → rest ≡ some other → Among other jobs × IsMinimal other jobs)
    → earlier job rest ≡ some best
    → Among best (job ∷ jobs) × IsMinimal best (job ∷ jobs)
unfolding earlier
earlier-cases job best none jobs empty found h =
    rw (empty refl) (inl (ground arith), (ground (arith, precedes_irrefl best), tt))
earlier-cases job best (some other) jobs empty found h = elim (Bool-cases (precedes other job)) [
  | inl before ↦
      let e : other ≡ best = ground arith in
      subst (λ b. Among b (job ∷ jobs) × IsMinimal b (job ∷ jobs)) e
        (inr (found other refl).0, (precedes_asym other job before, (found other refl).1))
  | inr after ↦
      let e : job ≡ best = ground arith in
      subst (λ b. Among b (job ∷ jobs) × IsMinimal b (job ∷ jobs)) e
        (inl refl, (precedes_irrefl job, IsMinimal-trans job other jobs after (found other refl).1))
]

first_in_order-cases :
    (jobs : List JobRow) (best : JobRow)
    → first_in_order jobs ≡ some best
    → Among best jobs × IsMinimal best jobs
unfolding first_in_order
first_in_order-cases [] best h = cc
first_in_order-cases (job ∷ jobs) best h =
    earlier-cases job best (first_in_order jobs) jobs (first_in_order-eq-none jobs)
      (first_in_order-cases jobs) h

select_all-empty :
    (now : Timestamp) (jobs : List JobRow)
    → select_all (is_eligible now) jobs ≡ []
    → exists (is_eligible now) jobs ≡ false
select_all-empty now [] h = refl
select_all-empty now (job ∷ jobs) h = ground (arith, select_all-empty now jobs)

IsMinimal-select_all :
    (now : Timestamp) (best : JobRow) (jobs : List JobRow)
    → IsMinimal best (select_all (is_eligible now) jobs)
    → All (λ job. is_eligible now job ≡ true → precedes job best ≡ false) jobs
IsMinimal-select_all now best [] h = tt
IsMinimal-select_all now best (job ∷ jobs) h = ground (arith, IsMinimal-select_all now best jobs)

-- A fetched job is in the table, may be leased now, and no job that may be leased precedes it in
-- the order of priority, schedule and creation.
pub next_job-cases :
    (now : Timestamp) (jobs : List JobRow) (best : JobRow)
    → next_job now jobs ≡ some best
    → Among best jobs
      × (is_eligible now best ≡ true)
      × All (λ job. is_eligible now job ≡ true → precedes job best ≡ false) jobs
unfolding next_job
next_job-cases now jobs best h =
    let eligible = select_all (is_eligible now) jobs in
    let (found, minimal) = first_in_order-cases eligible best h in
    let (among, test) = Among-select_all (is_eligible now) jobs best found in
    (among, test, IsMinimal-select_all now best jobs minimal)

-- Nothing is fetched only if no job may be leased.
pub next_job-eq-none :
    (now : Timestamp) (jobs : List JobRow)
    → next_job now jobs ≡ none
    → exists (is_eligible now) jobs ≡ false
unfolding next_job
next_job-eq-none now jobs h =
    select_all-empty now jobs (first_in_order-eq-none (select_all (is_eligible now) jobs) h)
