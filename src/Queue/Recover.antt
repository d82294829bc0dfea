-- ===== src/Queue/Recover.antt =====
-- `recover_abandoned` of src/orchestration/queue.py.
use scraper_project.Base.{
  ◌≡◌, refl, ap, ◌∙◌, inl, inr, Bool, true, false, some, List, [], ◌∷◌, map, arith, ◌&&◌, ltb, leb,
  eq_refl, ne_sym, or-eq-false, if◌then◌else◌, Pointwise, Bool-cases,
}
use scraper_project.Errors.{ok}
use scraper_project.Timestamp.{Datetime, Timestamp, timestamp}
use scraper_project.Database.{Database}
use scraper_project.Database.Rows.{JobRow, JobState}
use scraper_project.Database.Table.{select_all, exists, update, count_where}
use scraper_project.Database.Table.Laws.{update_none}
use scraper_project.Queue.{
  Recovery, has_job_id, released, is_abandoned, recovered_state, recover_rows, count_rows,
  recover_abandoned,
}
use scraper_project.Queue.Moves.{Move, stay, recovered-Move, IsKeyed}

-- What recovery does to one row.
abbrev pub recover_job : Datetime → JobRow → JobRow
recover_job current job =
    if is_abandoned (timestamp current) job
    then released (recovered_state job) (some "abandoned_lease") current job
    else job

-- The loop, on the table of jobs alone.
recover_jobs : Datetime → List JobRow → List JobRow → List JobRow
recover_jobs current [] jobs = jobs
recover_jobs current (row ∷ rows) jobs = recover_jobs current rows (
    update (has_job_id row.job_id) (released (recovered_state row) (some "abandoned_lease") current)
      jobs)

recover_rows-jobs :
    (current : Datetime) (rows : List JobRow) (db : Database)
    → (recover_rows current rows db).detail_fetch_jobs
      ≡ recover_jobs current rows db.detail_fetch_jobs
unfolding recover_rows recover_jobs
recover_rows-jobs current [] db = refl
recover_rows-jobs current (row ∷ rows) db = recover_rows-jobs current rows _

recover_jobs-cons :
    (current : Datetime) (rows : List JobRow) (job : JobRow) (jobs : List JobRow)
    → exists (has_job_id job.job_id) rows ≡ false
    → recover_jobs current rows (job ∷ jobs) ≡ job ∷ recover_jobs current rows jobs
unfolding recover_jobs
recover_jobs-cons current [] job jobs h = refl
recover_jobs-cons current (row ∷ rows) job jobs h =
    let (other, rest) = or-eq-false _ _ h in
    rw (ne_sym row.job_id job.job_id other) (recover_jobs-cons current rows job _ rest)

pub exists-select_all :
    (test other : JobRow → Bool) (jobs : List JobRow)
    → exists other jobs ≡ false
    → exists other (select_all test jobs) ≡ false
exists-select_all test other [] h = refl
exists-select_all test other (job ∷ jobs) h = ground (arith, exists-select_all test other jobs)

recover_jobs-head :
    (current : Datetime) (rows : List JobRow) (job : JobRow) (jobs : List JobRow)
    → exists (has_job_id job.job_id) rows ≡ false
    → exists (has_job_id job.job_id) jobs ≡ false
    → recover_jobs current (job ∷ rows) (job ∷ jobs)
      ≡ released (recovered_state job) (some "abandoned_lease") current job
        ∷ recover_jobs current rows jobs
unfolding recover_jobs
recover_jobs-head current rows job jobs h k =
    let set = released (recovered_state job) (some "abandoned_lease") current in
    rw (eq_refl job.job_id, update_none (has_job_id job.job_id) set jobs k)
      (recover_jobs-cons current rows (set job) jobs h)

recover_jobs-map :
    (current : Datetime) (jobs : List JobRow)
    → IsKeyed jobs
    → recover_jobs current (select_all (is_abandoned (timestamp current)) jobs) jobs
      ≡ map (recover_job current) jobs
recover_jobs-map current [] k = unfold recover_jobs in refl
recover_jobs-map current (job ∷ jobs) k =
    let others = exists-select_all (is_abandoned (timestamp current)) _ jobs k.0 in
    let rest = recover_jobs-map current jobs k.1 in
    elim (Bool-cases (is_abandoned (timestamp current) job)) [
      | inl e ↦ rw e (
          recover_jobs-head current _ job jobs others k.0
          ∙ ap (◌∷◌ (released (recovered_state job) (some "abandoned_lease") current job)) rest)
      | inr e ↦ rw e (recover_jobs-cons current _ job jobs others ∙ ap (◌∷◌ job) rest)
    ]

-- If job identifiers are unique, recovery is one pass over the table of jobs: it rewrites each
-- job that is processed under a lease that has run out, and no other.
pub recover_abandoned-map :
    (current : Datetime) (db : Database)
    → IsKeyed db.detail_fetch_jobs
    → (recover_abandoned current db).1.detail_fetch_jobs
      ≡ map (recover_job current) db.detail_fetch_jobs
unfolding recover_abandoned
recover_abandoned-map current db keyed =
    recover_rows-jobs current _ db ∙ recover_jobs-map current db.detail_fetch_jobs keyed

pub abandoned_processing :
    (now : Timestamp) (job : JobRow) → is_abandoned now job ≡ true → job.state ≡ JobState.processing
unfolding is_abandoned
abandoned_processing now job h = ground arith

recover_job-Move : (current : Datetime) (job : JobRow) → Move job (recover_job current job)
recover_job-Move current job = elim (Bool-cases (is_abandoned (timestamp current) job)) [
  | inl e ↦
      rw e (recovered-Move (some "abandoned_lease") current job (abandoned_processing _ job e))
  | inr e ↦ rw e (stay refl)
]

Pointwise-map :
    {A : Type 0} (R : A → A → Type 0) (f : A → A) (xs : List A)
    → ((a : A) → R a (f a))
    → Pointwise R xs (map f xs)
Pointwise-map R f [] h = tt
Pointwise-map R f (x ∷ xs) h = (h x, Pointwise-map R f xs h)

-- If job identifiers are unique, recovery leaves each row of the jobs as it was or moves it along
-- one edge of the state diagram, with the edge's condition on the attempts.
pub recover_abandoned-Move :
    (current : Datetime) (db : Database)
    → IsKeyed db.detail_fetch_jobs
    → Pointwise Move db.detail_fetch_jobs (recover_abandoned current db).1.detail_fetch_jobs
recover_abandoned-Move current db keyed =
    rw (recover_abandoned-map current db keyed)
      (Pointwise-map Move (recover_job current) db.detail_fetch_jobs (recover_job-Move current))

recover_job-clear :
    (current : Datetime) (now : Timestamp) (job : JobRow)
    → is_abandoned (timestamp current) job ≡ true
    → is_abandoned now (recover_job current job) ≡ false
unfolding is_abandoned
recover_job-clear current now job h = ground arith

map-recover_job-clear :
    (current : Datetime) (jobs : List JobRow)
    → select_all (is_abandoned (timestamp current)) (map (recover_job current) jobs) ≡ []
map-recover_job-clear current [] = refl
map-recover_job-clear current (job ∷ jobs) =
    ground
      (arith, recover_job-clear current (timestamp current) job, map-recover_job-clear current jobs)

recover_none :
    (current : Datetime) (db : Database)
    → select_all (is_abandoned (timestamp current)) db.detail_fetch_jobs ≡ []
    → recover_abandoned current db ≡ (ok (record { recovered = 0; exhausted = 0 }), db)
unfolding recover_abandoned
recover_none current db h = rw h refl

-- If job identifiers are unique, recovery leaves no abandoned lease: a second recovery at the
-- same instant reports nothing and changes nothing.
pub recover_abandoned_twice :
    (current : Datetime) (db : Database)
    → IsKeyed db.detail_fetch_jobs
    → let db' = (recover_abandoned current db).1 in
      recover_abandoned current db' ≡ (ok (record { recovered = 0; exhausted = 0 }), db')
recover_abandoned_twice current db keyed = recover_none current _ (
    rw (recover_abandoned-map current db keyed)
      (map-recover_job-clear current db.detail_fetch_jobs))

count_rows-select_all :
    (test : JobRow → Bool) (jobs : List JobRow)
    → let counts = count_rows (select_all test jobs) in
      (counts.recovered
        ≡ count_where (λ job. test job && ltb job.attempt_count job.max_attempts) jobs)
      × (counts.exhausted
          ≡ count_where (λ job. test job && leb job.max_attempts job.attempt_count) jobs)
unfolding count_rows
count_rows-select_all test [] = (refl, refl)
count_rows-select_all test (job ∷ jobs) = ground (arith, count_rows-select_all test jobs)

-- Recovery never raises. It reports as recovered the jobs with a lease that has run out and attempts
-- left, and as exhausted those with a lease that has run out and no attempts left.
pub recover_abandoned-counts :
    (current : Datetime) (db : Database)
    → (counts : Recovery) × ((recover_abandoned current db).0 ≡ ok counts)
      × (counts.recovered
          ≡ count_where
              (λ job.
                is_abandoned (timestamp current) job && ltb job.attempt_count job.max_attempts)
              db.detail_fetch_jobs)
      × (counts.exhausted
          ≡ count_where
              (λ job.
                is_abandoned (timestamp current) job && leb job.max_attempts job.attempt_count)
              db.detail_fetch_jobs)
unfolding recover_abandoned
recover_abandoned-counts current db =
    let rows = select_all (is_abandoned (timestamp current)) db.detail_fetch_jobs in
    let (recovered, exhausted) =
      count_rows-select_all (is_abandoned (timestamp current)) db.detail_fetch_jobs in
    (count_rows rows, refl, recovered, exhausted)
