-- ===== src/Queue/Kept.antt =====
-- A lease, a release and the loop of recovery of src/orchestration/queue.py, and the record of
-- attempts.
use scraper_project.Base.{
  ℕ, ◌+◌, String, ◌≡◌, refl, sym, subst, ◌∙◌, inl, inr, Bool, true, false, ◌&&◌, Option, some, List,
  [], ◌∷◌, arith, ◌==◌, eq_refl, ne_sym, or-eq-false, All, All-append, All-map, Among,
}
use scraper_project.Timestamp.{Datetime, Timestamp, timestamp}
use scraper_project.Database.{Database}
use scraper_project.Database.Rows.{JobRow, JobState, AttemptRow, Outcome}
use scraper_project.Database.Table.{select_all, exists, update, append_row}
use scraper_project.Database.Table.Laws.{All-update, exists-Among, exists-update}
use scraper_project.Database.Table.Key
use scraper_project.Queue.{
  is_pending, is_processing, has_job_id, is_attempt, is_abandoned, is_eligible, new_attempt, leased,
  released, closed, release, recover_rows, recovered_state,
}
use scraper_project.Queue.Moves.{IsKeyed, IsKeyed-Among}
use scraper_project.Queue.Lease.{with_lease}
use scraper_project.Queue.Recover.{abandoned_processing, exists-select_all}
use scraper_project.Queue.Audit.{
  IsAudited, IsAudited-append_other, IsAudited-lease, IsAudited-close_other, IsAudited-close,
}

-- Every attempt belongs to a job of the table.
abbrev pub IsKnown : List JobRow → AttemptRow → Type 0
IsKnown jobs attempt = exists (has_job_id attempt.job_id) jobs ≡ true

-- An update under a test that tells the rows apart by `P`.
All-update_split :
    {A : Type 0} (test : A → Bool) (change : A → A) (P Q : A → Type 0) (xs : List A)
    → ((a : A) → test a ≡ true → P a → Q (change a))
    → ((a : A) → test a ≡ false → P a → Q a)
    → All P xs
    → All Q (update test change xs)
All-update_split test change P Q [] hit miss h = tt
All-update_split test change P Q (x ∷ xs) hit miss h =
    ground (arith, hit x, miss x, All-update_split test change P Q xs hit miss h.1)

pub All-both :
    {A : Type 0} (P Q : A → Type 0) (xs : List A) → All P xs → All Q xs → All (λ a. P a × Q a) xs
All-both P Q [] p q = tt
All-both P Q (x ∷ xs) p q = ((p.0, q.0), All-both P Q xs p.1 q.1)

pub release-IsAudited :
    (row : JobRow) (state : JobState) (outcome : Outcome) (cause : Option String)
    (current : Datetime) (db : Database)
    → is_processing state ≡ false
    → IsKeyed db.detail_fetch_jobs
    → Among row db.detail_fetch_jobs
    → All (IsAudited db.job_attempts) db.detail_fetch_jobs
    → let db' = release row.job_id row.attempt_count state outcome cause current db in
      All (IsAudited db'.job_attempts) db'.detail_fetch_jobs
release-IsAudited row state outcome cause current db ended keyed among audited =
    let only = λ (job : JobRow). has_job_id row.job_id job ≡ true → job ≡ row in
    All-update_split (has_job_id row.job_id) (released state cause current)
      (λ job. only job × IsAudited db.job_attempts job) _ db.detail_fetch_jobs
      (λ job hit h.
        let e = h.0 hit in
        subst
          (λ j.
            IsAudited
              (update (is_attempt row.job_id row.attempt_count) (closed outcome cause current)
                db.job_attempts)
              (released state cause current j))
          (sym e)
          (IsAudited-close outcome cause state cause current db.job_attempts row ended
            (subst (IsAudited db.job_attempts) e h.1)))
      (λ job miss h.
        IsAudited-close_other row.job_id row.attempt_count outcome cause current db.job_attempts job
          miss h.1)
      (All-both only (IsAudited db.job_attempts) db.detail_fetch_jobs
        (IsKeyed-Among row db.detail_fetch_jobs keyed among) audited)

eligible_pending :
    (now : Timestamp) (row : JobRow) → is_eligible now row ≡ true → row.state ≡ JobState.pending
unfolding is_eligible
eligible_pending now row h = ground arith

and-eq-true : (a b : Bool) → (a && b) ≡ true → (a ≡ true) × (b ≡ true)
and-eq-true a b h = ground arith

pub lease-IsAudited :
    (worker_id : String) (expires current now : Datetime) (attempt_id : String) (row : JobRow)
    (db : Database)
    → is_eligible (timestamp now) row ≡ true
    → IsKeyed db.detail_fetch_jobs
    → Among row db.detail_fetch_jobs
    → All (IsAudited db.job_attempts) db.detail_fetch_jobs
    → let db' = with_lease worker_id expires current attempt_id row db in
      All (IsAudited db'.job_attempts) db'.detail_fetch_jobs
lease-IsAudited worker_id expires current now attempt_id row db eligible keyed among audited =
    let pending = eligible_pending (timestamp now) row eligible in
    let only = λ (job : JobRow). has_job_id row.job_id job ≡ true → job ≡ row in
    All-update_split (λ job. has_job_id row.job_id job && is_pending job.state)
      (leased (row.attempt_count + 1) worker_id expires current)
      (λ job. only job × IsAudited db.job_attempts job) _ db.detail_fetch_jobs
      (λ job hit h.
        let e = h.0 (and-eq-true _ _ hit).0 in
        subst
          (λ j.
            IsAudited
              (append_row
                (new_attempt attempt_id row.job_id (row.attempt_count + 1) worker_id current)
                db.job_attempts)
              (leased (row.attempt_count + 1) worker_id expires current j))
          (sym e)
          (IsAudited-lease db.job_attempts attempt_id worker_id expires current row pending
            (subst (IsAudited db.job_attempts) e h.1)))
      (λ job miss h.
        let other : (job.job_id == row.job_id) ≡ false = ground (arith, h.0, pending, miss) in
        IsAudited-append_other db.job_attempts _ job (ne_sym job.job_id row.job_id other) h.1)
      (All-both only (IsAudited db.job_attempts) db.detail_fetch_jobs
        (IsKeyed-Among row db.detail_fetch_jobs keyed among) audited)

pub release-IsKnown :
    (id : String) (n : ℕ) (state : JobState) (outcome : Outcome) (cause : Option String)
    (current : Datetime) (db : Database)
    → All (IsKnown db.detail_fetch_jobs) db.job_attempts
    → let db' = release id n state outcome cause current db in
      All (IsKnown db'.detail_fetch_jobs) db'.job_attempts
release-IsKnown id n state outcome cause current db known =
    let jobs = update (has_job_id id) (released state cause current) db.detail_fetch_jobs in
    All-update (is_attempt id n) (closed outcome cause current) (IsKnown jobs) db.job_attempts
      (λ a _ h. h)
      (All-map (IsKnown db.detail_fetch_jobs) (IsKnown jobs) db.job_attempts
        (λ a h.
          exists-update (has_job_id id) (released state cause current) (has_job_id a.job_id)
            db.detail_fetch_jobs (λ j. refl)
          ∙ h)
        known)

pub lease-IsKnown :
    (worker_id : String) (expires current : Datetime) (attempt_id : String) (row : JobRow)
    (db : Database)
    → Among row db.detail_fetch_jobs
    → All (IsKnown db.detail_fetch_jobs) db.job_attempts
    → let db' = with_lease worker_id expires current attempt_id row db in
      All (IsKnown db'.detail_fetch_jobs) db'.job_attempts
lease-IsKnown worker_id expires current attempt_id row db among known =
    let test = λ (job : JobRow). has_job_id row.job_id job && is_pending job.state in
    let set = leased (row.attempt_count + 1) worker_id expires current in
    let jobs = update test set db.detail_fetch_jobs in
    let keep =
      λ (id : String). exists-update test set (has_job_id id) db.detail_fetch_jobs (λ j. refl) in
    All-append (IsKnown jobs) db.job_attempts
      (new_attempt attempt_id row.job_id (row.attempt_count + 1) worker_id current ∷ [])
      (All-map (IsKnown db.detail_fetch_jobs) (IsKnown jobs) db.job_attempts
        (λ a h. keep a.job_id ∙ h) known)
      (
        keep row.job_id
            ∙ exists-Among (has_job_id row.job_id) db.detail_fetch_jobs row among
                (eq_refl row.job_id),
        tt,
      )

-- The rows that the loop of recovery has still to release.
abbrev pub IsRunning : List JobRow → JobRow → Type 0
IsRunning jobs row = Among row jobs × (row.state ≡ JobState.processing)

Among-update :
    {A : Type 0} (test : A → Bool) (change : A → A) (a : A) (xs : List A)
    → test a ≡ false
    → Among a xs
    → Among a (update test change xs)
Among-update test change a [] h m = absurd m
Among-update test change a (x ∷ xs) h (inl e) = inl (ground (arith, h, e))
Among-update test change a (x ∷ xs) h (inr m) = inr (Among-update test change a xs h m)

recovered_not_processing : (row : JobRow) → is_processing (recovered_state row) ≡ false
recovered_not_processing row = ground arith

still-IsRunning :
    (row : JobRow) (state : JobState) (cause : Option String) (current : Datetime)
    (jobs rows : List JobRow)
    → exists (has_job_id row.job_id) rows ≡ false
    → All (IsRunning jobs) rows
    → All (IsRunning (update (has_job_id row.job_id) (released state cause current) jobs)) rows
still-IsRunning row state cause current jobs [] k h = tt
still-IsRunning row state cause current jobs (r ∷ rows) k h =
    let (other, rest) = or-eq-false _ _ k in
    (
      (
        Among-update (has_job_id row.job_id) (released state cause current) r jobs other h.0.0,
        h.0.1,
      ),
      still-IsRunning row state cause current jobs rows rest h.1,
    )

pub recover_rows-IsAudited :
    (current : Datetime) (rows : List JobRow) (db : Database)
    → IsKeyed rows
    → All (IsRunning db.detail_fetch_jobs) rows
    → IsKeyed db.detail_fetch_jobs
    → All (IsAudited db.job_attempts) db.detail_fetch_jobs
    → All (IsKnown db.detail_fetch_jobs) db.job_attempts
    → let db' = recover_rows current rows db in
      All (IsAudited db'.job_attempts) db'.detail_fetch_jobs
      × All (IsKnown db'.detail_fetch_jobs) db'.job_attempts
unfolding recover_rows
recover_rows-IsAudited current [] db kr running keyed audited known = (audited, known)
recover_rows-IsAudited current (row ∷ rows) db kr running keyed audited known =
    recover_rows-IsAudited current rows _ kr.1
      (still-IsRunning row (recovered_state row) (some "abandoned_lease") current
        db.detail_fetch_jobs rows kr.0 running.1)
      (Key.IsKeyed-update (λ (job : JobRow). job.job_id) (has_job_id row.job_id)
        (released (recovered_state row) (some "abandoned_lease") current) db.detail_fetch_jobs
        (λ j. refl) keyed)
      (release-IsAudited row (recovered_state row) Outcome.abandoned (some "abandoned_lease")
        current db (recovered_not_processing row) keyed running.0.0 audited)
      (release-IsKnown row.job_id row.attempt_count (recovered_state row) Outcome.abandoned
        (some "abandoned_lease") current db known)

pub select_all-IsKeyed :
    (test : JobRow → Bool) (jobs : List JobRow) → IsKeyed jobs → IsKeyed (select_all test jobs)
select_all-IsKeyed test [] k = tt
select_all-IsKeyed test (job ∷ jobs) k =
    ground
      (arith, exists-select_all test (has_job_id job.job_id) jobs, select_all-IsKeyed test jobs k.1)

pub abandoned-IsRunning :
    (now : Timestamp) (jobs rows : List JobRow)
    → ((r : JobRow) → Among r rows → Among r jobs × (is_abandoned now r ≡ true))
    → All (IsRunning jobs) rows
abandoned-IsRunning now jobs [] h = tt
abandoned-IsRunning now jobs (r ∷ rows) h =
    let (among, test) = h r (inl refl) in
    (
      (among, abandoned_processing now r test),
      abandoned-IsRunning now jobs rows (λ x m. h x (inr m)),
    )
