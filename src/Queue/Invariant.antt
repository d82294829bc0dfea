-- ===== src/Queue/Invariant.antt =====
-- What holds of `detail_fetch_jobs` between two operations of the queue.
use scraper_project.Base.{
  ◌≤◌, ◌<◌, String, ◌≡◌, ◌≢◌, ◌⊎◌, refl, ap, sym, subst, ◌∙◌, inl, inr, List, [], ◌∷◌, arith, All,
  Among, Pointwise,
}
use scraper_project.Database.Rows.{JobRow, JobState}
use scraper_project.Database.Table.{exists}
use scraper_project.Queue.{has_job_id}
use scraper_project.Queue.Moves.{
  Move, stay, lease, complete, requeue, exhaust, IsLeased, IsIdle, IsKeyed,
}

-- The attempts stay within the limit; a job that waits has one left; a job is owned exactly while
-- it is processed; it failed only by using up its attempts, and ended only after an attempt.
pub record IsConsistent (job : JobRow) : Type 0 where
  pub bounded : job.attempt_count ≤ job.max_attempts
  pub retryable : job.state ≡ JobState.pending → job.attempt_count < job.max_attempts
  pub owned : job.state ≡ JobState.processing → IsLeased job
  pub idle : job.state ≢ JobState.processing → IsIdle job
  pub attempted : job.state ≢ JobState.pending → 0 < job.attempt_count
  pub spent : job.state ≡ JobState.failed_exhausted → job.attempt_count ≡ job.max_attempts

pub Move-IsConsistent : {a b : JobRow} → Move a b → IsConsistent a → IsConsistent b
Move-IsConsistent (stay e) c = rw e c
Move-IsConsistent (lease pending processing left more leased same) c = ground arith
Move-IsConsistent (complete processing done equal idle same) c = ground arith
Move-IsConsistent (requeue processing pending left equal idle same) c = ground arith
Move-IsConsistent (exhaust processing failed none_left equal idle same) c = ground arith

pub Move-job_id : {a b : JobRow} → Move a b → b.job_id ≡ a.job_id
Move-job_id (stay e) = ap (λ (job : JobRow). job.job_id) e
Move-job_id (lease _ _ _ _ _ same) = same.job_id
Move-job_id (complete _ _ _ _ same) = same.job_id
Move-job_id (requeue _ _ _ _ _ same) = same.job_id
Move-job_id (exhaust _ _ _ _ _ same) = same.job_id

pub Moves-All :
    (jobs jobs' : List JobRow)
    → Pointwise Move jobs jobs'
    → All IsConsistent jobs
    → All IsConsistent jobs'
Moves-All [] [] moves h = tt
Moves-All [] (job' ∷ jobs') moves h = absurd moves
Moves-All (job ∷ jobs) [] moves h = absurd moves
Moves-All (job ∷ jobs) (job' ∷ jobs') moves h =
    (Move-IsConsistent moves.0 h.0, Moves-All jobs jobs' moves.1 h.1)

pub Moves-exists :
    (id : String) (jobs jobs' : List JobRow)
    → Pointwise Move jobs jobs'
    → exists (has_job_id id) jobs' ≡ exists (has_job_id id) jobs
Moves-exists id [] [] moves = refl
Moves-exists id [] (job' ∷ jobs') moves = absurd moves
Moves-exists id (job ∷ jobs) [] moves = absurd moves
Moves-exists id (job ∷ jobs) (job' ∷ jobs') moves =
    cc (Move-job_id moves.0, Moves-exists id jobs jobs' moves.1)

pub Moves-IsKeyed :
    (jobs jobs' : List JobRow) → Pointwise Move jobs jobs' → IsKeyed jobs → IsKeyed jobs'
Moves-IsKeyed [] [] moves k = tt
Moves-IsKeyed [] (job' ∷ jobs') moves k = absurd moves
Moves-IsKeyed (job ∷ jobs) [] moves k = absurd moves
Moves-IsKeyed (job ∷ jobs) (job' ∷ jobs') moves k = (
  cc (Moves-exists job'.job_id jobs jobs' moves.1, Move-job_id moves.0, k.0),
  Moves-IsKeyed jobs jobs' moves.1 k.1,
)

abbrev pub IsFinal : JobRow → Type 0
IsFinal job = (job.state ≡ JobState.succeeded) ⊎ (job.state ≡ JobState.failed_exhausted)

pub Move-IsFinal : {a b : JobRow} → Move a b → IsFinal a → b ≡ a
Move-IsFinal (stay e) f = e
Move-IsFinal (lease pending _ _ _ _ _) f = ground arith
Move-IsFinal (complete processing _ _ _ _) f = ground arith
Move-IsFinal (requeue processing _ _ _ _ _) f = ground arith
Move-IsFinal (exhaust processing _ _ _ _ _) f = ground arith

pub Moves-IsFinal :
    (job : JobRow) (jobs jobs' : List JobRow)
    → Pointwise Move jobs jobs'
    → IsFinal job
    → Among job jobs
    → Among job jobs'
Moves-IsFinal job [] jobs' moves f m = absurd m
Moves-IsFinal job (a ∷ jobs) [] moves f m = absurd moves
Moves-IsFinal job (a ∷ jobs) (b ∷ jobs') moves f (inl e) =
    inl (Move-IsFinal moves.0 (subst IsFinal (sym e) f) ∙ e)
Moves-IsFinal job (a ∷ jobs) (b ∷ jobs') moves f (inr m) =
    inr (Moves-IsFinal job jobs jobs' moves.1 f m)
