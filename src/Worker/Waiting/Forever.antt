-- ===== src/Worker/Waiting/Forever.antt =====
-- What every run of src/orchestration/synthetic_worker.py returns once its checkpoint is `queued` and
-- every job of the queue is over.
use scraper_project.Base.{String, ◌≡◌, refl, subst, sym, arith, Option, none, some}
use scraper_project.Timestamp.{Datetime}
use scraper_project.Contracts.Value.{ℤ}
use scraper_project.Repositories.Checkpoints
use scraper_project.Queue
use scraper_project.Queue.{JobLease, Recovery}
use scraper_project.Worker
use scraper_project.Worker.{SyntheticWorkerResult, Progress, ended, reached}
use scraper_project.Worker.Actions.{World, Action, pure, on_database}
use scraper_project.Worker.Environment.{Platform}
use scraper_project.Worker.Keeps.{After, Holds, Holds-pure, Holds-bind, Holds-on_database}
use scraper_project.Worker.Kept.{Keeps-attempt}
use scraper_project.Worker.Waiting.{
  IsStuck, Stuck-transact, Stuck-recover, Stuck-lease, Stuck-ensure_run,
}

abbrev pub IsWaiting : SyntheticWorkerResult → Type 0
IsWaiting result = (result.state ≡ "waiting_for_lease") × (result.checkpoint ≡ "queued")

abbrev HasWaited : Progress → Type 0
HasWaited (ended result) = IsWaiting result
HasWaited (reached checkpoint) = ⊥

module _ (env : Platform) (run_id : String) (lease_seconds : ℤ) (stop_after : Option String)
    (current : Datetime) where
  abbrev pub Stuck : World → Type 0
  Stuck = IsStuck run_id (Worker.partition_id_of env run_id)

  abbrev Waits : Progress → World → Type 0
  Waits progress w = Stuck w × HasWaited progress

  Stuck-load :
      Holds Stuck
        (λ checkpoint w. Stuck w × (checkpoint ≡ some "queued"))
        Stuck
        (on_database (Checkpoints.load run_id (Worker.partition_id_of env run_id)))
  unfolding on_database Checkpoints.load
  Stuck-load =
      Holds-on_database (Checkpoints.load run_id (Worker.partition_id_of env run_id))
        λ w h. (h, h.0)

  Stuck-work :
      (recovery : Recovery) (lease : Option JobLease)
      → Holds
          (λ w. Stuck w × (lease ≡ none))
          Waits
          Stuck
          (Worker.work env run_id lease_seconds stop_after current recovery lease)
  unfolding Worker.work
  Stuck-work recovery none = Holds-pure _ λ w h. (h.0, (refl, refl))
  Stuck-work recovery (some lease) = record { at = λ w h. ground (arith, h.1) }

  Stuck-queued :
      (recovery : Recovery)
      → Holds Stuck Waits Stuck
          (Worker.queued_stage env run_id lease_seconds stop_after current recovery)
  unfolding Worker.queued_stage
  Stuck-queued recovery =
      Holds-bind (λ lease w. Stuck w × (lease ≡ none)) _ _ (Stuck-lease run_id _ _ _ _ _)
        (Stuck-work recovery)

  -- The later stages are skipped.
  Stuck-skipped :
      (stage : String → Action Progress) (progress : Progress)
      → Holds (Waits progress) Waits Stuck (Worker.continue_with stage progress)
  unfolding Worker.continue_with
  Stuck-skipped stage (ended result) = Holds-pure (ended result) λ w h. h
  Stuck-skipped stage (reached checkpoint) = record { at = λ w h. absurd h.1 }

  Stuck-discovery :
      (recovery : Recovery) (checkpoint : Option String)
      → checkpoint ≡ some "queued"
      → Worker.discovery_stage env run_id lease_seconds stop_after current recovery checkpoint
        ≡ pure (reached "queued")
  unfolding Worker.discovery_stage
  Stuck-discovery recovery checkpoint e = rw e refl

  Stuck-stage :
      (recovery : Recovery) (progress : Progress)
      → Holds
          (λ w. Stuck w × (progress ≡ reached "queued"))
          Waits
          Stuck
          (Worker.continue_with
            (Worker.at_checkpoint "queued"
              (Worker.queued_stage env run_id lease_seconds stop_after current recovery))
            progress)
  unfolding Worker.continue_with Worker.at_checkpoint
  Stuck-stage recovery progress = record { at = λ w h. rw (h.1) ((Stuck-queued recovery).at w h.0) }

  Waits-result :
      (recovery : Recovery) (progress : Progress)
      → HasWaited progress
      → IsWaiting
          (Worker.completed_result env run_id lease_seconds stop_after current recovery progress)
  Waits-result recovery (ended result) h = h
  Waits-result recovery (reached checkpoint) h = absurd h

  abbrev pub Returns : SyntheticWorkerResult → World → Type 0
  Returns result w = IsWaiting result × Stuck w

  Stuck-resume :
      (recovery : Recovery)
      → Holds Stuck Returns Stuck
          (Worker.resume env run_id lease_seconds stop_after current recovery)
  unfolding Worker.resume
  Stuck-resume recovery =
      Holds-bind (λ checkpoint w. Stuck w × (checkpoint ≡ some "queued")) _ _ Stuck-load
        λ checkpoint.
          Holds-bind (λ progress w. Stuck w × (progress ≡ reached "queued")) _ _
            (record {
              at = λ w h.
                  subst
                    (λ m. After (λ progress v. Stuck v × (progress ≡ reached "queued")) Stuck (m w))
                    (sym (Stuck-discovery recovery checkpoint h.1))
                    ((Holds-pure (reached "queued") λ v g. (g, refl)).at w h.0);
            })
            λ discovered. Holds-bind Waits _ _ (Stuck-stage recovery discovered) λ queued.
              Holds-bind Waits _ _ (Stuck-skipped _ queued) λ recorded.
                Holds-bind Waits _ _ (Stuck-skipped _ recorded) λ parsed.
                  Holds-bind Waits _ _ (Stuck-skipped _ parsed)
                    λ batched. Holds-pure _ λ w h. (Waits-result recovery batched h.1, h.0)

  Stuck-run : Holds Stuck Returns Stuck (Worker.run env run_id lease_seconds stop_after current)
  unfolding Worker.run Queue.register_owner
  Stuck-run =
      Holds-bind (λ _. Stuck) _ _ (Keeps-attempt _)
        λ _.
          Holds-bind (λ _. Stuck) _ _ (Keeps-attempt _)
            λ _.
              Holds-bind (λ _. Stuck) _ _
                (Stuck-transact run_id _ _ λ db. (ground arith, ground arith))
                λ _.
                  Holds-bind (λ _. Stuck) _ _ (Stuck-recover run_id _ current)
                    λ recovery.
                      Holds-bind (λ _. Stuck) _ _ (Stuck-ensure_run env run_id)
                        λ _. Stuck-resume recovery

  -- Where the checkpoint of a run is `queued` and every job has succeeded or is exhausted, each
  -- later run that returns has the state `waiting_for_lease` and the checkpoint `queued`, and
  -- however the run ends, it leaves the same: the run is never completed.
  pub run-waits :
      (w : World)
      → Stuck w
      → After Returns Stuck (Worker.run env run_id lease_seconds stop_after current w)
  run-waits w h = Stuck-run.at w h
