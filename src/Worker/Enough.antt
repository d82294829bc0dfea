-- ===== src/Worker/Enough.antt =====
-- How many effects a run of src/orchestration/synthetic_worker.py has at most.
use scraper_project.Base.{ℕ, String, ◌≡◌, ◌≤◌, ◌+◌, false, Option, none, some, arith}
use scraper_project.Timestamp.{Datetime}
use scraper_project.Contracts.Value.{ℤ}
use scraper_project.Queue.{JobLease, Recovery}
use scraper_project.Worker
use scraper_project.Worker.{Progress, ended, reached}
use scraper_project.Worker.Actions.{World, Action}
use scraper_project.Worker.Environment.{Platform}
use scraper_project.Worker.Budget.{
  is_killed, Spends, Spends-pure, Spends-attempt, Spends-on_database, Spends-more, Spends-if,
  Spends-bind, Spends-transact,
}
use scraper_project.Worker.Budget.Methods.{
  Spends-idle, Spends-ensure_run, Spends-discover_and_queue, Spends-record_snapshot,
  Spends-record_batch,
}

Spends-continue_with :
    (n : ℕ) (stage : String → Action Progress) (progress : Progress)
    → ((checkpoint : String) → Spends n (stage checkpoint))
    → Spends n (Worker.continue_with stage progress)
unfolding Worker.continue_with
Spends-continue_with n stage (ended result) h = Spends-idle n (Spends-pure _)
Spends-continue_with n stage (reached checkpoint) h = h checkpoint

Spends-at_checkpoint :
    (n : ℕ) (expected : String) (stage : Action Progress)
    → Spends n stage
    → (checkpoint : String) → Spends n (Worker.at_checkpoint expected stage checkpoint)
unfolding Worker.at_checkpoint
Spends-at_checkpoint n expected stage h checkpoint =
    Spends-if n _ _ _ h (Spends-idle n (Spends-pure _))

module _ (env : Platform) (run_id : String) (lease_seconds : ℤ) (stop_after : Option String)
    (current : Datetime) where
  Spends-discovery_stage :
      (recovery : Recovery) (checkpoint : Option String)
      → Spends 3
          (Worker.discovery_stage env run_id lease_seconds stop_after current recovery checkpoint)
  unfolding Worker.discovery_stage
  Spends-discovery_stage recovery (some checkpoint) = Spends-idle 3 (Spends-pure _)
  Spends-discovery_stage recovery none =
      Spends-bind 3 0 _ _ (Spends-discover_and_queue env _ _ _ current) λ _. Spends-pure _

  Spends-fetch_detail :
      (recovery : Recovery) (lease : JobLease)
      → Spends 5 (Worker.fetch_detail env run_id lease_seconds stop_after current recovery lease)
  unfolding Worker.fetch_detail Worker.save
  Spends-fetch_detail recovery lease =
      Spends-bind 3 2 _ _ (Spends-record_snapshot env _ _ _ current) λ path.
        Spends-bind 1 1 _ _ (Spends-transact _)
          λ _. Spends-bind 1 0 _ _ (Spends-transact _) λ _. Spends-pure _

  Spends-work :
      (recovery : Recovery) (lease : Option JobLease)
      → Spends 5 (Worker.work env run_id lease_seconds stop_after current recovery lease)
  unfolding Worker.work Worker.stop_gracefully
  Spends-work recovery none = Spends-idle 5 (Spends-pure _)
  Spends-work recovery (some lease) = Spends-if 5 _ _ _ (Spends-idle 5 (Spends-pure _)) (
      Spends-if 5 _ _ _
        (Spends-more 1 5 _ (omega arith)
          (Spends-bind 1 0 _ _ (Spends-transact _) λ _. Spends-pure _))
        (Spends-fetch_detail recovery lease))

  Spends-queued_stage :
      (recovery : Recovery)
      → Spends 6 (Worker.queued_stage env run_id lease_seconds stop_after current recovery)
  unfolding Worker.queued_stage
  Spends-queued_stage recovery = Spends-bind 1 5 _ _ (Spends-transact _) (Spends-work recovery)

  Spends-snapshot_stage :
      Spends 3 (Worker.snapshot_stage env run_id lease_seconds stop_after current)
  unfolding Worker.snapshot_stage Worker.save
  Spends-snapshot_stage = Spends-bind 1 2 _ _ (Spends-transact _) λ id.
      Spends-bind 1 1 _ _ (Spends-transact _)
        λ _. Spends-bind 1 0 _ _ (Spends-transact _) λ _. Spends-pure _

  Spends-parser_stage : Spends 4 (Worker.parser_stage env run_id lease_seconds stop_after current)
  unfolding Worker.parser_stage Worker.save
  Spends-parser_stage =
      Spends-bind 3 1 _ _ (Spends-record_batch env _ _ _ current)
        λ _. Spends-bind 1 0 _ _ (Spends-transact _) λ _. Spends-pure _

  Spends-batch_stage : Spends 3 (Worker.batch_stage env run_id lease_seconds stop_after current)
  unfolding Worker.batch_stage Worker.save Worker.close_run Worker.complete_both
  Spends-batch_stage = Spends-bind 0 3 _ _ (Spends-on_database _) λ row.
      Spends-bind 2 1 _ _
        (Spends-if 2 _ _ _ (Spends-bind 1 1 _ _ (Spends-transact _) λ _. Spends-transact _)
          (Spends-idle 2 (Spends-pure tt)))
        λ _. Spends-bind 1 0 _ _ (Spends-transact _) λ _. Spends-pure _

  Spends-resume :
      (recovery : Recovery)
      → Spends 19 (Worker.resume env run_id lease_seconds stop_after current recovery)
  unfolding Worker.resume
  Spends-resume recovery = Spends-bind 0 19 _ _ (Spends-on_database _) λ checkpoint.
      Spends-bind 3 16 _ _ (Spends-discovery_stage recovery checkpoint) λ discovered.
        Spends-bind 6 10 _ _
          (Spends-continue_with 6 _ discovered
            (Spends-at_checkpoint 6 _ _ (Spends-queued_stage recovery)))
          λ queued.
            Spends-bind 3 7 _ _
              (Spends-continue_with 3 _ queued (Spends-at_checkpoint 3 _ _ Spends-snapshot_stage))
              λ recorded.
                Spends-bind 4 3 _ _
                  (Spends-continue_with 4 _ recorded
                    (Spends-at_checkpoint 4 _ _ Spends-parser_stage))
                  λ parsed.
                    Spends-bind 3 0 _ _
                      (Spends-continue_with 3 _ parsed
                        (Spends-at_checkpoint 3 _ _ Spends-batch_stage))
                      λ batched. Spends-pure _

  Spends-run : Spends 26 (Worker.run env run_id lease_seconds stop_after current)
  unfolding Worker.run
  Spends-run = Spends-bind 0 26 _ _ (Spends-attempt _) λ _.
      Spends-bind 0 26 _ _ (Spends-attempt _) λ _. Spends-bind 1 25 _ _ (Spends-transact _) λ _.
        Spends-bind 1 24 _ _ (Spends-transact _)
          λ recovery. Spends-bind 5 19 _ _ (Spends-ensure_run env _ _) λ _. Spends-resume recovery

  -- A run ends by itself, with a result or an exception, once it has 26 effects left, and it then
  -- has used no more than 26.
  pub run-ends :
      (w : World)
      → 26 ≤ w.left
      → let (outcome, w') = Worker.run env run_id lease_seconds stop_after current w in
        (is_killed outcome ≡ false) × (w.left ≤ w'.left + 26)
  run-ends w enough = Spends-run.at w enough
