-- ===== src/Worker/Interrupted.antt =====
-- A property that every effect keeps, and `run` of src/orchestration/synthetic_worker.py, which may be
-- interrupted before each of its effects.
use scraper_project.Base.{
  String, refl, subst, Bool, true, false, Option, none, some, ◌==◌, eq_iff, if◌then◌else◌,
}
use scraper_project.Timestamp.{Datetime}
use scraper_project.Contracts.Value.{ℤ}
use scraper_project.Database.Rows.{RunRow}
use scraper_project.Repositories.Checkpoints
use scraper_project.Queue.{JobLease, Recovery}
use scraper_project.Worker
use scraper_project.Worker.{Progress, ended, reached}
use scraper_project.Worker.Actions.{World, Action, on_database, pure, ◌>>=◌}
use scraper_project.Worker.Environment.{Platform}
use scraper_project.Worker.Keeps.{Holds, Keeps, Holds-pure, Holds-if, Holds-bind, Holds-on_database}
use scraper_project.Worker.Calls.{IsKept, Call, Keeps-call, perform}
use scraper_project.Worker.Kept.{
  Keeps-pure, Keeps-attempt, Keeps-bind, Keeps-if, ensure_run-Keeps, discover_and_queue-Keeps,
  save-Keeps, get_run-Keeps,
}
use scraper_project.Worker.Recorded.{record_snapshot-Keeps, record_batch-Keeps}

-- What is known of the checkpoint that a run goes on with.
abbrev Known : (Option String → Type 0) → Progress → Type 0
Known From (ended result) = Unit
Known From (reached checkpoint) = From (some checkpoint)

module _ (env : Platform) (run_id : String) {From : Option String → Type 0} {I : World → Type 0}
    (kept : IsKept env.sha256 run_id (Worker.partition_id_of env run_id) From I) (lease_seconds : ℤ)
    (stop_after : Option String) (current : Datetime) where
  -- A stage keeps `I`, and leads to a checkpoint of which `From` is known.
  abbrev Leads : Action Progress → Type 0
  Leads m = Holds I (λ progress w. I w × Known From progress) I m

  Leads-pure : (progress : Progress) → Known From progress → Leads (pure progress)
  Leads-pure progress known = Holds-pure progress λ w h. (h, known)

  Leads-end : (result : Worker.SyntheticWorkerResult) → Leads (pure (ended result))
  Leads-end result = Leads-pure (ended result) tt

  Leads-if : (b : Bool) (m n : Action Progress) → Leads m → Leads n → Leads (if b then m else n)
  Leads-if b m n hm hn = Holds-if b m n (λ _. hm) (λ _. hn)

  Leads-ended :
      (b : Bool) (result : Worker.SyntheticWorkerResult) (checkpoint : String)
      → From (some checkpoint)
      → Leads (pure (if b then ended result else reached checkpoint))
  Leads-ended true result checkpoint known = Leads-pure (ended result) tt
  Leads-ended false result checkpoint known = Leads-pure (reached checkpoint) known

  Leads-bind :
      {A : Type 0} (m : Action A) (f : A → Action Progress)
      → Keeps I m
      → ((a : A) → Leads (f a))
      → Leads (m >>= f)
  Leads-bind m f hm hf = Holds-bind (λ _. I) m f hm hf

  continue_with-Leads :
      (stage : String → Action Progress) (progress : Progress)
      → ((checkpoint : String) → From (some checkpoint) → Leads (stage checkpoint))
      → Holds
          (λ w. I w × Known From progress)
          (λ p w. I w × Known From p)
          I
          (Worker.continue_with stage progress)
  unfolding Worker.continue_with
  continue_with-Leads stage (ended result) h = Holds-pure (ended result) λ w g. g
  continue_with-Leads stage (reached checkpoint) h = record {
    at = λ w g. (h checkpoint g.1).at w g.0;
  }

  at_checkpoint-Leads :
      (expected : String) (stage : Action Progress)
      → (From (some expected) → Leads stage)
      → (checkpoint : String) → From (some checkpoint)
      → Leads (Worker.at_checkpoint expected stage checkpoint)
  unfolding Worker.at_checkpoint
  at_checkpoint-Leads expected stage h checkpoint known =
      Holds-if (checkpoint == expected) _ _
        (λ e. h (subst (λ c. From (some c)) ((eq_iff checkpoint expected).0 e) known))
        (λ _. Leads-pure (reached checkpoint) known)

  discovery_stage-Leads :
      (recovery : Recovery) (checkpoint : Option String)
      → From checkpoint
      → Leads
          (Worker.discovery_stage env run_id lease_seconds stop_after current recovery checkpoint)
  unfolding Worker.discovery_stage
  discovery_stage-Leads recovery (some checkpoint) known = Leads-pure (reached checkpoint) known
  discovery_stage-Leads recovery none known =
      let next = kept.forward.discovered known in
      Leads-bind _ _ (discover_and_queue-Keeps env kept _ current next)
        λ _. Leads-ended _ _ "queued" next

  fetch_detail-Leads :
      (recovery : Recovery) (lease : JobLease)
      → From (some "snapshot-recorded")
      → Leads (Worker.fetch_detail env run_id lease_seconds stop_after current recovery lease)
  unfolding Worker.fetch_detail Worker.save perform
  fetch_detail-Leads recovery lease next =
      Leads-bind _ _ (record_snapshot-Keeps env kept _ lease.job_id run_id current) λ path.
        Leads-bind _ _ (Keeps-call kept _ (Call.succeed_job _ _ _) λ db. refl)
          λ _. Leads-bind _ _ (save-Keeps env kept _ _ next) λ _. Leads-ended _ _ _ next

  work-Leads :
      (recovery : Recovery) (lease : Option JobLease)
      → From (some "snapshot-recorded")
      → Leads (Worker.work env run_id lease_seconds stop_after current recovery lease)
  unfolding Worker.work Worker.stop_gracefully perform
  work-Leads recovery none next = Leads-end _
  work-Leads recovery (some lease) next = Leads-if _ _ _ (Leads-end _) (
      Leads-if _ _ _
        (Leads-bind _ _ (Keeps-call kept _ (Call.fail_job _ _ _ _) λ db. refl) λ _. Leads-end _)
        (fetch_detail-Leads recovery lease next))

  queued_stage-Leads :
      (recovery : Recovery)
      → From (some "queued")
      → Leads (Worker.queued_stage env run_id lease_seconds stop_after current recovery)
  unfolding Worker.queued_stage perform
  queued_stage-Leads recovery known =
      Leads-bind _ _ (Keeps-call kept _ (Call.lease_next _ _ _ _) λ db. refl)
        λ lease. work-Leads recovery lease (kept.forward.queued known)

  snapshot_stage-Leads :
      From (some "snapshot-recorded")
      → Leads (Worker.snapshot_stage env run_id lease_seconds stop_after current)
  unfolding Worker.snapshot_stage Worker.save perform
  snapshot_stage-Leads known =
      let next = kept.forward.recorded known in
      Leads-bind _ _ (Keeps-call kept _ (Call.start_parser _ _ _ _ _) λ db. refl) λ id.
        Leads-bind _ _ (Keeps-call kept _ (Call.complete_parser _ _) λ db. refl)
          λ _. Leads-bind _ _ (save-Keeps env kept _ _ next) λ _. Leads-pure _ next

  parser_stage-Leads :
      From (some "parser-completed")
      → Leads (Worker.parser_stage env run_id lease_seconds stop_after current)
  unfolding Worker.parser_stage Worker.save
  parser_stage-Leads known =
      let next = kept.forward.parsed known in
      Leads-bind _ _ (record_batch-Keeps env kept _ run_id _ current)
        λ _. Leads-bind _ _ (save-Keeps env kept _ _ next) λ _. Leads-pure _ next

  close_run-Keeps :
      (row : Option RunRow)
      → Keeps I (Worker.close_run env run_id lease_seconds stop_after current row)
  unfolding Worker.close_run Worker.complete_both perform
  close_run-Keeps row =
      Keeps-if _ _ _
        (Keeps-bind _ _ (Keeps-call kept _ (Call.complete_partition _ _) λ db. refl)
          λ _. Keeps-call kept _ (Call.complete_run _ _) λ db. refl)
        (Keeps-pure tt)

  batch_stage-Leads :
      From (some "batch-recorded")
      → Leads (Worker.batch_stage env run_id lease_seconds stop_after current)
  unfolding Worker.batch_stage Worker.save
  batch_stage-Leads known =
      let next = kept.forward.batched known in
      Leads-bind _ _ (get_run-Keeps env kept run_id) λ row.
        Leads-bind _ _ (close_run-Keeps row)
          λ _. Leads-bind _ _ (save-Keeps env kept _ _ next) λ _. Leads-pure _ next

  load-Holds :
      Holds I
        (λ checkpoint w. I w × From checkpoint)
        I
        (on_database (Checkpoints.load run_id (Worker.partition_id_of env run_id)))
  unfolding on_database Checkpoints.load
  load-Holds =
      Holds-on_database (Checkpoints.load run_id (Worker.partition_id_of env run_id))
        λ w h. (h, kept.loads w h)

  abbrev Going : Progress → World → Type 0
  Going progress w = I w × Known From progress

  resume-Keeps :
      (recovery : Recovery)
      → Keeps I (Worker.resume env run_id lease_seconds stop_after current recovery)
  unfolding Worker.resume
  resume-Keeps recovery =
      Holds-bind (λ checkpoint w. I w × From checkpoint) _ _ load-Holds
        λ checkpoint.
          Holds-bind Going _ _
            (record { at = λ w h. (discovery_stage-Leads recovery checkpoint h.1).at w h.0 })
            λ discovered.
              Holds-bind Going _ _
                (continue_with-Leads _ discovered
                  (at_checkpoint-Leads _ _ (queued_stage-Leads recovery)))
                λ queued.
                  Holds-bind Going _ _
                    (continue_with-Leads _ queued (at_checkpoint-Leads _ _ snapshot_stage-Leads))
                    λ recorded.
                      Holds-bind Going _ _
                        (continue_with-Leads _ recorded
                          (at_checkpoint-Leads _ _ parser_stage-Leads))
                        λ parsed.
                          Holds-bind Going _ _
                            (continue_with-Leads _ parsed
                              (at_checkpoint-Leads _ _ batch_stage-Leads))
                            λ batched. Holds-pure _ λ w h. h.0

  -- What every effect keeps, a run keeps, wherever it stops.
  pub run-Keeps : Keeps I (Worker.run env run_id lease_seconds stop_after current)
  unfolding Worker.run perform
  run-Keeps = Keeps-bind _ _ (Keeps-attempt _) λ _. Keeps-bind _ _ (Keeps-attempt _) λ _.
      Keeps-bind _ _ (Keeps-call kept _ (Call.register_owner _) λ db. refl) λ _.
        Keeps-bind _ _ (Keeps-call kept _ (Call.recover_abandoned _) λ db. refl)
          λ recovery. Keeps-bind _ _ (ensure_run-Keeps env kept run_id _) λ _. resume-Keeps recovery
