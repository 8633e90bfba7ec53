-- ===== src/Scheduler/Cancelling.antt =====
-- A job whose cancellation has won does not enter the decoder.
use gigaam_v3_runtime.Base.{
  ℕ, ◌≡◌, refl, ap, ◌∙◌, Bool, true, Option, [], ◌∷◌, arith, if◌then◌else◌, ◌==◌, ==_iff, ◌⊎◌,
  Result, err,
}
use gigaam_v3_runtime.Execution.{
  ExecutionState, cancel_requested, cancelled, Op, execution_cancelled, start, result, apply,
  cancellation_won, acknowledge_cancellation,
}
use gigaam_v3_runtime.Scheduler.{
  Job, SchedulerError, refused, finished, picking, starting, refusing, acknowledging, send_event,
  won, start_job, Scheduler, call, work_at, works, step, run,
}

won_cases :
    (s : ExecutionState) → cancellation_won s ≡ true → (s ≡ cancel_requested) ⊎ (s ≡ cancelled)
unfolding cancellation_won
won_cases s h = ground arith

start_won :
    (s : ExecutionState)
    → cancellation_won s ≡ true
    → apply start s ≡ (s, result (err execution_cancelled))
unfolding apply cancellation_won
start_won s h = ground arith

acknowledge_won :
    (s : ExecutionState)
    → cancellation_won s ≡ true
    → (apply acknowledge_cancellation s).0 ≡ cancelled
unfolding apply cancellation_won
acknowledge_won s h = ground arith

if_true : {A : Type 0} {b : Bool} (x y : A) → b ≡ true → (if b then x else y) ≡ x
if_true x y h = rw h refl

same_owner : (k : ℕ) → (k == k) ≡ true
same_owner k = (==_iff k k).1 refl

module _ (Decoded : Type 0) where
  -- The scheduler once the worker has found the start refused, has found the cancellation, and
  -- has acknowledged it.
  abbrev refused_at : Job → Scheduler Decoded → Scheduler Decoded
  refused_at job w = record (call Decoded start job.owner w) {
    stage = refusing job execution_cancelled;
  }

  abbrev found_at : Job → Scheduler Decoded → Scheduler Decoded
  found_at job w = record (refused_at job w) {
    stage = acknowledging job (refused execution_cancelled);
  }

  call_own :
      (op : Op) (k : ℕ) (w : Scheduler Decoded)
      → (call Decoded op k w).controls k ≡ (apply op (w.controls k)).0
  unfolding call
  call_own op k w = rw same_owner refl

  refuses :
      (w : Scheduler Decoded) (job : Job) (answer : Option (Result SchedulerError Decoded))
      → w.stage ≡ starting job
      → cancellation_won (w.controls job.owner) ≡ true
      → step Decoded w (works answer) ≡ refused_at job w
  unfolding step work_at start_job
  refuses w job answer e h =
      ap (λ stage. work_at Decoded answer stage w) e
      ∙ ap (λ r. start_job Decoded job r (call Decoded start job.owner w))
          (ap (λ x. x.1) (start_won (w.controls job.owner) h))

  still_won :
      (w : Scheduler Decoded) (k : ℕ)
      → cancellation_won (w.controls k) ≡ true
      → cancellation_won ((call Decoded start k w).controls k) ≡ true
  still_won w k h =
      ap cancellation_won (call_own start k w ∙ ap (λ x. x.0) (start_won (w.controls k) h)) ∙ h

  finds :
      (w : Scheduler Decoded) (job : Job) (answer : Option (Result SchedulerError Decoded))
      → cancellation_won (w.controls job.owner) ≡ true
      → step Decoded (refused_at job w) (works answer) ≡ found_at job w
  unfolding step work_at won
  finds w job answer h = if_true _ _ (still_won w job.owner h)

  -- When the worker takes a job whose cancellation has won, its next three accesses, with no other
  -- in between, acknowledge the cancellation and answer the job as cancelled without the decoder.
  pub cancelled_job_refused :
      (w : Scheduler Decoded) (job : Job) (a b c : Option (Result SchedulerError Decoded))
      → w.stage ≡ starting job
      → cancellation_won (w.controls job.owner) ≡ true
      → let w' = run Decoded w (works a ∷ works b ∷ works c ∷ []) in
        (w'.events ≡ (job.owner, finished (err (refused execution_cancelled))) ∷ w.events)
        × (w'.stage ≡ picking)
        × (w'.controls job.owner ≡ cancelled)
  unfolding run step work_at send_event
  cancelled_job_refused w job a b c e h =
      let took = refuses w job a e h in
      let found = finds w job b h in
      let path =
        ap (λ x. step Decoded (step Decoded x (works b)) (works c)) took
        ∙ ap (λ x. step Decoded x (works c)) found in
      (
        ap (λ x. x.events) path,
        ap (λ x. x.stage) path,
        ap (λ x. x.controls job.owner) path
            ∙ (call_own acknowledge_cancellation job.owner (found_at job w)
                ∙ acknowledge_won _ (still_won w job.owner h)),
      )
