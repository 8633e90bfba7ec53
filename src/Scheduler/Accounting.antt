-- ===== src/Scheduler/Accounting.antt =====
-- No accepted job is lost, and none is answered twice.
use gigaam_v3_runtime.Base.{
  ℕ, suc, ◌+◌, ◌≡◌, refl, ap, ◌⊎◌, inl, inr, Bool, Option, none, some, List, [], ◌∷◌, ◌++◌, arith,
  if◌then◌else◌, ◌==◌, length, Result, ok, err,
}
use gigaam_v3_runtime.Execution.{start, Reply, state, result, apply}
use gigaam_v3_runtime.Scheduler.{
  Job, tick, window, Queue, SchedulerError, JobEvent, started, finished, Stage, picking, stopping,
  gone, send_event, won, push, start_job, starting, decoding, failing, refusing, judging,
  acknowledging, draining, acknowledging_drained, failing_drained, Scheduler, spawn, call,
  enqueue_job, drop_scheduler, pop, pick, stop, work_at, Turn, works, enqueues, calls, drops, step,
  run,
}

abbrev pub one_if : Bool → ℕ
one_if b = if b then 1 else 0

-- The jobs of a request in a list.
abbrev pub jobs_of : ℕ → List Job → ℕ
jobs_of k [] = 0
jobs_of k (job ∷ rest) = one_if (job.owner == k) + jobs_of k rest

jobs_of-append : (k : ℕ) (xs ys : List Job) → jobs_of k (xs ++ ys) ≡ jobs_of k xs + jobs_of k ys
jobs_of-append k [] ys = omega arith
jobs_of-append k (x ∷ xs) ys = omega (arith, jobs_of-append k xs ys)

-- How often `enqueue` has accepted a job of a request.
abbrev pub accepted : ℕ → List (ℕ × Result SchedulerError (Unit {0})) → ℕ
accepted k [] = 0
accepted k ((owner, ok u) ∷ rest) = one_if (owner == k) + accepted k rest
accepted k ((owner, err e) ∷ rest) = accepted k rest

module _ (Decoded : Type 0) where
  -- How often a job of a request has been answered.
  abbrev pub answered : ℕ → List (ℕ × JobEvent Decoded) → ℕ
  answered k [] = 0
  answered k ((owner, started) ∷ rest) = answered k rest
  answered k ((owner, finished r) ∷ rest) = one_if (owner == k) + answered k rest

  -- The jobs of a request that the worker has taken and not answered.
  abbrev pub in_hand : ℕ → Stage Decoded → ℕ
  in_hand k (starting job) = one_if (job.owner == k)
  in_hand k (decoding job) = one_if (job.owner == k)
  in_hand k (failing job) = one_if (job.owner == k)
  in_hand k (refusing job e) = one_if (job.owner == k)
  in_hand k (judging job r) = one_if (job.owner == k)
  in_hand k (acknowledging job e) = one_if (job.owner == k)
  in_hand k (draining jobs) = jobs_of k jobs
  in_hand k (acknowledging_drained job rest) = one_if (job.owner == k) + jobs_of k rest
  in_hand k (failing_drained job rest) = one_if (job.owner == k) + jobs_of k rest
  in_hand k stage = 0

  abbrev pub waiting : ℕ → Queue → ℕ
  waiting k q = jobs_of k q.ticks + jobs_of k q.windows

  Balanced : ℕ → Scheduler Decoded → Type 0
  Balanced k w = answered k w.events + waiting k w.queue + in_hand k w.stage ≡ accepted k w.replies

  -- What the queue hands out, and what is left of it.
  abbrev pub Popped : ℕ → Queue → Type 0
  Popped k q =
      ((pop Decoded q ≡ none) × (q.ticks ≡ []) × (q.windows ≡ []))
      ⊎ ((job : Job) × (q' : Queue) × (pop Decoded q ≡ some (job, q'))
          × (waiting k q ≡ one_if (job.owner == k) + waiting k q')
          × (length q.ticks + length q.windows ≡ suc (length q'.ticks + length q'.windows))
          × (q'.stopped ≡ q.stopped))

  pop_lists :
      (k : ℕ) (ticks windows : List Job) (stopped : Bool)
      → Popped k (record { ticks = ticks; windows = windows; stopped = stopped })
  unfolding pop
  pop_lists k [] [] stopped = inl (refl, refl, refl)
  pop_lists k [] (job ∷ rest) stopped = inr (job, _, refl, omega arith, omega arith, refl)
  pop_lists k (job ∷ rest) windows stopped = inr (job, _, refl, omega arith, omega arith, refl)

  pub pop_cases : (k : ℕ) (q : Queue) → Popped k q
  pop_cases k q = pop_lists k q.ticks q.windows q.stopped

  pick-Balanced :
      (k : ℕ) (w : Scheduler Decoded)
      → w.stage ≡ picking
      → Balanced k w
      → Balanced k (pick Decoded w)
  unfolding pick Balanced
  pick-Balanced k w at_queue h = elim (pop_cases k w.queue) [
    | inl (e, _, _) ↦ rw (e, pick) (ground (arith, ap (in_hand k) at_queue))
    | inr (job, q, e, counts, _, _) ↦
        rw (e, pick) (omega (arith, h, counts, ap (in_hand k) at_queue))
  ]

  start_job-Balanced :
      (k : ℕ) (job : Job) (r : Reply) (w : Scheduler Decoded)
      → w.stage ≡ starting job
      → Balanced k w
      → Balanced k (start_job Decoded job r w)
  unfolding start_job send_event Balanced
  start_job-Balanced k job (result (ok u)) w e h = omega (arith, ap (in_hand k) e)
  start_job-Balanced k job (result (err c)) w e h = omega (arith, ap (in_hand k) e)
  start_job-Balanced k job (state s) w e h = h

  work_at-Balanced :
      (k : ℕ) (answer : Option (Result SchedulerError Decoded)) (w : Scheduler Decoded)
      (stage : Stage Decoded)
      → w.stage ≡ stage
      → Balanced k w
      → Balanced k (work_at Decoded answer stage w)
  unfolding work_at Balanced send_event call won stop
  work_at-Balanced k answer w picking e h = pick-Balanced k w e h
  work_at-Balanced k answer w (starting job) e h =
      start_job-Balanced k job (apply start (w.controls job.owner)).1
        (call Decoded start job.owner w) e h
  work_at-Balanced k answer w (refusing job c) e h = ground (arith, ap (in_hand k) e)
  work_at-Balanced k (some r) w (decoding job) e h = omega (arith, ap (in_hand k) e)
  work_at-Balanced k none w (decoding job) e h = omega (arith, ap (in_hand k) e)
  work_at-Balanced k answer w (judging job r) e h = ground (arith, ap (in_hand k) e)
  work_at-Balanced k answer w (acknowledging job c) e h = omega (arith, ap (in_hand k) e)
  work_at-Balanced k answer w (failing job) e h = omega (arith, ap (in_hand k) e)
  work_at-Balanced k answer w stopping e h =
      omega (arith, ap (in_hand k) e, jobs_of-append k w.queue.ticks w.queue.windows)
  work_at-Balanced k answer w (draining []) e h = omega (arith, ap (in_hand k) e)
  work_at-Balanced k answer w (draining (job ∷ rest)) e h = ground (arith, ap (in_hand k) e)
  work_at-Balanced k answer w (acknowledging_drained job rest) e h = omega (arith, ap (in_hand k) e)
  work_at-Balanced k answer w (failing_drained job rest) e h = omega (arith, ap (in_hand k) e)
  work_at-Balanced k answer w gone e h = h

  step-Balanced :
      (k : ℕ) (w : Scheduler Decoded) (t : Turn Decoded)
      → Balanced k w
      → Balanced k (step Decoded w t)
  unfolding step Balanced enqueue_job push call drop_scheduler
  step-Balanced k w (works answer) h = work_at-Balanced k answer w w.stage refl h
  step-Balanced k w (enqueues tick job) h =
      ground (arith, jobs_of-append k w.queue.ticks (job ∷ []))
  step-Balanced k w (enqueues window job) h =
      ground (arith, jobs_of-append k w.queue.windows (job ∷ []))
  step-Balanced k w (calls op owner) h = h
  step-Balanced k w drops h = h

  run-Balanced :
      (k : ℕ) (w : Scheduler Decoded) (ts : List (Turn Decoded))
      → Balanced k w
      → Balanced k (run Decoded w ts)
  unfolding run
  run-Balanced k w [] h = h
  run-Balanced k w (t ∷ ts) h = run-Balanced k (step Decoded w t) ts (step-Balanced k w t h)

  -- Whatever callers, cancellers, the decoder and the worker do: each job of a request that the
  -- queue has accepted is waiting, in the worker's hand, or answered exactly once.
  pub run_answers :
      (turns : List (Turn Decoded)) (k : ℕ)
      → let w = run Decoded (spawn Decoded) turns in
        answered k w.events + waiting k w.queue + in_hand k w.stage ≡ accepted k w.replies
  unfolding Balanced spawn
  run_answers turns k = run-Balanced k (spawn Decoded) turns (omega arith)
