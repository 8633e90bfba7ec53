-- ===== src/Scheduler/Stopping.antt =====
-- The pending counter, and the end of the worker.
use gigaam_v3_runtime.Base.{
  ℕ, suc, ◌+◌, ◌%◌, ◌≡◌, ◌<◌, refl, sym, ap, ◌∙◌, inl, inr, Bool, true, false, Option, none, some,
  List, [], ◌∷◌, ◌++◌, arith, if◌then◌else◌, length, length-append, Result, ok, err,
}
use gigaam_v3_runtime.Execution.{start, Reply, state, result, apply}
use gigaam_v3_runtime.Scheduler.{
  Job, Priority, tick, window, Queue, SchedulerError, u64_range, fetch_add, fetch_sub, Stage,
  picking, stopping, gone, send_event, won, push, start_job, starting, decoding, failing, refusing,
  judging, acknowledging, draining, acknowledging_drained, failing_drained, Scheduler, spawn, call,
  enqueue_job, drop_scheduler, pick, stop, work_at, Turn, works, enqueues, calls, drops, step, run,
}
use gigaam_v3_runtime.Scheduler.Accounting.{
  accepted, jobs_of, answered, in_hand, pop_cases, run_answers,
}

fetch_add-mod : (n : ℕ) → fetch_add (n % u64_range) 1 ≡ (n + 1) % u64_range
unfolding fetch_add
fetch_add-mod n = omega arith

fetch_sub-suc : (n : ℕ) → fetch_sub (suc n % u64_range) 1 ≡ n % u64_range
unfolding fetch_sub
fetch_sub-suc n = omega arith

fetch_sub-same : (n : ℕ) → fetch_sub (n % u64_range) n ≡ 0
unfolding fetch_sub
fetch_sub-same n = omega arith

jobs_of_none : (k : ℕ) (jobs : List Job) → length jobs ≡ 0 → jobs_of k jobs ≡ 0
jobs_of_none k [] h = refl
jobs_of_none k (job ∷ rest) h = absurd (omega arith)

module _ (Decoded : Type 0) where
  -- The number of waiting jobs.
  abbrev pub waits : Queue → ℕ
  waits q = length q.ticks + length q.windows

  -- Behind the critical section of the stop there is no job, and the queue takes none.
  abbrev IsClosed : Queue → Type 0
  IsClosed q = (q.stopped ≡ true) × (waits q ≡ 0)

  closed_open : (q : Queue) → IsClosed q → q.stopped ≡ false → ⊥
  closed_open q (stopped, none_left) open' = cc

  abbrev pub is_last : Stage Decoded → Bool
  is_last gone = true
  is_last (draining jobs) = true
  is_last (acknowledging_drained job rest) = true
  is_last (failing_drained job rest) = true
  is_last stage = false

  Sound : Scheduler Decoded → Type 0
  Sound w = (w.pending ≡ waits w.queue % u64_range) × (is_last w.stage ≡ true → IsClosed w.queue)

  if-Sound :
      (b : Bool) (x y : Scheduler Decoded)
      → (b ≡ true → Sound x)
      → (b ≡ false → Sound y)
      → Sound (if b then x else y)
  if-Sound true x y h k = h refl
  if-Sound false x y h k = k refl

  pick-Sound : (w : Scheduler Decoded) → w.stage ≡ picking → Sound w → Sound (pick Decoded w)
  unfolding pick Sound
  pick-Sound w at_queue (p, c) = elim (pop_cases Decoded 0 w.queue) [
    | inl (e, no_tick, no_window) ↦
        rw (e, pick)
          (if-Sound w.queue.stopped _ w
            (λ stopped.
              (p, λ last. (stopped, omega (arith, ap length no_tick, ap length no_window))))
            (λ running. (p, c)))
    | inr (job, q, e, counts, sizes, same) ↦
        rw (e, pick)
          (
            ap (λ n. fetch_sub n 1) (p ∙ ap (λ n. n % u64_range) sizes) ∙ fetch_sub-suc (waits q),
            λ last. cc,
          )
  ]

  start_job-Sound :
      (job : Job) (r : Reply) (w : Scheduler Decoded) → Sound w → Sound (start_job Decoded job r w)
  unfolding start_job send_event Sound
  start_job-Sound job (result (ok u)) w (p, c) = (p, λ last. cc)
  start_job-Sound job (result (err f)) w (p, c) = (p, λ last. cc)
  start_job-Sound job (state s) w h = h

  work_at-Sound :
      (answer : Option (Result SchedulerError Decoded)) (w : Scheduler Decoded)
      (stage : Stage Decoded)
      → w.stage ≡ stage
      → Sound w
      → Sound (work_at Decoded answer stage w)
  unfolding work_at Sound send_event call won stop
  work_at-Sound answer w picking e h = pick-Sound w e h
  work_at-Sound answer w (starting job) e h =
      start_job-Sound job (apply start (w.controls job.owner)).1 (call Decoded start job.owner w) h
  work_at-Sound answer w (refusing job c) e h =
      if-Sound (won Decoded w job) _ _ (λ yes'. (h.0, λ last. cc)) (λ no'. (h.0, λ last. cc))
  work_at-Sound (some r) w (decoding job) e h = (h.0, λ last. cc)
  work_at-Sound none w (decoding job) e h = (h.0, λ last. cc)
  work_at-Sound answer w (judging job r) e h =
      if-Sound (won Decoded w job) _ _ (λ yes'. (h.0, λ last. cc)) (λ no'. (h.0, λ last. cc))
  work_at-Sound answer w (acknowledging job c) e h = (h.0, λ last. cc)
  work_at-Sound answer w (failing job) e h = (h.0, λ last. cc)
  work_at-Sound answer w stopping e h = (
    ap (λ n. fetch_sub n (length (w.queue.ticks ++ w.queue.windows)))
          (h.0 ∙ ap (λ n. n % u64_range) (sym (length-append w.queue.ticks w.queue.windows)))
        ∙ fetch_sub-same (length (w.queue.ticks ++ w.queue.windows)),
    λ last. (refl, omega arith),
  )
  work_at-Sound answer w (draining []) e h = (h.0, λ last. h.1 (ap is_last e))
  work_at-Sound answer w (draining (job ∷ rest)) e h = (h.0, λ last. h.1 (ap is_last e))
  work_at-Sound answer w (acknowledging_drained job rest) e h = (h.0, λ last. h.1 (ap is_last e))
  work_at-Sound answer w (failing_drained job rest) e h = (h.0, λ last. h.1 (ap is_last e))
  work_at-Sound answer w gone e h = h

  push-waits :
      (priority : Priority) (job : Job) (q : Queue)
      → (waits (push Decoded priority job q) ≡ waits q + 1)
        × ((push Decoded priority job q).stopped ≡ q.stopped)
  unfolding push
  push-waits tick job q = (omega (arith, length-append q.ticks (job ∷ [])), refl)
  push-waits window job q = (omega (arith, length-append q.windows (job ∷ [])), refl)

  enqueue_job-Sound :
      (priority : Priority) (job : Job) (w : Scheduler Decoded)
      → Sound w
      → Sound (enqueue_job Decoded priority job w)
  unfolding enqueue_job Sound call
  enqueue_job-Sound priority job w h =
      if-Sound w.queue.stopped _ _ (λ stopped. h)
        (λ open'. (
          ap (λ n. fetch_add n 1) h.0
              ∙ (fetch_add-mod (waits w.queue)
                  ∙ ap (λ n. n % u64_range) (sym (push-waits priority job w.queue).0)),
          λ last. absurd (closed_open w.queue (h.1 last) open'),
        ))

  step-Sound : (w : Scheduler Decoded) (t : Turn Decoded) → Sound w → Sound (step Decoded w t)
  unfolding step Sound call drop_scheduler
  step-Sound w (works answer) h = work_at-Sound answer w w.stage refl h
  step-Sound w (enqueues priority job) h = enqueue_job-Sound priority job w h
  step-Sound w (calls op owner) h = h
  step-Sound w drops h = (h.0, λ last. (refl, (h.1 last).1))

  run-Sound :
      (w : Scheduler Decoded) (ts : List (Turn Decoded)) → Sound w → Sound (run Decoded w ts)
  unfolding run
  run-Sound w [] h = h
  run-Sound w (t ∷ ts) h = run-Sound (step Decoded w t) ts (step-Sound w t h)

  spawn-Sound : Sound (spawn Decoded)
  unfolding spawn Sound
  spawn-Sound = (refl, λ last. cc)

  -- The pending counter is the number of waiting jobs, as long as that number fits the counter.
  pub run_pending :
      (turns : List (Turn Decoded))
      → waits (run Decoded (spawn Decoded) turns).queue < u64_range
      → (run Decoded (spawn Decoded) turns).pending
        ≡ waits (run Decoded (spawn Decoded) turns).queue
  unfolding Sound
  run_pending turns fits = omega (arith, (run-Sound (spawn Decoded) turns spawn-Sound).0)

  -- When the worker has returned, be it after a panic of the decoder or at the drop, every job of
  -- a request that the queue has accepted has been answered, and answered once.
  pub run_gone :
      (turns : List (Turn Decoded)) (k : ℕ)
      → (run Decoded (spawn Decoded) turns).stage ≡ gone
      → answered Decoded k (run Decoded (spawn Decoded) turns).events
        ≡ accepted k (run Decoded (spawn Decoded) turns).replies
  unfolding Sound
  run_gone turns k e =
      let w = run Decoded (spawn Decoded) turns in
      let closed = (run-Sound (spawn Decoded) turns spawn-Sound).1 (ap is_last e) in
      omega (
        arith,
        run_answers Decoded turns k,
        ap (in_hand Decoded k) e,
        jobs_of_none k w.queue.ticks (omega (arith, closed.1)),
        jobs_of_none k w.queue.windows (omega (arith, closed.1)),
      )
