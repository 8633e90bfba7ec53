-- ===== src/Scheduler.antt =====
-- crates/recognition/src/scheduler.rs: the queue of recognition jobs and the thread that owns the
-- decoder. A critical section of the queue's mutex is one step, as is each access to a job's
-- execution control; steps of the worker, of callers and of whoever cancels interleave. A control
-- is changed by the calls of Execution, each at the access at which it takes effect. The caller's
-- side of the channel, with its bound of 60 seconds, is not modelled.
pub mod Accounting
pub mod Stopping
pub mod Cancelling
pub mod Tests
use gigaam_v3_runtime.Base.{
  ℕ, ◌+◌, ◌-◌, ◌%◌, Bool, true, false, Option, none, some, List, [], ◌∷◌, ◌++◌, if◌then◌else◌, ◌==◌,
  length, Result, ok, err,
}
use gigaam_v3_runtime.Execution.{
  ExecutionState, ready, ControlError, Op, start, fail, acknowledge_cancellation, Reply, state,
  result, apply, cancellation_won,
}

pub data Priority : Type 0 where
  tick window : Priority

-- The control of a job is named by the request that owns it; what it decodes is left out.
pub record Job : Type 0 where
  pub owner : ℕ

pub data SchedulerError : Type 0 where
  refused : ControlError → SchedulerError
  decoder_failed : ℕ → SchedulerError
  execution_cancelled decoder_panicked stopped_after_failure scheduler_stopped : SchedulerError

pub record Queue : Type 0 where
  pub ticks : List Job
  pub windows : List Job
  pub stopped : Bool

abbrev pub u64_range : ℕ
u64_range = 18446744073709551616

-- `fetch_add` and `fetch_sub` of an `AtomicU64`.
unfoldable pub fetch_add : ℕ → ℕ → ℕ
fetch_add value n = (value + n) % u64_range

unfoldable pub fetch_sub : ℕ → ℕ → ℕ
fetch_sub value n = (value + (u64_range - n % u64_range)) % u64_range

module _ (Decoded : Type 0) where
  pub data JobEvent : Type 0 where
    started : JobEvent
    finished : Result SchedulerError Decoded → JobEvent

  -- Where the worker stands: at the queue; before `start`; before the test that follows a refused
  -- start; in the decoder; before the test that follows the decoder; before an acknowledgement
  -- that is followed by an event; before the `fail` that follows a panic; before the critical
  -- section of `stop_after_panic`; before the test, the acknowledgement and the `fail` of the first
  -- of the drained jobs; returned.
  pub data Stage : Type 0 where
    picking stopping gone : Stage
    starting decoding failing : Job → Stage
    refusing : Job → ControlError → Stage
    judging : Job → Result SchedulerError Decoded → Stage
    acknowledging : Job → SchedulerError → Stage
    draining : List Job → Stage
    acknowledging_drained failing_drained : Job → List Job → Stage

  -- The newest event and the newest reply of `enqueue` stand first.
  pub record Scheduler : Type 0 where
    pub queue : Queue
    pub pending : ℕ
    pub controls : ℕ → ExecutionState
    pub stage : Stage
    pub events : List (ℕ × JobEvent)
    pub replies : List (ℕ × Result SchedulerError (Unit {0}))

  unfoldable pub spawn : Scheduler
  spawn = record {
    queue = record { ticks = []; windows = []; stopped = false };
    pending = 0;
    controls = λ owner. ready;
    stage = picking;
    events = [];
    replies = [];
  }

  unfoldable pub call : Op → ℕ → Scheduler → Scheduler
  call op owner w = record w {
    controls =
        λ other. if other == owner then (apply op (w.controls owner)).0 else w.controls other;
  }

  send_event : ℕ → JobEvent → Stage → Scheduler → Scheduler
  send_event owner event stage w = record w { events = (owner, event) ∷ w.events; stage = stage }

  -- `ScheduledRecognizer::enqueue`: the push.
  push : Priority → Job → Queue → Queue
  push tick job q = record q { ticks = q.ticks ++ (job ∷ []) }
  push window job q = record q { windows = q.windows ++ (job ∷ []) }

  unfoldable pub enqueue_job : Priority → Job → Scheduler → Scheduler
  unfolding call push fetch_add
  enqueue_job priority job w =
      if w.queue.stopped
      then record (call fail job.owner w) {
        replies = (job.owner, err scheduler_stopped) ∷ w.replies;
      }
      else record w {
        queue = push priority job w.queue;
        pending = fetch_add w.pending 1;
        replies = (job.owner, ok tt) ∷ w.replies;
      }

  -- `Drop`: the part before the join.
  unfoldable pub drop_scheduler : Scheduler → Scheduler
  drop_scheduler w = record w { queue = record w.queue { stopped = true } }

  -- `ticks.pop_front().or_else(|| windows.pop_front())`.
  unfoldable pub pop : Queue → Option (Job × Queue)
  pop q = elim q.ticks [
    | job ∷ rest ↦ some (job, record q { ticks = rest })
    | [] ↦ elim q.windows [ job ∷ rest ↦ some (job, record q { windows = rest }) | [] ↦ none ]
  ]

  -- The worker at the queue; without a job it waits, or returns when the queue has stopped.
  unfoldable pub pick : Scheduler → Scheduler
  unfolding pop fetch_sub
  pick w = elim (pop w.queue) [
    | some (job, q) ↦ record w { queue = q; pending = fetch_sub w.pending 1; stage = starting job }
    | none ↦ if w.queue.stopped then record w { stage = gone } else w
  ]

  start_job : Job → Reply → Scheduler → Scheduler
  unfolding send_event
  start_job job (result (err e)) w = record w { stage = refusing job e }
  start_job job (result (ok u)) w = send_event job.owner started (decoding job) w
  start_job job (state s) w = w

  -- The critical section of `stop_after_panic`.
  unfoldable pub stop : Scheduler → Scheduler
  unfolding fetch_sub
  stop w =
      let drained = w.queue.ticks ++ w.queue.windows in
      record w {
        queue = record { ticks = []; windows = []; stopped = true };
        pending = fetch_sub w.pending (length drained);
        stage = draining drained;
      }

  won : Scheduler → Job → Bool
  won w job = cancellation_won (w.controls job.owner)

  -- The next step of the worker. The decoder's answer is given with the step; `none` is a panic.
  unfoldable pub work_at : Option (Result SchedulerError Decoded) → Stage → Scheduler → Scheduler
  unfolding call send_event pick start_job stop won
  work_at answer picking w = pick w
  work_at answer (starting job) w =
      start_job job (apply start (w.controls job.owner)).1 (call start job.owner w)
  work_at answer (refusing job e) w =
      if won w job
      then record w { stage = acknowledging job (refused e) }
      else send_event job.owner (finished (err (refused e))) picking w
  work_at (some r) (decoding job) w = record w { stage = judging job r }
  work_at none (decoding job) w = record w { stage = failing job }
  work_at answer (judging job r) w =
      if won w job
      then record w { stage = acknowledging job execution_cancelled }
      else send_event job.owner (finished r) picking w
  work_at answer (acknowledging job e) w =
      send_event job.owner (finished (err e)) picking (call acknowledge_cancellation job.owner w)
  work_at answer (failing job) w =
      send_event job.owner (finished (err decoder_panicked)) stopping (call fail job.owner w)
  work_at answer stopping w = stop w
  work_at answer (draining []) w = record w { stage = gone }
  work_at answer (draining (job ∷ rest)) w = record w {
    stage = if won w job then acknowledging_drained job rest else failing_drained job rest;
  }
  work_at answer (acknowledging_drained job rest) w =
      send_event job.owner (finished (err execution_cancelled)) (draining rest)
        (call acknowledge_cancellation job.owner w)
  work_at answer (failing_drained job rest) w =
      send_event job.owner (finished (err stopped_after_failure)) (draining rest)
        (call fail job.owner w)
  work_at answer gone w = w

  -- Who moves next: the worker, a caller's `enqueue`, a holder of a control, or `Drop`.
  pub data Turn : Type 0 where
    works : Option (Result SchedulerError Decoded) → Turn
    enqueues : Priority → Job → Turn
    calls : Op → ℕ → Turn
    drops : Turn

  unfoldable pub step : Scheduler → Turn → Scheduler
  step w (works answer) = work_at answer w.stage w
  step w (enqueues priority job) = enqueue_job priority job w
  step w (calls op owner) = call op owner w
  step w drops = drop_scheduler w

  unfoldable pub run : Scheduler → List Turn → Scheduler
  run w [] = w
  run w (t ∷ ts) = run (step w t) ts
