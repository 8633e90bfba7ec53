-- ===== src/Scheduler/Tests.antt =====
-- A tick overtakes a window, the decoder panics on it, and the window is answered by the stop.
use gigaam_v3_runtime.Base.{ℕ, ◌+◌, ◌≡◌, refl, List, [], ◌∷◌, arith, none, err}
use gigaam_v3_runtime.Execution.{
  apply, cancellation_won, request_cancellation, execution_cancelled, cancelled,
}
use gigaam_v3_runtime.Scheduler.{
  calls, refused, picking, tick, window, decoder_panicked, stopped_after_failure, started, finished,
  spawn, call, enqueue_job, pop, pick, stop, work_at, Turn, works, enqueues, step, run, fetch_add,
  fetch_sub,
}
use gigaam_v3_runtime.Scheduler.Cancelling.{cancelled_job_refused}
use gigaam_v3_runtime.Scheduler.Accounting.{accepted, answered, waiting, in_hand, run_answers}
use gigaam_v3_runtime.Scheduler.Stopping.{run_pending, run_gone}

abbrev work : Turn ℕ
work = works none

abbrev first_turns : List (Turn ℕ)
first_turns =
    enqueues window (record { owner = 1 }) ∷ enqueues tick (record { owner = 2 }) ∷ work ∷ []

-- Start, panic, fail, stop, and for the window its test and its fail, and the return.
abbrev all_turns : List (Turn ℕ)
all_turns =
    enqueues window (record { owner = 1 })
    ∷ enqueues tick (record { owner = 2 })
    ∷ work
    ∷ work
    ∷ work
    ∷ work
    ∷ work
    ∷ work
    ∷ work
    ∷ work
    ∷ []

panic_answers :
    (run ℕ (spawn ℕ) all_turns).events
    ≡ (1, finished (err stopped_after_failure))
      ∷ (2, finished (err decoder_panicked))
      ∷ (2, started)
      ∷ []
unfolding run step spawn call enqueue_job pop pick stop work_at apply cancellation_won fetch_add
    fetch_sub
panic_answers = refl

run_answers_example :
    answered ℕ 1 (run ℕ (spawn ℕ) first_turns).events
      + waiting ℕ 1 (run ℕ (spawn ℕ) first_turns).queue
      + in_hand ℕ 1 (run ℕ (spawn ℕ) first_turns).stage
    ≡ accepted 1 (run ℕ (spawn ℕ) first_turns).replies
run_answers_example = run_answers ℕ first_turns 1

run_pending_example : (run ℕ (spawn ℕ) first_turns).pending ≡ 1
unfolding run step spawn enqueue_job pop pick work_at fetch_add fetch_sub
run_pending_example = run_pending ℕ first_turns (omega arith)

run_gone_example :
    answered ℕ 1 (run ℕ (spawn ℕ) all_turns).events ≡ accepted 1 (run ℕ (spawn ℕ) all_turns).replies
unfolding run step spawn call enqueue_job pop pick stop work_at apply cancellation_won fetch_add
    fetch_sub
run_gone_example = run_gone ℕ all_turns 1 refl

-- The tick's request is cancelled while it waits, and the worker takes it.
abbrev cancelled_turns : List (Turn ℕ)
cancelled_turns = enqueues tick (record { owner = 2 }) ∷ calls request_cancellation 2 ∷ work ∷ []

cancelled_job_refused_example :
    let w = run ℕ (spawn ℕ) cancelled_turns in
    let w' = run ℕ w (work ∷ work ∷ work ∷ []) in
    (w'.events ≡ (2, finished (err (refused execution_cancelled))) ∷ w.events)
    × (w'.stage ≡ picking)
    × (w'.controls 2 ≡ cancelled)
unfolding run step spawn call enqueue_job pop pick stop work_at apply cancellation_won fetch_add
    fetch_sub
cancelled_job_refused_example =
    cancelled_job_refused ℕ (run ℕ (spawn ℕ) cancelled_turns) (record { owner = 2 }) none none none
      refl refl
