-- ===== src/Execution/Tests.antt =====
-- Runs of the lifecycle cell.
use gigaam_v3_runtime.Base.{ℕ, ◌≡◌, refl, true, List, [], ◌∷◌, arith, inl}
use gigaam_v3_runtime.Execution.{
  acknowledge_cancellation, cancelled, cancel_requested, completed, Op, request_cancellation,
  complete, enqueue, start, Reply, state, exchanging, returned, advance, cancellation_won, decide,
}
use gigaam_v3_runtime.Execution.Threads.{run, begin, step, run_returns}
use gigaam_v3_runtime.Execution.Calls.{TakesEffect}
use gigaam_v3_runtime.Execution.Linear.{run_linearizes}
use gigaam_v3_runtime.Execution.Safety.{run-cancellation_won, run_terminal}

-- A worker starts and completes while a caller cancels between its load and its exchange.
abbrev race : List Op
race = enqueue ∷ start ∷ complete ∷ request_cancellation ∷ []

abbrev race_schedule : List ℕ
race_schedule = 0 ∷ 0 ∷ 1 ∷ 1 ∷ 2 ∷ 3 ∷ 3 ∷ 2 ∷ 2 ∷ 2 ∷ []

race_cancels : (run (begin race) race_schedule).cell ≡ cancel_requested
unfolding run begin step advance
race_cancels = refl

run-cancellation_won_example :
    cancellation_won (run (run (begin race) race_schedule) (2 ∷ 2 ∷ [])).cell ≡ true
unfolding run begin step advance cancellation_won
run-cancellation_won_example = run-cancellation_won race race_schedule (2 ∷ 2 ∷ []) refl

run_terminal_example :
    (run (run (begin (complete ∷ race)) (0 ∷ 0 ∷ [])) (1 ∷ 1 ∷ 4 ∷ 4 ∷ [])).cell
    ≡ (run (begin (complete ∷ race)) (0 ∷ 0 ∷ [])).cell
unfolding run begin step advance
run_terminal_example = run_terminal (complete ∷ race) (0 ∷ 0 ∷ []) (1 ∷ 1 ∷ 4 ∷ 4 ∷ []) (inl refl)

abbrev long_schedule : List ℕ
long_schedule = 0 ∷ 0 ∷ 0 ∷ 0 ∷ 0 ∷ 0 ∷ 0 ∷ 0 ∷ 0 ∷ 0 ∷ 0 ∷ []

run_returns_example : (r : Reply) × (returned (state completed) ≡ returned r)
unfolding run begin step advance
run_returns_example =
    run_returns (complete ∷ []) long_schedule 0 (returned (state completed)) (omega arith) refl

-- The completion that lost the race replies that the request is cancelled.
run_linearizes_example :
    TakesEffect complete cancel_requested cancelled (returned (state cancelled))
unfolding run begin step advance decide
run_linearizes_example =
    run_linearizes race race_schedule 2 complete
      (exchanging acknowledge_cancellation cancel_requested cancelled (state cancelled))
      (returned (state cancelled)) refl refl tt refl
