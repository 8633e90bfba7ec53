-- ===== src/Execution/Safety.antt =====
-- What callers of the lifecycle cell rely on, whatever the interleaving.
use gigaam_v3_runtime.Base.{ℕ, ◌≤◌, ◌≡◌, refl, ◌∙◌, ◌⊎◌, inl, inr, true, List, [], ◌∷◌, arith}
use gigaam_v3_runtime.Execution.{ExecutionState, completed, failed, cancelled, Op, cancellation_won}
use gigaam_v3_runtime.Execution.Order.{
  rank, Edge, Edge-rank, submit, begin_ready, begin_queued, cancel, finish, break, acknowledge,
}
use gigaam_v3_runtime.Execution.Threads.{
  System, step, run, begin, Inv, begin-Inv, run-Inv, step-Inv, step_moves,
}

pub Edge-cancellation_won :
    {s t : ExecutionState} → Edge s t → cancellation_won s ≡ true → cancellation_won t ≡ true
unfolding cancellation_won
Edge-cancellation_won submit h = cc
Edge-cancellation_won begin_ready h = cc
Edge-cancellation_won begin_queued h = cc
Edge-cancellation_won (cancel p) h = refl
Edge-cancellation_won (finish p) h = ground arith
Edge-cancellation_won (break p) h = ground arith
Edge-cancellation_won acknowledge h = refl

run_won :
    (sys : System) (schedule : List ℕ)
    → Inv sys
    → cancellation_won sys.cell ≡ true
    → cancellation_won (run sys schedule).cell ≡ true
unfolding run
run_won sys [] v h = h
run_won sys (i ∷ schedule) v h =
    run_won (step sys i) schedule (step-Inv sys i v)
      (elim (step_moves sys i v) [ inl e ↦ rw e h | inr e ↦ Edge-cancellation_won e h ])

rank-max : (s : ExecutionState) → rank s ≤ 4
rank-max s = ground arith

abbrev IsTerminal : ExecutionState → Type 0
IsTerminal s = (s ≡ completed) ⊎ (s ≡ failed) ⊎ (s ≡ cancelled)

run-rank :
    (sys : System) (schedule : List ℕ)
    → Inv sys
    → rank sys.cell ≡ 4
    → (run sys schedule).cell ≡ sys.cell
unfolding run
run-rank sys [] v h = refl
run-rank sys (i ∷ schedule) v h = elim (step_moves sys i v) [
  | inl e ↦ run-rank (step sys i) schedule (step-Inv sys i v) (rw e h) ∙ e
  | inr e ↦ absurd (omega (arith, Edge-rank e, rank-max (step sys i).cell))
]

-- Once cancellation has won, whatever calls were made and however their accesses go on
-- interleaving, it stays won.
pub run-cancellation_won :
    (ops : List Op) (before later : List ℕ)
    → cancellation_won (run (begin ops) before).cell ≡ true
    → cancellation_won (run (run (begin ops) before) later).cell ≡ true
run-cancellation_won ops before later h =
    run_won (run (begin ops) before) later (run-Inv (begin ops) before (begin-Inv ops)) h

-- A cell that has come to completed, failed or cancelled keeps that state, whatever calls are
-- under way and however their accesses go on interleaving.
pub run_terminal :
    (ops : List Op) (before later : List ℕ)
    → IsTerminal (run (begin ops) before).cell
    → (run (run (begin ops) before) later).cell ≡ (run (begin ops) before).cell
run_terminal ops before later h =
    run-rank (run (begin ops) before) later (run-Inv (begin ops) before (begin-Inv ops))
      (ground arith)
