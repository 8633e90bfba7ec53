-- ===== src/Execution/Order.antt =====
-- The order in which the lifecycle cell moves, and what one atomic access does to it.
use gigaam_v3_runtime.Base.{
  ℕ, ◌<◌, ◌≤◌, ◌≡◌, refl, ◌⊎◌, inl, inr, some, arith, ◌+◌, ◌*◌, ◌-◌, ◌==◌, ==_iff, Bool-cases,
}
use gigaam_v3_runtime.Execution.{
  ExecutionState, ready, queued, running, cancel_requested, completed, failed, cancelled, stored,
  state_of, Op, Reply, exchange, decide, complete, fail, Position, loading, exchanging, returned,
  advance,
}

-- How far a request has come.
abbrev pub rank : ExecutionState → ℕ
rank ready = 0
rank queued = 1
rank running = 2
rank cancel_requested = 3
rank completed = 4
rank failed = 4
rank cancelled = 4

-- The edges of the lifecycle.
pub data Edge : ExecutionState → ExecutionState → Type 0 where
  submit : Edge ready queued
  begin_ready : Edge ready running
  begin_queued : Edge queued running
  cancel : {s : ExecutionState} → rank s < 3 → Edge s cancel_requested
  finish : {s : ExecutionState} → rank s < 3 → Edge s completed
  break : {s : ExecutionState} → rank s < 3 → Edge s failed
  acknowledge : Edge cancel_requested cancelled

-- A thread that is about to exchange does so along an edge that its method chose for the state
-- that it observed.
abbrev pub Chosen : Position → Type 0
Chosen (exchanging op observed new r) = decide op observed ≡ exchange new r
Chosen p = Unit {0}

-- The byte of a declared state reads back as that state, so `state` never panics.
pub state_of-total : (s : ExecutionState) → state_of s ≡ some s
unfolding state_of
state_of-total ready = refl
state_of-total s = refl

pub stored_injective : (s t : ExecutionState) → stored s ≡ stored t → s ≡ t
unfolding stored
stored_injective s t h = ground arith

ruleset edges = (submit, begin_ready, begin_queued, cancel, finish, break, acknowledge)

exchange-Edge :
    (op : Op) (s new : ExecutionState) (r : Reply) → decide op s ≡ exchange new r → Edge s new
unfolding decide
exchange-Edge op s new r h = grind (arith, edges)

-- One access keeps the cell or moves it along an edge.
pub advance_moves :
    (p : Position) (s : ExecutionState) → Chosen p → ((advance p s).1 ≡ s) ⊎ Edge s (advance p s).1
unfolding advance
advance_moves (loading op) s h = inl refl
advance_moves (returned r) s h = inl refl
advance_moves (exchanging op observed new r) s h = elim (Bool-cases (stored s == stored observed)) [
  | inl e ↦
      rw (e, advance)
        (inr
          (rw (stored_injective s observed ((==_iff _ _).0 e)) (exchange-Edge op observed new r h)))
  | inr e ↦ rw (e, advance) (inl refl)
]

-- The state that a thread observed is not ahead of the cell.
abbrev pub Behind : Position → ExecutionState → Type 0
Behind (exchanging op observed new r) s = rank observed ≤ rank s
Behind p s = Unit {0}

pub Edge-rank : {s t : ExecutionState} → Edge s t → rank s < rank t
Edge-rank submit = omega arith
Edge-rank begin_ready = omega arith
Edge-rank begin_queued = omega arith
Edge-rank (cancel h) = h
Edge-rank (finish h) = omega arith
Edge-rank (break h) = omega arith
Edge-rank acknowledge = omega arith

pub rank-advance : (p : Position) (s : ExecutionState) → Chosen p → rank s ≤ rank (advance p s).1
rank-advance p s h = elim (advance_moves p s h) [
  | inl e ↦ rw e (omega arith)
  | inr e ↦ omega (arith, Edge-rank e)
]

pub advance-Chosen : (p : Position) (s : ExecutionState) → Chosen p → Chosen (advance p s).0
unfolding advance
advance-Chosen (loading op) s h = ground arith
advance-Chosen (returned r) s h = tt
advance-Chosen (exchanging op observed new r) s h = ground arith

pub advance-Behind :
    (p : Position) (s : ExecutionState) → Behind p s → Behind (advance p s).0 (advance p s).1
unfolding advance
advance-Behind (loading op) s h = ground arith
advance-Behind (returned r) s h = tt
advance-Behind (exchanging op observed new r) s h = ground arith

pub Behind-mono : (p : Position) (s t : ExecutionState) → rank s ≤ rank t → Behind p s → Behind p t
Behind-mono (loading op) s t h b = tt
Behind-mono (returned r) s t h b = tt
Behind-mono (exchanging op observed new r) s t h b = omega arith

-- A call that goes on as `acknowledge_cancellation` takes one more access.
abbrev extra : Op → ℕ
extra complete = 1
extra fail = 1
extra op = 0

-- How many more accesses a thread may need.
unfoldable pub budget : Position → ExecutionState → ℕ
budget (loading op) s = 2 * (5 - rank s) + extra op
budget (exchanging op observed new r) s = 2 * (5 - rank observed) + extra op - 1
budget (returned r) s = 0

pub budget_mono : (p : Position) (s t : ExecutionState) → rank s ≤ rank t → budget p t ≤ budget p s
unfolding budget
budget_mono (loading op) s t h = omega arith
budget_mono (returned r) s t h = omega arith
budget_mono (exchanging op observed new r) s t h = omega arith

pub budget-advance :
    (p : Position) (s : ExecutionState)
    → Chosen p
    → Behind p s
    → budget (advance p s).0 (advance p s).1 ≤ budget p s - 1
unfolding advance stored decide budget
budget-advance (loading op) s h b = ground arith
budget-advance (returned r) s h b = omega arith
budget-advance (exchanging op observed new r) s h b = ground arith
