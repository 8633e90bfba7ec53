-- ===== src/Execution/Calls.antt =====
-- What each call of the lifecycle cell does as a whole, described apart from the loops of
-- crates/recognition/src/execution.rs, and the two kinds of access against that description.
use gigaam_v3_runtime.Base.{
  Bool, true, false, if◌then◌else◌, ◌≡◌, subst, ◌⊎◌, inl, inr, arith, Result, ok, err,
}
use gigaam_v3_runtime.Execution.{
  ExecutionState, ready, queued, running, cancel_requested, completed, failed, cancelled,
  ControlError, execution_cancelled, already_terminal, Op, request_cancellation,
  acknowledge_cancellation, complete, fail, enqueue, start, Reply, state, result, Position, loading,
  exchanging, returned, advance, apply, cancellation_won, decide, exchange,
}

-- A request that has not ended and that nobody has asked to cancel.
abbrev pub active : ExecutionState → Bool
active ready = true
active queued = true
active running = true
active s = false

-- A request that ends with this outcome, or cancelled where that was asked for.
abbrev pub ended_as : ExecutionState → ExecutionState → ExecutionState
ended_as outcome cancel_requested = cancelled
ended_as outcome s = if active s then outcome else s

-- Work may go on unless the request is being cancelled or has ended.
abbrev pub admission : ExecutionState → Result ControlError (Unit {0})
admission s =
    if active s
    then ok tt
    else if cancellation_won s
    then err execution_cancelled
    else err already_terminal

-- A call as a whole: the state that it leaves, for each state that it finds.
abbrev pub left_by : Op → ExecutionState → ExecutionState
left_by request_cancellation s = if active s then cancel_requested else s
left_by acknowledge_cancellation cancel_requested = cancelled
left_by acknowledge_cancellation s = s
left_by complete s = ended_as completed s
left_by fail s = ended_as failed s
left_by enqueue ready = queued
left_by enqueue s = s
left_by start s = if active s then running else s

-- And its reply: the calls of the worker that begin work are admitted or refused, and the others
-- report the state that they leave.
abbrev pub replied_by : Op → ExecutionState → Reply
replied_by enqueue s = result (admission s)
replied_by start s = result (admission s)
replied_by op s = state (left_by op s)

-- `apply`, the call without interference, is the call as a whole.
apply_lem : (op : Op) (s : ExecutionState) → apply op s ≡ (left_by op s, replied_by op s)
unfolding apply cancellation_won
apply_lem op s = ground arith

-- A call that has not returned.
abbrev pub Pending : Position → Type 0
Pending (returned r) = ⊥
Pending p = Unit {0}

-- What an access of a call does: at the last one the call takes effect as a whole and replies so,
-- and none before it changes the state.
abbrev pub TakesEffect : Op → ExecutionState → ExecutionState → Position → Type 0
TakesEffect op s t (returned r) = (t ≡ left_by op s) × (r ≡ replied_by op s)
TakesEffect op s t p = t ≡ s

-- The methods that go on as `acknowledge_cancellation`.
abbrev Ends : Op → Type 0
Ends op = (op ≡ complete) ⊎ (op ≡ fail)

-- The method whose loop a call is in is its own, or that of an acknowledgement once cancellation
-- has won.
abbrev pub Within : Op → Op → ExecutionState → Type 0
Within op now s =
    (now ≡ op) ⊎ (Ends op × (now ≡ acknowledge_cancellation) × (cancellation_won s ≡ true))

abbrev pub Serves : Op → Position → ExecutionState → Type 0
Serves op (loading now) s = Within op now s
Serves op (exchanging now observed new r) s = Within op now s
Serves op (returned r) s = Unit {0}

exchange_effect :
    (op : Op) (s new : ExecutionState) (r : Reply)
    → decide op s ≡ exchange new r
    → (new ≡ left_by op s) × (r ≡ replied_by op s)
unfolding decide cancellation_won
exchange_effect op s new r h = ground arith

pub load_effect : (op : Op) (s : ExecutionState) → TakesEffect op s s (advance (loading op) s).0
unfolding advance decide cancellation_won
load_effect op s = ground arith

-- The last access of an acknowledgement, in the call that went on as one.
acknowledged_effect :
    (op : Op) (s new : ExecutionState) (r : Reply)
    → Ends op
    → cancellation_won s ≡ true
    → decide acknowledge_cancellation s ≡ exchange new r
    → (new ≡ left_by op s) × (r ≡ replied_by op s)
unfolding decide cancellation_won
acknowledged_effect op s new r e w h = ground (arith, e, w)

pub acknowledged_load :
    (op : Op) (s : ExecutionState)
    → Ends op
    → cancellation_won s ≡ true
    → TakesEffect op s s (advance (loading acknowledge_cancellation) s).0
unfolding advance decide cancellation_won
acknowledged_load op s e w = ground (arith, e, w)

pub Within-effect :
    (op now : Op) (s new : ExecutionState) (r : Reply)
    → Within op now s
    → decide now s ≡ exchange new r
    → (new ≡ left_by op s) × (r ≡ replied_by op s)
Within-effect op now s new r (inl e) h =
    exchange_effect op s new r (subst (λ o. decide o s ≡ exchange new r) e h)
Within-effect op now s new r (inr (e, same, won)) h =
    acknowledged_effect op s new r e won (subst (λ o. decide o s ≡ exchange new r) same h)
