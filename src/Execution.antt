-- ===== src/Execution.antt =====
-- crates/recognition/src/execution.rs: the lifecycle cell of one request. The `AtomicU8` is a cell
-- that several threads load and compare-exchange; each method is a loop over such attempts, and
-- one step of a thread is one atomic access.
pub mod Order
pub mod Threads
pub mod Safety
pub mod Calls
pub mod Linear
pub mod Tests
use gigaam_v3_runtime.Base.{
  ℕ, Bool, true, false, Option, none, some, if◌then◌else◌, ◌==◌, Result, ok, err,
}

pub data ExecutionState : Type 0 where
  ready queued running cancel_requested completed failed cancelled : ExecutionState

-- The constants READY to CANCELLED.
unfoldable pub stored : ExecutionState → ℕ
stored ready = 0
stored queued = 1
stored running = 2
stored cancel_requested = 3
stored completed = 4
stored failed = 5
stored cancelled = 6

-- `none` is the panic on an undeclared byte.
unfoldable pub from_stored : ℕ → Option ExecutionState
from_stored value =
    if value == 0
    then some ready
    else if value == 1
    then some queued
    else if value == 2
    then some running
    else if value == 3
    then some cancel_requested
    else if value == 4
    then some completed
    else if value == 5
    then some failed
    else if value == 6
    then some cancelled
    else none

pub data ControlError : Type 0 where
  execution_cancelled already_terminal : ControlError

pub data Op : Type 0 where
  request_cancellation acknowledge_cancellation complete fail enqueue start : Op

-- What a method returns: a state, or `Result<(), String>`.
pub data Reply : Type 0 where
  state : ExecutionState → Reply
  result : Result ControlError (Unit {0}) → Reply

-- What one turn of a loop does with the state that it has loaded.
pub data Action : Type 0 where
  exchange : ExecutionState → Reply → Action
  reply : Reply → Action
  continue_as : Op → Action

-- `request_cancellation`.
on_request_cancellation : ExecutionState → Action
on_request_cancellation ready = exchange cancel_requested (state cancel_requested)
on_request_cancellation queued = exchange cancel_requested (state cancel_requested)
on_request_cancellation running = exchange cancel_requested (state cancel_requested)
on_request_cancellation observed = reply (state observed)

-- `acknowledge_cancellation`.
on_acknowledge_cancellation : ExecutionState → Action
on_acknowledge_cancellation cancel_requested = exchange cancelled (state cancelled)
on_acknowledge_cancellation observed = reply (state observed)

-- `complete`.
on_complete : ExecutionState → Action
on_complete ready = exchange completed (state completed)
on_complete queued = exchange completed (state completed)
on_complete running = exchange completed (state completed)
on_complete cancel_requested = continue_as acknowledge_cancellation
on_complete observed = reply (state observed)

-- `fail`.
on_fail : ExecutionState → Action
on_fail ready = exchange failed (state failed)
on_fail queued = exchange failed (state failed)
on_fail running = exchange failed (state failed)
on_fail cancel_requested = continue_as acknowledge_cancellation
on_fail observed = reply (state observed)

-- `enqueue`.
on_enqueue : ExecutionState → Action
on_enqueue ready = exchange queued (result (ok tt))
on_enqueue queued = reply (result (ok tt))
on_enqueue running = reply (result (ok tt))
on_enqueue cancel_requested = reply (result (err execution_cancelled))
on_enqueue cancelled = reply (result (err execution_cancelled))
on_enqueue completed = reply (result (err already_terminal))
on_enqueue failed = reply (result (err already_terminal))

-- `start`.
on_start : ExecutionState → Action
on_start ready = exchange running (result (ok tt))
on_start queued = exchange running (result (ok tt))
on_start running = reply (result (ok tt))
on_start cancel_requested = reply (result (err execution_cancelled))
on_start cancelled = reply (result (err execution_cancelled))
on_start completed = reply (result (err already_terminal))
on_start failed = reply (result (err already_terminal))

unfoldable pub decide : Op → ExecutionState → Action
unfolding on_request_cancellation on_acknowledge_cancellation on_complete on_fail on_enqueue
    on_start
decide request_cancellation s = on_request_cancellation s
decide acknowledge_cancellation s = on_acknowledge_cancellation s
decide complete s = on_complete s
decide fail s = on_fail s
decide enqueue s = on_enqueue s
decide start s = on_start s

-- Where a thread stands in its call: before the load, before the `compare_exchange` with the
-- state that it observed, or behind the return.
pub data Position : Type 0 where
  loading : Op → Position
  exchanging : Op → ExecutionState → ExecutionState → Reply → Position
  returned : Reply → Position

loaded : Op → ExecutionState → Action → Position
loaded op observed (exchange new r) = exchanging op observed new r
loaded op observed (reply r) = returned r
loaded op observed (continue_as op') = loading op'

-- One atomic access of a thread to the cell: the new position, and the cell afterwards.
unfoldable pub advance : Position → ExecutionState → Position × ExecutionState
unfolding loaded decide stored
advance (loading op) cell = (loaded op cell (decide op cell), cell)
advance (exchanging op observed new r) cell =
    if stored cell == stored observed then (returned r, new) else (loading op, cell)
advance (returned r) cell = (returned r, cell)

-- `state`, on an atomic load.
unfoldable pub state_of : ExecutionState → Option ExecutionState
unfolding from_stored stored
state_of cell = from_stored (stored cell)

unfoldable pub cancellation_won : ExecutionState → Bool
cancellation_won cancel_requested = true
cancellation_won cancelled = true
cancellation_won other = false

-- The whole call when no other thread interferes. Only `complete` and `fail` go on as another
-- call, and that one does not.
settle_last : Action → ExecutionState → ExecutionState × Reply
settle_last (exchange new r) cell = (new, r)
settle_last (reply r) cell = (cell, r)
settle_last (continue_as op) cell = (cell, state cell)

settle : Action → ExecutionState → ExecutionState × Reply
unfolding settle_last decide
settle (exchange new r) cell = (new, r)
settle (reply r) cell = (cell, r)
settle (continue_as op) cell = settle_last (decide op cell) cell

unfoldable pub apply : Op → ExecutionState → ExecutionState × Reply
unfolding settle decide
apply op cell = settle (decide op cell) cell
