-- ===== src/Admission/Owner.antt =====
-- `RequestWorkOwner`: HTTP work owns its admission and its execution control. The control is the
-- lifecycle cell, changed by the calls of Execution.
use gigaam_v3_runtime.Base.{
  ◌+◌, ◌≡◌, refl, Bool, true, false, Option, none, some, ◌⊎◌, inl, inr, arith, if◌then◌else◌,
}
use gigaam_v3_runtime.Execution.{
  ExecutionState, completed, failed, cancelled, Op, complete, fail, apply, Reply,
}
use gigaam_v3_runtime.Admission.{SemaphoreApi, AdmissionState, http, permits, put_permits}
use gigaam_v3_runtime.Admission.Accounting.{free}

-- Whether the owner still has the control.
pub record RequestWorkOwner : Type 0 where
  pub has_control : Bool

unfoldable pub new_owner : RequestWorkOwner
new_owner = record { has_control = true }

-- `take_control`; `none` is the panic.
unfoldable pub take_control : RequestWorkOwner → Option RequestWorkOwner
take_control owner = if owner.has_control then some (record { has_control = false }) else none

abbrev pub IsOver : ExecutionState → Type 0
IsOver cell = (cell ≡ completed) ⊎ (cell ≡ failed) ⊎ (cell ≡ cancelled)

module _ (api : SemaphoreApi) where
  -- `Drop`, and the drop of the permit behind it.
  unfoldable pub drop_owner :
      RequestWorkOwner → AdmissionState api → ExecutionState → AdmissionState api × ExecutionState
  drop_owner owner s cell = (
    put_permits api http (api.release 1 (permits api http s)) s,
    (if owner.has_control then (apply fail cell).0 else cell),
  )

  -- `complete` and `fail`: the call on the control, and the drop of the owner at the end.
  unfoldable pub settle_owner :
      Op
      → RequestWorkOwner
      → AdmissionState api
      → ExecutionState
      → Option (Reply × (AdmissionState api × ExecutionState))
  settle_owner op owner s cell = elim (take_control owner) [
    | none ↦ none
    | some owner' ↦ some ((apply op cell).1, drop_owner owner' s (apply op cell).0)
  ]

  complete-IsOver : (cell : ExecutionState) → IsOver (apply complete cell).0
  unfolding apply
  complete-IsOver cell = ground arith

  fail-IsOver : (cell : ExecutionState) → IsOver (apply fail cell).0
  unfolding apply
  fail-IsOver cell = ground arith

  free-release :
      (s : AdmissionState api)
      → free api http (put_permits api http (api.release 1 (permits api http s)) s)
        ≡ free api http s + 1
  unfolding put_permits permits
  free-release s = api.available-release 1 s.http_permits

  -- However HTTP work ends, by completion, by failure or by the mere drop of its owner: the call
  -- does not panic, the control is in a terminal state, and one HTTP permit is free again.
  pub owner_ends :
      (s : AdmissionState api) (cell : ExecutionState) (op : Op)
      → (op ≡ complete) ⊎ (op ≡ fail)
      → ((r : Reply) × (s' : AdmissionState api) × (cell' : ExecutionState) × (settle_owner op
              new_owner s cell
            ≡ some (r, (s', cell')))
          × IsOver cell'
          × (free api http s' ≡ free api http s + 1))
        × IsOver (drop_owner new_owner s cell).1
        × (free api http (drop_owner new_owner s cell).0 ≡ free api http s + 1)
  unfolding settle_owner take_control new_owner drop_owner
  owner_ends s cell op h =
      ((_, _, _, refl, op_ends h, free-release s), fail-IsOver cell, free-release s)
    where
      op_ends : (op ≡ complete) ⊎ (op ≡ fail) → IsOver (apply op cell).0
      op_ends (inl e) = rw e (complete-IsOver cell)
      op_ends (inr e) = rw e (fail-IsOver cell)
