-- ===== src/Admission/Tests.antt =====
-- A counting semaphore, and two calls that race the drain.
use gigaam_v3_runtime.Base.{
  ℕ, ◌+◌, ◌-◌, ◌≤◌, ◌<◌, ◌≡◌, ◌≢◌, refl, ap, sym, ◌++◌, Bool, true, false, ◌&&◌, not, Option, none,
  some, List, [], ◌∷◌, arith, leb, le→leb, leb→le, ok, err, ◌⊎◌, inl,
}
use gigaam_v3_runtime.Execution.{ExecutionState, cancel_requested, complete, Reply}
use gigaam_v3_runtime.Admission.Waiting.{wait_for_ws_drain_lem}
use gigaam_v3_runtime.Admission.Owner.{IsOver, new_owner, settle_owner, drop_owner, owner_ends}
use gigaam_v3_runtime.Admission.{
  drained, timed_out, SemaphoreApi, running, draining, http, ws, Request, native, AdmissionState,
  ServiceAdmission, overloaded, refused_draining, admit, new_state, permits, put_permits,
}
use gigaam_v3_runtime.Admission.Clients.{
  wait_for_ws_drain, refused, admitted, dropping, Turn, client, drains, step, run, begin, access,
  drain_access, calls,
}
use gigaam_v3_runtime.Admission.Accounting.{free, held, run_accounts}
use gigaam_v3_runtime.Admission.Draining.{draining_admits_none, admit_lem}

record Counter : Type 0 where
  permits_left : ℕ
  closed : Bool

abbrev grant : ℕ → Counter → Bool → Option Counter
grant n s true = some (record s { permits_left = s.permits_left - n })
grant n s false = none

abbrev can_grant : ℕ → Counter → Bool
can_grant n s = not s.closed && leb n s.permits_left

can_grant-closed : (n : ℕ) (s : Counter) → s.closed ≡ true → can_grant n s ≡ false
can_grant-closed n s h = rw h refl

can_grant-open :
    (n : ℕ) (s : Counter) → s.closed ≡ false → n ≤ s.permits_left → can_grant n s ≡ true
can_grant-open n s h enough = rw h (le→leb n s.permits_left enough)

grant-takes :
    (n : ℕ) (s t : Counter) (b : Bool)
    → b ≡ can_grant n s
    → grant n s b ≡ some t
    → (t.permits_left + n ≡ s.permits_left) × (t.closed ≡ s.closed)
grant-takes n s t true e h =
    let same : record s { permits_left = s.permits_left - n } ≡ t = ground arith in
    let enough : n ≤ s.permits_left = leb→le n s.permits_left (ground arith) in
    (omega (arith, enough, ap (λ c. c.permits_left) same), ap (λ c. c.closed) (sym same))
grant-takes n s t false e h = cc

abbrev counter : SemaphoreApi
counter = record {
  Semaphore = Counter;
  max_permits = 2305843009213693951;
  new = λ n. record { permits_left = n; closed = false };
  available = λ s. s.permits_left;
  is_closed = λ s. s.closed;
  try_acquire_many = λ n s. grant n s (can_grant n s);
  release = λ n s. record s { permits_left = s.permits_left + n };
  close = λ s. record s { closed = true };
  available-new = λ n. refl;
  is_closed-new = λ n. refl;
  acquire_grants = λ n s unclosed enough. (_, ap (grant n s) (can_grant-open n s unclosed enough));
  acquire_takes = λ n s t e. grant-takes n s t _ refl e;
  acquire_closed = λ n s closed. ap (grant n s) (can_grant-closed n s closed);
  available-release = λ n s. refl;
  is_closed-release = λ n s. refl;
  available-close = λ s. refl;
  is_closed-close = λ s. refl;
}

abbrev settings : ServiceAdmission
settings = record {
  max_http = 2;
  max_ws = 3;
  request_timeout = 1000;
  api_mode = native;
  max_uploads = 1;
  upload_timeout = 500;
}

abbrev requests : List Request
requests = record { pool = ws; count = 2 } ∷ record { pool = http; count = 1 } ∷ []

-- The first call takes its permits, the drain begins, and the call loses them again.
abbrev turns : List (Turn counter)
turns = client 0 ∷ client 0 ∷ drains ∷ client 1 ∷ drains ∷ client 0 ∷ []

unfoldable late : List (Turn counter)
late = client 0 ∷ drains ∷ client 1 ∷ drains ∷ []

race_loses : (run counter (begin counter settings requests) (turns ++ late)).clients ≡ (
    record { request = record { pool = ws; count = 2 }; stage = refused refused_draining }
    ∷ record { request = record { pool = http; count = 1 }; stage = refused refused_draining }
    ∷ [])
unfolding run step access drain_access begin calls new_state permits put_permits late
race_loses = refl

run_accounts_example :
    free counter ws (run counter (begin counter settings requests) turns).state
      + held ws (run counter (begin counter settings requests) turns).clients
    ≡ 3
run_accounts_example = run_accounts counter settings requests turns ws

draining_admits_none_example : refused refused_draining ≢ admitted
unfolding run step access drain_access begin calls new_state permits put_permits late
draining_admits_none_example =
    draining_admits_none counter (run counter (begin counter settings requests) turns) late 0
      (record { request = record { pool = ws; count = 2 }; stage = dropping })
      (record { request = record { pool = ws; count = 2 }; stage = refused refused_draining }) refl
      refl (λ e. cc) refl

abbrev two : Request
two = record { pool = ws; count = 2 }

abbrev fresh : AdmissionState counter
unfolding new_state
fresh = new_state counter settings

admit_lem_example :
    ((fresh.phase ≡ running)
      × (2 ≤ 3)
      × ((admit counter two fresh).1 ≡ ok tt)
      × (free counter ws (admit counter two fresh).0 + 2 ≡ 3))
    ⊎ ((fresh.phase ≡ running) × (3 < 2) × (admit counter two fresh ≡ (fresh, err overloaded)))
    ⊎ ((fresh.phase ≡ draining) × (admit counter two fresh ≡ (fresh, err refused_draining)))
unfolding new_state permits
admit_lem_example = admit_lem counter two fresh refl

wait_for_ws_drain_lem_example :
    ((held ws (run counter (begin counter settings requests) turns).clients ≡ 0)
      × (wait_for_ws_drain counter
            (((run counter (begin counter settings requests) turns).state, true) ∷ [])
          ≡ some drained))
    ⊎ ((0 < held ws (run counter (begin counter settings requests) turns).clients)
        × (true ≡ true)
        × (wait_for_ws_drain counter
              (((run counter (begin counter settings requests) turns).state, true) ∷ [])
            ≡ some timed_out))
    ⊎ ((0 < held ws (run counter (begin counter settings requests) turns).clients)
        × (true ≡ false)
        × (wait_for_ws_drain counter
              (((run counter (begin counter settings requests) turns).state, true) ∷ [])
            ≡ wait_for_ws_drain counter []))
wait_for_ws_drain_lem_example = wait_for_ws_drain_lem counter settings requests turns true []

owner_ends_example :
    ((r : Reply) × (s' : AdmissionState counter) × (cell' : ExecutionState) × (settle_owner counter
          complete new_owner fresh cancel_requested
        ≡ some (r, (s', cell')))
      × IsOver cell'
      × (free counter http s' ≡ free counter http fresh + 1))
    × IsOver (drop_owner counter new_owner fresh cancel_requested).1
    × (free counter http (drop_owner counter new_owner fresh cancel_requested).0
        ≡ free counter http fresh + 1)
owner_ends_example = owner_ends counter fresh cancel_requested complete (inl refl)
