-- ===== src/Admission/Clients.antt =====
-- Clients and the drain, one atomic access at a time.
use gigaam_v3_runtime.Base.{
  ℕ, Bool, Option, none, some, List, [], ◌∷◌, if◌then◌else◌, get_elem?, set, ◌==◌,
}
use gigaam_v3_runtime.Admission.{
  SemaphoreApi, running, draining, AdmissionRefusal, refused_draining, Request, AdmissionState,
  permits, put_permits, refusal_after_capacity_failure, ServiceAdmission, new_state, WsDrainWait,
  drained, timed_out,
}

-- Where a call stands: before its first read of the phase, before it takes permits, before the
-- read that words a failure, before the second read, about to drop its permits, holding its
-- admission, refused, or gone.
pub data Stage : Type 0 where
  checking acquiring wording committing dropping admitted : Stage
  refused : AdmissionRefusal → Stage
  gone : Stage

pub record Client : Type 0 where
  pub request : Request
  pub stage : Stage

-- A call for each request, not yet begun.
unfoldable pub calls : List Request → List Client
calls [] = []
calls (r ∷ rs) = record { request = r; stage = checking } ∷ calls rs

-- Where the drain stands: before the change of phase, and before each `close`.
pub data DrainStage : Type 0 where
  waiting closing_http closing_uploads closing_ws finished : DrainStage

module _ (api : SemaphoreApi) where
  open api use {Semaphore, new, available, try_acquire_many, release, close}

  -- The access of a client, by its stage. Behind `admitted` the holder drops its admission.
  unfoldable pub access : Request → Stage → AdmissionState api → AdmissionState api × Stage
  access r checking s =
      (s, elim s.phase [ running ↦ acquiring | draining ↦ refused refused_draining ])
  access r acquiring s = elim (try_acquire_many r.count (permits api r.pool s)) [
    | some p ↦ (put_permits api r.pool p s, committing)
    | none ↦ (s, wording)
  ]
  access r wording s = (s, refused (refusal_after_capacity_failure api s))
  access r committing s = (s, elim s.phase [ running ↦ admitted | draining ↦ dropping ])
  access r dropping s =
      (put_permits api r.pool (release r.count (permits api r.pool s)) s, refused refused_draining)
  access r admitted s = (put_permits api r.pool (release r.count (permits api r.pool s)) s, gone)
  access r (refused e) s = (s, refused e)
  access r gone s = (s, gone)

  -- The steps of `begin_draining`.
  unfoldable pub drain_access : DrainStage → AdmissionState api → AdmissionState api × DrainStage
  drain_access waiting s =
      (record s { phase = draining }, elim s.phase [ running ↦ closing_http | draining ↦ finished ])
  drain_access closing_http s = (record s { http_permits = close s.http_permits }, closing_uploads)
  drain_access closing_uploads s =
      (record s { upload_permits = close s.upload_permits }, closing_ws)
  drain_access closing_ws s = (record s { ws_permits = close s.ws_permits }, finished)
  drain_access finished s = (s, finished)

  pub record System : Type 0 where
    pub state : AdmissionState api
    pub clients : List Client
    pub drain : DrainStage

  -- Who moves next: a client by its number, or the drain.
  pub data Turn : Type 0 where
    client : ℕ → Turn
    drains : Turn

  moved : System → ℕ → Client → AdmissionState api × Stage → System
  moved sys i c (s, stage) = record sys {
    state = s;
    clients = set sys.clients i (record c { stage = stage });
  }

  unfoldable pub step : System → Turn → System
  unfolding moved
  step sys (client i) = elim (get_elem? sys.clients i) [
    | none ↦ sys
    | some c ↦ moved sys i c (access c.request c.stage sys.state)
  ]
  step sys drains =
      let (s, stage) = drain_access sys.drain sys.state in record sys { state = s; drain = stage }

  unfoldable pub run : System → List Turn → System
  run sys [] = sys
  run sys (t ∷ ts) = run (step sys t) ts

  unfoldable pub begin : ServiceAdmission → List Request → System
  unfolding new_state
  begin settings requests = record {
    state = new_state api settings;
    clients = calls requests;
    drain = waiting;
  }

  -- `wait_for_ws_drain`: the loop reads the permits, then the clock. Each reading of the schedule
  -- is the state and whether the deadline has passed by then; the source sleeps in between.
  unfoldable pub wait_for_ws_drain : List (AdmissionState api × Bool) → Option WsDrainWait
  wait_for_ws_drain [] = none
  wait_for_ws_drain ((s, late) ∷ rest) =
      if available s.ws_permits == s.max_ws
      then some drained
      else if late
      then some timed_out
      else wait_for_ws_drain rest
