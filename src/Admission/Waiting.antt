-- ===== src/Admission/Waiting.antt =====
-- The drain wait of the service: returned channel permits are its truth.
use gigaam_v3_runtime.Base.{
  ℕ, zero, suc, ◌+◌, ◌<◌, ◌≡◌, refl, ◌∙◌, ◌⊎◌, inl, inr, Bool, true, false, some, List, [], ◌∷◌,
  arith, get_elem?, Option-cases,
}
use gigaam_v3_runtime.Admission.{
  SemaphoreApi, Pool, http, uploads, ws, Request, AdmissionState, permits, put_permits,
  ServiceAdmission, new_state, drained, timed_out,
}
use gigaam_v3_runtime.Admission.Clients.{
  Stage, acquiring, dropping, admitted, waiting, closing_http, closing_uploads, closing_ws,
  finished, DrainStage, access, drain_access, System, Turn, client, drains, step, run, begin,
  wait_for_ws_drain,
}
use gigaam_v3_runtime.Admission.Accounting.{free, held, run_accounts}

module _ (api : SemaphoreApi) where
  open api use {Semaphore, available, try_acquire_many}

  max_ws-put :
      (j : Pool) (p : Semaphore) (s : AdmissionState api)
      → (put_permits api j p s).max_ws ≡ s.max_ws
  unfolding put_permits
  max_ws-put http p s = refl
  max_ws-put uploads p s = refl
  max_ws-put ws p s = refl

  max_ws-access :
      (r : Request) (stage : Stage) (s : AdmissionState api)
      → (access api r stage s).0.max_ws ≡ s.max_ws
  unfolding access
  max_ws-access r acquiring s =
      elim (Option-cases (try_acquire_many r.count (permits api r.pool s))) [
        | inl e ↦ rw (e, access) refl
        | inr (p, e) ↦ rw (e, access) (max_ws-put r.pool p s)
      ]
  max_ws-access r dropping s = max_ws-put r.pool _ s
  max_ws-access r admitted s = max_ws-put r.pool _ s
  max_ws-access r stage s = refl

  max_ws-drain_access :
      (stage : DrainStage) (s : AdmissionState api) → (drain_access api stage s).0.max_ws ≡ s.max_ws
  unfolding drain_access
  max_ws-drain_access waiting s = refl
  max_ws-drain_access closing_http s = refl
  max_ws-drain_access closing_uploads s = refl
  max_ws-drain_access closing_ws s = refl
  max_ws-drain_access finished s = refl

  max_ws-step : (sys : System api) (t : Turn api) → (step api sys t).state.max_ws ≡ sys.state.max_ws
  unfolding step
  max_ws-step sys drains = max_ws-drain_access sys.drain sys.state
  max_ws-step sys (client i) = elim (Option-cases (get_elem? sys.clients i)) [
    | inl e ↦ rw (e, step) refl
    | inr (c, e) ↦ rw (e, step) (max_ws-access c.request c.stage sys.state)
  ]

  max_ws-run :
      (sys : System api) (ts : List (Turn api)) → (run api sys ts).state.max_ws ≡ sys.state.max_ws
  unfolding run
  max_ws-run sys [] = refl
  max_ws-run sys (t ∷ ts) = max_ws-run (step api sys t) ts ∙ max_ws-step sys t

  reading_cases :
      (s : AdmissionState api) (late : Bool) (later : List (AdmissionState api × Bool)) (n : ℕ)
      → available s.ws_permits + n ≡ s.max_ws
      → let waited = wait_for_ws_drain api ((s, late) ∷ later) in
        ((n ≡ 0) × (waited ≡ some drained))
        ⊎ ((0 < n) × (late ≡ true) × (waited ≡ some timed_out))
        ⊎ ((0 < n) × (late ≡ false) × (waited ≡ wait_for_ws_drain api later))
  unfolding wait_for_ws_drain
  reading_cases s true later zero h = inl (refl, ground arith)
  reading_cases s false later zero h = inl (refl, ground arith)
  reading_cases s true later (suc n) h = inr (inl (omega arith, refl, ground arith))
  reading_cases s false later (suc n) h = inr (inr (omega arith, refl, ground arith))

  max_ws-begin :
      (settings : ServiceAdmission) (requests : List Request)
      → (begin api settings requests).state.max_ws ≡ settings.max_ws
  unfolding begin new_state
  max_ws-begin settings requests = refl

  free_ws : (s : AdmissionState api) → free api ws s ≡ available s.ws_permits
  unfolding permits
  free_ws s = refl

  -- A reading of the drain wait, at any state that calls and the drain can bring about: it ends
  -- the wait as drained when no call holds a channel permit, otherwise as timed out when the
  -- deadline has passed, and otherwise the wait goes on.
  pub wait_for_ws_drain_lem :
      (settings : ServiceAdmission) (requests : List Request) (turns : List (Turn api))
      (late : Bool) (later : List (AdmissionState api × Bool))
      → let sys = run api (begin api settings requests) turns in
        let waited = wait_for_ws_drain api ((sys.state, late) ∷ later) in
        ((held ws sys.clients ≡ 0) × (waited ≡ some drained))
        ⊎ ((0 < held ws sys.clients) × (late ≡ true) × (waited ≡ some timed_out))
        ⊎ ((0 < held ws sys.clients) × (late ≡ false) × (waited ≡ wait_for_ws_drain api later))
  wait_for_ws_drain_lem settings requests turns late later =
      let sys = run api (begin api settings requests) turns in
      reading_cases sys.state late later (held ws sys.clients) (
        omega (
          arith,
          run_accounts api settings requests turns ws,
          free_ws sys.state,
          max_ws-run (begin api settings requests) turns,
          max_ws-begin settings requests,
        ))
