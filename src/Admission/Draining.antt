-- ===== src/Admission/Draining.antt =====
-- The drain: monotone, and nothing is admitted behind it.
use gigaam_v3_runtime.Base.{
  ℕ, zero, suc, ◌+◌, ◌≤◌, ◌<◌, ◌≡◌, ◌≢◌, refl, ap, ◌∙◌, subst, ◌⊎◌, inl, inr, false, none, some,
  List, [], ◌∷◌, arith, get_elem?, set, Option-cases, ok, err,
}
use gigaam_v3_runtime.Admission.{
  SemaphoreApi, AdmissionPhase, running, draining, Pool, http, uploads, ws, Request, AdmissionState,
  permits, put_permits, overloaded, refused_draining, refusal_after_capacity_failure, reserve,
  commit, admit,
}
use gigaam_v3_runtime.Admission.Clients.{
  Stage, acquiring, dropping, admitted, Client, DrainStage, access, drain_access, System, Turn,
  client, drains, step, run,
}
use gigaam_v3_runtime.Admission.Accounting.{free}

module _ (api : SemaphoreApi) where
  open api use {Semaphore, new, available, try_acquire_many, release, close}

  phase-put :
      (j : Pool) (p : Semaphore) (s : AdmissionState api) → (put_permits api j p s).phase ≡ s.phase
  unfolding put_permits
  phase-put http p s = refl
  phase-put uploads p s = refl
  phase-put ws p s = refl

  phase-access :
      (r : Request) (stage : Stage) (s : AdmissionState api)
      → (access api r stage s).0.phase ≡ s.phase
  unfolding access
  phase-access r acquiring s =
      elim (Option-cases (try_acquire_many r.count (permits api r.pool s))) [
        | inl e ↦ rw (e, access) refl
        | inr (p, e) ↦ rw (e, access) (phase-put r.pool p s)
      ]
  phase-access r dropping s = phase-put r.pool _ s
  phase-access r admitted s = phase-put r.pool _ s
  phase-access r stage s = refl

  drain_access_draining :
      (stage : DrainStage) (s : AdmissionState api)
      → s.phase ≡ draining
      → (drain_access api stage s).0.phase ≡ draining
  unfolding drain_access
  drain_access_draining stage s h = ground arith

  step_draining :
      (sys : System api) (t : Turn api)
      → sys.state.phase ≡ draining
      → (step api sys t).state.phase ≡ draining
  unfolding step
  step_draining sys drains h = drain_access_draining sys.drain sys.state h
  step_draining sys (client i) h = elim (Option-cases (get_elem? sys.clients i)) [
    | inl e ↦ rw (e, step) h
    | inr (c, e) ↦ rw (e, step) (phase-access c.request c.stage sys.state ∙ h)
  ]

  -- A call that is not admitted while the service drains is not admitted by its next access.
  access_refuses :
      (r : Request) (stage : Stage) (s : AdmissionState api)
      → s.phase ≡ draining
      → stage ≢ admitted
      → (access api r stage s).1 ≢ admitted
  unfolding access
  access_refuses r acquiring s h n e =
      elim (Option-cases (try_acquire_many r.count (permits api r.pool s))) [
        | inl none_left ↦ cc (rw (none_left, access) at e)
        | inr (p, taken) ↦ cc (rw (taken, access) at e)
      ]
  access_refuses r admitted s h n e = n refl
  access_refuses r stage s h n e = ground arith

  abbrev NotAdmitted : ℕ → System api → Type 0
  NotAdmitted i sys = (c : Client) → get_elem? sys.clients i ≡ some c → c.stage ≢ admitted

  set_refuses :
      (cs : List Client) (i j : ℕ) (d : Client)
      → ((c : Client) → get_elem? cs i ≡ some c → c.stage ≢ admitted)
      → (i ≡ j → d.stage ≢ admitted)
      → (c : Client) → get_elem? (set cs j d) i ≡ some c
      → c.stage ≢ admitted
  set_refuses [] i j d h k c e = cc
  set_refuses (x ∷ cs) zero zero d h k c e =
      let same : d ≡ c = ground arith in subst (λ (u : Client). u.stage ≢ admitted) same (k refl)
  set_refuses (x ∷ cs) zero (suc j) d h k c e = h c e
  set_refuses (x ∷ cs) (suc i) zero d h k c e = h c e
  set_refuses (x ∷ cs) (suc i) (suc j) d h k c e =
      set_refuses cs i j d h (λ same. k (ap suc same)) c e

  step_refuses :
      (sys : System api) (t : Turn api) (i : ℕ)
      → sys.state.phase ≡ draining
      → NotAdmitted i sys
      → NotAdmitted i (step api sys t)
  unfolding step
  step_refuses sys drains i h n = n
  step_refuses sys (client j) i h n = elim (Option-cases (get_elem? sys.clients j)) [
    | inl e ↦ rw (e, step) n
    | inr (d, e) ↦
        rw (e, step)
          (set_refuses sys.clients i j _ n
            (λ same. access_refuses d.request d.stage sys.state h (n d (rw same e))))
  ]

  run_refuses :
      (sys : System api) (ts : List (Turn api)) (i : ℕ)
      → sys.state.phase ≡ draining
      → NotAdmitted i sys
      → NotAdmitted i (run api sys ts)
  unfolding run
  run_refuses sys [] i h n = n
  run_refuses sys (t ∷ ts) i h n =
      run_refuses (step api sys t) ts i (step_draining sys t h) (step_refuses sys t i h n)

  -- A call that holds no admission when the phase turns to draining never gets one, whatever it
  -- has reserved by then and however the turns go on.
  pub draining_admits_none :
      (sys : System api) (turns : List (Turn api)) (i : ℕ) (before after : Client)
      → sys.state.phase ≡ draining
      → get_elem? sys.clients i ≡ some before
      → before.stage ≢ admitted
      → get_elem? (run api sys turns).clients i ≡ some after
      → after.stage ≢ admitted
  draining_admits_none sys turns i before after h e n e' =
      run_refuses sys turns i h
        (λ c e''.
          let same : before ≡ c = ground arith in subst (λ (u : Client). u.stage ≢ admitted) same n)
        after e'

  phase_cases : (p : AdmissionPhase) → (p ≡ running) ⊎ (p ≡ draining)
  phase_cases running = inl refl
  phase_cases draining = inr refl

  -- An open semaphore grants just the permits it has.
  acquire_cases :
      (n : ℕ) (p : Semaphore)
      → api.is_closed p ≡ false
      → ((q : Semaphore) × (try_acquire_many n p ≡ some q) × (available q + n ≡ available p))
        ⊎ ((try_acquire_many n p ≡ none) × (available p < n))
  acquire_cases n p unclosed = elim (Option-cases (try_acquire_many n p)) [
    | inl e ↦ inr (e, grind (arith, api.acquire_grants n p unclosed))
    | inr (q, e) ↦ inl (q, e, (api.acquire_takes n p q e).0)
  ]

  permits-put :
      (j : Pool) (p : Semaphore) (s : AdmissionState api)
      → permits api j (put_permits api j p s) ≡ p
  unfolding permits put_permits
  permits-put http p s = refl
  permits-put uploads p s = refl
  permits-put ws p s = refl

  admit-granted :
      (r : Request) (s : AdmissionState api) (q : Semaphore)
      → s.phase ≡ running
      → try_acquire_many r.count (permits api r.pool s) ≡ some q
      → admit api r s ≡ (put_permits api r.pool q s, ok tt)
  unfolding admit reserve commit
  admit-granted r s q p e = ground (arith, phase-put r.pool q s)

  admit-short :
      (r : Request) (s : AdmissionState api)
      → s.phase ≡ running
      → try_acquire_many r.count (permits api r.pool s) ≡ none
      → admit api r s ≡ (s, err overloaded)
  unfolding admit reserve refusal_after_capacity_failure
  admit-short r s p e = ground arith

  admit-draining :
      (r : Request) (s : AdmissionState api)
      → s.phase ≡ draining
      → admit api r s ≡ (s, err refused_draining)
  unfolding admit reserve
  admit-draining r s p = ground arith

  -- A call that runs alone on open semaphores: while the service runs it is granted its permits if
  -- that many are free, and refused as overload otherwise; while the service drains it is refused
  -- for that. A refusal leaves the state as it was.
  pub admit_lem :
      (r : Request) (s : AdmissionState api)
      → api.is_closed (permits api r.pool s) ≡ false
      → ((s.phase ≡ running)
          × (r.count ≤ free api r.pool s)
          × ((admit api r s).1 ≡ ok tt)
          × (free api r.pool (admit api r s).0 + r.count ≡ free api r.pool s))
        ⊎ ((s.phase ≡ running)
            × (free api r.pool s < r.count)
            × (admit api r s ≡ (s, err overloaded)))
        ⊎ ((s.phase ≡ draining) × (admit api r s ≡ (s, err refused_draining)))
  unfolding admit
  admit_lem r s unclosed = elim (phase_cases s.phase) [
    | inr p ↦ inr (inr (p, admit-draining r s p))
    | inl p ↦ elim (acquire_cases r.count (permits api r.pool s) unclosed) [
      | inl (q, e, taken) ↦
          let moved = admit-granted r s q p e in
          inl (
            p,
            omega (arith, taken),
            ap (λ x. x.1) moved,
            omega (
              arith,
              taken,
              ap (λ x. free api r.pool x.0) moved,
              ap available (permits-put r.pool q s),
            ),
          )
      | inr (e, short) ↦ inr (inl (p, short, admit-short r s p e))
    ]
  ]
