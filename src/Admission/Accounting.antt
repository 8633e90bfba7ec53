-- ===== src/Admission/Accounting.antt =====
-- No permit is lost or made up: each capacity is the permits that are free and those that calls
-- hold, whatever the interleaving of calls, drops and the drain.
use gigaam_v3_runtime.Base.{
  ℕ, zero, suc, ◌+◌, ◌≡◌, refl, ◌∙◌, inl, inr, Bool, true, false, ◌&&◌, some, List, [], ◌∷◌, arith,
  if◌then◌else◌, get_elem?, set, Option-cases,
}
use gigaam_v3_runtime.Admission.{
  SemaphoreApi, Pool, http, uploads, ws, Request, AdmissionState, permits, put_permits,
  ServiceAdmission, new_state,
}
use gigaam_v3_runtime.Admission.Clients.{
  Stage, checking, acquiring, wording, committing, dropping, admitted, refused, gone, Client,
  DrainStage, waiting, closing_http, closing_uploads, closing_ws, finished, access, drain_access,
  System, Turn, client, drains, step, run, begin, calls,
}

abbrev same_pool : Pool → Pool → Bool
same_pool http http = true
same_pool uploads uploads = true
same_pool ws ws = true
same_pool _ _ = false

abbrev pub holds : Stage → Bool
holds committing = true
holds dropping = true
holds admitted = true
holds _ = false

-- The permits of a capacity that a call holds.
abbrev pub weight : Pool → Request → Stage → ℕ
weight k r stage = if holds stage && same_pool k r.pool then r.count else 0

abbrev pub held : Pool → List Client → ℕ
held k [] = 0
held k (c ∷ cs) = weight k c.request c.stage + held k cs

held-set :
    (k : Pool) (cs : List Client) (i : ℕ) (c : Client) (stage : Stage)
    → get_elem? cs i ≡ some c
    → held k (set cs i (record c { stage = stage })) + weight k c.request c.stage
      ≡ held k cs + weight k c.request stage
held-set k [] i c stage h = cc
held-set k (x ∷ cs) zero c stage h = let same : x ≡ c = ground arith in rw same (omega arith)
held-set k (x ∷ cs) (suc i) c stage h = omega (arith, held-set k cs i c stage h)

module _ (api : SemaphoreApi) where
  open api use {Semaphore, new, available, try_acquire_many, release, close}

  abbrev pub free : Pool → AdmissionState api → ℕ
  free k s = available (permits api k s)

  free-put :
      (k j : Pool) (p : Semaphore) (s : AdmissionState api)
      → free k (put_permits api j p s) ≡ (if same_pool k j then available p else free k s)
  unfolding permits put_permits
  free-put http http p s = refl
  free-put http uploads p s = refl
  free-put http ws p s = refl
  free-put uploads http p s = refl
  free-put uploads uploads p s = refl
  free-put uploads ws p s = refl
  free-put ws http p s = refl
  free-put ws uploads p s = refl
  free-put ws ws p s = refl

  same_pool-free :
      (k j : Pool) (s : AdmissionState api) → same_pool k j ≡ true → free k s ≡ free j s
  same_pool-free http http s h = refl
  same_pool-free http uploads s h = cc
  same_pool-free http ws s h = cc
  same_pool-free uploads http s h = cc
  same_pool-free uploads uploads s h = refl
  same_pool-free uploads ws s h = cc
  same_pool-free ws http s h = cc
  same_pool-free ws uploads s h = cc
  same_pool-free ws ws s h = refl

  -- One access moves permits between the semaphore and the call.
  access-conserves :
      (k : Pool) (r : Request) (stage : Stage) (s : AdmissionState api)
      → let (s', stage') = access api r stage s in
        free k s' + weight k r stage' ≡ free k s + weight k r stage
  unfolding access
  access-conserves k r checking s = ground arith
  access-conserves k r acquiring s =
      elim (Option-cases (try_acquire_many r.count (permits api r.pool s))) [
        | inl e ↦ rw (e, access) refl
        | inr (p, e) ↦
            rw (e, access)
              (ground (
                arith,
                free-put k r.pool p s,
                same_pool-free k r.pool s,
                api.acquire_takes r.count (permits api r.pool s) p e,
              ))
      ]
  access-conserves k r wording s = refl
  access-conserves k r committing s = ground arith
  access-conserves k r dropping s = ground (
    arith,
    free-put k r.pool (release r.count (permits api r.pool s)) s,
    same_pool-free k r.pool s,
    api.available-release r.count (permits api r.pool s),
  )
  access-conserves k r admitted s = ground (
    arith,
    free-put k r.pool (release r.count (permits api r.pool s)) s,
    same_pool-free k r.pool s,
    api.available-release r.count (permits api r.pool s),
  )
  access-conserves k r (refused e) s = refl
  access-conserves k r gone s = refl

  drain_access-conserves :
      (k : Pool) (stage : DrainStage) (s : AdmissionState api)
      → free k (drain_access api stage s).0 ≡ free k s
  unfolding drain_access permits
  drain_access-conserves k waiting s = ground arith
  drain_access-conserves http closing_http s = api.available-close s.http_permits
  drain_access-conserves uploads closing_http s = refl
  drain_access-conserves ws closing_http s = refl
  drain_access-conserves http closing_uploads s = refl
  drain_access-conserves uploads closing_uploads s = api.available-close s.upload_permits
  drain_access-conserves ws closing_uploads s = refl
  drain_access-conserves http closing_ws s = refl
  drain_access-conserves uploads closing_ws s = refl
  drain_access-conserves ws closing_ws s = api.available-close s.ws_permits
  drain_access-conserves k finished s = refl

  abbrev pub total : Pool → System api → ℕ
  total k sys = free k sys.state + held k sys.clients

  step-total : (k : Pool) (sys : System api) (t : Turn api) → total k (step api sys t) ≡ total k sys
  unfolding step
  step-total k sys drains = omega (arith, drain_access-conserves k sys.drain sys.state)
  step-total k sys (client i) = elim (Option-cases (get_elem? sys.clients i)) [
    | inl e ↦ rw (e, step) refl
    | inr (c, e) ↦
        rw (e, step)
          (omega (
            arith,
            access-conserves k c.request c.stage sys.state,
            held-set k sys.clients i c (access api c.request c.stage sys.state).1 e,
          ))
  ]

  run-total :
      (k : Pool) (sys : System api) (ts : List (Turn api)) → total k (run api sys ts) ≡ total k sys
  unfolding run
  run-total k sys [] = refl
  run-total k sys (t ∷ ts) = run-total k (step api sys t) ts ∙ step-total k sys t

  -- The configured capacity of each pool.
  abbrev pub capacity : Pool → ServiceAdmission → ℕ
  capacity http settings = settings.max_http
  capacity uploads settings = settings.max_uploads
  capacity ws settings = settings.max_ws

  held-calls : (k : Pool) (requests : List Request) → held k (calls requests) ≡ 0
  unfolding calls
  held-calls k [] = refl
  held-calls k (r ∷ requests) = omega (arith, held-calls k requests)

  free-begin :
      (k : Pool) (settings : ServiceAdmission)
      → free k (new_state api settings) ≡ capacity k settings
  unfolding new_state permits
  free-begin http settings = api.available-new settings.max_http
  free-begin uploads settings = api.available-new settings.max_uploads
  free-begin ws settings = api.available-new settings.max_ws

  -- After any turns of any calls and of the drain, the free permits of each capacity and those
  -- that calls hold make up the configured capacity.
  pub run_accounts :
      (settings : ServiceAdmission) (requests : List Request) (turns : List (Turn api)) (k : Pool)
      → let sys = run api (begin api settings requests) turns in
        free k sys.state + held k sys.clients ≡ capacity k settings
  unfolding begin
  run_accounts settings requests turns k = omega (
    arith,
    run-total k (begin api settings requests) turns,
    held-calls k requests,
    free-begin k settings,
  )
