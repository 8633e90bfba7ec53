-- ===== src/Admission.antt =====
-- crates/service/src/admission.rs: the lifecycle phase and the capacities of HTTP work, uploads
-- and WebSocket channels. The semaphore is tokio's and enters as an interface. A call reads the
-- phase, takes permits and reads the phase again; each of these is one step, and steps of any
-- number of clients and of the drain interleave.
pub mod Clients
pub mod Accounting
pub mod Draining
pub mod Waiting
pub mod Owner
pub mod Tests
use gigaam_v3_runtime.Base.{
  ℕ, suc, ◌+◌, ◌<◌, ◌≤◌, ◌≡◌, Bool, true, false, Option, none, some, if◌then◌else◌, ltb, leb, ◌==◌,
  Result, ok, err, ◌>>=◌, ◌>>◌, refuse_if,
}

-- `tokio::sync::Semaphore`, as documented: permits are counted, acquiring is all or none and does
-- not wait, a closed semaphore grants nothing, a dropped permit returns, and closing keeps the
-- count.
pub record SemaphoreApi : Type 1 where
  pub Semaphore : Type 0
  pub max_permits : ℕ
  pub new : ℕ → Semaphore
  pub available : Semaphore → ℕ
  pub is_closed : Semaphore → Bool
  pub try_acquire_many : ℕ → Semaphore → Option Semaphore
  pub release : ℕ → Semaphore → Semaphore
  pub close : Semaphore → Semaphore
  pub available-new : (n : ℕ) → available (new n) ≡ n
  pub is_closed-new : (n : ℕ) → is_closed (new n) ≡ false
  pub acquire_grants :
      (n : ℕ) (s : Semaphore)
      → is_closed s ≡ false
      → n ≤ available s
      → (t : Semaphore) × (try_acquire_many n s ≡ some t)
  pub acquire_takes :
      (n : ℕ) (s t : Semaphore)
      → try_acquire_many n s ≡ some t
      → (available t + n ≡ available s) × (is_closed t ≡ is_closed s)
  pub acquire_closed : (n : ℕ) (s : Semaphore) → is_closed s ≡ true → try_acquire_many n s ≡ none
  pub available-release : (n : ℕ) (s : Semaphore) → available (release n s) ≡ available s + n
  pub is_closed-release : (n : ℕ) (s : Semaphore) → is_closed (release n s) ≡ is_closed s
  pub available-close : (s : Semaphore) → available (close s) ≡ available s
  pub is_closed-close : (s : Semaphore) → is_closed (close s) ≡ true

pub data SettingsError : Type 0 where
  zero_http zero_ws http_capacity ws_capacity zero_timeout : SettingsError
  zero_uploads uploads_capacity zero_upload_timeout zero_body : SettingsError
  channels_exceed_range zero_channels : SettingsError

pub data ApiMode : Type 0 where
  native open_ai : ApiMode

pub data RecognitionLanguage : Type 0 where
  russian : RecognitionLanguage

-- Durations are in nanoseconds.
pub record ServiceAdmission : Type 0 where
  pub max_http : ℕ
  pub max_ws : ℕ
  pub request_timeout : ℕ
  pub api_mode : ApiMode
  pub max_uploads : ℕ
  pub upload_timeout : ℕ

-- `RequestBodyLimit::new`.
unfoldable pub new_body_limit : ℕ → Result SettingsError ℕ
new_body_limit bytes = do refuse_if (bytes == 0) zero_body; ok bytes

pub data AdmissionPhase : Type 0 where
  running draining : AdmissionPhase

pub data DrainTransition : Type 0 where
  began already_draining : DrainTransition

pub data AdmissionRefusal : Type 0 where
  overloaded refused_draining : AdmissionRefusal

-- The three capacities, and a call's demand on one of them.
pub data Pool : Type 0 where
  http uploads ws : Pool

pub record Request : Type 0 where
  pub pool : Pool
  pub count : ℕ

abbrev pub u32_max : ℕ
u32_max = 4294967295

module _ (api : SemaphoreApi) where
  open api use {Semaphore, max_permits, new, available, try_acquire_many, release, close}

  -- `ServiceAdmission::new`.
  unfoldable pub new_settings : ℕ → ℕ → ℕ → Result SettingsError ServiceAdmission
  new_settings max_http max_ws request_timeout = do
    refuse_if (max_http == 0) zero_http
    refuse_if (max_ws == 0) zero_ws
    refuse_if (ltb max_permits max_http) http_capacity
    refuse_if (ltb max_permits max_ws) ws_capacity
    refuse_if (request_timeout == 0) zero_timeout
    ok (record {
      max_http = max_http;
      max_ws = max_ws;
      request_timeout = request_timeout;
      api_mode = native;
      max_uploads = max_http;
      upload_timeout = request_timeout;
    })

  unfoldable pub with_api_policy :
      ServiceAdmission → ApiMode → RecognitionLanguage → ServiceAdmission
  with_api_policy settings mode russian = record settings { api_mode = mode }

  unfoldable pub with_uploads : ServiceAdmission → ℕ → ℕ → Result SettingsError ServiceAdmission
  with_uploads settings max_uploads timeout = do
    refuse_if (max_uploads == 0) zero_uploads
    refuse_if (ltb max_permits max_uploads) uploads_capacity
    refuse_if (timeout == 0) zero_upload_timeout
    ok (record settings { max_uploads = max_uploads; upload_timeout = timeout })

  -- `WsPermitCount::from_source_channels`.
  unfoldable pub from_source_channels : ℕ → Result SettingsError ℕ
  from_source_channels channels = do
    refuse_if (ltb u32_max channels) channels_exceed_range
    refuse_if (channels == 0) zero_channels
    refuse_if (ltb max_permits channels) channels_exceed_range
    ok channels

  pub record AdmissionState : Type 0 where
    pub phase : AdmissionPhase
    pub http_permits : Semaphore
    pub upload_permits : Semaphore
    pub ws_permits : Semaphore
    pub max_http : ℕ
    pub max_ws : ℕ

  -- `AdmissionState::new`.
  unfoldable pub new_state : ServiceAdmission → AdmissionState
  new_state settings = record {
    phase = running;
    http_permits = new settings.max_http;
    upload_permits = new settings.max_uploads;
    ws_permits = new settings.max_ws;
    max_http = settings.max_http;
    max_ws = settings.max_ws;
  }

  unfoldable pub permits : Pool → AdmissionState → Semaphore
  permits http s = s.http_permits
  permits uploads s = s.upload_permits
  permits ws s = s.ws_permits

  unfoldable pub put_permits : Pool → Semaphore → AdmissionState → AdmissionState
  put_permits http p s = record s { http_permits = p }
  put_permits uploads p s = record s { upload_permits = p }
  put_permits ws p s = record s { ws_permits = p }

  unfoldable pub refusal_after_capacity_failure : AdmissionState → AdmissionRefusal
  refusal_after_capacity_failure s = elim s.phase [
    | running ↦ overloaded
    | draining ↦ refused_draining
  ]

  -- `begin_draining`, when nothing comes between its steps.
  unfoldable pub begin_draining : AdmissionState → AdmissionState × DrainTransition
  begin_draining s = elim s.phase [
    | running ↦ (
      record s {
        phase = draining;
        http_permits = close s.http_permits;
        upload_permits = close s.upload_permits;
        ws_permits = close s.ws_permits;
      },
      began,
    )
    | draining ↦ (s, already_draining)
  ]

  -- `reserve_http` and `reserve_ws`, and the first half of `admit_upload`.
  unfoldable pub reserve :
      Request → AdmissionState → AdmissionState × Result AdmissionRefusal (Unit {0})
  reserve r s = elim s.phase [
    | draining ↦ (s, err refused_draining)
    | running ↦ elim (try_acquire_many r.count (permits r.pool s)) [
      | some p ↦ (put_permits r.pool p s, ok tt)
      | none ↦ (s, err (refusal_after_capacity_failure s))
    ]
  ]

  -- `commit`, and the second half of `admit_upload`: a refusal drops the permits.
  unfoldable pub commit :
      Request → AdmissionState → AdmissionState × Result AdmissionRefusal (Unit {0})
  commit r s = elim s.phase [
    | running ↦ (s, ok tt)
    | draining ↦ (put_permits r.pool (release r.count (permits r.pool s)) s, err refused_draining)
  ]

  -- `admit_http`, `admit_ws` and `admit_upload`, when nothing comes between their steps.
  unfoldable pub admit :
      Request → AdmissionState → AdmissionState × Result AdmissionRefusal (Unit {0})
  unfolding reserve commit
  admit r s =
      let (s', reserved) = reserve r s in elim reserved [ ok u ↦ commit r s' | err e ↦ (s', err e) ]

pub data WsDrainWait : Type 0 where
  drained timed_out : WsDrainWait
