-- ===== src/Stream/Config.antt =====
-- crates/transcription/src/stream.rs and contracts.rs: the configuration of a session, its errors
-- and the ports it calls. The frontend, the decoder and the detector are parameters: the n-th use
-- of a port may answer anything, a failure included. The views that the source builds around the
-- arguments of the decoder and the detector are part of these ports.
use gigaam_v3_runtime.Base.{ℕ, Bool, List, Result}
use gigaam_v3_runtime.Execution.{ExecutionState}
use gigaam_v3_runtime.Base.Arithmetic.{FloatArithmetic}
use gigaam_v3_runtime.Transcript.{Text, Unicode, TranscriptError}
use gigaam_v3_runtime.Stitch.{StitchError}
use gigaam_v3_runtime.Endpoint.{EndpointError, EndpointRules}

-- `panicked` is a slice out of range.
pub data StreamError : Type 0 where
  refused : TranscriptError → StreamError
  stitching : StitchError → StreamError
  endpointing : EndpointError → StreamError
  frontend_failed decoder_failed detector_failed bad_threshold bad_probability : StreamError
  bad_duration bad_accumulated_duration decode_count_overflow bad_frame_count : StreamError
  offset_overflow index_overflow seam_outside buffer_exceeds_window decoded_exceeds_buffer :
      StreamError
  buffer_did_not_shrink panicked : StreamError
  rate_mismatch centered_frontend vad_rate detector_mismatch frame_mismatch bad_stable_frontier :
      StreamError

-- What the loop of `push` gives: the failure of a turn, or the model's own end of the fuel.
pub data PushError : Type 0 where
  failed : StreamError → PushError
  out_of_fuel : PushError

-- `StreamLockPolicy`.
pub data LockPolicy : Type 0 where
  advisory commit_stable : LockPolicy

pub data EndpointSource : Type 0 where
  blank vad : EndpointSource

pub data StreamProgress : Type 0 where
  advance flush_tail : StreamProgress

-- `StreamConfig`, with what the session reads of the frontend and of the decoder at its start.
-- `C` is the type of a mel column.
pub record StreamConfig (V C : Type 0) : Type 0 where
  pub sample_rate : ℕ
  pub frame_rate : V
  pub full_samples : ℕ
  pub full_frames : ℕ
  pub step_samples : ℕ
  pub overlap_samples : ℕ
  pub retained_silence_samples : ℕ
  pub overlap_sec : V
  pub seam_after_sec : V
  pub horizon_sec : V
  pub vad_threshold : V
  pub rules : EndpointRules V
  pub lock_policy : LockPolicy
  pub endpoint_source : EndpointSource
  pub hop_length : ℕ
  pub fft_length : ℕ
  pub noise : List V
  pub noise_mel : List C

-- `gigaam_recognition::Word`.
pub record RecognizedWord (V : Type 0) : Type 0 where
  pub text : Text
  pub start : V
  pub end : V

-- The parts of a decoded window, with the duration of the call by the clock. `D` is `f64`.
pub record DecodedWindow (V D : Type 0) : Type 0 where
  pub words : List (RecognizedWord V)
  pub silence : List Bool
  pub output_frames : ℕ
  pub encoder_seconds : D
  pub elapsed : D

pub record Ports (V D C : Type 0) : Type 0 where
  pub control : ℕ → ExecutionState
  pub frame_log_mel : List V → Result StreamError C
  pub decode : ℕ → List C → Result StreamError (DecodedWindow V D)
  pub probabilities : ℕ → List V → Result StreamError (List V)

-- `StreamSetup`: the two kinds of float, the configuration and the ports.
pub record Setup : Type 1 where
  pub unicode : Unicode
  pub single : FloatArithmetic
  pub double : FloatArithmetic
  pub Column : Type 0
  pub config : StreamConfig single.order.Value Column
  pub ports : Ports single.order.Value double.order.Value Column

-- What `StreamSession::new` asks of the frontend, with the generator of the padding noise.
pub record Frontend (V C : Type 0) : Type 0 where
  pub sample_rate : ℕ
  pub is_centered : Bool
  pub log_mel : List V → Result StreamError (List C)
  pub pad_noise : ℕ → List V
