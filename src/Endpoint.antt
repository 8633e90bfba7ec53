-- ===== src/Endpoint.antt =====
-- crates/transcription/src/endpoint.rs: trailing silence, the endpoint decision and the speech
-- ranges of a silence mask (`true` is a silent frame).
pub mod Ranges
pub mod Decision
pub mod Tests
use mathlib.Core.List.{reverse}
use gigaam_v3_runtime.Base.{
  ℕ, zero, suc, ◌+◌, ◌-◌, Bool, true, false, not, ◌&&◌, ◌||◌, Option, none, some, List, [], ◌∷◌,
  ◌++◌, if◌then◌else◌, ltb, leb, take, length, min, Result, ok, err, ◌>>=◌, ◌>>◌, refuse_if,
}
use gigaam_v3_runtime.Base.Floats.{FloatOrder}

pub data EndpointError : Type 0 where
  bad_duration bad_frame_rate : EndpointError

pub data Endpoint : Type 0 where
  none_yet after_speech no_speech : Endpoint

pub data SpeechState : Type 0 where
  absent present : SpeechState

-- `take_while(silent).count()`.
unfoldable pub leading_silence : List Bool → ℕ
leading_silence [] = 0
leading_silence (true ∷ rest) = suc (leading_silence rest)
leading_silence (false ∷ rest) = 0

unfoldable pub trailing_silence : List Bool → ℕ → ℕ
unfolding leading_silence
trailing_silence mask real_frames =
    leading_silence (reverse (take (min real_frames (length mask)) mask))

-- The ranges so far, the start of the open range if there is one, and the last speech frame.
pub record Scan : Type 0 where
  pub ranges : List (ℕ × ℕ)
  pub start : Option ℕ
  pub last_speech : ℕ

-- The `match` of the loop on a speech frame.
unfoldable pub open_range : ℕ → ℕ → Scan → Scan
open_range minimum_gap index s = elim s.start [
  | none ↦ record s { start = some index }
  | some existing ↦
      if ltb minimum_gap (index - s.last_speech)
      then record s {
        ranges = s.ranges ++ ((existing, s.last_speech + 1) ∷ []);
        start = some index;
      }
      else s
]

unfoldable pub visit : ℕ → ℕ → Bool → Scan → Scan
unfolding open_range
visit minimum_gap index true s = s
visit minimum_gap index false s = record (open_range minimum_gap index s) { last_speech = index }

unfoldable pub scan_mask : ℕ → ℕ → List Bool → Scan → Scan
scan_mask minimum_gap index [] s = s
scan_mask minimum_gap index (silent ∷ rest) s =
    scan_mask minimum_gap (suc index) rest (visit minimum_gap index silent s)

-- The range that is open at the end.
unfoldable pub close_range : Scan → List (ℕ × ℕ)
close_range s = elim s.start [
  | none ↦ s.ranges
  | some speech_start ↦ s.ranges ++ ((speech_start, s.last_speech + 1) ∷ [])
]

unfoldable pub segments : List Bool → ℕ → List (ℕ × ℕ)
segments mask minimum_gap =
    close_range
      (scan_mask minimum_gap 0 mask (record { ranges = []; start = none; last_speech = 0 }))

-- `EndpointRules`: the two durations in seconds.
pub record EndpointRules (V : Type 0) : Type 0 where
  pub after_speech_seconds : V
  pub without_speech_seconds : V

-- `seconds` is `usize_to_f32(frames) / frames_per_second`.
module _ (f : FloatOrder) (seconds : ℕ → f.Value → f.Value) where
  open f use {Value, zero_value, is_finite, lt, le}

  validate_duration : Value → Result EndpointError (Unit {0})
  validate_duration value = refuse_if (not (is_finite value) || lt value zero_value) bad_duration

  unfoldable pub validate : EndpointRules Value → Result EndpointError (Unit {0})
  unfolding validate_duration
  validate rules = do
    validate_duration rules.after_speech_seconds
    validate_duration rules.without_speech_seconds

  -- `EndpointRules::new`.
  unfoldable pub new_rules : Value → Value → Result EndpointError (EndpointRules Value)
  new_rules closes resets = do
    let rules : EndpointRules Value = record {
      after_speech_seconds = closes;
      without_speech_seconds = resets;
    }
    validate rules
    ok rules

  unfoldable pub decide : EndpointRules Value → Value → SpeechState → Endpoint
  decide rules silence present =
      if le rules.after_speech_seconds silence then after_speech else none_yet
  decide rules silence absent =
      if le rules.without_speech_seconds silence then no_speech else none_yet

  unfoldable pub detect :
      EndpointRules Value → List Bool → ℕ → Value → SpeechState → Result EndpointError Endpoint
  unfolding decide
  detect rules mask real_frames frames_per_second speech_state = do
    validate rules
    refuse_if (not (is_finite frames_per_second) || le frames_per_second zero_value) bad_frame_rate
    ok (decide rules (seconds (trailing_silence mask real_frames) frames_per_second) speech_state)
