-- ===== src/Vad.antt =====
-- crates/transcription/src/vad_policy.rs: speech segments from the probabilities of the speech
-- detector, one for each hop of 512 samples. The sample counts of a configuration are numbers of
-- samples at the fixed rate; `f32` values are compared through the interface.
pub mod Padding
pub mod Detection
pub mod Tests
use gigaam_v3_runtime.Base.{
  ℕ, suc, ◌+◌, ◌-◌, ◌*◌, ◌/◌, Bool, true, false, not, ◌&&◌, ◌||◌, Option, none, some, List, [], ◌∷◌,
  ◌++◌, if◌then◌else◌, ltb, leb, ◌==◌, length, Result, ok, err, ◌>>=◌, ◌>>◌, refuse_if, ok_or,
  collect,
}
use gigaam_v3_runtime.Base.Words.{checked_mul, checked_sub}
use gigaam_v3_runtime.Base.Floats.{FloatOrder}

pub data VadError : Type 0 where
  threshold_order probability_count probability_range : VadError
  frame_offset silence_underflow speech_underflow terminal_underflow : VadError
  empty_segment segment_outside segments_overlap end_outside doubled_overflow : VadError

abbrev pub hop_samples : ℕ
hop_samples = 512

-- `VadThresholds`, the durations in samples, and `VadPadding` in samples.
pub record VadPolicyConfig (V : Type 0) : Type 0 where
  pub speech : V
  pub silence : V
  pub minimum_speech : ℕ
  pub minimum_silence : ℕ
  pub one_sided : ℕ
  pub doubled : ℕ

pub record SpeechSegment : Type 0 where
  pub start_sample : ℕ
  pub end_sample : ℕ

-- `SpeechSegment::new`.
unfoldable pub new_segment : ℕ → ℕ → ℕ → Result VadError SpeechSegment
new_segment start stop input_length = do
  refuse_if (leb stop start) empty_segment
  refuse_if (ltb input_length stop) segment_outside
  ok (record { start_sample = start; end_sample = stop })

pub data DetectionState : Type 0 where
  idle : DetectionState
  speaking : ℕ → Option ℕ → DetectionState

unfoldable pub subtract_and_floor : ℕ → ℕ → ℕ
subtract_and_floor value amount = value - amount

unfoldable pub add_and_cap : ℕ → ℕ → ℕ → Result VadError ℕ
add_and_cap value amount cap' = do
  refuse_if (ltb cap' value) end_outside
  ok (if leb (cap' - value) amount then cap' else value + amount)

-- By how much the facing ends of two neighbours move into the silence between them.
unfoldable pub reach : ℕ → ℕ → ℕ → ℕ
reach padding doubled_padding silence = if ltb silence doubled_padding then silence / 2 else padding

-- The loop of `apply_padding` from one segment on: `s` has its start already moved.
unfoldable pub pad_from :
    ℕ → ℕ → ℕ → SpeechSegment → List SpeechSegment → Result VadError (List SpeechSegment)
unfolding add_and_cap subtract_and_floor reach
pad_from padding doubled_padding audio_length s [] = do
  end' ← add_and_cap s.end_sample padding audio_length
  ok (record s { end_sample = end' } ∷ [])
pad_from padding doubled_padding audio_length s (t ∷ rest) = do
  silence ← ok_or (checked_sub t.start_sample s.end_sample) segments_overlap
  end' ← add_and_cap s.end_sample (reach padding doubled_padding silence) audio_length
  padded ←
      pad_from padding doubled_padding audio_length
        (record t {
          start_sample = subtract_and_floor t.start_sample (reach padding doubled_padding silence);
        })
        rest
  ok (record s { end_sample = end' } ∷ padded)

pad_all : ℕ → ℕ → ℕ → List SpeechSegment → Result VadError (List SpeechSegment)
unfolding pad_from subtract_and_floor
pad_all padding doubled_padding audio_length [] = ok []
pad_all padding doubled_padding audio_length (s ∷ rest) =
    pad_from padding doubled_padding audio_length
      (record s { start_sample = subtract_and_floor s.start_sample padding }) rest

unfoldable pub apply_padding : List SpeechSegment → ℕ → ℕ → ℕ → Result VadError (List SpeechSegment)
unfolding pad_all
apply_padding segments padding doubled_padding audio_length = do
  padded ← pad_all padding doubled_padding audio_length segments
  collect (λ s. new_segment s.start_sample s.end_sample audio_length) padded

-- `doubled_temporal_sample_count` for the padding, of which zero is allowed.
unfoldable pub doubled_temporal_sample_count : ℕ → Result VadError ℕ
doubled_temporal_sample_count value = ok_or (checked_mul value 2) doubled_overflow

-- `audio_length.div_ceil(HOP_SAMPLES)`.
abbrev pub expected_count : ℕ → ℕ
expected_count audio_length = (audio_length + (hop_samples - 1)) / hop_samples

-- `tentative_end_sample.get_or_insert(current_sample)`.
unfoldable pub get_or_insert : Option ℕ → ℕ → ℕ
get_or_insert none current = current
get_or_insert (some e) current = e

-- `if speech > minimum_speech { raw.push(SpeechSegment::new(..)?) }`.
unfoldable pub push_if_long :
    ℕ → ℕ → ℕ → ℕ → VadError → List SpeechSegment → Result VadError (List SpeechSegment)
push_if_long minimum audio_length start stop underflow raw = do
  speech ← ok_or (checked_sub stop start) underflow
  if ltb minimum speech
      then (new_segment start stop audio_length >>= λ s. ok (raw ++ (s ∷ [])))
      else ok raw

module _ (f : FloatOrder) where
  open f use {Value, zero_value, one_value, is_finite, lt, le}

  -- `VadProbability::new`, as `validate_probability_value` calls it.
  unfoldable pub validate_probability_value : Value → Result VadError (Unit {0})
  validate_probability_value value =
      refuse_if (not (is_finite value) || not (le zero_value value && le value one_value))
        probability_range

  -- `VadThresholds::new`.
  unfoldable pub new_thresholds : Value → Value → Result VadError (Value × Value)
  new_thresholds speech silence = do
    refuse_if (lt speech silence) threshold_order
    ok (speech, silence)

  -- The arm of the loop's `match` for a frame below the silence threshold.
  silent : VadPolicyConfig Value → ℕ → ℕ → ℕ → Result VadError (DetectionState × Option (ℕ × ℕ))
  silent config current start stop = do
    silence ← ok_or (checked_sub current stop) silence_underflow
    ok (
      speaking start (some stop),
      (if leb config.minimum_silence silence then some (start, stop) else none),
    )

  -- The `match` of the loop: the state after one frame, and the segment that it closes.
  unfoldable pub observe :
      VadPolicyConfig Value
      → Value
      → ℕ
      → DetectionState
      → Result VadError (DetectionState × Option (ℕ × ℕ))
  unfolding silent get_or_insert
  observe config probability current idle =
      ok ((if le config.speech probability then speaking current none else idle), none)
  observe config probability current (speaking start tentative) =
      if le config.speech probability
      then ok (speaking start none, none)
      else if lt probability config.silence
      then silent config current start (get_or_insert tentative current)
      else ok (speaking start tentative, none)

  -- What the loop does with a closure.
  unfoldable pub close :
      VadPolicyConfig Value
      → ℕ
      → List SpeechSegment
      → DetectionState × Option (ℕ × ℕ)
      → Result VadError (List SpeechSegment × DetectionState)
  unfolding push_if_long
  close config audio_length raw (state, none) = ok (raw, state)
  close config audio_length raw (state, some (start, stop)) = do
    raw' ← push_if_long config.minimum_speech audio_length start stop speech_underflow raw
    ok (raw', idle)

  -- One turn of the loop, at the frame `index`.
  unfoldable pub frame :
      VadPolicyConfig Value
      → ℕ
      → ℕ
      → Value
      → List SpeechSegment × DetectionState
      → Result VadError (List SpeechSegment × DetectionState)
  unfolding close observe validate_probability_value
  frame config audio_length index probability (raw, state) = do
    validate_probability_value probability
    current ← ok_or (checked_mul index hop_samples) frame_offset
    seen ← observe config probability current state
    close config audio_length raw seen

  unfoldable pub scan :
      VadPolicyConfig Value
      → ℕ
      → ℕ
      → List Value
      → List SpeechSegment × DetectionState
      → Result VadError (List SpeechSegment × DetectionState)
  scan config audio_length index [] at = ok at
  scan config audio_length index (probability ∷ rest) at =
      frame config audio_length index probability at >>= λ next.
      scan config audio_length (suc index) rest next

  -- The segment that the end of the input closes.
  unfoldable pub finish_scan :
      VadPolicyConfig Value
      → ℕ
      → List SpeechSegment × DetectionState
      → Result VadError (List SpeechSegment)
  unfolding push_if_long
  finish_scan config audio_length (raw, idle) = ok raw
  finish_scan config audio_length (raw, speaking start tentative) =
      push_if_long config.minimum_speech audio_length start audio_length terminal_underflow raw

  unfoldable pub segments_from_probabilities :
      List Value → ℕ → VadPolicyConfig Value → Result VadError (List SpeechSegment)
  segments_from_probabilities probabilities audio_length config = do
    refuse_if (not (length probabilities == expected_count audio_length)) probability_count
    at ← scan config audio_length 0 probabilities ([], idle)
    raw ← finish_scan config audio_length at
    apply_padding raw config.one_sided config.doubled audio_length

  -- `speech_segments`: the detector's answer, or its failure, is an argument.
  unfoldable pub speech_segments :
      Result VadError (List Value)
      → ℕ
      → VadPolicyConfig Value
      → Result VadError (List SpeechSegment)
  unfolding segments_from_probabilities
  speech_segments detected audio_length config = do
    probabilities ← detected
    segments_from_probabilities probabilities audio_length config
