-- ===== src/Stream/Features.antt =====
-- crates/transcription/src/stream.rs, `decode`: the mel columns of the window, the checkpoints and
-- the durations of a decode. The feature matrix, flat in the source, is the list of its columns; the overflow test of a flat index goes with it.
use gigaam_v3_runtime.Base.{
  ℕ, zero, suc, ◌+◌, ◌-◌, ◌/◌, min, Bool, not, ◌||◌, List, [], ◌∷◌, if◌then◌else◌, ltb, leb, length,
  get_elem?, set, Result, ok, ◌>>=◌, ◌>>◌, refuse_if, ok_or, map_err,
}
use gigaam_v3_runtime.Base.Words.{checked_add, checked_mul}
use gigaam_v3_runtime.Base.Arithmetic.{FloatArithmetic}
use gigaam_v3_runtime.Execution.{ExecutionState}
use gigaam_v3_runtime.Transcript.{checkpoint}
use gigaam_v3_runtime.Stream.Config.{
  StreamError, refused, bad_duration, offset_overflow, index_overflow, panicked, StreamConfig,
  RecognizedWord, Ports,
}

-- The window: its samples, the columns computed so far and the samples at the last decode.
pub record Window (V C : Type 0) : Type 0 where
  pub buffer : List V
  pub mel : List C
  pub real_full_frames : ℕ
  pub decoded_samples : ℕ

-- `DecodedCandidate`, with the columns that `decode` has written.
pub record Candidate (V D C : Type 0) : Type 0 where
  pub words : List (RecognizedWord V)
  pub silence : List Bool
  pub output_frames : ℕ
  pub window : Window V C
  pub elapsed : D
  pub encoder_seconds : D

unfoldable pub div_ceil : ℕ → ℕ → ℕ
div_ceil n d = (n + (d - 1)) / d

unfoldable pub observe : ExecutionState → Result StreamError (Unit {0})
unfolding checkpoint
observe s = map_err refused (checkpoint s)

module _ {V D C : Type 0} (c : StreamConfig V C) (p : Ports V D C) where
  -- One sample of a frame: of the buffer, or of the noise behind it.
  unfoldable pub sample_at : List V → ℕ → Result StreamError V
  sample_at buffer index =
      if ltb index (length buffer)
      then ok_or (get_elem? buffer index) panicked
      else ok_or (get_elem? c.noise index) panicked

  unfoldable pub read_frame : List V → ℕ → ℕ → ℕ → Result StreamError (List V)
  unfolding sample_at
  read_frame buffer offset sample zero = ok []
  read_frame buffer offset sample (suc count) = do
    index ← ok_or (checked_add offset sample) index_overflow
    value ← sample_at buffer index
    values ← read_frame buffer offset (suc sample) count
    ok (value ∷ values)

  unfoldable pub column_at : List V → ℕ → Result StreamError C
  unfolding read_frame
  column_at buffer time = do
    offset ← ok_or (checked_mul time c.hop_length) offset_overflow
    samples ← read_frame buffer offset 0 c.fft_length
    p.frame_log_mel samples

  -- `for time in from..upto`, with `upto - from` turns.
  unfoldable pub fill_columns : List V → ℕ → ℕ → List C → Result StreamError (List C)
  unfolding column_at
  fill_columns buffer time zero mel = ok mel
  fill_columns buffer time (suc turns) mel = do
    column ← column_at buffer time
    refuse_if (not (ltb time (length mel))) panicked
    fill_columns buffer (suc time) turns (set mel time column)

  unfoldable pub real_frames : ℕ → ℕ
  real_frames samples =
      if leb c.fft_length samples then (samples - c.fft_length) / c.hop_length + 1 else 0

  unfoldable pub padded_frames : ℕ → ℕ
  unfolding div_ceil
  padded_frames samples = min (div_ceil samples c.hop_length) c.full_frames

  unfoldable pub update_columns : Window V C → Result StreamError (List C)
  unfolding fill_columns padded_frames
  update_columns w =
      fill_columns w.buffer w.real_full_frames
        (padded_frames (length w.buffer) - w.real_full_frames) w.mel

module _ (d : FloatArithmetic) where
  open d.order use {zero_value, is_finite, lt}

  unfoldable pub check_duration : d.order.Value → d.order.Value → Result StreamError (Unit {0})
  check_duration elapsed encoder =
      let rest = d.sub elapsed encoder in
      refuse_if
        (not (is_finite elapsed)
          || (not (is_finite encoder) || (not (is_finite rest) || lt rest zero_value)))
        bad_duration

  -- `decode`, which uses the ports of the turns `clock`, `clock + 1` and `clock + 2`.
  unfoldable pub decode :
      {V C : Type 0}
      → StreamConfig V C
      → Ports V d.order.Value C
      → ℕ
      → Window V C
      → Result StreamError (Candidate V d.order.Value C)
  unfolding observe update_columns check_duration real_frames
  decode c p clock w = do
    observe (p.control clock)
    mel ← update_columns c p w
    observe (p.control (clock + 1))
    answer ← p.decode clock mel
    observe (p.control (clock + 2))
    check_duration answer.elapsed answer.encoder_seconds
    ok (record {
      words = answer.words;
      silence = answer.silence;
      output_frames = answer.output_frames;
      window = record {
        buffer = w.buffer;
        mel = mel;
        real_full_frames = min (real_frames c p (length w.buffer)) c.full_frames;
        decoded_samples = length w.buffer;
      };
      elapsed = answer.elapsed;
      encoder_seconds = answer.encoder_seconds;
    })
