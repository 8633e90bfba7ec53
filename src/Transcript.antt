-- ===== src/Transcript.antt =====
-- crates/transcription/src/contracts.rs and text.rs: words, the events of a stream, and the
-- normalization of a word's text. Text is a list of code points. The provenance of a word, which
-- a stream does not set, is left out.
use gigaam_v3_runtime.Base.{
  ℕ, Bool, true, false, not, ◌&&◌, ◌||◌, List, [], ◌∷◌, ◌++◌, if◌then◌else◌, ◌==◌, Result, ok, err,
  ◌>>◌, refuse_if,
}
use gigaam_v3_runtime.Base.Arithmetic.{FloatArithmetic}
use gigaam_v3_runtime.Execution.{
  ExecutionState, ready, queued, running, cancel_requested, cancelled, completed, failed,
}

abbrev pub Text : Type 0
Text = List ℕ

-- `char` of Rust's library.
pub record Unicode : Type 0 where
  pub is_whitespace : ℕ → Bool
  pub is_alphanumeric : ℕ → Bool
  pub to_lowercase : ℕ → List ℕ

pub data TranscriptError : Type 0 where
  empty_text bad_time end_before_start bad_offset bad_boundary : TranscriptError
  execution_cancelled execution_terminal : TranscriptError

unfoldable pub same_text : Text → Text → Bool
same_text [] [] = true
same_text (c ∷ cs) (d ∷ ds) = c == d && same_text cs ds
same_text _ _ = false

unfoldable pub checkpoint : ExecutionState → Result TranscriptError (Unit {0})
checkpoint ready = ok tt
checkpoint queued = ok tt
checkpoint running = ok tt
checkpoint cancel_requested = err execution_cancelled
checkpoint cancelled = err execution_cancelled
checkpoint completed = err execution_terminal
checkpoint failed = err execution_terminal

pub data WordStability : Type 0 where
  revisable stable : WordStability

pub data WordFinality : Type 0 where
  open_ended final : WordFinality

pub record TranscriptWord (V : Type 0) : Type 0 where
  pub text : Text
  pub start : V
  pub end : V

pub record StreamWord (V : Type 0) : Type 0 where
  pub word : TranscriptWord V
  pub stability : WordStability

pub data FinalReason : Type 0 where
  endpoint forced_or_locked : FinalReason

-- `WordsEvent`, the stable `FrontierEvent` and `FinalEvent`.
pub data StreamEvent (V : Type 0) : Type 0 where
  words_event : V → ℕ → List (StreamWord V) → StreamEvent V
  stable_event : V → ℕ → StreamEvent V
  final_event : V → ℕ → FinalReason → StreamEvent V

module _ (u : Unicode) where
  open u use {is_whitespace, is_alphanumeric, to_lowercase}

  -- `text.trim().is_empty()`.
  unfoldable pub is_blank : Text → Bool
  is_blank [] = true
  is_blank (c ∷ rest) = is_whitespace c && is_blank rest

  fold_letter : ℕ → ℕ
  fold_letter c = if c == 0x451 then 0x435 else c

  lower : List ℕ → Text
  unfolding fold_letter
  lower [] = []
  lower (c ∷ rest) = fold_letter c ∷ lower rest

  keeps_letter : ℕ → Bool
  keeps_letter c = is_alphanumeric c || (c == 39 || c == 45)

  unfoldable pub normalize_word : Text → Text
  unfolding lower keeps_letter
  normalize_word [] = []
  normalize_word (c ∷ rest) =
      (if keeps_letter c then lower (to_lowercase c) else []) ++ normalize_word rest

  unfoldable pub same_normalized : Text → Text → Bool
  same_normalized x y = same_text (normalize_word x) (normalize_word y)

module _ (a : FloatArithmetic) where
  open a.order use {Value, zero_value, is_finite, lt}

  unfoldable pub finite_nonnegative : Value → Result TranscriptError (Unit {0})
  finite_nonnegative v = refuse_if (not (is_finite v) || lt v zero_value) bad_time

module _ (u : Unicode) (a : FloatArithmetic) where
  open a.order use {Value, is_finite, lt}

  -- `TranscriptWord::new`.
  unfoldable pub new_word : Text → Value → Value → Result TranscriptError (TranscriptWord Value)
  unfolding finite_nonnegative
  new_word text start end = do
    refuse_if (is_blank u text) empty_text
    finite_nonnegative a start
    finite_nonnegative a end
    refuse_if (lt end start) end_before_start
    ok (record { text = text; start = start; end = end })

  unfoldable pub shifted :
      Value → TranscriptWord Value → Result TranscriptError (TranscriptWord Value)
  unfolding new_word
  shifted offset w = do
    refuse_if (not (is_finite offset)) bad_offset
    new_word w.text (a.add w.start offset) (a.add w.end offset)

  unfoldable pub capped_end :
      Value → TranscriptWord Value → Result TranscriptError (TranscriptWord Value)
  unfolding new_word finite_nonnegative
  capped_end maximum w = do
    finite_nonnegative a maximum
    refuse_if (lt maximum w.start) bad_boundary
    new_word w.text w.start (a.minimum w.end maximum)
