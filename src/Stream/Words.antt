-- ===== src/Stream/Words.antt =====
-- crates/transcription/src/stream.rs and recognition/src/vad.rs (`mask`): the words of one window, and
-- the silence mask of its probabilities.
use mathlib.Core.List.{reverse}
use gigaam_v3_runtime.Base.{
  Bool, true, false, not, ◌&&◌, ◌||◌, Option, none, some, List, [], ◌∷◌, map, if◌then◌else◌, take,
  Result, ok, ◌>>=◌, ◌>>◌, refuse_if, map_err, collect,
}
use gigaam_v3_runtime.Base.Arithmetic.{FloatArithmetic}
use gigaam_v3_runtime.Transcript.{
  Unicode, TranscriptWord, StreamWord, same_normalized, new_word, shifted, capped_end,
}
use gigaam_v3_runtime.Stitch.{WindowWords}
use gigaam_v3_runtime.Endpoint.{Endpoint, none_yet, SpeechState, absent, present}
use gigaam_v3_runtime.Stream.Config.{
  StreamError, refused, bad_threshold, bad_probability, RecognizedWord,
}

abbrev pub keep : {A : Type 0} → (A → Bool) → List A → List A
keep test [] = []
keep test (x ∷ xs) = if test x then x ∷ keep test xs else keep test xs

abbrev pub any : {A : Type 0} → (A → Bool) → List A → Bool
any test [] = false
any test (x ∷ xs) = test x || any test xs

abbrev pub take_while : {A : Type 0} → (A → Bool) → List A → List A
take_while test [] = []
take_while test (x ∷ xs) = if test x then x ∷ take_while test xs else []

abbrev pub drop_while : {A : Type 0} → (A → Bool) → List A → List A
drop_while test [] = []
drop_while test (x ∷ xs) = if test x then drop_while test xs else x ∷ xs

unfoldable pub speech_of :
    {V : Type 0} → Option (WindowWords V) → List (TranscriptWord V) → SpeechState
speech_of (some previous) words = present
speech_of none [] = absent
speech_of none (w ∷ ws) = present

unfoldable pub is_detected : Endpoint → Bool
is_detected none_yet = false
is_detected other = true

unfoldable pub is_some : {A : Type 0} → Option A → Bool
is_some none = false
is_some (some a) = true

module _ (u : Unicode) (a : FloatArithmetic) where
  open a.order use {Value, is_finite, lt, le}

  -- `mask`.
  unfoldable pub check_probabilities : List Value → Result StreamError (Unit {0})
  check_probabilities [] = ok tt
  check_probabilities (probability ∷ rest) = do
    refuse_if (not (is_finite probability)) bad_probability
    check_probabilities rest

  unfoldable pub mask : List Value → Value → Result StreamError (List Bool)
  unfolding check_probabilities
  mask probabilities threshold = do
    refuse_if (not (is_finite threshold)) bad_threshold
    check_probabilities probabilities
    ok (map (λ probability. lt probability threshold) probabilities)

  -- The three passes over the recognized words.
  unfoldable pub place_words :
      Value → Value → List (RecognizedWord Value) → Result StreamError (List (TranscriptWord Value))
  unfolding new_word capped_end shifted
  place_words length_seconds start_time recognized = do
    words ← map_err refused (collect (λ w. new_word u a w.text w.start w.end) recognized)
    capped ←
        map_err refused
          (collect (capped_end u a length_seconds) (keep (λ w. lt w.start length_seconds) words))
    map_err refused (collect (shifted u a start_time) capped)

  unfoldable pub is_duplicate : List (StreamWord Value) → TranscriptWord Value → Bool
  unfolding same_normalized
  is_duplicate committed w =
      any
        (λ earlier.
          le (a.abs (a.sub earlier.word.start w.start)) (a.hundredths 12)
          && same_normalized u earlier.word.text w.text)
        (take 12 (reverse committed))

  unfoldable pub cut_after : Value → Option (TranscriptWord Value) → Value
  cut_after time none = time
  cut_after time (some w) = w.start
