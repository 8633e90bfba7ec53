-- ===== src/Stitch.antt =====
-- crates/transcription/src/stitch.rs: the seam between two decoded windows that overlap, and the
-- line that the windows make. The construction of windows, a loop on `f32` sums, is left out.
pub mod Slices
pub mod Tests
use gigaam_v3_runtime.Base.{
  ℕ, suc, ◌+◌, Bool, true, false, not, ◌&&◌, ◌||◌, Option, none, some, List, [], ◌∷◌, ◌++◌,
  if◌then◌else◌, leb, take, drop, length, Result, ok, err, ◌>>=◌, ◌>>◌, refuse_if, map_err,
}
use gigaam_v3_runtime.Base.Arithmetic.{FloatArithmetic}
use gigaam_v3_runtime.Transcript.{
  Unicode, TranscriptError, TranscriptWord, finite_nonnegative, same_normalized,
}

-- `panicked` is an index out of range.
pub data StitchError : Type 0 where
  bad_time : TranscriptError → StitchError
  end_before_start panicked : StitchError

pub record Window (V : Type 0) : Type 0 where
  pub start : V
  pub end : V

pub record WindowWords (V : Type 0) : Type 0 where
  pub window : Window V
  pub words : List (TranscriptWord V)

pub record Seam : Type 0 where
  pub previous_count : ℕ
  pub current_skip : ℕ

-- `best` of the search.
pub record Match (V : Type 0) : Type 0 where
  pub distance : V
  pub previous_index : ℕ
  pub current_index : ℕ

unfoldable pub slice_to : {A : Type 0} → ℕ → List A → Result StitchError (List A)
slice_to n xs = if leb n (length xs) then ok (take n xs) else err panicked

unfoldable pub slice_from : {A : Type 0} → ℕ → List A → Result StitchError (List A)
slice_from n xs = if leb n (length xs) then ok (drop n xs) else err panicked

module _ (u : Unicode) (a : FloatArithmetic) where
  open a.order use {Value, lt, le}

  unfoldable pub validate_time : Value → Result StitchError (Unit {0})
  unfolding finite_nonnegative
  validate_time v = map_err bad_time (finite_nonnegative a v)

  -- `Window::new`.
  unfoldable pub new_window : Value → Value → Result StitchError (Window Value)
  unfolding validate_time
  new_window start end = do
    validate_time start
    validate_time end
    refuse_if (lt end start) end_before_start
    ok (record { start = start; end = end })

  distance_of : TranscriptWord Value → Value → Value
  distance_of w time = a.abs (a.sub w.start time)

  closer : Value → Option (Match Value) → Bool
  closer distance none = true
  closer distance (some best) = lt distance best.distance

  words_match : Value → TranscriptWord Value → TranscriptWord Value → Bool
  unfolding distance_of
  words_match tolerance x y =
      le (distance_of x y.start) tolerance && same_normalized u x.text y.text

  -- The inner loop, on the current words from `index` on; a word behind the previous window ends it.
  unfoldable pub match_current :
      Value
      → Value
      → Value
      → TranscriptWord Value
      → ℕ
      → ℕ
      → List (TranscriptWord Value)
      → Option (Match Value)
      → Option (Match Value)
  unfolding words_match closer distance_of
  match_current midpoint previous_end tolerance w previous_index index [] best = best
  match_current midpoint previous_end tolerance w previous_index index (c ∷ rest) best =
      let distance = distance_of w midpoint in
      let next =
        if words_match tolerance w c && closer distance best
        then some
            (record { distance = distance; previous_index = previous_index; current_index = index })
        else best in
      let later =
        match_current midpoint previous_end tolerance w previous_index (suc index) rest next in
      if lt previous_end c.start then best else later

  -- The outer loop, on the previous words from `index` on.
  unfoldable pub match_previous :
      Value
      → Value
      → Value
      → WindowWords Value
      → ℕ
      → List (TranscriptWord Value)
      → Option (Match Value)
      → Option (Match Value)
  unfolding match_current
  match_previous midpoint previous_end tolerance current index [] best = best
  match_previous midpoint previous_end tolerance current index (w ∷ rest) best =
      match_previous midpoint previous_end tolerance current (suc index) rest (
        if lt w.start current.window.start
        then best
        else match_current midpoint previous_end tolerance w index 0 current.words best)

  -- `filter(|word| word.start() < midpoint).count()`.
  unfoldable pub count_before : Value → List (TranscriptWord Value) → ℕ
  count_before midpoint [] = 0
  count_before midpoint (w ∷ rest) =
      (if lt w.start midpoint then 1 else 0) + count_before midpoint rest

  seam_at : Value → List (TranscriptWord Value) → WindowWords Value → Option (Match Value) → Seam
  unfolding count_before
  seam_at midpoint previous current (some best) = record {
    previous_count = best.previous_index;
    current_skip = best.current_index;
  }
  seam_at midpoint previous current none = record {
    previous_count = count_before midpoint previous;
    current_skip = count_before midpoint current.words;
  }

  unfoldable pub seam :
      List (TranscriptWord Value) → Value → WindowWords Value → Value → Result StitchError Seam
  unfolding validate_time match_previous seam_at
  seam previous previous_end current tolerance = do
    validate_time previous_end
    validate_time tolerance
    let midpoint = a.div (a.add current.window.start previous_end) (a.of_count 2)
    ok (
        seam_at midpoint previous current
          (match_previous midpoint previous_end tolerance current 0 previous none))

  -- The loop of `stitch_aligned`.
  unfoldable pub stitch_from :
      List (TranscriptWord Value)
      → List (TranscriptWord Value)
      → Value
      → List (WindowWords Value)
      → Value
      → Result StitchError (List (TranscriptWord Value))
  unfolding seam
  stitch_from out previous previous_end [] tolerance = ok (out ++ previous)
  stitch_from out previous previous_end (current ∷ rest) tolerance = do
    s ← seam previous previous_end current tolerance
    kept ← slice_to s.previous_count previous
    next ← slice_from s.current_skip current.words
    stitch_from (out ++ kept) next current.window.end rest tolerance

  unfoldable pub stitch_aligned :
      List (WindowWords Value) → Value → Result StitchError (List (TranscriptWord Value))
  unfolding validate_time stitch_from
  stitch_aligned [] tolerance = do validate_time tolerance; ok []
  stitch_aligned (first ∷ rest) tolerance = do
    validate_time tolerance
    stitch_from [] first.words first.window.end rest tolerance
