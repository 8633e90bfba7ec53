-- ===== src/Stream/Times.antt =====
-- The words that a session works with have finite times: those it places in the window, and those
-- it takes from the lines it has.
use gigaam_v3_runtime.Base.{
  ℕ, ◌≡◌, refl, subst, Bool, true, false, not, ◌||◌, List, [], ◌∷◌, ◌++◌, if◌then◌else◌, leb, take,
  drop, length, All, All-append, All-take, All-drop, Result, ok, err, >>=-eq-ok, ok-injective,
  if-eq-ok, inl, inr, map_err, map_err-eq-ok, collect, refuse_if,
}
use gigaam_v3_runtime.Base.Arithmetic.{FloatArithmetic}
use gigaam_v3_runtime.Transcript.{
  Unicode, Text, TranscriptError, TranscriptWord, finite_nonnegative, is_blank, new_word, shifted,
  capped_end, empty_text, bad_offset,
}
use gigaam_v3_runtime.Stitch.{
  panicked, WindowWords, slice_to, slice_from, validate_time, seam, stitch_from, stitch_aligned,
}
use gigaam_v3_runtime.Stream.Config.{refused, RecognizedWord}
use gigaam_v3_runtime.Stream.Emission.{HasTimes}
use gigaam_v3_runtime.Stream.Words.{keep, take_while, drop_while, place_words}

All-if :
    {A : Type 0} (P : A → Type 0) (b : Bool) (xs ys : List A)
    → All P xs
    → All P ys
    → All P (if b then xs else ys)
All-if P true xs ys h k = h
All-if P false xs ys h k = k

pub All-keep :
    {A : Type 0} (P : A → Type 0) (test : A → Bool) (xs : List A) → All P xs → All P (keep test xs)
All-keep P test [] h = tt
All-keep P test (x ∷ xs) h =
    All-if P (test x) (x ∷ keep test xs) _ (h.0, All-keep P test xs h.1) (All-keep P test xs h.1)

pub All-take_while :
    {A : Type 0} (P : A → Type 0) (test : A → Bool) (xs : List A)
    → All P xs
    → All P (take_while test xs)
All-take_while P test [] h = tt
All-take_while P test (x ∷ xs) h =
    All-if P (test x) (x ∷ take_while test xs) _ (h.0, All-take_while P test xs h.1) tt

pub All-drop_while :
    {A : Type 0} (P : A → Type 0) (test : A → Bool) (xs : List A)
    → All P xs
    → All P (drop_while test xs)
All-drop_while P test [] h = tt
All-drop_while P test (x ∷ xs) h = All-if P (test x) _ (x ∷ xs) (All-drop_while P test xs h.1) h

All-collect :
    {E A B : Type 0} (P : B → Type 0) (f : A → Result E B) (xs : List A) {ys : List B}
    → ((x : A) (y : B) → f x ≡ ok y → P y)
    → collect f xs ≡ ok ys
    → All P ys
All-collect P f [] made h = subst (All P) (ok-injective h) tt
All-collect P f (x ∷ xs) made h =
    let (y, first, rest) = >>=-eq-ok (f x) _ h in
    let (ys, later, last) = >>=-eq-ok (collect f xs) _ rest in
    subst (All P) (ok-injective last) (made x y first, All-collect P f xs made later)

refuse_if-passed :
    {E : Type 0} (test : Bool) (e : E) {done : Unit {0}} → refuse_if test e ≡ ok done → test ≡ false
refuse_if-passed true e h = cc
refuse_if-passed false e h = refl

or_false : (a b : Bool) → (not a || b) ≡ false → a ≡ true
or_false true b h = refl
or_false false b h = cc

module _ (u : Unicode) (a : FloatArithmetic) where
  open a.order use {Value, is_finite, zero_value, lt}

  pub finite_nonnegative-finite :
      (v : Value) {done : Unit {0}} → finite_nonnegative a v ≡ ok done → is_finite v ≡ true
  unfolding finite_nonnegative
  finite_nonnegative-finite v h =
      or_false (is_finite v) (lt v zero_value)
        (refuse_if-passed (not (is_finite v) || lt v zero_value) TranscriptError.bad_time h)

  new_word-HasTimes :
      (text : Text) (start end : Value) (w : TranscriptWord Value)
      → new_word u a text start end ≡ ok w
      → HasTimes a w
  unfolding new_word
  new_word-HasTimes text start end w h =
      let (_, _, h1) = >>=-eq-ok (refuse_if (is_blank u text) empty_text) _ h in
      let (_, is_start, h2) = >>=-eq-ok (finite_nonnegative a start) _ h1 in
      let (_, is_end, h3) = >>=-eq-ok (finite_nonnegative a end) _ h2 in
      let (_, _, made) =
        >>=-eq-ok (refuse_if (lt end start) TranscriptError.end_before_start) _ h3 in
      subst (HasTimes a) (ok-injective made)
        (finite_nonnegative-finite start is_start, finite_nonnegative-finite end is_end)

  shifted-HasTimes :
      (offset : Value) (w w' : TranscriptWord Value) → shifted u a offset w ≡ ok w' → HasTimes a w'
  unfolding shifted
  shifted-HasTimes offset w w' h =
      let (_, _, h') = >>=-eq-ok (refuse_if (not (is_finite offset)) bad_offset) _ h in
      new_word-HasTimes w.text (a.add w.start offset) (a.add w.end offset) w' h'

  pub place_words-times :
      (length_seconds start_time : Value) (recognized : List (RecognizedWord Value))
      {words : List (TranscriptWord Value)}
      → place_words u a length_seconds start_time recognized ≡ ok words
      → All (HasTimes a) words
  unfolding place_words
  place_words-times length_seconds start_time recognized h =
      let (words, _, h1) =
        >>=-eq-ok
          (map_err refused
            (collect (λ (w : RecognizedWord Value). new_word u a w.text w.start w.end) recognized))
          _ h in
      let (capped, _, h2) =
        >>=-eq-ok
          (map_err refused
            (collect (capped_end u a length_seconds) (keep (λ w. lt w.start length_seconds) words)))
          _ h1 in
      All-collect (HasTimes a) (shifted u a start_time) capped (shifted-HasTimes start_time)
        (map_err-eq-ok refused _ h2)

  slice_to-All :
      (n : ℕ) (ws : List (TranscriptWord Value)) {kept : List (TranscriptWord Value)}
      → All (HasTimes a) ws
      → slice_to n ws ≡ ok kept
      → All (HasTimes a) kept
  unfolding slice_to
  slice_to-All n ws times h =
      elim (if-eq-ok (leb n (length ws)) (ok (take n ws)) (err panicked) h) [
        | inl k ↦ subst (All (HasTimes a)) (ok-injective k.1) (All-take (HasTimes a) n ws times)
        | inr k ↦ cc
      ]

  slice_from-All :
      (n : ℕ) (ws : List (TranscriptWord Value)) {kept : List (TranscriptWord Value)}
      → All (HasTimes a) ws
      → slice_from n ws ≡ ok kept
      → All (HasTimes a) kept
  unfolding slice_from
  slice_from-All n ws times h =
      elim (if-eq-ok (leb n (length ws)) (ok (drop n ws)) (err panicked) h) [
        | inl k ↦ subst (All (HasTimes a)) (ok-injective k.1) (All-drop (HasTimes a) n ws times)
        | inr k ↦ cc
      ]

  -- A window whose words have times.
  abbrev pub WindowHasTimes : WindowWords Value → Type 0
  WindowHasTimes w = All (HasTimes a) w.words

  stitch_from-times :
      (out previous : List (TranscriptWord Value)) (previous_end : Value)
      (rest : List (WindowWords Value)) (tolerance : Value) {line : List (TranscriptWord Value)}
      → All (HasTimes a) out
      → All (HasTimes a) previous
      → All WindowHasTimes rest
      → stitch_from u a out previous previous_end rest tolerance ≡ ok line
      → All (HasTimes a) line
  unfolding stitch_from
  stitch_from-times out previous previous_end [] tolerance h k l made =
      subst (All (HasTimes a)) (ok-injective made) (All-append (HasTimes a) out previous h k)
  stitch_from-times out previous previous_end (current ∷ rest) tolerance h k l made =
      let (s, _, h1) = >>=-eq-ok (seam u a previous previous_end current tolerance) _ made in
      let (kept, e1, h2) = >>=-eq-ok (slice_to s.previous_count previous) _ h1 in
      let (next, e2, h3) = >>=-eq-ok (slice_from s.current_skip current.words) _ h2 in
      stitch_from-times (out ++ kept) next current.window.end rest tolerance
        (All-append (HasTimes a) out kept h (slice_to-All s.previous_count previous k e1))
        (slice_from-All s.current_skip current.words l.0 e2) l.1 h3

  pub stitch_aligned-times :
      (windows : List (WindowWords Value)) (tolerance : Value) {line : List (TranscriptWord Value)}
      → All WindowHasTimes windows
      → stitch_aligned u a windows tolerance ≡ ok line
      → All (HasTimes a) line
  unfolding stitch_aligned
  stitch_aligned-times [] tolerance h made =
      let (_, _, last) = >>=-eq-ok (validate_time u a tolerance) _ made in
      subst (All (HasTimes a)) (ok-injective last) tt
  stitch_aligned-times (w ∷ ws) tolerance h made =
      let (_, _, rest) = >>=-eq-ok (validate_time u a tolerance) _ made in
      stitch_from-times [] w.words w.window.end ws tolerance tt h.0 h.1 rest
