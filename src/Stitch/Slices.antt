-- ===== src/Stitch/Slices.antt =====
-- Every window gives one slice of its words to the line.
use gigaam_v3_runtime.Base.{
  ℕ, zero, suc, ◌+◌, ◌≤◌, ◌<◌, ◌≡◌, refl, sym, ap, ◌∙◌, subst, Bool, true, false, Option, none,
  some, List, [], ◌∷◌, ◌++◌, append_assoc, append-nil, arith, if◌then◌else◌, le→leb, take, drop,
  min, length, All, ok, >>=-eq-ok, ok-injective,
}
use gigaam_v3_runtime.Base.Arithmetic.{FloatArithmetic}
use gigaam_v3_runtime.Transcript.{Unicode, TranscriptWord, finite_nonnegative}
use gigaam_v3_runtime.Stitch.{
  distance_of, WindowWords, Seam, Match, validate_time, slice_to, slice_from, match_current,
  match_previous, count_before, seam_at, seam, stitch_from, stitch_aligned,
}

abbrev pub concat : {A : Type 0} → List (List A) → List A
concat [] = []
concat (xs ∷ xss) = xs ++ concat xss

module _ (u : Unicode) (a : FloatArithmetic) where
  open a.order use {Value, zero_value, is_finite, lt, le}

  -- A match in the bounds of both lines.
  abbrev InBounds : ℕ → ℕ → Option (Match Value) → Type 0
  InBounds p c none = Unit
  InBounds p c (some m) = (m.previous_index < p) × (m.current_index < c)

  if_case {ℓ} :
      {A : Type 0} (P : A → Type ℓ) (b : Bool) (x y : A) → P x → P y → P (if b then x else y)
  if_case P true x y h k = h
  if_case P false x y h k = k

  match_current-InBounds :
      (midpoint previous_end tolerance : Value) (w : TranscriptWord Value) (p i c index : ℕ)
      (words : List (TranscriptWord Value)) (best : Option (Match Value))
      → i < p
      → index + length words ≤ c
      → InBounds p c best
      → InBounds p c (match_current u a midpoint previous_end tolerance w i index words best)
  unfolding match_current
  match_current-InBounds m e t w p i c index [] best h k b = b
  match_current-InBounds m e t w p i c index (x ∷ rest) best h k b =
      if_case (InBounds p c) _ _ _ b (
        match_current-InBounds m e t w p i c (suc index) rest _ h (omega arith) (
          if_case (InBounds p c) _
            (some (record {
              distance = distance_of u a w m;
              previous_index = i;
              current_index = index;
            }))
            _ (h, omega arith) b))

  match_previous-InBounds :
      (midpoint previous_end tolerance : Value) (current : WindowWords Value) (p index : ℕ)
      (words : List (TranscriptWord Value)) (best : Option (Match Value))
      → index + length words ≤ p
      → InBounds p (length current.words) best
      → InBounds p
          (length current.words)
          (match_previous u a midpoint previous_end tolerance current index words best)
  unfolding match_previous
  match_previous-InBounds m e t current p index [] best h b = b
  match_previous-InBounds m e t current p index (w ∷ rest) best h b =
      match_previous-InBounds m e t current p (suc index) rest _ (omega arith) (
        if_case (InBounds p (length current.words)) _ _ _ b (
          match_current-InBounds m e t w p index (length current.words) 0 current.words best
            (omega arith) (omega arith) b))

  count_before-le :
      (m : Value) (words : List (TranscriptWord Value)) → count_before u a m words ≤ length words
  unfolding count_before
  count_before-le m [] = omega arith
  count_before-le m (w ∷ rest) = ground (arith, count_before-le m rest)

  seam_at-bounds :
      (m : Value) (previous : List (TranscriptWord Value)) (current : WindowWords Value)
      (best : Option (Match Value))
      → InBounds (length previous) (length current.words) best
      → let s = seam_at u a m previous current best in
        (s.previous_count ≤ length previous) × (s.current_skip ≤ length current.words)
  unfolding seam_at
  seam_at-bounds m previous current none b =
      (count_before-le m previous, count_before-le m current.words)
  seam_at-bounds m previous current (some best) b = (omega arith, omega arith)

  -- A seam cuts within both lines.
  seam-bounds :
      (previous : List (TranscriptWord Value)) (previous_end : Value) (current : WindowWords Value)
      (tolerance : Value) (s : Seam)
      → seam u a previous previous_end current tolerance ≡ ok s
      → (s.previous_count ≤ length previous) × (s.current_skip ≤ length current.words)
  unfolding seam
  seam-bounds previous previous_end current tolerance s h =
      let (_, _, h') = >>=-eq-ok (validate_time u a previous_end) _ h in
      let (_, _, h'') = >>=-eq-ok (validate_time u a tolerance) _ h' in
      let m = a.div (a.add current.window.start previous_end) (a.of_count 2) in
      subst
        (λ (r : Seam).
          (r.previous_count ≤ length previous) × (r.current_skip ≤ length current.words))
        (ok-injective h'')
        (seam_at-bounds m previous current _ (
          match_previous-InBounds m previous_end tolerance current (length previous) 0 previous none
            (omega arith) tt))

  -- A slice of a window's words.
  abbrev pub IsSlice : List (TranscriptWord Value) → List (TranscriptWord Value) → Type 0
  IsSlice words slice = (skip : ℕ) × (count : ℕ) × (slice ≡ take count (drop skip words))

  abbrev pub AreSlices : List (WindowWords Value) → List (List (TranscriptWord Value)) → Type 0
  AreSlices [] [] = Unit
  AreSlices (w ∷ ws) (slice ∷ slices) = IsSlice w.words slice × AreSlices ws slices
  AreSlices _ _ = ⊥

  -- A window whose end is a time, as `Window::new` makes it.
  abbrev pub EndsWell : WindowWords Value → Type 0
  EndsWell w = finite_nonnegative a w.window.end ≡ ok tt

  seam-ok :
      (previous : List (TranscriptWord Value)) (previous_end : Value) (current : WindowWords Value)
      (tolerance : Value)
      → finite_nonnegative a previous_end ≡ ok tt
      → finite_nonnegative a tolerance ≡ ok tt
      → (s : Seam) × (seam u a previous previous_end current tolerance ≡ ok s)
  unfolding seam validate_time
  seam-ok previous previous_end current tolerance h k =
      let m = a.div (a.add current.window.start previous_end) (a.of_count 2) in
      (
        seam_at u a m previous current
            (match_previous u a m previous_end tolerance current 0 previous none),
        rw (h, k) refl,
      )

  take_all : {A : Type 0} (xs : List A) → xs ≡ take (length xs) xs
  take_all [] = refl
  take_all (x ∷ xs) = ap (◌∷◌ x) (take_all xs)

  take-take : {A : Type 0} (m n : ℕ) (xs : List A) → take m (take n xs) ≡ take (min m n) xs
  take-take zero n xs = let e : zero ≡ min zero n = omega arith in ap (λ k. take k xs) e
  take-take (suc m) zero xs = let e : zero ≡ min (suc m) zero = omega arith in ap (λ k. take k xs) e
  take-take (suc m) (suc n) [] =
      let e : suc (min m n) ≡ min (suc m) (suc n) = omega arith in ap (λ k. take k []) e
  take-take (suc m) (suc n) (x ∷ xs) =
      let e : suc (min m n) ≡ min (suc m) (suc n) = omega arith in
      ap (◌∷◌ x) (take-take m n xs) ∙ ap (λ k. take k (x ∷ xs)) e

  stitch_from-AreSlices :
      (out previous words : List (TranscriptWord Value)) (previous_end : Value)
      (rest : List (WindowWords Value)) (tolerance : Value)
      → IsSlice words previous
      → finite_nonnegative a previous_end ≡ ok tt
      → finite_nonnegative a tolerance ≡ ok tt
      → All EndsWell rest
      → (first : List (TranscriptWord Value)) × (slices : List (List (TranscriptWord Value)))
        × (stitch_from u a out previous previous_end rest tolerance
            ≡ ok (out ++ (first ++ concat slices)))
        × IsSlice words first
        × AreSlices rest slices
  unfolding stitch_from slice_to slice_from
  stitch_from-AreSlices out previous words previous_end [] tolerance sl h k ends =
      (previous, [], ap (λ xs. ok (out ++ xs)) (sym (append-nil previous)), sl, tt)
  stitch_from-AreSlices out previous words previous_end (current ∷ rest) tolerance sl h k ends =
      let (s, found) = seam-ok previous previous_end current tolerance h k in
      let (inside, inside') = seam-bounds previous previous_end current tolerance s found in
      let (skip, count, e) = sl in
      let (first, slices, made, sl', sls) =
        stitch_from-AreSlices (out ++ take s.previous_count previous)
          (drop s.current_skip current.words) current.words current.window.end rest tolerance
          (s.current_skip, _, take_all _) ends.0 k ends.1 in
      (
        take s.previous_count previous,
        first ∷ slices,
        rw (found, le→leb _ _ inside, le→leb _ _ inside')
            (made
              ∙ ap ok (append_assoc out (take s.previous_count previous) (first ++ concat slices))),
        (
          skip,
          min s.previous_count count,
          ap (take s.previous_count) e ∙ take-take s.previous_count count (drop skip words),
        ),
        (sl', sls),
      )

  -- Stitching windows whose ends are times, with a tolerance that is one, never fails: the line is
  -- made of one slice of each window's words, in the windows' order.
  pub stitch_aligned-AreSlices :
      (windows : List (WindowWords Value)) (tolerance : Value)
      → finite_nonnegative a tolerance ≡ ok tt
      → All EndsWell windows
      → (slices : List (List (TranscriptWord Value))) × (stitch_aligned u a windows tolerance
          ≡ ok (concat slices))
        × AreSlices windows slices
  unfolding stitch_aligned validate_time
  stitch_aligned-AreSlices [] tolerance k ends = ([], rw k refl, tt)
  stitch_aligned-AreSlices (w ∷ ws) tolerance k (e, ends) =
      let (first, slices, made, sl, sls) =
        stitch_from-AreSlices [] w.words w.words w.window.end ws tolerance (0, _, take_all w.words)
          e k ends in
      (first ∷ slices, rw k made, (sl, sls))
