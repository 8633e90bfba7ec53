-- ===== src/Endpoint/Ranges.antt =====
-- The speech ranges against the mask that they come from.
use gigaam_v3_runtime.Base.{
  ℕ, zero, suc, ◌+◌, ◌-◌, ◌<◌, ◌≤◌, ◌≡◌, refl, subst, sym, ap, ◌⊎◌, inl, inr, Bool, true, false,
  Option, none, some, List, [], ◌∷◌, ◌++◌, arith, ltb, Bool-cases, ltb→lt, get_elem?, length,
}
use native.Mathlib.Nat.{add-zero, zero-add}
use gigaam_v3_runtime.Endpoint.{Scan, visit, scan_mask, close_range, segments}

-- Half-open ranges from `low` to `high`, nonempty, with at least `gap` frames between neighbours.
abbrev pub Separated : ℕ → ℕ → ℕ → List (ℕ × ℕ) → Type 0
Separated gap low high [] = Unit {0}
Separated gap low high ((a, b) ∷ rest) =
    (low ≤ a) × (a < b) × (b ≤ high) × Separated gap (b + gap) high rest

-- The frame lies in one of the ranges.
abbrev pub InRanges : ℕ → List (ℕ × ℕ) → Type 0
InRanges i [] = ⊥
InRanges i ((a, b) ∷ rest) = ((a ≤ i) × (i < b)) ⊎ InRanges i rest

-- Each range begins and ends on a speech frame of the mask.
abbrev pub Ends : List Bool → List (ℕ × ℕ) → Type 0
Ends mask [] = Unit {0}
Ends mask ((a, b) ∷ rest) =
    (get_elem? mask a ≡ some false) × (get_elem? mask (b - 1) ≡ some false) × Ends mask rest

module _ (gap : ℕ) where
  Separated-extend :
      (xs : List (ℕ × ℕ)) (low high high' a b b' : ℕ)
      → b ≤ b'
      → b' ≤ high'
      → high ≤ high'
      → Separated gap low high (xs ++ ((a, b) ∷ []))
      → Separated gap low high' (xs ++ ((a, b') ∷ []))
  Separated-extend [] low high high' a b b' h k l s = (s.0, omega arith, k, tt)
  Separated-extend ((c, d) ∷ xs) low high high' a b b' h k l s =
      (s.0, s.1, omega arith, Separated-extend xs (d + gap) high high' a b b' h k l s.3)

  Separated-push :
      (xs : List (ℕ × ℕ)) (low high high' a b a' b' : ℕ)
      → b + gap ≤ a'
      → a' < b'
      → b' ≤ high'
      → high ≤ high'
      → Separated gap low high (xs ++ ((a, b) ∷ []))
      → Separated gap low high' ((xs ++ ((a, b) ∷ [])) ++ ((a', b') ∷ []))
  Separated-push [] low high high' a b a' b' h k l m s = (s.0, s.1, omega arith, (h, k, l, tt))
  Separated-push ((c, d) ∷ xs) low high high' a b a' b' h k l m s =
      (s.0, s.1, omega arith, Separated-push xs (d + gap) high high' a b a' b' h k l m s.3)

  Separated-high :
      (xs : List (ℕ × ℕ)) (low high high' : ℕ)
      → high ≤ high'
      → Separated gap low high xs
      → Separated gap low high' xs
  Separated-high [] low high high' l s = tt
  Separated-high ((c, d) ∷ xs) low high high' l s =
      (s.0, s.1, omega arith, Separated-high xs (d + gap) high high' l s.3)

Ends-extend :
    (mask : List Bool) (xs : List (ℕ × ℕ)) (a b index : ℕ)
    → get_elem? mask index ≡ some false
    → Ends mask (xs ++ ((a, b) ∷ []))
    → Ends mask (xs ++ ((a, index + 1) ∷ []))
Ends-extend mask [] a b index h e = (e.0, rw (back index) h, tt)
  where
    back : (n : ℕ) → n + 1 - 1 ≡ n
    back n = omega arith
Ends-extend mask ((c, d) ∷ xs) a b index h e = (e.0, e.1, Ends-extend mask xs a b index h e.2)

Ends-push :
    (mask : List Bool) (xs : List (ℕ × ℕ)) (index : ℕ)
    → get_elem? mask index ≡ some false
    → Ends mask xs
    → Ends mask (xs ++ ((index, index + 1) ∷ []))
Ends-push mask [] index h e = (h, rw (back index) h, tt)
  where
    back : (n : ℕ) → n + 1 - 1 ≡ n
    back n = omega arith
Ends-push mask ((c, d) ∷ xs) index h e = (e.0, e.1, Ends-push mask xs index h e.2)

InRanges-append : (i : ℕ) (xs ys : List (ℕ × ℕ)) → InRanges i xs → InRanges i (xs ++ ys)
InRanges-append i [] ys h = absurd h
InRanges-append i ((a, b) ∷ xs) ys (inl h) = inl h
InRanges-append i ((a, b) ∷ xs) ys (inr h) = inr (InRanges-append i xs ys h)

InRanges-last : (i a b : ℕ) (xs : List (ℕ × ℕ)) → a ≤ i → i < b → InRanges i (xs ++ ((a, b) ∷ []))
InRanges-last i a b [] h k = inl (h, k)
InRanges-last i a b ((c, d) ∷ xs) h k = inr (InRanges-last i a b xs h k)

InRanges-extend :
    (i a b b' : ℕ) (xs : List (ℕ × ℕ))
    → b ≤ b'
    → InRanges i (xs ++ ((a, b) ∷ []))
    → InRanges i (xs ++ ((a, b') ∷ []))
InRanges-extend i a b b' [] l (inl h) = inl (h.0, omega arith)
InRanges-extend i a b b' [] l (inr h) = absurd h
InRanges-extend i a b b' ((c, d) ∷ xs) l (inl h) = inl h
InRanges-extend i a b b' ((c, d) ∷ xs) l (inr h) = inr (InRanges-extend i a b b' xs l h)

-- The ranges if the mask ended here.
closed : List (ℕ × ℕ) → ℕ → ℕ → List (ℕ × ℕ)
closed ranges start last = ranges ++ ((start, last + 1) ∷ [])

-- What holds of the scan before the frame `index`.
abbrev Pending : List Bool → ℕ → ℕ → List (ℕ × ℕ) → Option ℕ → ℕ → Type 0
Pending mask gap index ranges none last = ranges ≡ []
Pending mask gap index ranges (some start) last =
    (start ≤ last)
    × (last < index)
    × Separated gap 0 index (closed ranges start last)
    × Ends mask (closed ranges start last)

abbrev IsPending : List Bool → ℕ → ℕ → Scan → Type 0
IsPending mask gap index s = Pending mask gap index s.ranges s.start s.last_speech

abbrev scan_of : List (ℕ × ℕ) → Option ℕ → ℕ → Scan
scan_of ranges start last = record { ranges = ranges; start = start; last_speech = last }

visit_first :
    (gap index last : ℕ) (ranges : List (ℕ × ℕ))
    → visit gap index false (scan_of ranges none last) ≡ scan_of ranges (some index) index
unfolding visit
visit_first gap index last ranges = refl

visit_far :
    (gap index start last : ℕ) (ranges : List (ℕ × ℕ))
    → ltb gap (index - last) ≡ true
    → visit gap index false (scan_of ranges (some start) last)
      ≡ scan_of (closed ranges start last) (some index) index
unfolding visit closed
visit_far gap index start last ranges h = rw h refl

visit_near :
    (gap index start last : ℕ) (ranges : List (ℕ × ℕ))
    → ltb gap (index - last) ≡ false
    → visit gap index false (scan_of ranges (some start) last) ≡ scan_of ranges (some start) index
unfolding visit
visit_near gap index start last ranges h = rw h refl

-- A scan that holds the frame `index` and all that an earlier scan held.
abbrev Visited : List Bool → ℕ → ℕ → Scan → Scan → Type 0
Visited mask gap index before after =
    IsPending mask gap (suc index) after
    × InRanges index (close_range after)
    × ((i : ℕ) → InRanges i (close_range before) → InRanges i (close_range after))

module _ (mask : List Bool) (gap : ℕ) where
  visit_speech :
      (index : ℕ) (ranges : List (ℕ × ℕ)) (start : Option ℕ) (last : ℕ)
      → get_elem? mask index ≡ some false
      → Pending mask gap index ranges start last
      → Visited mask gap index
          (scan_of ranges start last)
          (visit gap index false (scan_of ranges start last))
  unfolding close_range closed
  visit_speech index ranges none last h p = rw (visit_first gap index last ranges) (
    (omega arith, omega arith, rw p (omega arith), rw p (Ends-push mask [] index h tt)),
    InRanges-last index index (index + 1) ranges (omega arith) (omega arith),
    λ i j. absurd (rw p at j),
  )
  visit_speech index ranges (some start) last h (a, b, sep, ends) =
      elim (Bool-cases (ltb gap (index - last))) [
        | inl far ↦
            let apart : gap < index - last = ltb→lt gap (index - last) far in
            rw (visit_far gap index start last ranges far) (
              (
                omega arith,
                omega arith,
                Separated-push gap ranges 0 index (suc index) start (last + 1) index (index + 1)
                    (omega arith) (omega arith) (omega arith) (omega arith) sep,
                Ends-push mask (closed ranges start last) index h ends,
              ),
              InRanges-last index index (index + 1) (closed ranges start last) (omega arith)
                  (omega arith),
              λ i j. InRanges-append i (closed ranges start last) ((index, index + 1) ∷ []) j,
            )
        | inr near ↦ rw (visit_near gap index start last ranges near) (
          (
            omega arith,
            omega arith,
            Separated-extend gap ranges 0 index (suc index) start (last + 1) (index + 1)
                (omega arith) (omega arith) (omega arith) sep,
            Ends-extend mask ranges start (last + 1) index h ends,
          ),
          InRanges-last index start (index + 1) ranges (omega arith) (omega arith),
          λ i j. InRanges-extend i start (last + 1) (index + 1) ranges (omega arith) j,
        )
      ]

  visit_silence :
      (index : ℕ) (ranges : List (ℕ × ℕ)) (start : Option ℕ) (last : ℕ)
      → Pending mask gap index ranges start last
      → Pending mask gap (suc index) ranges start last
  visit_silence index ranges none last p = p
  visit_silence index ranges (some start) last (a, b, sep, ends) = (
    a,
    omega arith,
    Separated-high gap (closed ranges start last) 0 index (suc index) (omega arith) sep,
    ends,
  )

  -- What a scan of the rest of the mask keeps and adds.
  abbrev Scanned : ℕ → ℕ → List Bool → Scan → Scan → Type 0
  Scanned index last rest before after =
      IsPending mask gap last after
      × ((k : ℕ) → get_elem? rest k ≡ some false → InRanges (index + k) (close_range after))
      × ((i : ℕ) → InRanges i (close_range before) → InRanges i (close_range after))

  slide : (i k : ℕ) → i + suc k ≡ suc i + k
  slide i k = omega arith

  tail_same :
      (index : ℕ) (silent : Bool) (rest : List Bool)
      → ((k : ℕ) → get_elem? (silent ∷ rest) k ≡ get_elem? mask (index + k))
      → (k : ℕ) → get_elem? rest k ≡ get_elem? mask (suc index + k)
  tail_same index silent rest same k = rw (slide index k) at (same (suc k))

  head_same :
      (index : ℕ) (silent : Bool) (rest : List Bool)
      → ((k : ℕ) → get_elem? (silent ∷ rest) k ≡ get_elem? mask (index + k))
      → get_elem? mask index ≡ some silent
  head_same index silent rest same = rw add-zero at (sym (same 0))

  tail_covered :
      (index : ℕ) (rest : List Bool) (out : List (ℕ × ℕ))
      → ((k : ℕ) → get_elem? rest k ≡ some false → InRanges (suc index + k) out)
      → (k : ℕ) → get_elem? (true ∷ rest) k ≡ some false
      → InRanges (index + k) out
  tail_covered index rest out c zero h = cc
  tail_covered index rest out c (suc k) h = rw (slide index k) (c k h)

  speech_covered :
      (index : ℕ) (rest : List Bool) (out : List (ℕ × ℕ))
      → InRanges index out
      → ((k : ℕ) → get_elem? rest k ≡ some false → InRanges (suc index + k) out)
      → (k : ℕ) → get_elem? (false ∷ rest) k ≡ some false
      → InRanges (index + k) out
  speech_covered index rest out i c zero h = rw add-zero i
  speech_covered index rest out i c (suc k) h = rw (slide index k) (c k h)

  scan_mask-Scanned :
      (index last : ℕ) (rest : List Bool) (s : Scan)
      → index + length rest ≡ last
      → ((k : ℕ) → get_elem? rest k ≡ get_elem? mask (index + k))
      → IsPending mask gap index s
      → Scanned index last rest s (scan_mask gap index rest s)
  unfolding scan_mask visit
  scan_mask-Scanned index last [] s e same p =
      let here : index ≡ last = omega arith in
      (subst (λ n. IsPending mask gap n s) here p, λ k h. cc, λ i j. j)
  scan_mask-Scanned index last (true ∷ rest) s e same p =
      let (pending, covered, held) =
        scan_mask-Scanned (suc index) last rest s (omega arith) (tail_same index true rest same)
          (visit_silence index s.ranges s.start s.last_speech p) in
      (
        pending,
        tail_covered index rest (close_range (scan_mask gap (suc index) rest s)) covered,
        held,
      )
  scan_mask-Scanned index last (false ∷ rest) s e same p =
      let (visited, found, added) =
        visit_speech index s.ranges s.start s.last_speech (head_same index false rest same) p in
      let (pending, covered, held) =
        scan_mask-Scanned (suc index) last rest (visit gap index false s) (omega arith)
          (tail_same index false rest same) visited in
      (
        pending,
        speech_covered index rest
            (close_range (scan_mask gap (suc index) rest (visit gap index false s)))
            (held index found) covered,
        λ i j. held i (added i j),
      )

  pending_closed :
      (last : ℕ) (s : Scan)
      → IsPending mask gap last s
      → Separated gap 0 last (close_range s) × Ends mask (close_range s)
  unfolding close_range closed
  pending_closed last s p = finished s.ranges s.start s.last_speech p
    where
      finished :
          (ranges : List (ℕ × ℕ)) (start : Option ℕ) (l : ℕ)
          → Pending mask gap last ranges start l
          → Separated gap 0 last (close_range (scan_of ranges start l))
            × Ends mask (close_range (scan_of ranges start l))
      finished ranges none l q = (rw q tt, rw q tt)
      finished ranges (some st) l q = (q.2, q.3)

  -- The ranges lie within the mask, in order and nonempty, with at least the minimum gap between
  -- neighbours; each begins and ends on a speech frame; and every speech frame of the mask lies
  -- in one of them.
  pub segments_lem :
      Separated gap 0 (length mask) (segments mask gap)
      × Ends mask (segments mask gap)
      × ((k : ℕ) → get_elem? mask k ≡ some false → InRanges k (segments mask gap))
  unfolding segments
  segments_lem =
      let (pending, covered, held) =
        scan_mask-Scanned 0 (length mask) mask (scan_of [] none 0) (omega arith)
          (λ k. ap (get_elem? mask) (sym (zero-add k))) refl in
      let (separated, ends) =
        pending_closed (length mask) (scan_mask gap 0 mask (scan_of [] none 0)) pending in
      (separated, ends, λ k h. rw zero-add at (covered k h))
