-- ===== src/Channels/Pairwise.antt =====
-- Pairwise deduplication: what is retained, and why each other channel is not.
use gigaam_v3_runtime.Base.{
  ℕ, zero, suc, ◌+◌, ◌<◌, ◌≤◌, ◌≡◌, refl, subst, ◌⊎◌, inl, inr, true, false, some, List, [], ◌∷◌,
  ◌++◌, arith, leb, ◌==◌, Bool-cases, ok, All, length,
}
use gigaam_v3_runtime.Base.Floats.{FloatOrder}
use gigaam_v3_runtime.Channels.{
  repeats, retain_from, select_pairwise_by, select_pairwise_channels, new_source_count,
}
use gigaam_v3_runtime.Channels.Selection.{Ascending, IsSelection, new_selection-IsSelection}

abbrev pub IsIn : ℕ → List ℕ → Type 0
IsIn k [] = ⊥
IsIn k (x ∷ xs) = (k ≡ x) ⊎ IsIn k xs

IsIn-append : (k : ℕ) (xs ys : List ℕ) → IsIn k xs → IsIn k (xs ++ ys)
IsIn-append k [] ys h = absurd h
IsIn-append k (x ∷ xs) ys (inl e) = inl e
IsIn-append k (x ∷ xs) ys (inr h) = inr (IsIn-append k xs ys h)

IsIn-last : (k : ℕ) (xs : List ℕ) → IsIn k (xs ++ (k ∷ []))
IsIn-last k [] = inl refl
IsIn-last k (x ∷ xs) = inr (IsIn-last k xs)

Ascending-push :
    (low index : ℕ) (xs : List ℕ)
    → low ≤ index
    → Ascending low index xs
    → Ascending low (suc index) (xs ++ (index ∷ []))
Ascending-push low index [] l h = (l, omega arith, tt)
Ascending-push low index (x ∷ xs) l h =
    (h.0, omega arith, Ascending-push (suc x) index xs (omega arith) h.2)

Ascending-high :
    (low index : ℕ) (xs : List ℕ) → Ascending low index xs → Ascending low (suc index) xs
Ascending-high low index [] h = tt
Ascending-high low index (x ∷ xs) h = (h.0, omega arith, Ascending-high (suc x) index xs h.2)

module _ (f : FloatOrder) (c : ℕ → ℕ → f.Value) (threshold : f.Value) where
  -- The candidate exceeds the threshold with some channel of the list.
  abbrev pub Repeats : ℕ → List ℕ → Type 0
  Repeats k [] = ⊥
  Repeats k (x ∷ xs) = (f.lt threshold (c k x) ≡ true) ⊎ Repeats k xs

  -- The candidate exceeds the threshold with no channel of the list.
  abbrev pub IsClear : ℕ → List ℕ → Type 0
  IsClear k xs = All (λ x. f.lt threshold (c k x) ≡ false) xs

  -- No channel of the list repeats an earlier one.
  abbrev pub Independent : List ℕ → Type 0
  Independent [] = Unit {0}
  Independent (x ∷ xs) = All (λ k. f.lt threshold (c k x) ≡ false) xs × Independent xs

  repeats_cases :
      (k : ℕ) (xs : List ℕ)
      → ((repeats f (λ a b. ok (c a b)) threshold k xs ≡ ok true) × Repeats k xs)
        ⊎ ((repeats f (λ a b. ok (c a b)) threshold k xs ≡ ok false) × IsClear k xs)
  unfolding repeats
  repeats_cases k [] = inr (refl, tt)
  repeats_cases k (x ∷ xs) = elim (Bool-cases (f.lt threshold (c k x))) [
    | inl e ↦ inl (rw e refl, inl e)
    | inr e ↦ elim (repeats_cases k xs) [
      | inl (d, r) ↦ inl (rw e d, inr r)
      | inr (d, r) ↦ inr (rw e d, (e, r))
    ]
  ]

  Repeats-append : (k : ℕ) (xs ys : List ℕ) → Repeats k xs → Repeats k (xs ++ ys)
  Repeats-append k [] ys h = absurd h
  Repeats-append k (x ∷ xs) ys (inl e) = inl e
  Repeats-append k (x ∷ xs) ys (inr h) = inr (Repeats-append k xs ys h)

  All-push :
      (x : ℕ) (xs : List ℕ) (k : ℕ)
      → All (λ j. f.lt threshold (c j x) ≡ false) xs
      → f.lt threshold (c k x) ≡ false
      → All (λ j. f.lt threshold (c j x) ≡ false) (xs ++ (k ∷ []))
  All-push x [] k h e = (e, tt)
  All-push x (y ∷ ys) k h e = (h.0, All-push x ys k h.1 e)

  Independent-push :
      (k : ℕ) (xs : List ℕ) → Independent xs → IsClear k xs → Independent (xs ++ (k ∷ []))
  Independent-push k [] i h = (tt, tt)
  Independent-push k (x ∷ xs) i h = (All-push x xs k i.0 h.0, Independent-push k xs i.1 h.1)

  -- Every channel below `bound` is retained or repeats a retained one.
  abbrev pub Accounted : ℕ → List ℕ → Type 0
  Accounted bound xs = (k : ℕ) → k < bound → IsIn k xs ⊎ Repeats k xs

  abbrev Deduplicated : ℕ → List ℕ → Type 0
  Deduplicated bound xs = Ascending 0 bound xs × Independent xs × Accounted bound xs

  lt-suc-cases : (k n : ℕ) → k < suc n → (k < n) ⊎ (k ≡ n)
  lt-suc-cases k n h = omega arith

  Deduplicated-keep :
      (index : ℕ) (xs : List ℕ)
      → Deduplicated index xs
      → IsClear index xs
      → Deduplicated (suc index) (xs ++ (index ∷ []))
  Deduplicated-keep index xs (ascending, independent, accounted) clear = (
    Ascending-push 0 index xs (omega arith) ascending,
    Independent-push index xs independent clear,
    all,
  )
    where
      all : Accounted (suc index) (xs ++ (index ∷ []))
      all k h = elim (lt-suc-cases k index h) [
        | inl below ↦ elim (accounted k below) [
          | inl i ↦ inl (IsIn-append k xs (index ∷ []) i)
          | inr r ↦ inr (Repeats-append k xs (index ∷ []) r)
        ]
        | inr e ↦ inl (rw e (IsIn-last index xs))
      ]

  Deduplicated-drop :
      (index : ℕ) (xs : List ℕ)
      → Deduplicated index xs
      → Repeats index xs
      → Deduplicated (suc index) xs
  Deduplicated-drop index xs (ascending, independent, accounted) repeated =
      (Ascending-high 0 index xs ascending, independent, all)
    where
      all : Accounted (suc index) xs
      all k h = elim (lt-suc-cases k index h) [
        | inl below ↦ accounted k below
        | inr e ↦ inr (rw e repeated)
      ]

  retain_from-Deduplicated :
      (left index source : ℕ) (xs : List ℕ)
      → index + left ≡ source
      → Deduplicated index xs
      → (out : List ℕ) × (retain_from f (λ a b. ok (c a b)) threshold left index source xs ≡ ok out)
        × Deduplicated source out
  unfolding retain_from
  retain_from-Deduplicated zero index source xs e d =
      let same : index ≡ source = omega arith in (xs, refl, subst (λ n. Deduplicated n xs) same d)
  retain_from-Deduplicated (suc left) index source xs e d =
      let inside : leb source index ≡ false = ground arith in
      elim (repeats_cases index xs) [
        | inl (found, r) ↦
            let (out, made, d') =
              retain_from-Deduplicated left (suc index) source xs (omega arith)
                (Deduplicated-drop index xs d r) in
            (out, rw (inside, found) made, d')
        | inr (found, r) ↦
            let (out, made, d') =
              retain_from-Deduplicated left (suc index) source (xs ++ (index ∷ [])) (omega arith)
                (Deduplicated-keep index xs d r) in
            (out, rw (inside, found) made, d')
      ]

  nonempty : (source : ℕ) (xs : List ℕ) → 0 < source → Accounted source xs → 0 < length xs
  nonempty source [] h a = absurd (elim (a 0 h) [ inl i ↦ i | inr r ↦ r ])
  nonempty source (x ∷ xs) h a = omega arith

  -- Where the correlations can be computed, deduplication of one channel or more succeeds. What it
  -- retains is a selection; no retained channel correlates above the threshold with an earlier
  -- retained one, and every other source channel does with some retained one.
  pub select_pairwise_channels_lem :
      (channels : ℕ)
      → 0 < channels
      → (out : List ℕ) × (select_pairwise_channels f
            (λ a b. ok (c a b))
            channels
            false
            (some threshold)
          ≡ ok out)
        × IsSelection channels out
        × Independent out
        × Accounted channels out
  unfolding select_pairwise_channels select_pairwise_by new_source_count
  select_pairwise_channels_lem channels h =
      let (out, made, deduplicated) =
        retain_from-Deduplicated channels 0 channels [] (omega arith)
          (tt, tt, λ k b. absurd (omega arith)) in
      let (ascending, independent, accounted) = deduplicated in
      let nonzero : (channels == 0) ≡ false = ground arith in
      let selection : IsSelection channels out = (nonempty channels out h accounted, ascending) in
      (
        out,
        rw (nonzero, made) (new_selection-IsSelection channels out selection),
        selection,
        independent,
        accounted,
      )
