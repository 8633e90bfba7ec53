-- ===== src/Stream/Patches.antt =====
-- The words of two lines compared as `emit` compares them, and the client that applies events.
use gigaam_v3_runtime.Base.{
  ℕ, zero, suc, ◌≤◌, ◌<◌, ◌≡◌, refl, sym, ap, ◌∙◌, subst, true, List, [], ◌∷◌, ◌++◌, arith,
  if◌then◌else◌, take, drop, length, All, Bool-cases, inl, inr,
}
use gigaam_v3_runtime.Base.Arithmetic.{FloatArithmetic}
use gigaam_v3_runtime.Transcript.{
  Text, StreamWord, StreamEvent, words_event, stable_event, final_event, same_text,
}
use gigaam_v3_runtime.Stream.Line.{close_to, same, first_difference, set_stable, mark_first}

same_text_refl : (t : Text) → same_text t t ≡ true
unfolding same_text
same_text_refl [] = refl
same_text_refl (c ∷ cs) = grind (arith, same_text_refl cs)

-- A client's line after an event.
abbrev pub receive : {V : Type 0} → StreamEvent V → List (StreamWord V) → List (StreamWord V)
receive (words_event at from ws) line = take from line ++ ws
receive (stable_event at n) line = mark_first n line
receive (final_event at n reason) line = mark_first n line

abbrev pub replay : {V : Type 0} → List (StreamEvent V) → List (StreamWord V) → List (StreamWord V)
replay [] line = line
replay (event ∷ events) line = replay events (receive event line)

-- The final frontier after the events.
abbrev pub frontier : {V : Type 0} → ℕ → List (StreamEvent V) → ℕ
frontier n [] = n
frontier n (words_event at from ws ∷ events) = frontier n events
frontier n (stable_event at m ∷ events) = frontier n events
frontier n (final_event at m reason ∷ events) = frontier m events

-- No patch reaches behind the final frontier, which only advances.
abbrev pub Respects : {V : Type 0} → ℕ → List (StreamEvent V) → Type 0
Respects n [] = Unit
Respects n (words_event at from ws ∷ events) = (n ≤ from) × Respects n events
Respects n (stable_event at m ∷ events) = Respects n events
Respects n (final_event at m reason ∷ events) = (n < m) × Respects m events

-- The events turn the line and the frontier of the client into those of the session.
abbrev pub Sound :
    {V : Type 0} → List (StreamWord V) → ℕ → List (StreamEvent V) → List (StreamWord V) → ℕ → Type 0
Sound line n events line' n' =
    (replay events line ≡ line') × (Respects n events × (frontier n events ≡ n'))

replay-append :
    {V : Type 0} (xs ys : List (StreamEvent V)) (line : List (StreamWord V))
    → replay (xs ++ ys) line ≡ replay ys (replay xs line)
replay-append [] ys line = refl
replay-append (x ∷ xs) ys line = replay-append xs ys (receive x line)

frontier-append :
    {V : Type 0} (xs ys : List (StreamEvent V)) (n : ℕ)
    → frontier n (xs ++ ys) ≡ frontier (frontier n xs) ys
frontier-append [] ys n = refl
frontier-append (words_event at from ws ∷ xs) ys n = frontier-append xs ys n
frontier-append (stable_event at m ∷ xs) ys n = frontier-append xs ys n
frontier-append (final_event at m reason ∷ xs) ys n = frontier-append xs ys m

Respects-append :
    {V : Type 0} (xs ys : List (StreamEvent V)) (n : ℕ)
    → Respects n xs
    → Respects (frontier n xs) ys
    → Respects n (xs ++ ys)
Respects-append [] ys n h k = k
Respects-append (words_event at from ws ∷ xs) ys n h k = (h.0, Respects-append xs ys n h.1 k)
Respects-append (stable_event at m ∷ xs) ys n h k = Respects-append xs ys n h k
Respects-append (final_event at m reason ∷ xs) ys n h k = (h.0, Respects-append xs ys m h.1 k)

pub Sound-append :
    {V : Type 0} (line : List (StreamWord V)) (n : ℕ) (xs ys : List (StreamEvent V))
    {line' line'' : List (StreamWord V)} {n' n'' : ℕ}
    → Sound line n xs line' n'
    → Sound line' n' ys line'' n''
    → Sound line n (xs ++ ys) line'' n''
Sound-append line n xs ys (made, (respected, reached)) (made', (respected', reached')) = (
  replay-append xs ys line ∙ (ap (replay ys) made ∙ made'),
  (
    Respects-append xs ys n respected (subst (λ m. Respects m ys) (sym reached) respected'),
    frontier-append xs ys n ∙ (ap (λ m. frontier m ys) reached ∙ reached'),
  ),
)

module _ (a : FloatArithmetic) where
  open a.order use {Value, is_finite}

  -- The first n words of two lines are the same.
  abbrev pub Agree : ℕ → List (StreamWord Value) → List (StreamWord Value) → Type 0
  Agree zero xs ys = Unit
  Agree (suc n) (x ∷ xs) (y ∷ ys) = (same a x y ≡ true) × Agree n xs ys
  Agree (suc n) _ _ = ⊥

  abbrev pub Finite : StreamWord Value → Type 0
  Finite w = (is_finite w.word.start ≡ true) × (is_finite w.word.end ≡ true)

  close_refl : (v : Value) → is_finite v ≡ true → close_to a v v ≡ true
  unfolding close_to
  close_refl v h =
      ap (λ d. a.order.le (a.abs d) (a.hundredths 10)) (a.sub_self v h)
      ∙ (ap (λ d. a.order.le d (a.hundredths 10)) a.abs_zero ∙ a.hundredths_nonnegative 10)

  same_refl : (w : StreamWord Value) → Finite w → same a w w ≡ true
  unfolding same
  same_refl w (h, k) =
      rw (same_text_refl w.word.text, close_refl w.word.start h, close_refl w.word.end k) refl

  Agree-refl : (ws : List (StreamWord Value)) → All Finite ws → Agree (length ws) ws ws
  Agree-refl [] h = tt
  Agree-refl (w ∷ ws) h = (same_refl w h.0, Agree-refl ws h.1)

  pub Agree-le_first_difference :
      (n : ℕ) (xs ys : List (StreamWord Value)) → Agree n xs ys → n ≤ first_difference a xs ys
  unfolding first_difference
  Agree-le_first_difference zero xs ys h = omega arith
  Agree-le_first_difference (suc n) [] ys h = elim h [ ]
  Agree-le_first_difference (suc n) (x ∷ xs) [] h = elim h [ ]
  Agree-le_first_difference (suc n) (x ∷ xs) (y ∷ ys) (h, k) =
      grind (arith, Agree-le_first_difference n xs ys k)

  pub Agree-first_difference :
      (xs ys : List (StreamWord Value)) → Agree (first_difference a xs ys) xs ys
  unfolding first_difference
  Agree-first_difference [] ys = tt
  Agree-first_difference (x ∷ xs) [] = tt
  Agree-first_difference (x ∷ xs) (y ∷ ys) = elim (Bool-cases (same a x y)) [
    | inl h ↦
        subst (λ b. Agree (if b then suc (first_difference a xs ys) else 0) (x ∷ xs) (y ∷ ys))
          (sym h) (h, Agree-first_difference xs ys)
    | inr h ↦
        subst (λ b. Agree (if b then suc (first_difference a xs ys) else 0) (x ∷ xs) (y ∷ ys))
          (sym h) tt
  ]

  -- The line that a patch at r leaves.
  pub Agree-patched :
      (r : ℕ) (xs ys : List (StreamWord Value))
      → Agree r xs ys
      → All Finite ys
      → Agree (length ys) (take r xs ++ drop r ys) ys
  Agree-patched zero xs ys h f = Agree-refl ys f
  Agree-patched (suc r) [] ys h f = elim h [ ]
  Agree-patched (suc r) (x ∷ xs) [] h f = elim h [ ]
  Agree-patched (suc r) (x ∷ xs) (y ∷ ys) h f = (h.0, Agree-patched r xs ys h.1 f.1)

  pub length-patched :
      (r : ℕ) (xs ys : List (StreamWord Value))
      → Agree r xs ys
      → length (take r xs ++ drop r ys) ≡ length ys
  length-patched zero xs ys h = refl
  length-patched (suc r) [] ys h = elim h [ ]
  length-patched (suc r) (x ∷ xs) [] h = elim h [ ]
  length-patched (suc r) (x ∷ xs) (y ∷ ys) h = ap suc (length-patched r xs ys h.1)

  pub Agree-mark_first :
      (m n : ℕ) (xs ys : List (StreamWord Value)) → Agree n xs ys → Agree n (mark_first m xs) ys
  unfolding mark_first set_stable same
  Agree-mark_first zero n xs ys h = h
  Agree-mark_first (suc m) zero xs ys h = tt
  Agree-mark_first (suc m) (suc n) [] ys h = elim h [ ]
  Agree-mark_first (suc m) (suc n) (x ∷ xs) [] h = elim h [ ]
  Agree-mark_first (suc m) (suc n) (x ∷ xs) (y ∷ ys) h = (h.0, Agree-mark_first m n xs ys h.1)

  pub Agree-append :
      (n : ℕ) (xs ys zs : List (StreamWord Value)) → Agree n xs ys → Agree n xs (ys ++ zs)
  Agree-append zero xs ys zs h = tt
  Agree-append (suc n) [] ys zs h = elim h [ ]
  Agree-append (suc n) (x ∷ xs) [] zs h = elim h [ ]
  Agree-append (suc n) (x ∷ xs) (y ∷ ys) zs h = (h.0, Agree-append n xs ys zs h.1)

  -- Two lines that agree on the whole of `ys ++ zs` agree on `ys`.
  pub Agree-prefix :
      (xs ys zs : List (StreamWord Value))
      → Agree (length (ys ++ zs)) xs (ys ++ zs)
      → Agree (length ys) xs ys
  Agree-prefix xs [] zs h = tt
  Agree-prefix [] (y ∷ ys) zs h = elim h [ ]
  Agree-prefix (x ∷ xs) (y ∷ ys) zs h = (h.0, Agree-prefix xs ys zs h.1)

pub length-mark_first :
    {V : Type 0} (n : ℕ) (ws : List (StreamWord V)) → length (mark_first n ws) ≡ length ws
unfolding mark_first
length-mark_first zero ws = refl
length-mark_first (suc n) [] = refl
length-mark_first (suc n) (w ∷ ws) = ap suc (length-mark_first n ws)
