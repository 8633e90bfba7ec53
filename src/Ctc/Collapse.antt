-- ===== src/Ctc/Collapse.antt =====
-- The CTC collapse of a line of labels, as a description apart from the decoding loop.
use native.Mathlib.Nat.{zero-add, add-zero}
use gigaam_v3_runtime.Base.{
  ℕ, zero, suc, ◌+◌, ◌≤◌, ◌≡◌, ◌≢◌, ◌↔◌, refl, ap, subst, ◌∙◌, ◌⊎◌, inl, inr, Bool, true, not, ◌&&◌,
  some, List, [], ◌∷◌, arith, if◌then◌else◌, ◌==◌, Bool-cases, get_elem?,
}

-- Blanks and repeats of the label before are dropped; what is left carries its frame.
unfoldable pub collapse : ℕ → ℕ → ℕ → List ℕ → List (ℕ × ℕ)
collapse blank previous frame [] = []
collapse blank previous frame (label ∷ rest) =
    if not (label == blank) && not (label == previous)
    then (label, frame) ∷ collapse blank label (suc frame) rest
    else collapse blank label (suc frame) rest

abbrev pub Occurs : ℕ × ℕ → List (ℕ × ℕ) → Type 0
Occurs t [] = ⊥
Occurs t (u ∷ us) = (t ≡ u) ⊎ Occurs t us

-- The label of frame `k` starts a run of itself: it is no blank and differs from the label before,
-- where `previous` stands before the first.
abbrev pub Begins : ℕ → ℕ → List ℕ → ℕ → ℕ → Type 0
Begins blank previous labels k id =
    (get_elem? labels k ≡ some id) × (id ≢ blank) × (get_elem? (previous ∷ labels) k ≢ some id)

abbrev keeps : ℕ → ℕ → ℕ → Bool
keeps blank previous label = not (label == blank) && not (label == previous)

keeps-true :
    (label blank previous : ℕ)
    → keeps blank previous label ≡ true
    → (label ≢ blank) × (previous ≢ label)
keeps-true label blank previous h = (ground arith, ground arith)

true-keeps :
    (label blank previous : ℕ)
    → label ≢ blank
    → previous ≢ label
    → keeps blank previous label ≡ true
true-keeps label blank previous h k = ground arith

abbrev BeginsFrom : ℕ → ℕ → ℕ → List ℕ → ℕ × ℕ → Type 0
BeginsFrom blank previous frame labels (id, k) =
    (j : ℕ) × (k ≡ frame + j) × Begins blank previous labels j id

later_run :
    (blank previous frame label id k : ℕ) (rest : List ℕ)
    → BeginsFrom blank label (suc frame) rest (id, k)
    → BeginsFrom blank previous frame (label ∷ rest) (id, k)
later_run blank previous frame label id k rest (j, e, b) = (suc j, omega arith, b)

first_run :
    (blank previous frame label id k : ℕ) (rest : List ℕ)
    → keeps blank previous label ≡ true
    → ◌≡◌ {A = ℕ × ℕ} (id, k) (label, frame)
    → BeginsFrom blank previous frame (label ∷ rest) (id, k)
first_run blank previous frame label id k rest kept e =
    let same : id ≡ label = ground arith in
    let at : k ≡ frame = ground arith in
    let (solid, fresh) = keeps-true label blank previous kept in
    (0, omega arith, (rw same refl, rw same solid, λ h. fresh (ground arith)))

-- A token that the collapse emits stands at the beginning of a run.
collapse-Begins :
    (blank previous frame : ℕ) (labels : List ℕ) (id k : ℕ)
    → Occurs (id, k) (collapse blank previous frame labels)
    → BeginsFrom blank previous frame labels (id, k)
unfolding collapse
collapse-Begins blank previous frame [] id k o = absurd o
collapse-Begins blank previous frame (label ∷ rest) id k o =
    elim (Bool-cases (keeps blank previous label)) [
      | inl kept ↦ elim (pick kept o) [
        | inl e ↦ first_run blank previous frame label id k rest kept e
        | inr q ↦
            later_run blank previous frame label id k rest
              (collapse-Begins blank label (suc frame) rest id k q)
      ]
      | inr dropped ↦
          later_run blank previous frame label id k rest
            (collapse-Begins blank label (suc frame) rest id k (rw dropped at o))
    ]
  where
    pick :
        keeps blank previous label ≡ true
        → Occurs (id, k) (collapse blank previous frame (label ∷ rest))
        → (◌≡◌ {A = ℕ × ℕ} (id, k) (label, frame))
          ⊎ Occurs (id, k) (collapse blank label (suc frame) rest)
    pick kept q = rw kept at q

Begins-collapse :
    (blank previous frame : ℕ) (labels : List ℕ) (id j : ℕ)
    → Begins blank previous labels j id
    → Occurs (id, frame + j) (collapse blank previous frame labels)
unfolding collapse
Begins-collapse blank previous frame [] id j b = cc
Begins-collapse blank previous frame (label ∷ rest) id zero (at, solid, fresh) =
    let same : label ≡ id = ground arith in
    let kept : keeps blank previous label ≡ true =
      true-keeps label blank previous (rw same solid) (λ h. fresh (ap some (h ∙ same))) in
    rw kept (inl (rw (add-zero, same) refl))
Begins-collapse blank previous frame (label ∷ rest) id (suc j) b =
    let found : Occurs (id, suc frame + j) (collapse blank label (suc frame) rest) =
      Begins-collapse blank label (suc frame) rest id j b in
    let found' : Occurs (id, frame + suc j) (collapse blank label (suc frame) rest) =
      subst (λ n. Occurs (id, n) (collapse blank label (suc frame) rest)) (omega arith) found in
    elim (Bool-cases (keeps blank previous label)) [
      | inl kept ↦ rw kept (inr found')
      | inr dropped ↦ rw dropped found'
    ]

at_zero :
    (blank previous id k : ℕ) (labels : List ℕ)
    → BeginsFrom blank previous 0 labels (id, k)
    → Begins blank previous labels k id
at_zero blank previous id k labels (j, e, b) =
    let same : j ≡ k = omega arith in subst (λ n. Begins blank previous labels n id) same b

-- The collapse emits a token exactly where a run of a label that is no blank begins: with that
-- label, at the frame at which the run begins.
pub collapse_iff :
    (blank previous : ℕ) (labels : List ℕ) (id k : ℕ)
    → Occurs (id, k) (collapse blank previous 0 labels) ↔ Begins blank previous labels k id
collapse_iff blank previous labels id k = (
  λ o. at_zero blank previous id k labels (collapse-Begins blank previous 0 labels id k o),
  λ b. rw zero-add at (Begins-collapse blank previous 0 labels id k b),
)

-- Tokens come out with strictly ascending frames.
abbrev pub FramesFrom : ℕ → List (ℕ × ℕ) → Type 0
FramesFrom low [] = Unit {0}
FramesFrom low ((id, frame) ∷ rest) = (low ≤ frame) × FramesFrom (suc frame) rest

FramesFrom-low :
    (low low' : ℕ) (ts : List (ℕ × ℕ)) → low ≤ low' → FramesFrom low' ts → FramesFrom low ts
FramesFrom-low low low' [] h t = tt
FramesFrom-low low low' (u ∷ us) h t = (omega arith, t.1)

pub collapse-FramesFrom :
    (blank previous frame : ℕ) (labels : List ℕ)
    → FramesFrom frame (collapse blank previous frame labels)
unfolding collapse
collapse-FramesFrom blank previous frame [] = tt
collapse-FramesFrom blank previous frame (label ∷ rest) =
    elim (Bool-cases (keeps blank previous label)) [
      | inl kept ↦ rw kept (omega arith, collapse-FramesFrom blank label (suc frame) rest)
      | inr dropped ↦ rw dropped (
          FramesFrom-low frame (suc frame) (collapse blank label (suc frame) rest) (omega arith)
            (collapse-FramesFrom blank label (suc frame) rest))
    ]
