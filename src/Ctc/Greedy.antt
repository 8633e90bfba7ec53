-- ===== src/Ctc/Greedy.antt =====
-- Greedy decoding is an arg-max of each row followed by the collapse.
use gigaam_v3_runtime.Base.{
  get_elem?-append_last, get_elem?-append_left, take-append_left, take-length_append, All-drop,
  All-take, ℕ, zero, suc, ◌+◌, ◌*◌, ◌<◌, ◌≤◌, ◌≡◌, refl, sym, ap, subst, ◌∙◌, inl, inr, true, false,
  not, ◌&&◌, Option, none, some, List, [], ◌∷◌, ◌++◌, map, arith, ◌==◌, Bool-cases, get_elem?,
  length, length-append, length-take, length-drop, take, drop, All, All-append, All-mono, Result,
  ok,
}
use mathlib.Core.List.{append_assoc, append-nil}
use gigaam_v3_runtime.Base.Words.{usize_max, checked_mul}
use gigaam_v3_runtime.Base.Floats.{FloatOrder}
use gigaam_v3_runtime.Ctc.{
  CtcError, Token, is_silent, Progress, argmax_from, argmax, validate_greedy_input, check_finite,
  push_token, new_token, decode_row, decode_rows, greedy_masked_with_detail, greedy_masked,
}
use gigaam_v3_runtime.Ctc.Collapse.{collapse}

-- The token of a collapsed label, without a score.
abbrev pub plain_token : {V : Type 0} → ℕ × ℕ → Token V
plain_token (id, frame) = record { id = id; frame = frame; log_probability = none }

module _ (f : FloatOrder) where
  open f use {Value, zero_value, is_finite, lt, le}

  abbrev IsFinite : Value → Type 0
  IsFinite v = is_finite v ≡ true

  -- The first index at which a row is greatest.
  abbrev pub IsArgmax : List Value → ℕ → Value → Type 0
  IsArgmax row best v =
      (get_elem? row best ≡ some v)
      × All (λ w. lt v w ≡ false) row
      × All (λ w. lt w v ≡ true) (take best row)

  -- What is not above the old maximum is below a value that is.
  below_new :
      (w v new : Value)
      → IsFinite w
      → IsFinite v
      → lt v new ≡ true
      → lt v w ≡ false
      → lt w new ≡ true
  below_new w v new fw fv above h =
      f.lt_of_le_of_lt w v new (f.le_of_finite w v fw fv ∙ ap not h) above

  not_above : (w v : Value) → lt w v ≡ true → lt v w ≡ false
  not_above w v h = ground (arith, f.lt_trans w v w, f.lt_irrefl w)

  All-finite-below :
      (seen : List Value) (v new : Value)
      → IsFinite v
      → lt v new ≡ true
      → All IsFinite seen
      → All (λ w. lt v w ≡ false) seen
      → All (λ w. lt w new ≡ true) seen
  All-finite-below [] v new fv above fin h = tt
  All-finite-below (w ∷ seen) v new fv above fin h =
      (below_new w v new fin.0 fv above h.0, All-finite-below seen v new fv above fin.1 h.1)

  IsArgmax-new :
      (seen : List Value) (best : ℕ) (v new : Value)
      → IsFinite v
      → All IsFinite seen
      → lt v new ≡ true
      → IsArgmax seen best v
      → IsArgmax (seen ++ (new ∷ [])) (length seen) new
  IsArgmax-new seen best v new fv fin above (at, top, first) =
      let below = All-finite-below seen v new fv above fin top in
      (
        get_elem?-append_last seen new,
        All-append (λ w. lt new w ≡ false) seen (new ∷ [])
            (All-mono (λ w. lt w new ≡ true) (λ w. lt new w ≡ false) seen (λ w. not_above w new)
              below)
            (f.lt_irrefl new, tt),
        rw (take-length_append seen (new ∷ [])) below,
      )

  IsArgmax-old :
      (seen : List Value) (best : ℕ) (v new : Value)
      → lt v new ≡ false
      → IsArgmax seen best v
      → IsArgmax (seen ++ (new ∷ [])) best v
  IsArgmax-old seen best v new under (at, top, first) = (
    get_elem?-append_left seen (new ∷ []) best at,
    All-append (λ w. lt v w ≡ false) seen (new ∷ []) top (under, tt),
    rw (take-append_left seen (new ∷ []) best at) first,
  )

  argmax_from-IsArgmax :
      (seen rest : List Value) (index best : ℕ) (v : Value)
      → length seen ≡ index
      → All IsFinite seen
      → IsFinite v
      → All IsFinite rest
      → IsArgmax seen best v
      → (w : Value) × IsArgmax (seen ++ rest) (argmax_from f index rest best v) w
  unfolding argmax_from
  argmax_from-IsArgmax seen [] index best v e fin fv fr a = (v, rw append-nil a)
  argmax_from-IsArgmax seen (new ∷ rest) index best v e fin fv fr a =
      let fin' = All-append IsFinite seen (new ∷ []) fin (fr.0, tt) in
      let e' : length (seen ++ (new ∷ [])) ≡ suc index =
        omega (arith, length-append seen (new ∷ [])) in
      elim (Bool-cases (lt v new)) [
        | inl above ↦
            let a' = IsArgmax-new seen best v new fv fin above a in
            let a'' = subst (λ n. IsArgmax (seen ++ (new ∷ [])) n new) e a' in
            let (w, found) =
              argmax_from-IsArgmax (seen ++ (new ∷ [])) rest (suc index) index new e' fin' fr.0 fr.1
                a'' in
            (w, rw above (rw append_assoc at found))
        | inr under ↦
            let a' = IsArgmax-old seen best v new under a in
            let (w, found) =
              argmax_from-IsArgmax (seen ++ (new ∷ [])) rest (suc index) best v e' fin' fv fr.1
                a' in
            (w, rw under (rw append_assoc at found))
      ]

  -- The label that a row decodes to, if it has an entry.
  abbrev pub IsLabel : List Value → ℕ → Type 0
  IsLabel row best = (v : Value) × IsArgmax row best v

  argmax-IsLabel :
      (row : List Value)
      → 0 < length row
      → All IsFinite row
      → (best : ℕ) × (argmax f row ≡ ok best) × IsLabel row best
  unfolding argmax argmax_from
  argmax-IsLabel [] h fin = absurd (omega arith)
  argmax-IsLabel (v ∷ rest) h fin =
      let own = f.lt_irrefl v in
      let (w, found) =
        argmax_from-IsArgmax (v ∷ []) rest 1 0 v refl (fin.0, tt) fin.0 fin.1
          (refl, (own, tt), tt) in
      (argmax_from f 1 rest 0 v, rw own refl, (w, found))

  check_finite_sound :
      (index : ℕ) (values : List Value) → check_finite f index values ≡ ok tt → All IsFinite values
  unfolding check_finite
  check_finite_sound index [] h = tt
  check_finite_sound index (v ∷ rest) h =
      (ground arith, check_finite_sound (suc index) rest (ground arith))

  -- What validated input is.
  abbrev IsMatrix : List Value → ℕ → ℕ → Type 0
  IsMatrix values frames vocabulary =
      (0 < vocabulary) × (length values ≡ frames * vocabulary) × All IsFinite values

  validate-IsMatrix :
      (values : List Value) (frames vocabulary blank : ℕ) (space : Option ℕ)
      → validate_greedy_input f values frames vocabulary blank space ≡ ok tt
      → IsMatrix values frames vocabulary
  unfolding validate_greedy_input checked_mul
  validate-IsMatrix values frames vocabulary blank none h =
      (ground arith, ground arith, check_finite_sound 0 values (ground arith))
  validate-IsMatrix values frames vocabulary blank (some s) h =
      (ground arith, ground arith, check_finite_sound 0 values (ground arith))

  -- The row of a frame in the flat matrix.
  abbrev pub row_of : ℕ → List Value → ℕ → List Value
  row_of vocabulary values frame = take vocabulary (drop (frame * vocabulary) values)

  -- Label by label, the rows from `frame` on decode to these labels.
  abbrev pub RowLabels : ℕ → List Value → ℕ → List ℕ → Type 0
  RowLabels vocabulary values frame [] = Unit {0}
  RowLabels vocabulary values frame (label ∷ rest) =
      IsLabel (row_of vocabulary values frame) label × RowLabels vocabulary values (suc frame) rest

  row_length :
      (vocabulary frame left : ℕ) (values : List Value)
      → (frame + suc left) * vocabulary ≤ length values
      → length (row_of vocabulary values frame) ≡ vocabulary
  row_length vocabulary frame left values h = omega (
    arith,
    length-take vocabulary (drop (frame * vocabulary) values),
    length-drop (frame * vocabulary) values,
  )

  module _ (scores : FloatOrder) (selected : List Value → ℕ → Result CtcError scores.Value)
      (blank : ℕ) (space : Option ℕ) where
    -- What the loop holds after the labels.
    abbrev extend : Progress scores.Value → ℕ → List ℕ → ℕ → Progress scores.Value
    extend p frame labels last = record {
      tokens = p.tokens ++ map plain_token (collapse blank p.previous frame labels);
      silence = p.silence ++ map (is_silent blank space) labels;
      labels = p.labels ++ labels;
      previous = last;
    }

    step_of : Progress scores.Value → ℕ → ℕ → Progress scores.Value
    step_of p frame best = record {
      tokens = p.tokens ++ map plain_token (collapse blank p.previous frame (best ∷ []));
      silence = p.silence ++ (is_silent blank space best ∷ []);
      labels = p.labels ++ (best ∷ []);
      previous = best;
    }

    decode_row_lem :
        (row : List Value) (frame best : ℕ) (p : Progress scores.Value)
        → argmax f row ≡ ok best
        → decode_row f scores selected false blank space row frame p ≡ ok (step_of p frame best)
    unfolding decode_row push_token new_token collapse step_of
    decode_row_lem row frame best p h =
        elim (Bool-cases (not (best == blank) && not (best == p.previous))) [
          | inl new ↦ rw (h, new) refl
          | inr old ↦ rw (h, old, append-nil) refl
        ]

    collapse_split :
        (previous frame best : ℕ) (labels : List ℕ)
        → map (plain_token {V = scores.Value}) (collapse blank previous frame (best ∷ []))
            ++ map (plain_token {V = scores.Value}) (collapse blank best (suc frame) labels)
          ≡ map (plain_token {V = scores.Value}) (collapse blank previous frame (best ∷ labels))
    unfolding collapse
    collapse_split previous frame best labels = ground arith

    extend-step_of :
        (p : Progress scores.Value) (frame best last : ℕ) (labels : List ℕ)
        → extend (step_of p frame best) (suc frame) labels last
          ≡ extend p frame (best ∷ labels) last
    unfolding step_of
    extend-step_of p frame best last labels =
        simp (append_assoc, collapse_split p.previous frame best labels)

    extend-nil : (p : Progress scores.Value) (frame : ℕ) → extend p frame [] p.previous ≡ p
    unfolding collapse
    extend-nil p frame = simp append-nil

    decode_rows_lem :
        (vocabulary : ℕ) (values : List Value) (left frame : ℕ) (p : Progress scores.Value)
        → 0 < vocabulary
        → All IsFinite values
        → (frame + left) * vocabulary ≤ length values
        → (labels : List ℕ) × (last : ℕ) × (decode_rows f scores selected false vocabulary blank
              space values left frame p
            ≡ ok (extend p frame labels last))
          × (length labels ≡ left)
          × RowLabels vocabulary values frame labels
    unfolding decode_rows
    decode_rows_lem vocabulary values zero frame p h fin fits =
        ([], p.previous, ap ok (sym (extend-nil p frame)), refl, tt)
    decode_rows_lem vocabulary values (suc left) frame p h fin fits =
        let row = row_of vocabulary values frame in
        let (best, chosen, label) =
          argmax-IsLabel row (omega (arith, row_length vocabulary frame left values fits)) (
            All-take IsFinite vocabulary (drop (frame * vocabulary) values)
              (All-drop IsFinite (frame * vocabulary) values fin)) in
        let (labels, last, decoded, count, rows) =
          decode_rows_lem vocabulary values left (suc frame) (step_of p frame best) h fin
            (omega arith) in
        (
          best ∷ labels,
          last,
          rw (decode_row_lem row frame best p chosen)
              (decoded ∙ ap ok (extend-step_of p frame best last labels)),
          omega arith,
          (label, rows),
        )

-- On input that passes validation, greedy decoding succeeds. It finds one label for each frame,
-- the first index at which the frame's row is greatest; its tokens are the collapse of that line
-- of labels, and its silence mask says of each label whether it is the blank or the space.
pub greedy_masked_lem :
    (f scores : FloatOrder) (selected : List f.Value → ℕ → Result CtcError scores.Value)
    (values : List f.Value) (frames vocabulary blank : ℕ) (space : Option ℕ)
    → validate_greedy_input f values frames vocabulary blank space ≡ ok tt
    → (labels : List ℕ) × (greedy_masked f scores selected values frames vocabulary blank space
        ≡ ok (
          map plain_token (collapse blank usize_max 0 labels),
          map (is_silent blank space) labels,
          labels,
        ))
      × (length labels ≡ frames)
      × RowLabels f vocabulary values 0 labels
unfolding greedy_masked greedy_masked_with_detail
greedy_masked_lem f scores selected values frames vocabulary blank space valid =
    let (positive, count, finite) =
      validate-IsMatrix f values frames vocabulary blank space valid in
    let (labels, last, decoded, total, rows) =
      decode_rows_lem f scores selected blank space vocabulary values frames 0
        (record { tokens = []; silence = []; labels = []; previous = usize_max }) positive finite
        (omega arith) in
    (labels, rw (valid, decoded) refl, total, rows)
