-- ===== src/Dialog/Ordering.antt =====
-- The order of a dialogue line.
use gigaam_v3_runtime.Base.{
  ℕ, ◌<◌, ◌≤◌, ◌≡◌, ◌⊎◌, refl, sym, subst, Bool, true, false, ◌&&◌, none, List, [], ◌∷◌, arith,
  if◌then◌else◌, ltb, ◌==◌, drop, length, Bool-cases, inl, inr, Result, ok, err,
}
use gigaam_v3_runtime.Base.Arithmetic.{FloatArithmetic}
use gigaam_v3_runtime.Transcript.{Unicode}
use gigaam_v3_runtime.Dialog.{
  DialogTurn, DialogMerger, ChannelSnapshot, MergeMode, BackchannelPolicy, disabled,
  mark_shorter_than, precedes, insert, sort, mark_turn, mark_each, mark_backchannels,
  first_difference, validate_channels, advance_frontiers, segment_all, new_patch, send_patch,
  update_line, sent, update_turns, update_validated, update_with, Updated, TurnsPatch, DialogError,
}
use gigaam_v3_runtime.Dialog.Patches.{advance_frontiers-last, if-both}

-- The comparison on its parts.
abbrev order : Bool → Bool → ℕ → ℕ → ℕ → ℕ → Bool
order p q c d i j =
    if p
    then true
    else if q
    then false
    else if ltb c d
    then true
    else if ltb d c
    then false
    else ltb i j

not_both : {A : Type 0} → true ≡ false → A
not_both h = cc

order_asym :
    (p q : Bool) (c d i j : ℕ)
    → (p ≡ true → q ≡ false)
    → order p q c d i j ≡ true
    → order q p d c j i ≡ false
order_asym true true c d i j h k = not_both (h refl)
order_asym true false c d i j h k = refl
order_asym false true c d i j h k = cc
order_asym false false c d i j h k = ground (arith, k)

order_false :
    (p q : Bool) (c d i j : ℕ)
    → order p q c d i j ≡ false
    → (q ≡ true) ⊎ ((p ≡ false) × ((d < c) ⊎ ((d ≡ c) × (j ≤ i))))
order_false true q c d i j h = not_both h
order_false false true c d i j h = inl refl
order_false false false c d i j h = inr (refl, ground arith)

module _ (u : Unicode) (a : FloatArithmetic) (total_lt : a.order.Value → a.order.Value → Bool)
    (asym : (v w : a.order.Value) → total_lt v w ≡ true → total_lt w v ≡ false) where
  open a.order use {Value}

  precedes_asym :
      (l r : DialogTurn Value)
      → precedes u a total_lt l r ≡ true
      → precedes u a total_lt r l ≡ false
  unfolding precedes
  precedes_asym l r h =
      order_asym (total_lt l.start r.start) (total_lt r.start l.start) l.channel r.channel l.index
        r.index (asym l.start r.start) h

  -- The first turn starts before the second; or it does not start after it, and is of a lower
  -- channel, or of the same channel with an index that is not higher.
  abbrev pub InOrder : DialogTurn Value → DialogTurn Value → Type 0
  InOrder x y =
      (total_lt x.start y.start ≡ true)
      ⊎ ((total_lt y.start x.start ≡ false)
          × ((x.channel < y.channel) ⊎ ((x.channel ≡ y.channel) × (x.index ≤ y.index))))

  precedes-InOrder : (x y : DialogTurn Value) → precedes u a total_lt y x ≡ false → InOrder x y
  unfolding precedes
  precedes-InOrder x y h =
      order_false (total_lt y.start x.start) (total_lt x.start y.start) y.channel x.channel y.index
        x.index h

  -- The first turn of a line is in order behind this one.
  abbrev pub Below : DialogTurn Value → List (DialogTurn Value) → Type 0
  Below x [] = Unit
  Below x (y ∷ ys) = InOrder x y

  -- Each turn is in order with the one behind it, by start, then channel, then index.
  abbrev pub Ordered : List (DialogTurn Value) → Type 0
  Ordered [] = Unit
  Ordered (x ∷ xs) = Below x xs × Ordered xs

  insert-Below :
      (x t : DialogTurn Value) (xs : List (DialogTurn Value))
      → InOrder x t
      → Below x xs
      → Below x (insert u a total_lt t xs)
  unfolding insert
  insert-Below x t [] h below = h
  insert-Below x t (y ∷ ys) h below = if-both (Below x) (precedes u a total_lt y t) _ _ below h

  insert-Ordered :
      (t : DialogTurn Value) (xs : List (DialogTurn Value))
      → Ordered xs
      → Ordered (insert u a total_lt t xs)
  unfolding insert
  insert-Ordered t [] h = (tt, tt)
  insert-Ordered t (x ∷ xs) (below, ordered) = elim (Bool-cases (precedes u a total_lt x t)) [
    | inl e ↦
        subst (λ b. Ordered (if b then x ∷ insert u a total_lt t xs else t ∷ x ∷ xs)) (sym e)
          (
            insert-Below x t xs (precedes-InOrder x t (precedes_asym x t e)) below,
            insert-Ordered t xs ordered,
          )
    | inr e ↦
        subst (λ b. Ordered (if b then x ∷ insert u a total_lt t xs else t ∷ x ∷ xs)) (sym e)
          (precedes-InOrder t x e, (below, ordered))
  ]

  sort-Ordered : (ts : List (DialogTurn Value)) → Ordered (sort u a total_lt ts)
  unfolding sort
  sort-Ordered [] = tt
  sort-Ordered (t ∷ ts) = insert-Ordered t (sort u a total_lt ts) (sort-Ordered ts)

  mark_each-Ordered :
      (maximum : Value) (dialogue ts : List (DialogTurn Value))
      → Ordered ts
      → Ordered (mark_each u a total_lt maximum dialogue ts)
  unfolding mark_each mark_turn precedes
  mark_each-Ordered maximum dialogue [] h = tt
  mark_each-Ordered maximum dialogue (t ∷ []) h = (tt, tt)
  mark_each-Ordered maximum dialogue (t ∷ s ∷ ts) (below, h) =
      (below, mark_each-Ordered maximum dialogue (s ∷ ts) h)

  mark_backchannels-Ordered :
      (policy : BackchannelPolicy Value) (dialogue : List (DialogTurn Value))
      → Ordered dialogue
      → Ordered (mark_backchannels u a total_lt policy dialogue)
  unfolding mark_backchannels
  mark_backchannels-Ordered disabled dialogue h = h
  mark_backchannels-Ordered (mark_shorter_than maximum) dialogue h =
      mark_each-Ordered maximum dialogue dialogue h

  sent-Ordered :
      (m : DialogMerger Value) (dialogue : List (DialogTurn Value))
      (patch : Result DialogError (TurnsPatch Value))
      → Ordered m.last
      → Ordered dialogue
      → Ordered (sent u a total_lt m dialogue patch).0.last
  unfolding sent
  sent-Ordered m dialogue (ok patch) before after = after
  sent-Ordered m dialogue (err e) before after = before

  update_line-Ordered :
      (m : DialogMerger Value) (dialogue : List (DialogTurn Value))
      → Ordered m.last
      → Ordered dialogue
      → Ordered (update_line u a total_lt m dialogue).0.last
  unfolding update_line send_patch
  update_line-Ordered m dialogue before after =
      let from = first_difference u a total_lt m.last dialogue in
      let patch = new_patch u a total_lt from (drop from dialogue) m.final_frontier in
      if-both (λ (r : Updated u a total_lt). Ordered r.0.last)
        (from == length dialogue && length dialogue == length m.last) (m, ok none)
        (sent u a total_lt m dialogue patch) before (sent-Ordered m dialogue patch before after)

  update_turns-Ordered :
      (m : DialogMerger Value) (turns : Result DialogError (List (DialogTurn Value)))
      → Ordered m.last
      → Ordered (update_turns u a total_lt m turns).0.last
  unfolding update_turns
  update_turns-Ordered m (ok turns) before =
      update_line-Ordered m
        (mark_backchannels u a total_lt m.backchannel_policy (sort u a total_lt turns)) before
        (mark_backchannels-Ordered m.backchannel_policy (sort u a total_lt turns)
          (sort-Ordered turns))
  update_turns-Ordered m (err e) before = before

  update_validated-Ordered :
      (channels : List (ChannelSnapshot Value)) (mode : MergeMode) (m : DialogMerger Value)
      (valid : Result DialogError (Unit {0}))
      → Ordered m.last
      → Ordered (update_validated u a total_lt channels mode m valid).0.last
  unfolding update_validated
  update_validated-Ordered channels mode m (ok tt) before =
      let advanced = advance_frontiers u a total_lt channels mode m in
      update_turns-Ordered advanced
        (segment_all u a total_lt channels advanced.turn_gap advanced.final_frontier
          advanced.stable_frontier)
        (subst Ordered (sym (advance_frontiers-last u a total_lt channels mode m)) before)
  update_validated-Ordered channels mode m (err e) before = before

  -- With a comparison of times that holds at most one way round: an update of either mode, which
  -- succeeds or fails, on a merger whose line is in order leaves its line in order: each turn starts
  -- before the one behind it, or does not start after it and has a lower channel, or the same
  -- channel and an index that is not higher.
  pub update_with-Ordered :
      (channels : List (ChannelSnapshot Value)) (mode : MergeMode) (m : DialogMerger Value)
      → Ordered m.last
      → Ordered (update_with u a total_lt channels mode m).0.last
  unfolding update_with
  update_with-Ordered channels mode m ordered =
      update_validated-Ordered channels mode m (validate_channels u a total_lt channels) ordered
