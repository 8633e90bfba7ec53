-- ===== src/Dialog/Patches.antt =====
-- The client of a dialogue: after every update it holds the turns of the merger, but for times.
use gigaam_v3_runtime.Base.{
  suc, ◌≡◌, refl, sym, ap, ◌∙◌, subst, Bool, true, false, ◌&&◌, Option, none, some, List, [], ◌∷◌,
  ◌++◌, if◌then◌else◌, ◌==◌, ==_iff, take, drop, length, Bool-cases, inl, inr, Result, ok, err,
}
use gigaam_v3_runtime.Base.Arithmetic.{FloatArithmetic}
use gigaam_v3_runtime.Transcript.{
  Text, Unicode, WordStability, WordFinality, revisable, stable, open_ended, final, same_text,
}
use gigaam_v3_runtime.Dialog.{
  DialogError, DialogTurn, TurnsPatch, DialogMerger, BackchannelMark, no_mark, yes_mark,
  ChannelSnapshot, MergeMode, same_stability, same_finality, same_mark, same_turn, first_difference,
  approximately_equal, validate_channels, advance_frontiers, segment_all, sort, mark_backchannels,
  new_patch, send_patch, update_line, sent, update_turns, update_validated, update_with, Updated,
}

both : (b c : Bool) → (b && c) ≡ true → (b ≡ true) × (c ≡ true)
both true c h = (refl, h)
both false c h = cc

pub if-both :
    {A : Type 0} (P : A → Type 0) (b : Bool) (x y : A) → P x → P y → P (if b then x else y)
if-both P true x y h k = h
if-both P false x y h k = k

same_text-eq : (x y : Text) → same_text x y ≡ true → x ≡ y
unfolding same_text
same_text-eq [] [] h = refl
same_text-eq [] (d ∷ ds) h = cc
same_text-eq (c ∷ cs) [] h = cc
same_text-eq (c ∷ cs) (d ∷ ds) h =
    let (first, rest) = both (c == d) (same_text cs ds) h in
    ap (λ e. e ∷ cs) ((==_iff c d).0 first) ∙ ap (◌∷◌ d) (same_text-eq cs ds rest)

same_stability-eq : (x y : WordStability) → same_stability x y ≡ true → x ≡ y
unfolding same_stability
same_stability-eq stable stable h = refl
same_stability-eq revisable revisable h = refl
same_stability-eq stable revisable h = cc
same_stability-eq revisable stable h = cc

same_finality-eq : (x y : WordFinality) → same_finality x y ≡ true → x ≡ y
unfolding same_finality
same_finality-eq final final h = refl
same_finality-eq open_ended open_ended h = refl
same_finality-eq final open_ended h = cc
same_finality-eq open_ended final h = cc

same_mark-eq : (x y : BackchannelMark) → same_mark x y ≡ true → x ≡ y
unfolding same_mark
same_mark-eq yes_mark yes_mark h = refl
same_mark-eq no_mark no_mark h = refl
same_mark-eq yes_mark no_mark h = cc
same_mark-eq no_mark yes_mark h = cc

-- The client's line after an update, which may have failed or returned no patch.
abbrev pub receive :
    {V : Type 0}
    → Result DialogError (Option (TurnsPatch V))
    → List (DialogTurn V)
    → List (DialogTurn V)
receive (err e) line = line
receive (ok none) line = line
receive (ok (some patch)) line = take patch.revise_from line ++ patch.turns

-- Turns that differ in nothing but their times.
abbrev pub Alike : {V : Type 0} → DialogTurn V → DialogTurn V → Type 0
Alike x y =
    (x.channel ≡ y.channel)
    × ((x.index ≡ y.index)
        × ((x.text ≡ y.text)
            × ((x.stability ≡ y.stability)
                × ((x.finality ≡ y.finality) × (x.backchannel ≡ y.backchannel)))))

abbrev pub AllAlike : {V : Type 0} → List (DialogTurn V) → List (DialogTurn V) → Type 0
AllAlike [] [] = Unit
AllAlike (x ∷ xs) (y ∷ ys) = Alike x y × AllAlike xs ys
AllAlike _ _ = ⊥

AllAlike-refl : {V : Type 0} (xs : List (DialogTurn V)) → AllAlike xs xs
AllAlike-refl [] = tt
AllAlike-refl (x ∷ xs) = ((refl, (refl, (refl, (refl, (refl, refl))))), AllAlike-refl xs)

Alike-trans : {V : Type 0} (x y z : DialogTurn V) → Alike x y → Alike y z → Alike x z
Alike-trans x y z (c, (i, (t, (s, (f, b))))) (c', (i', (t', (s', (f', b'))))) =
    (c ∙ c', (i ∙ i', (t ∙ t', (s ∙ s', (f ∙ f', b ∙ b')))))

module _ (u : Unicode) (a : FloatArithmetic) (total_lt : a.order.Value → a.order.Value → Bool) where
  open a.order use {Value}

  same_turn-Alike : (x y : DialogTurn Value) → same_turn u a total_lt x y ≡ true → Alike x y
  unfolding same_turn
  same_turn-Alike x y h =
      let (c, h1) = both (x.channel == y.channel) _ h in
      let (i, h2) = both (x.index == y.index) _ h1 in
      let (t, h3) = both (same_text x.text y.text) _ h2 in
      let (_, h4) = both (approximately_equal u a total_lt x.start y.start) _ h3 in
      let (_, h5) = both (approximately_equal u a total_lt x.end y.end) _ h4 in
      let (s, h6) = both (same_stability x.stability y.stability) _ h5 in
      let (f, b) =
        both (same_finality x.finality y.finality) (same_mark x.backchannel y.backchannel) h6 in
      (
        (==_iff x.channel y.channel).0 c,
        (
          (==_iff x.index y.index).0 i,
          (
            same_text-eq x.text y.text t,
            (
              same_stability-eq x.stability y.stability s,
              (
                same_finality-eq x.finality y.finality f,
                same_mark-eq x.backchannel y.backchannel b,
              ),
            ),
          ),
        ),
      )

  -- The line that a patch from the first difference leaves with a client.
  patched-AllAlike :
      (client last dialogue : List (DialogTurn Value))
      → AllAlike client last
      → let r = first_difference u a total_lt last dialogue in
        AllAlike (take r client ++ drop r dialogue) dialogue
  unfolding first_difference
  patched-AllAlike client [] dialogue h = AllAlike-refl dialogue
  patched-AllAlike client (x ∷ xs) [] h = tt
  patched-AllAlike [] (x ∷ xs) (y ∷ ys) h = elim h [ ]
  patched-AllAlike (k ∷ ks) (x ∷ xs) (y ∷ ys) h = elim (Bool-cases (same_turn u a total_lt x y)) [
    | inl e ↦
        subst
          (λ b.
            let r = if b then suc (first_difference u a total_lt xs ys) else 0 in
            AllAlike (take r (k ∷ ks) ++ drop r (y ∷ ys)) (y ∷ ys))
          (sym e) (Alike-trans k x y h.0 (same_turn-Alike x y e), patched-AllAlike ks xs ys h.1)
    | inr e ↦
        subst
          (λ b.
            let r = if b then suc (first_difference u a total_lt xs ys) else 0 in
            AllAlike (take r (k ∷ ks) ++ drop r (y ∷ ys)) (y ∷ ys))
          (sym e) (AllAlike-refl (y ∷ ys))
  ]

  abbrev Follows : List (DialogTurn Value) → Updated u a total_lt → Type 0
  Follows client r = AllAlike (receive r.1 client) r.0.last

  send_patch-Follows :
      (client : List (DialogTurn Value)) (m : DialogMerger Value)
      (dialogue : List (DialogTurn Value))
      → AllAlike client m.last
      → Follows client (send_patch u a total_lt m dialogue)
  unfolding send_patch sent new_patch
  send_patch-Follows client m dialogue alike =
      elim (Bool-cases (a.order.is_finite m.final_frontier)) [
        | inl e ↦ rw (e, new_patch) (patched-AllAlike client m.last dialogue alike)
        | inr e ↦ rw (e, new_patch) alike
      ]

  update_line-Follows :
      (client : List (DialogTurn Value)) (m : DialogMerger Value)
      (dialogue : List (DialogTurn Value))
      → AllAlike client m.last
      → Follows client (update_line u a total_lt m dialogue)
  unfolding update_line
  update_line-Follows client m dialogue alike =
      let from = first_difference u a total_lt m.last dialogue in
      if-both (Follows client) (from == length dialogue && length dialogue == length m.last)
        (m, ok none) (send_patch u a total_lt m dialogue) alike
        (send_patch-Follows client m dialogue alike)

  update_turns-Follows :
      (client : List (DialogTurn Value)) (m : DialogMerger Value)
      (turns : Result DialogError (List (DialogTurn Value)))
      → AllAlike client m.last
      → Follows client (update_turns u a total_lt m turns)
  unfolding update_turns
  update_turns-Follows client m (ok turns) alike =
      update_line-Follows client m
        (mark_backchannels u a total_lt m.backchannel_policy (sort u a total_lt turns)) alike
  update_turns-Follows client m (err e) alike = alike

  pub advance_frontiers-last :
      (channels : List (ChannelSnapshot Value)) (mode : MergeMode) (m : DialogMerger Value)
      → (advance_frontiers u a total_lt channels mode m).last ≡ m.last
  unfolding advance_frontiers
  advance_frontiers-last [] mode m = refl
  advance_frontiers-last (c ∷ cs) mode m = refl

  update_validated-Follows :
      (client : List (DialogTurn Value)) (channels : List (ChannelSnapshot Value))
      (mode : MergeMode) (m : DialogMerger Value) (valid : Result DialogError (Unit {0}))
      → AllAlike client m.last
      → Follows client (update_validated u a total_lt channels mode m valid)
  unfolding update_validated
  update_validated-Follows client channels mode m (ok tt) alike =
      let advanced = advance_frontiers u a total_lt channels mode m in
      update_turns-Follows client advanced
        (segment_all u a total_lt channels advanced.turn_gap advanced.final_frontier
          advanced.stable_frontier)
        (subst (AllAlike client) (sym (advance_frontiers-last channels mode m)) alike)
  update_validated-Follows client channels mode m (err e) alike = alike

  -- When a client holds the turns of the merger but for their times: after an update of either
  -- mode, which succeeds or fails, the client that applies the patch, if the update returned one,
  -- holds the turns that the merger then has, but for their times.
  pub update_with-AllAlike :
      (client : List (DialogTurn Value)) (channels : List (ChannelSnapshot Value))
      (mode : MergeMode) (m : DialogMerger Value)
      → AllAlike client m.last
      → let r = update_with u a total_lt channels mode m in AllAlike (receive r.1 client) r.0.last
  unfolding update_with
  update_with-AllAlike client channels mode m alike =
      update_validated-Follows client channels mode m (validate_channels u a total_lt channels)
        alike
