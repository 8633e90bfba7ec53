-- ===== src/Rnnt/Groups.antt =====
-- The tokens of a decoding come in groups, one for each frame.
use gigaam_v3_runtime.Base.{
  ℕ, zero, suc, ◌<◌, ◌≤◌, ◌≡◌, refl, sym, ap, ◌∙◌, subst, inl, inr, Bool, true, false, not, ◌||◌,
  Option, none, some, List, [], ◌∷◌, ◌++◌, append_assoc, append-nil, map, arith, ltb, ◌==◌,
  Bool-cases, length, is_empty, All, ok, refuse_if, map_err, >>=-eq-ok, ok-injective,
}
use gigaam_v3_runtime.Base.Floats.{FloatOrder}
use gigaam_v3_runtime.Ctc.{Token, new_scored}
use gigaam_v3_runtime.Rnnt.{
  RnntTransition, RnntFrameSource, RnntOutput, failed, Machine, Choice, validate_encoder_frame,
  choose, new_token, emit, decode_symbols, decode_frames, greedy_with_detail,
}

abbrev pub concat : {A : Type 0} → List (List A) → List A
concat [] = []
concat (xs ∷ xss) = xs ++ concat xss

not-not : (b : Bool) → not (not b) ≡ b
not-not true = refl
not-not false = refl

appends :
    {A : Type 0} {ys us : List A} (xs new rest : List A)
    → ys ≡ xs ++ new
    → us ≡ ys ++ rest
    → us ≡ xs ++ (new ++ rest)
appends xs new rest h k = k ∙ (ap (λ zs. zs ++ rest) h ∙ append_assoc xs new rest)

mask-grows :
    {emitted : Bool} {us : List Bool} (xs rest : List Bool) (b : Bool)
    → emitted ≡ not b
    → us ≡ (xs ++ (not emitted ∷ [])) ++ rest
    → us ≡ xs ++ (b ∷ rest)
mask-grows xs rest b h k =
    appends xs (b ∷ []) rest (ap (λ c. xs ++ (c ∷ [])) (ap not h ∙ not-not b)) k

module _ (f scores : FloatOrder) where
  open f use {Value, is_finite}

  -- A token of frame `index` that is not the blank or behind it.
  abbrev pub IsOf : ℕ → ℕ → Token scores.Value → Type 0
  IsOf blank index t = (t.id < blank) × (t.frame ≡ index)

  -- The groups of the frames from `index` on: at most `max_symbols` tokens of each, and every
  -- value of each frame is finite.
  abbrev pub AreGroups :
      RnntFrameSource Value → ℕ → ℕ → ℕ → List (List (Token scores.Value)) → Type 0
  AreGroups frames blank max_symbols index [] = Unit
  AreGroups frames blank max_symbols index (group ∷ groups) =
      (length group ≤ max_symbols)
      × All (IsOf blank index) group
      × All (λ v. is_finite v ≡ true) (frames.frame index)
      × AreGroups frames blank max_symbols (suc index) groups

  module _ (api : RnntTransition f.Value scores.Value) where
    validated-All :
        (index position : ℕ) (values : List Value)
        → validate_encoder_frame f scores api index position values ≡ ok tt
        → All (λ v. is_finite v ≡ true) values
    unfolding validate_encoder_frame
    validated-All index position [] h = tt
    validated-All index position (v ∷ values) h =
        let (u, passed, rest) = >>=-eq-ok (refuse_if (not (is_finite v)) _) _ h in
        (ground (arith, passed), validated-All index (suc position) values rest)

    new_token-IsOf :
        (blank id index : ℕ) (score : Option scores.Value) (token : Token scores.Value)
        → id < blank
        → new_token f scores api id index score ≡ ok token
        → IsOf blank index token
    unfolding new_token new_scored
    new_token-IsOf blank id index none token below h =
        let same : record { id = id; frame = index; log_probability = none } ≡ token =
          ground arith in
        subst (IsOf blank index) same (below, refl)
    new_token-IsOf blank id index (some score) token below h = ground (arith, h, below)

    emit-pushes :
        (blank index : ℕ) (chosen : Choice f scores api) (m next : Machine f scores api)
        → chosen.token < blank
        → emit f scores api index chosen m ≡ ok next
        → (token : Token scores.Value) × IsOf blank index token
          × (next.tokens ≡ m.tokens ++ (token ∷ []))
          × (next.emitted ≡ true)
    unfolding emit
    emit-pushes blank index chosen m next below h =
        let (token, e, h') =
          >>=-eq-ok (new_token f scores api chosen.token index chosen.score) _ h in
        let (advanced, e', made) =
          >>=-eq-ok (map_err failed (api.advance chosen.token m.state chosen.session)) _ h' in
        let same = ok-injective made in
        (
          token,
          new_token-IsOf blank chosen.token index chosen.score token below e,
          ap (λ x. x.tokens) (sym same),
          ap (λ x. x.emitted) (sym same),
        )

    decode_symbols-group :
        (scored : Bool) (blank index : ℕ) (frame : List Value) (left : ℕ)
        (m m' : Machine f scores api)
        → decode_symbols f scores api scored blank index frame left m ≡ ok m'
        → (group : List (Token scores.Value)) × (length group ≤ left)
          × All (IsOf blank index) group
          × (m'.tokens ≡ m.tokens ++ group)
          × (m'.emitted ≡ (m.emitted || not (is_empty group)))
    unfolding decode_symbols
    decode_symbols-group scored blank index frame zero m m' h =
        let same : m ≡ m' = ground arith in
        (
          [],
          omega arith,
          tt,
          ap (λ x. x.tokens) (sym same) ∙ sym (append-nil m.tokens),
          ground (arith, same),
        )
    decode_symbols-group scored blank index frame (suc left) m m' h =
        let (chosen, e, h') = >>=-eq-ok (choose f scores api scored frame m) _ h in
        elim (Bool-cases (ltb blank chosen.token)) [
          | inl beyond ↦ cc (rw beyond at h')
          | inr within ↦ elim (Bool-cases (chosen.token == blank)) [
            | inl is_blank ↦
                let same = ok-injective (rw (within, is_blank) at h') in
                (
                  [],
                  omega arith,
                  tt,
                  ap (λ x. x.tokens) (sym same) ∙ sym (append-nil m.tokens),
                  ap (λ x. x.emitted) (sym same) ∙ ground arith,
                )
            | inr speaks ↦
                let (next, e', h'') =
                  >>=-eq-ok (emit f scores api index chosen m) _ (rw (within, speaks) at h') in
                let below : chosen.token < blank = ground (arith, within, speaks) in
                let (token, is_of, pushed, flagged) =
                  emit-pushes blank index chosen m next below e' in
                let (group, short, all, grown, reported) =
                  decode_symbols-group scored blank index frame left next m' h'' in
                (
                  token ∷ group,
                  omega (arith, short),
                  (is_of, all),
                  appends m.tokens (token ∷ []) group pushed grown,
                  reported ∙ ground (arith, flagged),
                )
          ]
        ]

    decode_frames-groups :
        (scored : Bool) (blank max_symbols : ℕ) (frames : RnntFrameSource Value) (left index : ℕ)
        (m : Machine f scores api) (silence : List Bool) (session : api.Session)
        (output : RnntOutput scores.Value)
        → decode_frames f scores api scored blank max_symbols frames left index m silence
          ≡ ok (session, output)
        → (groups : List (List (Token scores.Value))) × (length groups ≡ left)
          × AreGroups frames blank max_symbols index groups
          × (output.tokens ≡ m.tokens ++ concat groups)
          × (output.silence ≡ silence ++ map is_empty groups)
    unfolding decode_frames
    decode_frames-groups scored blank max_symbols frames zero index m silence session output h =
        let same = ap (λ x. x.1) (ok-injective h) in
        (
          [],
          refl,
          tt,
          ap (λ x. x.tokens) (sym same) ∙ sym (append-nil m.tokens),
          ap (λ x. x.silence) (sym same) ∙ sym (append-nil silence),
        )
    decode_frames-groups scored blank max_symbols frames (suc left) index m silence session output
          h =
        let (u, finite, h') =
          >>=-eq-ok (validate_encoder_frame f scores api index 0 (frames.frame index)) _ h in
        let (next, decoded, h'') =
          >>=-eq-ok
            (decode_symbols f scores api scored blank index (frames.frame index) max_symbols _) _
            h' in
        let (group, short, all, grown, reported) =
          decode_symbols-group scored blank index (frames.frame index) max_symbols _ next decoded in
        let (groups, n, rest, t, s) =
          decode_frames-groups scored blank max_symbols frames left (suc index) next _ session
            output h'' in
        (
          group ∷ groups,
          ap suc n,
          (short, all, validated-All index 0 (frames.frame index) finite, rest),
          appends m.tokens group (concat groups) grown t,
          mask-grows silence (map is_empty groups) (is_empty group) reported s,
        )

    -- When the decoding succeeds, its tokens are one group for each output frame in order: at most
    -- `max_symbols` tokens of that frame, each below the blank. The silence mask tells the frames
    -- whose group is empty, and every value of every frame was finite.
    pub greedy_with_detail_groups :
        (session session' : api.Session) (frames : RnntFrameSource Value) (blank max_symbols : ℕ)
        (scored : Bool) (output : RnntOutput scores.Value)
        → greedy_with_detail f scores api session frames blank max_symbols scored
          ≡ ok (session', output)
        → (groups : List (List (Token scores.Value))) × (length groups ≡ frames.output_frames)
          × AreGroups frames blank max_symbols 0 groups
          × (output.tokens ≡ concat groups)
          × (output.silence ≡ map is_empty groups)
    unfolding greedy_with_detail
    greedy_with_detail_groups session session' frames blank max_symbols scored output h =
        let (started, e, h') = >>=-eq-ok (map_err failed (api.start blank session)) _ h in
        decode_frames-groups scored blank max_symbols frames frames.output_frames 0 _ [] session'
          output h'
