-- ===== src/Stream/Emission.antt =====
-- `emit`: the events it sends and the line it keeps.
use gigaam_v3_runtime.Base.{
  ℕ, zero, suc, ◌≤◌, ◌≡◌, refl, sym, ap, ◌∙◌, subst, true, false, ◌||◌, ltb, leb, ltb→lt, Option,
  List, [], ◌∷◌, map, arith, length, All, All-append, inl, inr, ok, err, >>=-eq-ok, ok-injective,
  if-eq-ok,
}
use gigaam_v3_runtime.Base.Arithmetic.{FloatArithmetic}
use gigaam_v3_runtime.Transcript.{
  TranscriptWord, StreamWord, FinalReason, stable_event, final_event,
}
use gigaam_v3_runtime.Stream.Config.{panicked}
use gigaam_v3_runtime.Stream.Line.{
  Line, Emission, first_difference, target_line, open_word, mark_first, set_stable_upto,
  stable_count, unwrap_reason, send_patch, send_stable, send_final, event_time, revise,
  announce_stable, announce_final, emit,
}
use gigaam_v3_runtime.Stream.Patches.{
  Sound, Sound-append, Agree, Finite, Agree-le_first_difference, Agree-first_difference,
  Agree-patched, length-patched, Agree-mark_first, Agree-append, Agree-prefix, length-mark_first,
}

subst2 :
    {A B : Type 0} (P : A → B → Type 0) {x x' : A} {y y' : B} → x ≡ x' → y ≡ y' → P x y → P x' y'
subst2 P {x = x} {y' = y'} h k p = subst (λ x. P x y') h (subst (λ y. P x y) k p)

module _ (a : FloatArithmetic) where
  open a.order use {Value, is_finite}

  -- A word whose times are finite.
  abbrev pub HasTimes : TranscriptWord Value → Type 0
  HasTimes w = (is_finite w.start ≡ true) × (is_finite w.end ≡ true)

  -- What the client holds as final agrees with what is committed.
  abbrev pub GoodLine : Line Value → Type 0
  GoodLine l = Agree a l.final_sent l.emitted l.committed × All (Finite a) l.committed

  -- The line on the way through `emit`.
  abbrev pub Sent : Line Value → List (StreamWord Value) → Emission Value → Type 0
  Sent l target e =
      Sound l.emitted l.final_sent e.events e.line.emitted e.line.final_sent
      × (Agree a (length target) e.line.emitted target
          × ((length e.line.emitted ≡ length target)
              × ((e.line.committed ≡ l.committed) × (e.line.final_sent ≡ l.final_sent))))

  first_difference-le :
      (xs ys : List (StreamWord Value))
      → (first_difference a xs ys ≤ length xs) × (first_difference a xs ys ≤ length ys)
  unfolding first_difference
  first_difference-le [] ys = (omega arith, omega arith)
  first_difference-le (x ∷ xs) [] = (omega arith, omega arith)
  first_difference-le (x ∷ xs) (y ∷ ys) =
      let (h, k) = first_difference-le xs ys in (ground (arith, h), ground (arith, k))

  whole :
      (xs ys : List (StreamWord Value))
      → (ltb (first_difference a xs ys) (length ys) || ltb (first_difference a xs ys) (length xs))
        ≡ false
      → (first_difference a xs ys ≡ length ys) × (length xs ≡ length ys)
  whole xs ys h =
      let (below, below') = first_difference-le xs ys in
      (ground (arith, h, below, below'), ground (arith, h, below, below'))

  pub revise-Sent :
      (l : Line Value) (target : List (StreamWord Value)) (now : Value) {e : Emission Value}
      → Agree a l.final_sent l.emitted target
      → All (Finite a) target
      → revise a now target (record { line = l; events = [] }) ≡ ok e
      → Sent l target e
  unfolding revise send_patch
  revise-Sent l target now agree finite h =
      let r = first_difference a l.emitted target in
      let shared = Agree-first_difference a l.emitted target in
      let start : Emission Value = record { line = l; events = [] } in
      elim (if-eq-ok (ltb r (length target) || ltb r (length l.emitted))
        (send_patch a now r target start) (ok start) h) [
          | inl k ↦
              let (_, _, made) = >>=-eq-ok (event_time a now) _ k.1 in
              subst (Sent l target) (ok-injective made) (
                (
                  refl,
                  ((Agree-le_first_difference a l.final_sent l.emitted target agree, tt), refl),
                ),
                (
                  Agree-patched a r l.emitted target shared finite,
                  (length-patched a r l.emitted target shared, (refl, refl)),
                ),
              )
          | inr k ↦
              let (full, lengths) = whole l.emitted target k.0 in
              subst (Sent l target) (ok-injective k.1) (
                (refl, (tt, refl)),
                (subst (λ n. Agree a n l.emitted target) full shared, (lengths, (refl, refl))),
              )
        ]

  set_stable_upto-made :
      (n : ℕ) (ws : List (StreamWord Value)) {marked : List (StreamWord Value)}
      → set_stable_upto n ws ≡ ok marked
      → mark_first n ws ≡ marked
  unfolding set_stable_upto
  set_stable_upto-made n ws h =
      elim (if-eq-ok (leb n (length ws)) (ok (mark_first n ws)) (err panicked) h) [
        | inl k ↦ ok-injective k.1
        | inr k ↦ cc
      ]

  pub announce_stable-Sent :
      (l : Line Value) (target : List (StreamWord Value)) (now : Value) (e : Emission Value)
      {e' : Emission Value}
      → Sent l target e
      → announce_stable a now target e ≡ ok e'
      → Sent l target e'
  unfolding announce_stable send_stable
  announce_stable-Sent l target now e sent h =
      let (sound, (agree, (lengths, (same_committed, same_final)))) = sent in
      let n = stable_count target in
      elim (if-eq-ok (ltb e.line.stable_sent n) (send_stable a now n e) (ok e) h) [
        | inl k ↦
            let (marked, found, rest) = >>=-eq-ok (set_stable_upto n e.line.emitted) _ k.1 in
            let (_, _, made) = >>=-eq-ok (event_time a now) _ rest in
            let is_marked = set_stable_upto-made n e.line.emitted found in
            subst (Sent l target) (ok-injective made) (
              Sound-append l.emitted l.final_sent e.events (stable_event now n ∷ []) sound
                  (is_marked, (tt, refl)),
              (
                subst (λ ws. Agree a (length target) ws target) is_marked
                    (Agree-mark_first a n (length target) e.line.emitted target agree),
                (
                  ap length (sym is_marked) ∙ (length-mark_first n e.line.emitted ∙ lengths),
                  (same_committed, same_final),
                ),
              ),
            )
        | inr k ↦ subst (Sent l target) (ok-injective k.1) sent
      ]

  -- The line behind `emit`.
  abbrev Closed : Line Value → List (StreamWord Value) → Emission Value → Type 0
  Closed l target e =
      Sound l.emitted l.final_sent e.events e.line.emitted e.line.final_sent
      × (Agree a (length target) e.line.emitted target
          × ((e.line.committed ≡ l.committed) × (e.line.final_sent ≡ length l.committed)))

  announce_final-Closed :
      (l : Line Value) (target : List (StreamWord Value)) (now : Value)
      (reason : Option FinalReason) (e : Emission Value) {e' : Emission Value}
      → l.final_sent ≤ length l.committed
      → Sent l target e
      → announce_final a now reason e ≡ ok e'
      → Closed l target e'
  unfolding announce_final send_final
  announce_final-Closed l target now reason e bound
        (sound, (agree, (lengths, (same_committed, same_final)))) h =
      let n = length e.line.committed in
      elim (if-eq-ok (ltb e.line.final_sent n) (send_final a now reason n e) (ok e) h) [
        | inl k ↦
            let (marked, found, rest) = >>=-eq-ok (set_stable_upto n e.line.emitted) _ k.1 in
            let (_, _, made) = >>=-eq-ok (event_time a now) _ rest in
            let is_marked = set_stable_upto-made n e.line.emitted found in
            subst (Closed l target) (ok-injective made) (
              Sound-append l.emitted l.final_sent e.events
                  (final_event now n (unwrap_reason reason) ∷ []) sound
                  (is_marked, ((ltb→lt _ _ k.0, tt), refl)),
              (
                subst (λ ws. Agree a (length target) ws target) is_marked
                    (Agree-mark_first a n (length target) e.line.emitted target agree),
                (same_committed, ap length same_committed),
              ),
            )
        | inr k ↦
            let e1 : length e.line.committed ≡ length l.committed = ap length same_committed in
            subst (Closed l target) (ok-injective k.1)
              (sound, (agree, (same_committed, ground (arith, k.0, same_final, bound, e1))))
      ]

  pub Agree-length :
      (n : ℕ) (xs ys : List (StreamWord Value))
      → Agree a n xs ys
      → (n ≤ length xs) × (n ≤ length ys)
  Agree-length zero xs ys h = (omega arith, omega arith)
  Agree-length (suc n) [] ys h = elim h [ ]
  Agree-length (suc n) (x ∷ xs) [] h = elim h [ ]
  Agree-length (suc n) (x ∷ xs) (y ∷ ys) h =
      let (k, k') = Agree-length n xs ys h.1 in (omega arith, omega arith)

  open_words-Finite :
      (stable_before : Value) (words : List (TranscriptWord Value))
      → All HasTimes words
      → All (Finite a) (map (open_word a stable_before) words)
  unfolding open_word
  open_words-Finite stable_before [] h = tt
  open_words-Finite stable_before (w ∷ ws) h = (h.0, open_words-Finite stable_before ws h.1)

  pub target-Finite :
      (stable_before : Value) (l : Line Value) (words : List (TranscriptWord Value))
      → GoodLine l
      → All HasTimes words
      → All (Finite a) (target_line a stable_before l.committed words)
  unfolding target_line
  target-Finite stable_before l words good h =
      All-append (Finite a) l.committed _ good.1 (open_words-Finite stable_before words h)

  pub target-Agree :
      (stable_before : Value) (l : Line Value) (words : List (TranscriptWord Value))
      → GoodLine l
      → Agree a l.final_sent l.emitted (target_line a stable_before l.committed words)
  unfolding target_line
  target-Agree stable_before l words good =
      Agree-append a l.final_sent l.emitted l.committed _ good.0

  pub target-committed :
      (stable_before : Value) (l : Line Value) (words : List (TranscriptWord Value))
      (emitted : List (StreamWord Value))
      → let target = target_line a stable_before l.committed words in
        Agree a (length target) emitted target → Agree a (length l.committed) emitted l.committed
  unfolding target_line
  target-committed stable_before l words emitted h = Agree-prefix a emitted l.committed _ h

  -- The same for a whole `emit`, after which all that is committed is final.
  pub emit-Sound :
      (horizon_sec : Value) (open_line : List (TranscriptWord Value)) (now : Value)
      (reason : Option FinalReason) (l : Line Value) {e : Emission Value}
      → GoodLine l
      → All HasTimes open_line
      → emit a horizon_sec open_line now reason l ≡ ok e
      → Sound l.emitted l.final_sent e.events e.line.emitted e.line.final_sent
        × (GoodLine e.line × (e.line.final_sent ≡ length e.line.committed))
  unfolding emit
  emit-Sound horizon_sec open_line now reason l {e = e} good times h =
      let before = a.sub now horizon_sec in
      let target = target_line a before l.committed open_line in
      let start : Emission Value = record { line = l; events = [] } in
      let (revised, h1, rest) = >>=-eq-ok (revise a now target start) _ h in
      let (announced, h2, h3) = >>=-eq-ok (announce_stable a now target revised) _ rest in
      let sent =
        revise-Sent l target now (target-Agree before l open_line good)
          (target-Finite before l open_line good times) h1 in
      let (sound, (agree, (same_committed, is_final))) =
        announce_final-Closed l target now reason announced
          (Agree-length l.final_sent l.emitted l.committed good.0).1
          (announce_stable-Sent l target now revised sent h2) h3 in
      (
        sound,
        (
          (
            subst2 (λ n ws. Agree a n e.line.emitted ws) (sym is_final) (sym same_committed)
                (target-committed before l open_line _ agree),
            subst (All (Finite a)) (sym same_committed) good.1,
          ),
          is_final ∙ ap length (sym same_committed),
        ),
      )
