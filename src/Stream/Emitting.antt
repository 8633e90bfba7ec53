-- ===== src/Stream/Emitting.antt =====
-- `emit` never leaves the range of a line.
use gigaam_v3_runtime.Base.{
  ℕ, ◌≤◌, ◌≡◌, refl, sym, ap, subst, Bool, true, false, ◌||◌, ltb, le→leb, Option, List, [], ◌∷◌,
  arith, if◌then◌else◌, length, All, Result, ok, >>=-ok, map_err,
}
use gigaam_v3_runtime.Base.Arithmetic.{FloatArithmetic}
use gigaam_v3_runtime.Transcript.{TranscriptWord, StreamWord, FinalReason, finite_nonnegative}
use gigaam_v3_runtime.Stream.Config.{StreamError, refused}
use gigaam_v3_runtime.Stream.Line.{
  Line, Emission, first_difference, target_line, mark_first, set_stable_upto, stable_count,
  is_stable, send_patch, send_stable, send_final, event_time, revise, announce_stable,
  announce_final, emit,
}
use gigaam_v3_runtime.Stream.Emission.{
  HasTimes, GoodLine, Agree-length, revise-Sent, announce_stable-Sent, target-Agree, target-Finite,
  target-committed,
}

module _ (a : FloatArithmetic) where
  open a.order use {Value}

  stable_count-le : (ws : List (StreamWord Value)) → stable_count ws ≤ length ws
  unfolding stable_count is_stable
  stable_count-le [] = omega arith
  stable_count-le (w ∷ ws) = ground (arith, stable_count-le ws)

  set_stable_upto-ok :
      (n : ℕ) (ws : List (StreamWord Value))
      → n ≤ length ws
      → set_stable_upto n ws ≡ ok (mark_first n ws)
  unfolding set_stable_upto
  set_stable_upto-ok n ws h = rw (le→leb n (length ws) h)

  if_ok :
      {A : Type 0} (test : Bool) (first second : Result StreamError A)
      → (test ≡ true → (r : A) × (first ≡ ok r))
      → ((r : A) × (second ≡ ok r))
      → (r : A) × ((if test then first else second) ≡ ok r)
  if_ok true first second h k = h refl
  if_ok false first second h k = k

  event_time-ok : (now : Value) → finite_nonnegative a now ≡ ok tt → event_time a now ≡ ok tt
  unfolding event_time
  event_time-ok now h = ap (map_err refused) h

  revise-ok :
      (target : List (StreamWord Value)) (now : Value) (e : Emission Value)
      → finite_nonnegative a now ≡ ok tt
      → (e' : Emission Value) × (revise a now target e ≡ ok e')
  unfolding revise send_patch
  revise-ok target now e h =
      let r = first_difference a e.line.emitted target in
      if_ok (ltb r (length target) || ltb r (length e.line.emitted)) (send_patch a now r target e)
        (ok e) (λ test. >>=-ok (event_time a now) _ (event_time-ok now h) (_, refl)) (e, refl)

  announce_stable-ok :
      (target : List (StreamWord Value)) (now : Value) (e : Emission Value)
      → finite_nonnegative a now ≡ ok tt
      → length e.line.emitted ≡ length target
      → (e' : Emission Value) × (announce_stable a now target e ≡ ok e')
  unfolding announce_stable send_stable
  announce_stable-ok target now e h lengths =
      let n = stable_count target in
      let inside : n ≤ length e.line.emitted = omega (arith, stable_count-le target, lengths) in
      if_ok (ltb e.line.stable_sent n) (send_stable a now n e) (ok e)
        (λ test.
          >>=-ok (set_stable_upto n e.line.emitted) _ (set_stable_upto-ok n e.line.emitted inside)
            (>>=-ok (event_time a now) _ (event_time-ok now h) (_, refl)))
        (e, refl)

  announce_final-ok :
      (now : Value) (reason : Option FinalReason) (e : Emission Value)
      → finite_nonnegative a now ≡ ok tt
      → length e.line.committed ≤ length e.line.emitted
      → (e' : Emission Value) × (announce_final a now reason e ≡ ok e')
  unfolding announce_final send_final
  announce_final-ok now reason e h inside =
      let n = length e.line.committed in
      if_ok (ltb e.line.final_sent n) (send_final a now reason n e) (ok e)
        (λ test.
          >>=-ok (set_stable_upto n e.line.emitted) _ (set_stable_upto-ok n e.line.emitted inside)
            (>>=-ok (event_time a now) _ (event_time-ok now h) (_, refl)))
        (e, refl)

  -- At a finite time that is not negative, with words of finite times and committed words that
  -- agree with what the client holds as final, `emit` never fails: no slice of it leaves the line.
  pub emit-ok :
      (horizon_sec : Value) (open_line : List (TranscriptWord Value)) (now : Value)
      (reason : Option FinalReason) (l : Line Value)
      → GoodLine a l
      → All (HasTimes a) open_line
      → finite_nonnegative a now ≡ ok tt
      → (e : Emission Value) × (emit a horizon_sec open_line now reason l ≡ ok e)
  unfolding emit
  emit-ok horizon_sec open_line now reason l good times h =
      let before = a.sub now horizon_sec in
      let target = target_line a before l.committed open_line in
      let start : Emission Value = record { line = l; events = [] } in
      let (revised, h1) = revise-ok target now start h in
      let sent =
        revise-Sent a l target now (target-Agree a before l open_line good)
          (target-Finite a before l open_line good times) h1 in
      let (_, (_, (lengths, _))) = sent in
      let (announced, h2) = announce_stable-ok target now revised h lengths in
      let (_, (agree, (_, (same_committed, _)))) =
        announce_stable-Sent a l target now revised sent h2 in
      let inside =
        (Agree-length a (length l.committed) announced.line.emitted l.committed
          (target-committed a before l open_line _ agree)).0 in
      let (e, h3) =
        announce_final-ok now reason announced h
          (subst (λ ws. length ws ≤ length announced.line.emitted) (sym same_committed) inside) in
      (e, rw (h1, h2) h3)
