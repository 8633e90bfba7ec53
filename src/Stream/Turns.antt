-- ===== src/Stream/Turns.antt =====
-- One turn of the loop of `push`: its samples fit, and one that takes nothing makes room.
use gigaam_v3_runtime.Base.{
  ℕ, zero, suc, ◌+◌, ◌-◌, ◌≤◌, ◌<◌, ◌≡◌, refl, subst, sym, ◌∙◌, Bool, true, false, ◌==◌, ◌&&◌, ◌||◌,
  List, [], ◌∷◌, arith, leb, take, length, length-append, length-take, is_empty, min, ok, >>=-eq-ok,
  ok-injective, if-eq-ok, ok_or, refuse_if, inl, inr, ◌⊎◌,
}
use gigaam_v3_runtime.Base.Words.{checked_sub}
use gigaam_v3_runtime.Stream.Config.{
  decoded_exceeds_buffer, buffer_exceeds_window, buffer_did_not_shrink, Setup, StreamProgress,
  advance,
}
use gigaam_v3_runtime.Stream.Features.{Window as Samples, observe}
use gigaam_v3_runtime.Stream.Settling.{Settled, tick_window-Settled}
use gigaam_v3_runtime.Stream.Session.{
  State, Progress, Value, is_full, tick_window, tick, take_of, extend, tick_if_due, push_turn,
}

empty-settled :
    {A : Type 0} (buffer : List A) (decoded : ℕ)
    → is_empty buffer ≡ true
    → decoded ≤ length buffer
    → decoded ≡ length buffer
empty-settled [] decoded h k = omega arith
empty-settled (a ∷ buffer) decoded h k = cc

checked_sub-value :
    {E : Type 0} (a b : ℕ) (e : E) {c : ℕ} → ok_or (checked_sub a b) e ≡ ok c → c ≡ a - b
unfolding checked_sub
checked_sub-value a b e h = ground (arith, h)

min-zero : (n room need : ℕ) → min (min (suc n) room) need ≡ 0 → (room ≡ 0) ⊎ (need ≡ 0)
min-zero n zero need h = inl refl
min-zero n (suc room) zero h = inr refl
min-zero n (suc room) (suc need) h = omega arith

not_due : {A : Type 0} {b : Bool} → b ≡ true → b ≡ false → A
not_due h k = cc

module _ (x : Setup) where
  -- The invariant of the samples.
  abbrev pub Fits : State x → Type 0
  Fits s =
      (s.window.decoded_samples ≤ length s.window.buffer)
      × (length s.window.buffer ≤ x.config.full_samples)

  tick-Settled :
      (progress : StreamProgress) (s : State x) {r : Progress x}
      → Fits s
      → tick x progress s ≡ ok r
      → Settled x (length s.window.buffer) r.0.window
  unfolding tick
  tick-Settled progress s fits h =
      let (_, _, h1) = >>=-eq-ok (observe (x.ports.control s.clock)) _ h in
      let t : State x = record s { clock = s.clock + 1 } in
      elim (if-eq-ok (is_empty s.window.buffer) (ok (t, [])) (tick_window x progress s) h1) [
        | inl k ↦
            subst (λ (r : Progress x). Settled x (length s.window.buffer) r.0.window)
              (ok-injective k.1)
              (empty-settled s.window.buffer s.window.decoded_samples k.0 fits.0, omega arith)
        | inr k ↦ tick_window-Settled x progress s k.1
      ]

  -- After a turn: everything decoded if a tick was due, and room unless nothing was taken.
  tick_if_due-Fits :
      (s : State x) {r : Progress x}
      → Fits s
      → tick_if_due x s ≡ ok r
      → Fits r.0
        × (((is_full x s
                || leb x.config.step_samples (length s.window.buffer - s.window.decoded_samples))
              ≡ true)
            → r.0.window.decoded_samples ≡ length r.0.window.buffer)
  unfolding tick_if_due
  tick_if_due-Fits s {r = r} fits h =
      let (grown, e, h1) =
        >>=-eq-ok
          (ok_or (checked_sub (length s.window.buffer) s.window.decoded_samples)
            decoded_exceeds_buffer)
          _ h in
      let difference =
        checked_sub-value (length s.window.buffer) s.window.decoded_samples decoded_exceeds_buffer
          e in
      elim (if-eq-ok (is_full x s || leb x.config.step_samples grown) (tick x advance s)
        (ok (s, [])) h1) [
          | inl k ↦
              let (settled, bound) = tick-Settled advance s fits k.1 in
              ((omega arith, omega arith), λ due. settled)
          | inr k ↦ (
            subst (λ (r : Progress x). Fits r.0) (ok-injective k.1) fits,
            λ due.
                not_due due (
                  subst (λ n. (is_full x s || leb x.config.step_samples n) ≡ false) difference k.0),
          )
        ]

  take_of-value :
      (remaining : ℕ) (s : State x) {count : ℕ}
      → take_of x remaining s ≡ ok count
      → count
        ≡ min
            (min remaining (x.config.full_samples - length s.window.buffer))
            (x.config.step_samples - (length s.window.buffer - s.window.decoded_samples))
  unfolding take_of
  take_of-value remaining s h =
      let (room, e, h1) =
        >>=-eq-ok
          (ok_or (checked_sub x.config.full_samples (length s.window.buffer)) buffer_exceeds_window)
          _ h in
      let (unprocessed, e', made) =
        >>=-eq-ok
          (ok_or (checked_sub (length s.window.buffer) s.window.decoded_samples)
            decoded_exceeds_buffer)
          _ h1 in
      let k =
        checked_sub-value x.config.full_samples (length s.window.buffer) buffer_exceeds_window e in
      let k' =
        checked_sub-value (length s.window.buffer) s.window.decoded_samples decoded_exceeds_buffer
          e' in
      let m = ok-injective made in omega (arith, k, k', m)

  extend-length :
      (count : ℕ) (remaining : List (Value x)) (s : State x)
      → count ≤ length remaining
      → length (extend x (take count remaining) s).window.buffer ≡ length s.window.buffer + count
  unfolding extend
  extend-length count remaining s h =
      omega (
        arith,
        length-append s.window.buffer (take count remaining),
        length-take count remaining,
        h,
      )

  -- What a turn leaves: the samples fit, and a turn that took nothing has made room.
  abbrev pub Turned : ℕ → State x → Type 0
  Turned count t =
      Fits t
      × (count ≡ 0
          → (t.window.decoded_samples ≡ length t.window.buffer)
            × (length t.window.buffer < x.config.full_samples))

  is_full-due :
      (s : State x)
      → (x.config.full_samples ≤ length s.window.buffer)
        ⊎ (x.config.step_samples ≤ length s.window.buffer - s.window.decoded_samples)
      → (is_full x s
          || leb x.config.step_samples (length s.window.buffer - s.window.decoded_samples))
        ≡ true
  unfolding is_full
  is_full-due s h = ground (arith, h)

  not_full : (s : State x) → is_full x s ≡ false → length s.window.buffer < x.config.full_samples
  unfolding is_full
  not_full s h = ground (arith, h)

  refused_zero :
      (count : ℕ) (b : Bool) {done : Unit {0}}
      → refuse_if (count == 0 && b) buffer_did_not_shrink ≡ ok done
      → count ≡ 0
      → b ≡ false
  refused_zero zero true h k = cc
  refused_zero zero false h k = refl
  refused_zero (suc count) b h k = ground (arith, k)

  due :
      (w : Samples (Value x) x.Column) (count rest : ℕ) (w' : Samples (Value x) x.Column)
      → length w'.buffer ≡ length w.buffer + count
      → w'.decoded_samples ≡ w.decoded_samples
      → count
        ≡ min
            (min (suc rest) (x.config.full_samples - length w.buffer))
            (x.config.step_samples - (length w.buffer - w.decoded_samples))
      → count ≡ 0
      → (x.config.full_samples ≤ length w'.buffer)
        ⊎ (x.config.step_samples ≤ length w'.buffer - w'.decoded_samples)
  due w count rest w' lengths same value none_taken =
      elim (min-zero rest (x.config.full_samples - length w.buffer)
        (x.config.step_samples - (length w.buffer - w.decoded_samples)) (sym value ∙ none_taken)) [
          | inl k ↦ inl (omega (arith, k, lengths))
          | inr k ↦ inr (omega (arith, k, lengths, same))
        ]

  pub push_turn-Turned :
      (count : ℕ) (sample : Value x) (rest : List (Value x)) (s : State x) {r : Progress x}
      → Fits s
      → take_of x (length (sample ∷ rest)) s ≡ ok count
      → push_turn x count (sample ∷ rest) s ≡ ok r
      → Turned count r.0
  unfolding push_turn extend
  push_turn-Turned count sample rest s (decoded, bound) taken h =
      let remaining = sample ∷ rest in
      let value = take_of-value (length remaining) s taken in
      let t = extend x (take count remaining) s in
      let lengths = extend-length count remaining s (omega (arith, value)) in
      let fits : Fits t = (omega (arith, lengths, decoded), omega (arith, lengths, bound, value)) in
      let (r, e, h1) = >>=-eq-ok (tick_if_due x t) _ h in
      let (_, passed, made) =
        >>=-eq-ok (refuse_if (count == 0 && is_full x r.0) buffer_did_not_shrink) _ h1 in
      let (fits', settled) = tick_if_due-Fits t fits e in
      subst (λ (r : Progress x). Turned count r.0) (ok-injective made)
        (
          fits',
          λ none_taken. (
            settled (
                is_full-due t
                  (due s.window count (length rest) t.window lengths refl value none_taken)),
            not_full r.0 (refused_zero count (is_full x r.0) passed none_taken),
          ),
        )

  pub take_of-positive :
      (count n : ℕ) (s : State x)
      → take_of x (suc n) s ≡ ok count
      → s.window.decoded_samples ≡ length s.window.buffer
      → length s.window.buffer < x.config.full_samples
      → 0 < x.config.step_samples
      → 0 < count
  take_of-positive count n s taken settled room step =
      omega (arith, take_of-value (suc n) s taken, settled, room, step)
