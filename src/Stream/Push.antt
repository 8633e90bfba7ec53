-- ===== src/Stream/Push.antt =====
-- The loop of `push`: it ends, and the buffer stays within the window.
use gigaam_v3_runtime.Base.{
  ℕ, zero, suc, ◌+◌, ◌-◌, ◌*◌, ◌≤◌, ◌<◌, ◌≡◌, ◌≢◌, refl, subst, sym, List, [], ◌∷◌, ◌++◌, arith,
  drop, length, length-drop, Result, ok, err, ◌>>=◌, >>=-eq-ok, ok-injective, map_err,
  map_err-eq-ok, inl, inr, ◌⊎◌,
}
use gigaam_v3_runtime.Transcript.{StreamEvent}
use gigaam_v3_runtime.Stream.Config.{StreamError, PushError, failed, out_of_fuel, Setup}
use gigaam_v3_runtime.Stream.Session.{State, Progress, Value, take_of, push_turn, push_loop, push}
use gigaam_v3_runtime.Stream.Turns.{Fits, push_turn-Turned, take_of-positive}

ends-bind :
    {A B : Type 0} (r : Result StreamError A) (next : A → Result PushError B)
    → ((value : A) → r ≡ ok value → next value ≢ err out_of_fuel)
    → (map_err failed r >>= next) ≢ err out_of_fuel
ends-bind (err e) next h = λ k. cc
ends-bind (ok value) next h = h value refl

module _ (x : Setup) where
  -- The fuel that the loop needs on so many samples: one more where a turn may take nothing.
  abbrev Enough : ℕ → ℕ → State x → Type 0
  Enough fuel samples s =
      (2 * samples < fuel)
      ⊎ ((2 * samples ≤ fuel)
          × ((s.window.decoded_samples ≡ length s.window.buffer)
              × (length s.window.buffer < x.config.full_samples)))

  Enough-left :
      (fuel count n : ℕ) (s t : State x)
      → Enough (suc fuel) (suc n) s
      → (count ≡ 0
          → (t.window.decoded_samples ≡ length t.window.buffer)
            × (length t.window.buffer < x.config.full_samples))
      → take_of x (suc n) s ≡ ok count
      → 0 < x.config.step_samples
      → Enough fuel (suc n - count) t
  Enough-left fuel zero n s t (inl enough) made_room taken step =
      inr (omega (arith, enough), made_room refl)
  Enough-left fuel zero n s t (inr (enough, (settled, room))) made_room taken step =
      inl (omega (arith, take_of-positive x zero n s taken settled room step))
  Enough-left fuel (suc count) n s t (inl enough) made_room taken step = inl (omega (arith, enough))
  Enough-left fuel (suc count) n s t (inr (enough, rest)) made_room taken step =
      inl (omega (arith, enough))

  -- The loop ends when the fuel is twice the samples, and one more where the first turn may take
  -- nothing.
  push_loop-ends :
      (fuel : ℕ) (samples : List (Value x)) (events : List (StreamEvent (Value x))) (s : State x)
      → 0 < x.config.step_samples
      → Fits x s
      → Enough fuel (length samples) s
      → push_loop x fuel samples events s ≢ err out_of_fuel
  unfolding push_loop
  push_loop-ends fuel [] events s step fits enough = λ h. cc
  push_loop-ends zero (sample ∷ rest) events s step fits (inl enough) = omega arith
  push_loop-ends zero (sample ∷ rest) events s step fits (inr (enough, _)) = omega arith
  push_loop-ends (suc fuel) (sample ∷ rest) events s step fits enough =
      ends-bind (take_of x (length (sample ∷ rest)) s) _ (λ count taken.
        ends-bind (push_turn x count (sample ∷ rest) s) _ (λ r turned.
          let (fits', made_room) = push_turn-Turned x count sample rest s fits taken turned in
          push_loop-ends fuel (drop count (sample ∷ rest)) (events ++ r.1) r.0 step fits' (
            subst (λ n. Enough fuel n r.0) (sym (length-drop count (sample ∷ rest)))
              (Enough-left fuel count (length rest) s r.0 enough made_room taken step))))

  push_loop-Fits :
      (fuel : ℕ) (samples : List (Value x)) (events : List (StreamEvent (Value x))) (s : State x)
      {r : Progress x}
      → Fits x s
      → push_loop x fuel samples events s ≡ ok r
      → Fits x r.0
  unfolding push_loop
  push_loop-Fits fuel [] events s fits h =
      subst (λ (r : Progress x). Fits x r.0) (ok-injective h) fits
  push_loop-Fits zero (sample ∷ rest) events s fits h = cc
  push_loop-Fits (suc fuel) (sample ∷ rest) events s fits h =
      let (count, e, h1) = >>=-eq-ok (map_err failed (take_of x (length (sample ∷ rest)) s)) _ h in
      let (r, e', h2) = >>=-eq-ok (map_err failed (push_turn x count (sample ∷ rest) s)) _ h1 in
      let (fits', _) =
        push_turn-Turned x count sample rest s fits (map_err-eq-ok failed _ e)
          (map_err-eq-ok failed _ e') in
      push_loop-Fits fuel (drop count (sample ∷ rest)) (events ++ r.1) r.0 fits' h2

  -- On a session whose samples fit the window, with a positive step, the loop of `push` ends: two
  -- turns for each sample, and one more, are enough.
  pub push-ends :
      (samples : List (Value x)) (s : State x)
      → 0 < x.config.step_samples
      → Fits x s
      → push x samples s ≢ err out_of_fuel
  unfolding push
  push-ends samples s step fits =
      push_loop-ends (2 * length samples + 1) samples [] s step fits (inl (omega arith))

  -- `push` never lets the buffer outgrow the full window, nor the count of decoded samples the
  -- buffer.
  pub push-Fits :
      (samples : List (Value x)) (s : State x) {r : Progress x}
      → Fits x s
      → push x samples s ≡ ok r
      → Fits x r.0
  unfolding push
  push-Fits samples s fits h = push_loop-Fits (2 * length samples + 1) samples [] s fits h
