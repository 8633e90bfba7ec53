-- ===== src/Stream/Caching.antt =====
-- `push` and the mel columns that a session keeps.
use gigaam_v3_runtime.Base.{
  ℕ, zero, suc, ◌+◌, ◌*◌, ◌<◌, ◌≡◌, subst, ap, ◌∙◌, ◌==◌, ◌&&◌, ◌||◌, List, [], ◌∷◌, ◌++◌,
  append_assoc, leb, take, drop, length, is_empty, ok, >>=-eq-ok, ok-injective, if-eq-ok, ok_or,
  map_err, map_err-eq-ok, refuse_if, inl, inr,
}
use gigaam_v3_runtime.Base.Words.{checked_sub}
use gigaam_v3_runtime.Transcript.{StreamEvent}
use gigaam_v3_runtime.Stream.Config.{
  decoded_exceeds_buffer, buffer_did_not_shrink, failed, Setup, StreamProgress, advance,
}
use gigaam_v3_runtime.Stream.Features.{observe}
use gigaam_v3_runtime.Stream.Settling.{CachedIn, tick_window-cached}
use gigaam_v3_runtime.Stream.Session.{
  State, Progress, Value, is_full, tick_window, tick, take_of, extend, tick_if_due, push_turn,
  push_loop, push,
}

module _ (x : Setup) (hop : 0 < x.config.hop_length) (fft : 0 < x.config.fft_length) where
  abbrev CachedProgress : Progress x → Type 0
  CachedProgress r = CachedIn x r.0.window

  tick-cached :
      (progress : StreamProgress) (s : State x) {r : Progress x}
      → CachedIn x s.window
      → tick x progress s ≡ ok r
      → CachedProgress r
  unfolding tick
  tick-cached progress s cached h =
      let (_, _, h1) = >>=-eq-ok (observe (x.ports.control s.clock)) _ h in
      let t : State x = record s { clock = s.clock + 1 } in
      elim (if-eq-ok (is_empty s.window.buffer) (ok (t, [])) (tick_window x progress s) h1) [
        | inl k ↦ subst CachedProgress (ok-injective k.1) cached
        | inr k ↦ tick_window-cached x progress s hop fft cached k.1
      ]

  extend-cached :
      (samples : List (Value x)) (s : State x)
      → CachedIn x s.window
      → CachedIn x (extend x samples s).window
  unfolding extend
  extend-cached samples s (decoded, more, split, fresh, is_real) = (
    decoded,
    more ++ samples,
    ap (λ b. b ++ samples) split ∙ append_assoc decoded more samples,
    fresh,
    is_real,
  )

  tick_if_due-cached :
      (s : State x) {r : Progress x}
      → CachedIn x s.window
      → tick_if_due x s ≡ ok r
      → CachedProgress r
  unfolding tick_if_due
  tick_if_due-cached s cached h =
      let (grown, _, h1) =
        >>=-eq-ok
          (ok_or (checked_sub (length s.window.buffer) s.window.decoded_samples)
            decoded_exceeds_buffer)
          _ h in
      elim (if-eq-ok (is_full x s || leb x.config.step_samples grown) (tick x advance s)
        (ok (s, [])) h1) [
          | inl k ↦ tick-cached advance s cached k.1
          | inr k ↦ subst CachedProgress (ok-injective k.1) cached
        ]

  push_turn-cached :
      (count : ℕ) (remaining : List (Value x)) (s : State x) {r : Progress x}
      → CachedIn x s.window
      → push_turn x count remaining s ≡ ok r
      → CachedProgress r
  unfolding push_turn
  push_turn-cached count remaining s cached h =
      let (r, e, h1) = >>=-eq-ok (tick_if_due x (extend x (take count remaining) s)) _ h in
      let (_, _, made) =
        >>=-eq-ok (refuse_if (count == 0 && is_full x r.0) buffer_did_not_shrink) _ h1 in
      subst CachedProgress (ok-injective made) (
        tick_if_due-cached (extend x (take count remaining) s)
          (extend-cached (take count remaining) s cached) e)

  push_loop-cached :
      (fuel : ℕ) (samples : List (Value x)) (events : List (StreamEvent (Value x))) (s : State x)
      {r : Progress x}
      → CachedIn x s.window
      → push_loop x fuel samples events s ≡ ok r
      → CachedProgress r
  unfolding push_loop
  push_loop-cached fuel [] events s cached h = subst CachedProgress (ok-injective h) cached
  push_loop-cached zero (sample ∷ rest) events s cached h = cc
  push_loop-cached (suc fuel) (sample ∷ rest) events s cached h =
      let (count, e, h1) = >>=-eq-ok (map_err failed (take_of x (length (sample ∷ rest)) s)) _ h in
      let (r, e', h2) = >>=-eq-ok (map_err failed (push_turn x count (sample ∷ rest) s)) _ h1 in
      push_loop-cached fuel (drop count (sample ∷ rest)) (events ++ r.1) r.0
        (push_turn-cached count (sample ∷ rest) s cached (map_err-eq-ok failed _ e')) h2

  -- For a positive hop and frame length: when `push` succeeds on a session whose columns kept are
  -- those of its samples at the last decode, so are those of the session after, however the ticks
  -- cut the window.
  pub push-cached :
      (samples : List (Value x)) (s : State x) {r : Progress x}
      → CachedIn x s.window
      → push x samples s ≡ ok r
      → CachedIn x r.0.window
  unfolding push
  push-cached samples s cached h = push_loop-cached (2 * length samples + 1) samples [] s cached h
