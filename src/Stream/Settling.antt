-- ===== src/Stream/Settling.antt =====
-- The samples of a session: a tick leaves all of them decoded, never more than there were, and the
-- columns those of the samples.
use gigaam_v3_runtime.Base.{
  ℕ, ◌+◌, ◌≤◌, ◌<◌, ◌≡◌, refl, subst, ap, sym, ◌∙◌, [], append-nil, arith, drop, length,
  length-drop, min, ok, >>=-eq-ok, ok-injective,
}
use gigaam_v3_runtime.Stream.Config.{Setup, StreamProgress}
use gigaam_v3_runtime.Stream.Features.{
  Window as Samples, Candidate, observe, decode, update_columns, check_duration, real_frames,
}
use gigaam_v3_runtime.Stream.Columns.{
  Cached, fresh_columns-nil, real_frames-nil, update_columns-fresh,
}
use gigaam_v3_runtime.Stream.Window.{restarted, tick_window-Holds}
use gigaam_v3_runtime.Stream.Session.{State, Progress, Value, tick_window}

module _ (x : Setup) where
  -- Every sample is decoded, and there are at most n.
  abbrev pub Settled : ℕ → Samples (Value x) x.Column → Type 0
  Settled n w = (w.decoded_samples ≡ length w.buffer) × (length w.buffer ≤ n)

  Settled-closed :
      (n : ℕ) (w : Samples (Value x) x.Column) (dropped : ℕ)
      → Settled n w
      → Settled n (restarted x dropped w)
  Settled-closed n w dropped (settled, bound) =
      (refl, omega (arith, length-drop dropped w.buffer, bound))

  -- The window that a decode gives.
  decode-window :
      (clock : ℕ) (w : Samples (Value x) x.Column)
      {c : Candidate (Value x) x.double.order.Value x.Column}
      → decode x.double x.config x.ports clock w ≡ ok c
      → (c.window.buffer ≡ w.buffer)
        × ((c.window.decoded_samples ≡ length w.buffer)
            × ((update_columns x.config x.ports w ≡ ok c.window.mel)
                × (c.window.real_full_frames
                    ≡ min (real_frames x.config x.ports (length w.buffer)) x.config.full_frames)))
  unfolding decode
  decode-window clock w h =
      let (_, _, h1) = >>=-eq-ok (observe (x.ports.control clock)) _ h in
      let (mel, filled, h2) = >>=-eq-ok (update_columns x.config x.ports w) _ h1 in
      let (_, _, h3) = >>=-eq-ok (observe (x.ports.control (clock + 1))) _ h2 in
      let (answer, _, h4) = >>=-eq-ok (x.ports.decode clock mel) _ h3 in
      let (_, _, h5) = >>=-eq-ok (observe (x.ports.control (clock + 2))) _ h4 in
      let (_, _, made) =
        >>=-eq-ok (check_duration x.double answer.elapsed answer.encoder_seconds) _ h5 in
      subst
        (λ (c : Candidate (Value x) x.double.order.Value x.Column).
          (c.window.buffer ≡ w.buffer)
          × ((c.window.decoded_samples ≡ length w.buffer)
              × ((update_columns x.config x.ports w ≡ ok c.window.mel)
                  × (c.window.real_full_frames
                      ≡ min (real_frames x.config x.ports (length w.buffer))
                          x.config.full_frames))))
        (ok-injective made) (refl, (refl, (filled, refl)))

  -- A tick on samples decodes all that it keeps, and keeps no more than there were.
  pub tick_window-Settled :
      (progress : StreamProgress) (s : State x) {r : Progress x}
      → tick_window x progress s ≡ ok r
      → Settled (length s.window.buffer) r.0.window
  tick_window-Settled progress s h =
      let n = length s.window.buffer in
      tick_window-Holds x (Settled n) (Settled-closed n) progress s
        (λ c decoded.
          let (buffer, (counted, _)) = decode-window (s.clock + 1) s.window decoded in
          let lengths = ap length buffer in (counted ∙ sym lengths, omega (arith, lengths)))
        h

  abbrev pub CachedIn : Samples (Value x) x.Column → Type 0
  CachedIn w = Cached x.config x.ports w

  cached_restarted :
      0 < x.config.hop_length
      → 0 < x.config.fft_length
      → (w : Samples (Value x) x.Column) (dropped : ℕ) → CachedIn w
      → CachedIn (restarted x dropped w)
  cached_restarted hop fft w dropped held = (
    [],
    drop dropped w.buffer,
    refl,
    fresh_columns-nil x.config x.ports hop,
    omega (arith, real_frames-nil x.config x.ports fft),
  )

  pub tick_window-cached :
      (progress : StreamProgress) (s : State x) {r : Progress x}
      → 0 < x.config.hop_length
      → 0 < x.config.fft_length
      → CachedIn s.window
      → tick_window x progress s ≡ ok r
      → CachedIn r.0.window
  tick_window-cached progress s hop fft cached h =
      tick_window-Holds x CachedIn (cached_restarted hop fft) progress s
        (λ c decoded.
          let (buffer, (_, (filled, is_real))) = decode-window (s.clock + 1) s.window decoded in
          (
            s.window.buffer,
            [],
            buffer ∙ sym (append-nil s.window.buffer),
            sym (update_columns-fresh x.config x.ports s.window hop fft cached) ∙ filled,
            is_real,
          ))
        h
