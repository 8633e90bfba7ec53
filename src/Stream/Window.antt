-- ===== src/Stream/Window.antt =====
-- The samples of a session: what a decode establishes of them lasts until the end of its tick.
use gigaam_v3_runtime.Base.{
  ℕ, ◌+◌, ◌≡◌, refl, subst, sym, ◌∙◌, Bool, true, false, ◌&&◌, Option, none, some, List, [], ◌∷◌,
  if◌then◌else◌, ltb, drop, length, min, ok, >>=-eq-ok, ok-injective, if-eq-ok, ok_or, map_err,
  refuse_if, inl, inr,
}
use gigaam_v3_runtime.Base.Words.{checked_sub}
use gigaam_v3_runtime.Transcript.{TranscriptWord, FinalReason, endpoint}
use gigaam_v3_runtime.Stitch.{WindowWords, new_window, seam}
use gigaam_v3_runtime.Endpoint.{
  Endpoint, none_yet, after_speech, no_speech, SpeechState, absent, present,
}
use gigaam_v3_runtime.Stream.Config.{
  stitching, seam_outside, bad_frame_count, buffer_exceeds_window, Setup, LockPolicy, advisory,
  commit_stable, StreamProgress, advance, flush_tail,
}
use gigaam_v3_runtime.Stream.Line.{emit}
use gigaam_v3_runtime.Stream.Features.{Window as Samples, Candidate, observe, decode}
use gigaam_v3_runtime.Stream.Replay.{commit_decode-fields}
use gigaam_v3_runtime.Stream.Session.{
  State, Progress, Value, now, seconds_of, find_endpoint, commit_decode, current_window,
  commit_words, commit_seam, resolve_previous, resolve_seam, resolve_due, resolves_seam,
  reset_buffer, lock_words, lock_stable, open_line, emit_words, restart, end_utterance, start_again,
  cut_window, is_full, finish_tick, advance_line, tick_window,
}
use gigaam_v3_runtime.Stream.Words.{place_words, speech_of, is_some}

module _ (x : Setup) where
  -- The window behind `reset_buffer`.
  abbrev pub restarted : ℕ → Samples (Value x) x.Column → Samples (Value x) x.Column
  restarted dropped w = record {
    buffer = drop dropped w.buffer;
    mel = x.config.noise_mel;
    real_full_frames = 0;
    decoded_samples = length (drop dropped w.buffer);
  }

  abbrev SameWindow : State x → State x → Type 0
  SameWindow s t = t.window ≡ s.window

  commit_seam-window :
      (previous : WindowWords (Value x)) (s : State x) {t : State x}
      → commit_seam x previous s ≡ ok t
      → SameWindow s t
  unfolding commit_seam commit_words
  commit_seam-window previous s h =
      let (current, _, h1) = >>=-eq-ok (current_window x s) _ h in
      let (cut, _, h2) =
        >>=-eq-ok
          (map_err stitching (
            seam x.unicode x.single previous.words previous.window.end current
              (x.single.hundredths 25)))
          _ h1 in
      let (_, _, made) =
        >>=-eq-ok (refuse_if (ltb (length previous.words) cut.previous_count) seam_outside) _ h2 in
      subst (SameWindow s) (ok-injective made) refl

  resolve_previous-window :
      (o : Option (WindowWords (Value x))) (s : State x) {t : State x}
      → resolve_previous x o s ≡ ok t
      → SameWindow s t
  unfolding resolve_previous
  resolve_previous-window none s h = subst (SameWindow s) (ok-injective h) refl
  resolve_previous-window (some previous) s h = commit_seam-window previous s h

  resolve_due-window :
      (progress : StreamProgress) (found : Endpoint) (s : State x) {t : State x}
      → resolve_due x progress found s ≡ ok t
      → SameWindow s t
  unfolding resolve_due resolve_seam
  resolve_due-window progress found s h =
      elim (if-eq-ok (is_some s.previous && resolves_seam x progress found s) (resolve_seam x s)
        (ok s) h) [
          | inl k ↦ resolve_previous-window s.previous (record s { previous = none }) k.1
          | inr k ↦ subst (SameWindow s) (ok-injective k.1) refl
        ]

  commit_words-window :
      (words : List (TranscriptWord (Value x))) (s : State x)
      → SameWindow s (commit_words x words s)
  unfolding commit_words
  commit_words-window words s = refl

  lock_words-window :
      (words : List (TranscriptWord (Value x))) (lock_time : Value x) (s : State x)
      → SameWindow s (lock_words x words lock_time s)
  unfolding lock_words commit_words
  lock_words-window [] lock_time s = refl
  lock_words-window (w ∷ ws) lock_time s = refl

  same_if :
      (b : Bool) (s t t' : State x)
      → SameWindow s t
      → SameWindow s t'
      → SameWindow s (if b then t else t')
  same_if true s t t' h k = h
  same_if false s t t' h k = k

  lock_stable-window : (policy : LockPolicy) (s : State x) → SameWindow s (lock_stable x policy s)
  unfolding lock_stable
  lock_stable-window advisory s = refl
  lock_stable-window commit_stable s =
      same_if (is_some s.previous) s s _ refl (lock_words-window _ _ s)

  emit_words-window :
      (words : List (TranscriptWord (Value x))) (reason : Option FinalReason) (s : State x)
      {r : Progress x}
      → emit_words x words reason s ≡ ok r
      → SameWindow s r.0
  unfolding emit_words
  emit_words-window words reason s h =
      let (sent, _, made) =
        >>=-eq-ok (emit x.single x.config.horizon_sec words (now x s) reason s.line) _ h in
      subst (λ (r : Progress x). SameWindow s r.0) (ok-injective made) refl

  -- What a decode establishes of the window and a reset keeps.
  module _ (P : Samples (Value x) x.Column → Type 0)
      (closed : (w : Samples (Value x) x.Column) (dropped : ℕ)
        → P w
        → P (restarted dropped w)) where
    abbrev Holds : Progress x → Type 0
    Holds r = P r.0.window

    hold_same : (s t : State x) → SameWindow s t → P s.window → P t.window
    hold_same s t h held = subst P (sym h) held

    reset_buffer-holds :
        (retained : ℕ) (s : State x) {t : State x}
        → P s.window
        → reset_buffer x retained s ≡ ok t
        → P t.window
    unfolding reset_buffer
    reset_buffer-holds retained s held h =
        let samples = length s.window.buffer in
        let (dropped, _, made) =
          >>=-eq-ok (ok_or (checked_sub samples (min retained samples)) buffer_exceeds_window) _
            h in
        subst (λ (t : State x). P t.window) (ok-injective made) (closed s.window dropped held)

    restart-Holds :
        (retained : ℕ) (r : Progress x) {r' : Progress x}
        → Holds r
        → restart x retained r ≡ ok r'
        → Holds r'
    unfolding restart
    restart-Holds retained r held h =
        let (next, e, made) = >>=-eq-ok (reset_buffer x retained r.0) _ h in
        subst Holds (ok-injective made) (reset_buffer-holds retained r.0 held e)

    end_utterance-Holds :
        (retained : ℕ) (words : List (TranscriptWord (Value x))) (s : State x) {r : Progress x}
        → P s.window
        → end_utterance x retained words s ≡ ok r
        → Holds r
    unfolding end_utterance
    end_utterance-Holds retained words s held h =
        let (sent, e, rest) =
          >>=-eq-ok (emit_words x [] (some endpoint) (commit_words x words s)) _ h in
        let same =
          emit_words-window [] (some endpoint) (commit_words x words s) e
          ∙ commit_words-window words s in
        restart-Holds retained sent (hold_same s sent.0 same held) rest

    start_again-Holds :
        (retained : ℕ) (words : List (TranscriptWord (Value x))) (s : State x) {r : Progress x}
        → P s.window
        → start_again x retained words s ≡ ok r
        → Holds r
    unfolding start_again
    start_again-Holds retained words s held h =
        let (sent, e, rest) = >>=-eq-ok (emit_words x words none s) _ h in
        restart-Holds retained sent (hold_same s sent.0 (emit_words-window words none s e) held)
          rest

    cut_window-Holds :
        (words : List (TranscriptWord (Value x))) (s : State x) {r : Progress x}
        → P s.window
        → cut_window x words s ≡ ok r
        → Holds r
    unfolding cut_window
    cut_window-Holds words s held h =
        let (sent, e, h1) = >>=-eq-ok (emit_words x words none s) _ h in
        let (window, _, h2) =
          >>=-eq-ok (map_err stitching (new_window x.unicode x.single s.start_time (now x s))) _
            h1 in
        let cut : State x = record sent.0 {
          previous = some (record { window = window; words = words });
        } in
        let (next, e', made) = >>=-eq-ok (reset_buffer x x.config.overlap_samples cut) _ h2 in
        subst Holds (ok-injective made) (
          reset_buffer-holds x.config.overlap_samples cut
            (hold_same s sent.0 (emit_words-window words none s e) held) e')

    finish_open-Holds :
        (words : List (TranscriptWord (Value x))) (s : State x) {r : Progress x}
        → P s.window
        → (if is_full x s then cut_window x words s else emit_words x words none s) ≡ ok r
        → Holds r
    finish_open-Holds words s {r = r} held h =
        elim (if-eq-ok (is_full x s) (cut_window x words s) (emit_words x words none s) h) [
          | inl k ↦ cut_window-Holds words s held k.1
          | inr k ↦ hold_same s r.0 (emit_words-window words none s k.1) held
        ]

    finish_tick-Holds :
        (progress : StreamProgress) (found : Endpoint) (speech : SpeechState)
        (words : List (TranscriptWord (Value x))) (s : State x) {r : Progress x}
        → P s.window
        → finish_tick x progress found speech words s ≡ ok r
        → Holds r
    unfolding finish_tick
    finish_tick-Holds flush_tail found present words s held h = end_utterance-Holds 0 words s held h
    finish_tick-Holds flush_tail found absent words s held h = start_again-Holds 0 words s held h
    finish_tick-Holds advance after_speech present words s held h =
        end_utterance-Holds x.config.retained_silence_samples words s held h
    finish_tick-Holds advance no_speech speech words s held h =
        start_again-Holds x.config.retained_silence_samples words s held h
    finish_tick-Holds advance after_speech absent words s held h = finish_open-Holds words s held h
    finish_tick-Holds advance none_yet speech words s held h = finish_open-Holds words s held h

    -- A tick on samples.
    pub tick_window-Holds :
        (progress : StreamProgress) (s : State x) {r : Progress x}
        → ((c : Candidate (Value x) x.double.order.Value x.Column)
            → decode x.double x.config x.ports (s.clock + 1) s.window ≡ ok c
            → P c.window)
        → tick_window x progress s ≡ ok r
        → Holds r
    unfolding tick_window advance_line
    tick_window-Holds progress s {r = r} established h =
        let length_seconds = seconds_of x (length s.window.buffer) in
        let (candidate, decoded, h1) =
          >>=-eq-ok (decode x.double x.config x.ports (s.clock + 1) s.window) _ h in
        let (_, _, h2) = >>=-eq-ok (observe (x.ports.control (s.clock + 4))) _ h1 in
        let (words, placed, h3) =
          >>=-eq-ok (place_words x.unicode x.single length_seconds s.start_time candidate.words) _
            h2 in
        let (frames, _, h4) =
          >>=-eq-ok
            (ok_or (x.single.trunc (x.single.mul length_seconds x.config.frame_rate))
              bad_frame_count)
            _ h3 in
        let speech = speech_of s.previous words in
        let (found, _, h5) =
          >>=-eq-ok
            (find_endpoint x x.config.endpoint_source (s.clock + 5) s.window.buffer
              candidate.silence (min frames candidate.output_frames) speech)
            _ h4 in
        let (accepted, e, h6) = >>=-eq-ok (commit_decode x candidate s) _ h5 in
        let (_, (_, taken)) = commit_decode-fields x candidate s e in
        let t : State x = record accepted { current = words; clock = s.clock + 8 } in
        let held : P t.window = subst P (sym taken) (established candidate decoded) in
        let (resolved, e1, h7) = >>=-eq-ok (resolve_due x progress found t) _ h6 in
        let locked = lock_stable x x.config.lock_policy resolved in
        let (line, _, h8) = >>=-eq-ok (open_line x locked) _ h7 in
        let same =
          lock_stable-window x.config.lock_policy resolved
          ∙ resolve_due-window progress found t e1 in
        finish_tick-Holds progress found speech line locked (hold_same t locked same held) h8
