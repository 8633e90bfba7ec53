-- ===== src/Stream/Replay.antt =====
-- A tick, `push` and `flush` keep the invariant, and their events carry the client's line along.
use gigaam_v3_runtime.Base.{
  ℕ, zero, suc, ◌+◌, ◌*◌, ◌≡◌, refl, subst, ap, sym, ◌==◌, ◌&&◌, ◌||◌, not, none, List, [], ◌∷◌,
  ◌++◌, if◌then◌else◌, leb, take, drop, length, is_empty, min, ok, >>=-eq-ok, ok-injective,
  if-eq-ok, ok_or, map_err, map_err-eq-ok, refuse_if, inl, inr,
}
use gigaam_v3_runtime.Base.Words.{checked_sub, checked_add}
use gigaam_v3_runtime.Transcript.{TranscriptWord, StreamEvent}
use gigaam_v3_runtime.Endpoint.{
  Endpoint, none_yet, after_speech, no_speech, SpeechState, absent, present,
}
use gigaam_v3_runtime.Stream.Config.{
  failed, bad_accumulated_duration, decode_count_overflow, bad_frame_count, decoded_exceeds_buffer,
  buffer_did_not_shrink, Setup, StreamProgress, advance, flush_tail,
}
use gigaam_v3_runtime.Stream.Line.{Line}
use gigaam_v3_runtime.Stream.Emission.{GoodLine}
use gigaam_v3_runtime.Stream.Patches.{Sound, Sound-append}
use gigaam_v3_runtime.Stream.Features.{Candidate, decode, observe}
use gigaam_v3_runtime.Stream.Times.{place_words-times}
use gigaam_v3_runtime.Stream.Tracking.{
  Times, PreviousHasTimes, GoodSession, Tracked, TracksTo, Kept, resolve_due-Kept, lock_stable-Kept,
  line_after-Times, emit_words-tracked, end_utterance-tracked, start_again-tracked,
  cut_window-tracked,
}
use gigaam_v3_runtime.Stream.Session.{
  State, Progress, Value, seconds_of, find_endpoint, commit_decode, resolve_due, lock_stable,
  open_line, cut_window, emit_words, is_full, finish_tick, advance_line, tick_window, tick, flush,
  take_of, extend, tick_if_due, push_turn, push_loop, push,
}
use gigaam_v3_runtime.Stream.Words.{place_words, speech_of}

module _ (x : Setup) where
  finish_open-tracked :
      (words : List (TranscriptWord (Value x))) (s : State x) {r : Progress x}
      → GoodSession x s
      → Times x words
      → (if is_full x s then cut_window x words s else emit_words x words none s) ≡ ok r
      → TracksTo x s r
  finish_open-tracked words s good times h =
      elim (if-eq-ok (is_full x s) (cut_window x words s) (emit_words x words none s) h) [
        | inl k ↦ cut_window-tracked x words s good times k.1
        | inr k ↦ emit_words-tracked x words none s good times k.1
      ]

  finish_tick-tracked :
      (progress : StreamProgress) (found : Endpoint) (speech : SpeechState)
      (words : List (TranscriptWord (Value x))) (s : State x) {r : Progress x}
      → GoodSession x s
      → Times x words
      → finish_tick x progress found speech words s ≡ ok r
      → TracksTo x s r
  unfolding finish_tick
  finish_tick-tracked flush_tail found present words s good times h =
      end_utterance-tracked x 0 words s good times h
  finish_tick-tracked flush_tail found absent words s good times h =
      start_again-tracked x 0 words s good times h
  finish_tick-tracked advance after_speech present words s good times h =
      end_utterance-tracked x x.config.retained_silence_samples words s good times h
  finish_tick-tracked advance no_speech speech words s good times h =
      start_again-tracked x x.config.retained_silence_samples words s good times h
  finish_tick-tracked advance after_speech absent words s good times h =
      finish_open-tracked words s good times h
  finish_tick-tracked advance none_yet speech words s good times h =
      finish_open-tracked words s good times h

  -- Steps that emit nothing come before.
  Kept-TracksTo : (s t : State x) (r : Progress x) → Kept x s t → TracksTo x t r → TracksTo x s r
  Kept-TracksTo s t r (line, (final_sent, _)) (sound, good) = (
    subst (λ l. Sound l s.line.final_sent r.1 r.0.line.emitted r.0.line.final_sent) (sym line)
        (subst (λ n. Sound t.line.emitted n r.1 r.0.line.emitted r.0.line.final_sent)
          (sym final_sent) sound),
    good,
  )

  Kept-good : (s t : State x) → Kept x s t → GoodSession x t
  Kept-good s t kept = kept.1.1

  pub advance_line-tracked :
      (progress : StreamProgress) (found : Endpoint) (speech : SpeechState) (s : State x)
      {r : Progress x}
      → GoodSession x s
      → advance_line x progress found speech s ≡ ok r
      → TracksTo x s r
  unfolding advance_line open_line
  advance_line-tracked progress found speech s {r = r} good h =
      let (t, e, h1) = >>=-eq-ok (resolve_due x progress found s) _ h in
      let t' = lock_stable x x.config.lock_policy t in
      let (words, e', h2) = >>=-eq-ok (open_line x t') _ h1 in
      let kept = resolve_due-Kept x progress found s good e in
      let good_t = Kept-good s t kept in
      let kept' = lock_stable-Kept x x.config.lock_policy t good_t in
      let good_t' = Kept-good t t' kept' in
      Kept-TracksTo s t r kept (
        Kept-TracksTo t t' r kept' (
          finish_tick-tracked progress found speech words t' good_t'
            (line_after-Times x t'.previous t' good_t' good_t'.1.1 e') h2))

  pub commit_decode-fields :
      (candidate : Candidate (Value x) x.double.order.Value x.Column) (s : State x) {t : State x}
      → commit_decode x candidate s ≡ ok t
      → (t.line ≡ s.line) × ((t.previous ≡ s.previous) × (t.window ≡ candidate.window))
  unfolding commit_decode
  commit_decode-fields candidate s h =
      let (_, _, h1) =
        >>=-eq-ok
          (refuse_if
            (not (x.double.order.is_finite (x.double.add s.decode_seconds candidate.elapsed))
              || not (
                  x.double.order.is_finite
                    (x.double.add s.encoder_seconds candidate.encoder_seconds)))
            bad_accumulated_duration)
          _ h in
      let (_, _, made) = >>=-eq-ok (ok_or (checked_add s.decodes 1) decode_count_overflow) _ h1 in
      subst
        (λ (t : State x).
          (t.line ≡ s.line) × ((t.previous ≡ s.previous) × (t.window ≡ candidate.window)))
        (ok-injective made) (refl, (refl, refl))

  pub tick_window-tracked :
      (progress : StreamProgress) (s : State x) {r : Progress x}
      → GoodSession x s
      → tick_window x progress s ≡ ok r
      → TracksTo x s r
  unfolding tick_window
  tick_window-tracked progress s {r = r} good h =
      let length_seconds = seconds_of x (length s.window.buffer) in
      let (candidate, _, h1) =
        >>=-eq-ok (decode x.double x.config x.ports (s.clock + 1) s.window) _ h in
      let (_, _, h2) = >>=-eq-ok (observe (x.ports.control (s.clock + 4))) _ h1 in
      let (words, placed, h3) =
        >>=-eq-ok (place_words x.unicode x.single length_seconds s.start_time candidate.words) _
          h2 in
      let (frames, _, h4) =
        >>=-eq-ok
          (ok_or (x.single.trunc (x.single.mul length_seconds x.config.frame_rate)) bad_frame_count)
          _ h3 in
      let speech = speech_of s.previous words in
      let (found, _, h5) =
        >>=-eq-ok
          (find_endpoint x x.config.endpoint_source (s.clock + 5) s.window.buffer candidate.silence
            (min frames candidate.output_frames) speech)
          _ h4 in
      let (accepted, e, h6) = >>=-eq-ok (commit_decode x candidate s) _ h5 in
      let (line, (previous, _)) = commit_decode-fields candidate s e in
      let t : State x = record accepted { current = words; clock = s.clock + 8 } in
      let good_t : GoodSession x t = (
        subst (GoodLine x.single) (sym line) good.0,
        (
          place_words-times x.unicode x.single length_seconds s.start_time candidate.words placed,
          subst (PreviousHasTimes x) (sym previous) good.1.1,
        ),
      ) in
      Kept-TracksTo s t r
        (
          ap (λ (l : Line (Value x)). l.emitted) (sym line),
          (ap (λ (l : Line (Value x)). l.final_sent) (sym line), good_t),
        )
        (advance_line-tracked progress found speech t good_t h6)

  still : (s : State x) → GoodSession x s → Tracked x s s []
  still s good = ((refl, (tt, refl)), good)

  pub tick-tracked :
      (progress : StreamProgress) (s : State x) {r : Progress x}
      → GoodSession x s
      → tick x progress s ≡ ok r
      → TracksTo x s r
  unfolding tick
  tick-tracked progress s good h =
      let (_, _, h1) = >>=-eq-ok (observe (x.ports.control s.clock)) _ h in
      let t : State x = record s { clock = s.clock + 1 } in
      elim (if-eq-ok (is_empty s.window.buffer) (ok (t, [])) (tick_window x progress s) h1) [
        | inl k ↦ subst (TracksTo x s) (ok-injective k.1) ((refl, (tt, refl)), good)
        | inr k ↦ tick_window-tracked progress s good k.1
      ]

  tick_if_due-tracked :
      (s : State x) {r : Progress x} → GoodSession x s → tick_if_due x s ≡ ok r → TracksTo x s r
  unfolding tick_if_due
  tick_if_due-tracked s good h =
      let (grown, _, h1) =
        >>=-eq-ok
          (ok_or (checked_sub (length s.window.buffer) s.window.decoded_samples)
            decoded_exceeds_buffer)
          _ h in
      elim (if-eq-ok (is_full x s || leb x.config.step_samples grown) (tick x advance s)
        (ok (s, [])) h1) [
          | inl k ↦ tick-tracked advance s good k.1
          | inr k ↦ subst (TracksTo x s) (ok-injective k.1) (still s good)
        ]

  push_turn-tracked :
      (count : ℕ) (remaining : List (Value x)) (s : State x) {r : Progress x}
      → GoodSession x s
      → push_turn x count remaining s ≡ ok r
      → TracksTo x s r
  unfolding push_turn extend
  push_turn-tracked count remaining s good h =
      let (r, e, h1) = >>=-eq-ok (tick_if_due x (extend x (take count remaining) s)) _ h in
      let (_, _, made) =
        >>=-eq-ok (refuse_if (count == 0 && is_full x r.0) buffer_did_not_shrink) _ h1 in
      subst (TracksTo x s) (ok-injective made)
        (tick_if_due-tracked (extend x (take count remaining) s) good e)

  push_loop-Tracked :
      (fuel : ℕ) (samples : List (Value x)) (events : List (StreamEvent (Value x))) (s t : State x)
      {r : Progress x}
      → Tracked x s t events
      → push_loop x fuel samples events t ≡ ok r
      → TracksTo x s r
  unfolding push_loop
  push_loop-Tracked fuel [] events s t tracked h = subst (TracksTo x s) (ok-injective h) tracked
  push_loop-Tracked zero (sample ∷ rest) events s t tracked h = cc
  push_loop-Tracked (suc fuel) (sample ∷ rest) events s t (sound, good) h =
      let (count, _, h1) = >>=-eq-ok (map_err failed (take_of x (length (sample ∷ rest)) t)) _ h in
      let (r, e, h2) = >>=-eq-ok (map_err failed (push_turn x count (sample ∷ rest) t)) _ h1 in
      let (sound', good') =
        push_turn-tracked count (sample ∷ rest) t good (map_err-eq-ok failed _ e) in
      push_loop-Tracked fuel (drop count (sample ∷ rest)) (events ++ r.1) s r.0
        (Sound-append s.line.emitted s.line.final_sent events r.1 sound sound', good') h2

  -- When `push` succeeds on a session whose words have finite times and whose committed words agree
  -- with what the client holds as final: a client that applies the events to the line before holds
  -- the line after; no patch reaches behind the final frontier sent before it, which only advances;
  -- and the session after is again such a session.
  pub push-tracked :
      (samples : List (Value x)) (s : State x) {r : Progress x}
      → GoodSession x s
      → push x samples s ≡ ok r
      → TracksTo x s r
  unfolding push
  push-tracked samples s good h =
      push_loop-Tracked (2 * length samples + 1) samples [] s s (still s good) h

  -- When `flush` succeeds on a session whose words have finite times and whose committed words agree
  -- with what the client holds as final: a client that applies the events to the line before holds
  -- the line after; no patch reaches behind the final frontier sent before it, which only advances;
  -- and the session after is again such a session.
  pub flush-tracked :
      (s : State x) {r : Progress x} → GoodSession x s → flush x s ≡ ok r → TracksTo x s r
  unfolding flush
  flush-tracked s good h = tick-tracked flush_tail s good h
