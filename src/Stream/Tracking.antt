-- ===== src/Stream/Tracking.antt =====
-- The session and the client: a tick, `push` and `flush` keep the invariant of the session, and
-- their events carry the client's line along.
use gigaam_v3_runtime.Base.{
  ℕ, ◌≡◌, refl, subst, Bool, true, false, ◌&&◌, ltb, Option, none, some, List, [], ◌∷◌, map,
  if◌then◌else◌, take, length, min, All, All-append, All-take, ok, >>=-eq-ok, ok-injective,
  if-eq-ok, map_err-eq-ok, ok_or, map_err, refuse_if, inl, inr,
}
use gigaam_v3_runtime.Base.Words.{checked_sub}
use gigaam_v3_runtime.Transcript.{TranscriptWord, stable, StreamEvent, FinalReason, endpoint}
use gigaam_v3_runtime.Stitch.{WindowWords, new_window, seam}
use gigaam_v3_runtime.Endpoint.{Endpoint}
use gigaam_v3_runtime.Stream.Config.{
  stitching, Setup, seam_outside, buffer_exceeds_window, LockPolicy, advisory, commit_stable,
  StreamProgress,
}
use gigaam_v3_runtime.Stream.Line.{Line, commit, emit}
use gigaam_v3_runtime.Stream.Patches.{Sound, Agree-append, Finite}
use gigaam_v3_runtime.Stream.Emission.{HasTimes, GoodLine, emit-Sound}
use gigaam_v3_runtime.Stream.Times.{
  WindowHasTimes, All-keep, All-take_while, All-drop_while, stitch_aligned-times,
}
use gigaam_v3_runtime.Stream.Session.{
  State, Progress, Value, now, open_words, current_window, commit_words, commit_seam,
  resolve_previous, resolve_seam, resolve_due, line_after, resolves_seam, reset_buffer, lock_words,
  lock_stable, emit_words, restart, end_utterance, start_again, cut_window,
}
use gigaam_v3_runtime.Stream.Words.{is_some}

module _ (x : Setup) where
  abbrev pub Times : List (TranscriptWord (Value x)) → Type 0
  Times = All (HasTimes x.single)

  abbrev pub PreviousHasTimes : Option (WindowWords (Value x)) → Type 0
  PreviousHasTimes none = Unit
  PreviousHasTimes (some w) = WindowHasTimes x.unicode x.single w

  -- The invariant of a session.
  abbrev pub GoodSession : State x → Type 0
  GoodSession s = GoodLine x.single s.line × (Times s.current × PreviousHasTimes s.previous)

  -- A session that follows another by these events.
  abbrev pub Tracked : State x → State x → List (StreamEvent (Value x)) → Type 0
  Tracked s s' events =
      Sound s.line.emitted s.line.final_sent events s'.line.emitted s'.line.final_sent
      × GoodSession s'

  abbrev pub TracksTo : State x → Progress x → Type 0
  TracksTo s r = Tracked s r.0 r.1

  committed-Finite :
      (words : List (TranscriptWord (Value x)))
      → Times words
      → All (Finite x.single) (map (λ w. record { word = w; stability = stable }) words)
  committed-Finite [] h = tt
  committed-Finite (w ∷ ws) h = (h.0, committed-Finite ws h.1)

  commit-GoodLine :
      (words : List (TranscriptWord (Value x))) (l : Line (Value x))
      → Times words
      → GoodLine x.single l
      → GoodLine x.single (commit words l)
  unfolding commit
  commit-GoodLine words l h good = (
    Agree-append x.single l.final_sent l.emitted l.committed _ good.0,
    All-append (Finite x.single) l.committed _ good.1 (committed-Finite words h),
  )

  open_words-Times : (s : State x) → GoodSession s → Times (open_words x s)
  unfolding open_words
  open_words-Times s good =
      All-drop_while (HasTimes x.single) _ _ (All-keep (HasTimes x.single) _ s.current good.1.0)

  current_window-times :
      (s : State x) {w : WindowWords (Value x)}
      → GoodSession s
      → current_window x s ≡ ok w
      → WindowHasTimes x.unicode x.single w
  unfolding current_window
  current_window-times s good h =
      let (_, _, made) =
        >>=-eq-ok (map_err stitching (new_window x.unicode x.single s.start_time (now x s))) _ h in
      subst (WindowHasTimes x.unicode x.single) (ok-injective made) (open_words-Times s good)

  -- Nothing was emitted: the line of the client stands.
  abbrev pub Kept : State x → State x → Type 0
  Kept s s' =
      (s.line.emitted ≡ s'.line.emitted)
      × ((s.line.final_sent ≡ s'.line.final_sent) × GoodSession s')

  commit_seam-Kept :
      (previous : WindowWords (Value x)) (s : State x) {s' : State x}
      → GoodSession s
      → WindowHasTimes x.unicode x.single previous
      → commit_seam x previous s ≡ ok s'
      → Kept s s'
  unfolding commit_seam commit_words
  commit_seam-Kept previous s good times h =
      let (current, _, h1) = >>=-eq-ok (current_window x s) _ h in
      let (cut, _, h2) =
        >>=-eq-ok
          (map_err stitching (
            seam x.unicode x.single previous.words previous.window.end current
              (x.single.hundredths 25)))
          _ h1 in
      let (_, _, made) =
        >>=-eq-ok (refuse_if (ltb (length previous.words) cut.previous_count) seam_outside) _ h2 in
      subst (Kept s) (ok-injective made) (
        refl,
        (
          refl,
          (
            commit-GoodLine (take cut.previous_count previous.words) s.line
                (All-take (HasTimes x.single) cut.previous_count previous.words times) good.0,
            good.1,
          ),
        ),
      )

  resolve_previous-Kept :
      (o : Option (WindowWords (Value x))) (s : State x) {s' : State x}
      → GoodSession s
      → PreviousHasTimes o
      → resolve_previous x o s ≡ ok s'
      → Kept s s'
  unfolding resolve_previous
  resolve_previous-Kept none s good times h = subst (Kept s) (ok-injective h) (refl, (refl, good))
  resolve_previous-Kept (some previous) s good times h = commit_seam-Kept previous s good times h

  pub resolve_due-Kept :
      (progress : StreamProgress) (found : Endpoint) (s : State x) {s' : State x}
      → GoodSession s
      → resolve_due x progress found s ≡ ok s'
      → Kept s s'
  unfolding resolve_due resolve_seam
  resolve_due-Kept progress found s {s' = s'} good h =
      elim (if-eq-ok (is_some s.previous && resolves_seam x progress found s) (resolve_seam x s)
        (ok s) h) [
          | inl k ↦
              resolve_previous-Kept s.previous (record s { previous = none })
                (good.0, (good.1.0, tt)) good.1.1 k.1
          | inr k ↦ subst (Kept s) (ok-injective k.1) (refl, (refl, good))
        ]

  Kept-if : (b : Bool) (s t t' : State x) → Kept s t → Kept s t' → Kept s (if b then t else t')
  Kept-if true s t t' h k = h
  Kept-if false s t t' h k = k

  lock_words-Kept :
      (words : List (TranscriptWord (Value x))) (lock_time : Value x) (s : State x)
      → GoodSession s
      → Times words
      → Kept s (lock_words x words lock_time s)
  unfolding lock_words commit_words
  lock_words-Kept [] lock_time s good times = (refl, (refl, good))
  lock_words-Kept (w ∷ ws) lock_time s good times =
      (refl, (refl, (commit-GoodLine (w ∷ ws) s.line times good.0, good.1)))

  pub lock_stable-Kept :
      (policy : LockPolicy) (s : State x) → GoodSession s → Kept s (lock_stable x policy s)
  unfolding lock_stable
  lock_stable-Kept advisory s good = (refl, (refl, good))
  lock_stable-Kept commit_stable s good =
      Kept-if (is_some s.previous) s s _ (refl, (refl, good))
        (lock_words-Kept _ _ s good
          (All-take_while (HasTimes x.single) _ _ (open_words-Times s good)))

  pub line_after-Times :
      (o : Option (WindowWords (Value x))) (s : State x) {words : List (TranscriptWord (Value x))}
      → GoodSession s
      → PreviousHasTimes o
      → line_after x o s ≡ ok words
      → Times words
  unfolding line_after
  line_after-Times none s good times h = subst Times (ok-injective h) (open_words-Times s good)
  line_after-Times (some previous) s good times h =
      let (current, e, made) = >>=-eq-ok (current_window x s) _ h in
      stitch_aligned-times x.unicode x.single (previous ∷ current ∷ []) (x.single.hundredths 25)
        (times, (current_window-times s good e, tt)) (map_err-eq-ok stitching _ made)

  pub emit_words-tracked :
      (words : List (TranscriptWord (Value x))) (reason : Option FinalReason) (s : State x)
      {r : Progress x}
      → GoodSession s
      → Times words
      → emit_words x words reason s ≡ ok r
      → TracksTo s r
  unfolding emit_words
  emit_words-tracked words reason s good times h =
      let (sent, e, made) =
        >>=-eq-ok (emit x.single x.config.horizon_sec words (now x s) reason s.line) _ h in
      let (sound, (line, _)) =
        emit-Sound x.single x.config.horizon_sec words (now x s) reason s.line good.0 times e in
      subst (TracksTo s) (ok-injective made) (sound, (line, good.1))

  reset_buffer-Tracked :
      (retained : ℕ) (s t : State x) (events : List (StreamEvent (Value x))) {t' : State x}
      → Tracked s t events
      → reset_buffer x retained t ≡ ok t'
      → Tracked s t' events
  unfolding reset_buffer
  reset_buffer-Tracked retained s t events (sound, (line, (_, previous))) h =
      let samples = length t.window.buffer in
      let (_, _, made) =
        >>=-eq-ok (ok_or (checked_sub samples (min retained samples)) buffer_exceeds_window) _ h in
      subst (λ t'. Tracked s t' events) (ok-injective made) (sound, (line, (tt, previous)))

  restart-tracked :
      (retained : ℕ) (s : State x) (r : Progress x) {r' : Progress x}
      → TracksTo s r
      → restart x retained r ≡ ok r'
      → TracksTo s r'
  unfolding restart
  restart-tracked retained s r tracked h =
      let (next, e, made) = >>=-eq-ok (reset_buffer x retained r.0) _ h in
      subst (TracksTo s) (ok-injective made) (reset_buffer-Tracked retained s r.0 r.1 tracked e)

  pub end_utterance-tracked :
      (retained : ℕ) (words : List (TranscriptWord (Value x))) (s : State x) {r : Progress x}
      → GoodSession s
      → Times words
      → end_utterance x retained words s ≡ ok r
      → TracksTo s r
  unfolding end_utterance commit_words
  end_utterance-tracked retained words s good times h =
      let s' : State x = record s { line = commit words s.line } in
      let (sent, e, rest) = >>=-eq-ok (emit_words x [] (some endpoint) s') _ h in
      restart-tracked retained s sent
        (emit_words-tracked [] (some endpoint) s'
          (commit-GoodLine words s.line times good.0, good.1) tt e)
        rest

  pub start_again-tracked :
      (retained : ℕ) (words : List (TranscriptWord (Value x))) (s : State x) {r : Progress x}
      → GoodSession s
      → Times words
      → start_again x retained words s ≡ ok r
      → TracksTo s r
  unfolding start_again
  start_again-tracked retained words s good times h =
      let (sent, e, rest) = >>=-eq-ok (emit_words x words none s) _ h in
      restart-tracked retained s sent (emit_words-tracked words none s good times e) rest

  pub cut_window-tracked :
      (words : List (TranscriptWord (Value x))) (s : State x) {r : Progress x}
      → GoodSession s
      → Times words
      → cut_window x words s ≡ ok r
      → TracksTo s r
  unfolding cut_window
  cut_window-tracked words s good times h =
      let (sent, e, h1) = >>=-eq-ok (emit_words x words none s) _ h in
      let (window, _, h2) =
        >>=-eq-ok (map_err stitching (new_window x.unicode x.single s.start_time (now x s))) _ h1 in
      let cut : State x = record sent.0 {
        previous = some (record { window = window; words = words });
      } in
      let (next, e', made) = >>=-eq-ok (reset_buffer x x.config.overlap_samples cut) _ h2 in
      let (sound, (line, (current, _))) = emit_words-tracked words none s good times e in
      subst (TracksTo s) (ok-injective made) (
        reset_buffer-Tracked x.config.overlap_samples s cut sent.1 (sound, (line, (current, times)))
          e')
