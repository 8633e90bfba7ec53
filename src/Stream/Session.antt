-- ===== src/Stream/Session.antt =====
-- crates/transcription/src/stream.rs: the session and its
-- ticks. The n-th use of a port is its turn: a tick takes eight of them.
use gigaam_v3_runtime.Base.{
  ℕ, zero, suc, ◌+◌, ◌-◌, ◌*◌, ◌==◌, min, Bool, true, not, ◌&&◌, ◌||◌, Option, none, some, List, [],
  ◌∷◌, ◌++◌, if◌then◌else◌, ltb, leb, take, drop, length, is_empty, get_elem?, Result, ok, err,
  ◌>>=◌, ◌>>◌, refuse_if, ok_or, map_err,
}
use gigaam_v3_runtime.Base.Words.{checked_add, checked_sub}
use gigaam_v3_runtime.Transcript.{TranscriptWord, FinalReason, endpoint, StreamEvent}
use gigaam_v3_runtime.Stitch.{WindowWords, new_window, seam, stitch_aligned}
use gigaam_v3_runtime.Endpoint.{
  Endpoint, after_speech, no_speech, SpeechState, absent, present, detect,
}
use gigaam_v3_runtime.Stream.Config.{
  StreamError, stitching, endpointing, bad_accumulated_duration, decode_count_overflow,
  bad_frame_count, seam_outside, buffer_exceeds_window, decoded_exceeds_buffer,
  buffer_did_not_shrink, PushError, failed, out_of_fuel, Setup, LockPolicy, advisory, commit_stable,
  EndpointSource, blank, vad, StreamProgress, advance, flush_tail,
}
use gigaam_v3_runtime.Stream.Line.{Line, commit, emit}
use gigaam_v3_runtime.Stream.Features.{Window as Samples, Candidate, observe, decode}
use gigaam_v3_runtime.Stream.Words.{
  keep, take_while, drop_while, speech_of, is_detected, is_some, mask, place_words, is_duplicate,
  cut_after,
}

pub record Session (V D C : Type 0) : Type 0 where
  pub window : Samples V C
  pub line : Line V
  pub start_time : V
  -- The words of the current window, at absolute times.
  pub current : List (TranscriptWord V)
  -- Words before a cut that wait for a seam.
  pub previous : Option (WindowWords V)
  pub cut_time : V
  pub decodes : ℕ
  pub decode_seconds : D
  pub encoder_seconds : D
  pub clock : ℕ

module _ (x : Setup) where
  open x use {config, ports}

  abbrev pub Value : Type 0
  Value = x.single.order.Value

  abbrev pub State : Type 0
  State = Session Value x.double.order.Value x.Column

  -- `usize_to_f32(samples) / usize_to_f32(sample_rate)`.
  unfoldable pub seconds_of : ℕ → Value
  seconds_of samples =
      x.single.div (x.single.of_count samples) (x.single.of_count config.sample_rate)

  unfoldable pub now : State → Value
  unfolding seconds_of
  now s = x.single.add s.start_time (seconds_of (length s.window.buffer))

  unfoldable pub open_words : State → List (TranscriptWord Value)
  unfolding is_duplicate
  open_words s = drop_while (is_duplicate x.unicode x.single s.line.committed) (
      keep (λ w. x.single.order.le (x.single.sub s.cut_time (x.single.hundredths 6)) w.start)
        s.current)

  unfoldable pub current_window : State → Result StreamError (WindowWords Value)
  unfolding new_window open_words now
  current_window s = do
    window ← map_err stitching (new_window x.unicode x.single s.start_time (now s))
    ok (record { window = window; words = open_words s })

  unfoldable pub line_after :
      Option (WindowWords Value) → State → Result StreamError (List (TranscriptWord Value))
  unfolding current_window open_words stitch_aligned
  line_after none s = ok (open_words s)
  line_after (some previous) s = do
    current ← current_window s
    map_err stitching
        (stitch_aligned x.unicode x.single (previous ∷ current ∷ []) (x.single.hundredths 25))

  unfoldable pub open_line : State → Result StreamError (List (TranscriptWord Value))
  unfolding line_after
  open_line s = line_after s.previous s

  unfoldable pub commit_words : List (TranscriptWord Value) → State → State
  unfolding commit
  commit_words words s = record s { line = commit words s.line }

  -- The seam of a window that waits, committed.
  unfoldable pub commit_seam : WindowWords Value → State → Result StreamError State
  unfolding current_window seam commit_words cut_after now
  commit_seam previous s = do
    current ← current_window s
    cut ← map_err stitching (
        seam x.unicode x.single previous.words previous.window.end current (x.single.hundredths 25))
    refuse_if (ltb (length previous.words) cut.previous_count) seam_outside
    ok (record (commit_words (take cut.previous_count previous.words) s) {
      cut_time = cut_after x.unicode x.single (now s) (get_elem? current.words cut.current_skip);
    })

  unfoldable pub resolve_previous : Option (WindowWords Value) → State → Result StreamError State
  unfolding commit_seam
  resolve_previous none s = ok s
  resolve_previous (some previous) s = commit_seam previous s

  -- The `take` of the window that waits comes first.
  unfoldable pub resolve_seam : State → Result StreamError State
  unfolding resolve_previous
  resolve_seam s = resolve_previous s.previous (record s { previous = none })

  unfoldable pub reset_buffer : ℕ → State → Result StreamError State
  unfolding seconds_of
  reset_buffer retained_samples s = do
    let samples = length s.window.buffer
    dropped ← ok_or (checked_sub samples (min retained_samples samples)) buffer_exceeds_window
    let kept = drop dropped s.window.buffer
    ok (record s {
      start_time = x.single.add s.start_time (seconds_of dropped);
      window = record {
        buffer = kept;
        mel = config.noise_mel;
        real_full_frames = 0;
        decoded_samples = length kept;
      };
      current = [];
    })

  vad_frame_rate : Value
  vad_frame_rate = x.single.div (x.single.of_count 125) (x.single.of_count 4)

  detect_in : List Bool → ℕ → Value → SpeechState → Result StreamError Endpoint
  unfolding detect
  detect_in silence real_frames frame_rate speech = map_err endpointing (
      detect x.single.order (λ frames rate. x.single.div (x.single.of_count frames) rate)
        config.rules silence real_frames frame_rate speech)

  unfoldable pub find_endpoint :
      EndpointSource → ℕ → List Value → List Bool → ℕ → SpeechState → Result StreamError Endpoint
  unfolding detect_in mask vad_frame_rate observe
  find_endpoint vad clock buffer silence upto speech = do
    observe (ports.control clock)
    probabilities ← ports.probabilities clock buffer
    observe (ports.control (clock + 1))
    silence_mask ← mask x.unicode x.single probabilities config.vad_threshold
    detect_in silence_mask (length silence_mask) vad_frame_rate speech
  find_endpoint blank clock buffer silence upto speech =
      detect_in silence upto config.frame_rate speech

  unfoldable pub commit_decode :
      Candidate Value x.double.order.Value x.Column → State → Result StreamError State
  commit_decode candidate s = do
    let decode_seconds = x.double.add s.decode_seconds candidate.elapsed
    let encoder_seconds = x.double.add s.encoder_seconds candidate.encoder_seconds
    refuse_if
        (not (x.double.order.is_finite decode_seconds)
          || not (x.double.order.is_finite encoder_seconds))
        bad_accumulated_duration
    decodes ← ok_or (checked_add s.decodes 1) decode_count_overflow
    ok (record s {
      window = candidate.window;
      decode_seconds = decode_seconds;
      encoder_seconds = encoder_seconds;
      decodes = decodes;
    })

  unfoldable pub is_full : State → Bool
  is_full s = leb config.full_samples (length s.window.buffer)

  unfoldable pub resolves_seam : StreamProgress → Endpoint → State → Bool
  unfolding is_detected is_full seconds_of
  resolves_seam flush_tail found s = true
  resolves_seam advance found s =
      x.single.order.le (x.single.add config.overlap_sec config.seam_after_sec)
        (seconds_of (length s.window.buffer))
      || (is_detected found || is_full s)

  unfoldable pub lock_words : List (TranscriptWord Value) → Value → State → State
  unfolding commit_words
  lock_words [] lock_time s = s
  lock_words (w ∷ ws) lock_time s = record (commit_words (w ∷ ws) s) {
    cut_time = x.single.maximum s.cut_time lock_time;
  }

  -- The stable words of the window, committed where the policy asks for it and no seam waits.
  unfoldable pub lock_stable : LockPolicy → State → State
  unfolding lock_words open_words is_some now
  lock_stable advisory s = s
  lock_stable commit_stable s =
      let lock_time = x.single.sub (now s) config.horizon_sec in
      if is_some s.previous
      then s
      else lock_words (take_while (λ w. x.single.order.lt w.start lock_time) (open_words s))
          lock_time s

  -- The session with the events of one step.
  abbrev pub Progress : Type 0
  Progress = State × List (StreamEvent Value)

  unfoldable pub emit_words :
      List (TranscriptWord Value) → Option FinalReason → State → Result StreamError Progress
  unfolding emit now
  emit_words open_words reason s = do
    sent ← emit x.single config.horizon_sec open_words (now s) reason s.line
    ok (record s { line = sent.line }, sent.events)

  -- `reset_buffer`, the cut at the new start.
  unfoldable pub restart : ℕ → Progress → Result StreamError Progress
  unfolding reset_buffer
  restart retained r = do
    next ← reset_buffer retained r.0
    ok (record next { cut_time = next.start_time }, r.1)

  -- The utterance ends: everything open is committed.
  unfoldable pub end_utterance :
      ℕ → List (TranscriptWord Value) → State → Result StreamError Progress
  unfolding commit_words emit_words restart
  end_utterance retained open_words s = do
    sent ← emit_words [] (some endpoint) (commit_words open_words s)
    restart retained sent

  -- The buffer starts again, nothing is committed.
  unfoldable pub start_again : ℕ → List (TranscriptWord Value) → State → Result StreamError Progress
  unfolding emit_words restart
  start_again retained open_words s = do sent ← emit_words open_words none s; restart retained sent

  -- The window is full: its words wait for a seam with the next one.
  unfoldable pub cut_window : List (TranscriptWord Value) → State → Result StreamError Progress
  unfolding emit_words new_window reset_buffer now
  cut_window open_words s = do
    sent ← emit_words open_words none s
    window ← map_err stitching (new_window x.unicode x.single s.start_time (now s))
    next ←
        reset_buffer config.overlap_samples
          (record sent.0 { previous = some (record { window = window; words = open_words }) })
    ok (next, sent.1)

  unfoldable pub finish_tick :
      StreamProgress
      → Endpoint
      → SpeechState
      → List (TranscriptWord Value)
      → State
      → Result StreamError Progress
  unfolding end_utterance start_again cut_window is_full emit_words
  finish_tick flush_tail found present open_words s = end_utterance 0 open_words s
  finish_tick flush_tail found absent open_words s = start_again 0 open_words s
  finish_tick advance after_speech present open_words s =
      end_utterance config.retained_silence_samples open_words s
  finish_tick advance no_speech speech open_words s =
      start_again config.retained_silence_samples open_words s
  finish_tick advance found speech open_words s =
      if is_full s then cut_window open_words s else emit_words open_words none s

  unfoldable pub resolve_due : StreamProgress → Endpoint → State → Result StreamError State
  unfolding resolves_seam resolve_seam
  resolve_due progress found s =
      if is_some s.previous && resolves_seam progress found s then resolve_seam s else ok s

  -- What `tick` does once the candidate is accepted.
  unfoldable pub advance_line :
      StreamProgress → Endpoint → SpeechState → State → Result StreamError Progress
  unfolding resolve_due lock_stable open_line finish_tick
  advance_line progress found speech s = do
    resolved ← resolve_due progress found s
    let locked = lock_stable config.lock_policy resolved
    open_words ← open_line locked
    finish_tick progress found speech open_words locked

  -- `tick` on a buffer that is not empty.
  unfoldable pub tick_window : StreamProgress → State → Result StreamError Progress
  unfolding seconds_of decode place_words speech_of find_endpoint commit_decode advance_line observe
  tick_window progress s = do
    let length_seconds = seconds_of (length s.window.buffer)
    candidate ← decode x.double config ports (s.clock + 1) s.window
    observe (ports.control (s.clock + 4))
    words ← place_words x.unicode x.single length_seconds s.start_time candidate.words
    frames ← ok_or (x.single.trunc (x.single.mul length_seconds config.frame_rate)) bad_frame_count
    let speech = speech_of s.previous words
    found ←
        find_endpoint config.endpoint_source (s.clock + 5) s.window.buffer candidate.silence
          (min frames candidate.output_frames) speech
    accepted ← commit_decode candidate s
    advance_line progress found speech (record accepted { current = words; clock = s.clock + 8 })

  unfoldable pub tick : StreamProgress → State → Result StreamError Progress
  unfolding tick_window observe
  tick progress s = do
    observe (ports.control s.clock)
    (if is_empty s.window.buffer
        then ok (record s { clock = s.clock + 1 }, [])
        else tick_window progress s)

  -- `flush`.
  unfoldable pub flush : State → Result StreamError Progress
  unfolding tick
  flush s = tick flush_tail s

  -- The samples that the next turn of `push` takes.
  unfoldable pub take_of : ℕ → State → Result StreamError ℕ
  take_of remaining s = do
    room ← ok_or (checked_sub config.full_samples (length s.window.buffer)) buffer_exceeds_window
    unprocessed ←
        ok_or (checked_sub (length s.window.buffer) s.window.decoded_samples) decoded_exceeds_buffer
    ok (min (min remaining room) (config.step_samples - unprocessed))

  unfoldable pub extend : List Value → State → State
  extend samples s = record s { window = record s.window { buffer = s.window.buffer ++ samples } }

  unfoldable pub tick_if_due : State → Result StreamError Progress
  unfolding is_full tick
  tick_if_due s = do
    grown ←
        ok_or (checked_sub (length s.window.buffer) s.window.decoded_samples) decoded_exceeds_buffer
    if is_full s || leb config.step_samples grown then tick advance s else ok (s, [])

  -- One turn of the loop of `push`.
  unfoldable pub push_turn : ℕ → List Value → State → Result StreamError Progress
  unfolding extend tick_if_due is_full
  push_turn count remaining s = do
    r ← tick_if_due (extend (take count remaining) s)
    refuse_if (count == 0 && is_full r.0) buffer_did_not_shrink
    ok r

  unfoldable pub push_loop :
      ℕ → List Value → List (StreamEvent Value) → State → Result PushError Progress
  unfolding take_of push_turn
  push_loop fuel [] events s = ok (s, events)
  push_loop zero (sample ∷ rest) events s = err out_of_fuel
  push_loop (suc fuel) (sample ∷ rest) events s = do
    count ← map_err failed (take_of (length (sample ∷ rest)) s)
    r ← map_err failed (push_turn count (sample ∷ rest) s)
    push_loop fuel (drop count (sample ∷ rest)) (events ++ r.1) r.0

  unfoldable pub push : List Value → State → Result PushError Progress
  unfolding push_loop
  push samples s = push_loop (2 * length samples + 1) samples [] s
