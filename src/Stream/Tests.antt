-- ===== src/Stream/Tests.antt =====
-- A session on hundredths of a second that hears the word "ab" in every window.
use gigaam_v3_runtime.Base.{false, ℕ, ◌≡◌, refl, ◌≢◌, arith, List, [], ◌∷◌, Result, ok, err, none}
use gigaam_v3_runtime.Base.Arithmetic.{centiseconds}
use gigaam_v3_runtime.Stitch.Tests.{latin}
use gigaam_v3_runtime.Execution.{running}
use gigaam_v3_runtime.Base.Words.{checked_sub, checked_mul, checked_add}
use gigaam_v3_runtime.Endpoint.{validate, trailing_silence}
use gigaam_v3_runtime.Stream.Line.{same}
use gigaam_v3_runtime.Transcript.{
  stable, final, is_blank, same_text, normalize_word, finite_nonnegative,
}
use gigaam_v3_runtime.Stream.Config.{
  Frontend, Setup, StreamConfig, Ports, out_of_fuel, RecognizedWord, commit_stable, blank,
}
use gigaam_v3_runtime.Stream.Session.{State, Progress, extend, push, flush}
use gigaam_v3_runtime.Stream.Line.{Emission, emit}
use gigaam_v3_runtime.Stream.Emitting.{emit-ok}
use gigaam_v3_runtime.Stream.Tracking.{TracksTo}
use gigaam_v3_runtime.Stream.Replay.{push-tracked, flush-tracked}
use gigaam_v3_runtime.Stream.Caching.{push-cached}
use gigaam_v3_runtime.Stream.Settling.{CachedIn}
use gigaam_v3_runtime.Stream.Columns.{fresh_columns, update_columns-fresh}
use gigaam_v3_runtime.Stream.Features.{
  fill_columns, padded_frames, div_ceil, real_frames, update_columns,
}
use gigaam_v3_runtime.Dialog.{ChannelSnapshot}
use gigaam_v3_runtime.Stream.Snapshot.{snapshot, Shows, snapshot-Shows}
use gigaam_v3_runtime.Stream.Opening.{
  Begins, check_detector, start_session, new_session, new_session-Begins,
}
use gigaam_v3_runtime.Stream.Push.{push-ends, push-Fits}
use gigaam_v3_runtime.Stream.Turns.{Fits}

abbrev config : StreamConfig ℕ ℕ
config = record {
  sample_rate = 100;
  frame_rate = 100;
  full_samples = 4;
  full_frames = 4;
  step_samples = 2;
  overlap_samples = 1;
  retained_silence_samples = 1;
  overlap_sec = 1;
  seam_after_sec = 1;
  horizon_sec = 1;
  vad_threshold = 0;
  rules = record { after_speech_seconds = 3; without_speech_seconds = 3 };
  lock_policy = commit_stable;
  endpoint_source = blank;
  hop_length = 1;
  fft_length = 1;
  noise = 9 ∷ 9 ∷ 9 ∷ 9 ∷ [];
  noise_mel = 0 ∷ 0 ∷ 0 ∷ 0 ∷ [];
}

abbrev heard : RecognizedWord ℕ
heard = record { text = 97 ∷ 98 ∷ []; start = 0; end = 1 }

abbrev ports : Ports ℕ ℕ ℕ
ports = record {
  control = λ n. running;
  frame_log_mel = λ samples. ok 1;
  decode = λ n mel. ok (record {
    words = heard ∷ [];
    silence = [];
    output_frames = 4;
    encoder_seconds = 0;
    elapsed = 0;
  });
  probabilities = λ n buffer. ok [];
}

abbrev pub setup : Setup
setup = record {
  unicode = latin;
  single = centiseconds;
  double = centiseconds;
  Column = ℕ;
  config = config;
  ports = ports;
}

abbrev start : State setup
start = record {
  window = record {
    buffer = [];
    mel = config.noise_mel;
    real_full_frames = 0;
    decoded_samples = 0;
  };
  line = record { committed = []; emitted = []; final_sent = 0; stable_sent = 0 };
  start_time = 0;
  current = [];
  previous = none;
  cut_time = 0;
  decodes = 0;
  decode_seconds = 0;
  encoder_seconds = 0;
  clock = 0;
}

abbrev five : List ℕ
five = 1 ∷ 1 ∷ 1 ∷ 1 ∷ 1 ∷ []

abbrev or_start : {E : Type 0} → Result E (Progress setup) → Progress setup
or_start (ok r) = r
or_start (err e) = (start, [])

abbrev pushed : Progress setup
pushed = or_start (push setup five start)

abbrev flushed : Progress setup
flushed = or_start (flush setup pushed.0)

push_runs : push setup five start ≡ ok pushed
unfolding push checked_sub checked_mul is_blank validate checked_add trailing_silence same_text
    normalize_word same
push_runs = refl

flush_runs : flush setup pushed.0 ≡ ok flushed
unfolding flush push checked_sub checked_mul is_blank validate checked_add trailing_silence
    same_text normalize_word same
flush_runs = refl

push-tracked_example : TracksTo setup start pushed
push-tracked_example = push-tracked setup five start {r = pushed} ((tt, tt), (tt, tt)) push_runs

flush-tracked_example : TracksTo setup pushed.0 flushed
flush-tracked_example =
    flush-tracked setup pushed.0 {r = flushed}
      (push-tracked setup five start {r = pushed} ((tt, tt), (tt, tt)) push_runs).1 flush_runs

push-ends_example : push setup five start ≢ err out_of_fuel
push-ends_example = push-ends setup five start (omega arith) (omega arith, omega arith)

push-Fits_example : Fits setup pushed.0
push-Fits_example = push-Fits setup five start {r = pushed} (omega arith, omega arith) push_runs

emit-ok_example :
    (e : Emission ℕ) × (emit centiseconds 1
        (record { text = 97 ∷ []; start = 2; end = 3 } ∷ [])
        4
        none
        start.line
      ≡ ok e)
unfolding finite_nonnegative
emit-ok_example =
    emit-ok centiseconds 1 (record { text = 97 ∷ []; start = 2; end = 3 } ∷ []) 4 none start.line
      (tt, tt) ((refl, refl), tt) refl

push-cached_example : CachedIn setup pushed.0.window
unfolding fill_columns padded_frames div_ceil real_frames
push-cached_example =
    push-cached setup (omega arith) (omega arith) five start {r = pushed} ([], [], refl, refl, refl)
      push_runs

update_columns-fresh_example :
    update_columns config ports (extend setup five start).window ≡ fresh_columns config ports five
unfolding extend fill_columns padded_frames div_ceil real_frames
update_columns-fresh_example =
    update_columns-fresh config ports (extend setup five start).window (omega arith) (omega arith)
      ([], five, refl, refl, refl)

abbrev frontend : Frontend ℕ ℕ
frontend = record {
  sample_rate = 100;
  is_centered = false;
  log_mel = λ samples. ok (0 ∷ 0 ∷ 0 ∷ 0 ∷ []);
  pad_noise = λ n. 9 ∷ 9 ∷ 9 ∷ 9 ∷ [];
}

new_session-Begins_example : Begins centiseconds centiseconds ℕ latin ports (config, start)
unfolding new_session check_detector start_session
new_session-Begins_example =
    new_session-Begins centiseconds centiseconds ℕ latin ports frontend blank config
      {opened = (config, start)} refl

abbrev shown : ChannelSnapshot ℕ
shown = record {
  channel = 2;
  words =
      record {
        word = record { text = 97 ∷ 98 ∷ []; start = 0; end = 1 };
        finality = final;
        stability = stable;
      }
      ∷ [];
  cut_time = pushed.0.cut_time;
  stable_frontier = 4;
}

snapshot_runs : snapshot setup 2 pushed.0 ≡ ok shown
unfolding snapshot push checked_sub checked_mul checked_add is_blank validate trailing_silence
    same_text normalize_word same
snapshot_runs = refl

snapshot-Shows_example : Shows setup 2 pushed.0 shown
snapshot-Shows_example =
    snapshot-Shows setup 2 pushed.0 {snap = shown}
      (push-tracked setup five start {r = pushed} ((tt, tt), (tt, tt)) push_runs).1 snapshot_runs
