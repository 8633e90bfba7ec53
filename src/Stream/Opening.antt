-- ===== src/Stream/Opening.antt =====
-- crates/transcription/src/stream.rs, `StreamSession::new` and `warmup`: the checks of the setup,
-- and that the session starts with its invariants. The conversion of the sample rate to `usize`, which holds it,
-- and the allocation of the frontend's scratch are left out.
use gigaam_v3_runtime.Base.{
  ◌+◌, ℕ, ◌≡◌, refl, subst, ◌<◌, ◌==◌, not, none, List, [], arith, replicate, length, Result, ok,
  err, ◌>>=◌, ◌>>◌, refuse_if, >>=-eq-ok, ok-injective,
}
use gigaam_v3_runtime.Base.Arithmetic.{FloatArithmetic}
use gigaam_v3_runtime.Transcript.{Unicode}
use gigaam_v3_runtime.Stream.Config.{
  StreamError, rate_mismatch, centered_frontend, vad_rate, detector_mismatch, frame_mismatch, Setup,
  EndpointSource, blank, vad, StreamConfig, Ports, Frontend,
}
use gigaam_v3_runtime.Stream.Features.{observe}
use gigaam_v3_runtime.Stream.Columns.{fresh_columns-nil, real_frames-nil}
use gigaam_v3_runtime.Stream.Settling.{CachedIn}
use gigaam_v3_runtime.Stream.Tracking.{GoodSession}
use gigaam_v3_runtime.Stream.Turns.{Fits}
use gigaam_v3_runtime.Stream.Session.{Session, State}

unfoldable pub check_detector : EndpointSource → EndpointSource → ℕ → Result StreamError (Unit {0})
check_detector blank blank sample_rate = ok tt
check_detector vad vad sample_rate = refuse_if (not (sample_rate == 16000)) vad_rate
check_detector configured detector sample_rate = err detector_mismatch

module _ (a d : FloatArithmetic) (C : Type 0) where
  abbrev pub Opened : Type 0
  Opened = StreamConfig a.order.Value C × Session a.order.Value d.order.Value C

  unfoldable pub start_session : List C → Session a.order.Value d.order.Value C
  start_session noise_mel = record {
    window = record { buffer = []; mel = noise_mel; real_full_frames = 0; decoded_samples = 0 };
    line = record { committed = []; emitted = []; final_sent = 0; stable_sent = 0 };
    start_time = a.order.zero_value;
    current = [];
    previous = none;
    cut_time = a.order.zero_value;
    decodes = 0;
    decode_seconds = d.order.zero_value;
    encoder_seconds = d.order.zero_value;
    clock = 0;
  }

  unfoldable pub new_session :
      Frontend a.order.Value C
      → EndpointSource
      → StreamConfig a.order.Value C
      → Result StreamError Opened
  unfolding check_detector start_session
  new_session frontend detector config = do
    refuse_if (not (config.sample_rate == frontend.sample_rate)) rate_mismatch
    refuse_if frontend.is_centered centered_frontend
    check_detector config.endpoint_source detector config.sample_rate
    features ← frontend.log_mel (replicate config.full_samples a.order.zero_value)
    let noise = frontend.pad_noise config.full_samples
    noise_features ← frontend.log_mel noise
    refuse_if (not (length noise_features == length features)) frame_mismatch
    ok (
      record config { full_frames = length features; noise = noise; noise_mel = noise_features },
      start_session noise_features,
    )

  -- The setup of a session that has been opened.
  abbrev setup_of : Unicode → Ports a.order.Value d.order.Value C → Opened → Setup
  setup_of u p opened = record {
    unicode = u;
    single = a;
    double = d;
    Column = C;
    config = opened.0;
    ports = p;
  }

  abbrev pub Begins : Unicode → Ports a.order.Value d.order.Value C → Opened → Type 0
  Begins u p opened =
      let x = setup_of u p opened in
      (0 < opened.0.hop_length → 0 < opened.0.fft_length → CachedIn x opened.1.window)
      × (GoodSession x opened.1 × Fits x opened.1)

  -- A session that opens starts with the invariants that `push` and `flush` need, on any ports: its
  -- words and frontier agree with what the client holds, its samples fit the window, and, for a
  -- positive hop and frame length, its columns are those of its samples.
  pub new_session-Begins :
      (u : Unicode) (p : Ports a.order.Value d.order.Value C) (frontend : Frontend a.order.Value C)
      (detector : EndpointSource) (config : StreamConfig a.order.Value C) {opened : Opened}
      → new_session frontend detector config ≡ ok opened
      → Begins u p opened
  unfolding new_session start_session
  new_session-Begins u p frontend detector config h =
      let (_, _, h1) =
        >>=-eq-ok (refuse_if (not (config.sample_rate == frontend.sample_rate)) rate_mismatch) _
          h in
      let (_, _, h2) = >>=-eq-ok (refuse_if frontend.is_centered centered_frontend) _ h1 in
      let (_, _, h3) =
        >>=-eq-ok (check_detector config.endpoint_source detector config.sample_rate) _ h2 in
      let (features, _, h4) =
        >>=-eq-ok (frontend.log_mel (replicate config.full_samples a.order.zero_value)) _ h3 in
      let noise = frontend.pad_noise config.full_samples in
      let (noise_features, _, h5) = >>=-eq-ok (frontend.log_mel noise) _ h4 in
      let (_, _, made) =
        >>=-eq-ok (refuse_if (not (length noise_features == length features)) frame_mismatch) _
          h5 in
      let config' : StreamConfig a.order.Value C = record config {
        full_frames = length features;
        noise = noise;
        noise_mel = noise_features;
      } in
      subst (Begins u p) (ok-injective made) (
        λ hop fft. (
          [],
          [],
          refl,
          fresh_columns-nil config' p hop,
          omega (arith, real_frames-nil config' p fft),
        ),
        (((tt, tt), (tt, tt)), (omega arith, omega arith)),
      )

module _ (x : Setup) where
  open x use {config, ports}

  -- `warmup`: one decode of the padding noise, whose answer is dropped.
  unfoldable warmup : State x → Result StreamError (State x)
  unfolding observe
  warmup s = do
    observe (ports.control s.clock)
    observe (ports.control (s.clock + 1))
    answer ← ports.decode s.clock config.noise_mel
    observe (ports.control (s.clock + 2))
    ok (record s { clock = s.clock + 3 })
