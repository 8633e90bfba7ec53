-- ===== src/Rnnt.antt =====
-- crates/recognition/src/rnnt.rs: the order of the greedy transducer's transitions. The networks
-- are behind `RnntTransition`, which enters as an interface without laws. The first error ends the
-- decoding, so the adapter's own state is followed only along successes.
pub mod Groups
pub mod Tests
use gigaam_v3_runtime.Base.{
  ℕ, zero, suc, Bool, true, false, not, Option, none, some, List, [], ◌∷◌, ◌++◌, if◌then◌else◌, ltb,
  ◌==◌, Result, ok, err, ◌>>=◌, ◌>>◌, refuse_if, map_err,
}
use gigaam_v3_runtime.Base.Floats.{FloatOrder}
use gigaam_v3_runtime.Ctc.{CtcError, Token, new_scored}

-- The trait's methods. `Session` is the adapter behind `&mut self`.
pub record RnntTransition (Value Score : Type 0) : Type 1 where
  pub Session : Type 0
  pub State : Type 0
  pub Failure : Type 0
  pub start : ℕ → Session → Result Failure (Session × State)
  pub select : List Value → State → Session → Result Failure (Session × ℕ)
  pub select_scored : List Value → State → Session → Result Failure (Session × (ℕ × Score))
  pub advance : ℕ → State → Session → Result Failure (Session × State)

pub record RnntFrameSource (Value : Type 0) : Type 0 where
  pub output_frames : ℕ
  pub frame : ℕ → List Value

pub data RnntError (F : Type 0) : Type 0 where
  failed : F → RnntError F
  exceeds_blank : ℕ → ℕ → RnntError F
  not_finite : ℕ → ℕ → RnntError F
  score_refused : CtcError → RnntError F

pub record RnntOutput (V : Type 0) : Type 0 where
  pub tokens : List (Token V)
  pub silence : List Bool

module _ (f scores : FloatOrder) (api : RnntTransition f.Value scores.Value) where
  open f use {Value, is_finite}
  open api use {Session, State, Failure, start, select, select_scored, advance}

  abbrev pub Outcome : Type 0 → Type 0
  Outcome A = Result (RnntError Failure) A

  -- The adapter, its state, the tokens pushed so far, and `emitted` of the frame at hand.
  pub record Machine : Type 0 where
    pub session : Session
    pub state : State
    pub tokens : List (Token scores.Value)
    pub emitted : Bool

  pub record Choice : Type 0 where
    pub session : Session
    pub token : ℕ
    pub score : Option scores.Value

  -- The values of one frame from `position` on.
  unfoldable pub validate_encoder_frame : ℕ → ℕ → List Value → Outcome (Unit {0})
  validate_encoder_frame index position [] = ok tt
  validate_encoder_frame index position (value ∷ rest) = do
    refuse_if (not (is_finite value)) (not_finite index position)
    validate_encoder_frame index (suc position) rest

  unfoldable pub choose : Bool → List Value → Machine → Outcome Choice
  choose true frame m = do
    chosen ← map_err failed (select_scored frame m.state m.session)
    ok (record { session = chosen.0; token = chosen.1.0; score = some chosen.1.1 })
  choose false frame m = do
    chosen ← map_err failed (select frame m.state m.session)
    ok (record { session = chosen.0; token = chosen.1; score = none })

  unfoldable pub new_token : ℕ → ℕ → Option scores.Value → Outcome (Token scores.Value)
  unfolding new_scored
  new_token id index none = ok (record { id = id; frame = index; log_probability = none })
  new_token id index (some score) = map_err score_refused (new_scored scores id index score)

  -- `tokens.push(..); emitted = true; transition.advance(token, &mut state)?`.
  unfoldable pub emit : ℕ → Choice → Machine → Outcome Machine
  emit index chosen m = do
    token ← new_token chosen.token index chosen.score
    advanced ← map_err failed (advance chosen.token m.state chosen.session)
    ok (record {
      session = advanced.0;
      state = advanced.1;
      tokens = m.tokens ++ (token ∷ []);
      emitted = true;
    })

  -- The inner loop, with `left` symbols to go in the frame.
  unfoldable pub decode_symbols : Bool → ℕ → ℕ → List Value → ℕ → Machine → Outcome Machine
  decode_symbols scored blank index frame zero m = ok m
  decode_symbols scored blank index frame (suc left) m = choose scored frame m >>= λ chosen.
      if ltb blank chosen.token
      then err (exceeds_blank chosen.token blank)
      else if chosen.token == blank
      then ok (record m { session = chosen.session })
      else (emit index chosen m >>= λ next. decode_symbols scored blank index frame left next)

  -- The outer loop, with `left` frames to go.
  unfoldable pub decode_frames :
      Bool
      → ℕ
      → ℕ
      → RnntFrameSource Value
      → ℕ
      → ℕ
      → Machine
      → List Bool
      → Outcome (Session × RnntOutput scores.Value)
  decode_frames scored blank max_symbols frames zero index m silence =
      ok (m.session, record { tokens = m.tokens; silence = silence })
  decode_frames scored blank max_symbols frames (suc left) index m silence = do
    validate_encoder_frame index 0 (frames.frame index)
    next ←
        decode_symbols scored blank index (frames.frame index) max_symbols
          (record m { emitted = false })
    decode_frames scored blank max_symbols frames left (suc index) next
        (silence ++ (not next.emitted ∷ []))

  unfoldable pub greedy_with_detail :
      Session → RnntFrameSource Value → ℕ → ℕ → Bool → Outcome (Session × RnntOutput scores.Value)
  greedy_with_detail session frames blank max_symbols scored = do
    started ← map_err failed (start blank session)
    decode_frames scored blank max_symbols frames frames.output_frames 0
        (record { session = started.0; state = started.1; tokens = []; emitted = false }) []

  unfoldable pub greedy :
      Session → RnntFrameSource Value → ℕ → ℕ → Outcome (Session × RnntOutput scores.Value)
  unfolding greedy_with_detail
  greedy session frames blank max_symbols =
      greedy_with_detail session frames blank max_symbols false
