-- ===== src/Stream/Line.antt =====
-- crates/transcription/src/stream.rs: the word line that the client sees and the events that
-- `emit` sends to change it.
use gigaam_v3_runtime.Base.{
  ℕ, zero, suc, Bool, true, false, ◌&&◌, ◌||◌, Option, none, some, List, [], ◌∷◌, ◌++◌, map,
  if◌then◌else◌, ltb, leb, take, drop, length, Result, ok, err, ◌>>=◌, ◌>>◌, map_err,
}
use gigaam_v3_runtime.Base.Arithmetic.{FloatArithmetic}
use gigaam_v3_runtime.Transcript.{
  WordStability, revisable, stable, TranscriptWord, StreamWord, FinalReason, forced_or_locked,
  StreamEvent, words_event, stable_event, final_event, same_text, finite_nonnegative,
}
use gigaam_v3_runtime.Stream.Config.{StreamError, refused, panicked}

-- The fields of the session that `emit` changes.
pub record Line (V : Type 0) : Type 0 where
  pub committed : List (StreamWord V)
  pub emitted : List (StreamWord V)
  pub final_sent : ℕ
  pub stable_sent : ℕ

-- The line with the events sent so far.
pub record Emission (V : Type 0) : Type 0 where
  pub line : Line V
  pub events : List (StreamEvent V)

unfoldable pub set_stable : {V : Type 0} → StreamWord V → StreamWord V
set_stable w = record { word = w.word; stability = stable }

unfoldable pub mark_first : {V : Type 0} → ℕ → List (StreamWord V) → List (StreamWord V)
unfolding set_stable
mark_first zero ws = ws
mark_first (suc n) [] = []
mark_first (suc n) (w ∷ ws) = set_stable w ∷ mark_first n ws

-- `for word in &mut self.emitted[..n] { word.set_stable() }`.
unfoldable pub set_stable_upto :
    {V : Type 0} → ℕ → List (StreamWord V) → Result StreamError (List (StreamWord V))
unfolding mark_first
set_stable_upto n ws = if leb n (length ws) then ok (mark_first n ws) else err panicked

unfoldable pub is_stable : WordStability → Bool
is_stable stable = true
is_stable revisable = false

-- `take_while(stable).count()`.
unfoldable pub stable_count : {V : Type 0} → List (StreamWord V) → ℕ
unfolding is_stable
stable_count [] = 0
stable_count (w ∷ ws) = if is_stable w.stability then suc (stable_count ws) else 0

unfoldable pub unwrap_reason : Option FinalReason → FinalReason
unwrap_reason none = forced_or_locked
unwrap_reason (some reason) = reason

unfoldable pub commit : {V : Type 0} → List (TranscriptWord V) → Line V → Line V
commit words l = record l {
  committed = l.committed ++ map (λ w. record { word = w; stability = stable }) words;
}

module _ (a : FloatArithmetic) where
  open a.order use {Value, lt, le}

  unfoldable pub close_to : Value → Value → Bool
  close_to x y = le (a.abs (a.sub x y)) (a.hundredths 10)

  unfoldable pub same : StreamWord Value → StreamWord Value → Bool
  unfolding close_to
  same l r =
      same_text l.word.text r.word.text
      && (close_to l.word.start r.word.start && close_to l.word.end r.word.end)

  -- `(0..shared).find(|index| !same(..)).unwrap_or(shared)`.
  unfoldable pub first_difference : List (StreamWord Value) → List (StreamWord Value) → ℕ
  first_difference [] ys = 0
  first_difference (x ∷ xs) [] = 0
  first_difference (x ∷ xs) (y ∷ ys) = if same x y then suc (first_difference xs ys) else 0

  unfoldable pub open_word : Value → TranscriptWord Value → StreamWord Value
  open_word stable_before w = record {
    word = w;
    stability = if lt w.start stable_before then stable else revisable;
  }

  unfoldable pub target_line :
      Value → List (StreamWord Value) → List (TranscriptWord Value) → List (StreamWord Value)
  unfolding open_word
  target_line stable_before committed open_line =
      committed ++ map (open_word stable_before) open_line

  unfoldable pub event_time : Value → Result StreamError (Unit {0})
  unfolding finite_nonnegative
  event_time now = map_err refused (finite_nonnegative a now)

  -- The patch from `from` on.
  unfoldable pub send_patch :
      Value → ℕ → List (StreamWord Value) → Emission Value → Result StreamError (Emission Value)
  unfolding event_time
  send_patch now from target e = do
    event_time now
    ok (record {
      line = record e.line { emitted = take from e.line.emitted ++ drop from target };
      events = e.events ++ (words_event now from (drop from target) ∷ []);
    })

  unfoldable pub revise :
      Value → List (StreamWord Value) → Emission Value → Result StreamError (Emission Value)
  unfolding first_difference send_patch
  revise now target e =
      let from = first_difference e.line.emitted target in
      if ltb from (length target) || ltb from (length e.line.emitted)
      then send_patch now from target e
      else ok e

  unfoldable pub send_stable : Value → ℕ → Emission Value → Result StreamError (Emission Value)
  unfolding set_stable_upto event_time
  send_stable now upto e = do
    marked ← set_stable_upto upto e.line.emitted
    event_time now
    ok (record {
      line = record e.line { emitted = marked; stable_sent = upto };
      events = e.events ++ (stable_event now upto ∷ []);
    })

  unfoldable pub announce_stable :
      Value → List (StreamWord Value) → Emission Value → Result StreamError (Emission Value)
  unfolding stable_count send_stable
  announce_stable now target e =
      let upto = stable_count target in
      if ltb e.line.stable_sent upto then send_stable now upto e else ok e

  unfoldable pub send_final :
      Value → Option FinalReason → ℕ → Emission Value → Result StreamError (Emission Value)
  unfolding set_stable_upto event_time unwrap_reason
  send_final now reason upto e = do
    marked ← set_stable_upto upto e.line.emitted
    event_time now
    ok (record {
      line = record e.line { emitted = marked; final_sent = upto };
      events = e.events ++ (final_event now upto (unwrap_reason reason) ∷ []);
    })

  unfoldable pub announce_final :
      Value → Option FinalReason → Emission Value → Result StreamError (Emission Value)
  unfolding send_final
  announce_final now reason e =
      let upto = length e.line.committed in
      if ltb e.line.final_sent upto then send_final now reason upto e else ok e

  unfoldable pub emit :
      Value
      → List (TranscriptWord Value)
      → Value
      → Option FinalReason
      → Line Value
      → Result StreamError (Emission Value)
  unfolding target_line revise announce_stable announce_final
  emit horizon_sec open_line now reason l = do
    let target = target_line (a.sub now horizon_sec) l.committed open_line
    revised ← revise now target (record { line = l; events = [] })
    announced ← announce_stable now target revised
    announce_final now reason announced
