-- ===== src/Ctc.antt =====
-- crates/recognition/src/ctc.rs: greedy CTC decoding of a row-major matrix of log probabilities.
-- The rows are `f32`, the scores of the tokens `f64`, each behind the interface. Pieces of the vocabulary are lists of code points.
pub mod Collapse
pub mod Greedy
pub mod Runs
pub mod Words
pub mod Tests
use gigaam_v3_runtime.Base.{
  ℕ, zero, suc, ◌+◌, ◌-◌, ◌*◌, Bool, true, false, not, ◌&&◌, ◌||◌, Option, none, some, List, [],
  ◌∷◌, ◌++◌, if◌then◌else◌, ltb, leb, ◌==◌, take, drop, length, is_empty, get_elem?, Result, ok,
  err, ◌>>=◌, ◌>>◌, refuse_if, ok_or,
}
use gigaam_v3_runtime.Base.Words.{usize_max, checked_mul}
use gigaam_v3_runtime.Base.Floats.{FloatOrder}

pub data CtcError : Type 0 where
  empty_vocabulary dimension_overflow storage_mismatch bad_token_score no_label : CtcError
  blank_outside space_outside : ℕ → ℕ → CtcError
  not_finite : ℕ → CtcError

-- `Token` of crates/recognition/src/contracts.rs.
pub record Token (V : Type 0) : Type 0 where
  pub id : ℕ
  pub frame : ℕ
  pub log_probability : Option V

-- `best == blank || Some(best) == space`.
unfoldable pub is_silent : ℕ → Option ℕ → ℕ → Bool
is_silent blank none best = best == blank
is_silent blank (some space) best = best == blank || best == space

-- What the loop over the frames has pushed, and the label before.
pub record Progress (V : Type 0) : Type 0 where
  pub tokens : List (Token V)
  pub silence : List Bool
  pub labels : List ℕ
  pub previous : ℕ

-- The scores are `f64`, and have an order of their own.
module _ (scores : FloatOrder) where
  open scores use {Value, zero_value, is_finite, lt}

  -- `Token::scored`.
  unfoldable pub new_scored : ℕ → ℕ → Value → Result CtcError (Token Value)
  new_scored id frame score = do
    refuse_if (not (is_finite score) || lt zero_value score) bad_token_score
    ok (record { id = id; frame = frame; log_probability = some score })

module _ (f : FloatOrder) where
  open f use {Value, zero_value, is_finite, lt, le}

  -- The loop over a row: `best`, and the value at it.
  unfoldable pub argmax_from : ℕ → List Value → ℕ → Value → ℕ
  argmax_from index [] best best_value = best
  argmax_from index (value ∷ rest) best best_value =
      argmax_from (suc index) rest (if lt best_value value then index else best)
        (if lt best_value value then value else best_value)

  -- `best` starts at 0, and `row[0]` is compared with itself first. An empty row, which the
  -- validated input does not have, would panic.
  unfoldable pub argmax : List Value → Result CtcError ℕ
  argmax [] = err no_label
  argmax (value ∷ rest) = ok (argmax_from 0 (value ∷ rest) 0 value)

  unfoldable pub check_finite : ℕ → List Value → Result CtcError (Unit {0})
  check_finite index [] = ok tt
  check_finite index (value ∷ rest) = do
    refuse_if (not (is_finite value)) (not_finite index)
    check_finite (suc index) rest

  check_space : Option ℕ → ℕ → Result CtcError (Unit {0})
  check_space none vocabulary = ok tt
  check_space (some space) vocabulary =
      refuse_if (leb vocabulary space) (space_outside space vocabulary)

  unfoldable pub validate_greedy_input :
      List Value → ℕ → ℕ → ℕ → Option ℕ → Result CtcError (Unit {0})
  unfolding check_space
  validate_greedy_input values frames vocabulary blank space = do
    refuse_if (vocabulary == 0) empty_vocabulary
    refuse_if (leb vocabulary blank) (blank_outside blank vocabulary)
    check_space space vocabulary
    expected ← ok_or (checked_mul frames vocabulary) dimension_overflow
    refuse_if (not (length values == expected)) storage_mismatch
    check_finite 0 values

  -- `selected_log_probability`, which scores the chosen label of a row and may refuse the row.
  module _ (scores : FloatOrder) (selected : List Value → ℕ → Result CtcError scores.Value) where
    unfoldable pub new_token : Bool → List Value → ℕ → ℕ → Result CtcError (Token scores.Value)
    unfolding new_scored
    new_token false row best frame =
        ok (record { id = best; frame = frame; log_probability = none })
    new_token true row best frame = do score ← selected row best; new_scored scores best frame score

    -- `if best != blank && best != previous { out.push(..) }`.
    unfoldable pub push_token :
        Bool
        → ℕ
        → List Value
        → ℕ
        → ℕ
        → Progress scores.Value
        → Result CtcError (List (Token scores.Value))
    push_token scored blank row best frame p =
        if not (best == blank) && not (best == p.previous)
        then (new_token scored row best frame >>= λ token. ok (p.tokens ++ (token ∷ [])))
        else ok p.tokens

    -- One frame.
    unfoldable pub decode_row :
        Bool
        → ℕ
        → Option ℕ
        → List Value
        → ℕ
        → Progress scores.Value
        → Result CtcError (Progress scores.Value)
    decode_row scored blank space row frame p = do
      best ← argmax row
      tokens ← push_token scored blank row best frame p
      ok (record {
        tokens = tokens;
        silence = p.silence ++ (is_silent blank space best ∷ []);
        labels = p.labels ++ (best ∷ []);
        previous = best;
      })

    -- The loop, with `left` frames to go.
    unfoldable pub decode_rows :
        Bool
        → ℕ
        → ℕ
        → Option ℕ
        → List Value
        → ℕ
        → ℕ
        → Progress scores.Value
        → Result CtcError (Progress scores.Value)
    decode_rows scored vocabulary blank space values zero frame p = ok p
    decode_rows scored vocabulary blank space values (suc left) frame p =
        decode_row scored blank space (take vocabulary (drop (frame * vocabulary) values)) frame p
        >>= λ next. decode_rows scored vocabulary blank space values left (suc frame) next

    unfoldable pub greedy_masked_with_detail :
        List Value
        → ℕ
        → ℕ
        → ℕ
        → Option ℕ
        → Bool
        → Result CtcError (List (Token scores.Value) × List Bool × List ℕ)
    greedy_masked_with_detail values frames vocabulary blank space scored = do
      validate_greedy_input values frames vocabulary blank space
      p ←
          decode_rows scored vocabulary blank space values frames 0
            (record { tokens = []; silence = []; labels = []; previous = usize_max })
      ok (p.tokens, p.silence, p.labels)

    unfoldable pub greedy_masked :
        List Value
        → ℕ
        → ℕ
        → ℕ
        → Option ℕ
        → Result CtcError (List (Token scores.Value) × List Bool × List ℕ)
    greedy_masked values frames vocabulary blank space =
        greedy_masked_with_detail values frames vocabulary blank space false

    unfoldable pub greedy : List Value → ℕ → ℕ → ℕ → Result CtcError (List (Token scores.Value))
    unfolding greedy_masked
    greedy values frames vocabulary blank = do
      decoded ← greedy_masked values frames vocabulary blank none
      ok decoded.0
