-- ===== src/Endpoint/Decision.antt =====
-- The endpoint decision over a mask whose silence grows.
use mathlib.Core.List.{reverse_aux, reverse_aux-append}
use native.Mathlib.Nat.{add-zero}
use gigaam_v3_runtime.Base.{
  ℕ, zero, suc, ◌+◌, ◌≤◌, ◌≡◌, ◌≢◌, refl, Bool, true, false, List, [], ◌∷◌, ◌++◌, arith, take,
  length, length-append, min, replicate, ok,
}
use gigaam_v3_runtime.Base.Floats.{FloatOrder}
use gigaam_v3_runtime.Endpoint.{
  Endpoint, none_yet, SpeechState, absent, present, leading_silence, trailing_silence,
  EndpointRules, decide, detect,
}

module _ (f : FloatOrder) (seconds : ℕ → f.Value → f.Value) where
  open f use {Value, zero_value, is_finite, lt, le}

  -- At a rate that is finite and positive, more frames are at least as many seconds: what the
  -- conversion and the division promise.
  abbrev pub Monotone : Type 0
  Monotone =
      (m n : ℕ) (rate : Value)
      → is_finite rate ≡ true
      → lt zero_value rate ≡ true
      → m ≤ n
      → le (seconds m rate) (seconds n rate) ≡ true

  decide_mono :
      (rules : EndpointRules Value) (silence silence' : Value) (state : SpeechState) (e : Endpoint)
      → le silence silence' ≡ true
      → decide f seconds rules silence state ≡ e
      → e ≢ none_yet
      → decide f seconds rules silence' state ≡ e
  unfolding decide
  decide_mono rules silence silence' present e longer h nontrivial =
      ground (arith, f.le_trans rules.after_speech_seconds silence silence')
  decide_mono rules silence silence' absent e longer h nontrivial =
      ground (arith, f.le_trans rules.without_speech_seconds silence silence')

  -- Provided that, at a finite and positive frame rate, more frames never last shorter: an endpoint
  -- that the rules report at some silence is reported at any longer silence at the same frame rate,
  -- whatever that rate is, under the same rules and the same state of speech.
  pub detect_mono :
      (rules : EndpointRules Value) (mask mask' : List Bool) (real real' : ℕ) (rate : Value)
      (state : SpeechState) (e : Endpoint)
      → Monotone
      → trailing_silence mask real ≤ trailing_silence mask' real'
      → detect f seconds rules mask real rate state ≡ ok e
      → e ≢ none_yet
      → detect f seconds rules mask' real' rate state ≡ ok e
  unfolding detect
  detect_mono rules mask mask' real real' rate state e mono more found some_endpoint = ground (
    arith,
    mono (trailing_silence mask real) (trailing_silence mask' real') rate,
    f.le_of_finite rate zero_value,
    f.finite_zero,
    decide_mono rules (seconds (trailing_silence mask real) rate)
        (seconds (trailing_silence mask' real') rate) state e,
  )

leading_silence-reverse_aux :
    (n : ℕ) (rest : List Bool)
    → leading_silence (reverse_aux (replicate n true) rest) ≡ n + leading_silence rest
unfolding leading_silence
leading_silence-reverse_aux zero rest = omega arith
leading_silence-reverse_aux (suc n) rest =
    omega (arith, leading_silence-reverse_aux n (true ∷ rest))

take_prefix : (xs ys : List Bool) → take (length xs) (xs ++ ys) ≡ xs
take_prefix [] ys = refl
take_prefix (x ∷ xs) ys = rw (take_prefix xs ys)

prefix_length : (xs ys : List Bool) → min (length xs) (length (xs ++ ys)) ≡ length xs
prefix_length xs ys = omega (arith, length-append xs ys)

-- Silent frames at the end, after a speech frame, are all counted, and padding frames behind the
-- real ones are not.
pub trailing_silence-count :
    (speech padding : List Bool) (n : ℕ)
    → trailing_silence
        ((speech ++ (false ∷ replicate n true)) ++ padding)
        (length (speech ++ (false ∷ replicate n true)))
      ≡ n
unfolding trailing_silence
trailing_silence-count speech padding n =
    let real = speech ++ (false ∷ replicate n true) in
    rw
      (
        prefix_length real padding,
        take_prefix real padding,
        reverse_aux-append speech (false ∷ replicate n true) [],
        leading_silence-reverse_aux n (false ∷ reverse_aux speech []),
      )
      (unfold leading_silence in add-zero n)
