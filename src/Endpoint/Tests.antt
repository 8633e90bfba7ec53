-- ===== src/Endpoint/Tests.antt =====
-- The masks of the source's own tests, and the endpoint decision over whole seconds.
use gigaam_v3_runtime.Base.{
  ℕ, ◌/◌, ◌≤◌, ltb, ◌≡◌, refl, Bool, true, false, List, [], ◌∷◌, some, arith, ok, length, get_elem?,
  replicate, le→leb, leb,
}
use native.Mathlib.Nat.{le-div_iff_mul-le, div-mul-le_self}
use gigaam_v3_runtime.Base.Floats.{counting}
use gigaam_v3_runtime.Endpoint.{
  EndpointRules, after_speech, present, segments, scan_mask, visit, close_range, trailing_silence,
  detect, validate,
}
use gigaam_v3_runtime.Endpoint.Ranges.{Separated, Ends, InRanges, segments_lem}
use gigaam_v3_runtime.Endpoint.Decision.{detect_mono, trailing_silence-count}

-- `..xxx...x.xx....`
abbrev mask : List Bool
mask =
    true ∷ true ∷ false ∷ false ∷ false ∷ true ∷ true ∷ true ∷ false ∷ true ∷ false ∷ false ∷ true
    ∷ true ∷ true ∷ true ∷ []

segments_split : segments mask 3 ≡ (2, 5) ∷ (8, 12) ∷ []
unfolding segments scan_mask visit close_range
segments_split = refl

trailing_silence_padded : trailing_silence (false ∷ true ∷ true ∷ true ∷ []) 2 ≡ 1
unfolding trailing_silence
trailing_silence_padded = refl

segments_lem_example :
    Separated 3 0 (length mask) (segments mask 3)
    × Ends mask (segments mask 3)
    × ((k : ℕ) → get_elem? mask k ≡ some false → InRanges k (segments mask 3))
segments_lem_example = segments_lem mask 3

trailing_silence-count_example : trailing_silence (true ∷ false ∷ true ∷ true ∷ true ∷ []) 4 ≡ 2
trailing_silence-count_example = trailing_silence-count (true ∷ []) (true ∷ []) 2

abbrev rules : EndpointRules ℕ
rules = record { after_speech_seconds = 1; without_speech_seconds = 2 }

abbrev seconds : ℕ → ℕ → ℕ
seconds frames rate = frames / rate

seconds_mono :
    (m n rate : ℕ)
    → true ≡ true
    → ltb 0 rate ≡ true
    → m ≤ n
    → leb (seconds m rate) (seconds n rate) ≡ true
seconds_mono m n rate finite positive h =
    le→leb _ _
      ((le-div_iff_mul-le (ground (arith, positive))).1 (omega (arith, div-mul-le_self m rate)))

detect_mono_example :
    detect counting seconds rules (false ∷ replicate 30 true) 31 25 present ≡ ok after_speech
unfolding detect trailing_silence validate
detect_mono_example =
    detect_mono counting seconds rules (false ∷ replicate 25 true) (false ∷ replicate 30 true) 26 31
      25 present after_speech seconds_mono (omega arith) refl (λ e. cc)
