-- ===== src/Vad/Detection.antt =====
-- The scan over the probabilities: it never fails on valid input, and what it closes is ordered,
-- disjoint and long enough.
use gigaam_v3_runtime.Base.{
  ℕ, suc, ◌+◌, ◌-◌, ◌*◌, ◌<◌, ◌≤◌, ◌≡◌, refl, subst, true, Option, none, some, List, [], ◌∷◌, ◌++◌,
  arith, ltb, leb, ==_iff, Result, ok, ltb→lt, inl, inr, Bool-cases, length, All, All-append,
}
use gigaam_v3_runtime.Base.Words.{checked_sub-fits, checked_mul-fits, usize_max}
use gigaam_v3_runtime.Base.Floats.{FloatOrder}
use gigaam_v3_runtime.Vad.{
  VadError, VadPolicyConfig, SpeechSegment, DetectionState, idle, speaking, get_or_insert,
  push_if_long, validate_probability_value, silent, observe, close, speech_underflow,
  terminal_underflow, frame, scan, finish_scan, segments_from_probabilities, expected_count,
  hop_samples, doubled_temporal_sample_count,
}
use gigaam_v3_runtime.Vad.Padding.{Spans, Covers, new_segment-fits, apply_padding-Spans}

Spans-push :
    (low mid high : ℕ) (raw : List SpeechSegment) (s : SpeechSegment)
    → Spans low mid raw
    → mid ≤ s.start_sample
    → s.start_sample < s.end_sample
    → s.end_sample ≤ high
    → Spans low high (raw ++ (s ∷ []))
Spans-push low mid high [] s h a b c = (omega arith, b, c)
Spans-push low mid high (r ∷ raw) s h a b c =
    (h.0, h.1, Spans-push r.end_sample mid high raw s h.2 a b c)

Spans-high :
    (low high high' : ℕ) (raw : List SpeechSegment)
    → high ≤ high'
    → Spans low high raw
    → Spans low high' raw
Spans-high low high high' [] h k = omega arith
Spans-high low high high' (r ∷ raw) h k = (k.0, k.1, Spans-high r.end_sample high high' raw h k.2)

-- Longer than the configured minimum.
abbrev pub IsLong : ℕ → SpeechSegment → Type 0
IsLong minimum s = minimum < s.end_sample - s.start_sample

-- The scan before the frame at sample `now`: closed segments are behind the open one, and the
-- open one began, and may tentatively have ended, before `now`.
abbrev Open : ℕ → ℕ → List SpeechSegment → DetectionState → Type 0
Open now minimum raw idle = Spans 0 (now - hop_samples) raw × All (IsLong minimum) raw
Open now minimum raw (speaking start none) =
    (start + hop_samples ≤ now) × Spans 0 start raw × All (IsLong minimum) raw
Open now minimum raw (speaking start (some stop)) =
    (start ≤ stop) × (stop + hop_samples ≤ now) × Spans 0 start raw × All (IsLong minimum) raw

abbrev IsOpen : ℕ → ℕ → List SpeechSegment × DetectionState → Type 0
IsOpen now minimum at = Open now minimum at.0 at.1

push_if_long-Spans :
    (minimum audio start stop : ℕ) (e : VadError) (raw : List SpeechSegment)
    → start ≤ stop
    → stop ≤ audio
    → Spans 0 start raw
    → All (IsLong minimum) raw
    → (out : List SpeechSegment) × (push_if_long minimum audio start stop e raw ≡ ok out)
      × Spans 0 stop out
      × All (IsLong minimum) out
unfolding push_if_long
push_if_long-Spans minimum audio start stop e raw h k spans long =
    elim (Bool-cases (ltb minimum (stop - start))) [
      | inl enough ↦
          let new : SpeechSegment = record { start_sample = start; end_sample = stop } in
          let longer : minimum < stop - start = ltb→lt minimum (stop - start) enough in
          (
            raw ++ (new ∷ []),
            rw
                (
                  checked_sub-fits stop start h,
                  enough,
                  new_segment-fits start stop audio (omega arith) k,
                )
                refl,
            Spans-push 0 start stop raw new spans (omega arith) (omega arith) (omega arith),
            All-append (IsLong minimum) raw (new ∷ []) long (longer, tt),
          )
      | inr short ↦ (
        raw,
        rw (checked_sub-fits stop start h, short) refl,
        Spans-high 0 start stop raw h spans,
        long,
      )
    ]

module _ (f : FloatOrder) where
  open f use {Value, zero_value, one_value, is_finite, lt, le}

  -- A finite value in [0, 1].
  abbrev pub IsProbability : Value → Type 0
  IsProbability p = (is_finite p ≡ true) × (le zero_value p ≡ true) × (le p one_value ≡ true)

  validate-IsProbability : (p : Value) → IsProbability p → validate_probability_value f p ≡ ok tt
  unfolding validate_probability_value
  validate-IsProbability p h = rw (h.0, h.1, h.2) refl

  -- What one frame closes, if anything, is behind the frame.
  abbrev Observed : ℕ → ℕ → List SpeechSegment → DetectionState × Option (ℕ × ℕ) → Type 0
  Observed now minimum raw (state, none) = Open (now + hop_samples) minimum raw state
  Observed now minimum raw (state, some (start, stop)) =
      (start ≤ stop) × (stop ≤ now) × Spans 0 start raw × All (IsLong minimum) raw

  abbrev Seen :
      ℕ → ℕ → List SpeechSegment → Result VadError (DetectionState × Option (ℕ × ℕ)) → Type 0
  Seen now minimum raw r =
      (seen : DetectionState × Option (ℕ × ℕ)) × (r ≡ ok seen) × Observed now minimum raw seen

  silent-Observed :
      (config : VadPolicyConfig Value) (now start stop minimum : ℕ) (raw : List SpeechSegment)
      → start ≤ stop
      → stop ≤ now
      → Spans 0 start raw
      → All (IsLong minimum) raw
      → Seen now minimum raw (silent f config now start stop)
  unfolding silent
  silent-Observed config now start stop minimum raw h k spans long =
      elim (Bool-cases (leb config.minimum_silence (now - stop))) [
        | inl enough ↦ (
          (speaking start (some stop), some (start, stop)),
          rw (checked_sub-fits now stop k, enough) refl,
          (h, k, spans, long),
        )
        | inr short ↦ (
          (speaking start (some stop), none),
          rw (checked_sub-fits now stop k, short) refl,
          (h, omega arith, spans, long),
        )
      ]

  speaking-Observed :
      (config : VadPolicyConfig Value) (p : Value) (now start minimum : ℕ)
      (raw : List SpeechSegment) (tentative : Option ℕ)
      → Open now minimum raw (speaking start tentative)
      → Spans 0 start raw × All (IsLong minimum) raw × (start < now)
      → (start ≤ get_or_insert tentative now) × (get_or_insert tentative now ≤ now)
      → Seen now minimum raw (observe f config p now (speaking start tentative))
  unfolding observe
  speaking-Observed config p now start minimum raw tentative h (spans, long, began)
        (after, before) =
      elim (Bool-cases (le config.speech p)) [
        | inl loud ↦ ((speaking start none, none), rw loud refl, (omega arith, spans, long))
        | inr soft ↦ elim (Bool-cases (lt p config.silence)) [
          | inl quiet ↦
              rw (soft, quiet)
                (silent-Observed config now start (get_or_insert tentative now) minimum raw after
                  before spans long)
          | inr between ↦
              ((speaking start tentative, none), rw (soft, between) refl, kept tentative h)
        ]
      ]
    where
      kept :
          (t : Option ℕ)
          → Open now minimum raw (speaking start t)
          → Open (now + hop_samples) minimum raw (speaking start t)
      kept none (a, b, c) = (omega arith, b, c)
      kept (some stop) (a, b, c, d) = (a, omega arith, c, d)

  observe-Observed :
      (config : VadPolicyConfig Value) (p : Value) (now minimum : ℕ) (raw : List SpeechSegment)
      (state : DetectionState)
      → Open now minimum raw state
      → Seen now minimum raw (observe f config p now state)
  unfolding observe get_or_insert
  observe-Observed config p now minimum raw idle h = elim (Bool-cases (le config.speech p)) [
    | inl loud ↦ (
      (speaking now none, none),
      rw loud refl,
      (omega arith, Spans-high 0 (now - hop_samples) now raw (omega arith) h.0, h.1),
    )
    | inr soft ↦ (
      (idle, none),
      rw soft refl,
      (
        Spans-high 0 (now - hop_samples) (now + hop_samples - hop_samples) raw (omega arith) h.0,
        h.1,
      ),
    )
  ]
  observe-Observed config p now minimum raw (speaking start none) h =
      speaking-Observed config p now start minimum raw none h (h.1, h.2, omega arith)
        (omega arith, omega arith)
  observe-Observed config p now minimum raw (speaking start (some stop)) h =
      speaking-Observed config p now start minimum raw (some stop) h (h.2, h.3, omega arith)
        (omega arith, omega arith)

  abbrev Kept : ℕ → ℕ → Result VadError (List SpeechSegment × DetectionState) → Type 0
  Kept now minimum r =
      (next : List SpeechSegment × DetectionState) × (r ≡ ok next) × IsOpen now minimum next

  close-IsOpen :
      (config : VadPolicyConfig Value) (audio now : ℕ) (raw : List SpeechSegment)
      (seen : DetectionState × Option (ℕ × ℕ))
      → now ≤ audio
      → Observed now config.minimum_speech raw seen
      → Kept (now + hop_samples) config.minimum_speech (close f config audio raw seen)
  unfolding close
  close-IsOpen config audio now raw (state, none) h o = ((raw, state), refl, o)
  close-IsOpen config audio now raw (state, some (start, stop)) h (a, b, spans, long) =
      let (out, made, spans', long') =
        push_if_long-Spans config.minimum_speech audio start stop speech_underflow raw a
          (omega arith) spans long in
      (
        (out, idle),
        rw made refl,
        (Spans-high 0 stop (now + hop_samples - hop_samples) out (omega arith) spans', long'),
      )

  frame-IsOpen :
      (config : VadPolicyConfig Value) (audio index : ℕ) (p : Value)
      (at : List SpeechSegment × DetectionState)
      → IsProbability p
      → audio ≤ usize_max
      → index * hop_samples ≤ audio
      → IsOpen (index * hop_samples) config.minimum_speech at
      → Kept
          (index * hop_samples + hop_samples)
          config.minimum_speech
          (frame f config audio index p at)
  unfolding frame
  frame-IsOpen config audio index p (raw, state) ip fits h o =
      let (seen, observed, o') =
        observe-Observed config p (index * hop_samples) config.minimum_speech raw state o in
      let (next, closed, o'') = close-IsOpen config audio (index * hop_samples) raw seen h o' in
      (
        next,
        rw (validate-IsProbability p ip, checked_mul-fits index hop_samples (omega arith))
            (rw (observed, closed) refl),
        o'',
      )

  scan-IsOpen :
      (config : VadPolicyConfig Value) (audio index last : ℕ) (ps : List Value)
      (at : List SpeechSegment × DetectionState)
      → All IsProbability ps
      → audio ≤ usize_max
      → index + length ps ≡ last
      → last * hop_samples ≤ audio + 511
      → IsOpen (index * hop_samples) config.minimum_speech at
      → Kept (last * hop_samples) config.minimum_speech (scan f config audio index ps at)
  unfolding scan
  scan-IsOpen config audio index last [] at ip fits e h o =
      let same : index ≡ last = omega arith in
      (at, refl, subst (λ i. IsOpen (i * hop_samples) config.minimum_speech at) same o)
  scan-IsOpen config audio index last (p ∷ ps) at ip fits e h o =
      let (next, done, o') = frame-IsOpen config audio index p at ip.0 fits (omega arith) o in
      let ahead : index * hop_samples + hop_samples ≡ suc index * hop_samples = omega arith in
      let o'' = subst (λ i. IsOpen i config.minimum_speech next) ahead o' in
      let (end', rest, kept) =
        scan-IsOpen config audio (suc index) last ps next ip.1 fits (omega arith) h o'' in
      (end', rw done rest, kept)

  finish_scan-Spans :
      (config : VadPolicyConfig Value) (audio now : ℕ) (raw : List SpeechSegment)
      (state : DetectionState)
      → now ≤ audio + 511
      → Open now config.minimum_speech raw state
      → (out : List SpeechSegment) × (finish_scan f config audio (raw, state) ≡ ok out)
        × Spans 0 audio out
        × All (IsLong config.minimum_speech) out
  unfolding finish_scan
  finish_scan-Spans config audio now raw idle h o =
      (raw, refl, Spans-high 0 (now - hop_samples) audio raw (omega arith) o.0, o.1)
  finish_scan-Spans config audio now raw (speaking start none) h o =
      push_if_long-Spans config.minimum_speech audio start audio terminal_underflow raw
        (omega arith) (omega arith) o.1 o.2
  finish_scan-Spans config audio now raw (speaking start (some stop)) h o =
      push_if_long-Spans config.minimum_speech audio start audio terminal_underflow raw
        (omega arith) (omega arith) o.2 o.3

  Covers-IsLong :
      (minimum : ℕ) (raw out : List SpeechSegment)
      → Covers raw out
      → All (IsLong minimum) raw
      → All (IsLong minimum) out
  Covers-IsLong minimum [] [] c h = tt
  Covers-IsLong minimum [] (t ∷ ts) c h = absurd c
  Covers-IsLong minimum (s ∷ ss) [] c h = absurd c
  Covers-IsLong minimum (s ∷ ss) (t ∷ ts) c h = (omega arith, Covers-IsLong minimum ss ts c.2 h.1)

  -- With one probability in [0, 1] for each hop of an input that fits `usize`, and a doubled
  -- padding that `VadPadding::new` accepts, segmentation never fails: it returns segments in
  -- order, disjoint, nonempty and within the input, each longer than the minimum speech.
  pub segments_from_probabilities-Spans :
      (config : VadPolicyConfig Value) (audio : ℕ) (ps : List Value)
      → All IsProbability ps
      → audio ≤ usize_max
      → length ps ≡ expected_count audio
      → doubled_temporal_sample_count config.one_sided ≡ ok config.doubled
      → (out : List SpeechSegment) × (segments_from_probabilities f ps audio config ≡ ok out)
        × Spans 0 audio out
        × All (IsLong config.minimum_speech) out
  unfolding segments_from_probabilities
  segments_from_probabilities-Spans config audio ps ip fits count doubled =
      let last = expected_count audio in
      let (at, scanned, open') =
        scan-IsOpen config audio 0 last ps ([], idle) ip fits (omega arith) (omega arith)
          (omega arith, tt) in
      let (raw, finished, spans, long) =
        finish_scan-Spans config audio (last * hop_samples) at.0 at.1 (omega arith) open' in
      let (out, padded, spans', covers) =
        apply_padding-Spans raw config.one_sided config.doubled audio doubled spans in
      (
        out,
        rw ((==_iff (length ps) last).1 count, scanned, finished) padded,
        spans',
        Covers-IsLong config.minimum_speech raw out covers long,
      )
