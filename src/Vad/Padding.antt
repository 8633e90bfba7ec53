-- ===== src/Vad/Padding.antt =====
-- What padding does to a list of ordered, disjoint segments.
use gigaam_v3_runtime.Base.{
  ℕ, ◌+◌, ◌-◌, ◌*◌, ◌<◌, ◌≤◌, ◌≡◌, refl, List, [], ◌∷◌, arith, if◌then◌else◌, leb, Result, ok,
  collect,
}
use gigaam_v3_runtime.Base.Words.{checked_sub-fits, checked_mul}
use gigaam_v3_runtime.Vad.{
  VadError, SpeechSegment, new_segment, subtract_and_floor, add_and_cap, reach, pad_from, pad_all,
  apply_padding, doubled_temporal_sample_count,
}

-- Nonempty segments in order, none touching the next, from `low` up to `high`.
abbrev pub Spans : ℕ → ℕ → List SpeechSegment → Type 0
Spans low high [] = low ≤ high
Spans low high (s ∷ rest) =
    (low ≤ s.start_sample) × (s.start_sample < s.end_sample) × Spans s.end_sample high rest

-- Segment by segment, the first list lies within the second.
abbrev pub Covers : List SpeechSegment → List SpeechSegment → Type 0
Covers [] [] = Unit {0}
Covers [] (t ∷ ts) = ⊥
Covers (s ∷ ss) [] = ⊥
Covers (s ∷ ss) (t ∷ ts) =
    (t.start_sample ≤ s.start_sample) × (s.end_sample ≤ t.end_sample) × Covers ss ts

pub Spans-le : (low high : ℕ) (segments : List SpeechSegment) → Spans low high segments → low ≤ high
Spans-le low high [] h = h
Spans-le low high (s ∷ rest) h = omega (arith, Spans-le s.end_sample high rest h.2)

Spans-low :
    (low low' high : ℕ) (segments : List SpeechSegment)
    → low ≤ low'
    → Spans low' high segments
    → Spans low high segments
Spans-low low low' high [] h k = omega arith
Spans-low low low' high (s ∷ rest) h k = (omega arith, k.1, k.2)

pub new_segment-fits :
    (start stop length : ℕ)
    → start < stop
    → stop ≤ length
    → new_segment start stop length ≡ ok (record { start_sample = start; end_sample = stop })
unfolding new_segment
new_segment-fits start stop length h k = ground arith

capped : ℕ → ℕ → ℕ → ℕ
capped value amount limit = if leb (limit - value) amount then limit else value + amount

add_and_cap-fits :
    (value amount limit : ℕ)
    → value ≤ limit
    → add_and_cap value amount limit ≡ ok (capped value amount limit)
unfolding add_and_cap capped
add_and_cap-fits value amount limit h = ground arith

capped_bounds :
    (value amount limit : ℕ)
    → value ≤ limit
    → (value ≤ capped value amount limit)
      × (capped value amount limit ≤ limit)
      × (capped value amount limit ≤ value + amount)
unfolding capped
capped_bounds value amount limit h = ground arith

-- The facing ends never cross.
reach_bound :
    (padding doubled_padding silence : ℕ)
    → doubled_padding ≡ padding * 2
    → reach padding doubled_padding silence * 2 ≤ silence
unfolding reach
reach_bound padding doubled_padding silence h = ground arith

Covers-start :
    (m t : SpeechSegment) (rest out : List SpeechSegment)
    → m.start_sample ≤ t.start_sample
    → m.end_sample ≡ t.end_sample
    → Covers (m ∷ rest) out
    → Covers (t ∷ rest) out
Covers-start m t rest [] h e c = c
Covers-start m t rest (o ∷ out) h e c = (omega arith, omega arith, c.2)

-- A padded list: what `pad_from` makes of `s ∷ rest`.
abbrev Padded :
    ℕ → SpeechSegment → List SpeechSegment → Result VadError (List SpeechSegment) → Type 0
Padded high s rest r =
    (out : List SpeechSegment) × (r ≡ ok out)
    × Spans s.start_sample high out
    × Covers (s ∷ rest) out

pad_from-Padded :
    (padding doubled_padding high : ℕ) (s : SpeechSegment) (rest : List SpeechSegment)
    → doubled_padding ≡ padding * 2
    → s.start_sample < s.end_sample
    → Spans s.end_sample high rest
    → Padded high s rest (pad_from padding doubled_padding high s rest)
unfolding pad_from
pad_from-Padded padding doubled_padding high s [] d h k = (
  record s { end_sample = capped s.end_sample padding high } ∷ [],
  rw (add_and_cap-fits s.end_sample padding high k) refl,
  ground (arith, capped_bounds s.end_sample padding high),
  ground (arith, capped_bounds s.end_sample padding high),
)
pad_from-Padded padding doubled_padding high s (t ∷ rest) d h k =
    let silence = t.start_sample - s.end_sample in
    let amount = reach padding doubled_padding silence in
    let stop = capped s.end_sample amount high in
    let moved : SpeechSegment = record t { start_sample = t.start_sample - amount } in
    let enough = reach_bound padding doubled_padding silence d in
    let below : s.end_sample ≤ high = omega (arith, Spans-le t.end_sample high rest k.2) in
    let bounds = capped_bounds s.end_sample amount high below in
    let (out, made, spans, covers) =
      pad_from-Padded padding doubled_padding high moved rest d (omega arith) k.2 in
    let joined : Spans s.start_sample high (record s { end_sample = stop } ∷ out) =
      (omega arith, omega arith, Spans-low stop moved.start_sample high out (omega arith) spans) in
    (
      record s { end_sample = stop } ∷ out,
      rw
          (
            checked_sub-fits t.start_sample s.end_sample k.0,
            add_and_cap-fits s.end_sample amount high below,
          )
          (unfold subtract_and_floor in rw made refl),
      joined,
      (omega arith, bounds.0, Covers-start moved t rest out (omega arith) refl covers),
    )

abbrev recheck : ℕ → SpeechSegment → Result VadError SpeechSegment
recheck length s = new_segment s.start_sample s.end_sample length

collect-Spans :
    (length low : ℕ) (segments : List SpeechSegment)
    → Spans low length segments
    → collect (recheck length) segments ≡ ok segments
collect-Spans length low [] h = refl
collect-Spans length low (s ∷ rest) h =
    rw
      (
        new_segment-fits s.start_sample s.end_sample length h.1
            (Spans-le s.end_sample length rest h.2),
        collect-Spans length s.end_sample rest h.2,
      )
      refl

pad_all-Padded :
    (padding doubled_padding length : ℕ) (raw : List SpeechSegment)
    → doubled_padding ≡ padding * 2
    → Spans 0 length raw
    → (out : List SpeechSegment) × (pad_all padding doubled_padding length raw ≡ ok out)
      × Spans 0 length out
      × Covers raw out
unfolding pad_all subtract_and_floor
pad_all-Padded padding doubled_padding length [] d h = ([], refl, h, tt)
pad_all-Padded padding doubled_padding length (s ∷ rest) d h =
    let moved : SpeechSegment = record s { start_sample = s.start_sample - padding } in
    let (out, made, spans, covers) =
      pad_from-Padded padding doubled_padding length moved rest d (omega arith) h.2 in
    (
      out,
      made,
      Spans-low 0 moved.start_sample length out (omega arith) spans,
      Covers-start moved s rest out (omega arith) refl covers,
    )

-- Padding ordered disjoint segments within the input by a padding whose double is exact never
-- fails, keeps them ordered, disjoint and within the input, and only widens each of them.
pub apply_padding-Spans :
    (raw : List SpeechSegment) (padding doubled_padding length : ℕ)
    → doubled_temporal_sample_count padding ≡ ok doubled_padding
    → Spans 0 length raw
    → (out : List SpeechSegment) × (apply_padding raw padding doubled_padding length ≡ ok out)
      × Spans 0 length out
      × Covers raw out
unfolding apply_padding doubled_temporal_sample_count checked_mul
apply_padding-Spans raw padding doubled_padding length d h =
    let (out, made, spans, covers) =
      pad_all-Padded padding doubled_padding length raw (ground arith) h in
    (out, rw made (collect-Spans length 0 out spans), spans, covers)
