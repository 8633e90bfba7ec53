-- ===== src/Vad/Tests.antt =====
-- Runs of the segmentation, with a detector that is sure of every frame.
use gigaam_v3_runtime.Base.{ℕ, ◌≡◌, refl, List, [], ◌∷◌, arith, ok, All}
use gigaam_v3_runtime.Base.Words.{checked_mul, checked_sub}
use gigaam_v3_runtime.Base.Floats.{counting}
use gigaam_v3_runtime.Vad.{
  VadPolicyConfig, SpeechSegment, segments_from_probabilities, scan, frame, finish_scan,
  apply_padding, new_segment, doubled_temporal_sample_count,
}
use gigaam_v3_runtime.Vad.Padding.{Spans, Covers, apply_padding-Spans}
use gigaam_v3_runtime.Vad.Detection.{IsLong, segments_from_probabilities-Spans}

abbrev config : VadPolicyConfig ℕ
config = record {
  speech = 1;
  silence = 1;
  minimum_speech = 600;
  minimum_silence = 512;
  one_sided = 480;
  doubled = 960;
}

-- Two bursts with a gap of two hops, and a burst of one hop that is dropped.
abbrev bursts : List ℕ
bursts = 1 ∷ 1 ∷ 0 ∷ 0 ∷ 1 ∷ 1 ∷ 1 ∷ 0 ∷ 0 ∷ 1 ∷ 0 ∷ 0 ∷ []

bursts_found :
    segments_from_probabilities counting bursts 6000 config
    ≡ ok (
        record { start_sample = 0; end_sample = 1504 }
        ∷ record { start_sample = 1568; end_sample = 4064 }
        ∷ [])
unfolding segments_from_probabilities scan frame finish_scan apply_padding checked_mul checked_sub
    new_segment
bursts_found = refl

segments_from_probabilities-Spans_example :
    (out : List SpeechSegment) × (segments_from_probabilities counting bursts 6000 config ≡ ok out)
    × Spans 0 6000 out
    × All (IsLong 600) out
unfolding doubled_temporal_sample_count checked_mul
segments_from_probabilities-Spans_example =
    segments_from_probabilities-Spans counting config 6000 bursts (ground arith) (omega arith) refl
      refl

abbrev raw : List SpeechSegment
raw =
    record { start_sample = 100; end_sample = 900 }
    ∷ record { start_sample = 1000; end_sample = 2000 }
    ∷ []

apply_padding-Spans_example :
    (out : List SpeechSegment) × (apply_padding raw 480 960 2100 ≡ ok out)
    × Spans 0 2100 out
    × Covers raw out
unfolding doubled_temporal_sample_count checked_mul
apply_padding-Spans_example = apply_padding-Spans raw 480 960 2100 refl (omega arith)
