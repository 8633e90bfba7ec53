-- ===== src/Stitch/Tests.antt =====
-- Two overlapping windows on hundredths of a second.
use gigaam_v3_runtime.Base.{ℕ, ◌≡◌, refl, List, [], ◌∷◌, ◌&&◌, leb, ok}
use gigaam_v3_runtime.Base.Arithmetic.{centiseconds}
use gigaam_v3_runtime.Transcript.{
  Unicode, TranscriptWord, finite_nonnegative, same_normalized, same_text, normalize_word,
}
use gigaam_v3_runtime.Stitch.{WindowWords, slice_to, slice_from, stitch_aligned}
use gigaam_v3_runtime.Stitch.Slices.{concat, AreSlices, stitch_aligned-AreSlices}

abbrev pub latin : Unicode
latin = record {
  is_whitespace = λ c. leb c 32;
  is_alphanumeric = λ c. leb 97 c && leb c 122;
  to_lowercase = λ c. c ∷ [];
}

abbrev pub word : ℕ → ℕ → TranscriptWord ℕ
word letter start = record { text = letter ∷ []; start = start; end = start }

abbrev two_windows : List (WindowWords ℕ)
two_windows =
    record {
      window = record { start = 0; end = 300 };
      words = word 97 0 ∷ word 98 100 ∷ word 99 250 ∷ [];
    }
    ∷ record { window = record { start = 200; end = 500 }; words = word 99 250 ∷ word 100 400 ∷ [] }
    ∷ []

stitched :
    stitch_aligned latin centiseconds two_windows 25
    ≡ ok (word 97 0 ∷ word 98 100 ∷ word 99 250 ∷ word 100 400 ∷ [])
unfolding stitch_aligned slice_to same_normalized same_text normalize_word slice_from
stitched = refl

stitch_aligned-AreSlices_example :
    (slices : List (List (TranscriptWord ℕ))) × (stitch_aligned latin centiseconds two_windows 25
      ≡ ok (concat slices))
    × AreSlices latin centiseconds two_windows slices
unfolding finite_nonnegative
stitch_aligned-AreSlices_example =
    stitch_aligned-AreSlices latin centiseconds two_windows 25 refl (refl, (refl, tt))
