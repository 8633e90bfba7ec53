-- ===== src/Ctc/Tests.antt =====
-- A matrix of four rows over three labels, the last of them the blank.
use gigaam_v3_runtime.Base.{
  ℕ, Bool, ◌==◌, arith, ◌≡◌, ◌↔◌, refl, List, [], ◌∷◌, map, some, Result, ok, err, length,
}
use gigaam_v3_runtime.Base.Words.{usize_max, checked_mul}
use gigaam_v3_runtime.Base.Floats.{counting}
use gigaam_v3_runtime.Ctc.{
  CtcError, Token, no_label, is_silent, greedy_masked, validate_greedy_input, check_finite,
}
use gigaam_v3_runtime.Ctc.Collapse.{collapse, Occurs, Begins, FramesFrom}
use gigaam_v3_runtime.Ctc.Words.{
  Piece, word_token_spans, pieces_of, scan_pieces, take_piece, flush, push_span, finish_words,
  is_blank, trim_start_markers, starts_with_marker, AreSpans, word_token_spans-AreSpans,
}
use gigaam_v3_runtime.Ctc.Runs.{greedy_masked_runs}
use gigaam_v3_runtime.Ctc.Greedy.{plain_token, RowLabels, greedy_masked_lem}

abbrev matrix : List ℕ
matrix = 1 ∷ 9 ∷ 0 ∷ 2 ∷ 7 ∷ 7 ∷ 0 ∷ 0 ∷ 5 ∷ 3 ∷ 3 ∷ 1 ∷ []

abbrev no_score : List ℕ → ℕ → Result CtcError ℕ
no_score row best = err no_label

greedy_masked_lem_example :
    (labels : List ℕ) × (greedy_masked counting counting no_score matrix 4 3 2 (some 1)
      ≡ ok (
        map plain_token (collapse 2 usize_max 0 labels),
        map (is_silent 2 (some 1)) labels,
        labels,
      ))
    × (length labels ≡ 4)
    × RowLabels counting 3 matrix 0 labels
unfolding validate_greedy_input checked_mul check_finite
greedy_masked_lem_example = greedy_masked_lem counting counting no_score matrix 4 3 2 (some 1) refl

collapse_runs : collapse 2 usize_max 0 (1 ∷ 1 ∷ 2 ∷ 1 ∷ 0 ∷ []) ≡ (1, 0) ∷ (1, 3) ∷ (0, 4) ∷ []
unfolding collapse
collapse_runs = refl

greedy_masked_runs_example :
    (runs : List (ℕ × ℕ)) × (labels : List ℕ) × (greedy_masked counting counting no_score matrix 4 3
        2
        (some 1)
      ≡ ok (map plain_token runs, map (is_silent 2 (some 1)) labels, labels))
    × FramesFrom 0 runs
    × ((id k : ℕ) → Occurs (id, k) runs ↔ Begins 2 usize_max labels k id)
unfolding validate_greedy_input checked_mul check_finite
greedy_masked_runs_example =
    greedy_masked_runs counting counting no_score matrix 4 3 2 (some 1) refl

abbrev is_space : ℕ → Bool
is_space c = c == 32

-- `<blk>`, `▁hel`, `lo`, `▁` and `▁world`, with the first letters for the words.
abbrev vocabulary : List Piece
vocabulary = (60 ∷ []) ∷ (0x2581 ∷ 104 ∷ []) ∷ (108 ∷ []) ∷ (0x2581 ∷ []) ∷ (0x2581 ∷ 119 ∷ []) ∷ []

abbrev words : List (Token ℕ)
words = plain_token (1, 0) ∷ plain_token (2, 1) ∷ plain_token (3, 2) ∷ plain_token (4, 3) ∷ []

bare_marker_excluded : word_token_spans is_space words vocabulary ≡ some ((0, 1) ∷ (3, 3) ∷ [])
unfolding word_token_spans pieces_of scan_pieces take_piece flush push_span finish_words is_blank
    trim_start_markers starts_with_marker
bare_marker_excluded = refl

word_token_spans-AreSpans_example :
    (spans : List (ℕ × ℕ)) × (word_token_spans is_space words vocabulary ≡ some spans)
    × AreSpans 0 4 spans
word_token_spans-AreSpans_example =
    word_token_spans-AreSpans is_space words vocabulary
      (omega arith, (omega arith, (omega arith, (omega arith, tt))))
