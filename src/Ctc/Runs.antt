-- ===== src/Ctc/Runs.antt =====
-- The tokens of greedy decoding are the runs of its labels.
use gigaam_v3_runtime.Base.{ℕ, ◌≡◌, ◌↔◌, Option, List, map, ok, Result}
use gigaam_v3_runtime.Base.Words.{usize_max}
use gigaam_v3_runtime.Base.Floats.{FloatOrder}
use gigaam_v3_runtime.Ctc.{CtcError, is_silent, validate_greedy_input, greedy_masked}
use gigaam_v3_runtime.Ctc.Collapse.{
  collapse, collapse_iff, collapse-FramesFrom, Occurs, Begins, FramesFrom,
}
use gigaam_v3_runtime.Ctc.Greedy.{plain_token, greedy_masked_lem}

-- On input that passes validation, greedy decoding succeeds with tokens at strictly ascending
-- frames. There is a token exactly where a run of a label that is no blank begins: with that label,
-- at the frame at which the run begins.
pub greedy_masked_runs :
    (f scores : FloatOrder) (selected : List f.Value → ℕ → Result CtcError scores.Value)
    (values : List f.Value) (frames vocabulary blank : ℕ) (space : Option ℕ)
    → validate_greedy_input f values frames vocabulary blank space ≡ ok tt
    → (runs : List (ℕ × ℕ)) × (labels : List ℕ) × (greedy_masked f scores selected values frames
          vocabulary blank space
        ≡ ok (map plain_token runs, map (is_silent blank space) labels, labels))
      × FramesFrom 0 runs
      × ((id k : ℕ) → Occurs (id, k) runs ↔ Begins blank usize_max labels k id)
greedy_masked_runs f scores selected values frames vocabulary blank space valid =
    let (labels, decoded, n, rows) =
      greedy_masked_lem f scores selected values frames vocabulary blank space valid in
    (
      collapse blank usize_max 0 labels,
      labels,
      decoded,
      collapse-FramesFrom blank usize_max 0 labels,
      collapse_iff blank usize_max labels,
    )
