-- ===== src/Channels/Tests.antt =====
-- Runs of the channel selection.
use gigaam_v3_runtime.Base.{
  ℕ, zero, suc, ◌≡◌, ◌⊎◌, refl, List, [], ◌∷◌, arith, ok, err, false, some,
}
use gigaam_v3_runtime.Base.Floats.{counting}
use gigaam_v3_runtime.Channels.{
  ChannelError, separate_channels, dual_mono, new_selection, select_batch_channels,
  select_pairwise_channels, select_pairwise_by, retain_from, repeats, new_source_count,
  validate_against, validate_from,
}
use gigaam_v3_runtime.Channels.Selection.{IsSelection, new_selection_iff, select_batch_channels_lem}
use gigaam_v3_runtime.Channels.Pairwise.{Independent, Accounted, select_pairwise_channels_lem}

-- Channels 0 and 2 carry one signal.
abbrev similarity : ℕ → ℕ → ℕ
similarity (suc (suc zero)) zero = 100
similarity a b = 10

deduplicates :
    select_pairwise_channels counting (λ a b. ok (similarity a b)) 4 false (some 98)
    ≡ ok (0 ∷ 1 ∷ 3 ∷ [])
unfolding select_pairwise_channels select_pairwise_by retain_from repeats new_source_count
    new_selection validate_against validate_from
deduplicates = refl

new_selection_iff_example :
    (IsSelection 4 (0 ∷ 3 ∷ 3 ∷ []) × (new_selection 4 (0 ∷ 3 ∷ 3 ∷ []) ≡ ok (0 ∷ 3 ∷ 3 ∷ [])))
    ⊎ ((¬ IsSelection 4 (0 ∷ 3 ∷ 3 ∷ []))
        × ((e : ChannelError) × (new_selection 4 (0 ∷ 3 ∷ 3 ∷ []) ≡ err e)))
new_selection_iff_example = new_selection_iff 4 (0 ∷ 3 ∷ 3 ∷ [])

select_batch_channels_lem_example :
    (select_batch_channels counting (λ a b. ok 99) 98 2 separate_channels
      ≡ ok (record { source_channels = 2; selection = 0 ∷ []; duplicate = dual_mono }))
    × IsSelection 2 (0 ∷ [])
select_batch_channels_lem_example =
    select_batch_channels_lem counting (λ a b. ok 99) 98 99 2 separate_channels (omega arith) refl

select_pairwise_channels_lem_example :
    (out : List ℕ) × (select_pairwise_channels counting
        (λ a b. ok (similarity a b))
        4
        false
        (some 98)
      ≡ ok out)
    × IsSelection 4 out
    × Independent counting similarity 98 out
    × Accounted counting similarity 98 4 out
select_pairwise_channels_lem_example =
    select_pairwise_channels_lem counting similarity 98 4 (omega arith)
