-- ===== src/Channels/Selection.antt =====
-- A selection that the constructors accept, and that the selecting functions always return one.
use gigaam_v3_runtime.Base.{
  ℕ, zero, suc, ◌+◌, ◌<◌, ◌≤◌, ◌≡◌, refl, ◌⊎◌, >>=-eq-ok, inl, inr, false, none, some, List, [],
  ◌∷◌, arith, if◌then◌else◌, ◌==◌, ==_iff, Bool-cases, Result, ok, err, Result-cases, length,
}
use gigaam_v3_runtime.Base.Floats.{FloatOrder}
use gigaam_v3_runtime.Channels.{
  ChannelError, new_channel, validate_from, validate_against, new_selection, first_channel,
  channels_from, all_channels, BatchProjection, single_output, separate_channels,
  DuplicateClassification, dual_mono, not_dual_mono, project, select_batch_by, classify,
  select_batch_channels, new_source_count,
}

-- Strictly ascending from `low` on, and below `source`.
abbrev pub Ascending : ℕ → ℕ → List ℕ → Type 0
Ascending low source [] = Unit {0}
Ascending low source (index ∷ rest) =
    (low ≤ index) × (index < source) × Ascending (suc index) source rest

-- What a selection promises: at least one channel, in ascending order, each a source channel.
abbrev pub IsSelection : ℕ → List ℕ → Type 0
IsSelection source channels = (0 < length channels) × Ascending 0 source channels

validate_from-Ascending :
    (previous source : ℕ) (channels : List ℕ)
    → Ascending (suc previous) source channels
    → validate_from (some previous) source channels ≡ ok tt
unfolding validate_from
validate_from-Ascending previous source [] h = refl
validate_from-Ascending previous source (index ∷ rest) h =
    ground (arith, validate_from-Ascending index source rest h.2)

validate_step :
    (previous source index : ℕ) (rest : List ℕ)
    → validate_from (some previous) source (index ∷ rest) ≡ ok tt
    → (previous < index) × (index < source) × (validate_from (some index) source rest ≡ ok tt)
unfolding validate_from
validate_step previous source index rest h = ground arith

validate_from_sound :
    (previous source : ℕ) (channels : List ℕ)
    → validate_from (some previous) source channels ≡ ok tt
    → Ascending (suc previous) source channels
validate_from_sound previous source [] h = tt
validate_from_sound previous source (index ∷ rest) h =
    let (above, below, passed) = validate_step previous source index rest h in
    (above, below, validate_from_sound index source rest passed)

validate_first :
    (source index : ℕ) (rest : List ℕ)
    → validate_from none source (index ∷ rest) ≡ ok tt
    → (index < source) × (validate_from (some index) source rest ≡ ok tt)
unfolding validate_from
validate_first source index rest h = ground arith

pub new_selection-IsSelection :
    (source : ℕ) (channels : List ℕ)
    → IsSelection source channels
    → new_selection source channels ≡ ok channels
unfolding new_selection validate_against validate_from
new_selection-IsSelection source [] h = absurd (omega arith)
new_selection-IsSelection source (index ∷ rest) h =
    ground (arith, validate_from-Ascending index source rest h.1.2)

new_selection_sound :
    (source : ℕ) (channels out : List ℕ)
    → new_selection source channels ≡ ok out
    → (out ≡ channels) × IsSelection source channels
unfolding new_selection validate_against
new_selection_sound source [] out h = cc
new_selection_sound source (index ∷ rest) out h =
    let (u, passed, same) =
      >>=-eq-ok (validate_from none source (index ∷ rest)) (λ _. ok (index ∷ rest)) h in
    let (below, passed') = validate_first source index rest passed in
    (
      ground arith,
      (omega arith, (omega arith, below, validate_from_sound index source rest passed')),
    )

new_selection_total :
    (source : ℕ) (channels : List ℕ)
    → (new_selection source channels ≡ ok channels)
      ⊎ ((e : ChannelError) × (new_selection source channels ≡ err e))
unfolding new_selection
new_selection_total source channels = elim (Result-cases (validate_against source channels)) [
  | inl (u, e) ↦ inl (rw e refl)
  | inr (error, e) ↦ inr (error, rw e refl)
]

-- The constructor accepts exactly the lists that are selections, and keeps them as they are: a
-- selection is its own result, and any other list is refused with an error.
pub new_selection_iff :
    (source : ℕ) (channels : List ℕ)
    → (IsSelection source channels × (new_selection source channels ≡ ok channels))
      ⊎ ((¬ IsSelection source channels)
          × ((e : ChannelError) × (new_selection source channels ≡ err e)))
new_selection_iff source channels = elim (new_selection_total source channels) [
  | inl e ↦ inl ((new_selection_sound source channels channels e).1, e)
  | inr (error, e) ↦
      inr (λ s. let accepted = new_selection-IsSelection source channels s in cc, (error, e))
]

-- `left` numbers from `index` on.
abbrev pub count_up : ℕ → ℕ → List ℕ
count_up zero index = []
count_up (suc left) index = index ∷ count_up left (suc index)

channels_from-count_up :
    (left index source : ℕ)
    → index + left ≤ source
    → channels_from left index source ≡ ok (count_up left index)
unfolding channels_from
channels_from-count_up zero index source h = refl
channels_from-count_up (suc left) index source h =
    ground (arith, channels_from-count_up left (suc index) source (omega arith))

count_up-Ascending :
    (left index source : ℕ) → index + left ≤ source → Ascending index source (count_up left index)
count_up-Ascending zero index source h = tt
count_up-Ascending (suc left) index source h =
    (omega arith, omega arith, count_up-Ascending left (suc index) source (omega arith))

pub count_up-IsSelection : (source : ℕ) → 0 < source → IsSelection source (count_up source 0)
count_up-IsSelection zero h = elim h [ ]
count_up-IsSelection (suc n) h = (omega arith, count_up-Ascending (suc n) 0 (suc n) (omega arith))

pub all_channels_lem : (source : ℕ) → 0 < source → all_channels source ≡ ok (count_up source 0)
unfolding all_channels
all_channels_lem source h =
    rw (channels_from-count_up source 0 source (omega arith))
      (new_selection-IsSelection source (count_up source 0) (count_up-IsSelection source h))

pub first-IsSelection : (source : ℕ) → 0 < source → IsSelection source (0 ∷ [])
first-IsSelection source h = (omega arith, (omega arith, h, tt))

first_channel_lem : (source : ℕ) → 0 < source → first_channel source ≡ ok (0 ∷ [])
unfolding first_channel
first_channel_lem source h =
    ground (arith, new_selection-IsSelection source (0 ∷ []) (first-IsSelection source h))

-- The channels that a classification and a projection keep.
abbrev pub kept : DuplicateClassification → BatchProjection → ℕ → List ℕ
kept not_dual_mono separate_channels source = count_up source 0
kept _ _ source = 0 ∷ []

project-kept :
    (duplicate : DuplicateClassification) (projection : BatchProjection) (source : ℕ)
    → 0 < source
    → project duplicate projection source ≡ ok (kept duplicate projection source)
unfolding project
project-kept dual_mono single_output source h = first_channel_lem source h
project-kept dual_mono separate_channels source h = first_channel_lem source h
project-kept not_dual_mono single_output source h = first_channel_lem source h
project-kept not_dual_mono separate_channels source h = all_channels_lem source h

pub kept-IsSelection :
    (duplicate : DuplicateClassification) (projection : BatchProjection) (source : ℕ)
    → 0 < source
    → IsSelection source (kept duplicate projection source)
kept-IsSelection dual_mono single_output source h = first-IsSelection source h
kept-IsSelection dual_mono separate_channels source h = first-IsSelection source h
kept-IsSelection not_dual_mono single_output source h = first-IsSelection source h
kept-IsSelection not_dual_mono separate_channels source h = count_up-IsSelection source h

module _ (f : FloatOrder) (correlation : ℕ → ℕ → Result ChannelError f.Value) where
  abbrev duplicates : f.Value → ℕ → f.Value → DuplicateClassification
  duplicates fixed channels value =
      if channels == 2
      then (if f.lt fixed value then dual_mono else not_dual_mono)
      else not_dual_mono

  classify-duplicates :
      (fixed value : f.Value) (channels : ℕ)
      → 0 < channels
      → correlation 0 1 ≡ ok value
      → classify f correlation fixed channels ≡ ok (duplicates fixed channels value)
  unfolding classify
  classify-duplicates fixed value channels h e = elim (Bool-cases (channels == 2)) [
    | inl two ↦
        let two' : channels ≡ 2 = (==_iff channels 2).0 two in
        rw two' (unfold new_channel in rw e refl)
    | inr other ↦ rw other refl
  ]

  -- Where there is a channel, and the correlation of the first two can be computed, the batch
  -- selection succeeds: a correlated pair is dual mono and keeps its first channel, and any other
  -- input keeps its first channel or all of them as the policy asks; the result is a selection.
  pub select_batch_channels_lem :
      (fixed value : f.Value) (channels : ℕ) (projection : BatchProjection)
      → 0 < channels
      → correlation 0 1 ≡ ok value
      → let duplicate = duplicates fixed channels value in
        (select_batch_channels f correlation fixed channels projection
          ≡ ok (record {
            source_channels = channels;
            selection = kept duplicate projection channels;
            duplicate = duplicate;
          }))
        × IsSelection channels (kept duplicate projection channels)
  unfolding select_batch_channels new_source_count select_batch_by
  select_batch_channels_lem fixed value channels projection h e =
      let nonzero : (channels == 0) ≡ false = ground arith in
      (
        rw
            (
              nonzero,
              classify-duplicates fixed value channels h e,
              project-kept (duplicates fixed channels value) projection channels h,
            )
            refl,
        kept-IsSelection (duplicates fixed channels value) projection channels h,
      )
