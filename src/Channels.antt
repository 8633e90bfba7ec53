-- ===== src/Channels.antt =====
-- crates/transcription/src/channel_selection.rs: which source channels are transcribed. The
-- correlation of two channels, which may fail, is an argument; its values and the thresholds are
-- compared through the interface of floats.
pub mod Selection
pub mod Pairwise
pub mod Tests
use gigaam_v3_runtime.Base.{
  ℕ, zero, suc, Bool, true, false, not, ◌&&◌, ◌||◌, Option, none, some, List, [], ◌∷◌, ◌++◌,
  if◌then◌else◌, ltb, leb, ◌==◌, Result, ok, err, ◌>>=◌, ◌>>◌, refuse_if,
}
use gigaam_v3_runtime.Base.Floats.{FloatOrder}

pub data ChannelError : Type 0 where
  no_source_channel empty_window threshold_range : ChannelError
  empty_selection not_ascending : ChannelError
  outside selected_outside : ℕ → ℕ → ChannelError
  correlation_failed : ChannelError

-- `SourceChannelCount::new`.
unfoldable pub new_source_count : ℕ → Result ChannelError ℕ
new_source_count value = do refuse_if (value == 0) no_source_channel; ok value

-- `SelectionWindowSamples::new`.
unfoldable pub new_selection_window : ℕ → Result ChannelError ℕ
new_selection_window value = do refuse_if (value == 0) empty_window; ok value

-- `OriginalChannel::new`, which validates against the source count.
unfoldable pub new_channel : ℕ → ℕ → Result ChannelError ℕ
new_channel index source = do refuse_if (leb source index) (outside index source); ok index

pub data BatchProjection : Type 0 where
  single_output separate_channels : BatchProjection

pub data DuplicateClassification : Type 0 where
  dual_mono not_dual_mono : DuplicateClassification

-- The check of one selected channel against the one before it.
ascends : Option ℕ → ℕ → Bool
ascends none index = true
ascends (some previous) index = ltb previous index

-- The loop of `ChannelSelection::validate_against`.
unfoldable pub validate_from : Option ℕ → ℕ → List ℕ → Result ChannelError (Unit {0})
unfolding ascends
validate_from previous source [] = ok tt
validate_from previous source (index ∷ rest) = do
  refuse_if (leb source index) (selected_outside index source)
  refuse_if (not (ascends previous index)) not_ascending
  validate_from (some index) source rest

unfoldable pub validate_against : ℕ → List ℕ → Result ChannelError (Unit {0})
validate_against source [] = err empty_selection
validate_against source (index ∷ rest) = validate_from none source (index ∷ rest)

-- `ChannelSelection::new`; a selection is its list of channel indices.
unfoldable pub new_selection : ℕ → List ℕ → Result ChannelError (List ℕ)
new_selection source channels = do validate_against source channels; ok channels

unfoldable pub first_channel : ℕ → Result ChannelError (List ℕ)
unfolding new_selection new_channel
first_channel source = do channel ← new_channel 0 source; new_selection source (channel ∷ [])

-- The loop of `ChannelSelection::all`, from `index` with `left` channels to go.
unfoldable pub channels_from : ℕ → ℕ → ℕ → Result ChannelError (List ℕ)
unfolding new_channel
channels_from zero index source = ok []
channels_from (suc left) index source = do
  channel ← new_channel index source
  rest ← channels_from left (suc index) source
  ok (channel ∷ rest)

unfoldable pub all_channels : ℕ → Result ChannelError (List ℕ)
all_channels source = do channels ← channels_from source 0 source; new_selection source channels

pub record BatchChannelSelection : Type 0 where
  pub source_channels : ℕ
  pub selection : List ℕ
  pub duplicate : DuplicateClassification

-- The selection that `select_batch_by` makes of the classification.
unfoldable pub project :
    DuplicateClassification → BatchProjection → ℕ → Result ChannelError (List ℕ)
project dual_mono projection source = first_channel source
project not_dual_mono single_output source = first_channel source
project not_dual_mono separate_channels source = all_channels source

module _ (f : FloatOrder) where
  open f use {Value, zero_value, one_value, is_finite, lt, le}

  -- `CorrelationThreshold::new`.
  unfoldable pub new_threshold : Value → Result ChannelError Value
  new_threshold value = do
    refuse_if (not (is_finite value) || not (le zero_value value && le value one_value))
        threshold_range
    ok value

  -- `Disabled`, or `Deduplicate` with its threshold.
  abbrev pub PairwiseChannelPolicy : Type 0
  PairwiseChannelPolicy = Option Value

  module _ (correlation : ℕ → ℕ → Result ChannelError Value) where
    classify_pair : Value → ℕ → Result ChannelError DuplicateClassification
    unfolding new_channel
    classify_pair fixed source = do
      first ← new_channel 0 source
      second ← new_channel 1 source
      value ← correlation first second
      ok (if lt fixed value then dual_mono else not_dual_mono)

    unfoldable pub classify : Value → ℕ → Result ChannelError DuplicateClassification
    unfolding classify_pair
    classify fixed source = if source == 2 then classify_pair fixed source else ok not_dual_mono

    -- `select_batch_by`; `fixed` is `FIXED_DUPLICATE_THRESHOLD`.
    unfoldable pub select_batch_by :
        Value → ℕ → BatchProjection → Result ChannelError BatchChannelSelection
    select_batch_by fixed source projection = do
      duplicate ← classify fixed source
      selection ← project duplicate projection source
      ok (record { source_channels = source; selection = selection; duplicate = duplicate })

    -- Whether a candidate repeats a retained channel: the search stops at the first that it
    -- repeats, or at a failure.
    unfoldable pub repeats : Value → ℕ → List ℕ → Result ChannelError Bool
    repeats threshold candidate [] = ok false
    repeats threshold candidate (earlier ∷ rest) = do
      value ← correlation candidate earlier
      let later = repeats threshold candidate rest
      if lt threshold value then ok true else later

    -- The loop of `select_pairwise_by`, from `index` with `left` channels to go.
    unfoldable pub retain_from : Value → ℕ → ℕ → ℕ → List ℕ → Result ChannelError (List ℕ)
    unfolding new_channel
    retain_from threshold zero index source retained = ok retained
    retain_from threshold (suc left) index source retained = do
      candidate ← new_channel index source
      duplicate ← repeats threshold candidate retained
      retain_from threshold left (suc index) source
          (if duplicate then retained else (retained ++ (candidate ∷ [])))

    unfoldable pub select_pairwise_by : PairwiseChannelPolicy → ℕ → Result ChannelError (List ℕ)
    select_pairwise_by none source = all_channels source
    select_pairwise_by (some threshold) source = do
      retained ← retain_from threshold source 0 source []
      new_selection source retained

    -- `select_batch_channels` on that many channels.
    unfoldable pub select_batch_channels :
        Value → ℕ → BatchProjection → Result ChannelError BatchChannelSelection
    select_batch_channels fixed channels projection = do
      source ← new_source_count channels
      select_batch_by fixed source projection

    -- `select_pairwise_channels`; `all_empty` tells that every channel is empty.
    unfoldable pub select_pairwise_channels :
        ℕ → Bool → PairwiseChannelPolicy → Result ChannelError (List ℕ)
    select_pairwise_channels channels all_empty policy = do
      source ← new_source_count channels
      if all_empty then all_channels source else select_pairwise_by policy source
