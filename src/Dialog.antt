-- ===== src/Dialog.antt =====
-- crates/transcription/src/dialog.rs: the dialogue line that is built from the snapshots of several
-- channels, and the patches that carry it. The sort of the library is a stable insertion sort, and
-- `total_lt` is "less" of `f32::total_cmp`.
pub mod Patches
pub mod Ordering
pub mod Tests
use gigaam_v3_runtime.Base.{
  ℕ, suc, Bool, true, false, not, ◌&&◌, ◌||◌, Option, none, some, List, [], ◌∷◌, ◌++◌,
  if◌then◌else◌, ltb, ◌==◌, length, drop, Result, ok, err, ◌>>=◌, ◌>>◌, refuse_if, map_err,
}
use gigaam_v3_runtime.Base.Arithmetic.{FloatArithmetic}
use gigaam_v3_runtime.Transcript.{
  Text, Unicode, TranscriptError, TranscriptWord, WordStability, revisable, stable, WordFinality,
  open_ended, final, is_blank, same_text, finite_nonnegative,
}

pub data DialogError : Type 0 where
  refused : TranscriptError → DialogError
  no_words empty_turn end_before_start bad_frontier duplicate_channel unordered_words : DialogError

pub record SnapshotWord (V : Type 0) : Type 0 where
  pub word : TranscriptWord V
  pub finality : WordFinality
  pub stability : WordStability

pub record ChannelSnapshot (V : Type 0) : Type 0 where
  pub channel : ℕ
  pub words : List (SnapshotWord V)
  pub cut_time : V
  pub stable_frontier : V

pub data BackchannelMark : Type 0 where
  no_mark yes_mark : BackchannelMark

pub record DialogTurn (V : Type 0) : Type 0 where
  pub channel : ℕ
  pub index : ℕ
  pub start : V
  pub end : V
  pub text : Text
  pub stability : WordStability
  pub finality : WordFinality
  pub backchannel : BackchannelMark

pub record TurnsPatch (V : Type 0) : Type 0 where
  pub revise_from : ℕ
  pub turns : List (DialogTurn V)
  pub frontier : V

-- `BackchannelPolicy`, with the duration.
pub data BackchannelPolicy (V : Type 0) : Type 0 where
  disabled : BackchannelPolicy V
  mark_shorter_than : V → BackchannelPolicy V

pub data MergeMode : Type 0 where
  incremental terminal : MergeMode

pub record DialogMerger (V : Type 0) : Type 0 where
  pub turn_gap : V
  pub backchannel_policy : BackchannelPolicy V
  pub last : List (DialogTurn V)
  pub final_frontier : V
  pub stable_frontier : V

is_final : WordFinality → Bool
is_final final = true
is_final open_ended = false

is_stable : WordStability → Bool
is_stable stable = true
is_stable revisable = false

same_stability : WordStability → WordStability → Bool
same_stability stable stable = true
same_stability revisable revisable = true
same_stability _ _ = false

same_finality : WordFinality → WordFinality → Bool
same_finality final final = true
same_finality open_ended open_ended = true
same_finality _ _ = false

same_mark : BackchannelMark → BackchannelMark → Bool
same_mark no_mark no_mark = true
same_mark yes_mark yes_mark = true
same_mark _ _ = false

mark_of : Bool → BackchannelMark
mark_of true = yes_mark
mark_of false = no_mark

all : {A : Type 0} → (A → Bool) → List A → Bool
all test [] = true
all test (x ∷ xs) = test x && all test xs

any : {A : Type 0} → (A → Bool) → List A → Bool
any test [] = false
any test (x ∷ xs) = test x || any test xs

-- `join(" ")`.
join_texts : {V : Type 0} → List (SnapshotWord V) → Text
join_texts [] = []
join_texts (w ∷ []) = w.word.text
join_texts (w ∷ rest) = w.word.text ++ (32 ∷ join_texts rest)

finality_of : Bool → WordFinality
finality_of true = final
finality_of false = open_ended

stability_of : WordFinality → Bool → WordStability
stability_of final settled = stable
stability_of open_ended true = stable
stability_of open_ended false = revisable

module _ (u : Unicode) (a : FloatArithmetic) (total_lt : a.order.Value → a.order.Value → Bool) where
  open a.order use {Value, zero_value, is_finite, lt, le}

  -- `DialogTurn::new`.
  new_turn : DialogTurn Value → Result DialogError (DialogTurn Value)
  unfolding is_blank finite_nonnegative
  new_turn t = do
    refuse_if (is_blank u t.text) empty_turn
    map_err refused (finite_nonnegative a t.start)
    map_err refused (finite_nonnegative a t.end)
    refuse_if (lt t.end t.start) end_before_start
    ok t

  latest_end : Value → List (SnapshotWord Value) → Value
  latest_end end [] = end
  latest_end end (w ∷ rest) = latest_end (a.maximum end w.word.end) rest

  unfoldable pub finish_turn :
      ℕ → ℕ → List (SnapshotWord Value) → Value → Value → Result DialogError (DialogTurn Value)
  unfolding new_turn latest_end finality_of stability_of join_texts all is_final is_stable
  finish_turn channel index [] final_frontier stable_frontier = err no_words
  finish_turn channel index (first ∷ rest) final_frontier stable_frontier =
      let words = first ∷ rest in
      let end = latest_end first.word.start words in
      let finality = finality_of (all (λ w. is_final w.finality) words && le end final_frontier) in
      new_turn (record {
        channel = channel;
        index = index;
        start = first.word.start;
        end = end;
        text = join_texts words;
        stability =
            stability_of finality
              (all (λ w. is_stable w.stability) words && le end stable_frontier);
        finality = finality;
        backchannel = no_mark;
      })

  -- A word that starts at least the gap behind the end of the last word of the turn.
  opens_turn : Value → Option (SnapshotWord Value) → SnapshotWord Value → Bool
  opens_turn gap none w = false
  opens_turn gap (some last) w = le gap (a.sub w.word.start last.word.end)

  last_of : List (SnapshotWord Value) → Option (SnapshotWord Value)
  last_of [] = none
  last_of (w ∷ []) = some w
  last_of (w ∷ rest) = last_of rest

  -- The loop of `segment`, with the number of turns so far and the words of the current one.
  unfoldable pub segment_from :
      ℕ
      → Value
      → Value
      → Value
      → ℕ
      → List (SnapshotWord Value)
      → List (SnapshotWord Value)
      → Result DialogError (List (DialogTurn Value))
  unfolding opens_turn last_of finish_turn
  segment_from channel gap final_frontier stable_frontier index [] [] = ok []
  segment_from channel gap final_frontier stable_frontier index (w ∷ ws) [] = do
    turn ← finish_turn channel index (w ∷ ws) final_frontier stable_frontier
    ok (turn ∷ [])
  segment_from channel gap final_frontier stable_frontier index current (word ∷ rest) =
      let stay =
        segment_from channel gap final_frontier stable_frontier index (current ++ (word ∷ []))
          rest in
      let next =
        segment_from channel gap final_frontier stable_frontier (suc index) (word ∷ []) rest in
      if opens_turn gap (last_of current) word
      then (finish_turn channel index current final_frontier stable_frontier >>= λ turn.
          next >>= λ turns. ok (turn ∷ turns))
      else stay

  unfoldable pub segment :
      ChannelSnapshot Value → Value → Value → Value → Result DialogError (List (DialogTurn Value))
  unfolding segment_from
  segment c gap final_frontier stable_frontier =
      segment_from c.channel gap final_frontier stable_frontier 0 [] c.words

  segment_all :
      List (ChannelSnapshot Value)
      → Value
      → Value
      → Value
      → Result DialogError (List (DialogTurn Value))
  unfolding segment
  segment_all [] gap final_frontier stable_frontier = ok []
  segment_all (c ∷ cs) gap final_frontier stable_frontier = do
    turns ← segment c gap final_frontier stable_frontier
    later ← segment_all cs gap final_frontier stable_frontier
    ok (turns ++ later)

  -- "Less" by start, then channel, then index.
  unfoldable pub precedes : DialogTurn Value → DialogTurn Value → Bool
  precedes l r =
      if total_lt l.start r.start
      then true
      else if total_lt r.start l.start
      then false
      else if ltb l.channel r.channel
      then true
      else if ltb r.channel l.channel
      then false
      else ltb l.index r.index

  insert : DialogTurn Value → List (DialogTurn Value) → List (DialogTurn Value)
  unfolding precedes
  insert t [] = t ∷ []
  insert t (x ∷ xs) = if precedes x t then x ∷ insert t xs else t ∷ x ∷ xs

  unfoldable pub sort : List (DialogTurn Value) → List (DialogTurn Value)
  unfolding insert
  sort [] = []
  sort (t ∷ ts) = insert t (sort ts)

  -- A longer turn of another channel around this one. A turn is never its own peer, since the
  -- channels differ.
  overlapped_by : DialogTurn Value → DialogTurn Value → Bool
  overlapped_by t peer =
      not (peer.channel == t.channel)
      && (le peer.start t.start
          && (le t.end peer.end && lt (a.sub t.end t.start) (a.sub peer.end peer.start)))

  mark_turn : Value → List (DialogTurn Value) → DialogTurn Value → DialogTurn Value
  unfolding overlapped_by any mark_of
  mark_turn maximum_duration dialogue t = record t {
    backchannel =
        mark_of (le (a.sub t.end t.start) maximum_duration && any (overlapped_by t) dialogue);
  }

  mark_each : Value → List (DialogTurn Value) → List (DialogTurn Value) → List (DialogTurn Value)
  unfolding mark_turn
  mark_each maximum_duration dialogue [] = []
  mark_each maximum_duration dialogue (t ∷ ts) =
      mark_turn maximum_duration dialogue t ∷ mark_each maximum_duration dialogue ts

  unfoldable pub mark_backchannels :
      BackchannelPolicy Value → List (DialogTurn Value) → List (DialogTurn Value)
  unfolding mark_each
  mark_backchannels disabled dialogue = dialogue
  mark_backchannels (mark_shorter_than maximum_duration) dialogue =
      mark_each maximum_duration dialogue dialogue

  unfoldable pub approximately_equal : Value → Value → Bool
  approximately_equal l r = le (a.abs (a.sub l r)) (a.hundredths 6)

  unfoldable pub same_turn : DialogTurn Value → DialogTurn Value → Bool
  unfolding approximately_equal same_text same_stability same_finality same_mark
  same_turn l r =
      l.channel == r.channel
      && (l.index == r.index
          && (same_text l.text r.text
              && (approximately_equal l.start r.start
                  && (approximately_equal l.end r.end
                      && (same_stability l.stability r.stability
                          && (same_finality l.finality r.finality
                              && same_mark l.backchannel r.backchannel))))))

  unfoldable pub first_difference : List (DialogTurn Value) → List (DialogTurn Value) → ℕ
  unfolding same_turn
  first_difference [] ys = 0
  first_difference (x ∷ xs) [] = 0
  first_difference (x ∷ xs) (y ∷ ys) = if same_turn x y then suc (first_difference xs ys) else 0

  -- `windows(2).any(..)`, a word that starts before the one before it.
  is_unordered : List (SnapshotWord Value) → Bool
  is_unordered [] = false
  is_unordered (w ∷ []) = false
  is_unordered (w ∷ v ∷ rest) = lt v.word.start w.word.start || is_unordered (v ∷ rest)

  -- The channels before the current one are `earlier`.
  unfoldable pub validate_from :
      List (ChannelSnapshot Value) → List (ChannelSnapshot Value) → Result DialogError (Unit {0})
  unfolding is_unordered any
  validate_from earlier [] = ok tt
  validate_from earlier (c ∷ cs) = do
    refuse_if (any (λ e. e.channel == c.channel) earlier) duplicate_channel
    refuse_if (is_unordered c.words) unordered_words
    validate_from (earlier ++ (c ∷ [])) cs

  unfoldable pub validate_channels : List (ChannelSnapshot Value) → Result DialogError (Unit {0})
  unfolding validate_from
  validate_channels channels = validate_from [] channels

  committed_fuzz : MergeMode → Value
  committed_fuzz incremental = a.hundredths 6
  committed_fuzz terminal = zero_value

  least_cut : Value → Value → List (ChannelSnapshot Value) → Value
  least_cut fuzz minimum [] = minimum
  least_cut fuzz minimum (c ∷ cs) = least_cut fuzz (a.minimum minimum (a.sub c.cut_time fuzz)) cs

  least_stable : Value → List (ChannelSnapshot Value) → Value
  least_stable minimum [] = minimum
  least_stable minimum (c ∷ cs) = least_stable (a.minimum minimum c.stable_frontier) cs

  unfoldable pub advance_frontiers :
      List (ChannelSnapshot Value) → MergeMode → DialogMerger Value → DialogMerger Value
  unfolding committed_fuzz least_cut least_stable
  advance_frontiers [] mode m = m
  advance_frontiers (first ∷ rest) mode m =
      let fuzz = committed_fuzz mode in
      record m {
        final_frontier =
            a.maximum m.final_frontier (least_cut fuzz (a.sub first.cut_time fuzz) rest);
        stable_frontier = a.maximum m.stable_frontier (least_stable first.stable_frontier rest);
      }

  -- `TurnsPatch::new`.
  new_patch : ℕ → List (DialogTurn Value) → Value → Result DialogError (TurnsPatch Value)
  new_patch revise_from turns frontier = do
    refuse_if (not (is_finite frontier)) bad_frontier
    ok (record { revise_from = revise_from; turns = turns; frontier = frontier })

  -- What a call leaves and returns: the merger, and the patch, if the line has changed.
  abbrev pub Updated : Type 0
  Updated = DialogMerger Value × Result DialogError (Option (TurnsPatch Value))

  unfoldable pub sent :
      DialogMerger Value → List (DialogTurn Value) → Result DialogError (TurnsPatch Value) → Updated
  sent m dialogue (ok patch) = (record m { last = dialogue }, ok (some patch))
  sent m dialogue (err e) = (m, err e)

  unfoldable pub send_patch : DialogMerger Value → List (DialogTurn Value) → Updated
  unfolding new_patch first_difference sent
  send_patch m dialogue =
      let revise_from = first_difference m.last dialogue in
      sent m dialogue (new_patch revise_from (drop revise_from dialogue) m.final_frontier)

  unfoldable pub update_line : DialogMerger Value → List (DialogTurn Value) → Updated
  unfolding first_difference send_patch
  update_line m dialogue =
      if first_difference m.last dialogue == length dialogue && length dialogue == length m.last
      then (m, ok none)
      else send_patch m dialogue

  -- From the sort on, where the channels could be segmented.
  unfoldable pub update_turns :
      DialogMerger Value → Result DialogError (List (DialogTurn Value)) → Updated
  unfolding sort mark_backchannels update_line
  update_turns m (ok turns) = update_line m (mark_backchannels m.backchannel_policy (sort turns))
  update_turns m (err e) = (m, err e)

  -- Behind the validation. The frontiers stay advanced when a later step fails.
  unfoldable pub update_validated :
      List (ChannelSnapshot Value)
      → MergeMode
      → DialogMerger Value
      → Result DialogError (Unit {0})
      → Updated
  unfolding advance_frontiers segment_all update_turns
  update_validated channels mode m (ok tt) =
      let advanced = advance_frontiers channels mode m in
      update_turns advanced
        (segment_all channels advanced.turn_gap advanced.final_frontier advanced.stable_frontier)
  update_validated channels mode m (err e) = (m, err e)

  unfoldable pub update_with :
      List (ChannelSnapshot Value) → MergeMode → DialogMerger Value → Updated
  unfolding validate_channels update_validated
  update_with channels mode m = update_validated channels mode m (validate_channels channels)

  unfoldable pub update : List (ChannelSnapshot Value) → DialogMerger Value → Updated
  unfolding update_with
  update channels m = update_with channels incremental m

  unfoldable pub finalize : List (ChannelSnapshot Value) → DialogMerger Value → Updated
  unfolding update_with
  finalize channels m = update_with channels terminal m

  -- `new` and `with_backchannel_policy`; the frontiers start at negative infinity.
  unfoldable pub new_merger : Value → Value → BackchannelPolicy Value → DialogMerger Value
  new_merger negative_infinity turn_gap policy = record {
    turn_gap = turn_gap;
    backchannel_policy = policy;
    last = [];
    final_frontier = negative_infinity;
    stable_frontier = negative_infinity;
  }
