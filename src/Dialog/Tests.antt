-- ===== src/Dialog/Tests.antt =====
-- Two channels on hundredths of a second.
use gigaam_v3_runtime.Base.{ℕ, ◌≡◌, refl, true, false, arith, ltb, List, [], ◌∷◌, err}
use gigaam_v3_runtime.Base.Arithmetic.{centiseconds}
use gigaam_v3_runtime.Stitch.Tests.{latin, word}
use gigaam_v3_runtime.Transcript.{stable, open_ended}
use gigaam_v3_runtime.Dialog.{
  precedes, empty_turn, SnapshotWord, ChannelSnapshot, DialogTurn, DialogMerger, Updated,
  incremental, disabled, new_merger, update,
}
use gigaam_v3_runtime.Dialog.Ordering.{Ordered, update_with-Ordered}
use gigaam_v3_runtime.Dialog.Patches.{receive, AllAlike, update_with-AllAlike}

abbrev heard : ℕ → ℕ → SnapshotWord ℕ
heard letter start = record { word = word letter start; finality = open_ended; stability = stable }

abbrev snapshot : ℕ → List (SnapshotWord ℕ) → ChannelSnapshot ℕ
snapshot channel words = record {
  channel = channel;
  words = words;
  cut_time = 0;
  stable_frontier = 0;
}

abbrev start : DialogMerger ℕ
start = new_merger latin centiseconds ltb 0 100 disabled

abbrev first : Updated latin centiseconds ltb
first = update latin centiseconds ltb (snapshot 0 (heard 97 50 ∷ []) ∷ snapshot 1 [] ∷ []) start

abbrev second_input : List (ChannelSnapshot ℕ)
second_input = snapshot 0 (heard 97 45 ∷ heard 98 300 ∷ []) ∷ snapshot 1 [] ∷ []

abbrev second : Updated latin centiseconds ltb
second = update latin centiseconds ltb second_input first.0

abbrev third : Updated latin centiseconds ltb
third =
    update latin centiseconds ltb
      (snapshot 0 (heard 97 40 ∷ heard 98 300 ∷ []) ∷ snapshot 1 (heard 99 500 ∷ []) ∷ []) second.0

abbrev starts : List (DialogTurn ℕ) → List ℕ
starts [] = []
starts (t ∷ ts) = t.start ∷ starts ts

-- The first turn moved by less than the tolerance each time, and by more in the end: the client
-- still has its first start.
starts_drift :
    (starts (receive third.1 (receive second.1 (receive first.1 []))) ≡ 50 ∷ 300 ∷ 500 ∷ [])
    × (starts third.0.last ≡ 40 ∷ 300 ∷ 500 ∷ [])
unfolding update new_merger
starts_drift = (refl, refl)

-- A failed update keeps the frontier that it has advanced: the only turn has no text but a
-- space.
abbrev failed : Updated latin centiseconds ltb
failed =
    update latin centiseconds ltb
      (record { channel = 0; words = heard 32 50 ∷ []; cut_time = 900; stable_frontier = 700 } ∷ [])
      start

failed_keeps : (failed.0.stable_frontier ≡ 700) × (failed.0.last ≡ []) × (failed.1 ≡ err empty_turn)
unfolding update new_merger
failed_keeps = (refl, refl, refl)

update_with-AllAlike_example : AllAlike (receive second.1 (receive first.1 [])) second.0.last
unfolding update new_merger
update_with-AllAlike_example =
    update_with-AllAlike latin centiseconds ltb (receive first.1 []) second_input incremental
      first.0 ((refl, (refl, (refl, (refl, (refl, refl))))), tt)

ltb_asym : (v w : ℕ) → ltb v w ≡ true → ltb w v ≡ false
ltb_asym v w h = ground (arith, h)

update_with-Ordered_example : Ordered latin centiseconds ltb ltb_asym second.0.last
unfolding update new_merger precedes
update_with-Ordered_example =
    update_with-Ordered latin centiseconds ltb ltb_asym second_input incremental first.0 (tt, tt)
