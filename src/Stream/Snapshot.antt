-- ===== src/Stream/Snapshot.antt =====
-- crates/transcription/src/stream.rs, `snapshot`, and contracts.rs, `ChannelSnapshot::new`: what a
-- dialogue reads of a session.
use gigaam_v3_runtime.Base.{
  ℕ, zero, suc, ◌+◌, ◌≤◌, ◌<◌, ◌≡◌, refl, subst, ap, not, List, [], ◌∷◌, map, arith, if◌then◌else◌,
  ltb, length, Result, ok, ◌>>◌, refuse_if, map_err, >>=-eq-ok, ok-injective,
}
use gigaam_v3_runtime.Base.Arithmetic.{FloatArithmetic}
use gigaam_v3_runtime.Transcript.{StreamWord, open_ended, final, finite_nonnegative}
use gigaam_v3_runtime.Dialog.{SnapshotWord, ChannelSnapshot}
use gigaam_v3_runtime.Stream.Config.{StreamError, refused, bad_stable_frontier, Setup}
use gigaam_v3_runtime.Stream.Emission.{Agree-length}
use gigaam_v3_runtime.Stream.Tracking.{GoodSession}
use gigaam_v3_runtime.Stream.Session.{State, Value, now}

-- The words from an index on, those before `final_sent` final.
unfoldable label_from : {V : Type 0} → ℕ → ℕ → List (StreamWord V) → List (SnapshotWord V)
label_from final_sent index [] = []
label_from final_sent index (w ∷ ws) =
    record {
      word = w.word;
      finality = if ltb index final_sent then final else open_ended;
      stability = w.stability;
    }
    ∷ label_from final_sent (suc index) ws

-- `ChannelSnapshot::new`.
new_snapshot :
    (a : FloatArithmetic)
    → ℕ
    → List (SnapshotWord a.order.Value)
    → a.order.Value
    → a.order.Value
    → Result StreamError (ChannelSnapshot a.order.Value)
unfolding finite_nonnegative
new_snapshot a channel words cut_time stable_frontier = do
  map_err refused (finite_nonnegative a cut_time)
  refuse_if (not (a.order.is_finite stable_frontier)) bad_stable_frontier
  ok (record {
    channel = channel;
    words = words;
    cut_time = cut_time;
    stable_frontier = stable_frontier;
  })

-- The first n words are final, the others open.
abbrev pub FinalUpTo : {V : Type 0} → ℕ → List (SnapshotWord V) → Type 0
FinalUpTo n [] = n ≡ 0
FinalUpTo zero (w ∷ ws) = (w.finality ≡ open_ended) × FinalUpTo zero ws
FinalUpTo (suc n) (w ∷ ws) = (w.finality ≡ final) × FinalUpTo n ws

open_behind :
    (index final_sent : ℕ)
    → final_sent ≤ index
    → (if ltb index final_sent then final else open_ended) ≡ open_ended
open_behind index final_sent h = ground (arith, h)

final_before :
    (index final_sent : ℕ)
    → index < final_sent
    → (if ltb index final_sent then final else open_ended) ≡ final
final_before index final_sent h = ground (arith, h)

label_open :
    {V : Type 0} (index final_sent : ℕ) (ws : List (StreamWord V))
    → final_sent ≤ index
    → FinalUpTo zero (label_from final_sent index ws)
unfolding label_from
label_open index final_sent [] h = refl
label_open index final_sent (w ∷ ws) h =
    (open_behind index final_sent h, label_open (suc index) final_sent ws (omega (arith, h)))

label_from-FinalUpTo :
    {V : Type 0} (n index final_sent : ℕ) (ws : List (StreamWord V))
    → final_sent ≡ index + n
    → n ≤ length ws
    → FinalUpTo n (label_from final_sent index ws)
unfolding label_from
label_from-FinalUpTo n index final_sent [] e h = omega arith
label_from-FinalUpTo zero index final_sent (w ∷ ws) e h = (
  open_behind index final_sent (omega (arith, e)),
  label_open (suc index) final_sent ws (omega (arith, e)),
)
label_from-FinalUpTo (suc n) index final_sent (w ∷ ws) e h = (
  final_before index final_sent (omega (arith, e)),
  label_from-FinalUpTo n (suc index) final_sent ws (omega (arith, e)) (omega (arith, h)),
)

label_from-words :
    {V : Type 0} (final_sent index : ℕ) (ws : List (StreamWord V))
    → map (λ (w : SnapshotWord V). w.word) (label_from final_sent index ws)
      ≡ map (λ (w : StreamWord V). w.word) ws
unfolding label_from
label_from-words final_sent index [] = refl
label_from-words final_sent index (w ∷ ws) =
    ap (◌∷◌ w.word) (label_from-words final_sent (suc index) ws)

module _ (x : Setup) where
  unfoldable pub snapshot : ℕ → State x → Result StreamError (ChannelSnapshot (Value x))
  unfolding label_from new_snapshot now
  snapshot channel s =
      new_snapshot x.single channel (label_from s.line.final_sent 0 s.line.emitted) s.cut_time
        (x.single.sub (now x s) x.config.horizon_sec)

  abbrev pub Shows : ℕ → State x → ChannelSnapshot (Value x) → Type 0
  Shows channel s snap =
      (snap.channel ≡ channel)
      × ((map (λ (w : SnapshotWord (Value x)). w.word) snap.words
            ≡ map (λ (w : StreamWord (Value x)). w.word) s.line.emitted)
          × (FinalUpTo s.line.final_sent snap.words × (snap.cut_time ≡ s.cut_time)))

  -- A snapshot that succeeds, of a session whose committed words agree with what the client holds
  -- as final, shows the client's line in order with the cut of the session, and the words that the
  -- client was told are final, and no others, as final.
  pub snapshot-Shows :
      (channel : ℕ) (s : State x) {snap : ChannelSnapshot (Value x)}
      → GoodSession x s
      → snapshot channel s ≡ ok snap
      → Shows channel s snap
  unfolding snapshot new_snapshot
  snapshot-Shows channel s good h =
      let stable_frontier = x.single.sub (now x s) x.config.horizon_sec in
      let (_, _, h1) = >>=-eq-ok (map_err refused (finite_nonnegative x.single s.cut_time)) _ h in
      let (_, _, made) =
        >>=-eq-ok (refuse_if (not (x.single.order.is_finite stable_frontier)) bad_stable_frontier) _
          h1 in
      let inside =
        (Agree-length x.single s.line.final_sent s.line.emitted s.line.committed good.0.0).0 in
      subst (Shows channel s) (ok-injective made) (
        refl,
        (
          label_from-words s.line.final_sent 0 s.line.emitted,
          (
            label_from-FinalUpTo s.line.final_sent 0 s.line.final_sent s.line.emitted (omega arith)
                inside,
            refl,
          ),
        ),
      )
