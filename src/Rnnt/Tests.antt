-- ===== src/Rnnt/Tests.antt =====
-- A scripted transition over three frames: two symbols, a blank at once, and a full frame.
use gigaam_v3_runtime.Base.{
  ℕ, suc, ◌≡◌, refl, true, false, List, [], ◌∷◌, map, length, is_empty, none, Result, ok, err,
}
use gigaam_v3_runtime.Base.Floats.{counting}
use gigaam_v3_runtime.Ctc.{Token}
use gigaam_v3_runtime.Rnnt.{
  RnntTransition, RnntFrameSource, RnntOutput, greedy_with_detail, greedy, decode_frames,
  decode_symbols, emit, new_token, choose, validate_encoder_frame,
}
use gigaam_v3_runtime.Rnnt.Groups.{concat, AreGroups, greedy_with_detail_groups}

-- The next selection, or the blank 9 at the end of the script. The state counts the advances.
abbrev next_selection : List ℕ → Result ℕ (List ℕ × ℕ)
next_selection [] = ok ([], 9)
next_selection (token ∷ rest) = ok (rest, token)

abbrev scripted : RnntTransition ℕ ℕ
scripted = record {
  Session = List ℕ;
  State = ℕ;
  Failure = ℕ;
  start = λ blank session. ok (session, 0);
  select = λ frame state session. next_selection session;
  select_scored = λ frame state session. err 1;
  advance = λ token state session. ok (session, suc state);
}

abbrev frames : RnntFrameSource ℕ
frames = record { output_frames = 3; frame = λ i. 5 ∷ i ∷ [] }

abbrev script : List ℕ
script = 4 ∷ 2 ∷ 9 ∷ 9 ∷ 1 ∷ 1 ∷ 1 ∷ []

abbrev token_at : ℕ → ℕ → Token ℕ
token_at id index = record { id = id; frame = index; log_probability = none }

abbrev decoded : RnntOutput ℕ
decoded = record {
  tokens = token_at 4 0 ∷ token_at 2 0 ∷ token_at 1 2 ∷ token_at 1 2 ∷ token_at 1 2 ∷ [];
  silence = false ∷ true ∷ false ∷ [];
}

script_decodes : greedy counting counting scripted script frames 9 3 ≡ ok ([], decoded)
unfolding greedy greedy_with_detail decode_frames decode_symbols emit new_token choose
    validate_encoder_frame
script_decodes = refl

greedy_with_detail_groups_example :
    (groups : List (List (Token ℕ))) × (length groups ≡ 3)
    × AreGroups counting counting frames 9 3 0 groups
    × (decoded.tokens ≡ concat groups)
    × (decoded.silence ≡ map is_empty groups)
unfolding greedy_with_detail decode_frames decode_symbols emit new_token choose
    validate_encoder_frame
greedy_with_detail_groups_example =
    greedy_with_detail_groups counting counting scripted script [] frames 9 3 false decoded refl
