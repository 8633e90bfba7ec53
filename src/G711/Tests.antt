-- ===== src/G711/Tests.antt =====
-- Samples of both laws.
use Prim.Native.Nat.{bit_xor}
use gigaam_v3_runtime.Base.{◌≡◌, refl, some, arith, true}
use gigaam_v3_runtime.Base.Int.{pos, negsuc, ltb_ℤ}
use gigaam_v3_runtime.G711.{ulaw_to_i16, alaw_to_i16}
use gigaam_v3_runtime.G711.Laws.{
  Decodes, decode_bounds, negate, decode_sign, value_or_zero, ulaw_to_i16_rises,
}

ulaw_loudest : ulaw_to_i16 0 ≡ some (negsuc 32123)
unfolding ulaw_to_i16
ulaw_loudest = refl

alaw_quiet : alaw_to_i16 0xd5 ≡ some (pos 8)
unfolding alaw_to_i16
alaw_quiet = refl

decode_bounds_example : Decodes 32124 (ulaw_to_i16 0) × Decodes 32256 (alaw_to_i16 0)
decode_bounds_example = decode_bounds 0 (omega arith)

decode_sign_example :
    (ulaw_to_i16 (bit_xor 7 0x80) ≡ negate (ulaw_to_i16 7))
    × (alaw_to_i16 (bit_xor 7 0x80) ≡ negate (alaw_to_i16 7))
decode_sign_example = decode_sign 7 (omega arith)

ulaw_to_i16_rises_example :
    ltb_ℤ (value_or_zero (ulaw_to_i16 250)) (value_or_zero (ulaw_to_i16 249)) ≡ true
ulaw_to_i16_rises_example = ulaw_to_i16_rises 5 (omega arith)
