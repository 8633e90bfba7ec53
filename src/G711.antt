-- ===== src/G711.antt =====
-- crates/audio/src/g711.rs: A-law and mu-law bytes to signed 16-bit PCM. A byte is a number below
-- 256; `i32` values are integers, which no formula here brings near the limits of `i32`.
pub mod Laws
pub mod Tests
use Prim.Native.Nat.{bit_and, bit_xor}
use gigaam_v3_runtime.Base.{
  ℕ, ◌+◌, ◌-◌, ◌*◌, ◌/◌, ◌^◌, Bool, not, ◌&&◌, Option, none, some, if◌then◌else◌, ◌==◌,
}
use gigaam_v3_runtime.Base.Int.{ℤ, pos, negsuc, ◌-ℤ◌, leb_ℤ}

abbrev sign_bit : ℕ
sign_bit = 0x80

abbrev quant_mask : ℕ
quant_mask = 0x0f

abbrev seg_shift : ℕ
seg_shift = 4

abbrev seg_mask : ℕ
seg_mask = 0x70

abbrev bias : ℕ
bias = 0x84

-- `none` is the panic on a value that is no `i16`.
unfoldable pub pcm_i16 : ℤ → Option ℤ
pcm_i16 value = if leb_ℤ (negsuc 32767) value && leb_ℤ value (pos 32767) then some value else none

-- `(value & SEG_MASK) >> SEG_SHIFT`.
segment_of : ℕ → ℕ
segment_of value = bit_and value seg_mask / 2 ^ seg_shift

is_signed : ℕ → Bool
is_signed value = not (bit_and value sign_bit == 0)

unfoldable pub ulaw_to_i16 : ℕ → Option ℤ
unfolding pcm_i16 segment_of is_signed
ulaw_to_i16 byte =
    let value : ℕ = 255 - byte in
    let magnitude = (bit_and value quant_mask * 2 ^ 3 + bias) * 2 ^ segment_of value in
    pcm_i16 (if is_signed value then pos bias -ℤ pos magnitude else pos magnitude -ℤ pos bias)

-- The `match` on the segment.
alaw_magnitude : ℕ → ℕ → ℕ
alaw_magnitude segment magnitude =
    if segment == 0
    then magnitude + 8
    else if segment == 1
    then magnitude + 0x108
    else (magnitude + 0x108) * 2 ^ (segment - 1)

unfoldable pub alaw_to_i16 : ℕ → Option ℤ
unfolding pcm_i16 segment_of is_signed alaw_magnitude
alaw_to_i16 byte =
    let value = bit_xor byte 0x55 in
    let magnitude = alaw_magnitude (segment_of value) (bit_and value quant_mask * 2 ^ 4) in
    pcm_i16 (if is_signed value then pos magnitude else pos 0 -ℤ pos magnitude)
