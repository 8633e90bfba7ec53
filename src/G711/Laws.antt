-- ===== src/G711/Laws.antt =====
-- Laws of the two decoders over every byte.
use Prim.Native.Nat.{bit_xor}
use gigaam_v3_runtime.Base.{
  ℕ, zero, suc, ◌+◌, ◌-◌, ◌≤◌, ◌<◌, subst, ◌==◌, ==_iff, Bool-cases, inl, inr, if◌then◌else◌, ◌≡◌,
  refl, Bool, true, false, ◌&&◌, Option, none, some, arith,
}
use gigaam_v3_runtime.Base.Int.{ℤ, pos, ◌-ℤ◌, ◌≤ℤ◌, leb_ℤ, ltb_ℤ}
use gigaam_v3_runtime.G711.{ulaw_to_i16, alaw_to_i16}

-- `test` on the `left` numbers from `first` on.
passes : (ℕ → Bool) → ℕ → ℕ → Bool
passes test first zero = true
passes test first (suc left) = if test first then passes test (suc first) left else false

-- What a table shows of each of its numbers.
passes_lem :
    (test : ℕ → Bool) (left first number : ℕ)
    → passes test first left ≡ true
    → first ≤ number
    → number < first + left
    → test number ≡ true
unfolding passes
passes_lem test zero first number h low high = absurd (omega arith)
passes_lem test (suc left) first number h low high = elim (Bool-cases (first == number)) [
  | inl same ↦
      let e : first ≡ number = (==_iff first number).0 same in
      subst (λ k. test k ≡ true) e (ground arith)
  | inr other ↦
      passes_lem test left (suc first) number (ground arith) (ground (arith, ==_iff first number))
        (omega arith)
]

abbrev is_within : ℕ → Option ℤ → Bool
is_within limit none = false
is_within limit (some v) = leb_ℤ (pos 0 -ℤ pos limit) v && leb_ℤ v (pos limit)

-- A decoded sample, at most `limit` away from zero.
abbrev pub Decodes : ℕ → Option ℤ → Type 0
Decodes limit r = (v : ℤ) × (r ≡ some v) × (pos 0 -ℤ pos limit ≤ℤ v) × (v ≤ℤ pos limit)

Decodes-of_is_within : (limit : ℕ) (r : Option ℤ) → is_within limit r ≡ true → Decodes limit r
Decodes-of_is_within limit none h = cc
Decodes-of_is_within limit (some v) h = (v, refl, ground arith, ground arith)

ulaw_table : passes (λ b. is_within 32124 (ulaw_to_i16 b)) 0 256 ≡ true
unfolding passes ulaw_to_i16
ulaw_table = refl

alaw_table : passes (λ b. is_within 32256 (alaw_to_i16 b)) 0 256 ≡ true
unfolding passes alaw_to_i16
alaw_table = refl

-- Neither decoder panics on any byte, and the samples stay within the largest magnitude of each
-- law, 32124 and 32256.
pub decode_bounds :
    (byte : ℕ) → byte < 256 → Decodes 32124 (ulaw_to_i16 byte) × Decodes 32256 (alaw_to_i16 byte)
decode_bounds byte h = (
  Decodes-of_is_within 32124 (ulaw_to_i16 byte)
      (passes_lem _ 256 0 byte ulaw_table (omega arith) h),
  Decodes-of_is_within 32256 (alaw_to_i16 byte)
      (passes_lem _ 256 0 byte alaw_table (omega arith) h),
)

abbrev pub value_or_zero : Option ℤ → ℤ
value_or_zero none = pos 0
value_or_zero (some v) = v

abbrev pub negate : Option ℤ → Option ℤ
negate none = none
negate (some v) = some (pos 0 -ℤ v)

abbrev equal : Option ℤ → Option ℤ → Bool
equal (some a) (some b) = leb_ℤ a b && leb_ℤ b a
equal _ _ = false

equal-eq : (r s : Option ℤ) → equal r s ≡ true → r ≡ s
equal-eq (some a) (some b) h = ground arith
equal-eq none s h = cc
equal-eq (some a) none h = cc

sign_table :
    passes
      (λ b.
        equal (ulaw_to_i16 (bit_xor b 0x80)) (negate (ulaw_to_i16 b))
        && equal (alaw_to_i16 (bit_xor b 0x80)) (negate (alaw_to_i16 b)))
      0
      256
    ≡ true
unfolding passes ulaw_to_i16 alaw_to_i16
sign_table = refl

and_true : (a b : Bool) → (a && b) ≡ true → (a ≡ true) × (b ≡ true)
and_true a b h = ground arith

-- Flipping the sign bit of a byte negates its sample, under both laws.
pub decode_sign :
    (byte : ℕ)
    → byte < 256
    → (ulaw_to_i16 (bit_xor byte 0x80) ≡ negate (ulaw_to_i16 byte))
      × (alaw_to_i16 (bit_xor byte 0x80) ≡ negate (alaw_to_i16 byte))
decode_sign byte h =
    let (u, a) = and_true _ _ (passes_lem _ 256 0 byte sign_table (omega arith) h) in
    (equal-eq _ _ u, equal-eq _ _ a)

rise_table :
    passes
      (λ k. ltb_ℤ (value_or_zero (ulaw_to_i16 (255 - k))) (value_or_zero (ulaw_to_i16 (254 - k))))
      0
      127
    ≡ true
unfolding passes ulaw_to_i16
rise_table = refl

-- Down from 0xff to 0x80, each next mu-law byte stands for a louder sample.
pub ulaw_to_i16_rises :
    (k : ℕ)
    → k < 127
    → ltb_ℤ (value_or_zero (ulaw_to_i16 (255 - k))) (value_or_zero (ulaw_to_i16 (254 - k))) ≡ true
ulaw_to_i16_rises k h = passes_lem _ 127 0 k rise_table (omega arith) h
