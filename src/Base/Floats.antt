-- ===== src/Base/Floats.antt =====
-- The IEEE-754 comparisons of `f32` and `f64`, as an interface: the model does not compute with
-- floating-point numbers. The laws are the order of the finite values; nothing is assumed of NaN
-- or of the infinities.
use Prim.Native.Nat.{ℕ}
use mathlib.Core.Path.{◌≡◌, refl}
use mathlib.Core.Bool.{Bool, true, false, not}
use native.Mathlib.Omega.{arith}
use gigaam_v3_runtime.Base.Tests.{ltb, leb}

pub record FloatOrder : Type 1 where
  pub Value : Type 0
  pub zero_value : Value
  pub one_value : Value
  pub is_finite : Value → Bool
  pub lt : Value → Value → Bool
  pub le : Value → Value → Bool
  pub finite_zero : is_finite zero_value ≡ true
  pub lt_irrefl : (a : Value) → lt a a ≡ false
  pub lt_trans : (a b c : Value) → lt a b ≡ true → lt b c ≡ true → lt a c ≡ true
  pub le_of_finite : (a b : Value) → is_finite a ≡ true → is_finite b ≡ true → le a b ≡ not (lt b a)
  pub le_trans : (a b c : Value) → le a b ≡ true → le b c ≡ true → le a c ≡ true
  pub lt_of_le_of_lt : (a b c : Value) → le a b ≡ true → lt b c ≡ true → lt a c ≡ true

pub leb-ltb_trans : (a b c : ℕ) → leb a b ≡ true → ltb b c ≡ true → ltb a c ≡ true
leb-ltb_trans a b c h k = ground arith

pub ltb_irrefl : (a : ℕ) → ltb a a ≡ false
ltb_irrefl a = ground arith

pub ltb_trans : (a b c : ℕ) → ltb a b ≡ true → ltb b c ≡ true → ltb a c ≡ true
ltb_trans a b c h k = ground arith

pub leb-not-ltb : (a b : ℕ) → leb a b ≡ not (ltb b a)
leb-not-ltb a b = ground arith

pub leb_trans : (a b c : ℕ) → leb a b ≡ true → leb b c ≡ true → leb a c ≡ true
leb_trans a b c h k = ground arith

-- Numbers with the order of ℕ, all finite: the interface can be met.
abbrev pub counting : FloatOrder
counting = record {
  Value = ℕ;
  zero_value = 0;
  one_value = 1;
  is_finite = λ a. true;
  lt = ltb;
  le = leb;
  finite_zero = refl;
  lt_irrefl = ltb_irrefl;
  lt_trans = ltb_trans;
  le_of_finite = λ a b h k. leb-not-ltb a b;
  le_trans = leb_trans;
  lt_of_le_of_lt = leb-ltb_trans;
}
