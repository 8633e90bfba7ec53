-- ===== src/Base/Arithmetic.antt =====
-- Arithmetic of `f32` as an interface over the comparisons: the operations stay uninterpreted but
-- for `x - x` on finite values. `of_count` and `trunc` are `usize_to_f32` and
-- `trunc_f32_to_usize` of crates/primitives; `hundredths n` is the literal n / 100.
use Prim.Native.Nat.{ℕ, ◌+◌, ◌-◌, ◌*◌, ◌/◌, min, max}
use mathlib.Core.Path.{◌≡◌, refl}
use mathlib.Core.Bool.{true}
use mathlib.Core.Option.{Option, some}
use native.Mathlib.Omega.{arith}
use gigaam_v3_runtime.Base.Tests.{leb}
use gigaam_v3_runtime.Base.Floats.{FloatOrder, counting}

pub record FloatArithmetic : Type 1 where
  pub order : FloatOrder
  pub add : order.Value → order.Value → order.Value
  pub sub : order.Value → order.Value → order.Value
  pub mul : order.Value → order.Value → order.Value
  pub div : order.Value → order.Value → order.Value
  pub abs : order.Value → order.Value
  pub minimum : order.Value → order.Value → order.Value
  pub maximum : order.Value → order.Value → order.Value
  pub of_count : ℕ → order.Value
  pub trunc : order.Value → Option ℕ
  pub hundredths : ℕ → order.Value
  pub sub_self : (x : order.Value) → order.is_finite x ≡ true → sub x x ≡ order.zero_value
  pub abs_zero : abs order.zero_value ≡ order.zero_value
  pub hundredths_nonnegative : (n : ℕ) → order.le order.zero_value (hundredths n) ≡ true

pub monus_self : (x : ℕ) → x - x ≡ 0
monus_self x = omega arith

pub leb_zero : (n : ℕ) → leb 0 n ≡ true
leb_zero n = ground arith

-- Hundredths of a second as numbers, without negative times.
abbrev pub centiseconds : FloatArithmetic
centiseconds = record {
  order = counting;
  add = λ x y. x + y;
  sub = λ x y. x - y;
  mul = λ x y. x * y;
  div = λ x y. x * 100 / y;
  abs = λ x. x;
  minimum = min;
  maximum = max;
  of_count = λ n. n;
  trunc = λ x. some (x / 100);
  hundredths = λ n. n;
  sub_self = λ x h. monus_self x;
  abs_zero = refl;
  hundredths_nonnegative = leb_zero;
}
