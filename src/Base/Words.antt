-- ===== src/Base/Words.antt =====
-- The checked arithmetic of `usize` on a 64-bit target.
use Prim.Native.Nat.{ℕ, ◌+◌, ◌-◌, ◌*◌, ◌^◌, ◌≤◌}
use mathlib.Core.Path.{◌≡◌}
use mathlib.Core.Option.{Option, none, some}
use gigaam_v3_runtime.Base.Tests.{leb, le→leb, if◌then◌else◌}

abbrev pub usize_max : ℕ
usize_max = 2 ^ 64 - 1

unfoldable pub checked_add : ℕ → ℕ → Option ℕ
checked_add a b = if leb (a + b) usize_max then some (a + b) else none

unfoldable pub checked_mul : ℕ → ℕ → Option ℕ
checked_mul a b = if leb (a * b) usize_max then some (a * b) else none

unfoldable pub checked_sub : ℕ → ℕ → Option ℕ
checked_sub a b = if leb b a then some (a - b) else none

pub checked_add-fits : (a b : ℕ) → a + b ≤ usize_max → checked_add a b ≡ some (a + b)
unfolding checked_add
checked_add-fits a b h = rw (le→leb (a + b) usize_max h)

pub checked_mul-fits : (a b : ℕ) → a * b ≤ usize_max → checked_mul a b ≡ some (a * b)
unfolding checked_mul
checked_mul-fits a b h = rw (le→leb (a * b) usize_max h)

pub checked_sub-fits : (a b : ℕ) → b ≤ a → checked_sub a b ≡ some (a - b)
unfolding checked_sub
checked_sub-fits a b h = rw (le→leb b a h)
