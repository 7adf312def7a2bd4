-- ===== src/Base/Int64.antt =====
-- Go's int64: a bit pattern below 2 ^ 64, read as a signed number.
use Prim.Native.Nat.{ℕ, ◌+◌, ◌%◌, ◌^◌, ◌<◌}
use mathlib.Core.Path.{◌≡◌}
use mathlib.Core.Bool.{Bool}
use native.Mathlib.Omega.{arith}
use koku_metrics_operator.Base.Tests.{leb}

unfoldable pub add64 : ℕ → ℕ → ℕ
add64 a b = (a + b) % 2 ^ 64

-- `a <= b` on int64: the sign bit is turned, so that negative numbers come first.
unfoldable pub leb64 : ℕ → ℕ → Bool
leb64 a b = leb ((a + 2 ^ 63) % 2 ^ 64) ((b + 2 ^ 63) % 2 ^ 64)

-- Below 2 ^ 63 the signed order is that of the numbers.
pub leb64-eq-leb : (a b : ℕ) → a < 2 ^ 63 → b < 2 ^ 63 → leb64 a b ≡ leb a b
unfolding leb64
leb64-eq-leb a b ha hb = ground arith

pub add64-eq-add : (a b : ℕ) → a + b < 2 ^ 64 → add64 a b ≡ a + b
unfolding add64
add64-eq-add a b h = omega arith
