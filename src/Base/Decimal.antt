-- ===== src/Base/Decimal.antt =====
-- strconv.Itoa on non-negative numbers, and digits with leading zeros.
use Prim.Native.Nat.{ℕ, zero, suc, ◌/◌, ◌%◌, ◌^◌}
use Prim.Native.String.{String, ◌++◌}
use mathlib.Core.Bool.{true, false}
use koku_metrics_operator.Base.Tests.{ltb, ◌==◌, if◌then◌else◌}

digit : ℕ → String
digit n =
    if n == 0
    then "0"
    else if n == 1
    then "1"
    else if n == 2
    then "2"
    else if n == 3
    then "3"
    else if n == 4
    then "4"
    else if n == 5
    then "5"
    else if n == 6
    then "6"
    else if n == 7
    then "7"
    else if n == 8
    then "8"
    else "9"

itoa_fuel : ℕ → ℕ → String
itoa_fuel zero n = ""
itoa_fuel (suc f) n = elim (ltb n 10) [
  | true ↦ digit n
  | false ↦ itoa_fuel f (n / 10) ++ digit (n % 10)
]

-- A number has at most one digit more than its half, so `n + 1` rounds are enough.
unfoldable pub itoa : ℕ → String
unfolding itoa_fuel digit
itoa n = itoa_fuel (suc n) n

-- The last `k` digits, zeros in front.
unfoldable pub padded : ℕ → ℕ → String
unfolding digit
padded zero n = ""
padded (suc k) n = digit (n / 10 ^ k % 10) ++ padded k n

-- The fraction `.999999999` of Go's layouts: trailing zeros are dropped.
unfoldable pub fraction : ℕ → ℕ → String
unfolding digit
fraction zero n = ""
fraction (suc k) n = elim (n == 0) [
  | true ↦ ""
  | false ↦ digit (n / 10 ^ k) ++ fraction k (n % 10 ^ k)
]
