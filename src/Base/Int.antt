-- ===== src/Base/Int.antt =====
-- Signed integers over the native numbers, for Go's `int` where the code tests the sign.
use Prim.Native.Nat.{ℕ, zero, suc, ◌+◌, ◌-◌, ◌%◌, ◌^◌}
use mathlib.Core.Bool.{Bool, true, false}
use aizen_gate.Base.Tests.{ltb, leb, if◌then◌else◌}

-- `negsuc n` is -(n + 1).
pub data ℤ : Type 0 where
  pos : ℕ → ℤ
  negsuc : ℕ → ℤ

-- `z <= 0`
abbrev pub nonpos : ℤ → Bool
nonpos (pos zero) = true
nonpos (pos (suc n)) = false
nonpos (negsuc n) = true

abbrev pub pos_part : ℤ → ℕ
pos_part (pos n) = n
pos_part (negsuc n) = 0

abbrev pub neg_part : ℤ → ℕ
neg_part (pos n) = 0
neg_part (negsuc n) = suc n

-- `n < z` and `n <= z`, for a number that is not negative
abbrev pub below : ℕ → ℤ → Bool
below n z = ltb n (pos_part z)

abbrev pub at_most : ℕ → ℤ → Bool
at_most n (pos m) = leb n m
at_most n (negsuc m) = false

-- `n - z`, an integer
abbrev pub minus : ℕ → ℤ → ℤ
minus n z =
    let m = n + neg_part z in
    if leb (pos_part z) m then pos (m - pos_part z) else negsuc (pos_part z - m - 1)

-- The bit pattern of an int64, and the integer that a pattern stands for.
abbrev pub to_bits : ℤ → ℕ
to_bits (pos n) = n % 2 ^ 64
to_bits (negsuc n) = 2 ^ 64 - 1 - n % 2 ^ 64

abbrev pub of_bits : ℕ → ℤ
of_bits n = if ltb n (2 ^ 63) then pos n else negsuc (2 ^ 64 - 1 - n)
