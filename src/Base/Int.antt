-- ===== src/Base/Int.antt =====
-- Go's `int` and `int64`: signed integers over the native numbers, with 64-bit wrap-around.
use Prim.Native.Nat.{ℕ, suc, ◌+◌, ◌-◌, ◌^◌}
use mathlib.Core.Bool.{Bool}
use dynamorm.Base.Tests.{ltb, leb, if◌then◌else◌}

-- `negsuc n` is -(n + 1).
pub data ℤ : Type 0 where
  pos : ℕ → ℤ
  negsuc : ℕ → ℤ

abbrev pub pos_part : ℤ → ℕ
pos_part (pos n) = n
pos_part (negsuc n) = 0

abbrev pub neg_part : ℤ → ℕ
neg_part (pos n) = 0
neg_part (negsuc n) = suc n

-- a - b, as an integer.
abbrev pub sub_ℕ : ℕ → ℕ → ℤ
sub_ℕ a b = if leb b a then pos (a - b) else negsuc (b - a - 1)

abbrev pub ltb_ℤ : ℤ → ℤ → Bool
ltb_ℤ a b = ltb (pos_part a + neg_part b) (pos_part b + neg_part a)

-- math.MaxInt64
abbrev pub max_int64 : ℕ
max_int64 = 2 ^ 63 - 1

-- math.MaxInt32, and the absolute value of math.MinInt32
abbrev pub max_int32 : ℕ
max_int32 = 2147483647

abbrev pub abs_min_int32 : ℕ
abs_min_int32 = 2147483648

-- `a + n` on int64 for n ≥ 0: a sum above MaxInt64 wraps to the negative numbers.
abbrev pub add_int64 : ℤ → ℕ → ℤ
add_int64 (pos a) n = if leb (a + n) max_int64 then pos (a + n) else negsuc (2 ^ 64 - (a + n) - 1)
add_int64 (negsuc a) n = sub_ℕ n (suc a)

-- `a - 1` on int64, above MinInt64.
abbrev pub pred_int64 : ℤ → ℤ
pred_int64 (pos n) = sub_ℕ n 1
pred_int64 (negsuc n) = negsuc (suc n)
