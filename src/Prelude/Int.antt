-- ===== src/Prelude/Int.antt =====
-- Signed integers over the native numbers, and the 64-bit `long long` with its wrap-around.
-- Overflow of a signed integer is undefined in C++; the model takes the two's complement result.
use Prim.Native.Nat.{ℕ, suc, ◌+◌, ◌-◌, ◌*◌, ◌/◌, ◌%◌, ◌^◌, ◌≤◌, ◌<◌}
use mathlib.Core.Path.{◌≡◌}
use mathlib.Core.Bool.{Bool}
use native.Mathlib.Omega.{arith}
use cpp_redis.Prelude.Tests.{ltb, leb, if◌then◌else◌}

-- `negsuc n` is -(n + 1).
pub data ℤ : Type 0 where
  pos : ℕ → ℤ
  negsuc : ℕ → ℤ

abbrev pub pos_part : ℤ → ℕ
pos_part (pos n) = n
pos_part (negsuc n) = 0

abbrev pub neg_part : ℤ → ℕ
neg_part (pos n) = 0
neg_part (negsuc n) = suc n

-- a - b, as an integer.
abbrev pub sub_ℕ : ℕ → ℕ → ℤ
sub_ℕ a b = if leb b a then pos (a - b) else negsuc (b - a - 1)

infixl 65 ◌+ℤ◌ ◌-ℤ◌
infix 50 ◌≤ℤ◌
unfoldable pub ◌+ℤ◌ : ℤ → ℤ → ℤ
a +ℤ b = sub_ℕ (pos_part a + pos_part b) (neg_part a + neg_part b)

unfoldable pub ◌-ℤ◌ : ℤ → ℤ → ℤ
a -ℤ b = sub_ℕ (pos_part a + neg_part b) (neg_part a + pos_part b)

-- k * a
unfoldable pub scale : ℕ → ℤ → ℤ
scale k a = sub_ℕ (k * pos_part a) (k * neg_part a)

-- a / k, rounded towards zero as C++ does.
unfoldable pub div_trunc : ℤ → ℕ → ℤ
div_trunc a k = sub_ℕ (pos_part a / k) (neg_part a / k)

-- a % k, with the sign of a.
unfoldable pub rem_trunc : ℤ → ℕ → ℤ
rem_trunc a k = sub_ℕ (pos_part a % k) (neg_part a % k)

abbrev pub ◌≤ℤ◌ : ℤ → ℤ → Type 0
a ≤ℤ b = pos_part a + neg_part b ≤ pos_part b + neg_part a

abbrev pub lt_ℤ : ℤ → ℤ → Bool
lt_ℤ a b = ltb (pos_part a + neg_part b) (pos_part b + neg_part a)

abbrev pub le_ℤ : ℤ → ℤ → Bool
le_ℤ a b = leb (pos_part a + neg_part b) (pos_part b + neg_part a)

-- std::min and std::max
abbrev pub min_ℤ : ℤ → ℤ → ℤ
min_ℤ a b = if lt_ℤ b a then b else a

abbrev pub max_ℤ : ℤ → ℤ → ℤ
max_ℤ a b = if lt_ℤ a b then b else a

-- The integers that a `long long` holds.
abbrev pub InInt64 : ℤ → Type 0
InInt64 a = (pos_part a < 2 ^ 63) × (neg_part a ≤ 2 ^ 63)

abbrev pub in_int64 : ℤ → Bool
in_int64 (pos n) = ltb n (2 ^ 63)
in_int64 (negsuc n) = ltb n (2 ^ 63)

-- The value of a 64-bit pattern.
unfoldable pub signed : ℕ → ℤ
signed m = if ltb m (2 ^ 63) then pos m else negsuc (2 ^ 64 - 1 - m)

-- The value that a 64-bit register holds after an exact result.
unfoldable pub wrap_int64 : ℤ → ℤ
unfolding signed
wrap_int64 (pos n) = signed (n % 2 ^ 64)
wrap_int64 (negsuc n) = signed (2 ^ 64 - 1 - n % 2 ^ 64)

pub wrap_int64-InInt64 : (a : ℤ) → InInt64 (wrap_int64 a)
unfolding wrap_int64
wrap_int64-InInt64 (pos n) = ground arith
wrap_int64-InInt64 (negsuc n) = ground arith

pub wrap_int64_self : (a : ℤ) → InInt64 a → wrap_int64 a ≡ a
unfolding wrap_int64
wrap_int64_self (pos n) h = ground arith
wrap_int64_self (negsuc n) h = ground arith

pub +ℤ_parts :
    (a b : ℤ)
    → pos_part (a +ℤ b) + neg_part a + neg_part b ≡ neg_part (a +ℤ b) + pos_part a + pos_part b
unfolding ◌+ℤ◌
+ℤ_parts a b = ground arith

pub -ℤ_parts :
    (a b : ℤ)
    → pos_part (a -ℤ b) + neg_part a + pos_part b ≡ neg_part (a -ℤ b) + pos_part a + neg_part b
unfolding ◌-ℤ◌
-ℤ_parts a b = ground arith
