-- ===== src/Utils/Integers.antt =====
-- What `isInteger` accepts and `parseInt` returns.
use cpp_redis.Prelude.{
  suc, ◌^◌, le→ltb_false, ◌≤◌, ◌≡◌, ◌≢◌, refl, true, [], ◌∷◌, arith, Bytes, All,
}
use cpp_redis.Prelude.Int.{ℤ, pos, negsuc, InInt64}
use cpp_redis.Number.{is_digit, value, to_string, decimal}
use cpp_redis.Number.RoundTrip.{
  IsDigit, decimal-IsDigit, decimal-ne-nil, stoll-to_string, stoll_digits,
}
use cpp_redis.Utils.{all_digits, is_integer, parse_int}

all_digits-All : (s : Bytes) → All IsDigit s → all_digits s ≡ true
unfolding all_digits
all_digits-All [] h = refl
all_digits-All (c ∷ s) h = ground (arith, all_digits-All s h.1)

pub is_integer_unsigned : (s : Bytes) → All IsDigit s → s ≢ [] → is_integer s ≡ true
unfolding is_integer is_digit
is_integer_unsigned [] h ne = absurd (ne refl)
is_integer_unsigned (c ∷ s) h ne = ground (arith, all_digits-All (c ∷ s) h)

is_integer_negative : (s : Bytes) → All IsDigit s → s ≢ [] → is_integer (b'-' ∷ s) ≡ true
unfolding is_integer
is_integer_negative [] h ne = absurd (ne refl)
is_integer_negative (c ∷ s) h ne = all_digits-All (c ∷ s) h

pub is_integer-to_string : (z : ℤ) → is_integer (to_string z) ≡ true
unfolding to_string
is_integer-to_string (pos n) =
    is_integer_unsigned (decimal n) (decimal-IsDigit n) (decimal-ne-nil n)
is_integer-to_string (negsuc n) =
    is_integer_negative (decimal (suc n)) (decimal-IsDigit (suc n)) (decimal-ne-nil (suc n))

-- A `long long` that was printed is accepted as an integer and read back.
pub parse_int-to_string :
    (z : ℤ) → InInt64 z → (is_integer (to_string z) ≡ true) × (parse_int (to_string z) ≡ z)
unfolding parse_int
parse_int-to_string z h = (is_integer-to_string z, rw (stoll-to_string z h, parse_int))

-- Digits that spell a number beyond the `long long` are accepted as an integer and read as 0.
pub parse_int_huge :
    (s : Bytes) → All IsDigit s → 2 ^ 63 ≤ value 0 s → (is_integer s ≡ true) × (parse_int s ≡ pos 0)
unfolding parse_int
parse_int_huge [] h huge = absurd (unfold value in omega arith)
parse_int_huge (c ∷ s) h huge = (
  is_integer_unsigned (c ∷ s) h (cc),
  rw (stoll_digits (c ∷ s) h (cc), le→ltb_false (value 0 (c ∷ s)) (2 ^ 63) huge, parse_int),
)
