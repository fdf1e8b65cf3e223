-- ===== src/Number.antt =====
-- The conversions of the C++ standard library between `long long` and text: `std::to_string` and
-- `std::stoll` in base ten, with the errors that `std::stoll` throws.
pub mod RoundTrip
use cpp_redis.Prelude.{
  ℕ, zero, suc, ◌+◌, ◌-◌, ◌*◌, ◌/◌, ◌%◌, ◌≤◌, ◌≡◌, refl, Bool, true, false, ◌&&◌, ◌||◌, Option,
  none, some, List, [], ◌∷◌, ◌++◌, Bytes, codes, length, is_empty, leb, ltb, ◌==◌, if◌then◌else◌,
}
use cpp_redis.Prelude.Int.{ℤ, pos, negsuc, in_int64}

unfoldable pub is_digit : ℕ → Bool
is_digit c = leb b'0' c && leb c b'9'

-- `isspace` in the "C" locale.
unfoldable pub is_space : ℕ → Bool
is_space c = c == 32 || leb 9 c && leb c 13

-- The decimal digits of a number; `n + 1` rounds are enough, since each divides by ten.
unfoldable pub digits : ℕ → ℕ → Bytes
digits zero n = []
digits (suc f) n =
    let more = digits f (n / 10) in
    if ltb n 10 then (b'0' + n) ∷ [] else more ++ (b'0' + n % 10) ∷ []

unfoldable pub decimal : ℕ → Bytes
decimal n = digits (suc n) n

-- std::to_string
unfoldable pub to_string : ℤ → Bytes
to_string (pos n) = decimal n
to_string (negsuc n) = b'-' ∷ decimal (suc n)

unfoldable pub skip_spaces : Bytes → Bytes
skip_spaces [] = []
skip_spaces (c ∷ s) = let rest = skip_spaces s in if is_space c then rest else c ∷ s

unfoldable pub leading_digits : Bytes → Bytes
leading_digits [] = []
leading_digits (c ∷ s) = if is_digit c then c ∷ leading_digits s else []

-- The number that digits spell behind `n`.
unfoldable pub value : ℕ → Bytes → ℕ
value n [] = n
value n (c ∷ s) = value (n * 10 + (c - b'0')) s

abbrev pub negate : ℕ → ℤ
negate zero = pos 0
negate (suc n) = negsuc n

-- The sign and what stands behind it.
unfoldable pub read_sign : Bytes → Bool × Bytes
read_sign [] = (false, [])
read_sign (c ∷ s) =
    if c == b'-' then (true, s) else if c == b'+' then (false, s) else (false, c ∷ s)

-- `none` where no digit stands (`invalid_argument`) or the value does not fit (`out_of_range`).
unfoldable pub finish : Bool → Bytes → Option ℤ
finish negative ds =
    let v = if negative then negate (value 0 ds) else pos (value 0 ds) in
    if is_empty ds then none else if in_int64 v then some v else none

-- std::stoll(s, &processed): the value, and how many bytes were read.
unfoldable pub stoll : Bytes → Option (ℤ × ℕ)
stoll s =
    let body = skip_spaces s in
    let (negative, rest) = read_sign body in
    let ds = leading_digits rest in
    elim (finish negative ds) [
      | none ↦ none
      | some v ↦ some (v, length s - length rest + length ds)
    ]
