-- ===== src/Number/RoundTrip.antt =====
-- Reading back with `std::stoll` what `std::to_string` writes.
use cpp_redis.Prelude.{
  ℕ, zero, suc, ◌+◌, ◌-◌, ◌*◌, ◌/◌, ◌^◌, ◌<◌, ◌≡◌, ◌≢◌, inl, inr, refl, ap, ◌∙◌, Bool, true, false,
  none, some, [], ◌∷◌, ◌++◌, arith, Bytes, length, ltb, lt→ltb, if◌then◌else◌, All, All-append,
  Bool-cases,
}
use cpp_redis.Prelude.Int.{ℤ, pos, negsuc, InInt64}
use cpp_redis.Number.{
  is_digit, is_space, digits, decimal, to_string, skip_spaces, leading_digits, value, read_sign,
  finish, stoll,
}

abbrev pub IsDigit : ℕ → Type 0
IsDigit c = is_digit c ≡ true

digits-IsDigit : (f n : ℕ) → All IsDigit (digits f n)
unfolding digits is_digit
digits-IsDigit zero n = tt
digits-IsDigit (suc f) n = elim (Bool-cases (ltb n 10)) [
  | inl small ↦ rw small (ground arith, tt)
  | inr large ↦
      rw large
        (All-append IsDigit (digits f (n / 10)) _ (digits-IsDigit f (n / 10)) (ground arith, tt))
]

pub decimal-IsDigit : (n : ℕ) → All IsDigit (decimal n)
unfolding decimal
decimal-IsDigit n = digits-IsDigit (suc n) n

append-ne-nil : (s : Bytes) (c : ℕ) → s ++ c ∷ [] ≢ []
append-ne-nil [] c = cc
append-ne-nil (d ∷ s) c = cc

pub decimal-ne-nil : (n : ℕ) → decimal n ≢ []
unfolding decimal digits
decimal-ne-nil n = elim (Bool-cases (ltb n 10)) [
  | inl small ↦ rw small (cc)
  | inr large ↦ rw large (append-ne-nil (digits n (n / 10)) _)
]

value-append : (s t : Bytes) (n : ℕ) → value n (s ++ t) ≡ value (value n s) t
unfolding value
value-append [] t n = refl
value-append (c ∷ s) t n = value-append s t (n * 10 + (c - b'0'))

value-digits : (f n : ℕ) → n < f → value 0 (digits f n) ≡ n
unfolding digits
value-digits zero n h = absurd (omega arith)
value-digits (suc f) n h = elim (Bool-cases (ltb n 10)) [
  | inl small ↦ rw small (unfold value in omega arith)
  | inr large ↦
      rw (large, value-append (digits f (n / 10)), value-digits f (n / 10) (ground arith))
        (unfold value in omega arith)
]

pub value-decimal : (n : ℕ) → value 0 (decimal n) ≡ n
unfolding decimal
value-decimal n = value-digits (suc n) n (omega arith)

leading_digits-All : (s : Bytes) → All IsDigit s → leading_digits s ≡ s
unfolding leading_digits
leading_digits-All [] h = refl
leading_digits-All (c ∷ s) h = rw (h.0, leading_digits-All s h.1)

-- A digit is neither a space nor a sign.
digit_first :
    (c : ℕ) (s : Bytes)
    → IsDigit c
    → (skip_spaces (c ∷ s) ≡ c ∷ s) × (read_sign (c ∷ s) ≡ (false, c ∷ s))
unfolding skip_spaces read_sign is_digit is_space
digit_first c s h = (ground arith, ground arith)

minus_first : (s : Bytes) → (skip_spaces (b'-' ∷ s) ≡ b'-' ∷ s) × (read_sign (b'-' ∷ s) ≡ (true, s))
unfolding skip_spaces read_sign is_space
minus_first s = (refl, refl)

-- What `stoll` makes of a text, from its steps.
stoll_parts :
    (s rest ds : Bytes) (negative : Bool)
    → read_sign (skip_spaces s) ≡ (negative, rest)
    → leading_digits rest ≡ ds
    → stoll s ≡ elim (finish negative ds) [
      | none ↦ none
      | some v ↦ some (v, length s - length rest + length ds)
    ]
unfolding stoll
stoll_parts s rest ds negative h k = ground arith

-- Digits with no sign are read as the number that they spell, if it fits.
pub stoll_digits :
    (s : Bytes)
    → All IsDigit s
    → s ≢ []
    → stoll s ≡ (if ltb (value 0 s) (2 ^ 63) then some (pos (value 0 s), length s) else none)
unfolding finish
stoll_digits [] h ne = absurd (ne refl)
stoll_digits (c ∷ s) h ne =
    let (unspaced, unsigned) = digit_first c s h.0 in
    stoll_parts (c ∷ s) (c ∷ s) (c ∷ s) false (ap read_sign unspaced ∙ unsigned)
      (leading_digits-All (c ∷ s) h)
    ∙ ground arith

stoll_negative :
    (s : Bytes) (n : ℕ)
    → All IsDigit s
    → s ≢ []
    → value 0 s ≡ suc n
    → n < 2 ^ 63
    → stoll (b'-' ∷ s) ≡ some (negsuc n, suc (length s))
unfolding finish
stoll_negative [] n h ne exact fits = absurd (ne refl)
stoll_negative (c ∷ s) n h ne exact fits =
    let (unspaced, signed) = minus_first (c ∷ s) in
    stoll_parts (b'-' ∷ c ∷ s) (c ∷ s) (c ∷ s) true (ap read_sign unspaced ∙ signed)
      (leading_digits-All (c ∷ s) h)
    ∙ ground arith

-- Every `long long` is read back whole from its print.
pub stoll-to_string : (z : ℤ) → InInt64 z → stoll (to_string z) ≡ some (z, length (to_string z))
unfolding to_string
stoll-to_string (pos n) h =
    stoll_digits (decimal n) (decimal-IsDigit n) (decimal-ne-nil n)
    ∙ rw value-decimal (rw (lt→ltb n (2 ^ 63) h.0))
stoll-to_string (negsuc n) h =
    stoll_negative (decimal (suc n)) n (decimal-IsDigit (suc n)) (decimal-ne-nil (suc n))
      (value-decimal (suc n)) (omega arith)
