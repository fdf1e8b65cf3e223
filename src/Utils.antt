-- ===== src/Utils.antt =====
-- utils/utility_functions.cpp
pub mod Integers
pub mod Glob
use cpp_redis.Prelude.{
  drop, suc, zero, str_eq, ◌+◌, ◌*◌, ℕ, ◌-◌, ◌≡◌, refl, Bool, true, false, not, ◌&&◌, ◌||◌, Option,
  none, some, List, [], ◌∷◌, map, Bytes, codes, length, is_empty, ltb, leb, ◌==◌, if◌then◌else◌,
}
use cpp_redis.Prelude.Int.{ℤ, pos}
use cpp_redis.Number.{is_digit, stoll}

-- The loop of `isInteger` from `start`.
unfoldable pub all_digits : Bytes → Bool
all_digits [] = true
all_digits (c ∷ s) = is_digit c && all_digits s

unfoldable pub is_integer : Bytes → Bool
is_integer [] = false
is_integer (c ∷ s) =
    if c == b'-' || c == b'+' then not (is_empty s) && all_digits s else all_digits (c ∷ s)

-- What `stoll` throws is caught, and 0 returned.
unfoldable pub parse_int : Bytes → ℤ
parse_int s = elim (stoll s) [ none ↦ pos 0 | some (v, processed) ↦ v ]

-- `::toupper` in the "C" locale.
unfoldable pub upper : ℕ → ℕ
upper c = if leb b'a' c && leb c b'z' then c - 32 else c

unfoldable pub to_upper : Bytes → Bytes
to_upper s = map upper s

unfoldable pub is_valid_key : Bytes → Bool
is_valid_key key = not (is_empty key) && ltb (length key) 512

-- The second loop of `matchPattern` and its last test.
unfoldable pub only_stars : Bytes → Bool
only_stars [] = true
only_stars (x ∷ p) = if x == b'*' then only_stars p else false

-- What follows `star_p` in the pattern, and the text from `star_s`; `none` is `star_p == npos`.
abbrev pub Star : Type 0
Star = Option (Bytes × Bytes)

-- The branches of `matchPattern` on a remembered star: the star takes one more byte.
unfoldable pub retry : Star → (Bytes → Bytes → Star → Option Bool) → Option Bool
retry none next = some false
retry (some (p, s)) next = next p (drop 1 s) (some (p, drop 1 s))

-- The first loop of `matchPattern` from a position in the pattern and one in the text, with a number
-- of rounds; `none` is that they are over.
unfoldable pub match_loop : ℕ → Bytes → Bytes → Star → Option Bool
match_loop zero p s star = none
match_loop (suc rounds) p [] star = some (only_stars p)
match_loop (suc rounds) [] (c ∷ s) star = retry star (match_loop rounds)
match_loop (suc rounds) (x ∷ p) (c ∷ s) star =
    let onward = match_loop rounds p s star in
    let starred = match_loop rounds p (c ∷ s) (some (p, c ∷ s)) in
    let again = retry star (match_loop rounds) in
    if x == b'?' || x == c then onward else if x == b'*' then starred else again

unfoldable pub match_pattern : Bytes → Bytes → Option Bool
match_pattern pattern' str =
    let run = match_loop ((length str + 1) * (length pattern' + 1)) pattern' str none in
    if str_eq pattern' (codes "*") then some true else run
