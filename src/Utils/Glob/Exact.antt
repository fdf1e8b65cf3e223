-- ===== src/Utils/Glob/Exact.antt =====
-- `matchPattern` agrees with the reference definition on texts without a `*`.
use cpp_redis.Prelude.{
  ℕ, zero, suc, ◌+◌, ◌*◌, ◌≤◌, ◌<◌, ◌≡◌, ◌≢◌, ap, ◌∙◌, refl, true, false, ◌||◌, none, some, [], ◌∷◌,
  Bytes, codes, arith, All, length, drop, ◌==◌, str_eq, Bool-cases, inl, inr,
}
use cpp_redis.Utils.{Star, retry, match_loop, match_pattern}
use cpp_redis.Utils.Glob.{
  any_suffix, glob, any_suffix-drop, any_suffix_restart, any_suffix-any_suffix, any_suffix-one_byte,
  only_stars_lem, restarts, expected, glob_plain, glob_starred, glob_nil, glob_mismatch, glob_byte,
  glob_any, expected-none,
}

abbrev pub NoStar : Bytes → Type 0
NoStar = All (λ c. c ≢ b'*')

NoStar-drop : (s : Bytes) → NoStar s → NoStar (drop 1 s)
NoStar-drop [] h = h
NoStar-drop (c ∷ s) h = h.1

-- What the loop knows of its variables: `m` bounds the text that a restart has left and `k` the
-- patterns, and a restart that finds a match means that the current pattern matches further on.
abbrev Remembered : ℕ → ℕ → Bytes → Bytes → Star → Type 0
Remembered m k p s none = Unit
Remembered m k p s (some (bp, bs)) =
    (any_suffix (glob bp) (drop 1 bs) ≡ true → any_suffix (glob p) s ≡ true)
    × NoStar bs
    × (length s ≤ length bs)
    × (length bs ≤ m)
    × (length bp < k)

record Inv (rounds m k : ℕ) (p s : Bytes) (star : Star) : Type 0 where
  text_free : NoStar s
  remembered : Remembered m k p s star
  text_bound : length s ≤ m
  pattern_bound : length p < k
  enough : m * k + length p < rounds

-- The branches on the remembered star, behind a mismatch.
retry_lem :
    (rounds m k : ℕ) (p : Bytes) (c : ℕ) (s : Bytes) (star : Star)
    → ((m' : ℕ) (p' s' : Bytes) (star' : Star)
        → Inv rounds m' k p' s' star'
        → match_loop rounds p' s' star' ≡ some (expected p' s' star'))
    → Inv (suc rounds) m k p (c ∷ s) star
    → retry star (match_loop rounds) ≡ some (restarts star)
unfolding retry
retry_lem rounds m k p c s none ih i = refl
retry_lem rounds m k p c s (some (bp, [])) ih i = absurd (omega arith)
retry_lem rounds zero k p c s (some (bp, d ∷ bs)) ih i = absurd (omega arith)
retry_lem rounds (suc m) k p c s (some (bp, d ∷ bs)) ih i =
    let (_, free, _, shorter, bound) = i.remembered in
    let i' : Inv rounds m k bp bs (some (bp, bs)) = record {
      text_free = free.1;
      remembered = (any_suffix-drop (glob bp) bs, free.1, omega arith, omega arith, bound);
      text_bound = omega arith;
      pattern_bound = bound;
      enough = omega arith;
    } in
    rw (ih m bp bs (some (bp, bs)) i', any_suffix_restart (glob bp) bs)

-- The remembered star stays good when a byte is taken off the pattern and the text.
Remembered-one_byte :
    (m k x c : ℕ) (p s : Bytes) (star : Star)
    → (x == b'*') ≡ false
    → Remembered m k (x ∷ p) (c ∷ s) star
    → Remembered m k p s star
Remembered-one_byte m k x c p s none plain h = tt
Remembered-one_byte m k x c p s (some (bp, bs)) plain (later, free, shorter, small, bound) = (
  λ r. any_suffix-one_byte (glob p) x c s (rw (glob_plain x p plain) at (later r)),
  free,
  omega arith,
  small,
  bound,
)

-- A star that is met replaces the one before, which could do no more.
restarts-starred :
    (m k x : ℕ) (p s : Bytes) (star : Star)
    → (x == b'*') ≡ true
    → Remembered m k (x ∷ p) s star
    → restarts star ≡ true
    → any_suffix (glob p) s ≡ true
restarts-starred m k x p s none starred h r = cc
restarts-starred m k x p s (some (bp, bs)) starred (later, _, _, _, _) r =
    any_suffix-any_suffix (glob p) s (rw (glob_starred x p starred) at (later r))

restarts-end :
    (m k : ℕ) (p : Bytes) (star : Star)
    → Remembered m k p [] star
    → restarts star ≡ true
    → glob p [] ≡ true
unfolding any_suffix
restarts-end m k p none h r = cc
restarts-end m k p (some (bp, bs)) (later, _, _, _, _) r = later r

-- A byte that is accepted is no star, since there is none in the text.
accepted_plain : (x c : ℕ) → c ≢ b'*' → (x == b'?' || x == c) ≡ true → (x == b'*') ≡ false
accepted_plain x c free taken = ground arith

match_loop_lem :
    (rounds m k : ℕ) (p s : Bytes) (star : Star)
    → Inv rounds m k p s star
    → match_loop rounds p s star ≡ some (expected p s star)
unfolding match_loop
match_loop_lem zero m k p s star i = absurd (omega arith)
match_loop_lem (suc rounds) m k p [] star i =
    ground (arith, only_stars_lem p, restarts-end m k p star i.remembered)
match_loop_lem (suc rounds) m k [] (c ∷ s) star i =
    rw (glob_nil c s) (
      retry_lem rounds m k [] c s star (λ m' p' s' star'. match_loop_lem rounds m' k p' s' star') i)
match_loop_lem (suc rounds) m k (x ∷ p) (c ∷ s) star i = elim (Bool-cases (x == b'?' || x == c)) [
  | inl taken ↦
      let plain = accepted_plain x c i.text_free.0 taken in
      rw (taken, glob_byte x c p s taken plain)
        (match_loop_lem rounds m k p s star (record {
          text_free = i.text_free.1;
          remembered = Remembered-one_byte m k x c p s star plain i.remembered;
          text_bound = omega arith;
          pattern_bound = omega arith;
          enough = omega arith;
        }))
  | inr other ↦ elim (Bool-cases (x == b'*')) [
    | inl starred ↦
        rw (other, starred, glob_starred x p starred)
          (match_loop_lem rounds m k p (c ∷ s) (some (p, c ∷ s)) (record {
            text_free = i.text_free;
            remembered = (
              any_suffix-drop (glob p) (c ∷ s),
              i.text_free,
              omega arith,
              i.text_bound,
              omega arith,
            );
            text_bound = i.text_bound;
            pattern_bound = omega arith;
            enough = omega arith;
          })
            ∙ ground (
              arith,
              any_suffix_restart (glob p) (c ∷ s),
              restarts-starred m k x p (c ∷ s) star starred i.remembered,
            ))
    | inr plain ↦
        rw (other, plain, glob_mismatch x c p s other plain)
          (retry_lem rounds m k (x ∷ p) c s star
            (λ m' p' s' star'. match_loop_lem rounds m' k p' s' star') i)
  ]
]

Inv-start :
    (p s : Bytes)
    → NoStar s
    → Inv ((length s + 1) * (length p + 1)) (length s) (length p + 1) p s none
Inv-start p s h = record {
  text_free = h;
  remembered = tt;
  text_bound = omega arith;
  pattern_bound = omega arith;
  enough = omega arith;
}

-- On a text without a `*`, whatever the pattern, `matchPattern` ends and returns what the reference
-- definition says.
pub match_pattern_exact : (p s : Bytes) → NoStar s → match_pattern p s ≡ some (glob p s)
unfolding match_pattern
match_pattern_exact p s h = elim (Bool-cases (str_eq p (codes "*"))) [
  | inl every ↦ rw (every, glob_any p s every)
  | inr other ↦ rw other (
      match_loop_lem _ (length s) (length p + 1) p s none (Inv-start p s h)
      ∙ ap some (expected-none p s))
]
