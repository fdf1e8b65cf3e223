-- ===== src/Utils/Glob/Sound.antt =====
-- `matchPattern` on every text: it ends, and accepts only what the reference definition accepts.
use cpp_redis.Prelude.{
  ℕ, zero, suc, ◌+◌, ◌*◌, ◌≤◌, ◌<◌, ◌≡◌, sym, ◌∙◌, refl, Bool, true, false, ◌||◌, Option, none,
  some, [], ◌∷◌, Bytes, codes, arith, length, ◌==◌, str_eq, Bool-cases, inl, inr,
}
use cpp_redis.Utils.{only_stars, Star, retry, match_loop, match_pattern}
use cpp_redis.Utils.Glob.{
  glob, any_suffix_here, any_suffix-drop, any_suffix_restart, only_stars_lem, restarts, expected,
  glob_starred, glob_nil, glob_mismatch, glob_byte, glob_any, expected-none,
}

-- A run that has ended, and whose `true` the reference definition or a restart confirms.
abbrev Sound : Bytes → Bytes → Star → Option Bool → Type 0
Sound p s star run = (b : Bool) × (run ≡ some b) × (b ≡ true → expected p s star ≡ true)

-- The remembered star lies before the current position, and `m` and `k` bound its text and pattern.
abbrev Before : ℕ → ℕ → Bytes → Star → Type 0
Before m k s none = Unit
Before m k s (some (bp, bs)) = (length s ≤ length bs) × (length bs ≤ m) × (length bp < k)

record Bounds (rounds m k : ℕ) (p s : Bytes) (star : Star) : Type 0 where
  before : Before m k s star
  text_bound : length s ≤ m
  pattern_bound : length p < k
  enough : m * k + length p < rounds

Before-tail : (m k c : ℕ) (s : Bytes) (star : Star) → Before m k (c ∷ s) star → Before m k s star
Before-tail m k c s none h = tt
Before-tail m k c s (some (bp, bs)) (shorter, small, bound) = (omega arith, small, bound)

retry-Sound :
    (rounds m k : ℕ) (p : Bytes) (c : ℕ) (s : Bytes) (star : Star)
    → ((m' : ℕ) (p' s' : Bytes) (star' : Star)
        → Bounds rounds m' k p' s' star'
        → Sound p' s' star' (match_loop rounds p' s' star'))
    → Bounds (suc rounds) m k p (c ∷ s) star
    → (b : Bool) × (retry star (match_loop rounds) ≡ some b) × (b ≡ true → restarts star ≡ true)
unfolding retry
retry-Sound rounds m k p c s none ih i = (false, refl, λ h. h)
retry-Sound rounds m k p c s (some (bp, [])) ih i = absurd (omega arith)
retry-Sound rounds zero k p c s (some (bp, d ∷ bs)) ih i = absurd (omega arith)
retry-Sound rounds (suc m) k p c s (some (bp, d ∷ bs)) ih i =
    let (b, run, right) = ih m bp bs (some (bp, bs)) (record {
      before = (omega arith, omega arith, i.before.2);
      text_bound = omega arith;
      pattern_bound = i.before.2;
      enough = omega arith;
    }) in
    (b, run, λ h. any_suffix_restart (glob bp) bs ∙ right h)

-- A byte that is accepted, be it for a star that is taken for itself, extends a match.
glob_taken :
    (x c : ℕ) (p s : Bytes)
    → (x == b'?' || x == c) ≡ true
    → glob p s ≡ true
    → glob (x ∷ p) (c ∷ s) ≡ true
glob_taken x c p s taken h = elim (Bool-cases (x == b'*')) [
  | inl starred ↦
      rw (glob_starred x p starred)
        (any_suffix-drop (glob p) (c ∷ s) (any_suffix_here (glob p) s h))
  | inr plain ↦ glob_byte x c p s taken plain ∙ h
]

match_loop-Sound :
    (rounds m k : ℕ) (p s : Bytes) (star : Star)
    → Bounds rounds m k p s star
    → Sound p s star (match_loop rounds p s star)
unfolding match_loop
match_loop-Sound zero m k p s star i = absurd (omega arith)
match_loop-Sound (suc rounds) m k p [] star i =
    (only_stars p, refl, λ h. ground (arith, only_stars_lem p))
match_loop-Sound (suc rounds) m k [] (c ∷ s) star i =
    let (b, run, right) =
      retry-Sound rounds m k [] c s star
        (λ m' p' s' star'. match_loop-Sound rounds m' k p' s' star') i in
    (b, run, λ h. rw (glob_nil c s) (right h))
match_loop-Sound (suc rounds) m k (x ∷ p) (c ∷ s) star i = elim (Bool-cases (x == b'?' || x == c)) [
  | inl taken ↦
      let (b, run, right) = match_loop-Sound rounds m k p s star (record {
        before = Before-tail m k c s star i.before;
        text_bound = omega arith;
        pattern_bound = omega arith;
        enough = omega arith;
      }) in
      (b, rw taken run, λ h. ground (arith, right h, glob_taken x c p s taken))
  | inr other ↦ elim (Bool-cases (x == b'*')) [
    | inl starred ↦
        let (b, run, right) = match_loop-Sound rounds m k p (c ∷ s) (some (p, c ∷ s)) (record {
          before = (omega arith, i.text_bound, omega arith);
          text_bound = i.text_bound;
          pattern_bound = omega arith;
          enough = omega arith;
        }) in
        (
          b,
          rw (other, starred) run,
          λ h.
              rw (glob_starred x p starred)
                (ground (arith, right h, any_suffix_restart (glob p) (c ∷ s))),
        )
    | inr plain ↦
        let (b, run, right) =
          retry-Sound rounds m k (x ∷ p) c s star
            (λ m' p' s' star'. match_loop-Sound rounds m' k p' s' star') i in
        (b, rw (other, plain) run, λ h. rw (glob_mismatch x c p s other plain) (right h))
  ]
]

-- `matchPattern` ends on every pattern and text, and where it returns true the reference definition
-- accepts the text.
pub match_pattern_sound :
    (p s : Bytes) → (b : Bool) × (match_pattern p s ≡ some b) × (b ≡ true → glob p s ≡ true)
unfolding match_pattern
match_pattern_sound p s = elim (Bool-cases (str_eq p (codes "*"))) [
  | inl every ↦ (true, rw every, λ h. glob_any p s every)
  | inr other ↦
      let (b, run, right) =
        match_loop-Sound ((length s + 1) * (length p + 1)) (length s) (length p + 1) p s none
          (record {
            before = tt;
            text_bound = omega arith;
            pattern_bound = omega arith;
            enough = omega arith;
          }) in
      (b, rw other run, λ h. sym (expected-none p s) ∙ right h)
]
