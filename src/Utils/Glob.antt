-- ===== src/Utils/Glob.antt =====
-- What `matchPattern` decides: a reference definition by recursion on the pattern, and its laws.
pub mod Exact
pub mod Sound
use cpp_redis.Prelude.{
  ℕ, zero, suc, ◌+◌, ◌*◌, ◌≤◌, ◌<◌, ◌≡◌, ◌≢◌, ap, ◌∙◌, refl, Bool, true, false, ◌||◌, Option, none,
  some, [], ◌∷◌, Bytes, codes, arith, All, length, is_empty, drop, ◌==◌, if◌then◌else◌, str_eq,
  str_eq_iff, Bool-cases, inl, inr,
}
use mathlib.Core.Path.{fun_ext}
use cpp_redis.Utils.{only_stars, Star}

-- Whether a test holds of the text or of a part behind some of its bytes.
unfoldable pub any_suffix : (Bytes → Bool) → Bytes → Bool
any_suffix q [] = q []
any_suffix q (c ∷ s) = let rest = any_suffix q s in if q (c ∷ s) then true else rest

-- Whether the text is a byte that `x` accepts and a text that passes the test.
unfoldable pub one_byte : ℕ → (Bytes → Bool) → Bytes → Bool
one_byte x q [] = false
one_byte x q (c ∷ s) = if x == b'?' || x == c then q s else false

-- A star stands for any bytes, a question mark for any byte, any other byte for itself.
unfoldable pub glob : Bytes → Bytes → Bool
glob [] s = is_empty s
glob (x ∷ p) s = if x == b'*' then any_suffix (glob p) s else one_byte x (glob p) s

module _ (q : Bytes → Bool) where
  pub any_suffix_here : (s : Bytes) → q s ≡ true → any_suffix q s ≡ true
  unfolding any_suffix
  any_suffix_here [] h = h
  any_suffix_here (c ∷ s) h = rw h

  pub any_suffix-drop : (s : Bytes) → any_suffix q (drop 1 s) ≡ true → any_suffix q s ≡ true
  unfolding any_suffix
  any_suffix-drop [] h = h
  any_suffix-drop (c ∷ s) h = ground arith

  pub any_suffix_restart :
      (s : Bytes) → any_suffix q s ≡ (if q s then true else any_suffix q (drop 1 s))
  unfolding any_suffix
  any_suffix_restart [] = ground arith
  any_suffix_restart (c ∷ s) = ground arith

  pub any_suffix-any_suffix :
      (s : Bytes) → any_suffix (any_suffix q) s ≡ true → any_suffix q s ≡ true
  unfolding any_suffix
  any_suffix-any_suffix [] h = h
  any_suffix-any_suffix (c ∷ s) h = ground (arith, any_suffix-any_suffix s)

  -- Where a byte and the rest match behind some bytes, the rest does behind the first byte.
  pub any_suffix-one_byte :
      (x c : ℕ) (s : Bytes) → any_suffix (one_byte x q) (c ∷ s) ≡ true → any_suffix q s ≡ true
  unfolding any_suffix one_byte
  any_suffix-one_byte x c [] h = ground arith
  any_suffix-one_byte x c (d ∷ s) h =
      ground (arith, any_suffix_here (d ∷ s), any_suffix-one_byte x d s)

pub only_stars_lem : (p : Bytes) → only_stars p ≡ glob p []
unfolding only_stars glob any_suffix one_byte
only_stars_lem [] = refl
only_stars_lem (x ∷ p) = ground (arith, only_stars_lem p)

-- Whether a restart behind the remembered star finds a match.
abbrev pub restarts : Star → Bool
restarts none = false
restarts (some (p, s)) = any_suffix (glob p) (drop 1 s)

abbrev pub expected : Bytes → Bytes → Star → Bool
expected p s star = if glob p s then true else restarts star

pub glob_plain : (x : ℕ) (p : Bytes) → (x == b'*') ≡ false → glob (x ∷ p) ≡ one_byte x (glob p)
unfolding glob
glob_plain x p plain = fun_ext (λ s. rw plain)

pub glob_starred : (x : ℕ) (p : Bytes) → (x == b'*') ≡ true → glob (x ∷ p) ≡ any_suffix (glob p)
unfolding glob
glob_starred x p starred = fun_ext (λ s. rw starred)

pub glob_nil : (c : ℕ) (s : Bytes) → glob [] (c ∷ s) ≡ false
unfolding glob
glob_nil c s = refl

pub glob_mismatch :
    (x c : ℕ) (p s : Bytes)
    → (x == b'?' || x == c) ≡ false
    → (x == b'*') ≡ false
    → glob (x ∷ p) (c ∷ s) ≡ false
unfolding glob one_byte
glob_mismatch x c p s other plain = rw (plain, other)

pub glob_byte :
    (x c : ℕ) (p s : Bytes)
    → (x == b'?' || x == c) ≡ true
    → (x == b'*') ≡ false
    → glob (x ∷ p) (c ∷ s) ≡ glob p s
unfolding glob one_byte
glob_byte x c p s taken plain = rw (plain, taken)

any_suffix-is_empty : (s : Bytes) → any_suffix is_empty s ≡ true
unfolding any_suffix
any_suffix-is_empty [] = refl
any_suffix-is_empty (c ∷ s) = any_suffix-is_empty s

pub glob_any : (p s : Bytes) → str_eq p (codes "*") ≡ true → glob p s ≡ true
unfolding glob
glob_any p s h =
    let only : p ≡ codes "*" = (str_eq_iff p (codes "*")).0 h in rw only (any_suffix-is_empty s)

pub expected-none : (p s : Bytes) → expected p s none ≡ glob p s
expected-none p s = ground arith
