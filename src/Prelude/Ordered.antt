-- ===== src/Prelude/Ordered.antt =====
-- `std::set<std::string>`: the strictly increasing list of its elements.
use cpp_redis.Prelude.Tests.{if◌then◌else◌}
use cpp_redis.Prelude.Lists.{remove_at}
use cpp_redis.Prelude.Text.{
  Bytes, str_eq, str_lt, str_eq_iff, str_lt_irrefl, str_lt_trans, str_lt_connex,
}
use Prim.Native.Nat.{ℕ, zero, suc}
use mathlib.Core.Path.{◌≡◌, refl}
use mathlib.Core.Bool.{Bool, true, false}
use mathlib.Core.List.{List, [], ◌∷◌}
use native.Mathlib.Omega.{arith}

-- s.insert(x)
unfoldable pub insert : Bytes → List Bytes → List Bytes
insert x [] = x ∷ []
insert x (y ∷ s) = if str_lt x y then x ∷ y ∷ s else if str_lt y x then y ∷ insert x s else y ∷ s

-- s.erase(x)
unfoldable pub erase : Bytes → List Bytes → List Bytes
erase x [] = []
erase x (y ∷ s) = if str_eq y x then s else y ∷ erase x s

-- s.count(x) > 0
unfoldable pub member : Bytes → List Bytes → Bool
member x [] = false
member x (y ∷ s) = if str_eq y x then true else member x s

abbrev pub Above : Bytes → List Bytes → Type 0
Above x [] = Unit
Above x (y ∷ s) = str_lt x y ≡ true

-- Strictly increasing.
abbrev pub IsSorted : List Bytes → Type 0
IsSorted [] = Unit
IsSorted (x ∷ s) = Above x s × IsSorted s

Above-insert : (y x : Bytes) (s : List Bytes) → str_lt y x ≡ true → Above y s → Above y (insert x s)
unfolding insert
Above-insert y x [] h a = h
Above-insert y x (z ∷ s) h a = ground arith

pub insert-IsSorted : (x : Bytes) (s : List Bytes) → IsSorted s → IsSorted (insert x s)
unfolding insert
insert-IsSorted x [] h = (tt, tt)
insert-IsSorted x (y ∷ s) h = ground (arith, Above-insert y x s, insert-IsSorted x s)

Above-tail : (x y : Bytes) (s : List Bytes) → str_lt x y ≡ true → Above y s → Above x s
Above-tail x y [] h a = tt
Above-tail x y (z ∷ s) h a = str_lt_trans x y z h a

Above-erase : (x y : Bytes) (s : List Bytes) → IsSorted s → Above y s → Above y (erase x s)
unfolding erase
Above-erase x y [] h a = tt
Above-erase x y (z ∷ s) h a = ground (arith, Above-tail y z s)

pub erase-IsSorted : (x : Bytes) (s : List Bytes) → IsSorted s → IsSorted (erase x s)
unfolding erase
erase-IsSorted x [] h = tt
erase-IsSorted x (y ∷ s) h = ground (arith, Above-erase x y s, erase-IsSorted x s)

Above-remove_at :
    (i : ℕ) (y : Bytes) (s : List Bytes) → IsSorted s → Above y s → Above y (remove_at i s)
Above-remove_at i y [] h a = tt
Above-remove_at zero y (z ∷ s) h a = Above-tail y z s a h.0
Above-remove_at (suc i) y (z ∷ s) h a = a

pub remove_at-IsSorted : (i : ℕ) (s : List Bytes) → IsSorted s → IsSorted (remove_at i s)
remove_at-IsSorted i [] h = tt
remove_at-IsSorted zero (y ∷ s) h = h.1
remove_at-IsSorted (suc i) (y ∷ s) h = (Above-remove_at i y s h.1 h.0, remove_at-IsSorted i s h.1)

pub member-insert :
    (x j : Bytes) (s : List Bytes)
    → member j (insert x s) ≡ (if str_eq x j then true else member j s)
unfolding member insert
member-insert x j [] = ground arith
member-insert x j (y ∷ s) =
    ground (arith, member-insert x j s, str_lt_connex x y, str_eq_iff x j, str_eq_iff y j)

pub Above-not-member : (x : Bytes) (s : List Bytes) → IsSorted s → Above x s → member x s ≡ false
unfolding member
Above-not-member x [] h a = refl
Above-not-member x (y ∷ s) h a =
    ground
      (arith, str_eq_iff y x, str_lt_irrefl x, Above-not-member x s h.1 (Above-tail x y s a h.0))

pub member-erase :
    (x j : Bytes) (s : List Bytes)
    → IsSorted s
    → member j (erase x s) ≡ (if str_eq x j then false else member j s)
unfolding member erase
member-erase x j [] h = ground arith
member-erase x j (y ∷ s) h = ground (
  arith,
  member-erase x j s h.1,
  Above-not-member y s h.1 h.0,
  str_eq_iff x j,
  str_eq_iff y j,
  str_eq_iff y x,
)
