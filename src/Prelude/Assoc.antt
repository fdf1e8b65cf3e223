-- ===== src/Prelude/Assoc.antt =====
-- `std::unordered_map` with string keys, as an association list. Its iteration order is not
-- specified by C++; the model iterates in the order of insertion.
use cpp_redis.Prelude.Tests.{if◌then◌else◌, Bool-cases}
use cpp_redis.Prelude.Text.{Bytes, str_eq, str_eq_iff}
use mathlib.Core.Path.{◌≡◌, refl, subst}
use mathlib.Core.Logic.{◌≢◌, inl, inr}
use mathlib.Core.Bool.{Bool, true, false}
use mathlib.Core.Option.{Option, none, some}
use mathlib.Core.List.{List, [], ◌∷◌}
use native.Mathlib.Omega.{arith}

abbrev pub Assoc {ℓ} : Type ℓ → Type ℓ
Assoc V = List (Bytes × V)

module _ {ℓ} {V : Type ℓ} where
  -- m.find(k)
  unfoldable pub find : Bytes → Assoc V → Option V
  find k [] = none
  find k ((j, v) ∷ m) = if str_eq j k then some v else find k m

  -- m[k] = v
  unfoldable pub insert : Bytes → V → Assoc V → Assoc V
  insert k v [] = (k, v) ∷ []
  insert k v ((j, w) ∷ m) = if str_eq j k then (j, v) ∷ m else (j, w) ∷ insert k v m

  -- m.erase(k)
  unfoldable pub erase : Bytes → Assoc V → Assoc V
  erase k [] = []
  erase k ((j, v) ∷ m) = let rest = erase k m in if str_eq j k then rest else (j, v) ∷ rest

  -- The erasure of every entry whose value passes a test.
  unfoldable pub erase_if : (V → Bool) → Assoc V → Assoc V
  erase_if p [] = []
  erase_if p ((j, v) ∷ m) = let rest = erase_if p m in if p v then rest else (j, v) ∷ rest

  unfoldable pub contains : Bytes → Assoc V → Bool
  contains k m = elim (find k m) [ none ↦ false | some v ↦ true ]

  pub find-insert :
      (k j : Bytes) (v : V) (m : Assoc V)
      → find j (insert k v m) ≡ (if str_eq k j then some v else find j m)
  unfolding find insert
  find-insert k j v [] = refl
  find-insert k j v ((i, w) ∷ m) =
      ground (arith, str_eq_iff k j, str_eq_iff i k, str_eq_iff i j, find-insert k j v m)

  pub find-erase :
      (k j : Bytes) (m : Assoc V) → find j (erase k m) ≡ (if str_eq k j then none else find j m)
  unfolding find erase
  find-erase k j [] = ground arith
  find-erase k j ((i, w) ∷ m) =
      ground (arith, str_eq_iff k j, str_eq_iff i k, str_eq_iff i j, find-erase k j m)

  -- No key stands twice.
  abbrev pub Distinct : Assoc V → Type ℓ
  Distinct [] = Unit
  Distinct ((k, v) ∷ m) = (find k m ≡ none) × Distinct m

  pub Distinct-insert : (k : Bytes) (v : V) (m : Assoc V) → Distinct m → Distinct (insert k v m)
  unfolding insert find
  Distinct-insert k v [] d = (refl, tt)
  Distinct-insert k v ((j, w) ∷ m) d =
      ground (arith, Distinct-insert k v m, find-insert k j v m, str_eq_iff k j, str_eq_iff j k)

  pub Distinct-erase : (k : Bytes) (m : Assoc V) → Distinct m → Distinct (erase k m)
  unfolding erase
  Distinct-erase k [] d = tt
  Distinct-erase k ((j, w) ∷ m) d = ground (arith, Distinct-erase k m, find-erase k j m)

  pub find-erase_if :
      (p : V → Bool) (j : Bytes) (m : Assoc V)
      → Distinct m
      → find j (erase_if p m)
        ≡ elim (find j m) [ none ↦ none | some v ↦ if p v then none else some v ]
  unfolding find erase_if
  find-erase_if p j [] d = refl
  find-erase_if p j ((i, w) ∷ m) d = ground (arith, str_eq_iff i j, find-erase_if p j m)

  pub insert-insert : (k : Bytes) (v w : V) (m : Assoc V) → insert k v (insert k w m) ≡ insert k v m
  unfolding insert
  insert-insert k v w [] = ground (arith, str_eq_iff k k)
  insert-insert k v w ((j, x) ∷ m) = ground (arith, insert-insert k v w m)

  pub erase-insert : (k : Bytes) (v : V) (m : Assoc V) → erase k (insert k v m) ≡ erase k m
  unfolding insert erase
  erase-insert k v [] = ground (arith, str_eq_iff k k)
  erase-insert k v ((j, x) ∷ m) = ground (arith, erase-insert k v m)

  pub insert-ne-nil : (k : Bytes) (v : V) (m : Assoc V) → insert k v m ≢ []
  unfolding insert
  insert-ne-nil k v [] = cc
  insert-ne-nil k v ((j, w) ∷ m) = ground arith

-- Every value of a map has a property.
module _ {ℓ κ} {V : Type ℓ} (P : V → Type κ) where
  abbrev pub Each : Assoc V → Type κ
  Each [] = Unit
  Each ((k, v) ∷ m) = P v × Each m

  pub Each-insert : (k : Bytes) (v : V) (m : Assoc V) → P v → Each m → Each (insert k v m)
  unfolding insert
  Each-insert k v [] p e = (p, tt)
  Each-insert k v ((j, w) ∷ m) p e = elim (Bool-cases (str_eq j k)) [
    | inl same ↦ rw same (p, e.1)
    | inr other ↦ rw other (e.0, Each-insert k v m p e.1)
  ]

  pub Each-erase : (k : Bytes) (m : Assoc V) → Each m → Each (erase k m)
  unfolding erase
  Each-erase k [] e = tt
  Each-erase k ((j, w) ∷ m) e = elim (Bool-cases (str_eq j k)) [
    | inl same ↦ rw same (Each-erase k m e.1)
    | inr other ↦ rw other (e.0, Each-erase k m e.1)
  ]

  pub Each-erase_if : (p : V → Bool) (m : Assoc V) → Each m → Each (erase_if p m)
  unfolding erase_if
  Each-erase_if p [] e = tt
  Each-erase_if p ((j, w) ∷ m) e = elim (Bool-cases (p w)) [
    | inl gone ↦ rw gone (Each-erase_if p m e.1)
    | inr kept ↦ rw kept (e.0, Each-erase_if p m e.1)
  ]

  pub Each-find : (k : Bytes) (m : Assoc V) (v : V) → Each m → find k m ≡ some v → P v
  unfolding find
  Each-find k [] v e h = cc
  Each-find k ((j, w) ∷ m) v e h = elim (Bool-cases (str_eq j k)) [
    | inl same ↦ let same_value : w ≡ v = ground arith in subst P same_value e.0
    | inr other ↦ Each-find k m v e.1 (rw other at h)
  ]

module _ {ℓ} {V : Type ℓ} where
  pub Distinct-erase_if : (p : V → Bool) (m : Assoc V) → Distinct m → Distinct (erase_if p m)
  unfolding erase_if
  Distinct-erase_if p [] d = tt
  Distinct-erase_if p ((j, w) ∷ m) d = ground (arith, Distinct-erase_if p m, find-erase_if p j m)
