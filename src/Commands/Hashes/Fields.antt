-- ===== src/Commands/Hashes/Fields.antt =====
-- The loops of HSET and HDEL: what the fields of a hash hold behind them, and what they count.
use cpp_redis.Prelude.{
  ℕ, suc, ◌+◌, ◌≡◌, refl, ap, ◌∙◌, Option, none, some, List, [], ◌∷◌, Bytes, arith, length,
  if◌then◌else◌, str_eq, str_eq_iff,
}
use cpp_redis.Prelude.Assoc
use cpp_redis.Prelude.Assoc.{
  Assoc, Distinct, find-insert, find-erase, Distinct-insert, Distinct-erase,
}
use cpp_redis.Commands.Hashes.{set_fields, delete_fields}
use cpp_redis.Commands.Sets.Members.{named}

-- What a field holds behind the pairs of HSET, from left to right.
abbrev pub held : List (Bytes × Bytes) → Bytes → Option Bytes → Option Bytes
held [] j o = o
held ((field, value) ∷ pairs) j o = held pairs j (if str_eq field j then some value else o)

length-insert :
    (k v : Bytes) (m : Assoc Bytes)
    → length (Assoc.insert k v m) ≡ (if Assoc.contains k m then length m else suc (length m))
unfolding Assoc.insert Assoc.contains Assoc.find
length-insert k v [] = refl
length-insert k v ((j, w) ∷ m) = ground (arith, length-insert k v m)

length-erase :
    (k : Bytes) (m : Assoc Bytes)
    → Distinct m
    → length m
      ≡ (if Assoc.contains k m then suc (length (Assoc.erase k m)) else length (Assoc.erase k m))
unfolding Assoc.erase Assoc.contains Assoc.find
length-erase k [] d = refl
length-erase k ((j, w) ∷ m) d = ground (arith, length-erase k m d.1, str_eq_iff j k, d.0)

set_fields_lem :
    (pairs : List (Bytes × Bytes)) (n : ℕ) (m : Assoc Bytes)
    → (length (set_fields pairs n m).1 + n ≡ length m + (set_fields pairs n m).0)
      × ((j : Bytes) → Assoc.find j (set_fields pairs n m).1 ≡ held pairs j (Assoc.find j m))
unfolding set_fields
set_fields_lem [] n m = (refl, λ j. refl)
set_fields_lem ((field, value) ∷ pairs) n m =
    let (count, fields) =
      set_fields_lem pairs (if Assoc.contains field m then n else n + 1)
        (Assoc.insert field value m) in
    (
      ground (arith, count, length-insert field value m),
      λ j. fields j ∙ ap (held pairs j) (find-insert field j value m),
    )

-- The loop of HSET over any pairs: its count is by how many fields the hash grows, and each field holds
-- the last value that it is paired with, or what it held before.
pub set_fields_exact :
    (pairs : List (Bytes × Bytes)) (m : Assoc Bytes)
    → let (added, m') = set_fields pairs 0 m in
      (length m' ≡ length m + added)
      × ((j : Bytes) → Assoc.find j m' ≡ held pairs j (Assoc.find j m))
set_fields_exact pairs m =
    let (count, fields) = set_fields_lem pairs 0 m in (omega (arith, count), fields)

delete_fields_lem :
    (fields : List Bytes) (n : ℕ) (m : Assoc Bytes)
    → Distinct m
    → (length m + n ≡ length (delete_fields fields n m).1 + (delete_fields fields n m).0)
      × ((j : Bytes)
          → Assoc.find j (delete_fields fields n m).1
            ≡ (if named fields j then none else Assoc.find j m))
unfolding delete_fields
delete_fields_lem [] n m d = (refl, λ j. refl)
delete_fields_lem (field ∷ fields) n m d =
    let (count, left) =
      delete_fields_lem fields (if Assoc.contains field m then n + 1 else n) (Assoc.erase field m)
        (Distinct-erase field m d) in
    (
      ground (arith, count, length-erase field m d),
      λ j. left j ∙ ground (arith, find-erase field j m),
    )

-- The loop of HDEL over any fields, from a hash in which no field stands twice: its count is by how
-- many fields the hash shrinks, the named fields are gone, and the others hold what they held.
pub delete_fields_exact :
    (fields : List Bytes) (m : Assoc Bytes)
    → Distinct m
    → let (deleted, m') = delete_fields fields 0 m in
      (length m ≡ length m' + deleted)
      × ((j : Bytes) → Assoc.find j m' ≡ (if named fields j then none else Assoc.find j m))
delete_fields_exact fields m d =
    let (count, left) = delete_fields_lem fields 0 m d in (omega (arith, count), left)
