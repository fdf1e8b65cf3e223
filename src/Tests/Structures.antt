-- ===== src/Tests/Structures.antt =====
-- Examples for the commands on lists, sets and hashes.
use cpp_redis.Prelude.Ordered
use cpp_redis.Prelude.Ordered.{IsSorted}
use cpp_redis.Commands.Sets.{add_members, remove_members}
use cpp_redis.Commands.Sets.Members.{named, add_members_exact, remove_members_exact}
use cpp_redis.Prelude.{
  ◌+◌, ◌-◌, ◌≡◌, refl, true, false, none, some, [], ◌∷◌, Bytes, codes, length, ltb, leb, get_elem?,
  if◌then◌else◌,
}
use cpp_redis.Prelude.Int.{pos, negsuc}
use cpp_redis.Prelude.Assoc.{find, Distinct}
use cpp_redis.Commands.Lists.{range, position}
use cpp_redis.Commands.Lists.Slices.{position_exact, place, range_exact}
use cpp_redis.Commands.Hashes.{set_fields, delete_fields}
use cpp_redis.Commands.Hashes.Fields.{held, set_fields_exact, delete_fields_exact}

position_exact_example :
    (position (pos 1) 3 ≡ (if ltb 1 3 then some 1 else none))
    × (position (negsuc 1) 3 ≡ (if ltb 1 3 then some (3 - 1 - 1) else none))
position_exact_example = position_exact 1 3

add_members_exact_example :
    (length (add_members (codes "b" ∷ codes "a" ∷ codes "b" ∷ []) 0 (codes "a" ∷ [])).1
      ≡ 1 + (add_members (codes "b" ∷ codes "a" ∷ codes "b" ∷ []) 0 (codes "a" ∷ [])).0)
    × IsSorted (add_members (codes "b" ∷ codes "a" ∷ codes "b" ∷ []) 0 (codes "a" ∷ [])).1
    × ((j : Bytes)
        → Ordered.member j
            (add_members (codes "b" ∷ codes "a" ∷ codes "b" ∷ []) 0 (codes "a" ∷ [])).1
          ≡ (if named (codes "b" ∷ codes "a" ∷ codes "b" ∷ []) j
              then true
              else Ordered.member j (codes "a" ∷ [])))
add_members_exact_example =
    add_members_exact (codes "b" ∷ codes "a" ∷ codes "b" ∷ []) (codes "a" ∷ []) (tt, tt)

remove_members_exact_example :
    (1
      ≡ length (remove_members (codes "a" ∷ codes "b" ∷ []) 0 (codes "a" ∷ [])).1
        + (remove_members (codes "a" ∷ codes "b" ∷ []) 0 (codes "a" ∷ [])).0)
    × IsSorted (remove_members (codes "a" ∷ codes "b" ∷ []) 0 (codes "a" ∷ [])).1
    × ((j : Bytes)
        → Ordered.member j (remove_members (codes "a" ∷ codes "b" ∷ []) 0 (codes "a" ∷ [])).1 ≡ (
            if named (codes "a" ∷ codes "b" ∷ []) j
            then false
            else Ordered.member j (codes "a" ∷ [])))
remove_members_exact_example =
    remove_members_exact (codes "a" ∷ codes "b" ∷ []) (codes "a" ∷ []) (tt, tt)

set_fields_exact_example :
    (length
        (set_fields
          ((codes "f", codes "1") ∷ (codes "g", codes "2") ∷ [])
          0
          ((codes "f", codes "0") ∷ [])).1
      ≡ 1
        + (set_fields
            ((codes "f", codes "1") ∷ (codes "g", codes "2") ∷ [])
            0
            ((codes "f", codes "0") ∷ [])).0)
    × ((j : Bytes)
        → find j
            (set_fields
              ((codes "f", codes "1") ∷ (codes "g", codes "2") ∷ [])
              0
              ((codes "f", codes "0") ∷ [])).1
          ≡ held
              ((codes "f", codes "1") ∷ (codes "g", codes "2") ∷ [])
              j
              (find j ((codes "f", codes "0") ∷ [])))
set_fields_exact_example =
    set_fields_exact ((codes "f", codes "1") ∷ (codes "g", codes "2") ∷ [])
      ((codes "f", codes "0") ∷ [])

Distinct-one_field : Distinct {V = Bytes} ((codes "f", codes "0") ∷ [])
unfolding find
Distinct-one_field = (refl, tt)

delete_fields_exact_example :
    (1
      ≡ length (delete_fields (codes "f" ∷ codes "g" ∷ []) 0 ((codes "f", codes "0") ∷ [])).1
        + (delete_fields (codes "f" ∷ codes "g" ∷ []) 0 ((codes "f", codes "0") ∷ [])).0)
    × ((j : Bytes)
        → find j (delete_fields (codes "f" ∷ codes "g" ∷ []) 0 ((codes "f", codes "0") ∷ [])).1 ≡ (
            if named (codes "f" ∷ codes "g" ∷ []) j
            then none
            else find j ((codes "f", codes "0") ∷ [])))
delete_fields_exact_example =
    delete_fields_exact (codes "f" ∷ codes "g" ∷ []) ((codes "f", codes "0") ∷ [])
      Distinct-one_field

-- A start before the list, and an end behind it.
range_exact_example : get_elem? (range (negsuc 8) (pos 7) (codes "a" ∷ codes "b" ∷ [])) 1 ≡ (
    if leb (place (negsuc 8) 2 + 1) (place (pos 7) 2)
    then get_elem? (codes "a" ∷ codes "b" ∷ []) (place (negsuc 8) 2 + 1)
    else none)
range_exact_example = range_exact (negsuc 8) (pos 7) (codes "a" ∷ codes "b" ∷ []) 1
