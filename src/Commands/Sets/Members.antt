-- ===== src/Commands/Sets/Members.antt =====
-- The loops of SADD and SREM: which elements a set has behind them, and what they count.
use cpp_redis.Prelude.{
  ℕ, suc, ◌+◌, ◌≡◌, refl, ◌∙◌, Bool, true, false, List, [], ◌∷◌, Bytes, arith, length,
  if◌then◌else◌, str_eq, str_eq_iff, str_lt_irrefl, str_lt_connex,
}
use cpp_redis.Prelude.Ordered
use cpp_redis.Prelude.Ordered.{
  Above, IsSorted, insert-IsSorted, erase-IsSorted, member-insert, member-erase, Above-not-member,
}
use cpp_redis.Commands.Sets.{add_members, remove_members}

-- Whether an argument is the element.
abbrev pub named : List Bytes → Bytes → Bool
named [] j = false
named (x ∷ xs) j = if str_eq x j then true else named xs j

length-insert :
    (x : Bytes) (s : List Bytes)
    → IsSorted s
    → length (Ordered.insert x s) ≡ (if Ordered.member x s then length s else suc (length s))
unfolding Ordered.insert Ordered.member
length-insert x [] h = refl
length-insert x (y ∷ s) h = ground (
  arith,
  length-insert x s h.1,
  str_lt_connex x y,
  str_eq_iff y x,
  str_lt_irrefl x,
  Above-not-member x (y ∷ s) h,
)

length-erase :
    (x : Bytes) (s : List Bytes)
    → length s ≡ (
        if Ordered.member x s then suc (length (Ordered.erase x s)) else length (Ordered.erase x s))
unfolding Ordered.erase Ordered.member
length-erase x [] = refl
length-erase x (y ∷ s) = ground (arith, length-erase x s)

add_members_lem :
    (xs : List Bytes) (n : ℕ) (s : List Bytes)
    → IsSorted s
    → (length (add_members xs n s).1 + n ≡ length s + (add_members xs n s).0)
      × IsSorted (add_members xs n s).1
      × ((j : Bytes)
          → Ordered.member j (add_members xs n s).1
            ≡ (if named xs j then true else Ordered.member j s))
unfolding add_members
add_members_lem [] n s h = (refl, h, λ j. refl)
add_members_lem (x ∷ xs) n s h =
    let (count, sorted, members) =
      add_members_lem xs (if Ordered.member x s then n else n + 1) (Ordered.insert x s)
        (insert-IsSorted x s h) in
    (
      ground (arith, count, length-insert x s h),
      sorted,
      λ j. members j ∙ ground (arith, member-insert x j s),
    )

-- The loop of SADD over any arguments, from a strictly ordered set: its count is by how many
-- elements the set grows, the set stays strictly ordered, and its elements are the arguments and the
-- elements from before.
pub add_members_exact :
    (xs s : List Bytes)
    → IsSorted s
    → let (added, s') = add_members xs 0 s in
      (length s' ≡ length s + added)
      × IsSorted s'
      × ((j : Bytes) → Ordered.member j s' ≡ (if named xs j then true else Ordered.member j s))
add_members_exact xs s h =
    let (count, sorted, members) = add_members_lem xs 0 s h in
    (omega (arith, count), sorted, members)

remove_members_lem :
    (xs : List Bytes) (n : ℕ) (s : List Bytes)
    → IsSorted s
    → (length s + n ≡ length (remove_members xs n s).1 + (remove_members xs n s).0)
      × IsSorted (remove_members xs n s).1
      × ((j : Bytes)
          → Ordered.member j (remove_members xs n s).1
            ≡ (if named xs j then false else Ordered.member j s))
unfolding remove_members
remove_members_lem [] n s h = (refl, h, λ j. refl)
remove_members_lem (x ∷ xs) n s h =
    let (count, sorted, members) =
      remove_members_lem xs (if Ordered.member x s then n + 1 else n) (Ordered.erase x s)
        (erase-IsSorted x s h) in
    (
      ground (arith, count, length-erase x s),
      sorted,
      λ j. members j ∙ ground (arith, member-erase x j s h),
    )

-- The loop of SREM over any arguments, from a strictly ordered set: its count is by how many elements
-- the set shrinks, the set stays strictly ordered, and its elements are those from before that are no
-- argument.
pub remove_members_exact :
    (xs s : List Bytes)
    → IsSorted s
    → let (removed, s') = remove_members xs 0 s in
      (length s ≡ length s' + removed)
      × IsSorted s'
      × ((j : Bytes) → Ordered.member j s' ≡ (if named xs j then false else Ordered.member j s))
remove_members_exact xs s h =
    let (count, sorted, members) = remove_members_lem xs 0 s h in
    (omega (arith, count), sorted, members)
