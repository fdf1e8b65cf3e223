-- ===== src/Commands/Lists/Slices.antt =====
-- The indices of LRANGE, LINDEX and LSET.
use cpp_redis.Prelude.{
  [], ◌∷◌, ◌++◌, refl, zero, suc, drop-append, length-append, get_elem?, ltb, leb, ℕ, ◌+◌, ◌-◌, ◌≤◌,
  ◌<◌, ◌≡◌, ap, ◌∙◌, none, some, List, Bytes, arith, length, take, drop, if◌then◌else◌,
}
use cpp_redis.Prelude.Int.{ℤ, pos, negsuc, ◌+ℤ◌, le_ℤ}
use cpp_redis.Commands.Lists.{from_end, clamp, range, position}

-- The index of an element from either end: `negsuc k` is the (k + 1)-th from the end.
from_end_pos : (i n : ℕ) → from_end (pos i) n ≡ pos i
unfolding from_end
from_end_pos i n = ground arith

from_end_negsuc : (k n : ℕ) → k < n → from_end (negsuc k) n ≡ pos (n - 1 - k)
unfolding from_end ◌+ℤ◌
from_end_negsuc k n h = ground arith

clamp_pos : (i n : ℕ) → clamp (pos i) n ≡ pos (if ltb i n then i else n - 1)
unfolding clamp
clamp_pos i n = ground arith

-- The index i of LINDEX and LSET names position i, and the index -(i + 1) names the (i + 1)-th
-- position from the end; either is refused if and only if the list has no more than i elements.
pub position_exact :
    (i n : ℕ)
    → (position (pos i) n ≡ (if ltb i n then some i else none))
      × (position (negsuc i) n ≡ (if ltb i n then some (n - 1 - i) else none))
unfolding position from_end ◌+ℤ◌
position_exact i n = (ground arith, ground arith)

clamp_empty : clamp (from_end (negsuc 0) 0) 0 ≡ pos 0
unfolding clamp from_end ◌+ℤ◌
clamp_empty = refl

range_clamped :
    (start end : ℤ) (l : List Bytes) (a b : ℕ)
    → clamp (from_end start (length l)) (length l) ≡ pos a
    → clamp (from_end end (length l)) (length l) ≡ pos b
    → a ≤ b
    → range start end l ≡ take (b + 1 - a) (drop a l)
unfolding range
range_clamped start end l a b first last h = rw (first, last) ground arith

clamp-from_end : (i n : ℕ) → clamp (from_end (pos i) n) n ≡ pos (if ltb i n then i else n - 1)
clamp-from_end i n = ap (λ z. clamp z n) (from_end_pos i n) ∙ clamp_pos i n

-- LRANGE from a position to a later one, both in the list and counted from the front, is the slice
-- between them, both ends included.
pub range_pos :
    (i j : ℕ) (l : List Bytes)
    → i ≤ j
    → j < length l
    → range (pos i) (pos j) l ≡ take (j + 1 - i) (drop i l)
range_pos i j l h k =
    range_clamped (pos i) (pos j) l i j (clamp-from_end i (length l) ∙ ground arith)
      (clamp-from_end j (length l) ∙ ground arith) h

take_all : (l : List Bytes) → take (length l) l ≡ l
take_all [] = refl
take_all (x ∷ l) = ap (λ xs. x ∷ xs) (take_all l)

-- LRANGE from 0 to -1 is the whole list.
pub range_all : (l : List Bytes) → range (pos 0) (negsuc 0) l ≡ l
range_all [] =
    range_clamped (pos 0) (negsuc 0) [] 0 0 (clamp-from_end 0 0) clamp_empty (omega arith)
range_all (x ∷ l) =
    range_clamped (pos 0) (negsuc 0) (x ∷ l) 0 (length l)
      (clamp-from_end 0 (length (x ∷ l)) ∙ ground arith)
      (ap (λ z. clamp z (length (x ∷ l))) (from_end_negsuc 0 (length (x ∷ l)) (omega arith))
        ∙ clamp_pos (length (x ∷ l) - 1 - 0) (length (x ∷ l))
        ∙ ground arith)
      (omega arith)
    ∙ ap (λ n. take n (x ∷ l)) {y = length (x ∷ l)} (omega arith)
    ∙ take_all (x ∷ l)

-- LRANGE from a position behind the last element, to that position or a later one, is the last
-- element.
pub range_beyond :
    (i j : ℕ) (l : List Bytes) (x : Bytes)
    → length l < i
    → i ≤ j
    → range (pos i) (pos j) (l ++ x ∷ []) ≡ x ∷ []
range_beyond i j l x h k =
    let size : length (l ++ x ∷ []) ≡ suc (length l) =
      omega (arith, length-append {0} l (x ∷ [])) in
    range_clamped (pos i) (pos j) (l ++ x ∷ []) (length l) (length l)
      (rw size (clamp-from_end i (suc (length l)) ∙ ground arith))
      (rw size (clamp-from_end j (suc (length l)) ∙ ground arith)) (omega arith)
    ∙ ap (λ xs. take (length l + 1 - length l) xs) (drop-append l (x ∷ []))
    ∙ ap (λ n. take n (x ∷ [])) {y = 1} (omega arith)

-- The position that an index of LRANGE names: from the end where it is negative, and the nearest
-- position of the list where it is outside.
abbrev pub place : ℤ → ℕ → ℕ
place (pos i) n = if ltb i n then i else n - 1
place (negsuc i) n = n - 1 - i

clamp-place : (index : ℤ) (n : ℕ) → clamp (from_end index n) n ≡ pos (place index n)
unfolding clamp from_end ◌+ℤ◌
clamp-place (pos i) n = ground arith
clamp-place (negsuc i) n = ground arith

get_elem?-drop : (n k : ℕ) (l : List Bytes) → get_elem? (drop n l) k ≡ get_elem? l (n + k)
get_elem?-drop zero k l = ap (get_elem? l) (omega arith)
get_elem?-drop (suc n) k [] = refl
get_elem?-drop (suc n) k (x ∷ l) =
    get_elem?-drop n k l ∙ ap (get_elem? (x ∷ l)) {x = suc (n + k)} (omega arith)

get_elem?-take :
    (n k : ℕ) (l : List Bytes) → get_elem? (take n l) k ≡ (if ltb k n then get_elem? l k else none)
get_elem?-take zero k l = ground arith
get_elem?-take (suc n) k [] = ground arith
get_elem?-take (suc n) zero (x ∷ l) = ground arith
get_elem?-take (suc n) (suc k) (x ∷ l) = ground (arith, get_elem?-take n k l)

slice_between :
    (a b k : ℕ) (l : List Bytes)
    → get_elem? (if le_ℤ (pos a) (pos b) then take (b + 1 - a) (drop a l) else []) k
      ≡ (if leb (a + k) b then get_elem? l (a + k) else none)
slice_between a b k l =
    ground (arith, get_elem?-take (b + 1 - a) k (drop a l), get_elem?-drop a k l)

-- The element at position k of the reply of LRANGE, on any list and with any indices, is the
-- element k positions behind the place of the first index, up to the place of the second.
pub range_exact :
    (start end : ℤ) (l : List Bytes) (k : ℕ)
    → let n = length l in
      get_elem? (range start end l) k
      ≡ (if leb (place start n + k) (place end n) then get_elem? l (place start n + k) else none)
unfolding range
range_exact start end l k =
    let n = length l in
    rw (clamp-place start n, clamp-place end n) (slice_between (place start n) (place end n) k l)
