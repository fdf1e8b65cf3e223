-- ===== src/Threads/Races.antt =====
-- What threads can do to one another.
use cpp_redis.Prelude.{
  ◌≡◌, true, false, Option, none, some, List, [], ◌∷◌, Bytes, arith, map, str_eq_refl,
}
use cpp_redis.Prelude.Int.{ℤ, pos, ◌+ℤ◌, wrap_int64}
use cpp_redis.Number.{to_string}
use cpp_redis.Resp.Formatter.{format_integer}
use cpp_redis.Database.{RedisType, RedisValue, is_expired, of_string, type_eq}
use cpp_redis.Commands.Strings.{current, current_of}
use cpp_redis.Threads.{
  Cell, Code, reply, System, access, clean_up, element, erase_cell, clean_cell, fetch, step, turn,
  happen, play,
}
use cpp_redis.Threads.Commands.{
  on_value, count_on, count_code, code_incr, code_del, code_rpush, push_code, push_each,
}

-- A thread with a command.
abbrev pub one_thread : Bytes → ℤ → Code → (Bytes → Cell) → System
one_thread key now code cells = record {
  tasks = record { key = key; now = now; code = code } ∷ [];
  cells = cells;
}

-- Two threads with commands on one key.
abbrev pub two_threads : Bytes → ℤ → Code → Code → (Bytes → Cell) → System
two_threads key now first second cells = record {
  tasks =
      record { key = key; now = now; code = first }
      ∷ record { key = key; now = now; code = second }
      ∷ [];
  cells = cells;
}

-- What is left of the commands, and the value under the key, or `none` for undefined behaviour.
abbrev pub shown : Bytes → Option System → Option (List Code × Option RedisValue)
shown key o = elim o [
  | none ↦ none
  | some s ↦ some (map (λ t. t.code) s.tasks, (s.cells key).value)
]

-- Two INCR commands on a live key that holds a number: each looks the key up and reads the number
-- before the other stores its sum. Both reply the number plus one, and that is what the key holds,
-- without an expiry: one of the two additions is lost.
pub lost_update :
    (key name name' : Bytes) (now n : ℤ) (v : RedisValue) (cells : Bytes → Cell)
    → (cells key).value ≡ some v
    → is_expired now v ≡ false
    → current_of (some v) ≡ current n
    → let sum = wrap_int64 (n +ℤ pos 1) in
      shown key (
        play
          (map access (0 ∷ 0 ∷ 1 ∷ 1 ∷ 0 ∷ 1 ∷ []))
          (two_threads key now (code_incr (name ∷ key ∷ [])) (code_incr (name' ∷ key ∷ [])) cells))
      ≡ some (
        reply (format_integer sum) ∷ reply (format_integer sum) ∷ [],
        some (of_string (to_string sum)),
      )
unfolding play happen turn step code_incr count_code on_value count_on fetch element
lost_update key name name' now n v cells here lives counts = ground (arith, str_eq_refl key)

-- RPUSH on a live list and DEL of the same key: the key is deleted between the look-up of RPUSH and
-- its first write, which goes through a pointer to an element that is gone.
pub dangling_push :
    (key name name' x : Bytes) (xs : List Bytes) (now : ℤ) (v : RedisValue) (cells : Bytes → Cell)
    → (cells key).value ≡ some v
    → is_expired now v ≡ false
    → v.type ≡ RedisType.list
    → play
        (map access (0 ∷ 0 ∷ 1 ∷ 0 ∷ []))
        (two_threads key now (code_rpush (name ∷ key ∷ x ∷ xs)) (code_del (name' ∷ key ∷ [])) cells)
      ≡ none
unfolding play happen turn step code_rpush push_code on_value push_each code_del fetch element
    erase_cell type_eq
dangling_push key name name' x xs now v cells here lives list = ground (arith, str_eq_refl key)

-- RPUSH on a list that is live when its key is looked up, and whose deadline passes before the first
-- write: a clean-up by any other thread in between erases the list, and the write goes through a
-- pointer to an element that is gone.
pub cleanup_dangles :
    (key name x : Bytes) (xs : List Bytes) (now later : ℤ) (v : RedisValue) (cells : Bytes → Cell)
    → (cells key).value ≡ some v
    → is_expired now v ≡ false
    → is_expired later v ≡ true
    → v.type ≡ RedisType.list
    → play
        (access 0 ∷ access 0 ∷ clean_up later ∷ access 0 ∷ [])
        (one_thread key now (code_rpush (name ∷ key ∷ x ∷ xs)) cells)
      ≡ none
unfolding play happen turn step code_rpush push_code on_value push_each fetch element erase_cell
    clean_cell type_eq
cleanup_dangles key name x xs now later v cells here lives dies list =
    ground (arith, str_eq_refl key)
