-- ===== src/Commands/Lists.antt =====
-- redis/commands/list_commands.cpp
pub mod Keeps
pub mod Slices
pub mod Agrees
pub mod Ends
pub mod Moves
pub mod Refines
use cpp_redis.Prelude.{
  ℕ, ◌+◌, ◌-◌, ◌&&◌, ◌||◌, Option, none, some, List, [], ◌∷◌, ◌++◌, Bytes, codes, length, is_empty,
  get_elem?, set, take, drop, if◌then◌else◌,
}
use cpp_redis.Prelude.Int.{ℤ, pos, pos_part, ◌+ℤ◌, sub_ℕ, lt_ℤ, le_ℤ, min_ℤ, max_ℤ}
use cpp_redis.Utils.{is_integer, parse_int}
use cpp_redis.Resp.Formatter.{
  format_error, format_simple_string, format_bulk_string, format_integer, format_array, format_null,
}
use cpp_redis.Database.{
  Opened, RedisType, RedisValue, Db, mistyped, opened, typed, get_value, store, open_value,
  delete_key,
}
use cpp_redis.Commands.Errors.{wrong_arity, not_an_integer, wrong_kind}

unfoldable pub push_front : List Bytes → List Bytes → List Bytes
push_front [] list = list
push_front (x ∷ xs) list = push_front xs (x ∷ list)

unfoldable pub push_back : List Bytes → List Bytes → List Bytes
push_back [] list = list
push_back (x ∷ xs) list = push_back xs (list ++ x ∷ [])

-- What LPUSH and RPUSH share, but for the loop that pushes.
unfoldable pub push_opened : (List Bytes → List Bytes) → Bytes → Opened → Bytes × Db
push_opened push key (mistyped db) = (wrong_kind, db)
push_opened push key (opened v db) =
    let list = push v.list_value in
    (format_integer (pos (length list)), store key (record v { list_value = list }) db)

unfoldable pub push_with : (List Bytes → List Bytes) → ℤ → Bytes → Db → Bytes × Db
push_with push now key db = push_opened push key (open_value RedisType.list now key db)

unfoldable pub cmd_lpush : ℤ → List Bytes → Db → Bytes × Db
cmd_lpush now (name ∷ key ∷ x ∷ xs) db = push_with (push_front (x ∷ xs)) now key db
cmd_lpush now args db = (wrong_arity (codes "lpush"), db)

unfoldable pub cmd_rpush : ℤ → List Bytes → Db → Bytes × Db
cmd_rpush now (name ∷ key ∷ x ∷ xs) db = push_with (push_back (x ∷ xs)) now key db
cmd_rpush now args db = (wrong_arity (codes "rpush"), db)

-- The first element and the others; the last element and the others.
abbrev pub pop_front : List Bytes → Option (Bytes × List Bytes)
pop_front [] = none
pop_front (x ∷ xs) = some (x, xs)

unfoldable pub pop_back : List Bytes → Option (Bytes × List Bytes)
pop_back [] = none
pop_back (x ∷ xs) = elim (pop_back xs) [ none ↦ some (x, []) | some (y, ys) ↦ some (y, x ∷ ys) ]

-- A list that a pop leaves empty is deleted with its key.
unfoldable pub store_list : Bytes → RedisValue → List Bytes → Db → Db
store_list key v list db =
    let db' = store key (record v { list_value = list }) db in
    if is_empty list then (delete_key key db').1 else db'

-- What LPOP and RPOP share, but for the end that they pop.
unfoldable pub popped : Bytes → RedisValue → Option (Bytes × List Bytes) → Db → Bytes × Db
popped key v none db = (format_null, db)
popped key v (some (result, list)) db = (format_bulk_string result, store_list key v list db)

unfoldable pub pop_found :
    (List Bytes → Option (Bytes × List Bytes)) → Bytes → Option RedisValue → Db → Bytes × Db
pop_found pop key none db = (format_null, db)
pop_found pop key (some v) db = popped key v (pop v.list_value) db

unfoldable pub pop_with : (List Bytes → Option (Bytes × List Bytes)) → ℤ → Bytes → Db → Bytes × Db
pop_with pop now key db =
    let (value, db') = get_value now key db in pop_found pop key (typed RedisType.list value) db'

unfoldable pub cmd_lpop : ℤ → List Bytes → Db → Bytes × Db
cmd_lpop now (name ∷ key ∷ []) db = pop_with pop_front now key db
cmd_lpop now args db = (wrong_arity (codes "lpop"), db)

unfoldable pub cmd_rpop : ℤ → List Bytes → Db → Bytes × Db
cmd_rpop now (name ∷ key ∷ []) db = pop_with pop_back now key db
cmd_rpop now args db = (wrong_arity (codes "rpop"), db)

unfoldable pub cmd_llen : ℤ → List Bytes → Db → Bytes × Db
cmd_llen now (name ∷ key ∷ []) db =
    let (value, db') = get_value now key db in
    elim (typed RedisType.list value) [
      | none ↦ (format_integer (pos 0), db')
      | some v ↦ (format_integer (pos (length v.list_value)), db')
    ]
cmd_llen now args db = (wrong_arity (codes "llen"), db)

-- A negative index counts from the end.
unfoldable pub from_end : ℤ → ℕ → ℤ
from_end index list_size = if lt_ℤ index (pos 0) then index +ℤ pos list_size else index

unfoldable pub clamp : ℤ → ℕ → ℤ
clamp index list_size = max_ℤ (pos 0) (min_ℤ index (sub_ℕ list_size 1))

-- The loop from `start` to `end`, which also stops at the end of the list.
unfoldable pub range : ℤ → ℤ → List Bytes → List Bytes
range start end list =
    let first = clamp (from_end start (length list)) (length list) in
    let last = clamp (from_end end (length list)) (length list) in
    if le_ℤ first last
    then take (pos_part last + 1 - pos_part first) (drop (pos_part first) list)
    else []

unfoldable pub cmd_lrange : ℤ → List Bytes → Db → Bytes × Db
cmd_lrange now (name ∷ key ∷ start ∷ end ∷ []) db =
    let (value, db') = get_value now key db in
    if is_integer start && is_integer end
    then elim (typed RedisType.list value) [
      | none ↦ (format_array [], db')
      | some v ↦ (format_array (range (parse_int start) (parse_int end) v.list_value), db')
    ]
    else (not_an_integer, db)
cmd_lrange now args db = (wrong_arity (codes "lrange"), db)

-- The position that an index names, if it is in the list.
unfoldable pub position : ℤ → ℕ → Option ℕ
position index list_size =
    let i = from_end index list_size in
    if lt_ℤ i (pos 0) || le_ℤ (pos list_size) i then none else some (pos_part i)

unfoldable pub element_at : ℤ → List Bytes → Option Bytes
element_at index list = elim (position index (length list)) [
  | none ↦ none
  | some i ↦ get_elem? list i
]

unfoldable pub cmd_lindex : ℤ → List Bytes → Db → Bytes × Db
cmd_lindex now (name ∷ key ∷ index ∷ []) db =
    let (value, db') = get_value now key db in
    if is_integer index
    then elim (typed RedisType.list value) [
      | none ↦ (format_null, db')
      | some v ↦ elim (element_at (parse_int index) v.list_value) [
        | none ↦ (format_null, db')
        | some x ↦ (format_bulk_string x, db')
      ]
    ]
    else (not_an_integer, db)
cmd_lindex now args db = (wrong_arity (codes "lindex"), db)

unfoldable pub set_at : Bytes → RedisValue → Option ℕ → Bytes → Db → Bytes × Db
set_at key v none x db = (format_error (codes "ERR index out of range"), db)
set_at key v (some i) x db = (
  format_simple_string (codes "OK"),
  store key (record v { list_value = set v.list_value i x }) db,
)

unfoldable pub set_found : ℤ → Bytes → Bytes → Option RedisValue → Db → Bytes × Db
set_found index key x none db = (format_error (codes "ERR no such key"), db)
set_found index key x (some v) db = set_at key v (position index (length v.list_value)) x db

unfoldable pub cmd_lset : ℤ → List Bytes → Db → Bytes × Db
cmd_lset now (name ∷ key ∷ index ∷ x ∷ []) db =
    let (value, db') = get_value now key db in
    if is_integer index
    then set_found (parse_int index) key x (typed RedisType.list value) db'
    else (not_an_integer, db)
cmd_lset now args db = (wrong_arity (codes "lset"), db)
