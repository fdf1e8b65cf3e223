-- ===== src/Commands/Strings.antt =====
-- redis/commands/string_commands.cpp
pub mod Keeps
pub mod Replies
pub mod Counters
pub mod Agrees
pub mod Refines
use cpp_redis.Prelude.{
  ℕ, ◌+◌, Option, none, some, List, [], ◌∷◌, ◌++◌, Bytes, codes, length, if◌then◌else◌, str_eq,
}
use cpp_redis.Prelude.Int.{ℤ, pos, ◌+ℤ◌, ◌-ℤ◌, wrap_int64}
use cpp_redis.Number.{to_string}
use cpp_redis.Utils.{is_integer, parse_int, to_upper}
use cpp_redis.Resp.Formatter.{
  format_simple_string, format_bulk_string, format_integer, format_array, format_null,
}
use cpp_redis.Database.{
  RedisType, RedisValue, Db, of_string, seconds, set_expiry, key_exists, get_value, set_value,
  delete_key,
}
use cpp_redis.Commands.Errors.{wrong_arity, not_an_integer, wrong_kind, syntax_error}

-- How the loop over the options of SET ends: by a reply, or with the value to store.
pub data Options : Type 0 where
  replied : Bytes → Db → Options
  accepted : RedisValue → Db → Options

-- `i -= 1` behind NX and XX: the next option is the argument that stood in a value's place.
unfoldable pub set_options : ℤ → Bytes → List Bytes → RedisValue → Db → Options
set_options now key [] value db = accepted value db
set_options now key (option ∷ []) value db = replied syntax_error db
set_options now key (option ∷ arg ∷ rest) value db =
    let param = to_upper option in
    let in_seconds = set_options now key rest (set_expiry now (seconds (parse_int arg)) value) db in
    let in_milliseconds = set_options now key rest (set_expiry now (parse_int arg) value) db in
    let (found, db') = key_exists now key db in
    let next = set_options now key (arg ∷ rest) value db' in
    let skipped = set_options now key rest value db in
    if str_eq param (codes "EX")
    then (if is_integer arg then in_seconds else replied not_an_integer db)
    else if str_eq param (codes "PX")
    then (if is_integer arg then in_milliseconds else replied not_an_integer db)
    else if str_eq param (codes "NX")
    then (if found then replied format_null db' else next)
    else if str_eq param (codes "XX")
    then (if found then next else replied format_null db')
    else skipped

-- What SET does behind the loop.
unfoldable pub set_reply : Bytes → Options → Bytes × Db
set_reply key (replied reply db) = (reply, db)
set_reply key (accepted value db) = (format_simple_string (codes "OK"), set_value key value db)

unfoldable pub cmd_set : ℤ → List Bytes → Db → Bytes × Db
cmd_set now (name ∷ key ∷ value ∷ options) db =
    set_reply key (set_options now key options (of_string value) db)
cmd_set now args db = (wrong_arity (codes "set"), db)

-- The value of a live key that holds a string.
unfoldable pub string_of : Option RedisValue → Option Bytes
string_of none = none
string_of (some v) = elim v.type [ RedisType.string ↦ some v.string_value | _ ↦ none ]

unfoldable pub cmd_get : ℤ → List Bytes → Db → Bytes × Db
cmd_get now (name ∷ key ∷ []) db =
    let (value, db') = get_value now key db in
    elim (string_of value) [ none ↦ (format_null, db') | some s ↦ (format_bulk_string s, db') ]
cmd_get now args db = (wrong_arity (codes "get"), db)

-- The loops of DEL and EXISTS over the keys, with their counts.
unfoldable pub delete_all : List Bytes → ℕ → Db → ℕ × Db
delete_all [] deleted db = (deleted, db)
delete_all (key ∷ keys) deleted db =
    let (found, db') = delete_key key db in
    delete_all keys (if found then deleted + 1 else deleted) db'

unfoldable pub cmd_del : ℤ → List Bytes → Db → Bytes × Db
cmd_del now (name ∷ key ∷ keys) db =
    let (deleted, db') = delete_all (key ∷ keys) 0 db in (format_integer (pos deleted), db')
cmd_del now args db = (wrong_arity (codes "del"), db)

unfoldable pub count_existing : ℤ → List Bytes → ℕ → Db → ℕ × Db
count_existing now [] count db = (count, db)
count_existing now (key ∷ keys) count db =
    let (found, db') = key_exists now key db in
    count_existing now keys (if found then count + 1 else count) db'

unfoldable pub cmd_exists : ℤ → List Bytes → Db → Bytes × Db
cmd_exists now (name ∷ key ∷ keys) db =
    let (count, db') = count_existing now (key ∷ keys) 0 db in (format_integer (pos count), db')
cmd_exists now args db = (wrong_arity (codes "exists"), db)

unfoldable pub type_name : RedisType → Bytes
type_name RedisType.string = codes "string"
type_name RedisType.list = codes "list"
type_name RedisType.set = codes "set"
type_name RedisType.hash = codes "hash"
type_name RedisType.zset = codes "zset"
type_name RedisType.stream = codes "unknown"

unfoldable pub cmd_type : ℤ → List Bytes → Db → Bytes × Db
cmd_type now (name ∷ key ∷ []) db =
    let (value, db') = get_value now key db in
    elim value [
      | none ↦ (format_simple_string (codes "none"), db')
      | some v ↦ (format_simple_string (type_name v.type), db')
    ]
cmd_type now args db = (wrong_arity (codes "type"), db)

-- The number that a key counts from, or the error that its value causes.
pub data Current : Type 0 where
  current : ℤ → Current
  refused : Bytes → Current

unfoldable pub current_of : Option RedisValue → Current
current_of none = current (pos 0)
current_of (some v) = elim v.type [
  | RedisType.string ↦
      if is_integer v.string_value
      then current (parse_int v.string_value)
      else refused not_an_integer
  | _ ↦ refused wrong_kind
]

-- What the four counting commands share: the step is `++`, `--`, `+=` or `-=` on a `long long`.
unfoldable pub counted : (ℤ → ℤ) → Bytes → Current → Db → Bytes × Db
counted step key (refused message) db = (message, db)
counted step key (current n) db =
    let result = wrap_int64 (step n) in
    (format_integer result, set_value key (of_string (to_string result)) db)

unfoldable pub count_by : (ℤ → ℤ) → ℤ → Bytes → Db → Bytes × Db
count_by step now key db =
    let (value, db') = get_value now key db in counted step key (current_of value) db'

unfoldable pub cmd_incr : ℤ → List Bytes → Db → Bytes × Db
cmd_incr now (name ∷ key ∷ []) db = count_by (λ n. n +ℤ pos 1) now key db
cmd_incr now args db = (wrong_arity (codes "incr"), db)

unfoldable pub cmd_decr : ℤ → List Bytes → Db → Bytes × Db
cmd_decr now (name ∷ key ∷ []) db = count_by (λ n. n -ℤ pos 1) now key db
cmd_decr now args db = (wrong_arity (codes "decr"), db)

unfoldable pub cmd_incr_by : ℤ → List Bytes → Db → Bytes × Db
cmd_incr_by now (name ∷ key ∷ increment ∷ []) db =
    if is_integer increment
    then count_by (λ n. n +ℤ parse_int increment) now key db
    else (not_an_integer, db)
cmd_incr_by now args db = (wrong_arity (codes "incrby"), db)

unfoldable pub cmd_decr_by : ℤ → List Bytes → Db → Bytes × Db
cmd_decr_by now (name ∷ key ∷ decrement ∷ []) db =
    if is_integer decrement
    then count_by (λ n. n -ℤ parse_int decrement) now key db
    else (not_an_integer, db)
cmd_decr_by now args db = (wrong_arity (codes "decrby"), db)

unfoldable pub cmd_strlen : ℤ → List Bytes → Db → Bytes × Db
cmd_strlen now (name ∷ key ∷ []) db =
    let (value, db') = get_value now key db in
    elim (string_of value) [
      | none ↦ (format_integer (pos 0), db')
      | some s ↦ (format_integer (pos (length s)), db')
    ]
cmd_strlen now args db = (wrong_arity (codes "strlen"), db)

unfoldable pub appended : Option RedisValue → Bytes → Bytes
appended value append_value = elim (string_of value) [
  | none ↦ append_value
  | some s ↦ s ++ append_value
]

unfoldable pub cmd_append : ℤ → List Bytes → Db → Bytes × Db
cmd_append now (name ∷ key ∷ append_value ∷ []) db =
    let (value, db') = get_value now key db in
    let result = appended value append_value in
    (format_integer (pos (length result)), set_value key (of_string result) db')
cmd_append now args db = (wrong_arity (codes "append"), db)

unfoldable pub get_all : ℤ → List Bytes → Db → List Bytes × Db
get_all now [] db = ([], db)
get_all now (key ∷ keys) db =
    let (value, db') = get_value now key db in
    let (results, db'') = get_all now keys db' in
    (elim (string_of value) [ none ↦ [] | some s ↦ s ] ∷ results, db'')

unfoldable pub cmd_mget : ℤ → List Bytes → Db → Bytes × Db
cmd_mget now (name ∷ key ∷ keys) db =
    let (results, db') = get_all now (key ∷ keys) db in (format_array results, db')
cmd_mget now args db = (wrong_arity (codes "mget"), db)

-- The pairs of MSET, or `none` where a key has no value: an even number of arguments.
unfoldable pub pairs_of : List Bytes → Option (List (Bytes × Bytes))
pairs_of [] = some []
pairs_of (key ∷ []) = none
pairs_of (key ∷ value ∷ rest) = elim (pairs_of rest) [
  | none ↦ none
  | some pairs ↦ some ((key, value) ∷ pairs)
]

unfoldable pub set_all : List (Bytes × Bytes) → Db → Db
set_all [] db = db
set_all ((key, value) ∷ pairs) db = set_all pairs (set_value key (of_string value) db)

unfoldable pub mset_reply : Option (List (Bytes × Bytes)) → Db → Bytes × Db
mset_reply none db = (wrong_arity (codes "mset"), db)
mset_reply (some pairs) db = (format_simple_string (codes "OK"), set_all pairs db)

unfoldable pub cmd_mset : ℤ → List Bytes → Db → Bytes × Db
cmd_mset now (name ∷ key ∷ value ∷ rest) db = mset_reply (pairs_of (key ∷ value ∷ rest)) db
cmd_mset now args db = (wrong_arity (codes "mset"), db)
