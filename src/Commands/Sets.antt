-- ===== src/Commands/Sets.antt =====
-- redis/commands/set_commands.cpp
pub mod Keeps
pub mod Members
pub mod Agrees
pub mod Refines
use cpp_redis.Prelude.{
  Option, ℕ, ◌+◌, ◌-◌, none, some, List, [], ◌∷◌, Bytes, codes, length, is_empty, get_elem?,
  remove_at, if◌then◌else◌,
}
use cpp_redis.Prelude.Int.{ℤ, pos}
use cpp_redis.Prelude.Ordered
use cpp_redis.Resp.Formatter.{format_bulk_string, format_integer, format_array, format_null}
use cpp_redis.Database.{
  Opened, RedisType, RedisValue, Db, mistyped, opened, typed, get_value, store, open_value,
  delete_key,
}
use cpp_redis.Commands.Errors.{wrong_arity, wrong_kind}

-- The loop of SADD with its count.
unfoldable pub add_members : List Bytes → ℕ → List Bytes → ℕ × List Bytes
add_members [] added set = (added, set)
add_members (x ∷ xs) added set =
    add_members xs (if Ordered.member x set then added else added + 1) (Ordered.insert x set)

unfoldable pub add_opened : Bytes → List Bytes → Opened → Bytes × Db
add_opened key members (mistyped db) = (wrong_kind, db)
add_opened key members (opened v db) =
    let (added, set) = add_members members 0 v.set_value in
    (format_integer (pos added), store key (record v { set_value = set }) db)

unfoldable pub cmd_sadd : ℤ → List Bytes → Db → Bytes × Db
cmd_sadd now (name ∷ key ∷ x ∷ xs) db =
    add_opened key (x ∷ xs) (open_value RedisType.set now key db)
cmd_sadd now args db = (wrong_arity (codes "sadd"), db)

-- A set that is left empty is deleted with its key.
unfoldable pub store_set : Bytes → RedisValue → List Bytes → Db → Db
store_set key v set db =
    let db' = store key (record v { set_value = set }) db in
    if is_empty set then (delete_key key db').1 else db'

unfoldable pub remove_members : List Bytes → ℕ → List Bytes → ℕ × List Bytes
remove_members [] removed set = (removed, set)
remove_members (x ∷ xs) removed set =
    remove_members xs (if Ordered.member x set then removed + 1 else removed) (Ordered.erase x set)

unfoldable pub remove_found : Bytes → List Bytes → Option RedisValue → Db → Bytes × Db
remove_found key members none db = (format_integer (pos 0), db)
remove_found key members (some v) db =
    let (removed, set) = remove_members members 0 v.set_value in
    (format_integer (pos removed), store_set key v set db)

unfoldable pub cmd_srem : ℤ → List Bytes → Db → Bytes × Db
cmd_srem now (name ∷ key ∷ x ∷ xs) db =
    let (value, db') = get_value now key db in
    remove_found key (x ∷ xs) (typed RedisType.set value) db'
cmd_srem now args db = (wrong_arity (codes "srem"), db)

unfoldable pub cmd_sismember : ℤ → List Bytes → Db → Bytes × Db
cmd_sismember now (name ∷ key ∷ x ∷ []) db =
    let (value, db') = get_value now key db in
    elim (typed RedisType.set value) [
      | none ↦ (format_integer (pos 0), db')
      | some v ↦ (format_integer (pos (if Ordered.member x v.set_value then 1 else 0)), db')
    ]
cmd_sismember now args db = (wrong_arity (codes "sismember"), db)

unfoldable pub cmd_scard : ℤ → List Bytes → Db → Bytes × Db
cmd_scard now (name ∷ key ∷ []) db =
    let (value, db') = get_value now key db in
    elim (typed RedisType.set value) [
      | none ↦ (format_integer (pos 0), db')
      | some v ↦ (format_integer (pos (length v.set_value)), db')
    ]
cmd_scard now args db = (wrong_arity (codes "scard"), db)

unfoldable pub cmd_smembers : ℤ → List Bytes → Db → Bytes × Db
cmd_smembers now (name ∷ key ∷ []) db =
    let (value, db') = get_value now key db in
    elim (typed RedisType.set value) [
      | none ↦ (format_array [], db')
      | some v ↦ (format_array v.set_value, db')
    ]
cmd_smembers now args db = (wrong_arity (codes "smembers"), db)

-- `pick` is the random draw: the distribution from 0 to its argument, one draw. A draw beyond the
-- set, which `uniform_int_distribution` does not make, is taken as the null reply.
unfoldable pub picked : Bytes → RedisValue → ℕ → Option Bytes → Db → Bytes × Db
picked key v i none db = (format_null, db)
picked key v i (some result) db =
    (format_bulk_string result, store_set key v (remove_at i v.set_value) db)

unfoldable pub pick_found : (ℕ → ℕ) → Bytes → Option RedisValue → Db → Bytes × Db
pick_found pick key none db = (format_null, db)
pick_found pick key (some v) db =
    let i = pick (length v.set_value - 1) in picked key v i (get_elem? v.set_value i) db

unfoldable pub cmd_spop : (ℕ → ℕ) → ℤ → List Bytes → Db → Bytes × Db
cmd_spop pick now (name ∷ key ∷ []) db =
    let (value, db') = get_value now key db in pick_found pick key (typed RedisType.set value) db'
cmd_spop pick now args db = (wrong_arity (codes "spop"), db)
