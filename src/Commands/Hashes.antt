-- ===== src/Commands/Hashes.antt =====
-- redis/commands/hash_commands.cpp
pub mod Keeps
pub mod Fields
pub mod Agrees
pub mod Refines
use cpp_redis.Prelude.{
  Option, ℕ, ◌+◌, none, some, List, [], ◌∷◌, Bytes, codes, length, is_empty, if◌then◌else◌,
}
use cpp_redis.Prelude.Int.{ℤ, pos}
use cpp_redis.Prelude.Assoc
use cpp_redis.Prelude.Assoc.{Assoc}
use cpp_redis.Resp.Formatter.{format_bulk_string, format_integer, format_array, format_null}
use cpp_redis.Database.{
  Opened, RedisType, RedisValue, Db, mistyped, opened, typed, get_value, store, open_value,
  delete_key,
}
use cpp_redis.Commands.Errors.{wrong_arity, wrong_kind}
use cpp_redis.Commands.Strings.{pairs_of}

-- The loop of HSET with its count.
unfoldable pub set_fields : List (Bytes × Bytes) → ℕ → Assoc Bytes → ℕ × Assoc Bytes
set_fields [] added hash = (added, hash)
set_fields ((field, value) ∷ pairs) added hash =
    set_fields pairs (if Assoc.contains field hash then added else added + 1)
      (Assoc.insert field value hash)

unfoldable pub set_opened : Bytes → List (Bytes × Bytes) → Opened → Bytes × Db
set_opened key pairs (mistyped db) = (wrong_kind, db)
set_opened key pairs (opened v db) =
    let (added, hash) = set_fields pairs 0 v.hash_value in
    (format_integer (pos added), store key (record v { hash_value = hash }) db)

-- An odd number of fields and values is refused with the arity.
unfoldable pub hset_pairs : ℤ → Bytes → Option (List (Bytes × Bytes)) → Db → Bytes × Db
hset_pairs now key none db = (wrong_arity (codes "hset"), db)
hset_pairs now key (some pairs) db = set_opened key pairs (open_value RedisType.hash now key db)

unfoldable pub cmd_hset : ℤ → List Bytes → Db → Bytes × Db
cmd_hset now (name ∷ key ∷ field ∷ value ∷ rest) db =
    hset_pairs now key (pairs_of (field ∷ value ∷ rest)) db
cmd_hset now args db = (wrong_arity (codes "hset"), db)

unfoldable pub cmd_hget : ℤ → List Bytes → Db → Bytes × Db
cmd_hget now (name ∷ key ∷ field ∷ []) db =
    let (value, db') = get_value now key db in
    elim (typed RedisType.hash value) [
      | none ↦ (format_null, db')
      | some v ↦ elim (Assoc.find field v.hash_value) [
        | none ↦ (format_null, db')
        | some x ↦ (format_bulk_string x, db')
      ]
    ]
cmd_hget now args db = (wrong_arity (codes "hget"), db)

-- The loop of HDEL with its count.
unfoldable pub delete_fields : List Bytes → ℕ → Assoc Bytes → ℕ × Assoc Bytes
delete_fields [] deleted hash = (deleted, hash)
delete_fields (field ∷ fields) deleted hash =
    delete_fields fields (if Assoc.contains field hash then deleted + 1 else deleted)
      (Assoc.erase field hash)

-- A hash that is left empty is deleted with its key.
unfoldable pub store_hash : Bytes → RedisValue → Assoc Bytes → Db → Db
store_hash key v hash db =
    let db' = store key (record v { hash_value = hash }) db in
    if is_empty hash then (delete_key key db').1 else db'

unfoldable pub delete_found : Bytes → List Bytes → Option RedisValue → Db → Bytes × Db
delete_found key fields none db = (format_integer (pos 0), db)
delete_found key fields (some v) db =
    let (deleted, hash) = delete_fields fields 0 v.hash_value in
    (format_integer (pos deleted), store_hash key v hash db)

unfoldable pub cmd_hdel : ℤ → List Bytes → Db → Bytes × Db
cmd_hdel now (name ∷ key ∷ field ∷ fields) db =
    let (value, db') = get_value now key db in
    delete_found key (field ∷ fields) (typed RedisType.hash value) db'
cmd_hdel now args db = (wrong_arity (codes "hdel"), db)

unfoldable pub cmd_hexists : ℤ → List Bytes → Db → Bytes × Db
cmd_hexists now (name ∷ key ∷ field ∷ []) db =
    let (value, db') = get_value now key db in
    elim (typed RedisType.hash value) [
      | none ↦ (format_integer (pos 0), db')
      | some v ↦ (format_integer (pos (if Assoc.contains field v.hash_value then 1 else 0)), db')
    ]
cmd_hexists now args db = (wrong_arity (codes "hexists"), db)

unfoldable pub cmd_hlen : ℤ → List Bytes → Db → Bytes × Db
cmd_hlen now (name ∷ key ∷ []) db =
    let (value, db') = get_value now key db in
    elim (typed RedisType.hash value) [
      | none ↦ (format_integer (pos 0), db')
      | some v ↦ (format_integer (pos (length v.hash_value)), db')
    ]
cmd_hlen now args db = (wrong_arity (codes "hlen"), db)

unfoldable pub keys_of : Assoc Bytes → List Bytes
keys_of [] = []
keys_of ((field, value) ∷ hash) = field ∷ keys_of hash

unfoldable pub values_of : Assoc Bytes → List Bytes
values_of [] = []
values_of ((field, value) ∷ hash) = value ∷ values_of hash

unfoldable pub entries_of : Assoc Bytes → List Bytes
entries_of [] = []
entries_of ((field, value) ∷ hash) = field ∷ value ∷ entries_of hash

-- What HKEYS, HVALS and HGETALL share.
unfoldable pub list_with : (Assoc Bytes → List Bytes) → ℤ → Bytes → Db → Bytes × Db
list_with listed now key db =
    let (value, db') = get_value now key db in
    elim (typed RedisType.hash value) [
      | none ↦ (format_array [], db')
      | some v ↦ (format_array (listed v.hash_value), db')
    ]

unfoldable pub cmd_hkeys : ℤ → List Bytes → Db → Bytes × Db
cmd_hkeys now (name ∷ key ∷ []) db = list_with keys_of now key db
cmd_hkeys now args db = (wrong_arity (codes "hkeys"), db)

unfoldable pub cmd_hvals : ℤ → List Bytes → Db → Bytes × Db
cmd_hvals now (name ∷ key ∷ []) db = list_with values_of now key db
cmd_hvals now args db = (wrong_arity (codes "hvals"), db)

unfoldable pub cmd_hgetall : ℤ → List Bytes → Db → Bytes × Db
cmd_hgetall now (name ∷ key ∷ []) db = list_with entries_of now key db
cmd_hgetall now args db = (wrong_arity (codes "hgetall"), db)
