-- ===== src/Commands/Hashes/Agrees.antt =====
-- The commands on hashes reply alike on databases that show the same.
use cpp_redis.Prelude.{refl, Option, none, some, List, [], ◌∷◌, Bytes, length, if◌then◌else◌}
use cpp_redis.Prelude.Int.{ℤ, pos}
use cpp_redis.Prelude.Assoc
use cpp_redis.Prelude.Assoc.{Assoc}
use cpp_redis.Resp.Formatter.{format_bulk_string, format_integer, format_array, format_null}
use cpp_redis.Database.{RedisType, RedisValue, Db, typed}
use cpp_redis.Database.Same.{
  Same, Alike, Agrees, Same-store, Same-delete_key, Alike-get_value, Alike-then, Alike-read,
  open_value-Alike,
}
use cpp_redis.Commands.Strings.{pairs_of}
use cpp_redis.Commands.Hashes.{
  set_opened, hset_pairs, cmd_hset, cmd_hget, delete_fields, store_hash, delete_found, cmd_hdel,
  cmd_hexists, cmd_hlen, list_with, cmd_hkeys, cmd_hvals, cmd_hgetall,
}

hset_pairs-Alike :
    (now : ℤ) (key : Bytes) (pairs : Option (List (Bytes × Bytes))) (db db' : Db)
    → Same now db db'
    → Alike now (hset_pairs now key pairs db) (hset_pairs now key pairs db')
unfolding hset_pairs set_opened
hset_pairs-Alike now key none db db' same = (refl, same)
hset_pairs-Alike now key (some pairs) db db' same =
    open_value-Alike now RedisType.hash key (set_opened key pairs) db db'
      (λ v d d' s. (refl, Same-store now key _ d d' s)) (λ d d' s. (refl, s)) same

store_hash-Same :
    (now : ℤ) (key : Bytes) (v : RedisValue) (hash : Assoc Bytes) (d d' : Db)
    → Same now d d'
    → Same now (store_hash key v hash d) (store_hash key v hash d')
unfolding store_hash
store_hash-Same now key v [] d d' s = Same-delete_key now key _ _ (Same-store now key _ d d' s)
store_hash-Same now key v (x ∷ hash) d d' s = Same-store now key _ d d' s

delete_found-Alike :
    (now : ℤ) (key : Bytes) (fields : List Bytes) (o : Option RedisValue) (d d' : Db)
    → Same now d d'
    → Alike now (delete_found key fields o d) (delete_found key fields o d')
unfolding delete_found
delete_found-Alike now key fields none d d' s = (refl, s)
delete_found-Alike now key fields (some v) d d' s =
    (refl, store_hash-Same now key v (delete_fields fields 0 v.hash_value).1 d d' s)

-- What HGET does with the value.
abbrev field_of : Bytes → Option RedisValue → Db → Bytes × Db
field_of field o d = elim o [
  | none ↦ (format_null, d)
  | some v ↦ elim (Assoc.find field v.hash_value) [
    | none ↦ (format_null, d)
    | some x ↦ (format_bulk_string x, d)
  ]
]

field_of-Alike :
    (now : ℤ) (field : Bytes) (o : Option RedisValue) (d d' : Db)
    → Same now d d'
    → Alike now (field_of field o d) (field_of field o d')
field_of-Alike now field none d d' s = (refl, s)
field_of-Alike now field (some v) d d' s = Alike-read now (Assoc.find field v.hash_value) _ _ d d' s

list_with-Alike :
    (listed : Assoc Bytes → List Bytes) (now : ℤ) (key : Bytes) (db db' : Db)
    → Same now db db'
    → Alike now (list_with listed now key db) (list_with listed now key db')
unfolding list_with
list_with-Alike listed now key db db' same =
    Alike-then now _ _
      (λ o d. elim (typed RedisType.hash o) [
        | none ↦ (format_array [], d)
        | some v ↦ (format_array (listed v.hash_value), d)
      ])
      (Alike-get_value now key db db' same) (λ o. Alike-read now (typed RedisType.hash o) _ _)

pub cmd_hset-Agrees : (now : ℤ) → Agrees now (cmd_hset now)
unfolding cmd_hset
cmd_hset-Agrees now (name ∷ key ∷ x ∷ y ∷ rest) db db' same =
    hset_pairs-Alike now key (pairs_of (x ∷ y ∷ rest)) db db' same
cmd_hset-Agrees now [] db db' same = (refl, same)
cmd_hset-Agrees now (name ∷ []) db db' same = (refl, same)
cmd_hset-Agrees now (name ∷ key ∷ []) db db' same = (refl, same)
cmd_hset-Agrees now (name ∷ key ∷ x ∷ []) db db' same = (refl, same)

pub cmd_hget-Agrees : (now : ℤ) → Agrees now (cmd_hget now)
unfolding cmd_hget
cmd_hget-Agrees now (name ∷ key ∷ field ∷ []) db db' same =
    Alike-then now _ _ (λ o. field_of field (typed RedisType.hash o))
      (Alike-get_value now key db db' same) (λ o. field_of-Alike now field (typed RedisType.hash o))
cmd_hget-Agrees now [] db db' same = (refl, same)
cmd_hget-Agrees now (name ∷ []) db db' same = (refl, same)
cmd_hget-Agrees now (name ∷ key ∷ []) db db' same = (refl, same)
cmd_hget-Agrees now (name ∷ key ∷ x ∷ y ∷ args) db db' same = (refl, same)

pub cmd_hdel-Agrees : (now : ℤ) → Agrees now (cmd_hdel now)
unfolding cmd_hdel
cmd_hdel-Agrees now (name ∷ key ∷ x ∷ xs) db db' same =
    Alike-then now _ _ (λ o. delete_found key (x ∷ xs) (typed RedisType.hash o))
      (Alike-get_value now key db db' same)
      (λ o. delete_found-Alike now key (x ∷ xs) (typed RedisType.hash o))
cmd_hdel-Agrees now [] db db' same = (refl, same)
cmd_hdel-Agrees now (name ∷ []) db db' same = (refl, same)
cmd_hdel-Agrees now (name ∷ key ∷ []) db db' same = (refl, same)

pub cmd_hexists-Agrees : (now : ℤ) → Agrees now (cmd_hexists now)
unfolding cmd_hexists
cmd_hexists-Agrees now (name ∷ key ∷ x ∷ []) db db' same =
    Alike-then now _ _
      (λ o d. elim (typed RedisType.hash o) [
        | none ↦ (format_integer (pos 0), d)
        | some v ↦ (format_integer (pos (if Assoc.contains x v.hash_value then 1 else 0)), d)
      ])
      (Alike-get_value now key db db' same) (λ o. Alike-read now (typed RedisType.hash o) _ _)
cmd_hexists-Agrees now [] db db' same = (refl, same)
cmd_hexists-Agrees now (name ∷ []) db db' same = (refl, same)
cmd_hexists-Agrees now (name ∷ key ∷ []) db db' same = (refl, same)
cmd_hexists-Agrees now (name ∷ key ∷ x ∷ y ∷ args) db db' same = (refl, same)

pub cmd_hlen-Agrees : (now : ℤ) → Agrees now (cmd_hlen now)
unfolding cmd_hlen
cmd_hlen-Agrees now (name ∷ key ∷ []) db db' same =
    Alike-then now _ _
      (λ o d. elim (typed RedisType.hash o) [
        | none ↦ (format_integer (pos 0), d)
        | some v ↦ (format_integer (pos (length v.hash_value)), d)
      ])
      (Alike-get_value now key db db' same) (λ o. Alike-read now (typed RedisType.hash o) _ _)
cmd_hlen-Agrees now [] db db' same = (refl, same)
cmd_hlen-Agrees now (name ∷ []) db db' same = (refl, same)
cmd_hlen-Agrees now (name ∷ key ∷ x ∷ args) db db' same = (refl, same)

pub cmd_hkeys-Agrees : (now : ℤ) → Agrees now (cmd_hkeys now)
unfolding cmd_hkeys
cmd_hkeys-Agrees now (name ∷ key ∷ []) db db' same = list_with-Alike _ now key db db' same
cmd_hkeys-Agrees now [] db db' same = (refl, same)
cmd_hkeys-Agrees now (name ∷ []) db db' same = (refl, same)
cmd_hkeys-Agrees now (name ∷ key ∷ x ∷ args) db db' same = (refl, same)

pub cmd_hvals-Agrees : (now : ℤ) → Agrees now (cmd_hvals now)
unfolding cmd_hvals
cmd_hvals-Agrees now (name ∷ key ∷ []) db db' same = list_with-Alike _ now key db db' same
cmd_hvals-Agrees now [] db db' same = (refl, same)
cmd_hvals-Agrees now (name ∷ []) db db' same = (refl, same)
cmd_hvals-Agrees now (name ∷ key ∷ x ∷ args) db db' same = (refl, same)

pub cmd_hgetall-Agrees : (now : ℤ) → Agrees now (cmd_hgetall now)
unfolding cmd_hgetall
cmd_hgetall-Agrees now (name ∷ key ∷ []) db db' same = list_with-Alike _ now key db db' same
cmd_hgetall-Agrees now [] db db' same = (refl, same)
cmd_hgetall-Agrees now (name ∷ []) db db' same = (refl, same)
cmd_hgetall-Agrees now (name ∷ key ∷ x ∷ args) db db' same = (refl, same)
