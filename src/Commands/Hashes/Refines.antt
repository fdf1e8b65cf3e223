-- ===== src/Commands/Hashes/Refines.antt =====
-- The commands on hashes as abstract commands on what their key shows.
use mathlib.Core.Path.{subst}
use cpp_redis.Prelude.{
  ◌≡◌, refl, Option, none, some, List, [], ◌∷◌, Bytes, codes, arith, length, is_empty,
  if◌then◌else◌,
}
use cpp_redis.Prelude.Int.{ℤ, pos}
use cpp_redis.Prelude.Assoc
use cpp_redis.Prelude.Assoc.{Assoc}
use cpp_redis.Resp.Formatter.{format_bulk_string, format_integer, format_array, format_null}
use cpp_redis.Database.{RedisType, RedisValue, Db, typed, is_expired}
use cpp_redis.Database.View.{view}
use cpp_redis.Commands.Errors.{wrong_arity}
use cpp_redis.Commands.Strings.{pairs_of}
use cpp_redis.Commands.Abstract.{
  reads, grows, Taken, shrinks, Refines, Refines-same, Refines-reads, Refines-grows,
  Refines-shrinks,
}
use cpp_redis.Commands.Hashes.{
  set_fields, set_opened, hset_pairs, cmd_hset, cmd_hget, delete_fields, store_hash, delete_found,
  cmd_hdel, cmd_hexists, cmd_hlen, keys_of, values_of, entries_of, list_with, cmd_hkeys, cmd_hvals,
  cmd_hgetall,
}

abbrev pub with_hash : Assoc Bytes → RedisValue → RedisValue
with_hash hash v = record v { hash_value = hash }

-- An odd number of fields and values changes nothing.
abbrev pub sets_fields :
    Option (List (Bytes × Bytes)) → Option RedisValue → Bytes × Option RedisValue
sets_fields none o = (wrong_arity (codes "hset"), o)
sets_fields (some pairs) o =
    grows RedisType.hash (λ v. format_integer (pos (set_fields pairs 0 v.hash_value).0))
      (λ v. with_hash (set_fields pairs 0 v.hash_value).1 v) o

abbrev pub left_hash : RedisValue → Bytes → Assoc Bytes → Option Taken
left_hash v reply hash =
    some (record { reply = reply; rest = with_hash hash v; is_last = is_empty hash })

abbrev pub deletes : List Bytes → Option RedisValue → Bytes × Option RedisValue
deletes fields = shrinks RedisType.hash (format_integer (pos 0)) (λ v.
    left_hash v (format_integer (pos (delete_fields fields 0 v.hash_value).0))
      (delete_fields fields 0 v.hash_value).1)

abbrev pub field_reply : Option Bytes → Bytes
field_reply none = format_null
field_reply (some x) = format_bulk_string x

abbrev pub lists : (Assoc Bytes → List Bytes) → Option RedisValue → Bytes × Option RedisValue
lists f = reads RedisType.hash (format_array []) (λ v. format_array (f v.hash_value))

left_hash-lives :
    (now : ℤ) (v : RedisValue) (reply : Bytes) (hash : Assoc Bytes) (x : Taken)
    → left_hash v reply hash ≡ some x
    → is_expired now x.rest ≡ is_expired now v
unfolding is_expired
left_hash-lives now v reply hash x e =
    let left : Taken = record { reply = reply; rest = with_hash hash v; is_last = is_empty hash } in
    let same : left ≡ x = cc in
    subst (λ (z : Taken). is_expired now z.rest ≡ is_expired now v) same refl

module _ (now : ℤ) (name key : Bytes) (db : Db) where
  hset_pairs-Refines :
      (pairs : Option (List (Bytes × Bytes)))
      → Refines now key db (hset_pairs now key pairs db) (sets_fields pairs (view now db key))
  unfolding hset_pairs set_opened is_expired
  hset_pairs-Refines none =
      Refines-same now key db (wrong_arity (codes "hset")) db (view now db key) (λ j. refl) refl
  hset_pairs-Refines (some pairs) =
      Refines-grows now key db RedisType.hash
        (λ v. format_integer (pos (set_fields pairs 0 v.hash_value).0))
        (λ v. with_hash (set_fields pairs 0 v.hash_value).1 v) (set_opened key pairs) (λ d. refl)
        (λ v d. refl) (λ v. refl)

  pub cmd_hset-Refines :
      (field value : Bytes) (rest : List Bytes)
      → Refines now key db
          (cmd_hset now (name ∷ key ∷ field ∷ value ∷ rest) db)
          (sets_fields (pairs_of (field ∷ value ∷ rest)) (view now db key))
  unfolding cmd_hset
  cmd_hset-Refines field value rest = hset_pairs-Refines (pairs_of (field ∷ value ∷ rest))

  pub cmd_hdel-Refines :
      (field : Bytes) (fields : List Bytes)
      → Refines now key db
          (cmd_hdel now (name ∷ key ∷ field ∷ fields) db)
          (deletes (field ∷ fields) (view now db key))
  unfolding cmd_hdel delete_found store_hash
  cmd_hdel-Refines field fields =
      Refines-shrinks now key db RedisType.hash (format_integer (pos 0))
        (λ v.
          left_hash v (format_integer (pos (delete_fields (field ∷ fields) 0 v.hash_value).0))
            (delete_fields (field ∷ fields) 0 v.hash_value).1)
        (delete_found key (field ∷ fields)) (λ d. refl) (λ v d. refl)
        (λ v y e. left_hash-lives now v _ _ y e)

  pub cmd_hget-Refines :
      (field : Bytes)
      → Refines now key db (cmd_hget now (name ∷ key ∷ field ∷ []) db) (
          reads RedisType.hash format_null
            (λ v. field_reply (Assoc.find field v.hash_value))
            (view now db key))
  unfolding cmd_hget
  cmd_hget-Refines field =
      Refines-reads now key db RedisType.hash format_null
        (λ v. field_reply (Assoc.find field v.hash_value))
        (λ o d. elim (typed RedisType.hash o) [
          | none ↦ (format_null, d)
          | some v ↦ elim (Assoc.find field v.hash_value) [
            | none ↦ (format_null, d)
            | some x ↦ (format_bulk_string x, d)
          ]
        ])
        (λ o d. ground arith)

  pub cmd_hexists-Refines :
      (field : Bytes)
      → Refines now key db (cmd_hexists now (name ∷ key ∷ field ∷ []) db) (
          reads RedisType.hash
            (format_integer (pos 0))
            (λ v. format_integer (pos (if Assoc.contains field v.hash_value then 1 else 0)))
            (view now db key))
  unfolding cmd_hexists
  cmd_hexists-Refines field =
      Refines-reads now key db RedisType.hash _ _
        (λ o d. elim (typed RedisType.hash o) [
          | none ↦ (format_integer (pos 0), d)
          | some v ↦ (format_integer (pos (if Assoc.contains field v.hash_value then 1 else 0)), d)
        ])
        (λ o d. ground arith)

  pub cmd_hlen-Refines : Refines now key db (cmd_hlen now (name ∷ key ∷ []) db) (
      reads RedisType.hash
        (format_integer (pos 0))
        (λ v. format_integer (pos (length v.hash_value)))
        (view now db key))
  unfolding cmd_hlen
  cmd_hlen-Refines =
      Refines-reads now key db RedisType.hash _ _
        (λ o d. elim (typed RedisType.hash o) [
          | none ↦ (format_integer (pos 0), d)
          | some v ↦ (format_integer (pos (length v.hash_value)), d)
        ])
        (λ o d. ground arith)

  list_with-Refines :
      (f : Assoc Bytes → List Bytes)
      → Refines now key db (list_with f now key db) (lists f (view now db key))
  unfolding list_with
  list_with-Refines f =
      Refines-reads now key db RedisType.hash _ _
        (λ o d. elim (typed RedisType.hash o) [
          | none ↦ (format_array [], d)
          | some v ↦ (format_array (f v.hash_value), d)
        ])
        (λ o d. ground arith)

  pub cmd_hkeys-Refines :
      Refines now key db (cmd_hkeys now (name ∷ key ∷ []) db) (lists keys_of (view now db key))
  unfolding cmd_hkeys
  cmd_hkeys-Refines = list_with-Refines keys_of

  pub cmd_hvals-Refines :
      Refines now key db (cmd_hvals now (name ∷ key ∷ []) db) (lists values_of (view now db key))
  unfolding cmd_hvals
  cmd_hvals-Refines = list_with-Refines values_of

  pub cmd_hgetall-Refines :
      Refines now key db (cmd_hgetall now (name ∷ key ∷ []) db) (lists entries_of (view now db key))
  unfolding cmd_hgetall
  cmd_hgetall-Refines = list_with-Refines entries_of
