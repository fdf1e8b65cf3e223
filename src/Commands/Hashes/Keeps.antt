-- ===== src/Commands/Hashes/Keeps.antt =====
-- The commands on hashes keep the database well formed: no field twice, and no empty hash.
use mathlib.Core.Path.{subst}
use cpp_redis.Prelude.{
  inr, inl, Option-cases, ℕ, inl, inr, Option-cases, refl, ◌≡◌, ◌≢◌, sym, Option, none, some, List,
  [], ◌∷◌, Bytes, arith,
}
use cpp_redis.Prelude.Int.{ℤ}
use cpp_redis.Prelude.Assoc
use cpp_redis.Prelude.Assoc.{Assoc, Distinct, Distinct-insert, Distinct-erase, insert-ne-nil}
use cpp_redis.Database.{
  RedisType, RedisValue, Db, Opened, mistyped, opened, get_value, open_value, typed,
}
use cpp_redis.Database.Invariant.{
  IsValid, IsFilled, Holds, Keeps, get_value-IsValid, get_value-IsFilled, store-IsValid,
  delete_key-IsValid, delete_key-store, typed-type, IsOpened, open_value-IsOpened,
  open_value-mistyped,
}
use cpp_redis.Commands.Strings.{pairs_of}
use cpp_redis.Commands.Hashes.{
  set_fields, set_opened, hset_pairs, cmd_hset, cmd_hget, delete_fields, store_hash, delete_found,
  cmd_hdel, cmd_hexists, cmd_hlen, list_with, cmd_hkeys, cmd_hvals, cmd_hgetall, keys_of, values_of,
  entries_of,
}

hash-IsFilled :
    (v : RedisValue) (hash : Assoc Bytes)
    → v.type ≡ RedisType.hash
    → hash ≢ []
    → Distinct hash
    → IsFilled (record v { hash_value = hash })
hash-IsFilled v hash e ne distinct =
    subst (λ t. Holds t v.list_value v.set_value hash) (sym e) (ne, distinct)

opened-Distinct :
    (key : Bytes) (v : RedisValue) (db : Db)
    → IsOpened RedisType.hash key v db
    → Distinct v.hash_value
opened-Distinct key v db ready = elim ready.content [
  | inl fresh ↦ subst (λ (w : RedisValue). Distinct w.hash_value) (sym fresh) tt
  | inr filled ↦ (subst (λ t. Holds t v.list_value v.set_value v.hash_value) ready.type_is filled).1
]

set_fields-Distinct :
    (pairs : List (Bytes × Bytes)) (n : ℕ) (hash : Assoc Bytes)
    → Distinct hash
    → Distinct (set_fields pairs n hash).1
unfolding set_fields
set_fields-Distinct [] n hash h = h
set_fields-Distinct ((field, value) ∷ pairs) n hash h =
    set_fields-Distinct pairs _ (Assoc.insert field value hash) (Distinct-insert field value hash h)

set_fields-ne-nil :
    (pairs : List (Bytes × Bytes)) (n : ℕ) (hash : Assoc Bytes)
    → hash ≢ []
    → (set_fields pairs n hash).1 ≢ []
unfolding set_fields
set_fields-ne-nil [] n hash h = h
set_fields-ne-nil ((field, value) ∷ pairs) n hash h =
    set_fields-ne-nil pairs _ (Assoc.insert field value hash) (insert-ne-nil field value hash)

set_opened-IsValid :
    (now : ℤ) (key : Bytes) (pair : Bytes × Bytes) (pairs : List (Bytes × Bytes)) (db : Db)
    (o : Opened)
    → IsValid db
    → open_value RedisType.hash now key db ≡ o
    → IsValid (set_opened key (pair ∷ pairs) o).1
unfolding set_opened set_fields
set_opened-IsValid now key pair pairs db (mistyped db') h e =
    open_value-mistyped RedisType.hash now key db db' h e
set_opened-IsValid now key (field, value) pairs db (opened v db') h e =
    let ready = open_value-IsOpened RedisType.hash now key db v db' h e in
    let hash = Assoc.insert field value v.hash_value in
    ready.stores _ (
      hash-IsFilled v _ ready.type_is
        (set_fields-ne-nil pairs _ hash (insert-ne-nil field value v.hash_value))
        (set_fields-Distinct pairs _ hash
          (Distinct-insert field value v.hash_value (opened-Distinct key v db' ready))))

cmd_hset-Keeps : (now : ℤ) → Keeps (cmd_hset now)
unfolding cmd_hset hset_pairs pairs_of
cmd_hset-Keeps now [] db h = h
cmd_hset-Keeps now (name ∷ []) db h = h
cmd_hset-Keeps now (name ∷ key ∷ []) db h = h
cmd_hset-Keeps now (name ∷ key ∷ field ∷ []) db h = h
cmd_hset-Keeps now (name ∷ key ∷ field ∷ value ∷ rest) db h = elim (Option-cases (pairs_of rest)) [
  | inl odd ↦ rw odd h
  | inr (pairs, even) ↦ rw even (
      set_opened-IsValid now key (field, value) pairs db (open_value RedisType.hash now key db) h
        refl)
]

cmd_hget-Keeps : (now : ℤ) → Keeps (cmd_hget now)
unfolding cmd_hget
cmd_hget-Keeps now [] db h = h
cmd_hget-Keeps now (name ∷ key ∷ field ∷ []) db h = ground (arith, get_value-IsValid now key db h)
cmd_hget-Keeps now _ db h = h

store_hash-IsValid :
    (key : Bytes) (v : RedisValue) (hash : Assoc Bytes) (db : Db)
    → v.type ≡ RedisType.hash
    → Distinct hash
    → IsValid db
    → IsValid (store_hash key v hash db)
unfolding store_hash
store_hash-IsValid key v [] db e s h =
    subst IsValid (sym (delete_key-store key _ db)) (delete_key-IsValid key db h)
store_hash-IsValid key v (x ∷ hash) db e s h =
    store-IsValid key _ db (hash-IsFilled v (x ∷ hash) e (cc) s) h

delete_fields-Distinct :
    (fields : List Bytes) (n : ℕ) (hash : Assoc Bytes)
    → Distinct hash
    → Distinct (delete_fields fields n hash).1
unfolding delete_fields
delete_fields-Distinct [] n hash h = h
delete_fields-Distinct (field ∷ fields) n hash h =
    delete_fields-Distinct fields _ (Assoc.erase field hash) (Distinct-erase field hash h)

delete_found-IsValid :
    (key : Bytes) (fields : List Bytes) (o w : Option RedisValue) (db : Db)
    → ((v : RedisValue) → o ≡ some v → IsFilled v)
    → IsValid db
    → typed RedisType.hash o ≡ w
    → IsValid (delete_found key fields w db).1
unfolding delete_found
delete_found-IsValid key fields o none db f h e = h
delete_found-IsValid key fields o (some v) db f h e =
    let (found, type_is) = typed-type RedisType.hash o v e in
    let holds = subst (λ t. Holds t v.list_value v.set_value v.hash_value) type_is (f v found) in
    store_hash-IsValid key v _ db type_is (delete_fields-Distinct fields 0 v.hash_value holds.1) h

cmd_hdel-Keeps : (now : ℤ) → Keeps (cmd_hdel now)
unfolding cmd_hdel
cmd_hdel-Keeps now [] db h = h
cmd_hdel-Keeps now (name ∷ []) db h = h
cmd_hdel-Keeps now (name ∷ key ∷ []) db h = h
cmd_hdel-Keeps now (name ∷ key ∷ field ∷ fields) db h =
    delete_found-IsValid key (field ∷ fields) (get_value now key db).0
      (typed RedisType.hash (get_value now key db).0) (get_value now key db).1
      (λ v. get_value-IsFilled now key db v h) (get_value-IsValid now key db h) refl

cmd_hexists-Keeps : (now : ℤ) → Keeps (cmd_hexists now)
unfolding cmd_hexists
cmd_hexists-Keeps now [] db h = h
cmd_hexists-Keeps now (name ∷ key ∷ x ∷ []) db h = ground (arith, get_value-IsValid now key db h)
cmd_hexists-Keeps now _ db h = h

cmd_hlen-Keeps : (now : ℤ) → Keeps (cmd_hlen now)
unfolding cmd_hlen
cmd_hlen-Keeps now [] db h = h
cmd_hlen-Keeps now (name ∷ key ∷ []) db h = ground (arith, get_value-IsValid now key db h)
cmd_hlen-Keeps now _ db h = h

list_with-IsValid :
    (listed : Assoc Bytes → List Bytes) (now : ℤ) (key : Bytes) (db : Db)
    → IsValid db
    → IsValid (list_with listed now key db).1
unfolding list_with
list_with-IsValid listed now key db h = ground (arith, get_value-IsValid now key db h)

cmd_hkeys-Keeps : (now : ℤ) → Keeps (cmd_hkeys now)
unfolding cmd_hkeys
cmd_hkeys-Keeps now [] db h = h
cmd_hkeys-Keeps now (name ∷ key ∷ []) db h = list_with-IsValid keys_of now key db h
cmd_hkeys-Keeps now _ db h = h

cmd_hvals-Keeps : (now : ℤ) → Keeps (cmd_hvals now)
unfolding cmd_hvals
cmd_hvals-Keeps now [] db h = h
cmd_hvals-Keeps now (name ∷ key ∷ []) db h = list_with-IsValid values_of now key db h
cmd_hvals-Keeps now _ db h = h

cmd_hgetall-Keeps : (now : ℤ) → Keeps (cmd_hgetall now)
unfolding cmd_hgetall
cmd_hgetall-Keeps now [] db h = h
cmd_hgetall-Keeps now (name ∷ key ∷ []) db h = list_with-IsValid entries_of now key db h
cmd_hgetall-Keeps now _ db h = h

-- HSET, HGET, HDEL, HEXISTS, HLEN, HKEYS, HVALS and HGETALL.
pub hash_commands-Keeps :
    (now : ℤ)
    → Keeps (cmd_hset now)
      × Keeps (cmd_hget now)
      × Keeps (cmd_hdel now)
      × Keeps (cmd_hexists now)
      × Keeps (cmd_hlen now)
      × Keeps (cmd_hkeys now)
      × Keeps (cmd_hvals now)
      × Keeps (cmd_hgetall now)
hash_commands-Keeps now = (
  cmd_hset-Keeps now,
  cmd_hget-Keeps now,
  cmd_hdel-Keeps now,
  cmd_hexists-Keeps now,
  cmd_hlen-Keeps now,
  cmd_hkeys-Keeps now,
  cmd_hvals-Keeps now,
  cmd_hgetall-Keeps now,
)
