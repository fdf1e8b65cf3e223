-- ===== src/Commands/Sets/Keeps.antt =====
-- The commands on sets keep the database well formed: sets stay ordered and are never empty.
use mathlib.Core.Path.{subst}
use cpp_redis.Prelude.{
  inr, inl, ℕ, inl, inr, refl, ◌≡◌, ◌≢◌, sym, Option, none, some, List, [], ◌∷◌, Bytes, arith,
}
use cpp_redis.Prelude.Int.{ℤ}
use cpp_redis.Prelude.Ordered
use cpp_redis.Prelude.Ordered.{IsSorted, insert-IsSorted, erase-IsSorted, remove_at-IsSorted}
use cpp_redis.Database.{
  RedisType, RedisValue, Db, Opened, mistyped, opened, get_value, open_value, typed,
}
use cpp_redis.Database.Invariant.{
  IsValid, IsFilled, Holds, Keeps, get_value-IsValid, get_value-IsFilled, store-IsValid,
  delete_key-IsValid, delete_key-store, typed-type, IsOpened, open_value-IsOpened,
  open_value-mistyped,
}
use cpp_redis.Commands.Sets.{
  add_members, add_opened, cmd_sadd, store_set, remove_members, remove_found, cmd_srem,
  cmd_sismember, cmd_scard, cmd_smembers, picked, pick_found, cmd_spop,
}

set-IsFilled :
    (v : RedisValue) (set : List Bytes)
    → v.type ≡ RedisType.set
    → set ≢ []
    → IsSorted set
    → IsFilled (record v { set_value = set })
set-IsFilled v set e ne sorted =
    subst (λ t. Holds t v.list_value set v.hash_value) (sym e) (ne, sorted)

-- The set at hand is ordered: it is empty and fresh, or a stored one.
opened-IsSorted :
    (key : Bytes) (v : RedisValue) (db : Db)
    → IsOpened RedisType.set key v db
    → IsSorted v.set_value
opened-IsSorted key v db ready = elim ready.content [
  | inl fresh ↦ subst (λ (w : RedisValue). IsSorted w.set_value) (sym fresh) tt
  | inr filled ↦ (subst (λ t. Holds t v.list_value v.set_value v.hash_value) ready.type_is filled).1
]

pub add_members-IsSorted :
    (xs : List Bytes) (n : ℕ) (set : List Bytes) → IsSorted set → IsSorted (add_members xs n set).1
unfolding add_members
add_members-IsSorted [] n set h = h
add_members-IsSorted (x ∷ xs) n set h =
    add_members-IsSorted xs _ (Ordered.insert x set) (insert-IsSorted x set h)

insert-ne-nil : (x : Bytes) (set : List Bytes) → Ordered.insert x set ≢ []
unfolding Ordered.insert
insert-ne-nil x [] = cc
insert-ne-nil x (y ∷ set) = ground arith

add_members-ne-nil :
    (xs : List Bytes) (n : ℕ) (set : List Bytes) → set ≢ [] → (add_members xs n set).1 ≢ []
unfolding add_members
add_members-ne-nil [] n set h = h
add_members-ne-nil (x ∷ xs) n set h =
    add_members-ne-nil xs _ (Ordered.insert x set) (insert-ne-nil x set)

add_opened-IsValid :
    (now : ℤ) (key x : Bytes) (xs : List Bytes) (db : Db) (o : Opened)
    → IsValid db
    → open_value RedisType.set now key db ≡ o
    → IsValid (add_opened key (x ∷ xs) o).1
unfolding add_opened add_members
add_opened-IsValid now key x xs db (mistyped db') h e =
    open_value-mistyped RedisType.set now key db db' h e
add_opened-IsValid now key x xs db (opened v db') h e =
    let ready = open_value-IsOpened RedisType.set now key db v db' h e in
    ready.stores _ (
      set-IsFilled v _ ready.type_is
        (add_members-ne-nil xs _ (Ordered.insert x v.set_value) (insert-ne-nil x v.set_value))
        (add_members-IsSorted xs _ (Ordered.insert x v.set_value)
          (insert-IsSorted x v.set_value (opened-IsSorted key v db' ready))))

cmd_sadd-Keeps : (now : ℤ) → Keeps (cmd_sadd now)
unfolding cmd_sadd
cmd_sadd-Keeps now [] db h = h
cmd_sadd-Keeps now (name ∷ []) db h = h
cmd_sadd-Keeps now (name ∷ key ∷ []) db h = h
cmd_sadd-Keeps now (name ∷ key ∷ x ∷ xs) db h =
    add_opened-IsValid now key x xs db (open_value RedisType.set now key db) h refl

store_set-IsValid :
    (key : Bytes) (v : RedisValue) (set : List Bytes) (db : Db)
    → v.type ≡ RedisType.set
    → IsSorted set
    → IsValid db
    → IsValid (store_set key v set db)
unfolding store_set
store_set-IsValid key v [] db e s h =
    subst IsValid (sym (delete_key-store key _ db)) (delete_key-IsValid key db h)
store_set-IsValid key v (x ∷ set) db e s h =
    store-IsValid key _ db (set-IsFilled v (x ∷ set) e (cc) s) h

pub remove_members-IsSorted :
    (xs : List Bytes) (n : ℕ) (set : List Bytes)
    → IsSorted set
    → IsSorted (remove_members xs n set).1
unfolding remove_members
remove_members-IsSorted [] n set h = h
remove_members-IsSorted (x ∷ xs) n set h =
    remove_members-IsSorted xs _ (Ordered.erase x set) (erase-IsSorted x set h)

-- A set that a look-up finds.
found-IsSorted :
    (o : Option RedisValue) (v : RedisValue)
    → ((w : RedisValue) → o ≡ some w → IsFilled w)
    → typed RedisType.set o ≡ some v
    → (v.type ≡ RedisType.set) × IsSorted v.set_value
found-IsSorted o v f e =
    let (found, type_is) = typed-type RedisType.set o v e in
    (type_is, (subst (λ t. Holds t v.list_value v.set_value v.hash_value) type_is (f v found)).1)

remove_found-IsValid :
    (key : Bytes) (xs : List Bytes) (o w : Option RedisValue) (db : Db)
    → ((v : RedisValue) → o ≡ some v → IsFilled v)
    → IsValid db
    → typed RedisType.set o ≡ w
    → IsValid (remove_found key xs w db).1
unfolding remove_found
remove_found-IsValid key xs o none db f h e = h
remove_found-IsValid key xs o (some v) db f h e =
    let (type_is, sorted) = found-IsSorted o v f e in
    store_set-IsValid key v _ db type_is (remove_members-IsSorted xs 0 v.set_value sorted) h

cmd_srem-Keeps : (now : ℤ) → Keeps (cmd_srem now)
unfolding cmd_srem
cmd_srem-Keeps now [] db h = h
cmd_srem-Keeps now (name ∷ []) db h = h
cmd_srem-Keeps now (name ∷ key ∷ []) db h = h
cmd_srem-Keeps now (name ∷ key ∷ x ∷ xs) db h =
    remove_found-IsValid key (x ∷ xs) (get_value now key db).0
      (typed RedisType.set (get_value now key db).0) (get_value now key db).1
      (λ v. get_value-IsFilled now key db v h) (get_value-IsValid now key db h) refl

cmd_sismember-Keeps : (now : ℤ) → Keeps (cmd_sismember now)
unfolding cmd_sismember
cmd_sismember-Keeps now [] db h = h
cmd_sismember-Keeps now (name ∷ key ∷ x ∷ []) db h = ground (arith, get_value-IsValid now key db h)
cmd_sismember-Keeps now _ db h = h

cmd_scard-Keeps : (now : ℤ) → Keeps (cmd_scard now)
unfolding cmd_scard
cmd_scard-Keeps now [] db h = h
cmd_scard-Keeps now (name ∷ key ∷ []) db h = ground (arith, get_value-IsValid now key db h)
cmd_scard-Keeps now _ db h = h

cmd_smembers-Keeps : (now : ℤ) → Keeps (cmd_smembers now)
unfolding cmd_smembers
cmd_smembers-Keeps now [] db h = h
cmd_smembers-Keeps now (name ∷ key ∷ []) db h = ground (arith, get_value-IsValid now key db h)
cmd_smembers-Keeps now _ db h = h

picked-IsValid :
    (key : Bytes) (v : RedisValue) (i : ℕ) (o : Option Bytes) (db : Db)
    → v.type ≡ RedisType.set
    → IsSorted v.set_value
    → IsValid db
    → IsValid (picked key v i o db).1
unfolding picked
picked-IsValid key v i none db e s h = h
picked-IsValid key v i (some x) db e s h =
    store_set-IsValid key v _ db e (remove_at-IsSorted i v.set_value s) h

pick_found-IsValid :
    (pick : ℕ → ℕ) (key : Bytes) (o w : Option RedisValue) (db : Db)
    → ((v : RedisValue) → o ≡ some v → IsFilled v)
    → IsValid db
    → typed RedisType.set o ≡ w
    → IsValid (pick_found pick key w db).1
unfolding pick_found
pick_found-IsValid pick key o none db f h e = h
pick_found-IsValid pick key o (some v) db f h e =
    let (type_is, sorted) = found-IsSorted o v f e in picked-IsValid key v _ _ db type_is sorted h

cmd_spop-Keeps : (pick : ℕ → ℕ) (now : ℤ) → Keeps (cmd_spop pick now)
unfolding cmd_spop
cmd_spop-Keeps pick now [] db h = h
cmd_spop-Keeps pick now (name ∷ key ∷ []) db h =
    pick_found-IsValid pick key (get_value now key db).0
      (typed RedisType.set (get_value now key db).0) (get_value now key db).1
      (λ v. get_value-IsFilled now key db v h) (get_value-IsValid now key db h) refl
cmd_spop-Keeps pick now _ db h = h

-- SADD, SREM, SISMEMBER, SCARD, SMEMBERS and SPOP.
pub set_commands-Keeps :
    (pick : ℕ → ℕ) (now : ℤ)
    → Keeps (cmd_sadd now)
      × Keeps (cmd_srem now)
      × Keeps (cmd_sismember now)
      × Keeps (cmd_scard now)
      × Keeps (cmd_smembers now)
      × Keeps (cmd_spop pick now)
set_commands-Keeps pick now = (
  cmd_sadd-Keeps now,
  cmd_srem-Keeps now,
  cmd_sismember-Keeps now,
  cmd_scard-Keeps now,
  cmd_smembers-Keeps now,
  cmd_spop-Keeps pick now,
)
