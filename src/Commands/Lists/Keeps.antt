-- ===== src/Commands/Lists/Keeps.antt =====
-- The commands on lists keep the database well formed: a list that becomes empty goes with its key.
use mathlib.Core.Path.{subst}
use cpp_redis.Prelude.{
  suc, ℕ, zero, suc, refl, ◌≡◌, ◌≢◌, sym, Option, none, some, List, [], ◌∷◌, ◌++◌, Bytes, arith,
  length, set,
}
use cpp_redis.Prelude.Int.{ℤ}
use cpp_redis.Database.{
  RedisType, RedisValue, Db, Opened, mistyped, opened, get_value, open_value, typed,
}
use cpp_redis.Database.Invariant.{
  IsValid, IsFilled, Holds, Keeps, get_value-IsValid, get_value-IsFilled, store-IsValid,
  delete_key-IsValid, delete_key-store, typed-type, open_value-IsOpened, open_value-mistyped,
}
use cpp_redis.Commands.Lists.{
  parse_int, push_front, push_back, push_opened, push_with, cmd_lpush, cmd_rpush, store_list,
  popped, pop_found, pop_with, pop_front, pop_back, cmd_lpop, cmd_rpop, cmd_llen, cmd_lrange,
  cmd_lindex, set_at, set_found, cmd_lset, position,
}

list-IsFilled :
    (v : RedisValue) (list : List Bytes)
    → v.type ≡ RedisType.list
    → list ≢ []
    → IsFilled (record v { list_value = list })
list-IsFilled v list e ne = subst (λ t. Holds t list v.set_value v.hash_value) (sym e) ne

push_opened-IsValid :
    (push : List Bytes → List Bytes) (now : ℤ) (key : Bytes) (db : Db) (o : Opened)
    → ((l : List Bytes) → push l ≢ [])
    → IsValid db
    → open_value RedisType.list now key db ≡ o
    → IsValid (push_opened push key o).1
unfolding push_opened
push_opened-IsValid push now key db (mistyped db') ne h e =
    open_value-mistyped RedisType.list now key db db' h e
push_opened-IsValid push now key db (opened v db') ne h e =
    let ready = open_value-IsOpened RedisType.list now key db v db' h e in
    ready.stores _ (list-IsFilled v (push v.list_value) ready.type_is (ne v.list_value))

push_front-ne-nil : (x : Bytes) (xs l : List Bytes) → push_front (x ∷ xs) l ≢ []
unfolding push_front
push_front-ne-nil x [] l = cc
push_front-ne-nil x (y ∷ xs) l = push_front-ne-nil y xs (x ∷ l)

append-ne-nil : (l : List Bytes) (x : Bytes) → l ++ x ∷ [] ≢ []
append-ne-nil [] x = cc
append-ne-nil (y ∷ l) x = cc

push_back-ne-nil : (xs l : List Bytes) → l ≢ [] → push_back xs l ≢ []
unfolding push_back
push_back-ne-nil [] l h = h
push_back-ne-nil (y ∷ xs) l h = push_back-ne-nil xs (l ++ y ∷ []) (append-ne-nil l y)

cmd_lpush-Keeps : (now : ℤ) → Keeps (cmd_lpush now)
unfolding cmd_lpush push_with
cmd_lpush-Keeps now [] db h = h
cmd_lpush-Keeps now (name ∷ []) db h = h
cmd_lpush-Keeps now (name ∷ key ∷ []) db h = h
cmd_lpush-Keeps now (name ∷ key ∷ x ∷ xs) db h =
    push_opened-IsValid (push_front (x ∷ xs)) now key db _ (push_front-ne-nil x xs) h refl

cmd_rpush-Keeps : (now : ℤ) → Keeps (cmd_rpush now)
unfolding cmd_rpush push_with push_back
cmd_rpush-Keeps now [] db h = h
cmd_rpush-Keeps now (name ∷ []) db h = h
cmd_rpush-Keeps now (name ∷ key ∷ []) db h = h
cmd_rpush-Keeps now (name ∷ key ∷ x ∷ xs) db h =
    push_opened-IsValid (push_back (x ∷ xs)) now key db _
      (λ l. push_back-ne-nil xs (l ++ x ∷ []) (append-ne-nil l x)) h refl

store_list-IsValid :
    (key : Bytes) (v : RedisValue) (list : List Bytes) (db : Db)
    → v.type ≡ RedisType.list
    → IsValid db
    → IsValid (store_list key v list db)
unfolding store_list
store_list-IsValid key v [] db e h =
    subst IsValid (sym (delete_key-store key _ db)) (delete_key-IsValid key db h)
store_list-IsValid key v (x ∷ list) db e h =
    store-IsValid key _ db (list-IsFilled v (x ∷ list) e (cc)) h

popped-IsValid :
    (key : Bytes) (v : RedisValue) (o : Option (Bytes × List Bytes)) (db : Db)
    → v.type ≡ RedisType.list
    → IsValid db
    → IsValid (popped key v o db).1
unfolding popped
popped-IsValid key v none db e h = h
popped-IsValid key v (some (x, list)) db e h = store_list-IsValid key v list db e h

pop_found-IsValid :
    (pop : List Bytes → Option (Bytes × List Bytes)) (key : Bytes) (o w : Option RedisValue)
    (db : Db)
    → IsValid db
    → typed RedisType.list o ≡ w
    → IsValid (pop_found pop key w db).1
unfolding pop_found
pop_found-IsValid pop key o none db h e = h
pop_found-IsValid pop key o (some v) db h e =
    popped-IsValid key v (pop v.list_value) db (typed-type RedisType.list o v e).1 h

pop_with-IsValid :
    (pop : List Bytes → Option (Bytes × List Bytes)) (now : ℤ) (key : Bytes) (db : Db)
    → IsValid db
    → IsValid (pop_with pop now key db).1
unfolding pop_with
pop_with-IsValid pop now key db h =
    pop_found-IsValid pop key (get_value now key db).0 _ (get_value now key db).1
      (get_value-IsValid now key db h) refl

cmd_lpop-Keeps : (now : ℤ) → Keeps (cmd_lpop now)
unfolding cmd_lpop
cmd_lpop-Keeps now [] db h = h
cmd_lpop-Keeps now (name ∷ key ∷ []) db h = pop_with-IsValid pop_front now key db h
cmd_lpop-Keeps now _ db h = h

cmd_rpop-Keeps : (now : ℤ) → Keeps (cmd_rpop now)
unfolding cmd_rpop
cmd_rpop-Keeps now [] db h = h
cmd_rpop-Keeps now (name ∷ key ∷ []) db h = pop_with-IsValid pop_back now key db h
cmd_rpop-Keeps now _ db h = h

cmd_llen-Keeps : (now : ℤ) → Keeps (cmd_llen now)
unfolding cmd_llen
cmd_llen-Keeps now [] db h = h
cmd_llen-Keeps now (name ∷ key ∷ []) db h = ground (arith, get_value-IsValid now key db h)
cmd_llen-Keeps now _ db h = h

cmd_lrange-Keeps : (now : ℤ) → Keeps (cmd_lrange now)
unfolding cmd_lrange
cmd_lrange-Keeps now [] db h = h
cmd_lrange-Keeps now (name ∷ key ∷ start ∷ end ∷ []) db h =
    ground (arith, h, get_value-IsValid now key db h)
cmd_lrange-Keeps now _ db h = h

cmd_lindex-Keeps : (now : ℤ) → Keeps (cmd_lindex now)
unfolding cmd_lindex
cmd_lindex-Keeps now [] db h = h
cmd_lindex-Keeps now (name ∷ key ∷ index ∷ []) db h =
    ground (arith, h, get_value-IsValid now key db h)
cmd_lindex-Keeps now _ db h = h

set-ne-nil : (l : List Bytes) (i : ℕ) (x : Bytes) → l ≢ [] → set l i x ≢ []
set-ne-nil [] i x h = h
set-ne-nil (y ∷ l) zero x h = cc
set-ne-nil (y ∷ l) (suc i) x h = cc

set_at-IsValid :
    (key : Bytes) (v : RedisValue) (o : Option ℕ) (x : Bytes) (db : Db)
    → v.type ≡ RedisType.list
    → v.list_value ≢ []
    → IsValid db
    → IsValid (set_at key v o x db).1
unfolding set_at
set_at-IsValid key v none x db e ne h = h
set_at-IsValid key v (some i) x db e ne h =
    store-IsValid key _ db (list-IsFilled v _ e (set-ne-nil v.list_value i x ne)) h

set_found-IsValid :
    (index : ℤ) (key x : Bytes) (o w : Option RedisValue) (db : Db)
    → ((v : RedisValue) → o ≡ some v → IsFilled v)
    → IsValid db
    → typed RedisType.list o ≡ w
    → IsValid (set_found index key x w db).1
unfolding set_found
set_found-IsValid index key x o none db f h e = h
set_found-IsValid index key x o (some v) db f h e =
    let (found, type_is) = typed-type RedisType.list o v e in
    set_at-IsValid key v (position index (length v.list_value)) x db type_is
      (subst (λ t. Holds t v.list_value v.set_value v.hash_value) type_is (f v found)) h

cmd_lset-Keeps : (now : ℤ) → Keeps (cmd_lset now)
unfolding cmd_lset
cmd_lset-Keeps now [] db h = h
cmd_lset-Keeps now (name ∷ key ∷ index ∷ x ∷ []) db h = ground (
  arith,
  h,
  set_found-IsValid (parse_int index) key x (get_value now key db).0
      (typed RedisType.list (get_value now key db).0) (get_value now key db).1
      (λ (v : RedisValue). get_value-IsFilled now key db v h) (get_value-IsValid now key db h) refl,
)
cmd_lset-Keeps now _ db h = h

-- LPUSH, RPUSH, LPOP, RPOP, LLEN, LRANGE, LINDEX and LSET.
pub list_commands-Keeps :
    (now : ℤ)
    → Keeps (cmd_lpush now)
      × Keeps (cmd_rpush now)
      × Keeps (cmd_lpop now)
      × Keeps (cmd_rpop now)
      × Keeps (cmd_llen now)
      × Keeps (cmd_lrange now)
      × Keeps (cmd_lindex now)
      × Keeps (cmd_lset now)
list_commands-Keeps now = (
  cmd_lpush-Keeps now,
  cmd_rpush-Keeps now,
  cmd_lpop-Keeps now,
  cmd_rpop-Keeps now,
  cmd_llen-Keeps now,
  cmd_lrange-Keeps now,
  cmd_lindex-Keeps now,
  cmd_lset-Keeps now,
)
