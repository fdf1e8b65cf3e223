-- ===== src/Commands/Lists/Agrees.antt =====
-- The commands on lists reply alike on databases that show the same.
use cpp_redis.Prelude.{ℕ, refl, ◌&&◌, Option, none, some, List, [], ◌∷◌, Bytes, length}
use cpp_redis.Prelude.Int.{ℤ, pos}
use cpp_redis.Utils.{is_integer, parse_int}
use cpp_redis.Resp.Formatter.{format_bulk_string, format_integer, format_array, format_null}
use cpp_redis.Database.{RedisType, RedisValue, Db, typed}
use cpp_redis.Database.Same.{
  Same, Alike, Agrees, Same-store, Same-delete_key, Alike-get_value, Alike-then, Alike-read,
  Alike-if, open_value-Alike,
}
use cpp_redis.Commands.Lists.{
  push_opened, push_with, cmd_lpush, cmd_rpush, store_list, popped, pop_found, pop_with, cmd_lpop,
  cmd_rpop, cmd_llen, range, cmd_lrange, element_at, cmd_lindex, set_at, set_found, cmd_lset,
}

push_with-Alike :
    (push : List Bytes → List Bytes) (now : ℤ) (key : Bytes) (db db' : Db)
    → Same now db db'
    → Alike now (push_with push now key db) (push_with push now key db')
unfolding push_with push_opened
push_with-Alike push now key db db' same =
    open_value-Alike now RedisType.list key (push_opened push key) db db'
      (λ v d d' s. (refl, Same-store now key _ d d' s)) (λ d d' s. (refl, s)) same

store_list-Same :
    (now : ℤ) (key : Bytes) (v : RedisValue) (list : List Bytes) (d d' : Db)
    → Same now d d'
    → Same now (store_list key v list d) (store_list key v list d')
unfolding store_list
store_list-Same now key v [] d d' s = Same-delete_key now key _ _ (Same-store now key _ d d' s)
store_list-Same now key v (x ∷ list) d d' s = Same-store now key _ d d' s

popped-Alike :
    (now : ℤ) (key : Bytes) (v : RedisValue) (o : Option (Bytes × List Bytes)) (d d' : Db)
    → Same now d d'
    → Alike now (popped key v o d) (popped key v o d')
unfolding popped
popped-Alike now key v none d d' s = (refl, s)
popped-Alike now key v (some (result, list)) d d' s = (refl, store_list-Same now key v list d d' s)

pop_found-Alike :
    (now : ℤ) (pop : List Bytes → Option (Bytes × List Bytes)) (key : Bytes) (o : Option RedisValue)
    (d d' : Db)
    → Same now d d'
    → Alike now (pop_found pop key o d) (pop_found pop key o d')
unfolding pop_found
pop_found-Alike now pop key none d d' s = (refl, s)
pop_found-Alike now pop key (some v) d d' s = popped-Alike now key v (pop v.list_value) d d' s

pop_with-Alike :
    (pop : List Bytes → Option (Bytes × List Bytes)) (now : ℤ) (key : Bytes) (db db' : Db)
    → Same now db db'
    → Alike now (pop_with pop now key db) (pop_with pop now key db')
unfolding pop_with
pop_with-Alike pop now key db db' same =
    Alike-then now _ _ (λ o. pop_found pop key (typed RedisType.list o))
      (Alike-get_value now key db db' same)
      (λ o. pop_found-Alike now pop key (typed RedisType.list o))

set_at-Alike :
    (now : ℤ) (key : Bytes) (v : RedisValue) (i : Option ℕ) (x : Bytes) (d d' : Db)
    → Same now d d'
    → Alike now (set_at key v i x d) (set_at key v i x d')
unfolding set_at
set_at-Alike now key v none x d d' s = (refl, s)
set_at-Alike now key v (some i) x d d' s = (refl, Same-store now key _ d d' s)

set_found-Alike :
    (now index : ℤ) (key x : Bytes) (o : Option RedisValue) (d d' : Db)
    → Same now d d'
    → Alike now (set_found index key x o d) (set_found index key x o d')
unfolding set_found
set_found-Alike now index key x none d d' s = (refl, s)
set_found-Alike now index key x (some v) d d' s = set_at-Alike now key v _ x d d' s

-- What LINDEX does with the value.
abbrev element : ℤ → Option RedisValue → Db → Bytes × Db
element index o d = elim o [
  | none ↦ (format_null, d)
  | some v ↦ elim (element_at index v.list_value) [
    | none ↦ (format_null, d)
    | some x ↦ (format_bulk_string x, d)
  ]
]

element-Alike :
    (now index : ℤ) (o : Option RedisValue) (d d' : Db)
    → Same now d d'
    → Alike now (element index o d) (element index o d')
element-Alike now index none d d' s = (refl, s)
element-Alike now index (some v) d d' s = Alike-read now (element_at index v.list_value) _ _ d d' s

pub cmd_lpush-Agrees : (now : ℤ) → Agrees now (cmd_lpush now)
unfolding cmd_lpush
cmd_lpush-Agrees now (name ∷ key ∷ x ∷ xs) db db' same = push_with-Alike _ now key db db' same
cmd_lpush-Agrees now [] db db' same = (refl, same)
cmd_lpush-Agrees now (name ∷ []) db db' same = (refl, same)
cmd_lpush-Agrees now (name ∷ key ∷ []) db db' same = (refl, same)

pub cmd_rpush-Agrees : (now : ℤ) → Agrees now (cmd_rpush now)
unfolding cmd_rpush
cmd_rpush-Agrees now (name ∷ key ∷ x ∷ xs) db db' same = push_with-Alike _ now key db db' same
cmd_rpush-Agrees now [] db db' same = (refl, same)
cmd_rpush-Agrees now (name ∷ []) db db' same = (refl, same)
cmd_rpush-Agrees now (name ∷ key ∷ []) db db' same = (refl, same)

pub cmd_lpop-Agrees : (now : ℤ) → Agrees now (cmd_lpop now)
unfolding cmd_lpop
cmd_lpop-Agrees now (name ∷ key ∷ []) db db' same = pop_with-Alike _ now key db db' same
cmd_lpop-Agrees now [] db db' same = (refl, same)
cmd_lpop-Agrees now (name ∷ []) db db' same = (refl, same)
cmd_lpop-Agrees now (name ∷ key ∷ x ∷ args) db db' same = (refl, same)

pub cmd_rpop-Agrees : (now : ℤ) → Agrees now (cmd_rpop now)
unfolding cmd_rpop
cmd_rpop-Agrees now (name ∷ key ∷ []) db db' same = pop_with-Alike _ now key db db' same
cmd_rpop-Agrees now [] db db' same = (refl, same)
cmd_rpop-Agrees now (name ∷ []) db db' same = (refl, same)
cmd_rpop-Agrees now (name ∷ key ∷ x ∷ args) db db' same = (refl, same)

pub cmd_llen-Agrees : (now : ℤ) → Agrees now (cmd_llen now)
unfolding cmd_llen
cmd_llen-Agrees now (name ∷ key ∷ []) db db' same =
    Alike-then now _ _
      (λ o d. elim (typed RedisType.list o) [
        | none ↦ (format_integer (pos 0), d)
        | some v ↦ (format_integer (pos (length v.list_value)), d)
      ])
      (Alike-get_value now key db db' same) (λ o. Alike-read now (typed RedisType.list o) _ _)
cmd_llen-Agrees now [] db db' same = (refl, same)
cmd_llen-Agrees now (name ∷ []) db db' same = (refl, same)
cmd_llen-Agrees now (name ∷ key ∷ x ∷ args) db db' same = (refl, same)

pub cmd_lrange-Agrees : (now : ℤ) → Agrees now (cmd_lrange now)
unfolding cmd_lrange
cmd_lrange-Agrees now (name ∷ key ∷ x ∷ y ∷ []) db db' same =
    Alike-if now (is_integer x && is_integer y) _ _ _ _ _
      (Alike-then now _ _
        (λ o d. elim (typed RedisType.list o) [
          | none ↦ (format_array [], d)
          | some v ↦ (format_array (range (parse_int x) (parse_int y) v.list_value), d)
        ])
        (Alike-get_value now key db db' same) (λ o. Alike-read now (typed RedisType.list o) _ _))
      same
cmd_lrange-Agrees now [] db db' same = (refl, same)
cmd_lrange-Agrees now (name ∷ []) db db' same = (refl, same)
cmd_lrange-Agrees now (name ∷ key ∷ []) db db' same = (refl, same)
cmd_lrange-Agrees now (name ∷ key ∷ x ∷ []) db db' same = (refl, same)
cmd_lrange-Agrees now (name ∷ key ∷ x ∷ y ∷ z ∷ args) db db' same = (refl, same)

pub cmd_lindex-Agrees : (now : ℤ) → Agrees now (cmd_lindex now)
unfolding cmd_lindex
cmd_lindex-Agrees now (name ∷ key ∷ x ∷ []) db db' same =
    Alike-if now (is_integer x) _ _ _ _ _
      (Alike-then now _ _ (λ o. element (parse_int x) (typed RedisType.list o))
        (Alike-get_value now key db db' same)
        (λ o. element-Alike now (parse_int x) (typed RedisType.list o)))
      same
cmd_lindex-Agrees now [] db db' same = (refl, same)
cmd_lindex-Agrees now (name ∷ []) db db' same = (refl, same)
cmd_lindex-Agrees now (name ∷ key ∷ []) db db' same = (refl, same)
cmd_lindex-Agrees now (name ∷ key ∷ x ∷ y ∷ args) db db' same = (refl, same)

pub cmd_lset-Agrees : (now : ℤ) → Agrees now (cmd_lset now)
unfolding cmd_lset
cmd_lset-Agrees now (name ∷ key ∷ x ∷ y ∷ []) db db' same =
    Alike-if now (is_integer x) _ _ _ _ _
      (Alike-then now _ _ (λ o. set_found (parse_int x) key y (typed RedisType.list o))
        (Alike-get_value now key db db' same)
        (λ o. set_found-Alike now (parse_int x) key y (typed RedisType.list o)))
      same
cmd_lset-Agrees now [] db db' same = (refl, same)
cmd_lset-Agrees now (name ∷ []) db db' same = (refl, same)
cmd_lset-Agrees now (name ∷ key ∷ []) db db' same = (refl, same)
cmd_lset-Agrees now (name ∷ key ∷ x ∷ []) db db' same = (refl, same)
cmd_lset-Agrees now (name ∷ key ∷ x ∷ y ∷ z ∷ args) db db' same = (refl, same)
