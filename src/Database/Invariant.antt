-- ===== src/Database/Invariant.antt =====
-- The well-formedness of the database: no key twice, no empty or disordered collection, and no value
-- of a type that no command makes.
use mathlib.Core.Path.{subst, subst₂}
use cpp_redis.Prelude.{
  ◌≡◌, ◌≢◌, refl, sym, true, Option, none, some, List, [], Bytes, arith, ◌⊎◌, inl, inr, Bool-cases,
}
use cpp_redis.Prelude.Int.{ℤ}
use cpp_redis.Prelude.Ordered.{IsSorted}
use cpp_redis.Prelude.Assoc
use cpp_redis.Prelude.Assoc.{
  Assoc, Distinct, Each, Distinct-insert, Distinct-erase, Distinct-erase_if, Each-insert,
  Each-erase, Each-erase_if, Each-find, insert-insert, erase-insert,
}
use cpp_redis.Database.{
  RedisType, RedisValue, Db, opened, mistyped, of_type, is_expired, key_exists, get_value,
  set_value, store, delete_key, cleanup_expired_keys, type_eq, typed, open_value, open_found,
}

-- What a value of a type holds; of sorted sets and streams there are no values.
abbrev pub Holds : RedisType → List Bytes → List Bytes → Assoc Bytes → Type 0
Holds RedisType.list list set hash = list ≢ []
Holds RedisType.set list set hash = (set ≢ []) × IsSorted set
Holds RedisType.hash list set hash = (hash ≢ []) × Distinct hash
Holds RedisType.string list set hash = Unit
Holds RedisType.zset list set hash = ⊥
Holds RedisType.stream list set hash = ⊥

abbrev pub IsFilled : RedisValue → Type 0
IsFilled v = Holds v.type v.list_value v.set_value v.hash_value

pub record IsValid (db : Db) : Type 0 where
  pub keys : Distinct db
  pub values : Each IsFilled db

pub IsValid-nil : IsValid []
IsValid-nil = record { keys = tt; values = tt }

pub set_value-IsValid :
    (key : Bytes) (v : RedisValue) (db : Db)
    → IsFilled v
    → IsValid db
    → IsValid (set_value key v db)
unfolding set_value
set_value-IsValid key v db f h = record {
  keys = Distinct-insert key v db h.keys;
  values = Each-insert IsFilled key v db f h.values;
}

pub store-IsValid :
    (key : Bytes) (v : RedisValue) (db : Db) → IsFilled v → IsValid db → IsValid (store key v db)
unfolding store
store-IsValid key v db f h = record {
  keys = Distinct-insert key v db h.keys;
  values = Each-insert IsFilled key v db f h.values;
}

pub delete_key-IsValid : (key : Bytes) (db : Db) → IsValid db → IsValid (delete_key key db).1
unfolding delete_key
delete_key-IsValid key db h = record {
  keys = Distinct-erase key db h.keys;
  values = Each-erase IsFilled key db h.values;
}

pub cleanup_expired_keys-IsValid :
    (now : ℤ) (db : Db) → IsValid db → IsValid (cleanup_expired_keys now db)
unfolding cleanup_expired_keys
cleanup_expired_keys-IsValid now db h = record {
  keys = Distinct-erase_if (is_expired now) db h.keys;
  values = Each-erase_if IsFilled (is_expired now) db h.values;
}

-- A collection that became empty is stored and deleted at once.
pub delete_key-store :
    (key : Bytes) (v : RedisValue) (db : Db)
    → (delete_key key (store key v db)).1 ≡ (delete_key key db).1
unfolding delete_key store
delete_key-store key v db = erase-insert key v db

-- The database that a look-up leaves: as it was, or without an expired key.
get_value-db :
    (now : ℤ) (key : Bytes) (db : Db)
    → ((get_value now key db).1 ≡ db) ⊎ ((get_value now key db).1 ≡ Assoc.erase key db)
unfolding get_value
get_value-db now key db = ground arith

key_exists-db :
    (now : ℤ) (key : Bytes) (db : Db) → (key_exists now key db).1 ≡ (get_value now key db).1
unfolding get_value key_exists
key_exists-db now key db = ground arith

erase-IsValid : (key : Bytes) (db : Db) → IsValid db → IsValid (Assoc.erase key db)
erase-IsValid key db h = record {
  keys = Distinct-erase key db h.keys;
  values = Each-erase IsFilled key db h.values;
}

pub get_value-IsValid :
    (now : ℤ) (key : Bytes) (db : Db) → IsValid db → IsValid (get_value now key db).1
get_value-IsValid now key db h = elim (get_value-db now key db) [
  | inl same ↦ rw same h
  | inr erased ↦ rw erased (erase-IsValid key db h)
]

pub key_exists-IsValid :
    (now : ℤ) (key : Bytes) (db : Db) → IsValid db → IsValid (key_exists now key db).1
key_exists-IsValid now key db h = rw (key_exists-db now key db) (get_value-IsValid now key db h)

get_value-find :
    (now : ℤ) (key : Bytes) (db : Db) (v : RedisValue)
    → (get_value now key db).0 ≡ some v
    → Assoc.find key db ≡ some v
unfolding get_value
get_value-find now key db v h = ground arith

-- The value that a look-up returns is well formed.
pub get_value-IsFilled :
    (now : ℤ) (key : Bytes) (db : Db) (v : RedisValue)
    → IsValid db
    → (get_value now key db).0 ≡ some v
    → IsFilled v
get_value-IsFilled now key db v h e =
    Each-find IsFilled key db v h.values (get_value-find now key db v e)

pub type_eq_sound : (a b : RedisType) → type_eq a b ≡ true → a ≡ b
unfolding type_eq
type_eq_sound a b h = ground arith

pub typed-type :
    (t : RedisType) (o : Option RedisValue) (v : RedisValue)
    → typed t o ≡ some v
    → (o ≡ some v) × (v.type ≡ t)
unfolding typed
typed-type t none v h = cc
typed-type t (some w) v h = ground (arith, type_eq_sound w.type t)

-- Behind `open_value` a well-formed value can be stored, and the value at hand is fresh or well formed.
pub record IsOpened (t : RedisType) (key : Bytes) (v : RedisValue) (db : Db) : Type 0 where
  pub type_is : v.type ≡ t
  pub content : (v ≡ of_type t) ⊎ IsFilled v
  pub stores : (w : RedisValue) → IsFilled w → IsValid (store key w db)

IsOpened-fresh :
    (t : RedisType) (key : Bytes) (db : Db)
    → IsValid db
    → IsOpened t key (of_type t) (set_value key (of_type t) db)
unfolding set_value store
IsOpened-fresh t key db h = record {
  type_is = refl;
  content = inl refl;
  stores = λ w f.
      subst IsValid (sym (insert-insert key w (of_type t) db))
        (unfold store in store-IsValid key w db f h);
}

open_found-IsOpened :
    (t : RedisType) (key : Bytes) (o : Option RedisValue) (db : Db) (v : RedisValue) (db' : Db)
    → IsValid db
    → ((w : RedisValue) → o ≡ some w → IsFilled w)
    → open_found t key o db ≡ opened v db'
    → IsOpened t key v db'
unfolding open_found
open_found-IsOpened t key none db v db' h f e =
    let value : of_type t ≡ v = cc in
    let left : set_value key (of_type t) db ≡ db' = cc in
    subst₂ (IsOpened t key) value left (IsOpened-fresh t key db h)
open_found-IsOpened t key (some w) db v db' h f e = elim (Bool-cases (type_eq w.type t)) [
  | inl same ↦
      let value : w ≡ v = ground arith in
      let left : db ≡ db' = ground arith in
      let found : IsOpened t key w db = record {
        type_is = type_eq_sound w.type t same;
        content = inr (f w refl);
        stores = λ x g. store-IsValid key x db g h;
      } in
      subst₂ (IsOpened t key) value left found
  | inr other ↦ absurd (ground arith)
]

pub open_value-IsOpened :
    (t : RedisType) (now : ℤ) (key : Bytes) (db : Db) (v : RedisValue) (db' : Db)
    → IsValid db
    → open_value t now key db ≡ opened v db'
    → IsOpened t key v db'
unfolding open_value
open_value-IsOpened t now key db v db' h e =
    open_found-IsOpened t key (get_value now key db).0 (get_value now key db).1 v db'
      (get_value-IsValid now key db h) (λ w. get_value-IsFilled now key db w h) e

open_found-mistyped :
    (t : RedisType) (key : Bytes) (o : Option RedisValue) (db db' : Db)
    → open_found t key o db ≡ mistyped db'
    → db' ≡ db
unfolding open_found
open_found-mistyped t key none db db' e = cc
open_found-mistyped t key (some w) db db' e = ground arith

pub open_value-mistyped :
    (t : RedisType) (now : ℤ) (key : Bytes) (db db' : Db)
    → IsValid db
    → open_value t now key db ≡ mistyped db'
    → IsValid db'
unfolding open_value
open_value-mistyped t now key db db' h e =
    subst IsValid
      (sym (open_found-mistyped t key (get_value now key db).0 (get_value now key db).1 db' e))
      (get_value-IsValid now key db h)

-- A command keeps the database well formed.
abbrev pub Keeps : (List Bytes → Db → Bytes × Db) → Type 0
Keeps cmd = (args : List Bytes) (db : Db) → IsValid db → IsValid (cmd args db).1
