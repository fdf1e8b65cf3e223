-- ===== src/Database/View.antt =====
-- What a client can see of the database at a time, the live entries, and how each operation of
-- redis_database.cpp acts on it.
use cpp_redis.Prelude.{
  ◌≡◌, ◌≢◌, refl, Bool, true, false, Option, none, some, Bytes, arith, if◌then◌else◌, str_eq,
  str_eq_iff,
}
use cpp_redis.Prelude.Int.{ℤ, ◌≤ℤ◌}
use cpp_redis.Prelude.Assoc
use cpp_redis.Prelude.Assoc.{Distinct, find-insert, find-erase, find-erase_if}
use cpp_redis.Database.{
  RedisValue, Db, is_expired, key_exists, get_value, set_value, store, delete_key, clear_database,
  cleanup_expired_keys,
}

-- An entry, unless it has expired.
abbrev pub live : ℤ → Option RedisValue → Option RedisValue
live now none = none
live now (some v) = if is_expired now v then none else some v

unfoldable pub view : ℤ → Db → Bytes → Option RedisValue
view now db key = live now (Assoc.find key db)

abbrev pub is_some {ℓ} : {A : Type ℓ} → Option A → Bool
is_some none = false
is_some (some a) = true

module _ (now : ℤ) (key : Bytes) (db : Db) where
  pub get_value-view : (get_value now key db).0 ≡ view now db key
  unfolding get_value view
  get_value-view = ground arith

  pub view-get_value : (j : Bytes) → view now (get_value now key db).1 j ≡ view now db j
  unfolding get_value view
  view-get_value j = ground (arith, find-erase key j db, str_eq_iff key j)

  pub key_exists-view : (key_exists now key db).0 ≡ is_some (view now db key)
  unfolding key_exists view
  key_exists-view = ground arith

  pub view-key_exists : (j : Bytes) → view now (key_exists now key db).1 j ≡ view now db j
  unfolding key_exists view
  view-key_exists j = ground (arith, find-erase key j db, str_eq_iff key j)

  pub view-delete_key :
      (j : Bytes)
      → view now (delete_key key db).1 j ≡ (if str_eq key j then none else view now db j)
  unfolding delete_key view
  view-delete_key j = ground (arith, find-erase key j db)

  -- A key that a client sees is counted as deleted.
  pub delete_key-view : view now db key ≢ none → (delete_key key db).0 ≡ true
  unfolding delete_key view Assoc.contains
  delete_key-view h = ground arith

module _ (now : ℤ) (key : Bytes) (value : RedisValue) (db : Db) (j : Bytes) where
  pub view-set_value :
      view now (set_value key value db) j
      ≡ (if str_eq key j then live now (some value) else view now db j)
  unfolding set_value view
  view-set_value = ground (arith, find-insert key j value db)

  pub view-store :
      view now (store key value db) j
      ≡ (if str_eq key j then live now (some value) else view now db j)
  unfolding store view
  view-store = ground (arith, find-insert key j value db)

pub view-clear_database : (now : ℤ) (db : Db) (j : Bytes) → view now (clear_database db) j ≡ none
unfolding clear_database view Assoc.find
view-clear_database now db j = refl

-- Removing what has expired changes nothing that a client sees.
pub view-cleanup_expired_keys :
    (now : ℤ) (db : Db) (j : Bytes)
    → Distinct db
    → view now (cleanup_expired_keys now db) j ≡ view now db j
unfolding cleanup_expired_keys view
view-cleanup_expired_keys now db j d = ground (arith, find-erase_if (is_expired now) j db d)

-- What has expired stays expired.
pub is_expired_later :
    (now later : ℤ) (v : RedisValue)
    → now ≤ℤ later
    → is_expired now v ≡ true
    → is_expired later v ≡ true
unfolding is_expired
is_expired_later now later v h e = ground arith

pub live-live :
    (now later : ℤ) (o : Option RedisValue) → now ≤ℤ later → live later (live now o) ≡ live later o
live-live now later none h = refl
live-live now later (some v) h = ground (arith, is_expired_later now later v h)

-- At a later time a client sees of the earlier view what has not expired since.
pub view_later :
    (now later : ℤ) (db : Db) (j : Bytes)
    → now ≤ℤ later
    → live later (view now db j) ≡ view later db j
unfolding view
view_later now later db j h = live-live now later (Assoc.find j db) h
