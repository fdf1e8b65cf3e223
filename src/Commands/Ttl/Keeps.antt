-- ===== src/Commands/Ttl/Keeps.antt =====
-- The commands on expiry keep the database well formed.
use cpp_redis.Prelude.{refl, ◌≡◌, Option, none, some, [], ◌∷◌, Bytes, arith}
use cpp_redis.Prelude.Int.{ℤ}
use cpp_redis.Database.{RedisValue, Db, get_value, set_expiry, clear_expiry, seconds}
use cpp_redis.Database.Invariant.{
  IsValid, IsFilled, Keeps, get_value-IsValid, get_value-IsFilled, store-IsValid,
  delete_key-IsValid,
}
use cpp_redis.Commands.Ttl.{
  parse_int, true, expire_found, cmd_expire, expireat_found, cmd_expireat, ttl_found, cmd_ttl,
  persist_found, cmd_persist, from_time_t,
}

expire_found-IsValid :
    (now : ℤ) (key : Bytes) (n : ℤ) (o : Option RedisValue) (db : Db)
    → ((v : RedisValue) → o ≡ some v → IsFilled v)
    → IsValid db
    → IsValid (expire_found now key n o db).1
unfolding expire_found set_expiry
expire_found-IsValid now key n none db f h = h
expire_found-IsValid now key n (some v) db f h = ground (
  arith,
  delete_key-IsValid key db h,
  store-IsValid key (set_expiry now (seconds n) v) db (f v refl) h,
)

expireat_found-IsValid :
    (now : ℤ) (key : Bytes) (t : ℤ) (o : Option RedisValue) (db : Db)
    → ((v : RedisValue) → o ≡ some v → IsFilled v)
    → IsValid db
    → IsValid (expireat_found now key t o db).1
unfolding expireat_found
expireat_found-IsValid now key t none db f h = h
expireat_found-IsValid now key t (some v) db f h = ground (
  arith,
  delete_key-IsValid key db h,
  store-IsValid key (record v { expiry = t; has_expiry = true }) db (f v refl) h,
)

ttl_found-IsValid :
    (now : ℤ) (key : Bytes) (o : Option RedisValue) (db : Db)
    → IsValid db
    → IsValid (ttl_found now key o db).1
unfolding ttl_found
ttl_found-IsValid now key none db h = h
ttl_found-IsValid now key (some v) db h = ground (arith, delete_key-IsValid key db h)

persist_found-IsValid :
    (key : Bytes) (o : Option RedisValue) (db : Db)
    → ((v : RedisValue) → o ≡ some v → IsFilled v)
    → IsValid db
    → IsValid (persist_found key o db).1
unfolding persist_found clear_expiry
persist_found-IsValid key none db f h = h
persist_found-IsValid key (some v) db f h =
    ground (arith, store-IsValid key (clear_expiry v) db (f v refl) h)

cmd_expire-Keeps : (now : ℤ) → Keeps (cmd_expire now)
unfolding cmd_expire
cmd_expire-Keeps now [] db h = h
cmd_expire-Keeps now (name ∷ key ∷ n ∷ []) db h = ground (
  arith,
  h,
  expire_found-IsValid now key (parse_int n) (get_value now key db).0 (get_value now key db).1
      (λ (v : RedisValue). get_value-IsFilled now key db v h) (get_value-IsValid now key db h),
)
cmd_expire-Keeps now _ db h = h

cmd_expireat-Keeps : (now : ℤ) → Keeps (cmd_expireat now)
unfolding cmd_expireat
cmd_expireat-Keeps now [] db h = h
cmd_expireat-Keeps now (name ∷ key ∷ n ∷ []) db h = ground (
  arith,
  h,
  expireat_found-IsValid now key (from_time_t (parse_int n)) (get_value now key db).0
      (get_value now key db).1 (λ (v : RedisValue). get_value-IsFilled now key db v h)
      (get_value-IsValid now key db h),
)
cmd_expireat-Keeps now _ db h = h

cmd_ttl-Keeps : (now : ℤ) → Keeps (cmd_ttl now)
unfolding cmd_ttl
cmd_ttl-Keeps now [] db h = h
cmd_ttl-Keeps now (name ∷ key ∷ []) db h =
    ttl_found-IsValid now key (get_value now key db).0 (get_value now key db).1
      (get_value-IsValid now key db h)
cmd_ttl-Keeps now _ db h = h

cmd_persist-Keeps : (now : ℤ) → Keeps (cmd_persist now)
unfolding cmd_persist
cmd_persist-Keeps now [] db h = h
cmd_persist-Keeps now (name ∷ key ∷ []) db h =
    persist_found-IsValid key (get_value now key db).0 (get_value now key db).1
      (λ v. get_value-IsFilled now key db v h) (get_value-IsValid now key db h)
cmd_persist-Keeps now _ db h = h

-- EXPIRE, EXPIREAT, TTL and PERSIST.
pub ttl_commands-Keeps :
    (now : ℤ)
    → Keeps (cmd_expire now)
      × Keeps (cmd_expireat now)
      × Keeps (cmd_ttl now)
      × Keeps (cmd_persist now)
ttl_commands-Keeps now =
    (cmd_expire-Keeps now, cmd_expireat-Keeps now, cmd_ttl-Keeps now, cmd_persist-Keeps now)
