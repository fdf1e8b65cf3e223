-- ===== src/Commands/Ttl/Agrees.antt =====
-- The commands on expiry reply alike on databases that show the same.
use cpp_redis.Prelude.{refl, Bool, true, false, Option, none, some, [], ◌∷◌, Bytes, if◌then◌else◌}
use cpp_redis.Prelude.Int.{ℤ, pos, le_ℤ}
use cpp_redis.Utils.{is_integer, parse_int}
use cpp_redis.Database.{RedisValue, Db}
use cpp_redis.Database.Same.{
  Same, Alike, Agrees, Same-store, Same-delete_key, Alike-get_value, Alike-then, Alike-if,
}
use cpp_redis.Commands.Ttl.{
  from_time_t, expire_found, cmd_expire, expireat_found, cmd_expireat, ttl_found, cmd_ttl,
  persist_found, cmd_persist,
}

-- Both branches of a test are alike.
Alike-both :
    (now : ℤ) (b : Bool) (p q p' q' : Bytes × Db)
    → Alike now p p'
    → Alike now q q'
    → Alike now (if b then p else q) (if b then p' else q')
Alike-both now true p q p' q' h k = h
Alike-both now false p q p' q' h k = k

expire_found-Alike :
    (now : ℤ) (key : Bytes) (n : ℤ) (o : Option RedisValue) (d d' : Db)
    → Same now d d'
    → Alike now (expire_found now key n o d) (expire_found now key n o d')
unfolding expire_found
expire_found-Alike now key n none d d' s = (refl, s)
expire_found-Alike now key n (some v) d d' s =
    Alike-both now (le_ℤ n (pos 0)) _ _ _ _ (refl, Same-delete_key now key d d' s)
      (refl, Same-store now key _ d d' s)

expireat_found-Alike :
    (now : ℤ) (key : Bytes) (time : ℤ) (o : Option RedisValue) (d d' : Db)
    → Same now d d'
    → Alike now (expireat_found now key time o d) (expireat_found now key time o d')
unfolding expireat_found
expireat_found-Alike now key time none d d' s = (refl, s)
expireat_found-Alike now key time (some v) d d' s =
    Alike-both now (le_ℤ time now) _ _ _ _ (refl, Same-delete_key now key d d' s)
      (refl, Same-store now key _ d d' s)

ttl_found-Alike :
    (now : ℤ) (key : Bytes) (o : Option RedisValue) (d d' : Db)
    → Same now d d'
    → Alike now (ttl_found now key o d) (ttl_found now key o d')
unfolding ttl_found
ttl_found-Alike now key none d d' s = (refl, s)
ttl_found-Alike now key (some v) d d' s =
    Alike-both now v.has_expiry _ _ _ _
      (Alike-both now (le_ℤ v.expiry now) _ _ _ _ (refl, Same-delete_key now key d d' s) (refl, s))
      (refl, s)

persist_found-Alike :
    (now : ℤ) (key : Bytes) (o : Option RedisValue) (d d' : Db)
    → Same now d d'
    → Alike now (persist_found key o d) (persist_found key o d')
unfolding persist_found
persist_found-Alike now key none d d' s = (refl, s)
persist_found-Alike now key (some v) d d' s =
    Alike-both now v.has_expiry _ _ _ _ (refl, Same-store now key _ d d' s) (refl, s)

pub cmd_expire-Agrees : (now : ℤ) → Agrees now (cmd_expire now)
unfolding cmd_expire
cmd_expire-Agrees now (name ∷ key ∷ x ∷ []) db db' same =
    Alike-if now (is_integer x) _ _ _ _ _
      (Alike-then now _ _ (expire_found now key (parse_int x)) (Alike-get_value now key db db' same)
        (expire_found-Alike now key (parse_int x)))
      same
cmd_expire-Agrees now [] db db' same = (refl, same)
cmd_expire-Agrees now (name ∷ []) db db' same = (refl, same)
cmd_expire-Agrees now (name ∷ key ∷ []) db db' same = (refl, same)
cmd_expire-Agrees now (name ∷ key ∷ x ∷ y ∷ args) db db' same = (refl, same)

pub cmd_expireat-Agrees : (now : ℤ) → Agrees now (cmd_expireat now)
unfolding cmd_expireat
cmd_expireat-Agrees now (name ∷ key ∷ x ∷ []) db db' same =
    Alike-if now (is_integer x) _ _ _ _ _
      (Alike-then now _ _ (expireat_found now key (from_time_t (parse_int x)))
        (Alike-get_value now key db db' same)
        (expireat_found-Alike now key (from_time_t (parse_int x))))
      same
cmd_expireat-Agrees now [] db db' same = (refl, same)
cmd_expireat-Agrees now (name ∷ []) db db' same = (refl, same)
cmd_expireat-Agrees now (name ∷ key ∷ []) db db' same = (refl, same)
cmd_expireat-Agrees now (name ∷ key ∷ x ∷ y ∷ args) db db' same = (refl, same)

pub cmd_ttl-Agrees : (now : ℤ) → Agrees now (cmd_ttl now)
unfolding cmd_ttl
cmd_ttl-Agrees now (name ∷ key ∷ []) db db' same =
    Alike-then now _ _ (ttl_found now key) (Alike-get_value now key db db' same)
      (ttl_found-Alike now key)
cmd_ttl-Agrees now [] db db' same = (refl, same)
cmd_ttl-Agrees now (name ∷ []) db db' same = (refl, same)
cmd_ttl-Agrees now (name ∷ key ∷ x ∷ args) db db' same = (refl, same)

pub cmd_persist-Agrees : (now : ℤ) → Agrees now (cmd_persist now)
unfolding cmd_persist
cmd_persist-Agrees now (name ∷ key ∷ []) db db' same =
    Alike-then now _ _ (persist_found key) (Alike-get_value now key db db' same)
      (persist_found-Alike now key)
cmd_persist-Agrees now [] db db' same = (refl, same)
cmd_persist-Agrees now (name ∷ []) db db' same = (refl, same)
cmd_persist-Agrees now (name ∷ key ∷ x ∷ args) db db' same = (refl, same)
