-- ===== src/Commands/Sets/Agrees.antt =====
-- The commands on sets reply alike on databases that show the same.
use cpp_redis.Prelude.{
  ℕ, refl, Option, none, some, List, [], ◌∷◌, Bytes, length, remove_at, if◌then◌else◌,
}
use cpp_redis.Prelude.Int.{ℤ, pos}
use cpp_redis.Prelude.Ordered
use cpp_redis.Resp.Formatter.{format_integer, format_array}
use cpp_redis.Database.{RedisType, RedisValue, Db, typed}
use cpp_redis.Database.Same.{
  Same, Alike, Agrees, Same-store, Same-delete_key, Alike-get_value, Alike-then, Alike-read,
  open_value-Alike,
}
use cpp_redis.Commands.Sets.{
  add_opened, cmd_sadd, store_set, remove_members, remove_found, cmd_srem, cmd_sismember, cmd_scard,
  cmd_smembers, picked, pick_found, cmd_spop,
}

store_set-Same :
    (now : ℤ) (key : Bytes) (v : RedisValue) (set : List Bytes) (d d' : Db)
    → Same now d d'
    → Same now (store_set key v set d) (store_set key v set d')
unfolding store_set
store_set-Same now key v [] d d' s = Same-delete_key now key _ _ (Same-store now key _ d d' s)
store_set-Same now key v (x ∷ set) d d' s = Same-store now key _ d d' s

remove_found-Alike :
    (now : ℤ) (key : Bytes) (members : List Bytes) (o : Option RedisValue) (d d' : Db)
    → Same now d d'
    → Alike now (remove_found key members o d) (remove_found key members o d')
unfolding remove_found
remove_found-Alike now key members none d d' s = (refl, s)
remove_found-Alike now key members (some v) d d' s =
    (refl, store_set-Same now key v (remove_members members 0 v.set_value).1 d d' s)

picked-Alike :
    (now : ℤ) (key : Bytes) (v : RedisValue) (i : ℕ) (o : Option Bytes) (d d' : Db)
    → Same now d d'
    → Alike now (picked key v i o d) (picked key v i o d')
unfolding picked
picked-Alike now key v i none d d' s = (refl, s)
picked-Alike now key v i (some result) d d' s =
    (refl, store_set-Same now key v (remove_at i v.set_value) d d' s)

pick_found-Alike :
    (now : ℤ) (pick : ℕ → ℕ) (key : Bytes) (o : Option RedisValue) (d d' : Db)
    → Same now d d'
    → Alike now (pick_found pick key o d) (pick_found pick key o d')
unfolding pick_found
pick_found-Alike now pick key none d d' s = (refl, s)
pick_found-Alike now pick key (some v) d d' s = picked-Alike now key v _ _ d d' s

pub cmd_sadd-Agrees : (now : ℤ) → Agrees now (cmd_sadd now)
unfolding cmd_sadd add_opened
cmd_sadd-Agrees now (name ∷ key ∷ x ∷ xs) db db' same =
    open_value-Alike now RedisType.set key (add_opened key (x ∷ xs)) db db'
      (λ v d d' s. (refl, Same-store now key _ d d' s)) (λ d d' s. (refl, s)) same
cmd_sadd-Agrees now [] db db' same = (refl, same)
cmd_sadd-Agrees now (name ∷ []) db db' same = (refl, same)
cmd_sadd-Agrees now (name ∷ key ∷ []) db db' same = (refl, same)

pub cmd_srem-Agrees : (now : ℤ) → Agrees now (cmd_srem now)
unfolding cmd_srem
cmd_srem-Agrees now (name ∷ key ∷ x ∷ xs) db db' same =
    Alike-then now _ _ (λ o. remove_found key (x ∷ xs) (typed RedisType.set o))
      (Alike-get_value now key db db' same)
      (λ o. remove_found-Alike now key (x ∷ xs) (typed RedisType.set o))
cmd_srem-Agrees now [] db db' same = (refl, same)
cmd_srem-Agrees now (name ∷ []) db db' same = (refl, same)
cmd_srem-Agrees now (name ∷ key ∷ []) db db' same = (refl, same)

pub cmd_sismember-Agrees : (now : ℤ) → Agrees now (cmd_sismember now)
unfolding cmd_sismember
cmd_sismember-Agrees now (name ∷ key ∷ x ∷ []) db db' same =
    Alike-then now _ _
      (λ o d. elim (typed RedisType.set o) [
        | none ↦ (format_integer (pos 0), d)
        | some v ↦ (format_integer (pos (if Ordered.member x v.set_value then 1 else 0)), d)
      ])
      (Alike-get_value now key db db' same) (λ o. Alike-read now (typed RedisType.set o) _ _)
cmd_sismember-Agrees now [] db db' same = (refl, same)
cmd_sismember-Agrees now (name ∷ []) db db' same = (refl, same)
cmd_sismember-Agrees now (name ∷ key ∷ []) db db' same = (refl, same)
cmd_sismember-Agrees now (name ∷ key ∷ x ∷ y ∷ args) db db' same = (refl, same)

pub cmd_scard-Agrees : (now : ℤ) → Agrees now (cmd_scard now)
unfolding cmd_scard
cmd_scard-Agrees now (name ∷ key ∷ []) db db' same =
    Alike-then now _ _
      (λ o d. elim (typed RedisType.set o) [
        | none ↦ (format_integer (pos 0), d)
        | some v ↦ (format_integer (pos (length v.set_value)), d)
      ])
      (Alike-get_value now key db db' same) (λ o. Alike-read now (typed RedisType.set o) _ _)
cmd_scard-Agrees now [] db db' same = (refl, same)
cmd_scard-Agrees now (name ∷ []) db db' same = (refl, same)
cmd_scard-Agrees now (name ∷ key ∷ x ∷ args) db db' same = (refl, same)

pub cmd_smembers-Agrees : (now : ℤ) → Agrees now (cmd_smembers now)
unfolding cmd_smembers
cmd_smembers-Agrees now (name ∷ key ∷ []) db db' same =
    Alike-then now _ _
      (λ o d. elim (typed RedisType.set o) [
        | none ↦ (format_array [], d)
        | some v ↦ (format_array v.set_value, d)
      ])
      (Alike-get_value now key db db' same) (λ o. Alike-read now (typed RedisType.set o) _ _)
cmd_smembers-Agrees now [] db db' same = (refl, same)
cmd_smembers-Agrees now (name ∷ []) db db' same = (refl, same)
cmd_smembers-Agrees now (name ∷ key ∷ x ∷ args) db db' same = (refl, same)

pub cmd_spop-Agrees : (pick : ℕ → ℕ) (now : ℤ) → Agrees now (cmd_spop pick now)
unfolding cmd_spop
cmd_spop-Agrees pick now (name ∷ key ∷ []) db db' same =
    Alike-then now _ _ (λ o. pick_found pick key (typed RedisType.set o))
      (Alike-get_value now key db db' same)
      (λ o. pick_found-Alike now pick key (typed RedisType.set o))
cmd_spop-Agrees pick now [] db db' same = (refl, same)
cmd_spop-Agrees pick now (name ∷ []) db db' same = (refl, same)
cmd_spop-Agrees pick now (name ∷ key ∷ x ∷ args) db db' same = (refl, same)
