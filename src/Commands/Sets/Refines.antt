-- ===== src/Commands/Sets/Refines.antt =====
-- The commands on sets as abstract commands on what their key shows.
use mathlib.Core.Path.{subst}
use cpp_redis.Prelude.{
  ℕ, ◌-◌, ◌≡◌, refl, Option, none, some, List, [], ◌∷◌, Bytes, arith, length, is_empty, get_elem?,
  remove_at, if◌then◌else◌,
}
use cpp_redis.Prelude.Int.{ℤ, pos}
use cpp_redis.Prelude.Ordered
use cpp_redis.Resp.Formatter.{format_bulk_string, format_integer, format_array, format_null}
use cpp_redis.Database.{RedisType, RedisValue, Db, typed, is_expired}
use cpp_redis.Database.View.{view}
use cpp_redis.Commands.Abstract.{
  stored, reads, grows, Taken, shrinks, Refines, Refines-reads, Refines-grows, Refines-shrinks,
}
use cpp_redis.Commands.Sets.{
  add_members, add_opened, cmd_sadd, store_set, remove_members, remove_found, cmd_srem,
  cmd_sismember, cmd_scard, cmd_smembers, picked, pick_found, cmd_spop,
}

abbrev pub with_set : List Bytes → RedisValue → RedisValue
with_set set v = record v { set_value = set }

abbrev pub adds : List Bytes → Option RedisValue → Bytes × Option RedisValue
adds xs =
    grows RedisType.set (λ v. format_integer (pos (add_members xs 0 v.set_value).0))
      (λ v. with_set (add_members xs 0 v.set_value).1 v)

-- A set that is left, and the reply.
abbrev pub left_set : RedisValue → Bytes → List Bytes → Option Taken
left_set v reply set =
    some (record { reply = reply; rest = with_set set v; is_last = is_empty set })

abbrev pub removes : List Bytes → Option RedisValue → Bytes × Option RedisValue
removes xs = shrinks RedisType.set (format_integer (pos 0)) (λ v.
    left_set v (format_integer (pos (remove_members xs 0 v.set_value).0))
      (remove_members xs 0 v.set_value).1)

-- The member at a position goes.
abbrev pub drawn : RedisValue → ℕ → Option Bytes → Option Taken
drawn v i none = none
drawn v i (some x) = left_set v (format_bulk_string x) (remove_at i v.set_value)

abbrev pub draws : (ℕ → ℕ) → Option RedisValue → Bytes × Option RedisValue
draws pick = shrinks RedisType.set format_null (λ v.
    drawn v (pick (length v.set_value - 1)) (get_elem? v.set_value (pick (length v.set_value - 1))))

left_set-lives :
    (now : ℤ) (v : RedisValue) (reply : Bytes) (set : List Bytes) (x : Taken)
    → left_set v reply set ≡ some x
    → is_expired now x.rest ≡ is_expired now v
unfolding is_expired
left_set-lives now v reply set x e =
    let left : Taken = record { reply = reply; rest = with_set set v; is_last = is_empty set } in
    let same : left ≡ x = cc in
    subst (λ (z : Taken). is_expired now z.rest ≡ is_expired now v) same refl

drawn-lives :
    (now : ℤ) (v : RedisValue) (i : ℕ) (o : Option Bytes) (x : Taken)
    → drawn v i o ≡ some x
    → is_expired now x.rest ≡ is_expired now v
drawn-lives now v i none x e = cc
drawn-lives now v i (some y) x e = left_set-lives now v (format_bulk_string y) _ x e

module _ (now : ℤ) (name key : Bytes) (db : Db) where
  pub cmd_sadd-Refines :
      (x : Bytes) (xs : List Bytes)
      → Refines now key db (cmd_sadd now (name ∷ key ∷ x ∷ xs) db) (adds (x ∷ xs) (view now db key))
  unfolding cmd_sadd add_opened is_expired
  cmd_sadd-Refines x xs =
      Refines-grows now key db RedisType.set
        (λ v. format_integer (pos (add_members (x ∷ xs) 0 v.set_value).0))
        (λ v. with_set (add_members (x ∷ xs) 0 v.set_value).1 v) (add_opened key (x ∷ xs))
        (λ d. refl) (λ v d. refl) (λ v. refl)

  pub cmd_srem-Refines :
      (x : Bytes) (xs : List Bytes)
      → Refines now key db
          (cmd_srem now (name ∷ key ∷ x ∷ xs) db)
          (removes (x ∷ xs) (view now db key))
  unfolding cmd_srem remove_found store_set
  cmd_srem-Refines x xs =
      Refines-shrinks now key db RedisType.set (format_integer (pos 0))
        (λ v.
          left_set v (format_integer (pos (remove_members (x ∷ xs) 0 v.set_value).0))
            (remove_members (x ∷ xs) 0 v.set_value).1)
        (remove_found key (x ∷ xs)) (λ d. refl) (λ v d. refl)
        (λ v y e. left_set-lives now v _ _ y e)

  pub cmd_sismember-Refines :
      (x : Bytes)
      → Refines now key db (cmd_sismember now (name ∷ key ∷ x ∷ []) db) (
          reads RedisType.set
            (format_integer (pos 0))
            (λ v. format_integer (pos (if Ordered.member x v.set_value then 1 else 0)))
            (view now db key))
  unfolding cmd_sismember
  cmd_sismember-Refines x =
      Refines-reads now key db RedisType.set _ _
        (λ o d. elim (typed RedisType.set o) [
          | none ↦ (format_integer (pos 0), d)
          | some v ↦ (format_integer (pos (if Ordered.member x v.set_value then 1 else 0)), d)
        ])
        (λ o d. ground arith)

  pub cmd_scard-Refines : Refines now key db (cmd_scard now (name ∷ key ∷ []) db) (
      reads RedisType.set
        (format_integer (pos 0))
        (λ v. format_integer (pos (length v.set_value)))
        (view now db key))
  unfolding cmd_scard
  cmd_scard-Refines =
      Refines-reads now key db RedisType.set _ _
        (λ o d. elim (typed RedisType.set o) [
          | none ↦ (format_integer (pos 0), d)
          | some v ↦ (format_integer (pos (length v.set_value)), d)
        ])
        (λ o d. ground arith)

  pub cmd_smembers-Refines :
      Refines now key db
        (cmd_smembers now (name ∷ key ∷ []) db)
        (reads RedisType.set (format_array []) (λ v. format_array v.set_value) (view now db key))
  unfolding cmd_smembers
  cmd_smembers-Refines =
      Refines-reads now key db RedisType.set _ _
        (λ o d. elim (typed RedisType.set o) [
          | none ↦ (format_array [], d)
          | some v ↦ (format_array v.set_value, d)
        ])
        (λ o d. ground arith)

  picked-stored :
      (v : RedisValue) (i : ℕ) (o : Option Bytes) (d : Db)
      → picked key v i o d
        ≡ elim (drawn v i o) [ none ↦ (format_null, d) | some x ↦ (x.reply, stored now key db x d) ]
  unfolding picked store_set
  picked-stored v i none d = refl
  picked-stored v i (some x) d = refl

  pub cmd_spop-Refines :
      (pick : ℕ → ℕ)
      → Refines now key db (cmd_spop pick now (name ∷ key ∷ []) db) (draws pick (view now db key))
  unfolding cmd_spop pick_found
  cmd_spop-Refines pick =
      Refines-shrinks now key db RedisType.set format_null
        (λ v.
          drawn v (pick (length v.set_value - 1))
            (get_elem? v.set_value (pick (length v.set_value - 1))))
        (pick_found pick key) (λ d. refl) (λ v d. picked-stored v _ _ d)
        (λ v x e. drawn-lives now v _ _ x e)
