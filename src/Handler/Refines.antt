-- ===== src/Handler/Refines.antt =====
-- The handler answers requests with one key as the machine of Handler/Abstract.antt does.
use mathlib.Core.Path.{subst}
use cpp_redis.Prelude.{
  ℕ, ◌+◌, ◌%◌, ◌^◌, ◌≡◌, refl, ap, ◌∙◌, Option, some, List, ◌∷◌, Bytes, str_eq, if◌then◌else◌,
}
use cpp_redis.Prelude.Int.{ℤ}
use cpp_redis.Prelude.Assoc
use cpp_redis.Utils.{to_upper}
use cpp_redis.Database.{RedisValue, Db}
use cpp_redis.Database.Invariant.{IsValid}
use cpp_redis.Database.Same.{Same}
use cpp_redis.Database.View.{view}
use cpp_redis.Commands.Abstract.{Refines}
use cpp_redis.Commands.Strings.Refines.{
  cmd_set-Refines, cmd_get-Refines, cmd_type-Refines, cmd_incr-Refines, cmd_decr-Refines,
  cmd_strlen-Refines, cmd_incr_by-Refines, cmd_decr_by-Refines, cmd_append-Refines,
}
use cpp_redis.Commands.Lists.Refines.{
  cmd_lpush-Refines, cmd_rpush-Refines, cmd_lpop-Refines, cmd_rpop-Refines, cmd_llen-Refines,
  cmd_lrange-Refines, cmd_lset-Refines, cmd_lindex-Refines,
}
use cpp_redis.Commands.Sets.Refines.{
  cmd_sadd-Refines, cmd_srem-Refines, cmd_sismember-Refines, cmd_scard-Refines,
  cmd_smembers-Refines, cmd_spop-Refines,
}
use cpp_redis.Commands.Hashes.Refines.{
  cmd_hset-Refines, cmd_hget-Refines, cmd_hexists-Refines, cmd_hdel-Refines, cmd_hlen-Refines,
  cmd_hkeys-Refines, cmd_hvals-Refines, cmd_hgetall-Refines,
}
use cpp_redis.Commands.Ttl.Refines.{
  cmd_expire-Refines, cmd_expireat-Refines, cmd_ttl-Refines, cmd_persist-Refines,
}
use cpp_redis.Commands.Strings.{
  cmd_set, cmd_get, cmd_type, cmd_incr, cmd_decr, cmd_strlen, cmd_incr_by, cmd_decr_by, cmd_append,
}
use cpp_redis.Commands.Lists.{
  cmd_lpush, cmd_rpush, cmd_lpop, cmd_rpop, cmd_llen, cmd_lrange, cmd_lset, cmd_lindex,
}
use cpp_redis.Commands.Sets.{cmd_sadd, cmd_srem, cmd_sismember, cmd_scard, cmd_smembers, cmd_spop}
use cpp_redis.Commands.Hashes.{
  cmd_hset, cmd_hget, cmd_hexists, cmd_hdel, cmd_hlen, cmd_hkeys, cmd_hvals, cmd_hgetall,
}
use cpp_redis.Commands.Ttl.{cmd_expire, cmd_expireat, cmd_ttl, cmd_persist}
use cpp_redis.Handler.{
  Env, CommandHandler, quiet, commands, cleaned, reply_of, run_command, process_command,
}
use cpp_redis.Handler.Agrees.{Same-cleaned}
use cpp_redis.Handler.Abstract.{Request, command_name, words, meaning}

-- A command refines the same on a database that shows the same.
Refines-Same :
    (now : ℤ) (key : Bytes) (db db' : Db) (p : Bytes × Db)
    (q : Option RedisValue → Bytes × Option RedisValue)
    → Same now db' db
    → Refines now key db' p (q (view now db' key))
    → Refines now key db p (q (view now db key))
Refines-Same now key db db' p q same h =
    let here = subst (λ o. Refines now key db' p (q o)) (same key) h in
    (here.0, λ j. here.1 j ∙ ap (λ o. if str_eq key j then (q (view now db key)).1 else o) (same j))

module _ (env : Env) (name key : Bytes) (h : CommandHandler) (v : IsValid h.db) where
  abbrev pub Answers : Request → Type 0
  Answers r =
      to_upper name ≡ command_name r
      → Refines env.now key h.db
          (
            (process_command env (name ∷ key ∷ words r) h).0,
            (process_command env (name ∷ key ∷ words r) h).1.db,
          )
          (meaning env r (view env.now h.db key))

  -- A request whose command the table holds.
  process-found :
      (r : Request) (cmd : List Bytes → Db → Bytes × Db)
      → ((total : ℕ)
          → Assoc.find (command_name r) (commands env h.start_time total) ≡ some (quiet cmd))
      → ((db : Db)
          → Refines env.now key db
              (cmd (name ∷ key ∷ words r) db)
              (meaning env r (view env.now db key)))
      → Answers r
  unfolding process_command run_command reply_of
  process-found r cmd found ok named =
      let total = (h.total_commands_processed + 1) % 2 ^ 64 in
      rw (named, found total)
        (Refines-Same env.now key h.db (cleaned env.now total h.db) _ (meaning env r)
          (Same-cleaned env.now total h.db v) (ok (cleaned env.now total h.db)))

  -- One request of those, its name in any case: the reply is what the value under its key asks for,
  -- and behind it this key and the other keys show what the abstract command says.
  pub process_command-Answers : (r : Request) → Answers r
  unfolding commands Assoc.find str_eq
  process_command-Answers (Request.set value) =
      process-found (Request.set value) (cmd_set env.now) (λ total. refl)
        (λ db. cmd_set-Refines env.now name key db value)
  process_command-Answers Request.get =
      process-found Request.get (cmd_get env.now) (λ total. refl) (cmd_get-Refines env.now name key)
  process_command-Answers Request.type =
      process-found Request.type (cmd_type env.now) (λ total. refl)
        (cmd_type-Refines env.now name key)
  process_command-Answers Request.incr =
      process-found Request.incr (cmd_incr env.now) (λ total. refl)
        (cmd_incr-Refines env.now name key)
  process_command-Answers Request.decr =
      process-found Request.decr (cmd_decr env.now) (λ total. refl)
        (cmd_decr-Refines env.now name key)
  process_command-Answers Request.strlen =
      process-found Request.strlen (cmd_strlen env.now) (λ total. refl)
        (cmd_strlen-Refines env.now name key)
  process_command-Answers (Request.incr_by x) =
      process-found (Request.incr_by x) (cmd_incr_by env.now) (λ total. refl)
        (λ db. cmd_incr_by-Refines env.now name key db x)
  process_command-Answers (Request.decr_by x) =
      process-found (Request.decr_by x) (cmd_decr_by env.now) (λ total. refl)
        (λ db. cmd_decr_by-Refines env.now name key db x)
  process_command-Answers (Request.append x) =
      process-found (Request.append x) (cmd_append env.now) (λ total. refl)
        (λ db. cmd_append-Refines env.now name key db x)
  process_command-Answers (Request.lpush x xs) =
      process-found (Request.lpush x xs) (cmd_lpush env.now) (λ total. refl)
        (λ db. cmd_lpush-Refines env.now name key db x xs)
  process_command-Answers (Request.rpush x xs) =
      process-found (Request.rpush x xs) (cmd_rpush env.now) (λ total. refl)
        (λ db. cmd_rpush-Refines env.now name key db x xs)
  process_command-Answers Request.lpop =
      process-found Request.lpop (cmd_lpop env.now) (λ total. refl)
        (cmd_lpop-Refines env.now name key)
  process_command-Answers Request.rpop =
      process-found Request.rpop (cmd_rpop env.now) (λ total. refl)
        (cmd_rpop-Refines env.now name key)
  process_command-Answers Request.llen =
      process-found Request.llen (cmd_llen env.now) (λ total. refl)
        (cmd_llen-Refines env.now name key)
  process_command-Answers (Request.lrange start end) =
      process-found (Request.lrange start end) (cmd_lrange env.now) (λ total. refl)
        (λ db. cmd_lrange-Refines env.now name key db start end)
  process_command-Answers (Request.lset index x) =
      process-found (Request.lset index x) (cmd_lset env.now) (λ total. refl)
        (λ db. cmd_lset-Refines env.now name key db index x)
  process_command-Answers (Request.lindex index) =
      process-found (Request.lindex index) (cmd_lindex env.now) (λ total. refl)
        (λ db. cmd_lindex-Refines env.now name key db index)
  process_command-Answers (Request.sadd x xs) =
      process-found (Request.sadd x xs) (cmd_sadd env.now) (λ total. refl)
        (λ db. cmd_sadd-Refines env.now name key db x xs)
  process_command-Answers (Request.srem x xs) =
      process-found (Request.srem x xs) (cmd_srem env.now) (λ total. refl)
        (λ db. cmd_srem-Refines env.now name key db x xs)
  process_command-Answers (Request.sismember x) =
      process-found (Request.sismember x) (cmd_sismember env.now) (λ total. refl)
        (λ db. cmd_sismember-Refines env.now name key db x)
  process_command-Answers Request.scard =
      process-found Request.scard (cmd_scard env.now) (λ total. refl)
        (cmd_scard-Refines env.now name key)
  process_command-Answers Request.smembers =
      process-found Request.smembers (cmd_smembers env.now) (λ total. refl)
        (cmd_smembers-Refines env.now name key)
  process_command-Answers Request.spop =
      process-found Request.spop (cmd_spop env.pick env.now) (λ total. refl)
        (λ db. cmd_spop-Refines env.now name key db env.pick)
  process_command-Answers (Request.hset field value rest) =
      process-found (Request.hset field value rest) (cmd_hset env.now) (λ total. refl)
        (λ db. cmd_hset-Refines env.now name key db field value rest)
  process_command-Answers (Request.hget field) =
      process-found (Request.hget field) (cmd_hget env.now) (λ total. refl)
        (λ db. cmd_hget-Refines env.now name key db field)
  process_command-Answers (Request.hexists field) =
      process-found (Request.hexists field) (cmd_hexists env.now) (λ total. refl)
        (λ db. cmd_hexists-Refines env.now name key db field)
  process_command-Answers (Request.hdel field fields) =
      process-found (Request.hdel field fields) (cmd_hdel env.now) (λ total. refl)
        (λ db. cmd_hdel-Refines env.now name key db field fields)
  process_command-Answers Request.hlen =
      process-found Request.hlen (cmd_hlen env.now) (λ total. refl)
        (cmd_hlen-Refines env.now name key)
  process_command-Answers Request.hkeys =
      process-found Request.hkeys (cmd_hkeys env.now) (λ total. refl)
        (cmd_hkeys-Refines env.now name key)
  process_command-Answers Request.hvals =
      process-found Request.hvals (cmd_hvals env.now) (λ total. refl)
        (cmd_hvals-Refines env.now name key)
  process_command-Answers Request.hgetall =
      process-found Request.hgetall (cmd_hgetall env.now) (λ total. refl)
        (cmd_hgetall-Refines env.now name key)
  process_command-Answers (Request.expire n) =
      process-found (Request.expire n) (cmd_expire env.now) (λ total. refl)
        (λ db. cmd_expire-Refines env.now name key db n)
  process_command-Answers (Request.expireat n) =
      process-found (Request.expireat n) (cmd_expireat env.now) (λ total. refl)
        (λ db. cmd_expireat-Refines env.now name key db n)
  process_command-Answers Request.ttl =
      process-found Request.ttl (cmd_ttl env.now) (λ total. refl) (cmd_ttl-Refines env.now name key)
  process_command-Answers Request.persist =
      process-found Request.persist (cmd_persist env.now) (λ total. refl)
        (cmd_persist-Refines env.now name key)
