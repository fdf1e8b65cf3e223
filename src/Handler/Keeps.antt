-- ===== src/Handler/Keeps.antt =====
-- Whatever commands reach the handler, the database stays well formed.
use cpp_redis.Prelude.{
  ℕ, ◌+◌, ◌%◌, ◌^◌, ◌==◌, ◌≡◌, refl, inl, inr, Option, none, some, List, [], ◌∷◌, Bytes, Bool-cases,
}
use cpp_redis.Prelude.Int.{ℤ}
use cpp_redis.Prelude.Assoc
use cpp_redis.Prelude.Assoc.{Each, Each-find}
use cpp_redis.Utils.{to_upper}
use cpp_redis.Database.{Db}
use cpp_redis.Database.Invariant.{IsValid, IsValid-nil, cleanup_expired_keys-IsValid}
use cpp_redis.Commands.Strings.Keeps.{string_commands-Keeps}
use cpp_redis.Commands.Lists.Keeps.{list_commands-Keeps}
use cpp_redis.Commands.Sets.Keeps.{set_commands-Keeps}
use cpp_redis.Commands.Hashes.Keeps.{hash_commands-Keeps}
use cpp_redis.Commands.Ttl.Keeps.{ttl_commands-Keeps}
use cpp_redis.Commands.Server.Keeps.{server_commands-Keeps, cmd_keys-IsValid}
use cpp_redis.Handler.{
  Env, CommandHandler, CommandFunc, commands, cleaned, run_command, process_command, new_handler,
  process_all,
}

-- A registered command keeps the database well formed, whether it returns or throws.
abbrev KeepsFunc : CommandFunc → Type 0
KeepsFunc cmd = (args : List Bytes) (db : Db) → IsValid db → IsValid (cmd args db).1

commands-Keeps :
    (env : Env) (start_time : ℤ) (total : ℕ) → Each KeepsFunc (commands env start_time total)
unfolding commands
commands-Keeps env start_time total =
    let (set, get, del, exists, type, incr, decr, incrby, decrby, strlen, append, mget, mset) =
      string_commands-Keeps env.now in
    let (lpush, rpush, lpop, rpop, llen, lrange, lindex, lset) = list_commands-Keeps env.now in
    let (sadd, srem, sismember, scard, smembers, spop) = set_commands-Keeps env.pick env.now in
    let (hset, hget, hdel, hexists, hlen, hkeys, hvals, hgetall) = hash_commands-Keeps env.now in
    let (expire, expireat, ttl, persist) = ttl_commands-Keeps env.now in
    let (ping, echo, info, flushall, dbsize, time) =
      server_commands-Keeps env.now start_time total in
    (
      set,
      (
        get,
        (
          del,
          (
            exists,
            (
              type,
              (
                incr,
                (
                  decr,
                  (
                    incrby,
                    (
                      decrby,
                      (
                        strlen,
                        (
                          append,
                          (
                            mget,
                            (
                              mset,
                              (
                                lpush,
                                (
                                  rpush,
                                  (
                                    lpop,
                                    (
                                      rpop,
                                      (
                                        llen,
                                        (
                                          lrange,
                                          (
                                            lindex,
                                            (
                                              lset,
                                              (
                                                sadd,
                                                (
                                                  srem,
                                                  (
                                                    sismember,
                                                    (
                                                      scard,
                                                      (
                                                        smembers,
                                                        (
                                                          spop,
                                                          (
                                                            hset,
                                                            (
                                                            hget,
                                                            (
                                                            hdel,
                                                            (
                                                            hexists,
                                                            (
                                                            hlen,
                                                            (
                                                            hkeys,
                                                            (
                                                            hvals,
                                                            (
                                                            hgetall,
                                                            (
                                                            expire,
                                                            (
                                                            expireat,
                                                            (
                                                            ttl,
                                                            (
                                                            persist,
                                                            (
                                                            ping,
                                                            (
                                                            echo,
                                                            (
                                                            info,
                                                            (
                                                            flushall,
                                                            (
                                                            cmd_keys-IsValid env.regex env.now,
                                                            (dbsize, (time, tt)),
                                                            ),
                                                            ),
                                                            ),
                                                            ),
                                                            ),
                                                            ),
                                                            ),
                                                            ),
                                                            ),
                                                            ),
                                                            ),
                                                            ),
                                                            ),
                                                            ),
                                                            ),
                                                            ),
                                                          ),
                                                        ),
                                                      ),
                                                    ),
                                                  ),
                                                ),
                                              ),
                                            ),
                                          ),
                                        ),
                                      ),
                                    ),
                                  ),
                                ),
                              ),
                            ),
                          ),
                        ),
                      ),
                    ),
                  ),
                ),
              ),
            ),
          ),
        ),
      ),
    )

cleaned-IsValid : (now : ℤ) (total : ℕ) (db : Db) → IsValid db → IsValid (cleaned now total db)
unfolding cleaned
cleaned-IsValid now total db h = elim (Bool-cases (total % 100 == 0)) [
  | inl now_clean ↦ rw now_clean (cleanup_expired_keys-IsValid now db h)
  | inr later ↦ rw later h
]

run_command-IsValid :
    (name : Bytes) (args : List Bytes) (cmd : Option CommandFunc) (db : Db)
    → ((c : CommandFunc) → cmd ≡ some c → KeepsFunc c)
    → IsValid db
    → IsValid (run_command name args cmd db).1
unfolding run_command
run_command-IsValid name args none db k h = h
run_command-IsValid name args (some cmd) db k h = k cmd refl (name ∷ args) db h

-- One command, of any name and with any arguments.
pub process_command-IsValid :
    (env : Env) (args : List Bytes) (h : CommandHandler)
    → IsValid h.db
    → IsValid (process_command env args h).1.db
unfolding process_command
process_command-IsValid env [] h v = v
process_command-IsValid env (name ∷ args) h v =
    let total = (h.total_commands_processed + 1) % 2 ^ 64 in
    let table = commands env h.start_time total in
    run_command-IsValid name args (Assoc.find (to_upper name) table) (cleaned env.now total h.db)
      (λ c found.
        Each-find KeepsFunc (to_upper name) table c (commands-Keeps env h.start_time total) found)
      (cleaned-IsValid env.now total h.db v)

process_all-IsValid :
    (requests : List (Env × List Bytes)) (h : CommandHandler)
    → IsValid h.db
    → IsValid (process_all requests h).1.db
unfolding process_all
process_all-IsValid [] h v = v
process_all-IsValid ((env, args) ∷ requests) h v =
    process_all-IsValid requests (process_command env args h).1
      (process_command-IsValid env args h v)

-- From the empty database, whatever commands come with whatever arguments, at whatever times and
-- with whatever random draws: no key stands twice, every value is a string, a list, a set or a hash,
-- no list, set or hash is empty, sets are strictly ordered and no field of a hash stands twice.
pub reachable-IsValid :
    (start_time : ℤ) (requests : List (Env × List Bytes))
    → IsValid (process_all requests (new_handler start_time)).1.db
unfolding new_handler
reachable-IsValid start_time requests = process_all-IsValid requests _ IsValid-nil
