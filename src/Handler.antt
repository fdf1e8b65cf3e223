-- ===== src/Handler.antt =====
-- redis/command_handler.h and redis/command_handler.cpp
pub mod Abstract
pub mod Agrees
pub mod Answers
pub mod Keeps
pub mod Kinds
pub mod Refines
use cpp_redis.Prelude.{
  Option, ℕ, ◌+◌, ◌%◌, ◌^◌, none, some, List, [], ◌∷◌, ◌++◌, Bytes, codes, ◌==◌, if◌then◌else◌,
}
use cpp_redis.Prelude.Int.{ℤ}
use cpp_redis.Prelude.Assoc
use cpp_redis.Prelude.Assoc.{Assoc}
use cpp_redis.Utils.{to_upper}
use cpp_redis.Resp.Formatter.{format_error}
use cpp_redis.Database.{Db, Regex, cleanup_expired_keys}
use cpp_redis.Commands.Strings.{
  cmd_set, cmd_get, cmd_del, cmd_exists, cmd_type, cmd_incr, cmd_decr, cmd_incr_by, cmd_decr_by,
  cmd_strlen, cmd_append, cmd_mget, cmd_mset,
}
use cpp_redis.Commands.Lists.{
  cmd_lpush, cmd_rpush, cmd_lpop, cmd_rpop, cmd_llen, cmd_lrange, cmd_lindex, cmd_lset,
}
use cpp_redis.Commands.Sets.{cmd_sadd, cmd_srem, cmd_sismember, cmd_scard, cmd_smembers, cmd_spop}
use cpp_redis.Commands.Hashes.{
  cmd_hset, cmd_hget, cmd_hdel, cmd_hexists, cmd_hlen, cmd_hkeys, cmd_hvals, cmd_hgetall,
}
use cpp_redis.Commands.Ttl.{cmd_expire, cmd_expireat, cmd_ttl, cmd_persist}
use cpp_redis.Commands.Server.{
  Outcome, returned, thrown, cmd_ping, cmd_echo, cmd_info, cmd_flushall, cmd_keys, cmd_dbsize,
  cmd_time,
}

-- What the environment gives to one command: the clock, the random draw and `std::regex`.
pub record Env : Type 0 where
  pub now : ℤ
  pub pick : ℕ → ℕ
  pub regex : Bytes → Regex

pub record CommandHandler : Type 0 where
  pub db : Db
  pub start_time : ℤ
  pub total_commands_processed : ℕ

abbrev pub CommandFunc : Type 0
CommandFunc = List Bytes → Db → Outcome × Db

-- A command that throws nothing.
abbrev pub quiet : (List Bytes → Db → Bytes × Db) → CommandFunc
quiet cmd args db = let (reply, db') = cmd args db in (returned reply, db')

-- initializeCommands
unfoldable pub commands : Env → ℤ → ℕ → Assoc CommandFunc
commands env start_time total =
    (codes "SET", quiet (cmd_set env.now))
    ∷ (codes "GET", quiet (cmd_get env.now))
    ∷ (codes "DEL", quiet (cmd_del env.now))
    ∷ (codes "EXISTS", quiet (cmd_exists env.now))
    ∷ (codes "TYPE", quiet (cmd_type env.now))
    ∷ (codes "INCR", quiet (cmd_incr env.now))
    ∷ (codes "DECR", quiet (cmd_decr env.now))
    ∷ (codes "INCRBY", quiet (cmd_incr_by env.now))
    ∷ (codes "DECRBY", quiet (cmd_decr_by env.now))
    ∷ (codes "STRLEN", quiet (cmd_strlen env.now))
    ∷ (codes "APPEND", quiet (cmd_append env.now))
    ∷ (codes "MGET", quiet (cmd_mget env.now))
    ∷ (codes "MSET", quiet (cmd_mset env.now))
    ∷ (codes "LPUSH", quiet (cmd_lpush env.now))
    ∷ (codes "RPUSH", quiet (cmd_rpush env.now))
    ∷ (codes "LPOP", quiet (cmd_lpop env.now))
    ∷ (codes "RPOP", quiet (cmd_rpop env.now))
    ∷ (codes "LLEN", quiet (cmd_llen env.now))
    ∷ (codes "LRANGE", quiet (cmd_lrange env.now))
    ∷ (codes "LINDEX", quiet (cmd_lindex env.now))
    ∷ (codes "LSET", quiet (cmd_lset env.now))
    ∷ (codes "SADD", quiet (cmd_sadd env.now))
    ∷ (codes "SREM", quiet (cmd_srem env.now))
    ∷ (codes "SISMEMBER", quiet (cmd_sismember env.now))
    ∷ (codes "SCARD", quiet (cmd_scard env.now))
    ∷ (codes "SMEMBERS", quiet (cmd_smembers env.now))
    ∷ (codes "SPOP", quiet (cmd_spop env.pick env.now))
    ∷ (codes "HSET", quiet (cmd_hset env.now))
    ∷ (codes "HGET", quiet (cmd_hget env.now))
    ∷ (codes "HDEL", quiet (cmd_hdel env.now))
    ∷ (codes "HEXISTS", quiet (cmd_hexists env.now))
    ∷ (codes "HLEN", quiet (cmd_hlen env.now))
    ∷ (codes "HKEYS", quiet (cmd_hkeys env.now))
    ∷ (codes "HVALS", quiet (cmd_hvals env.now))
    ∷ (codes "HGETALL", quiet (cmd_hgetall env.now))
    ∷ (codes "EXPIRE", quiet (cmd_expire env.now))
    ∷ (codes "EXPIREAT", quiet (cmd_expireat env.now))
    ∷ (codes "TTL", quiet (cmd_ttl env.now))
    ∷ (codes "PERSIST", quiet (cmd_persist env.now))
    ∷ (codes "PING", quiet cmd_ping)
    ∷ (codes "ECHO", quiet cmd_echo)
    ∷ (codes "INFO", quiet (cmd_info env.now start_time total))
    ∷ (codes "FLUSHALL", quiet cmd_flushall)
    ∷ (codes "KEYS", cmd_keys env.regex env.now)
    ∷ (codes "DBSIZE", quiet (cmd_dbsize env.now))
    ∷ (codes "TIME", quiet (cmd_time env.now))
    ∷ []

-- `catch (const std::exception& e)`
unfoldable pub reply_of : Outcome → Bytes
reply_of (returned reply) = reply
reply_of (thrown message) = format_error (codes "ERR " ++ message)

unfoldable pub unknown_command : Bytes → Bytes
unknown_command name = format_error (codes "ERR unknown command '" ++ (name ++ codes "'"))

-- The database that a command meets: every hundredth finds it without expired keys.
unfoldable pub cleaned : ℤ → ℕ → Db → Db
cleaned now total db = if total % 100 == 0 then cleanup_expired_keys now db else db

-- The call of the command that was found, and the reply to its exception.
unfoldable pub run_command : Bytes → List Bytes → Option CommandFunc → Db → Bytes × Db
run_command name args none db = (unknown_command name, db)
run_command name args (some cmd) db =
    let (outcome, db') = cmd (name ∷ args) db in (reply_of outcome, db')

unfoldable pub process_command : Env → List Bytes → CommandHandler → Bytes × CommandHandler
process_command env [] h = (format_error (codes "ERR empty command"), h)
process_command env (name ∷ args) h =
    let total = (h.total_commands_processed + 1) % 2 ^ 64 in
    let cmd = Assoc.find (to_upper name) (commands env h.start_time total) in
    let (reply, db) = run_command name args cmd (cleaned env.now total h.db) in
    (reply, record h { db = db; total_commands_processed = total })

-- CommandHandler()
unfoldable pub new_handler : ℤ → CommandHandler
new_handler start_time = record { db = []; start_time = start_time; total_commands_processed = 0 }

-- The commands that reach the handler, one after another, each with its environment.
unfoldable pub process_all : List (Env × List Bytes) → CommandHandler → List Bytes × CommandHandler
process_all [] h = ([], h)
process_all ((env, args) ∷ requests) h =
    let (reply, h') = process_command env args h in
    let (replies, h'') = process_all requests h' in (reply ∷ replies, h'')
