-- ===== src/Commands/Server.antt =====
-- redis/commands/server_commands.cpp
pub mod Keeps
pub mod Agrees
use cpp_redis.Prelude.{ℕ, inl, inr, List, [], ◌∷◌, ◌++◌, Bytes, codes}
use cpp_redis.Prelude.Int.{ℤ, pos, ◌-ℤ◌, div_trunc, rem_trunc, wrap_int64}
use cpp_redis.Number.{to_string, decimal}
use cpp_redis.Resp.Formatter.{
  format_simple_string, format_bulk_string, format_integer, format_array,
}
use cpp_redis.Database.{
  Db, Regex, clear_database, get_database_size, cleanup_expired_keys, get_matching_keys,
}
use cpp_redis.Commands.Errors.{wrong_arity}

-- A command either returns a reply or throws an exception with a message.
pub data Outcome : Type 0 where
  returned : Bytes → Outcome
  thrown : Bytes → Outcome

unfoldable pub cmd_ping : List Bytes → Db → Bytes × Db
cmd_ping (name ∷ message ∷ []) db = (format_bulk_string message, db)
cmd_ping (name ∷ message ∷ more ∷ args) db = (wrong_arity (codes "ping"), db)
cmd_ping args db = (format_simple_string (codes "PONG"), db)

unfoldable pub cmd_echo : List Bytes → Db → Bytes × Db
cmd_echo (name ∷ message ∷ []) db = (format_bulk_string message, db)
cmd_echo args db = (wrong_arity (codes "echo"), db)

unfoldable pub info_text : ℤ → ℕ → ℕ → Bytes
info_text uptime total_commands_processed keys =
    codes "# Server\r\n"
    ++ (codes "redis_version:7.0.0\r\n"
        ++ (codes "uptime_in_seconds:"
            ++ (to_string uptime
                ++ (codes "\r\n\r\n# Stats\r\ntotal_commands_processed:"
                    ++ (decimal total_commands_processed
                        ++ (codes "\r\n\r\n# Keyspace\r\ndb0:keys="
                            ++ (decimal keys ++ codes "\r\n")))))))

unfoldable pub cmd_info : ℤ → ℤ → ℕ → List Bytes → Db → Bytes × Db
cmd_info now start_time total_commands_processed args db =
    let uptime = div_trunc (wrap_int64 (now -ℤ start_time)) 1000000000 in
    (format_bulk_string (info_text uptime total_commands_processed (get_database_size db)), db)

unfoldable pub cmd_flushall : List Bytes → Db → Bytes × Db
cmd_flushall (name ∷ option ∷ more ∷ args) db = (wrong_arity (codes "flushall"), db)
cmd_flushall args db = (format_simple_string (codes "OK"), clear_database db)

unfoldable pub cmd_keys : (Bytes → Regex) → ℤ → List Bytes → Db → Outcome × Db
cmd_keys regex now (name ∷ pattern ∷ []) db = elim (get_matching_keys regex now pattern db) [
  | inl message ↦ (thrown message, db)
  | inr keys ↦ (returned (format_array keys), db)
]
cmd_keys regex now args db = (returned (wrong_arity (codes "keys")), db)

unfoldable pub cmd_dbsize : ℤ → List Bytes → Db → Bytes × Db
cmd_dbsize now (name ∷ []) db =
    let db' = cleanup_expired_keys now db in (format_integer (pos (get_database_size db')), db')
cmd_dbsize now args db = (wrong_arity (codes "dbsize"), db)

unfoldable pub cmd_time : ℤ → List Bytes → Db → Bytes × Db
cmd_time now (name ∷ []) db =
    let microseconds = rem_trunc (div_trunc now 1000) 1000000 in
    (format_array (to_string (div_trunc now 1000000000) ∷ to_string microseconds ∷ []), db)
cmd_time now args db = (wrong_arity (codes "time"), db)
