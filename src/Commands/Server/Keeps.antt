-- ===== src/Commands/Server/Keeps.antt =====
-- The server commands keep the database well formed.
use cpp_redis.Prelude.{ℕ, List, [], ◌∷◌, Bytes, arith}
use cpp_redis.Prelude.Int.{ℤ}
use cpp_redis.Database.{Db, Regex, clear_database}
use cpp_redis.Database.Invariant.{IsValid, IsValid-nil, Keeps, cleanup_expired_keys-IsValid}
use cpp_redis.Commands.Server.{
  cmd_ping, cmd_echo, cmd_info, cmd_flushall, cmd_keys, cmd_dbsize, cmd_time,
}

cmd_ping-Keeps : Keeps cmd_ping
unfolding cmd_ping
cmd_ping-Keeps [] db h = h
cmd_ping-Keeps (name ∷ message ∷ []) db h = h
cmd_ping-Keeps _ db h = h

cmd_echo-Keeps : Keeps cmd_echo
unfolding cmd_echo
cmd_echo-Keeps [] db h = h
cmd_echo-Keeps (name ∷ message ∷ []) db h = h
cmd_echo-Keeps _ db h = h

cmd_info-Keeps : (now start_time : ℤ) (total : ℕ) → Keeps (cmd_info now start_time total)
unfolding cmd_info
cmd_info-Keeps now start_time total args db h = h

cmd_flushall-Keeps : Keeps cmd_flushall
unfolding cmd_flushall clear_database
cmd_flushall-Keeps [] db h = IsValid-nil
cmd_flushall-Keeps (name ∷ []) db h = IsValid-nil
cmd_flushall-Keeps (name ∷ option ∷ []) db h = IsValid-nil
cmd_flushall-Keeps (name ∷ option ∷ more ∷ args) db h = h

pub cmd_keys-IsValid :
    (regex : Bytes → Regex) (now : ℤ) (args : List Bytes) (db : Db)
    → IsValid db
    → IsValid (cmd_keys regex now args db).1
unfolding cmd_keys
cmd_keys-IsValid regex now [] db h = h
cmd_keys-IsValid regex now (name ∷ pattern ∷ []) db h = ground (arith, h)
cmd_keys-IsValid regex now _ db h = h

cmd_dbsize-Keeps : (now : ℤ) → Keeps (cmd_dbsize now)
unfolding cmd_dbsize
cmd_dbsize-Keeps now [] db h = h
cmd_dbsize-Keeps now (name ∷ []) db h = cleanup_expired_keys-IsValid now db h
cmd_dbsize-Keeps now _ db h = h

cmd_time-Keeps : (now : ℤ) → Keeps (cmd_time now)
unfolding cmd_time
cmd_time-Keeps now [] db h = h
cmd_time-Keeps now (name ∷ []) db h = h
cmd_time-Keeps now _ db h = h

-- PING, ECHO, INFO, FLUSHALL, DBSIZE and TIME.
pub server_commands-Keeps :
    (now start_time : ℤ) (total : ℕ)
    → Keeps cmd_ping
      × Keeps cmd_echo
      × Keeps (cmd_info now start_time total)
      × Keeps cmd_flushall
      × Keeps (cmd_dbsize now)
      × Keeps (cmd_time now)
server_commands-Keeps now start_time total = (
  cmd_ping-Keeps,
  cmd_echo-Keeps,
  cmd_info-Keeps now start_time total,
  cmd_flushall-Keeps,
  cmd_dbsize-Keeps now,
  cmd_time-Keeps now,
)
