-- ===== src/Threads/Alone/Whole.antt =====
-- The commands together.
use cpp_redis.Prelude.{◌≡◌, List, [], ◌∷◌, Bytes}
use cpp_redis.Prelude.Int.{ℤ}
use cpp_redis.Prelude.Assoc
use cpp_redis.Database.{Db}
use cpp_redis.Commands.Strings.{
  cmd_get, cmd_type, cmd_incr, cmd_decr, cmd_incr_by, cmd_decr_by, cmd_append, cmd_del,
}
use cpp_redis.Commands.Lists.{cmd_lpush, cmd_rpush, cmd_lpop, cmd_rpop}
use cpp_redis.Commands.Ttl.{cmd_expire, cmd_expireat, cmd_ttl, cmd_persist}
use cpp_redis.Threads.{Cell}
use cpp_redis.Threads.Commands.{
  code_get, code_type, code_incr, code_decr, code_incr_by, code_decr_by, code_append, code_lpush,
  code_rpush, code_lpop, code_rpop, code_del, code_expire, code_expireat, code_ttl, code_persist,
}
use cpp_redis.Threads.Rules.{Ends}
use cpp_redis.Commands.Lists.{cmd_lset}
use cpp_redis.Commands.Sets.{cmd_sadd, cmd_srem}
use cpp_redis.Commands.Hashes.{cmd_hset, cmd_hdel}
use cpp_redis.Threads.Writers.{code_lset, code_sadd, code_srem, code_hset, code_hdel}
use cpp_redis.Threads.Alone.Positions.{cmd_lset-Alone}
use cpp_redis.Threads.Alone.Writers.{cmd_sadd-Alone, cmd_srem-Alone, cmd_hset-Alone, cmd_hdel-Alone}
use cpp_redis.Commands.Strings.{cmd_strlen}
use cpp_redis.Commands.Lists.{cmd_llen, cmd_lrange, cmd_lindex}
use cpp_redis.Commands.Sets.{cmd_sismember, cmd_scard, cmd_smembers}
use cpp_redis.Commands.Hashes.{cmd_hget, cmd_hexists, cmd_hlen, cmd_hkeys, cmd_hvals, cmd_hgetall}
use cpp_redis.Threads.Readers.{
  code_strlen, code_llen, code_lrange, code_lindex, code_sismember, code_scard, code_smembers,
  code_hget, code_hexists, code_hlen, code_hkeys, code_hvals, code_hgetall,
}
use cpp_redis.Threads.Alone.Readers.{
  cmd_strlen-Alone, cmd_llen-Alone, cmd_lrange-Alone, cmd_lindex-Alone, cmd_sismember-Alone,
  cmd_scard-Alone, cmd_smembers-Alone, cmd_hget-Alone, cmd_hexists-Alone, cmd_hlen-Alone,
  cmd_hkeys-Alone, cmd_hvals-Alone, cmd_hgetall-Alone,
}
use cpp_redis.Threads.Alone.Strings.{
  cmd_get-Alone, cmd_type-Alone, cmd_incr-Alone, cmd_decr-Alone, cmd_incr_by-Alone,
  cmd_decr_by-Alone, cmd_append-Alone, cmd_del-Alone,
}
use cpp_redis.Threads.Alone.Lists.{cmd_lpush-Alone, cmd_rpush-Alone, cmd_lpop-Alone, cmd_rpop-Alone}
use cpp_redis.Threads.Alone.Ttl.{
  cmd_expire-Alone, cmd_expireat-Alone, cmd_ttl-Alone, cmd_persist-Alone,
}

-- The accesses of each command give its reply and its database.
abbrev pub AsOneStep : ℤ → Bytes → Bytes → List Bytes → Db → Cell → Type 0
AsOneStep now name key rest db c =
    let args = name ∷ key ∷ rest in
    Ends now key db (code_get args) c (cmd_get now args db)
    × Ends now key db (code_type args) c (cmd_type now args db)
    × Ends now key db (code_incr args) c (cmd_incr now args db)
    × Ends now key db (code_decr args) c (cmd_decr now args db)
    × Ends now key db (code_incr_by args) c (cmd_incr_by now args db)
    × Ends now key db (code_decr_by args) c (cmd_decr_by now args db)
    × Ends now key db (code_append args) c (cmd_append now args db)
    × Ends now key db (code_lpush args) c (cmd_lpush now args db)
    × Ends now key db (code_rpush args) c (cmd_rpush now args db)
    × Ends now key db (code_lpop args) c (cmd_lpop now args db)
    × Ends now key db (code_rpop args) c (cmd_rpop now args db)
    × Ends now key db (code_expire now args) c (cmd_expire now args db)
    × Ends now key db (code_expireat now args) c (cmd_expireat now args db)
    × Ends now key db (code_ttl now args) c (cmd_ttl now args db)
    × Ends now key db (code_persist args) c (cmd_persist now args db)
    × Ends now key db (code_del (name ∷ key ∷ [])) c (cmd_del now (name ∷ key ∷ []) db)

-- The same of the commands that only read.
abbrev pub ReadAsOneStep : ℤ → Bytes → Bytes → List Bytes → Db → Cell → Type 0
ReadAsOneStep now name key rest db c =
    let args = name ∷ key ∷ rest in
    Ends now key db (code_strlen args) c (cmd_strlen now args db)
    × Ends now key db (code_llen args) c (cmd_llen now args db)
    × Ends now key db (code_lrange args) c (cmd_lrange now args db)
    × Ends now key db (code_lindex args) c (cmd_lindex now args db)
    × Ends now key db (code_sismember args) c (cmd_sismember now args db)
    × Ends now key db (code_scard args) c (cmd_scard now args db)
    × Ends now key db (code_smembers args) c (cmd_smembers now args db)
    × Ends now key db (code_hget args) c (cmd_hget now args db)
    × Ends now key db (code_hexists args) c (cmd_hexists now args db)
    × Ends now key db (code_hlen args) c (cmd_hlen now args db)
    × Ends now key db (code_hkeys args) c (cmd_hkeys now args db)
    × Ends now key db (code_hvals args) c (cmd_hvals now args db)
    × Ends now key db (code_hgetall args) c (cmd_hgetall now args db)

-- The same of LSET and of the commands that change sets and hashes.
abbrev pub ChangeAsOneStep : ℤ → Bytes → Bytes → List Bytes → Db → Cell → Type 0
ChangeAsOneStep now name key rest db c =
    let args = name ∷ key ∷ rest in
    Ends now key db (code_lset args) c (cmd_lset now args db)
    × Ends now key db (code_sadd args) c (cmd_sadd now args db)
    × Ends now key db (code_srem args) c (cmd_srem now args db)
    × Ends now key db (code_hset args) c (cmd_hset now args db)
    × Ends now key db (code_hdel args) c (cmd_hdel now args db)

writes_alone :
    (now : ℤ) (name key : Bytes) (rest : List Bytes) (db : Db) (c : Cell)
    → c.value ≡ Assoc.find key db
    → AsOneStep now name key rest db c
writes_alone now name key rest db c h = (
  cmd_get-Alone now name key rest db c h,
  cmd_type-Alone now name key rest db c h,
  cmd_incr-Alone now name key rest db c h,
  cmd_decr-Alone now name key rest db c h,
  cmd_incr_by-Alone now name key rest db c h,
  cmd_decr_by-Alone now name key rest db c h,
  cmd_append-Alone now name key rest db c h,
  cmd_lpush-Alone now name key rest db c h,
  cmd_rpush-Alone now name key rest db c h,
  cmd_lpop-Alone now name key rest db c h,
  cmd_rpop-Alone now name key rest db c h,
  cmd_expire-Alone now name key rest db c h,
  cmd_expireat-Alone now name key rest db c h,
  cmd_ttl-Alone now name key rest db c h,
  cmd_persist-Alone now name key rest db c h,
  cmd_del-Alone now name key db c h,
)

reads_alone :
    (now : ℤ) (name key : Bytes) (rest : List Bytes) (db : Db) (c : Cell)
    → c.value ≡ Assoc.find key db
    → ReadAsOneStep now name key rest db c
reads_alone now name key rest db c h = (
  cmd_strlen-Alone now name key rest db c h,
  cmd_llen-Alone now name key rest db c h,
  cmd_lrange-Alone now name key rest db c h,
  cmd_lindex-Alone now name key rest db c h,
  cmd_sismember-Alone now name key rest db c h,
  cmd_scard-Alone now name key rest db c h,
  cmd_smembers-Alone now name key rest db c h,
  cmd_hget-Alone now name key rest db c h,
  cmd_hexists-Alone now name key rest db c h,
  cmd_hlen-Alone now name key rest db c h,
  cmd_hkeys-Alone now name key rest db c h,
  cmd_hvals-Alone now name key rest db c h,
  cmd_hgetall-Alone now name key rest db c h,
)

changes_alone :
    (now : ℤ) (name key : Bytes) (rest : List Bytes) (db : Db) (c : Cell)
    → c.value ≡ Assoc.find key db
    → ChangeAsOneStep now name key rest db c
changes_alone now name key rest db c h = (
  cmd_lset-Alone now name key rest db c h,
  cmd_sadd-Alone now name key rest db c h,
  cmd_srem-Alone now name key rest db c h,
  cmd_hset-Alone now name key rest db c h,
  cmd_hdel-Alone now name key rest db c h,
)

-- Each of the commands GET, TYPE, STRLEN, INCR, DECR, INCRBY, DECRBY, APPEND, LPUSH, RPUSH, LPOP, RPOP,
-- LLEN, LRANGE, LINDEX, LSET, SADD, SREM, SISMEMBER, SCARD, SMEMBERS, HSET, HGET, HDEL, HEXISTS, HLEN,
-- HKEYS, HVALS, HGETALL, EXPIRE, EXPIREAT, TTL and PERSIST with a key and any further arguments, and DEL
-- of one key, runs access by access with no other thread between: no access is undefined behaviour,
-- and the reply and the database behind it are those of the command as one step.
pub commands_alone :
    (now : ℤ) (name key : Bytes) (rest : List Bytes) (db : Db) (c : Cell)
    → c.value ≡ Assoc.find key db
    → AsOneStep now name key rest db c
      × ReadAsOneStep now name key rest db c
      × ChangeAsOneStep now name key rest db c
commands_alone now name key rest db c h = (
  writes_alone now name key rest db c h,
  reads_alone now name key rest db c h,
  changes_alone now name key rest db c h,
)
