-- ===== src/Commands/Ttl.antt =====
-- redis/commands/ttl_commands.cpp
pub mod Keeps
pub mod Expiry
pub mod Agrees
pub mod Refines
use cpp_redis.Prelude.{Option, true, none, some, List, [], ◌∷◌, Bytes, codes, if◌then◌else◌}
use cpp_redis.Prelude.Int.{ℤ, pos, negsuc, ◌-ℤ◌, scale, div_trunc, le_ℤ, wrap_int64}
use cpp_redis.Utils.{is_integer, parse_int}
use cpp_redis.Resp.Formatter.{format_integer}
use cpp_redis.Database.{
  RedisValue, Db, seconds, set_expiry, clear_expiry, get_value, store, delete_key,
}
use cpp_redis.Commands.Errors.{wrong_arity, not_an_integer}

-- system_clock::from_time_t
unfoldable pub from_time_t : ℤ → ℤ
from_time_t n = wrap_int64 (scale 1000000000 n)

unfoldable pub expire_found : ℤ → Bytes → ℤ → Option RedisValue → Db → Bytes × Db
expire_found now key n none db = (format_integer (pos 0), db)
expire_found now key n (some v) db =
    if le_ℤ n (pos 0)
    then (format_integer (pos 1), (delete_key key db).1)
    else (format_integer (pos 1), store key (set_expiry now (seconds n) v) db)

unfoldable pub cmd_expire : ℤ → List Bytes → Db → Bytes × Db
cmd_expire now (name ∷ key ∷ n ∷ []) db =
    let (value, db') = get_value now key db in
    if is_integer n then expire_found now key (parse_int n) value db' else (not_an_integer, db)
cmd_expire now args db = (wrong_arity (codes "expire"), db)

unfoldable pub expireat_found : ℤ → Bytes → ℤ → Option RedisValue → Db → Bytes × Db
expireat_found now key expiry_time none db = (format_integer (pos 0), db)
expireat_found now key expiry_time (some v) db =
    if le_ℤ expiry_time now then (format_integer (pos 1), (delete_key key db).1) else (
      format_integer (pos 1),
      store key (record v { expiry = expiry_time; has_expiry = true }) db,
    )

unfoldable pub cmd_expireat : ℤ → List Bytes → Db → Bytes × Db
cmd_expireat now (name ∷ key ∷ timestamp ∷ []) db =
    let (value, db') = get_value now key db in
    if is_integer timestamp
    then expireat_found now key (from_time_t (parse_int timestamp)) value db'
    else (not_an_integer, db)
cmd_expireat now args db = (wrong_arity (codes "expireat"), db)

unfoldable pub ttl_found : ℤ → Bytes → Option RedisValue → Db → Bytes × Db
ttl_found now key none db = (format_integer (negsuc 1), db)
ttl_found now key (some v) db =
    if v.has_expiry
    then (if le_ℤ v.expiry now
        then (format_integer (negsuc 1), (delete_key key db).1)
        else (format_integer (div_trunc (wrap_int64 (v.expiry -ℤ now)) 1000000000), db))
    else (format_integer (negsuc 0), db)

unfoldable pub cmd_ttl : ℤ → List Bytes → Db → Bytes × Db
cmd_ttl now (name ∷ key ∷ []) db =
    let (value, db') = get_value now key db in ttl_found now key value db'
cmd_ttl now args db = (wrong_arity (codes "ttl"), db)

unfoldable pub persist_found : Bytes → Option RedisValue → Db → Bytes × Db
persist_found key none db = (format_integer (pos 0), db)
persist_found key (some v) db =
    if v.has_expiry
    then (format_integer (pos 1), store key (clear_expiry v) db)
    else (format_integer (pos 0), db)

unfoldable pub cmd_persist : ℤ → List Bytes → Db → Bytes × Db
cmd_persist now (name ∷ key ∷ []) db =
    let (value, db') = get_value now key db in persist_found key value db'
cmd_persist now args db = (wrong_arity (codes "persist"), db)
