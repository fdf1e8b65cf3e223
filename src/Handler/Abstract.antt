-- ===== src/Handler/Abstract.antt =====
-- The requests with one key, what each of them means for the value that its key shows, and a machine
-- on what all keys show: no table of commands, no stored entries and no clean-up.
use mathlib.Core.List.{reverse}
use cpp_redis.Prelude.{
  Option, List, [], ◌∷◌, ◌++◌, ◌&&◌, Bytes, codes, length, if◌then◌else◌, str_eq, true,
}
use cpp_redis.Prelude.Int.{pos, ◌+ℤ◌, ◌-ℤ◌, le_ℤ}
use cpp_redis.Prelude.Assoc
use cpp_redis.Prelude.Ordered
use cpp_redis.Utils.{is_integer, parse_int}
use cpp_redis.Resp.Formatter.{format_integer, format_array, format_null}
use cpp_redis.Database.{RedisType, RedisValue, seconds, set_expiry}
use cpp_redis.Database.View.{live}
use cpp_redis.Commands.Abstract.{reads, if_integers}
use cpp_redis.Commands.Strings.{pairs_of}
use cpp_redis.Commands.Strings.Refines.{gets, puts, names_type, measures, appends, counts}
use cpp_redis.Commands.Lists.{range, element_at}
use cpp_redis.Commands.Lists.Moves.{pushes, uncons, unsnoc, pops}
use cpp_redis.Commands.Lists.Refines.{element_reply, sets_at}
use cpp_redis.Commands.Sets.Refines.{adds, removes, draws}
use cpp_redis.Commands.Hashes.{keys_of, values_of, entries_of}
use cpp_redis.Commands.Hashes.Refines.{sets_fields, deletes, field_reply, lists}
use cpp_redis.Commands.Ttl.{from_time_t}
use cpp_redis.Commands.Ttl.Refines.{expires, times, persists}
use cpp_redis.Handler.{Env}

-- A command with one key, with the words that follow the key.
pub data Request : Type 0 where
  set : Bytes → Request
  get type incr decr strlen : Request
  incr_by decr_by append : Bytes → Request
  lpush rpush : Bytes → List Bytes → Request
  lpop rpop llen : Request
  lrange lset : Bytes → Bytes → Request
  lindex : Bytes → Request
  sadd srem : Bytes → List Bytes → Request
  sismember : Bytes → Request
  scard smembers spop : Request
  hset : Bytes → Bytes → List Bytes → Request
  hget hexists : Bytes → Request
  hdel : Bytes → List Bytes → Request
  hlen hkeys hvals hgetall : Request
  expire expireat : Bytes → Request
  ttl persist : Request

-- The name and the words, as a client writes them.
abbrev pub command_name : Request → Bytes
command_name (Request.set value) = codes "SET"
command_name Request.get = codes "GET"
command_name Request.type = codes "TYPE"
command_name Request.incr = codes "INCR"
command_name Request.decr = codes "DECR"
command_name Request.strlen = codes "STRLEN"
command_name (Request.incr_by x) = codes "INCRBY"
command_name (Request.decr_by x) = codes "DECRBY"
command_name (Request.append x) = codes "APPEND"
command_name (Request.lpush x xs) = codes "LPUSH"
command_name (Request.rpush x xs) = codes "RPUSH"
command_name Request.lpop = codes "LPOP"
command_name Request.rpop = codes "RPOP"
command_name Request.llen = codes "LLEN"
command_name (Request.lrange start end) = codes "LRANGE"
command_name (Request.lset index x) = codes "LSET"
command_name (Request.lindex index) = codes "LINDEX"
command_name (Request.sadd x xs) = codes "SADD"
command_name (Request.srem x xs) = codes "SREM"
command_name (Request.sismember x) = codes "SISMEMBER"
command_name Request.scard = codes "SCARD"
command_name Request.smembers = codes "SMEMBERS"
command_name Request.spop = codes "SPOP"
command_name (Request.hset field value rest) = codes "HSET"
command_name (Request.hget field) = codes "HGET"
command_name (Request.hexists field) = codes "HEXISTS"
command_name (Request.hdel field fields) = codes "HDEL"
command_name Request.hlen = codes "HLEN"
command_name Request.hkeys = codes "HKEYS"
command_name Request.hvals = codes "HVALS"
command_name Request.hgetall = codes "HGETALL"
command_name (Request.expire n) = codes "EXPIRE"
command_name (Request.expireat n) = codes "EXPIREAT"
command_name Request.ttl = codes "TTL"
command_name Request.persist = codes "PERSIST"

abbrev pub words : Request → List Bytes
words (Request.set value) = value ∷ []
words (Request.incr_by x) = x ∷ []
words (Request.decr_by x) = x ∷ []
words (Request.append x) = x ∷ []
words (Request.lpush x xs) = x ∷ xs
words (Request.rpush x xs) = x ∷ xs
words (Request.lrange start end) = start ∷ end ∷ []
words (Request.lset index x) = index ∷ x ∷ []
words (Request.lindex index) = index ∷ []
words (Request.sadd x xs) = x ∷ xs
words (Request.srem x xs) = x ∷ xs
words (Request.sismember x) = x ∷ []
words (Request.hset field value rest) = field ∷ value ∷ rest
words (Request.hget field) = field ∷ []
words (Request.hexists field) = field ∷ []
words (Request.hdel field fields) = field ∷ fields
words (Request.expire n) = n ∷ []
words (Request.expireat n) = n ∷ []
words r = []

-- The reply, and what the key shows after it.
abbrev pub meaning : Env → Request → Option RedisValue → Bytes × Option RedisValue
meaning env (Request.set value) = puts value
meaning env Request.get = gets
meaning env Request.type = names_type
meaning env Request.incr = counts (λ n. n +ℤ pos 1)
meaning env Request.decr = counts (λ n. n -ℤ pos 1)
meaning env Request.strlen = measures
meaning env (Request.incr_by x) = if_integers (is_integer x) (counts (λ n. n +ℤ parse_int x))
meaning env (Request.decr_by x) = if_integers (is_integer x) (counts (λ n. n -ℤ parse_int x))
meaning env (Request.append x) = appends x
meaning env (Request.lpush x xs) = pushes (λ l. reverse (x ∷ xs) ++ l)
meaning env (Request.rpush x xs) = pushes (λ l. l ++ x ∷ xs)
meaning env Request.lpop = pops uncons
meaning env Request.rpop = pops unsnoc
meaning env Request.llen =
    reads RedisType.list (format_integer (pos 0)) (λ v. format_integer (pos (length v.list_value)))
meaning env (Request.lrange start end) = if_integers (is_integer start && is_integer end) (
    reads RedisType.list (format_array [])
      (λ v. format_array (range (parse_int start) (parse_int end) v.list_value)))
meaning env (Request.lset index x) = if_integers (is_integer index) (sets_at (parse_int index) x)
meaning env (Request.lindex index) = if_integers (is_integer index) (
    reads RedisType.list format_null
      (λ v. element_reply (element_at (parse_int index) v.list_value)))
meaning env (Request.sadd x xs) = adds (x ∷ xs)
meaning env (Request.srem x xs) = removes (x ∷ xs)
meaning env (Request.sismember x) =
    reads RedisType.set (format_integer (pos 0))
      (λ v. format_integer (pos (if Ordered.member x v.set_value then 1 else 0)))
meaning env Request.scard =
    reads RedisType.set (format_integer (pos 0)) (λ v. format_integer (pos (length v.set_value)))
meaning env Request.smembers = reads RedisType.set (format_array []) (λ v. format_array v.set_value)
meaning env Request.spop = draws env.pick
meaning env (Request.hset field value rest) = sets_fields (pairs_of (field ∷ value ∷ rest))
meaning env (Request.hget field) =
    reads RedisType.hash format_null (λ v. field_reply (Assoc.find field v.hash_value))
meaning env (Request.hexists field) =
    reads RedisType.hash (format_integer (pos 0))
      (λ v. format_integer (pos (if Assoc.contains field v.hash_value then 1 else 0)))
meaning env (Request.hdel field fields) = deletes (field ∷ fields)
meaning env Request.hlen =
    reads RedisType.hash (format_integer (pos 0)) (λ v. format_integer (pos (length v.hash_value)))
meaning env Request.hkeys = lists keys_of
meaning env Request.hvals = lists values_of
meaning env Request.hgetall = lists entries_of
meaning env (Request.expire n) =
    if_integers (is_integer n)
      (expires env.now (le_ℤ (parse_int n) (pos 0)) (set_expiry env.now (seconds (parse_int n))))
meaning env (Request.expireat n) = if_integers (is_integer n) (
    expires env.now (le_ℤ (from_time_t (parse_int n)) env.now)
      (λ v. record v { expiry = from_time_t (parse_int n); has_expiry = true }))
meaning env Request.ttl = times env.now
meaning env Request.persist = persists

-- A request on its way: the environment it meets, its name in any case, its key and its words.
pub record Call : Type 0 where
  pub env : Env
  pub name : Bytes
  pub key : Bytes
  pub request : Request

abbrev pub sent : Call → Env × List Bytes
sent c = (c.env, c.name ∷ c.key ∷ words c.request)

-- The machine: what each key shows at the time of the last request.
abbrev pub Shown : Type 0
Shown = Bytes → Option RedisValue

abbrev pub answer : Call → Shown → Bytes × Option RedisValue
answer c shown = meaning c.env c.request (live c.env.now (shown c.key))

abbrev pub after_call : Call → Shown → Shown
after_call c shown j = if str_eq c.key j then (answer c shown).1 else live c.env.now (shown j)

unfoldable pub answers : List Call → Shown → List Bytes
answers [] shown = []
answers (c ∷ calls) shown = (answer c shown).0 ∷ answers calls (after_call c shown)
