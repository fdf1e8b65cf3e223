-- ===== src/Threads/Readers.antt =====
-- The commands that only read, as their accesses: STRLEN of string_commands.cpp, LLEN, LRANGE and
-- LINDEX of list_commands.cpp, and those of set_commands.cpp and hash_commands.cpp. Below
-- redis/commands/.
use cpp_redis.Prelude.{◌&&◌, List, [], ◌∷◌, Bytes, codes, length, if◌then◌else◌}
use cpp_redis.Prelude.Int.{pos}
use cpp_redis.Prelude.Assoc
use cpp_redis.Prelude.Assoc.{Assoc}
use cpp_redis.Prelude.Ordered
use cpp_redis.Utils.{is_integer, parse_int}
use cpp_redis.Resp.Formatter.{format_integer, format_array, format_null}
use cpp_redis.Database.{RedisType, RedisValue, type_eq}
use cpp_redis.Commands.Errors.{wrong_arity, not_an_integer}
use cpp_redis.Commands.Lists.{range, element_at}
use cpp_redis.Commands.Hashes.{keys_of, values_of, entries_of}
use cpp_redis.Threads.{Code, reply}
use cpp_redis.Threads.Commands.{on_value, get_reply}

-- A null pointer and an element of another type have the same reply.
unfoldable pub read_code : RedisType → Bytes → (RedisValue → Bytes) → Code
read_code t missing shown =
    on_value (reply missing) (λ p v. if type_eq v.type t then reply (shown v) else reply missing)

unfoldable pub code_strlen : List Bytes → Code
code_strlen (name ∷ key ∷ []) =
    read_code RedisType.string (format_integer (pos 0))
      (λ v. format_integer (pos (length v.string_value)))
code_strlen args = reply (wrong_arity (codes "strlen"))

unfoldable pub code_llen : List Bytes → Code
code_llen (name ∷ key ∷ []) =
    read_code RedisType.list (format_integer (pos 0))
      (λ v. format_integer (pos (length v.list_value)))
code_llen args = reply (wrong_arity (codes "llen"))

unfoldable pub code_lrange : List Bytes → Code
code_lrange (name ∷ key ∷ start ∷ end ∷ []) =
    if is_integer start && is_integer end
    then read_code RedisType.list (format_array [])
        (λ v. format_array (range (parse_int start) (parse_int end) v.list_value))
    else reply not_an_integer
code_lrange args = reply (wrong_arity (codes "lrange"))

unfoldable pub code_lindex : List Bytes → Code
code_lindex (name ∷ key ∷ index ∷ []) =
    if is_integer index
    then read_code RedisType.list format_null
        (λ v. get_reply (element_at (parse_int index) v.list_value))
    else reply not_an_integer
code_lindex args = reply (wrong_arity (codes "lindex"))

unfoldable pub code_sismember : List Bytes → Code
code_sismember (name ∷ key ∷ x ∷ []) =
    read_code RedisType.set (format_integer (pos 0))
      (λ v. format_integer (pos (if Ordered.member x v.set_value then 1 else 0)))
code_sismember args = reply (wrong_arity (codes "sismember"))

unfoldable pub code_scard : List Bytes → Code
code_scard (name ∷ key ∷ []) =
    read_code RedisType.set (format_integer (pos 0))
      (λ v. format_integer (pos (length v.set_value)))
code_scard args = reply (wrong_arity (codes "scard"))

unfoldable pub code_smembers : List Bytes → Code
code_smembers (name ∷ key ∷ []) =
    read_code RedisType.set (format_array []) (λ v. format_array v.set_value)
code_smembers args = reply (wrong_arity (codes "smembers"))

unfoldable pub code_hget : List Bytes → Code
code_hget (name ∷ key ∷ field ∷ []) =
    read_code RedisType.hash format_null (λ v. get_reply (Assoc.find field v.hash_value))
code_hget args = reply (wrong_arity (codes "hget"))

unfoldable pub code_hexists : List Bytes → Code
code_hexists (name ∷ key ∷ field ∷ []) =
    read_code RedisType.hash (format_integer (pos 0))
      (λ v. format_integer (pos (if Assoc.contains field v.hash_value then 1 else 0)))
code_hexists args = reply (wrong_arity (codes "hexists"))

unfoldable pub code_hlen : List Bytes → Code
code_hlen (name ∷ key ∷ []) =
    read_code RedisType.hash (format_integer (pos 0))
      (λ v. format_integer (pos (length v.hash_value)))
code_hlen args = reply (wrong_arity (codes "hlen"))

-- The three commands that list a hash.
unfoldable pub list_code : (Assoc Bytes → List Bytes) → Code
list_code listed =
    read_code RedisType.hash (format_array []) (λ v. format_array (listed v.hash_value))

unfoldable pub code_hkeys : List Bytes → Code
code_hkeys (name ∷ key ∷ []) = list_code keys_of
code_hkeys args = reply (wrong_arity (codes "hkeys"))

unfoldable pub code_hvals : List Bytes → Code
code_hvals (name ∷ key ∷ []) = list_code values_of
code_hvals args = reply (wrong_arity (codes "hvals"))

unfoldable pub code_hgetall : List Bytes → Code
code_hgetall (name ∷ key ∷ []) = list_code entries_of
code_hgetall args = reply (wrong_arity (codes "hgetall"))
