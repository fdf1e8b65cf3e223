-- ===== src/Threads/Writers.antt =====
-- LSET of redis/commands/list_commands.cpp, SADD and SREM of set_commands.cpp and HSET and HDEL of
-- hash_commands.cpp, as their accesses. A call that searches a container and then changes it, as insert, erase and `[]` do, is a read
-- and a write.
use cpp_redis.Prelude.{
  ℕ, ◌+◌, Bool, Option, none, some, List, [], ◌∷◌, Bytes, codes, is_empty, length, ltb, set,
  if◌then◌else◌,
}
use cpp_redis.Prelude.Int.{pos}
use cpp_redis.Prelude.Assoc
use cpp_redis.Prelude.Ordered
use cpp_redis.Resp.Formatter.{format_integer, format_error, format_simple_string}
use cpp_redis.Database.{RedisType, RedisValue, of_type, type_eq}
use cpp_redis.Commands.Errors.{wrong_arity, not_an_integer, wrong_kind}
use cpp_redis.Commands.Strings.{pairs_of}
use cpp_redis.Commands.Lists.{position}
use cpp_redis.Utils.{is_integer, parse_int}
use cpp_redis.Threads.{Code, reply, undefined, look_up, load, modify, assign, remove}
use cpp_redis.Threads.Commands.{on_value}

-- A loop through the pointer with its count: `next` is the count behind an argument.
unfoldable pub count_each :
    {A : Type 0}
    → (A → RedisValue → ℕ → ℕ)
    → (A → RedisValue → RedisValue)
    → (ℕ → Code)
    → ℕ
    → ℕ
    → List A
    → Code
count_each next change end p n [] = end n
count_each next change end p n (x ∷ xs) =
    load p (λ v. modify p (λ w. some (change x w)) (count_each next change end p (next x v n) xs))

-- A value of a type is created where there is none; the second `getValue` is not compared with null.
unfoldable pub grow_code : RedisType → (ℕ → Code) → Code
grow_code t body =
    on_value (assign (of_type t) (look_up (λ p. elim p [ none ↦ undefined | some q ↦ body q ])))
      (λ p v. if type_eq v.type t then body p else reply wrong_kind)

abbrev pub count_reply : ℕ → Code
count_reply n = reply (format_integer (pos n))

-- The end of a removal: what is empty then is deleted with its key.
unfoldable pub tidy_code : (RedisValue → Bool) → ℕ → ℕ → Code
tidy_code is_left_empty p n =
    load p (λ v. if is_left_empty v then remove (λ gone. count_reply n) else count_reply n)

unfoldable pub shrink_code : RedisType → (ℕ → Code) → Code
shrink_code t body =
    on_value (count_reply 0) (λ p v. if type_eq v.type t then body p else count_reply 0)

abbrev pub with_set : RedisValue → List Bytes → RedisValue
with_set v set = record v { set_value = set }

abbrev pub with_hash : RedisValue → Assoc.Assoc Bytes → RedisValue
with_hash v hash = record v { hash_value = hash }

unfoldable pub code_sadd : List Bytes → Code
code_sadd (name ∷ key ∷ x ∷ xs) = grow_code RedisType.set (λ p.
    count_each (λ y v n. if Ordered.member y v.set_value then n else n + 1)
      (λ y v. with_set v (Ordered.insert y v.set_value)) count_reply p 0 (x ∷ xs))
code_sadd args = reply (wrong_arity (codes "sadd"))

unfoldable pub code_srem : List Bytes → Code
code_srem (name ∷ key ∷ x ∷ xs) = shrink_code RedisType.set (λ p.
    count_each (λ y v n. if Ordered.member y v.set_value then n + 1 else n)
      (λ y v. with_set v (Ordered.erase y v.set_value)) (tidy_code (λ v. is_empty v.set_value) p) p
      0 (x ∷ xs))
code_srem args = reply (wrong_arity (codes "srem"))

unfoldable pub hset_code : Option (List (Bytes × Bytes)) → Code
hset_code none = reply (wrong_arity (codes "hset"))
hset_code (some pairs) = grow_code RedisType.hash (λ p.
    count_each (λ y v n. if Assoc.contains y.0 v.hash_value then n else n + 1)
      (λ y v. with_hash v (Assoc.insert y.0 y.1 v.hash_value)) count_reply p 0 pairs)

unfoldable pub code_hset : List Bytes → Code
code_hset (name ∷ key ∷ field ∷ value ∷ rest) = hset_code (pairs_of (field ∷ value ∷ rest))
code_hset args = reply (wrong_arity (codes "hset"))

unfoldable pub code_hdel : List Bytes → Code
code_hdel (name ∷ key ∷ field ∷ fields) = shrink_code RedisType.hash (λ p.
    count_each (λ y v n. if Assoc.contains y v.hash_value then n + 1 else n)
      (λ y v. with_hash v (Assoc.erase y v.hash_value)) (tidy_code (λ v. is_empty v.hash_value) p) p
      0 (field ∷ fields))
code_hdel args = reply (wrong_arity (codes "hdel"))

-- The assignment to the element at a position; beyond the list it is undefined.
unfoldable pub assign_at : ℕ → Bytes → RedisValue → Option RedisValue
assign_at i x v =
    if ltb i (length v.list_value)
    then some (record v { list_value = set v.list_value i x })
    else none

unfoldable pub set_code : ℕ → Bytes → Option ℕ → Code
set_code p x none = reply (format_error (codes "ERR index out of range"))
set_code p x (some i) = modify p (assign_at i x) (reply (format_simple_string (codes "OK")))

unfoldable pub code_lset : List Bytes → Code
code_lset (name ∷ key ∷ index ∷ x ∷ []) =
    if is_integer index
    then on_value (reply (format_error (codes "ERR no such key"))) (λ p v.
      if type_eq v.type RedisType.list
      then load p (λ w. set_code p x (position (parse_int index) (length w.list_value)))
      else reply (format_error (codes "ERR no such key")))
    else reply not_an_integer
code_lset args = reply (wrong_arity (codes "lset"))
