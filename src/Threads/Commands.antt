-- ===== src/Threads/Commands.antt =====
-- Commands of redis/commands/string_commands.cpp, list_commands.cpp and ttl_commands.cpp that have one
-- key, as their accesses to the database in order; Readers.antt and Writers.antt hold more of them.
-- What a command reads of one element without a write between is one access.
use cpp_redis.Prelude.{
  ℕ, true, not, ◌||◌, Option, none, some, List, [], ◌∷◌, ◌++◌, Bytes, codes, length, is_empty,
  if◌then◌else◌,
}
use cpp_redis.Prelude.Int.{ℤ, pos, negsuc, ◌+ℤ◌, ◌-ℤ◌, div_trunc, le_ℤ, wrap_int64}
use cpp_redis.Number.{to_string}
use cpp_redis.Utils.{is_integer, parse_int}
use cpp_redis.Resp.Formatter.{format_simple_string, format_bulk_string, format_integer, format_null}
use cpp_redis.Database.{
  RedisType, RedisValue, of_type, of_string, type_eq, seconds, set_expiry, clear_expiry,
}
use cpp_redis.Commands.Errors.{wrong_arity, not_an_integer, wrong_kind}
use cpp_redis.Commands.Strings.{
  Current, current, refused, string_of, type_name, current_of, appended,
}
use cpp_redis.Commands.Lists.{pop_front, pop_back}
use cpp_redis.Commands.Ttl.{from_time_t}
use cpp_redis.Threads.{Code, reply, undefined, look_up, load, modify, assign, remove}

-- `getValue`, and then one code for a null pointer and one for the element.
unfoldable pub on_value : Code → (ℕ → RedisValue → Code) → Code
on_value missing found = look_up (λ p. elim p [ none ↦ missing | some q ↦ load q (found q) ])

unfoldable pub get_reply : Option Bytes → Bytes
get_reply none = format_null
get_reply (some s) = format_bulk_string s

unfoldable pub code_get : List Bytes → Code
code_get (name ∷ key ∷ []) =
    on_value (reply format_null) (λ p v. reply (get_reply (string_of (some v))))
code_get args = reply (wrong_arity (codes "get"))

unfoldable pub code_type : List Bytes → Code
code_type (name ∷ key ∷ []) =
    on_value (reply (format_simple_string (codes "none")))
      (λ p v. reply (format_simple_string (type_name v.type)))
code_type args = reply (wrong_arity (codes "type"))

-- The addition and the `setValue` of the four counting commands.
unfoldable pub count_on : (ℤ → ℤ) → Current → Code
count_on step (refused message) = reply message
count_on step (current n) =
    let result = wrap_int64 (step n) in
    assign (of_string (to_string result)) (reply (format_integer result))

unfoldable pub count_code : (ℤ → ℤ) → Code
count_code step =
    on_value (count_on step (current (pos 0))) (λ p v. count_on step (current_of (some v)))

unfoldable pub code_incr : List Bytes → Code
code_incr (name ∷ key ∷ []) = count_code (λ n. n +ℤ pos 1)
code_incr args = reply (wrong_arity (codes "incr"))

unfoldable pub code_decr : List Bytes → Code
code_decr (name ∷ key ∷ []) = count_code (λ n. n -ℤ pos 1)
code_decr args = reply (wrong_arity (codes "decr"))

unfoldable pub code_incr_by : List Bytes → Code
code_incr_by (name ∷ key ∷ increment ∷ []) =
    if is_integer increment
    then count_code (λ n. n +ℤ parse_int increment)
    else reply not_an_integer
code_incr_by args = reply (wrong_arity (codes "incrby"))

unfoldable pub code_decr_by : List Bytes → Code
code_decr_by (name ∷ key ∷ decrement ∷ []) =
    if is_integer decrement
    then count_code (λ n. n -ℤ parse_int decrement)
    else reply not_an_integer
code_decr_by args = reply (wrong_arity (codes "decrby"))

unfoldable pub append_on : Bytes → Code
append_on result = assign (of_string result) (reply (format_integer (pos (length result))))

unfoldable pub code_append : List Bytes → Code
code_append (name ∷ key ∷ append_value ∷ []) =
    on_value (append_on (appended none append_value))
      (λ p v. append_on (appended (some v) append_value))
code_append args = reply (wrong_arity (codes "append"))

-- The loop of LPUSH or RPUSH through the pointer, and the reading of the size behind it.
unfoldable pub push_each : (Bytes → List Bytes → List Bytes) → ℕ → List Bytes → Code
push_each push p [] = load p (λ v. reply (format_integer (pos (length v.list_value))))
push_each push p (x ∷ xs) =
    modify p (λ v. some (record v { list_value = push x v.list_value })) (push_each push p xs)

-- The second `getValue`, behind the `setValue` of an empty list, is not compared with null.
unfoldable pub push_code : (Bytes → List Bytes → List Bytes) → List Bytes → Code
push_code push xs =
    on_value
      (assign (of_type RedisType.list)
        (look_up (λ p. elim p [ none ↦ undefined | some q ↦ push_each push q xs ])))
      (λ p v. if type_eq v.type RedisType.list then push_each push p xs else reply wrong_kind)

unfoldable pub code_lpush : List Bytes → Code
code_lpush (name ∷ key ∷ x ∷ xs) = push_code (λ y list. y ∷ list) (x ∷ xs)
code_lpush args = reply (wrong_arity (codes "lpush"))

unfoldable pub code_rpush : List Bytes → Code
code_rpush (name ∷ key ∷ x ∷ xs) = push_code (λ y list. list ++ y ∷ []) (x ∷ xs)
code_rpush args = reply (wrong_arity (codes "rpush"))

-- `pop_front` or `pop_back` on the list of an element; on an empty list it is undefined.
unfoldable pub without_end :
    (List Bytes → Option (Bytes × List Bytes)) → RedisValue → Option RedisValue
without_end pop v = elim (pop v.list_value) [
  | none ↦ none
  | some (x, list) ↦ some (record v { list_value = list })
]

-- The removal of the end that has been read, and of a list that is empty behind it.
unfoldable pub pop_rest : (List Bytes → Option (Bytes × List Bytes)) → ℕ → Bytes → Code
pop_rest pop p result = modify p (without_end pop) (
    load p (λ v.
      if is_empty v.list_value
      then remove (λ gone. reply (format_bulk_string result))
      else reply (format_bulk_string result)))

unfoldable pub pop_code : (List Bytes → Option (Bytes × List Bytes)) → Code
pop_code pop = on_value (reply format_null) (λ p v.
    if not (type_eq v.type RedisType.list) || is_empty v.list_value
    then reply format_null
    else load p (λ w. elim (pop w.list_value) [
      | none ↦ undefined
      | some (result, list) ↦ pop_rest pop p result
    ]))

unfoldable pub code_lpop : List Bytes → Code
code_lpop (name ∷ key ∷ []) = pop_code pop_front
code_lpop args = reply (wrong_arity (codes "lpop"))

unfoldable pub code_rpop : List Bytes → Code
code_rpop (name ∷ key ∷ []) = pop_code pop_back
code_rpop args = reply (wrong_arity (codes "rpop"))

-- DEL of one key.
unfoldable pub code_del : List Bytes → Code
code_del (name ∷ key ∷ []) = remove (λ found. reply (format_integer (pos (if found then 1 else 0))))
code_del args = reply (wrong_arity (codes "del"))

unfoldable pub code_expire : ℤ → List Bytes → Code
code_expire now (name ∷ key ∷ n ∷ []) =
    if is_integer n
    then look_up (λ p. elim p [
      | none ↦ reply (format_integer (pos 0))
      | some q ↦
          if le_ℤ (parse_int n) (pos 0)
          then remove (λ gone. reply (format_integer (pos 1)))
          else modify q (λ v. some (set_expiry now (seconds (parse_int n)) v))
              (reply (format_integer (pos 1)))
    ])
    else reply not_an_integer
code_expire now args = reply (wrong_arity (codes "expire"))

unfoldable pub code_expireat : ℤ → List Bytes → Code
code_expireat now (name ∷ key ∷ timestamp ∷ []) =
    if is_integer timestamp
    then look_up (λ p. elim p [
      | none ↦ reply (format_integer (pos 0))
      | some q ↦
          if le_ℤ (from_time_t (parse_int timestamp)) now
          then remove (λ gone. reply (format_integer (pos 1)))
          else modify q
              (λ v.
                some (record v { expiry = from_time_t (parse_int timestamp); has_expiry = true }))
              (reply (format_integer (pos 1)))
    ])
    else reply not_an_integer
code_expireat now args = reply (wrong_arity (codes "expireat"))

unfoldable pub code_ttl : ℤ → List Bytes → Code
code_ttl now (name ∷ key ∷ []) = on_value (reply (format_integer (negsuc 1))) (λ p v.
    if v.has_expiry
    then (if le_ℤ v.expiry now
        then remove (λ gone. reply (format_integer (negsuc 1)))
        else reply (format_integer (div_trunc (wrap_int64 (v.expiry -ℤ now)) 1000000000)))
    else reply (format_integer (negsuc 0)))
code_ttl now args = reply (wrong_arity (codes "ttl"))

unfoldable pub code_persist : List Bytes → Code
code_persist (name ∷ key ∷ []) = on_value (reply (format_integer (pos 0))) (λ p v.
    if v.has_expiry
    then modify p (λ w. some (clear_expiry w)) (reply (format_integer (pos 1)))
    else reply (format_integer (pos 0)))
code_persist args = reply (wrong_arity (codes "persist"))
