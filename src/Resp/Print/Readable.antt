-- ===== src/Resp/Print/Readable.antt =====
-- Every value that was parsed can be read as arguments and printed.
use cpp_redis.Prelude.{ℕ, ◌+◌, ◌≡◌, refl, Option, some, List, ◌++◌, ◌>>=◌, Bytes, >>=-eq-some}
use cpp_redis.Resp.Value.{
  RespType, RespValue, RespData, RespItems, resp, text, number, vector, nullopt, nil, cons,
}
use cpp_redis.Resp.Parser.{parse, to_string_vector, array_strings, element_strings}
use cpp_redis.Resp.Print.{print_value, print_array, print_items}
use cpp_redis.Client.Progress.{parse_readable}

-- A printer returns a text.
abbrev pub Prints : Option Bytes → Type 0
Prints o = (shown : Bytes) × (o ≡ some shown)

Prints-then : (o : Option Bytes) (f : Bytes → Bytes) → Prints o → Prints (o >>= λ x. some (f x))
Prints-then o f (shown, e) = (f shown, rw e refl)

Prints-both :
    (o o' : Option Bytes)
    → Prints o
    → Prints o'
    → Prints (o >>= λ here. o' >>= λ more. some (here ++ more))
Prints-both o o' (here, e) (more, e') = (here ++ more, rw (e, e') refl)

mutual
  unfolding to_string_vector print_value

  value-Prints :
      (indent : ℕ) (v : RespValue) (args : List Bytes)
      → to_string_vector v ≡ some args
      → Prints (print_value indent v)
  value-Prints indent (resp RespType.simple_string d) args h = (_, refl)
  value-Prints indent (resp RespType.error d) args h = (_, refl)
  value-Prints indent (resp RespType.integer d) args h = (_, refl)
  value-Prints indent (resp RespType.bulk_string d) args h = (_, refl)
  value-Prints indent (resp RespType.array d) args h = array-Prints indent d args h
  value-Prints indent (resp RespType.null_value d) args h = (_, refl)

  array-Prints :
      (indent : ℕ) (d : RespData) (args : List Bytes)
      → array_strings d ≡ some args
      → Prints (print_array indent d)
  array-Prints indent (text s) args h = absurd cc
  array-Prints indent (number n) args h = absurd cc
  array-Prints indent nullopt args h = absurd cc
  array-Prints indent (vector items) args h =
      Prints-then (print_items (indent + 1) items) _ (items-Prints (indent + 1) items args h)

  items-Prints :
      (indent : ℕ) (items : RespItems) (args : List Bytes)
      → element_strings items ≡ some args
      → Prints (print_items indent items)
  items-Prints indent nil args h = (_, refl)
  items-Prints indent (cons element items) args h =
      let (here, first, rest) = >>=-eq-some (to_string_vector element) _ h in
      let (more, others, last) = >>=-eq-some (element_strings items) _ rest in
      Prints-both (print_value indent element) (print_items indent items)
        (value-Prints indent element here first) (items-Prints indent items more others)

-- On a value that `parse` returns, `getArray` throws neither in toStringVector nor in printValue, at
-- any depth and with any indentation.
pub parse_printable :
    (s : Bytes) (v : RespValue) (n indent : ℕ)
    → parse s ≡ some (v, n)
    → ((args : List Bytes) × (to_string_vector v ≡ some args)) × Prints (print_value indent v)
parse_printable s v n indent h =
    let (args, readable) = parse_readable s v n h in
    ((args, readable), value-Prints indent v args readable)
