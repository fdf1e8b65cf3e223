-- ===== src/Resp/Print.antt =====
-- resp/resp_parser.cpp: what printValue writes to the console.
pub mod Readable
use cpp_redis.Prelude.{
  ℕ, suc, zero, ◌+◌, ◌*◌, Option, none, some, List, [], ◌∷◌, ◌++◌, ◌>>=◌, Bytes, codes,
}
use cpp_redis.Prelude.Int.{pos}
use cpp_redis.Number.{to_string}
use cpp_redis.Resp.Value.{
  RespType, RespValue, RespData, RespItems, resp, text, number, vector, nullopt, nil, cons,
  get_string, get_integer,
}

-- std::string(n, ' ')
unfoldable pub blanks : ℕ → Bytes
blanks zero = []
blanks (suc n) = 32 ∷ blanks n

abbrev pub quoted : Bytes → Bytes
quoted s = codes "\"" ++ (s ++ codes "\"")

-- One line, behind `indent` steps of two blanks.
abbrev pub print_line : ℕ → Bytes → Bytes
print_line indent shown = blanks (indent * 2) ++ (shown ++ codes "\n")

abbrev pub size : RespItems → ℕ
size nil = 0
size (cons element items) = size items + 1

-- `none` is the `bad_variant_access` of `getArray`; what was written before it is not followed.
unfoldable mutual
  pub print_value : ℕ → RespValue → Option Bytes
  print_value indent (resp RespType.simple_string d) = some (
      print_line indent
        (codes "SimpleString: " ++ quoted (get_string (resp RespType.simple_string d))))
  print_value indent (resp RespType.error d) =
      some (print_line indent (codes "Error: " ++ quoted (get_string (resp RespType.error d))))
  print_value indent (resp RespType.integer d) =
      some
        (print_line indent (codes "Integer: " ++ to_string (get_integer (resp RespType.integer d))))
  print_value indent (resp RespType.bulk_string d) = some (
      print_line indent (codes "BulkString: " ++ quoted (get_string (resp RespType.bulk_string d))))
  print_value indent (resp RespType.array d) = print_array indent d
  print_value indent (resp RespType.null_value d) = some (print_line indent (codes "NULL"))

  pub print_array : ℕ → RespData → Option Bytes
  print_array indent (vector items) = print_items (indent + 1) items >>= λ more.
      some
        (print_line indent (codes "Array[" ++ (to_string (pos (size items)) ++ codes "]:")) ++ more)
  print_array indent d = none

  pub print_items : ℕ → RespItems → Option Bytes
  print_items indent nil = some []
  print_items indent (cons element items) = print_value indent element >>= λ here.
      print_items indent items >>= λ more. some (here ++ more)
