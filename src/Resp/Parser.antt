-- ===== src/Resp/Parser.antt =====
-- resp/resp_parser.cpp: requests are parsed from the unread bytes of the connection's buffer. A
-- position of the source is here the list of the bytes behind it, and `none` is `return false`.
pub mod Reads
pub mod Stream
pub mod Consumed
pub mod RoundTrip
use cpp_redis.Prelude.{
  ℕ, zero, suc, ◌+◌, ◌-◌, ◌*◌, ◌^◌, ◌≡◌, refl, Bool, true, false, ◌&&◌, ◌||◌, Option, none, some,
  List, [], ◌∷◌, ◌++◌, Bytes, codes, length, take, drop, is_empty, ltb, leb, ◌==◌, if◌then◌else◌,
  ◌>>=◌,
}
use cpp_redis.Prelude.Int.{ℤ, pos, negsuc, pos_part, neg_part, lt_ℤ}
use cpp_redis.Number.{stoll, to_string}
use cpp_redis.Resp.Value.{
  RespType, RespValue, RespData, RespItems, resp, text, number, vector, nullopt, nil, cons,
  is_string, is_integer, is_bulk_string, is_array, is_null, get_string, get_integer, get_array,
}

abbrev pub max_string_length : ℕ
max_string_length = 1024 * 1024

abbrev pub max_args : ℕ
max_args = 1000

abbrev pub max_depth : ℕ
max_depth = 100

-- The line up to the first CRLF, and what stands behind it.
unfoldable pub find_crlf : Bytes → Option (Bytes × Bytes)
find_crlf [] = none
find_crlf (c ∷ []) = none
find_crlf (c ∷ d ∷ s) =
    if c == 13 && d == 10
    then some ([], s)
    else elim (find_crlf (d ∷ s)) [ none ↦ none | some (l, r) ↦ some (c ∷ l, r) ]

unfoldable pub safe_string_to_long_long : Bytes → Option ℤ
safe_string_to_long_long str = if is_empty str then none else elim (stoll str) [
  | none ↦ none
  | some (val, processed) ↦ if processed == length str then some val else none
]

unfoldable pub safe_string_to_int : Bytes → Option ℤ
safe_string_to_int str = elim (safe_string_to_long_long str) [
  | none ↦ none
  | some val ↦
      if lt_ℤ val (negsuc (2 ^ 31 - 1)) || lt_ℤ (pos (2 ^ 31 - 1)) val then none else some val
]

-- The four parsers of one line or of one bulk string stand behind their type marker.
unfoldable pub parse_simple_string : Bytes → Option (RespValue × Bytes)
parse_simple_string s = do
  (str, rest) ← find_crlf s
  some (resp RespType.simple_string (text str), rest)

unfoldable pub parse_error : Bytes → Option (RespValue × Bytes)
parse_error s = do (err, rest) ← find_crlf s; some (resp RespType.error (text err), rest)

unfoldable pub parse_integer : Bytes → Option (RespValue × Bytes)
parse_integer s = do
  (line, rest) ← find_crlf s
  value ← safe_string_to_long_long line
  some (resp RespType.integer (number value), rest)

-- What follows a length of a bulk string that is not -1.
unfoldable pub bulk_body : ℕ → Bytes → Option (RespValue × Bytes)
bulk_body len s =
    if ltb max_string_length len
    then none
    else if ltb (length s) (len + 2)
    then none
    else elim (drop len s) [
      | c ∷ d ∷ rest ↦
          if c == 13 && d == 10
          then some (resp RespType.bulk_string (text (take len s)), rest)
          else none
      | _ ↦ none
    ]

unfoldable pub bulk_of : ℤ → Bytes → Option (RespValue × Bytes)
bulk_of (pos len) s = bulk_body len s
bulk_of (negsuc zero) s = some (resp RespType.null_value nullopt, s)
bulk_of (negsuc (suc n)) s = none

unfoldable pub parse_bulk_string : Bytes → Option (RespValue × Bytes)
parse_bulk_string s = do (line, rest) ← find_crlf s; len ← safe_string_to_int line; bulk_of len rest

-- The loop over the elements; `parse` is `parseValue` one level deeper.
unfoldable pub parse_elements :
    (Bytes → Option (RespValue × Bytes)) → ℕ → Bytes → Option (RespItems × Bytes)
parse_elements parse zero s = some (nil, s)
parse_elements parse (suc n) s = do
  (element, rest) ← parse s
  (elements, rest') ← parse_elements parse n rest
  some (cons element elements, rest')

unfoldable pub array_of :
    (Bytes → Option (RespValue × Bytes)) → ℤ → Bytes → Option (RespValue × Bytes)
array_of parse (pos num_elements) s = if ltb max_args num_elements then none else do
  (elements, rest) ← parse_elements parse num_elements s
  some (resp RespType.array (vector elements), rest)
array_of parse (negsuc zero) s = some (resp RespType.null_value nullopt, s)
array_of parse (negsuc (suc n)) s = none

unfoldable pub parse_array :
    (Bytes → Option (RespValue × Bytes)) → Bytes → Option (RespValue × Bytes)
parse_array parse s = do
  (line, rest) ← find_crlf s
  num_elements ← safe_string_to_int line
  array_of parse num_elements rest

-- The switch on the type marker.
unfoldable pub parse_marked :
    (Bytes → Option (RespValue × Bytes)) → ℕ → Bytes → Option (RespValue × Bytes)
parse_marked parse c s =
    if c == b'+'
    then parse_simple_string s
    else if c == b'-'
    then parse_error s
    else if c == b':'
    then parse_integer s
    else if c == b'$'
    then parse_bulk_string s
    else if c == b'*'
    then parse_array parse s
    else none

-- parseValue at a depth; the first argument is `MAX_DEPTH + 1 - depth`, the levels that are left.
unfoldable pub parse_value : ℕ → Bytes → Option (RespValue × Bytes)
parse_value zero s = none
parse_value (suc levels) [] = none
parse_value (suc levels) (c ∷ s) = parse_marked (parse_value levels) c s

-- The value, and how many bytes it took: `consumed`.
unfoldable pub parse : Bytes → Option (RespValue × ℕ)
parse input = do
  (result, rest) ← parse_value (suc max_depth) input
  some (result, length input - length rest)

-- `none` is the `bad_variant_access` of `getArray`. The cases of an element are those of a value.
unfoldable mutual
  pub to_string_vector : RespValue → Option (List Bytes)
  to_string_vector (resp RespType.array d) = array_strings d
  to_string_vector (resp RespType.null_value d) = some ([] ∷ [])
  to_string_vector (resp RespType.integer d) =
      some (to_string (get_integer (resp RespType.integer d)) ∷ [])
  to_string_vector (resp t d) = some (get_string (resp t d) ∷ [])

  pub array_strings : RespData → Option (List Bytes)
  array_strings (vector items) = element_strings items
  array_strings d = none

  pub element_strings : RespItems → Option (List Bytes)
  element_strings nil = some []
  element_strings (cons element items) =
      to_string_vector element >>= λ here. element_strings items >>= λ more. some (here ++ more)
