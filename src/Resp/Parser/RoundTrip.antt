-- ===== src/Resp/Parser/RoundTrip.antt =====
-- The parser reads back what the formatter writes.
use cpp_redis.Prelude.{
  ℕ, suc, ◌^◌, ◌≤◌, ◌<◌, ◌≡◌, ◌≢◌, refl, ap, ◌∙◌, some, List, [], ◌∷◌, ◌++◌, append_assoc, arith,
  Bytes, length, le→ltb_false, ◌>>=◌, All,
}
use cpp_redis.Prelude.Int.{ℤ, pos, negsuc, InInt64}
use cpp_redis.Number.{
  is_digit, decimal, to_string, stoll, skip_spaces, read_sign, leading_digits, finish, value,
  is_space,
}
use cpp_redis.Number.RoundTrip.{IsDigit, decimal-IsDigit, decimal-ne-nil, stoll-to_string}
use cpp_redis.Resp.Value.{
  RespType, RespValue, RespItems, resp, text, number, vector, nullopt, nil, cons, get_string,
}
use cpp_redis.Resp.Formatter.{
  format_bulk_string, format_items, format_array, format_integer, format_error,
  format_simple_string, format_null,
}
use cpp_redis.Resp.Parser.{
  max_depth, max_string_length, max_args, find_crlf, safe_string_to_int, safe_string_to_long_long,
  parse_simple_string, parse_error, parse_integer, bulk_of, parse_bulk_string, parse_elements,
  array_of, parse_array, parse_marked, parse_value, parse, to_string_vector, element_strings,
}
use cpp_redis.Resp.Parser.Stream.{bulk_body_at}
use cpp_redis.Resp.Parser.Consumed.{parse_at, length-append_sub}

abbrev pub NoCr : Bytes → Type 0
NoCr = All (λ c. c ≢ 13)

-- A line without a carriage return is found whole.
find_crlf_line : (l t : Bytes) → NoCr l → find_crlf (l ++ 13 ∷ 10 ∷ t) ≡ some (l, t)
unfolding find_crlf
find_crlf_line [] t h = refl
find_crlf_line (c ∷ []) t h = ground arith
find_crlf_line (c ∷ d ∷ l) t h = ground (arith, find_crlf_line (d ∷ l) t h.1)

digit_no_cr : (c : ℕ) → IsDigit c → c ≢ 13
unfolding is_digit
digit_no_cr c h = ground arith

digits-NoCr : (s : Bytes) → All IsDigit s → NoCr s
digits-NoCr [] h = tt
digits-NoCr (c ∷ s) h = (digit_no_cr c h.0, digits-NoCr s h.1)

decimal_line : (n : ℕ) (t : Bytes) → find_crlf (decimal n ++ 13 ∷ 10 ∷ t) ≡ some (decimal n, t)
decimal_line n t = find_crlf_line (decimal n) t (digits-NoCr (decimal n) (decimal-IsDigit n))

to_string-ne-nil : (z : ℤ) → to_string z ≢ []
unfolding to_string
to_string-ne-nil (pos n) = decimal-ne-nil n
to_string-ne-nil (negsuc n) = cc

to_string-NoCr : (z : ℤ) → NoCr (to_string z)
unfolding to_string
to_string-NoCr (pos n) = digits-NoCr (decimal n) (decimal-IsDigit n)
to_string-NoCr (negsuc n) = (omega arith, digits-NoCr (decimal (suc n)) (decimal-IsDigit (suc n)))

-- A printed `long long` is accepted whole.
pub safe_string_to_long_long-to_string :
    (z : ℤ) → InInt64 z → safe_string_to_long_long (to_string z) ≡ some z
unfolding safe_string_to_long_long
safe_string_to_long_long-to_string z h = ground (arith, stoll-to_string z h, to_string-ne-nil z)

safe_string_to_int-decimal : (n : ℕ) → n < 2 ^ 31 → safe_string_to_int (decimal n) ≡ some (pos n)
unfolding safe_string_to_int to_string
safe_string_to_int-decimal n h =
    ground (arith, safe_string_to_long_long-to_string (pos n) (omega arith))

parse_bulk_string_lem :
    (str t : Bytes)
    → length str ≤ max_string_length
    → parse_bulk_string (decimal (length str) ++ 13 ∷ 10 ∷ (str ++ 13 ∷ 10 ∷ t))
      ≡ some (resp RespType.bulk_string (text str), t)
unfolding parse_bulk_string bulk_of
parse_bulk_string_lem str t h =
    rw
      (
        decimal_line (length str) (str ++ 13 ∷ 10 ∷ t),
        safe_string_to_int-decimal (length str) (omega arith),
      )
      (bulk_body_at str t h)

-- One reply or request behind which other bytes stand.
abbrev Parses : ℕ → Bytes → RespValue → Type 0
Parses levels s v = (t : Bytes) → parse_value (suc levels) (s ++ t) ≡ some (v, t)

Parses-format_bulk_string :
    (levels : ℕ) (str : Bytes)
    → length str ≤ max_string_length
    → Parses levels (format_bulk_string str) (resp RespType.bulk_string (text str))
unfolding parse_value parse_marked format_bulk_string
Parses-format_bulk_string levels str h t = simp append_assoc (parse_bulk_string_lem str t h)

-- The bulk strings that a request's items become.
unfoldable pub bulks : List Bytes → RespItems
bulks [] = nil
bulks (item ∷ items) = cons (resp RespType.bulk_string (text item)) (bulks items)

abbrev pub Fits : Bytes → Type 0
Fits s = length s ≤ max_string_length

parse_elements-format_items :
    (levels : ℕ) (items : List Bytes) (t : Bytes)
    → All Fits items
    → parse_elements (parse_value (suc levels)) (length items) (format_items items ++ t)
      ≡ some (bulks items, t)
unfolding parse_elements format_items bulks
parse_elements-format_items levels [] t h = refl
parse_elements-format_items levels (item ∷ items) t h = rw (
  append_assoc (format_bulk_string item) (format_items items) t,
  Parses-format_bulk_string levels item h.0 (format_items items ++ t),
  parse_elements-format_items levels items t h.1,
)

parse_array_lem :
    (levels : ℕ) (items : List Bytes) (t : Bytes)
    → length items ≤ max_args
    → All Fits items
    → parse_array
        (parse_value (suc levels))
        (decimal (length items) ++ 13 ∷ 10 ∷ (format_items items ++ t))
      ≡ some (resp RespType.array (vector (bulks items)), t)
unfolding parse_array array_of
parse_array_lem levels items t few h = rw (
  decimal_line (length items) (format_items items ++ t),
  safe_string_to_int-decimal (length items) (omega arith),
  le→ltb_false max_args (length items) few,
  parse_elements-format_items levels items t h,
)

Parses-format_array :
    (levels : ℕ) (items : List Bytes)
    → length items ≤ max_args
    → All Fits items
    → Parses (suc levels) (format_array items) (resp RespType.array (vector (bulks items)))
unfolding parse_value parse_marked format_array
Parses-format_array levels items few h t = simp append_assoc (parse_array_lem levels items t few h)

-- A value that is parsed behind whatever stands in front of other bytes takes exactly its print.
parse_of_Parses :
    (s t : Bytes) (v : RespValue) → Parses max_depth s v → parse (s ++ t) ≡ some (v, length s)
parse_of_Parses s t v h =
    parse_at (s ++ t) v t (h t) ∙ ap (λ n. some (v, n)) (length-append_sub s t)

-- A request of at most `MAX_ARGS` items of at most `MAX_STRING_LENGTH` bytes each, as a client sends it,
-- is parsed as the array of these items, whatever stands behind it.
pub parse-format_array :
    (items : List Bytes) (t : Bytes)
    → length items ≤ max_args
    → All Fits items
    → parse (format_array items ++ t)
      ≡ some (resp RespType.array (vector (bulks items)), length (format_array items))
parse-format_array items t few h =
    parse_of_Parses (format_array items) t _ (Parses-format_array 99 items few h)

pub element_strings-bulks : (items : List Bytes) → element_strings (bulks items) ≡ some items
unfolding to_string_vector bulks get_string
element_strings-bulks [] = refl
element_strings-bulks (item ∷ items) = rw (element_strings-bulks items)

-- The arguments that the server takes from a request are the items that the client sent.
pub request_args :
    (items : List Bytes) (t : Bytes)
    → length items ≤ max_args
    → All Fits items
    → (parse (format_array items ++ t) >>= λ x. to_string_vector x.0) ≡ some items
request_args items t few h =
    rw (parse-format_array items t few h) (unfold to_string_vector in element_strings-bulks items)

Parses-format_integer :
    (levels : ℕ) (z : ℤ)
    → InInt64 z
    → Parses levels (format_integer z) (resp RespType.integer (number z))
unfolding parse_value parse_marked format_integer parse_integer
Parses-format_integer levels z h t =
    simp append_assoc (
      rw
        (find_crlf_line (to_string z) t (to_string-NoCr z), safe_string_to_long_long-to_string z h))

Parses-format_simple_string :
    (levels : ℕ) (s : Bytes)
    → NoCr s
    → Parses levels (format_simple_string s) (resp RespType.simple_string (text s))
unfolding parse_value parse_marked format_simple_string parse_simple_string
Parses-format_simple_string levels s h t = simp append_assoc (rw (find_crlf_line s t h))

Parses-format_error :
    (levels : ℕ) (s : Bytes)
    → NoCr s
    → Parses levels (format_error s) (resp RespType.error (text s))
unfolding parse_value parse_marked format_error parse_error
Parses-format_error levels s h t = simp append_assoc (rw (find_crlf_line s t h))

Parses-format_null : (levels : ℕ) → Parses levels format_null (resp RespType.null_value nullopt)
unfolding parse_value parse_marked parse_bulk_string bulk_of find_crlf safe_string_to_int
    safe_string_to_long_long stoll skip_spaces read_sign leading_digits finish value is_space
    is_digit format_null
Parses-format_null levels t = refl

-- Each scalar reply is read back as what was formatted: integers of 64 bits, lines with no carriage
-- return, bulk strings of at most `MAX_STRING_LENGTH` bytes and the null reply.
pub parse_replies :
    (z : ℤ) (line str t : Bytes)
    → InInt64 z
    → NoCr line
    → Fits str
    → (parse (format_integer z ++ t)
        ≡ some (resp RespType.integer (number z), length (format_integer z)))
      × (parse (format_simple_string line ++ t)
          ≡ some (resp RespType.simple_string (text line), length (format_simple_string line)))
      × (parse (format_error line ++ t)
          ≡ some (resp RespType.error (text line), length (format_error line)))
      × (parse (format_bulk_string str ++ t)
          ≡ some (resp RespType.bulk_string (text str), length (format_bulk_string str)))
      × (parse (format_null ++ t) ≡ some (resp RespType.null_value nullopt, length format_null))
parse_replies z line str t hz hl hs = (
  parse_of_Parses (format_integer z) t _ (Parses-format_integer max_depth z hz),
  parse_of_Parses (format_simple_string line) t _ (Parses-format_simple_string max_depth line hl),
  parse_of_Parses (format_error line) t _ (Parses-format_error max_depth line hl),
  parse_of_Parses (format_bulk_string str) t _ (Parses-format_bulk_string max_depth str hs),
  parse_of_Parses format_null t _ (Parses-format_null max_depth),
)
