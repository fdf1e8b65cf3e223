-- ===== src/Resp/Formatter.antt =====
-- resp/resp_formatter.cpp
use cpp_redis.Prelude.{[], ◌∷◌, ◌++◌, List, Bytes, codes, length}
use cpp_redis.Prelude.Int.{ℤ}
use cpp_redis.Number.{decimal, to_string}

abbrev pub crlf : Bytes
crlf = 13 ∷ 10 ∷ []

unfoldable pub format_error : Bytes → Bytes
format_error message = b'-' ∷ (message ++ crlf)

unfoldable pub format_simple_string : Bytes → Bytes
format_simple_string str = b'+' ∷ (str ++ crlf)

unfoldable pub format_bulk_string : Bytes → Bytes
format_bulk_string str = b'$' ∷ (decimal (length str) ++ (crlf ++ (str ++ crlf)))

unfoldable pub format_integer : ℤ → Bytes
format_integer value = b':' ∷ (to_string value ++ crlf)

-- The loop that appends each item.
unfoldable pub format_items : List Bytes → Bytes
format_items [] = []
format_items (item ∷ items) = format_bulk_string item ++ format_items items

unfoldable pub format_array : List Bytes → Bytes
format_array items = b'*' ∷ (decimal (length items) ++ (crlf ++ format_items items))

unfoldable pub format_null : Bytes
format_null = codes "$-1" ++ crlf
