-- ===== src/Tests/Protocol.antt =====
-- Runs and examples for numbers, the RESP protocol and the connection loop.
use cpp_redis.Client.Stuck.{receive_all_stuck}
use cpp_redis.Prelude.{
  ◌^◌, ◌≤◌, ◌<◌, ◌≡◌, refl, true, false, none, some, List, [], ◌∷◌, ◌++◌, Bytes, codes, arith,
  ◌>>=◌, All, length, take, drop,
}
use cpp_redis.Prelude.Int.{pos, negsuc}
use cpp_redis.Logger.{log_command, log_words, blue_words, log_error}
use cpp_redis.Number.{
  skip_spaces, read_sign, leading_digits, finish, is_space, digits, decimal, value, to_string,
  stoll, is_digit,
}
use cpp_redis.Number.RoundTrip.{IsDigit}
use cpp_redis.Utils
use cpp_redis.Utils.{parse_int, is_integer, to_upper}
use cpp_redis.Utils.Integers.{parse_int-to_string, parse_int_huge}
use cpp_redis.Resp.Value.{RespType, RespValue, resp, text, number, vector, nullopt}
use cpp_redis.Resp.Formatter.{
  format_error, format_simple_string, format_bulk_string, format_integer, format_array, format_null,
}
use cpp_redis.Resp.Parser.{
  to_string_vector, parse, parse_value, parse_marked, parse_array, array_of, parse_elements,
  parse_bulk_string, bulk_of, bulk_body, find_crlf, safe_string_to_int, safe_string_to_long_long,
}
use cpp_redis.Resp.PlainText.{
  parse_plain_text, read_tokens, next_token, split_word, push_token, remove_byte,
}
use cpp_redis.Resp.PlainText.Exact.{Line, parse_plain_text-Line}
use cpp_redis.Resp.Print.{print_value}
use cpp_redis.Resp.Print.Readable.{Prints, parse_printable}
use cpp_redis.Resp.Parser.Consumed.{parse_consumed}
use cpp_redis.Resp.Parser.RoundTrip.{bulks, request_args, parse_replies}
use cpp_redis.Database.{
  RedisType, RedisValue, Db, of_type, of_string, regex_of, cleanup_expired_keys, compiled,
  is_expired,
}
use cpp_redis.Client.{Client, receive, receive_all, waiting}
use cpp_redis.Client.Progress.{receive_waits}
use cpp_redis.Client.Chunks.{joined, receive_all-joined}
use cpp_redis.Tests.{env, get_request, set_request, new_client}

to_string_negative : to_string (negsuc 41) ≡ codes "-42"
unfolding to_string decimal digits
to_string_negative = refl

stoll_mixed : stoll (codes " +12x") ≡ some (pos 12, 4)
unfolding stoll finish leading_digits read_sign skip_spaces is_space is_digit value
stoll_mixed = refl

stoll_limits :
    (stoll (codes "9223372036854775808") ≡ none)
    × (stoll (codes "-9223372036854775808") ≡ some (negsuc 9223372036854775807, 20))
unfolding stoll finish leading_digits read_sign skip_spaces is_space is_digit value
stoll_limits = (refl, refl)

is_integer_runs :
    (is_integer (codes "+17") ≡ true)
    × (is_integer (codes "-") ≡ false)
    × (is_integer (codes "1x") ≡ false)
unfolding is_integer Utils.all_digits is_digit
is_integer_runs = (refl, refl, refl)

to_upper_runs : to_upper (codes "get Z1") ≡ codes "GET Z1"
unfolding to_upper Utils.upper
to_upper_runs = refl

regex_of_runs : regex_of (codes "user:*.?") ≡ codes "user:.*\\.."
unfolding regex_of cpp_redis.Database.regex_piece
regex_of_runs = refl

receive_all-joined_example :
    receive_all (λ n. env) (take 9 set_request ∷ drop 9 set_request ∷ get_request ∷ []) new_client
    ≡ receive
        (λ n. env)
        (joined (take 9 set_request ∷ drop 9 set_request ∷ get_request ∷ []))
        new_client
receive_all-joined_example =
    receive_all-joined (λ n. env) (take 9 set_request) (drop 9 set_request ∷ get_request ∷ [])
      new_client

receive_waits_example :
    (c' : Client) × (receive (λ n. env) (set_request ++ codes "*2\r\n") new_client ≡ waiting c')
    × (parse c'.buffer ≡ none)
receive_waits_example = receive_waits (λ n. env) (set_request ++ codes "*2\r\n") new_client

request_args_example :
    (parse (format_array (codes "GET" ∷ codes "a\r\nb" ∷ []) ++ codes "*1") >>= λ x.
    to_string_vector x.0)
    ≡ some (codes "GET" ∷ codes "a\r\nb" ∷ [])
request_args_example =
    request_args (codes "GET" ∷ codes "a\r\nb" ∷ []) (codes "*1") (omega arith)
      (omega arith, (omega arith, tt))

abbrev get_value_read : RespValue
get_value_read = resp RespType.array (vector (bulks (codes "GET" ∷ codes "k" ∷ [])))

parse_get : parse get_request ≡ some (get_value_read, 20)
unfolding parse parse_value parse_marked parse_array array_of parse_elements parse_bulk_string
    bulk_of bulk_body find_crlf safe_string_to_int safe_string_to_long_long bulks stoll skip_spaces
    read_sign leading_digits finish value is_space is_digit
parse_get = refl

parse_consumed_example :
    (0 < 20)
    × (20 ≤ length get_request)
    × ((t : Bytes) → parse (take 20 get_request ++ t) ≡ some (get_value_read, 20))
parse_consumed_example = parse_consumed get_request get_value_read 20 parse_get

parse_replies_example :
    (parse (format_integer (negsuc 6) ++ codes "+")
      ≡ some (resp RespType.integer (number (negsuc 6)), length (format_integer (negsuc 6))))
    × (parse (format_simple_string (codes "OK") ++ codes "+")
        ≡ some (
          resp RespType.simple_string (text (codes "OK")),
          length (format_simple_string (codes "OK")),
        ))
    × (parse (format_error (codes "OK") ++ codes "+")
        ≡ some (resp RespType.error (text (codes "OK")), length (format_error (codes "OK"))))
    × (parse (format_bulk_string (codes "\r\n") ++ codes "+")
        ≡ some (
          resp RespType.bulk_string (text (codes "\r\n")),
          length (format_bulk_string (codes "\r\n")),
        ))
    × (parse (format_null ++ codes "+")
        ≡ some (resp RespType.null_value nullopt, length format_null))
parse_replies_example =
    parse_replies (negsuc 6) (codes "OK") (codes "\r\n") (codes "+") (omega arith, omega arith)
      (omega arith, (omega arith, tt)) (omega arith)

parse_int-to_string_example :
    (Utils.is_integer (to_string (negsuc 41)) ≡ true)
    × (parse_int (to_string (negsuc 41)) ≡ negsuc 41)
parse_int-to_string_example = parse_int-to_string (negsuc 41) (omega arith, omega arith)

huge_digits : All IsDigit (codes "9223372036854775808")
unfolding is_digit
huge_digits = (
  refl,
  (
    refl,
    (
      refl,
      (
        refl,
        (
          refl,
          (
            refl,
            (
              refl,
              (
                refl,
                (
                  refl,
                  (
                    refl,
                    (refl, (refl, (refl, (refl, (refl, (refl, (refl, (refl, (refl, tt))))))))),
                  ),
                ),
              ),
            ),
          ),
        ),
      ),
    ),
  ),
)

huge_value : 2 ^ 63 ≤ value 0 (codes "9223372036854775808")
unfolding value
huge_value = omega arith

parse_int_huge_example :
    (Utils.is_integer (codes "9223372036854775808") ≡ true)
    × (parse_int (codes "9223372036854775808") ≡ pos 0)
parse_int_huge_example = parse_int_huge (codes "9223372036854775808") huge_digits huge_value

-- A client that sent a line of plain text.
abbrev plain_client : Client
plain_client = record new_client { buffer = codes "PING\r\n" }

receive_all_stuck_example :
    receive_all (λ n. env) (codes "PING\r\n" ∷ get_request ∷ []) plain_client
    ≡ waiting (record plain_client {
      buffer = plain_client.buffer ++ joined (codes "PING\r\n" ∷ get_request ∷ []);
    })
receive_all_stuck_example =
    receive_all_stuck (λ n. env) (codes "PING\r\n" ∷ get_request ∷ []) plain_client b'P'
      (codes "ING\r\n") refl refl

-- A line that somebody types.
parse_plain_text-Line_example :
    Line (parse_plain_text (codes "  SET key\tv \r\n")) (codes "  SET key\tv \r\n")
parse_plain_text-Line_example = parse_plain_text-Line (codes "  SET key\tv \r\n")

parse_plain_text_runs :
    parse_plain_text (codes "  SET key\tv \r\n") ≡ codes "SET" ∷ codes "key" ∷ codes "v" ∷ []
unfolding parse_plain_text read_tokens next_token split_word push_token remove_byte skip_spaces
    is_space
parse_plain_text_runs = refl

parse_printable_example :
    ((args : List Bytes) × (to_string_vector get_value_read ≡ some args))
    × Prints (print_value 1 get_value_read)
parse_printable_example = parse_printable get_request get_value_read 20 1 parse_get

-- The console lines of a command and of a reply.
log_runs :
    (log_command (codes "GET" ∷ codes "k" ∷ []) 20
      ≡ (240 ∷ 159 ∷ 144 ∷ 155 ∷ codes " [CMD] ")
        ++ ((27 ∷ codes "[1;32mGET")
            ++ ((27 ∷ codes "[0m ")
                ++ ((27 ∷ codes "[1;34mk")
                    ++ ((27 ∷ codes "[0m (")
                        ++ ((27 ∷ codes "[1;33m20 bytes") ++ (27 ∷ codes "[0m)\n")))))))
    × (log_error (codes "bad")
        ≡ (226 ∷ 157 ∷ 140 ∷ codes " [ERROR] ")
          ++ ((27 ∷ codes "[1;31mbad") ++ (27 ∷ codes "[0m\n")))
unfolding log_command log_words blue_words log_error to_string decimal digits
log_runs = (refl, refl)
