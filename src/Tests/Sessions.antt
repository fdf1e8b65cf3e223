-- ===== src/Tests/Sessions.antt =====
-- An example for a whole connection against the machine on what each key shows.
use cpp_redis.Prelude.{◌≡◌, refl, List, [], ◌∷◌, ◌++◌, codes, take, drop, arith}
use cpp_redis.Prelude.Int.{pos}
use cpp_redis.Utils.{to_upper, upper}
use cpp_redis.Number.{
  skip_spaces, read_sign, leading_digits, finish, is_space, digits, decimal, value, to_string,
  stoll, is_digit,
}
use cpp_redis.Resp.Formatter.{format_array, format_items, format_bulk_string}
use cpp_redis.Resp.Parser.{
  parse, parse_value, parse_marked, parse_array, array_of, find_crlf, safe_string_to_int,
  safe_string_to_long_long,
}
use cpp_redis.Database.Invariant.{IsValid-nil}
use cpp_redis.Database.View.{view}
use cpp_redis.Handler.{new_handler}
use cpp_redis.Handler.Abstract.{Request, Call, answers}
use cpp_redis.Client.{Client, receive_all, waiting}
use cpp_redis.Client.Chunks.{joined}
use cpp_redis.Client.Answers.{session_answers}
use cpp_redis.Tests.{env, start, get_request, set_request, new_client}

abbrev two_calls : List Call
two_calls =
    record { env = env; name = codes "SET"; key = codes "k"; request = Request.set (codes "v") }
    ∷ record { env = env; name = codes "GET"; key = codes "k"; request = Request.get }
    ∷ []

-- SET and GET in three chunks, with the start of another request behind them.
session_answers_example :
    (end : Client) × (receive_all
        (λ n. env)
        (take 9 set_request ∷ drop 9 set_request ∷ (get_request ++ codes "*1") ∷ [])
        new_client
      ≡ waiting end)
    × (end.sent ≡ [] ++ joined (answers two_calls (view (pos start) [])))
    × (end.buffer ≡ codes "*1")
unfolding parse parse_value parse_marked parse_array array_of find_crlf safe_string_to_int
    safe_string_to_long_long stoll skip_spaces read_sign leading_digits finish value is_space
    is_digit format_array format_items to_string decimal digits format_bulk_string to_upper upper
    new_handler
session_answers_example =
    session_answers (pos start) (λ n. env) two_calls (codes "*1") (take 9 set_request)
      (drop 9 set_request ∷ (get_request ++ codes "*1") ∷ []) new_client IsValid-nil refl
      (omega arith, (omega arith, tt)) (refl, (refl, tt))
      (
        (omega arith, (omega arith, (omega arith, (omega arith, tt)))),
        ((omega arith, (omega arith, (omega arith, tt))), tt),
      )
      refl refl refl
