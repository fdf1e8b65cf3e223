-- ===== src/Tests/Whole.antt =====
-- Examples for the patterns, and for what several components do together.
use cpp_redis.Prelude.{
  ◌≡◌, refl, Bool, true, false, some, List, [], ◌∷◌, ◌++◌, Bytes, codes, take, drop, arith, str_eq,
}
use cpp_redis.Prelude.Int.{pos}
use cpp_redis.Utils.{to_upper, upper, match_pattern, match_loop, retry, only_stars}
use cpp_redis.Utils.Glob.{glob}
use cpp_redis.Utils.Glob.Exact.{match_pattern_exact}
use cpp_redis.Utils.Glob.Sound.{match_pattern_sound}
use cpp_redis.Prelude.Assoc.{find}
use cpp_redis.Database.{cleanup_expired_keys}
use cpp_redis.Database.Invariant.{IsValid, cleanup_expired_keys-IsValid}
use cpp_redis.Database.Same.{Same-cleanup_expired_keys}
use cpp_redis.Handler.{Env, CommandHandler, process_all}
use cpp_redis.Handler.Agrees.{is_covered, replies_agree}
use cpp_redis.Number.{
  skip_spaces, read_sign, leading_digits, finish, is_space, digits, decimal, value, to_string,
  stoll, is_digit,
}
use cpp_redis.Resp.Formatter.{format_array, format_items, format_bulk_string}
use cpp_redis.Resp.Parser.{
  parse, parse_value, parse_marked, parse_array, array_of, find_crlf, safe_string_to_int,
  safe_string_to_long_long,
}
use cpp_redis.Client.{receive_all, waiting}
use cpp_redis.Client.Requests.{replied, receive_all_requests}
use cpp_redis.Tests.{env, start, late, some_db, soon, get_request, set_request, new_client}

match_pattern_exact_example :
    match_pattern (codes "l*st?") (codes "lists") ≡ some (glob (codes "l*st?") (codes "lists"))
match_pattern_exact_example = match_pattern_exact (codes "l*st?") (codes "lists") (
  λ e. omega arith,
  (λ e. omega arith, (λ e. omega arith, (λ e. omega arith, (λ e. omega arith, tt)))),
)

match_pattern_sound_example :
    (b : Bool) × (match_pattern (codes "a*") (codes "a*b") ≡ some b)
    × (b ≡ true → glob (codes "a*") (codes "a*b") ≡ true)
match_pattern_sound_example = match_pattern_sound (codes "a*") (codes "a*b")

-- A star of the text that meets a star of the pattern is taken as the text of that star.
star_in_text : match_pattern (codes "*b") (codes "*xb") ≡ some false
unfolding match_pattern match_loop retry only_stars str_eq
star_in_text = refl

-- A handler that has served commands and cleaned up late, and one that has not.
abbrev cleaned_up : CommandHandler
cleaned_up = record {
  db = cleanup_expired_keys (pos late) some_db;
  start_time = pos start;
  total_commands_processed = 200;
}

abbrev not_cleaned_up : CommandHandler
not_cleaned_up = record { db = some_db; start_time = pos soon; total_commands_processed = 98 }

abbrev late_env : Env
late_env = record env { now = pos late }

abbrev late_requests : List (Env × List Bytes)
late_requests =
    (late_env, codes "get" ∷ codes "t" ∷ [])
    ∷ (late_env, codes "RPUSH" ∷ codes "l" ∷ codes "b" ∷ [])
    ∷ (late_env, codes "TTL" ∷ codes "t" ∷ [])
    ∷ []

some_db-IsValid : IsValid some_db
unfolding find str_eq
some_db-IsValid = record { keys = (refl, (refl, (refl, tt))); values = (tt, ((λ e. cc), (tt, tt))) }

replies_agree_example :
    (process_all late_requests cleaned_up).0 ≡ (process_all late_requests not_cleaned_up).0
unfolding is_covered str_eq to_upper upper
replies_agree_example =
    replies_agree (pos late) late_requests cleaned_up not_cleaned_up
      (cleanup_expired_keys-IsValid (pos late) some_db some_db-IsValid) some_db-IsValid
      (Same-cleanup_expired_keys (pos late) some_db some_db-IsValid.keys)
      (omega arith, (omega arith, (omega arith, tt))) (refl, (refl, (refl, tt)))

-- SET and GET in three chunks, with the start of another request behind them.
receive_all_requests_example :
    receive_all
      (λ n. env)
      (take 9 set_request ∷ drop 9 set_request ∷ (get_request ++ codes "*1") ∷ [])
      new_client
    ≡ waiting (
        replied
          (λ n. env)
          ((codes "SET" ∷ codes "k" ∷ codes "v" ∷ []) ∷ (codes "GET" ∷ codes "k" ∷ []) ∷ [])
          (codes "*1")
          new_client)
unfolding parse parse_value parse_marked parse_array array_of find_crlf safe_string_to_int
    safe_string_to_long_long stoll skip_spaces read_sign leading_digits finish value is_space
    is_digit format_array format_items to_string decimal digits format_bulk_string
receive_all_requests_example =
    receive_all_requests (λ n. env)
      ((codes "SET" ∷ codes "k" ∷ codes "v" ∷ []) ∷ (codes "GET" ∷ codes "k" ∷ []) ∷ [])
      (codes "*1") (take 9 set_request) (drop 9 set_request ∷ (get_request ++ codes "*1") ∷ [])
      new_client
      (
        (omega arith, (omega arith, (omega arith, (omega arith, tt)))),
        ((omega arith, (omega arith, (omega arith, tt))), tt),
      )
      refl refl refl
