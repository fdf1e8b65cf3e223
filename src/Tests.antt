-- ===== src/Tests.antt =====
-- Concrete inputs for the tests, which run the model and apply each property at such inputs.
pub mod Protocol
pub mod Replies
pub mod Structures
pub mod Server
pub mod Threads
pub mod Whole
pub mod Races
pub mod Abstract
pub mod Sessions
use cpp_redis.Prelude.Ordered
use cpp_redis.Prelude.Ordered.{IsSorted}
use cpp_redis.Client.Stuck.{receive_all_stuck}
use cpp_redis.Commands.Lists.Slices.{range_all, range_beyond}
use cpp_redis.Commands.Sets.{add_members, remove_members}
use cpp_redis.Commands.Sets.Members.{named, add_members_exact, remove_members_exact}
use cpp_redis.Prelude.{
  ℕ, zero, suc, ◌+◌, ◌-◌, ◌/◌, ◌^◌, ◌≤◌, ◌<◌, ◌≡◌, refl, inl, inr, true, false, Option, none, some,
  List, [], ◌∷◌, ◌++◌, Bytes, codes, arith, ◌>>=◌, All, length, take, drop, ltb, leb, if◌then◌else◌,
  str_eq, Option-cases,
}
use cpp_redis.Prelude.Int.{pos, negsuc, ◌+ℤ◌, InInt64}
use cpp_redis.Prelude.Assoc.{find, Distinct}
use cpp_redis.Number.{
  skip_spaces, read_sign, leading_digits, finish, is_space, digits, decimal, value, to_string,
  stoll, is_digit,
}
use cpp_redis.Number.RoundTrip.{IsDigit}
use cpp_redis.Utils
use cpp_redis.Utils.{parse_int, is_integer, to_upper}
use cpp_redis.Utils.Integers.{parse_int-to_string, parse_int_huge}
use cpp_redis.Resp.Value.{RespType, RespValue, resp, text, number, vector, nullopt}
use cpp_redis.Resp.Formatter.{
  format_error, format_simple_string, format_bulk_string, format_integer, format_array, format_null,
}
use cpp_redis.Resp.Parser.{
  to_string_vector, parse, parse_value, parse_marked, parse_array, array_of, parse_elements,
  parse_bulk_string, bulk_of, bulk_body, find_crlf, safe_string_to_int, safe_string_to_long_long,
}
use cpp_redis.Resp.Parser.Consumed.{parse_consumed}
use cpp_redis.Resp.Parser.RoundTrip.{bulks, request_args, parse_replies}
use cpp_redis.Database.{
  RedisType, RedisValue, Db, of_type, of_string, regex_of, cleanup_expired_keys, compiled,
  is_expired,
}
use cpp_redis.Database.View.{view, live, view_later, view-cleanup_expired_keys}
use cpp_redis.Database.Invariant.{IsValid}
use cpp_redis.Commands.Strings.{
  string_of, cmd_get, cmd_set, cmd_exists, cmd_incr_by, cmd_append, cmd_mset,
}
use cpp_redis.Commands.Strings.Replies.{
  flat, last_of, live_count, text_of, get-set, exists_counts, mset_stores, get-append,
}
use cpp_redis.Commands.Strings.Counters.{incr_by_sum}
use cpp_redis.Commands.Ttl.{cmd_expire, cmd_ttl}
use cpp_redis.Commands.Ttl.Expiry.{deadline, expiring, get-set_ex, ttl-expire}
use cpp_redis.Commands.Lists.{range, position, push_front, push_back, pop_front, pop_back}
use cpp_redis.Commands.Lists.Slices.{position_exact, range_pos}
use cpp_redis.Commands.Lists.Ends.{pop-push}
use cpp_redis.Handler.{Env, process_all, new_handler}
use cpp_redis.Handler.Keeps.{reachable-IsValid}
use cpp_redis.Client.{Client, receive, receive_all, waiting}
use cpp_redis.Client.Progress.{parse_readable, receive_waits}
use cpp_redis.Client.Chunks.{joined, receive_all-joined}
use cpp_redis.Connections.{
  ConnectionManager, new_manager, max_clients, spawned, add_connection, cleanup_finished_threads,
  keep_joinable, joinable, Reach, here, next, added,
}
use cpp_redis.Connections.Capacity.{
  running_count, connections_bounded, full_forever, add_connection_exact,
}
use cpp_redis.Commands.Hashes.{set_fields, delete_fields}
use cpp_redis.Commands.Hashes.Fields.{held, set_fields_exact, delete_fields_exact}

abbrev pub start : ℕ
start = 1700000000000000000

-- One second later, and one hour later.
abbrev pub soon : ℕ
soon = start + 1000000000

abbrev pub late : ℕ
late = start + 3600000000000

abbrev pub env : Env
env = record { now = pos start; pick = λ n. 0; regex = λ e. compiled (λ key. true) }

-- A counter, a list, and a text that expires a minute after the start.
abbrev pub some_db : Db
some_db =
    (codes "n", of_string (to_string (pos 41)))
    ∷ (codes "l", record (of_type RedisType.list) { list_value = codes "a" ∷ [] })
    ∷ (codes "t", expiring (start + 60000000000) (of_string (codes "soon gone")))
    ∷ []

abbrev pub get_request : Bytes
get_request = codes "*2\r\n$3\r\nGET\r\n$1\r\nk\r\n"

abbrev pub set_request : Bytes
set_request = codes "*3\r\n$3\r\nSET\r\n$1\r\nk\r\n$1\r\nv\r\n"

abbrev pub new_client : Client
new_client = record { buffer = []; handler = new_handler (pos start); sent = []; served = 0 }
