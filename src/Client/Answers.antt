-- ===== src/Client/Answers.antt =====
-- A connection from the bytes that it reads to the bytes that it sends, against the machine on what
-- the keys show.
use cpp_redis.Prelude.{ℕ, ◌≡◌, refl, ap, ◌∙◌, none, List, ◌∷◌, [], ◌++◌, map, Bytes, All}
use cpp_redis.Prelude.Int.{ℤ}
use cpp_redis.Resp.Parser.{parse}
use cpp_redis.Database.Invariant.{IsValid}
use cpp_redis.Database.View.{view}
use cpp_redis.Handler.{Env, process_all}
use cpp_redis.Handler.Agrees.{Ordered}
use cpp_redis.Handler.Abstract.{Call, sent, answers}
use cpp_redis.Handler.Answers.{IsNamed, process_all-answers}
use cpp_redis.Client.{Client, receive_all, waiting}
use cpp_redis.Client.Chunks.{joined}
use cpp_redis.Client.Requests.{IsRequest, wire, timed, replied, receive_all_requests}

-- The words of a call.
abbrev pub spoken : Call → List Bytes
spoken call = (sent call).1

-- Calls of commands with one key, as requests of at most `MAX_ARGS` items of at most
-- `MAX_STRING_LENGTH` bytes each, are sent to a connection whose buffer is empty, and behind them bytes
-- that are no complete request. However these bytes are cut into chunks, the connection waits in the
-- end, has sent, behind what it had sent before, exactly the replies of the machine that starts with
-- what the database shows, and keeps the bytes behind the requests. The database is well formed, the
-- calls have the connection's clock readings, which do not go back, and no other connection sends
-- requests in between.
pub session_answers :
    (now : ℤ) (envs : ℕ → Env) (calls : List Call) (t chunk : Bytes) (chunks : List Bytes)
    (c : Client)
    → IsValid c.handler.db
    → timed envs c.served (map spoken calls) ≡ map sent calls
    → Ordered now (map sent calls)
    → All IsNamed calls
    → All IsRequest (map spoken calls)
    → parse t ≡ none
    → c.buffer ≡ []
    → joined (chunk ∷ chunks) ≡ wire (map spoken calls) ++ t
    → (end : Client) × (receive_all envs (chunk ∷ chunks) c ≡ waiting end)
      × (end.sent ≡ c.sent ++ joined (answers calls (view now c.handler.db)))
      × (end.buffer ≡ t)
session_answers now envs calls t chunk chunks c v times ordered named fits stuck empty cut = (
  replied envs (map spoken calls) t c,
  receive_all_requests envs (map spoken calls) t chunk chunks c fits stuck empty cut,
  ap (λ requests. c.sent ++ joined (process_all requests c.handler).0) times
      ∙ ap (λ replies. c.sent ++ joined replies)
          (process_all-answers now calls c.handler v ordered named),
  refl,
)
