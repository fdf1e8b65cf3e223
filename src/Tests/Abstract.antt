-- ===== src/Tests/Abstract.antt =====
-- Examples for the handler against the machine on what each key shows.
use cpp_redis.Prelude.{◌≡◌, refl, List, [], ◌∷◌, codes, arith, map, str_eq}
use cpp_redis.Prelude.Int.{pos}
use cpp_redis.Prelude.Assoc.{find}
use cpp_redis.Utils.{to_upper, upper}
use cpp_redis.Database.Invariant.{IsValid}
use cpp_redis.Database.View.{view}
use cpp_redis.Handler.{Env, CommandHandler, process_all, new_handler}
use cpp_redis.Handler.Abstract.{Request, Call, sent, answers}
use cpp_redis.Handler.Answers.{process_all-answers}
use cpp_redis.Handler.Kinds.{Kind, reply_to, type_consistent}
use cpp_redis.Tests.{env, start, soon, late, some_db}

some_db-IsValid : IsValid some_db
unfolding find str_eq
some_db-IsValid = record { keys = (refl, (refl, (refl, tt))); values = (tt, ((λ e. cc), (tt, tt))) }

-- The next command is the hundredth, and cleans up.
abbrev in_use : CommandHandler
in_use = record { db = some_db; start_time = pos soon; total_commands_processed = 99 }

abbrev late_env : Env
late_env = record env { now = pos late }

abbrev some_calls : List Call
some_calls =
    record {
      env = env;
      name = codes "rpush";
      key = codes "l";
      request = Request.rpush (codes "b") (codes "c" ∷ []);
    }
    ∷ record { env = late_env; name = codes "LPop"; key = codes "l"; request = Request.lpop }
    ∷ record { env = late_env; name = codes "GET"; key = codes "t"; request = Request.get }
    ∷ record { env = late_env; name = codes "type"; key = codes "l"; request = Request.type }
    ∷ []

process_all-answers_example :
    (process_all (map sent some_calls) in_use).0 ≡ answers some_calls (view (pos start) some_db)
unfolding to_upper upper
process_all-answers_example =
    process_all-answers (pos start) some_calls in_use some_db-IsValid
      (omega arith, (omega arith, (omega arith, (omega arith, tt))))
      (refl, (refl, (refl, (refl, tt))))

type_consistent_example :
    Kind
      (reply_to
        (codes "TYPE")
        env
        (codes "l")
        (process_all
          ((env, codes "rpush" ∷ codes "l" ∷ codes "a" ∷ []) ∷ [])
          (new_handler (pos start))).1)
      (reply_to
        (codes "LLEN")
        env
        (codes "l")
        (process_all
          ((env, codes "rpush" ∷ codes "l" ∷ codes "a" ∷ []) ∷ [])
          (new_handler (pos start))).1)
      (reply_to
        (codes "SCARD")
        env
        (codes "l")
        (process_all
          ((env, codes "rpush" ∷ codes "l" ∷ codes "a" ∷ []) ∷ [])
          (new_handler (pos start))).1)
      (reply_to
        (codes "HLEN")
        env
        (codes "l")
        (process_all
          ((env, codes "rpush" ∷ codes "l" ∷ codes "a" ∷ []) ∷ [])
          (new_handler (pos start))).1)
type_consistent_example =
    type_consistent (pos start) ((env, codes "rpush" ∷ codes "l" ∷ codes "a" ∷ []) ∷ []) env
      (codes "l")
