-- ===== src/Handler/Kinds.antt =====
-- What TYPE, LLEN, SCARD and HLEN of one key tell together, whatever commands came before.
use cpp_redis.Prelude.{
  ℕ, ◌<◌, ◌≡◌, ◌≢◌, refl, Option, none, some, List, [], ◌∷◌, Bytes, codes, arith, length,
}
use cpp_redis.Prelude.Int.{ℤ, pos}
use cpp_redis.Prelude.Assoc
use cpp_redis.Prelude.Assoc.{Each-find}
use cpp_redis.Utils.{to_upper, upper}
use cpp_redis.Resp.Formatter.{format_simple_string, format_integer}
use cpp_redis.Database.{RedisType, RedisValue, Db, typed, type_eq}
use cpp_redis.Database.Invariant.{IsValid, IsFilled, Holds}
use cpp_redis.Database.View.{view, live}
use cpp_redis.Commands.Strings.{type_name}
use cpp_redis.Handler.{Env, CommandHandler, process_command, process_all, new_handler}
use cpp_redis.Handler.Abstract.{Request, meaning}
use cpp_redis.Handler.Keeps.{reachable-IsValid}
use cpp_redis.Handler.Refines.{process_command-Answers}

-- The replies to TYPE, LLEN, SCARD and HLEN for one key.
pub data Kind : Bytes → Bytes → Bytes → Bytes → Type 0 where
  is_missing :
      Kind
        (format_simple_string (codes "none"))
        (format_integer (pos 0))
        (format_integer (pos 0))
        (format_integer (pos 0))
  holds_string :
      Kind
        (format_simple_string (codes "string"))
        (format_integer (pos 0))
        (format_integer (pos 0))
        (format_integer (pos 0))
  holds_list :
      (n : ℕ)
      → 0 < n
      → Kind
          (format_simple_string (codes "list"))
          (format_integer (pos n))
          (format_integer (pos 0))
          (format_integer (pos 0))
  holds_set :
      (n : ℕ)
      → 0 < n
      → Kind
          (format_simple_string (codes "set"))
          (format_integer (pos 0))
          (format_integer (pos n))
          (format_integer (pos 0))
  holds_hash :
      (n : ℕ)
      → 0 < n
      → Kind
          (format_simple_string (codes "hash"))
          (format_integer (pos 0))
          (format_integer (pos 0))
          (format_integer (pos n))

length_pos {ℓ} : {A : Type ℓ} → (l : List A) → l ≢ [] → 0 < length l
length_pos [] h = absurd (h refl)
length_pos (x ∷ l) h = ground arith

-- The four replies by what the key shows.
abbrev KindOf : Env → Option RedisValue → Type 0
KindOf env o =
    Kind (meaning env Request.type o).0 (meaning env Request.llen o).0
      (meaning env Request.scard o).0 (meaning env Request.hlen o).0

typed-Kind :
    (env : Env) (v : RedisValue) (t : RedisType)
    → v.type ≡ t
    → Holds t v.list_value v.set_value v.hash_value
    → KindOf env (some v)
unfolding typed type_eq type_name
typed-Kind env v RedisType.string e h = rw e holds_string
typed-Kind env v RedisType.list e h = rw e (holds_list _ (length_pos v.list_value h))
typed-Kind env v RedisType.set e h = rw e (holds_set _ (length_pos v.set_value h.0))
typed-Kind env v RedisType.hash e h = rw e (holds_hash _ (length_pos v.hash_value h.0))
typed-Kind env v RedisType.zset e h = absurd h
typed-Kind env v RedisType.stream e h = absurd h

shown-Kind :
    (env : Env) (o : Option RedisValue)
    → ((v : RedisValue) → o ≡ some v → IsFilled v)
    → KindOf env o
unfolding typed
shown-Kind env none f = is_missing
shown-Kind env (some v) f = typed-Kind env v v.type refl (f v refl)

view-IsFilled :
    (now : ℤ) (key : Bytes) (db : Db) (v : RedisValue)
    → IsValid db
    → view now db key ≡ some v
    → IsFilled v
unfolding view
view-IsFilled now key db v h e = Each-find IsFilled key db v h.values (found (Assoc.find key db) e)
  where
    found : (o : Option RedisValue) → live now o ≡ some v → o ≡ some v
    found none e = e
    found (some w) e = ground arith

abbrev pub reply_to : Bytes → Env → Bytes → CommandHandler → Bytes
reply_to name env key h = (process_command env (name ∷ key ∷ []) h).0

valid-Kind :
    (env : Env) (key : Bytes) (h : CommandHandler)
    → IsValid h.db
    → Kind
        (reply_to (codes "TYPE") env key h)
        (reply_to (codes "LLEN") env key h)
        (reply_to (codes "SCARD") env key h)
        (reply_to (codes "HLEN") env key h)
unfolding to_upper upper
valid-Kind env key h v =
    rw
      (
        (process_command-Answers env (codes "TYPE") key h v Request.type refl).0,
        (process_command-Answers env (codes "LLEN") key h v Request.llen refl).0,
        (process_command-Answers env (codes "SCARD") key h v Request.scard refl).0,
        (process_command-Answers env (codes "HLEN") key h v Request.hlen refl).0,
      )
      (shown-Kind env (view env.now h.db key) (λ w e. view-IsFilled env.now key h.db w v e))

-- Whatever commands have come from the empty database on, TYPE replies none, string, list, set or
-- hash for every key, never a type that the store does not implement, and LLEN, SCARD and HLEN agree
-- with it: the one of the type that TYPE names is positive, and the others are 0.
pub type_consistent :
    (start_time : ℤ) (requests : List (Env × List Bytes)) (env : Env) (key : Bytes)
    → Kind
        (reply_to (codes "TYPE") env key (process_all requests (new_handler start_time)).1)
        (reply_to (codes "LLEN") env key (process_all requests (new_handler start_time)).1)
        (reply_to (codes "SCARD") env key (process_all requests (new_handler start_time)).1)
        (reply_to (codes "HLEN") env key (process_all requests (new_handler start_time)).1)
type_consistent start_time requests env key =
    valid-Kind env key (process_all requests (new_handler start_time)).1
      (reachable-IsValid start_time requests)
