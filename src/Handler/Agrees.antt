-- ===== src/Handler/Agrees.antt =====
-- Databases that show the same get the same replies, however often each has been cleaned up.
use cpp_redis.Prelude.{
  ℕ, ◌+◌, ◌%◌, ◌^◌, ◌==◌, ◌≡◌, refl, sym, ◌∙◌, inl, inr, ◌&&◌, not, Bool, true, false, Option, none,
  some, List, [], ◌∷◌, Bytes, codes, str_eq, str_eq_iff, Bool-cases, All,
}
use cpp_redis.Prelude.Int.{ℤ, ◌≤ℤ◌}
use cpp_redis.Prelude.Assoc
use cpp_redis.Prelude.Assoc.{Assoc}
use cpp_redis.Utils.{to_upper}
use cpp_redis.Database.{Db}
use cpp_redis.Database.Invariant.{IsValid}
use cpp_redis.Database.Same.{Same, Alike, Agrees, Same-later, Same-cleanup_expired_keys, Alike-map}
use cpp_redis.Commands.Strings.Agrees.{
  cmd_set-Agrees, cmd_get-Agrees, cmd_incr-Agrees, cmd_decr-Agrees, cmd_incr_by-Agrees,
  cmd_decr_by-Agrees, cmd_strlen-Agrees, cmd_append-Agrees, cmd_type-Agrees, cmd_exists-Agrees,
  cmd_mget-Agrees, cmd_mset-Agrees,
}
use cpp_redis.Commands.Lists.Agrees.{
  cmd_lpush-Agrees, cmd_rpush-Agrees, cmd_lpop-Agrees, cmd_rpop-Agrees, cmd_llen-Agrees,
  cmd_lrange-Agrees, cmd_lindex-Agrees, cmd_lset-Agrees,
}
use cpp_redis.Commands.Sets.Agrees.{
  cmd_sadd-Agrees, cmd_srem-Agrees, cmd_sismember-Agrees, cmd_scard-Agrees, cmd_smembers-Agrees,
  cmd_spop-Agrees,
}
use cpp_redis.Commands.Hashes.Agrees.{
  cmd_hset-Agrees, cmd_hget-Agrees, cmd_hdel-Agrees, cmd_hexists-Agrees, cmd_hlen-Agrees,
  cmd_hkeys-Agrees, cmd_hvals-Agrees, cmd_hgetall-Agrees,
}
use cpp_redis.Commands.Ttl.Agrees.{
  cmd_expire-Agrees, cmd_expireat-Agrees, cmd_ttl-Agrees, cmd_persist-Agrees,
}
use cpp_redis.Commands.Server.Agrees.{
  cmd_ping-Agrees, cmd_echo-Agrees, cmd_flushall-Agrees, cmd_time-Agrees,
}
use cpp_redis.Commands.Server.{returned}
use cpp_redis.Handler.{
  Env, CommandHandler, CommandFunc, quiet, commands, cleaned, reply_of, run_command,
  process_command, process_all,
}
use cpp_redis.Handler.Keeps.{process_command-IsValid}

-- The commands whose replies depend only on what the database shows: DEL counts, KEYS and DBSIZE
-- walk over and INFO reports what is stored.
unfoldable pub is_covered : Bytes → Bool
is_covered name =
    not (str_eq (codes "DEL") name)
    && not (str_eq (codes "KEYS") name)
    && not (str_eq (codes "DBSIZE") name)
    && not (str_eq (codes "INFO") name)

-- Two functions that reply alike on databases that show the same.
abbrev AgreesFunc : ℤ → CommandFunc → CommandFunc → Type 0
AgreesFunc now f g =
    (args : List Bytes) (db db' : Db) → Same now db db' → Alike now (f args db) (g args db')

-- Two entries of one name: a command that agrees with itself, or any two that are not covered.
data Row (now : ℤ) : Bytes → CommandFunc → CommandFunc → Type 0 where
  replied :
      {k : Bytes} {cmd : List Bytes → Db → Bytes × Db}
      → Agrees now cmd
      → Row now k (quiet cmd) (quiet cmd)
  uncovered : (k : Bytes) {f g : CommandFunc} → is_covered k ≡ false → Row now k f g

infixr 5 ◌&◌
-- Two tables of the same names.
data Paired (now : ℤ) : Assoc CommandFunc → Assoc CommandFunc → Type 0 where
  unpaired : Paired now [] []
  ◌&◌ :
      {k : Bytes} {f g : CommandFunc} {t u : Assoc CommandFunc}
      → Row now k f g
      → Paired now t u
      → Paired now ((k, f) ∷ t) ((k, g) ∷ u)

Row-AgreesFunc :
    (now : ℤ) (k : Bytes) (f g : CommandFunc)
    → Row now k f g
    → is_covered k ≡ true
    → AgreesFunc now f g
Row-AgreesFunc now k f g (replied {cmd = cmd} h) covered args db db' same =
    Alike-map now returned (cmd args db) (cmd args db') (h args db db' same)
Row-AgreesFunc now k f g (uncovered _ gap) covered args db db' same = cc

-- What the tables hold under a name that is covered.
abbrev Found : ℤ → Option CommandFunc → Option CommandFunc → Type 0
Found now none none = Unit
Found now none (some g) = ⊥
Found now (some f) none = ⊥
Found now (some f) (some g) = AgreesFunc now f g

find-Found :
    (now : ℤ) (name : Bytes) (t u : Assoc CommandFunc)
    → Paired now t u
    → is_covered name ≡ true
    → Found now (Assoc.find name t) (Assoc.find name u)
unfolding Assoc.find
find-Found now name [] [] unpaired covered = tt
find-Found now name [] (_ ∷ u) paired covered = elim paired [ ]
find-Found now name ((k, f) ∷ t) [] paired covered = elim paired [ ]
find-Found now name ((k, f) ∷ t) ((k', g) ∷ u) (row & rest) covered =
    elim (Bool-cases (str_eq k name)) [
      | inl same ↦ rw same (Row-AgreesFunc now k f g row (rw ((str_eq_iff k name).0 same) covered))
      | inr other ↦ rw other (find-Found now name t u rest covered)
    ]

commands-Paired :
    (env : Env) (start_time start_time' : ℤ) (total total' : ℕ)
    → Paired env.now (commands env start_time total) (commands env start_time' total')
unfolding commands is_covered str_eq
commands-Paired env start_time start_time' total total' =
    replied (cmd_set-Agrees env.now)
    & replied (cmd_get-Agrees env.now)
    & uncovered (codes "DEL") refl
    & replied (cmd_exists-Agrees env.now)
    & replied (cmd_type-Agrees env.now)
    & replied (cmd_incr-Agrees env.now)
    & replied (cmd_decr-Agrees env.now)
    & replied (cmd_incr_by-Agrees env.now)
    & replied (cmd_decr_by-Agrees env.now)
    & replied (cmd_strlen-Agrees env.now)
    & replied (cmd_append-Agrees env.now)
    & replied (cmd_mget-Agrees env.now)
    & replied (cmd_mset-Agrees env.now)
    & replied (cmd_lpush-Agrees env.now)
    & replied (cmd_rpush-Agrees env.now)
    & replied (cmd_lpop-Agrees env.now)
    & replied (cmd_rpop-Agrees env.now)
    & replied (cmd_llen-Agrees env.now)
    & replied (cmd_lrange-Agrees env.now)
    & replied (cmd_lindex-Agrees env.now)
    & replied (cmd_lset-Agrees env.now)
    & replied (cmd_sadd-Agrees env.now)
    & replied (cmd_srem-Agrees env.now)
    & replied (cmd_sismember-Agrees env.now)
    & replied (cmd_scard-Agrees env.now)
    & replied (cmd_smembers-Agrees env.now)
    & replied (cmd_spop-Agrees env.pick env.now)
    & replied (cmd_hset-Agrees env.now)
    & replied (cmd_hget-Agrees env.now)
    & replied (cmd_hdel-Agrees env.now)
    & replied (cmd_hexists-Agrees env.now)
    & replied (cmd_hlen-Agrees env.now)
    & replied (cmd_hkeys-Agrees env.now)
    & replied (cmd_hvals-Agrees env.now)
    & replied (cmd_hgetall-Agrees env.now)
    & replied (cmd_expire-Agrees env.now)
    & replied (cmd_expireat-Agrees env.now)
    & replied (cmd_ttl-Agrees env.now)
    & replied (cmd_persist-Agrees env.now)
    & replied (cmd_ping-Agrees env.now)
    & replied (cmd_echo-Agrees env.now)
    & uncovered (codes "INFO") refl
    & replied (cmd_flushall-Agrees env.now)
    & uncovered (codes "KEYS") refl
    & uncovered (codes "DBSIZE") refl
    & replied (cmd_time-Agrees env.now)
    & unpaired

run_command-Alike :
    (now : ℤ) (name : Bytes) (args : List Bytes) (f g : Option CommandFunc) (db db' : Db)
    → Found now f g
    → Same now db db'
    → Alike now (run_command name args f db) (run_command name args g db')
unfolding run_command
run_command-Alike now name args none none db db' h same = (refl, same)
run_command-Alike now name args none (some g) db db' h same = absurd h
run_command-Alike now name args (some f) none db db' h same = absurd h
run_command-Alike now name args (some f) (some g) db db' h same =
    Alike-map now reply_of (f (name ∷ args) db) (g (name ∷ args) db') (h (name ∷ args) db db' same)

pub Same-cleaned : (now : ℤ) (total : ℕ) (db : Db) → IsValid db → Same now (cleaned now total db) db
unfolding cleaned
Same-cleaned now total db v = elim (Bool-cases (total % 100 == 0)) [
  | inl now_clean ↦ rw now_clean (Same-cleanup_expired_keys now db v.keys)
  | inr later ↦ rw later (λ j. refl)
]

-- A request whose name is covered, or an empty one.
abbrev IsCovered : List Bytes → Type 0
IsCovered [] = Unit
IsCovered (name ∷ args) = is_covered (to_upper name) ≡ true

module _ (env : Env) (h h' : CommandHandler) (v : IsValid h.db) (v' : IsValid h'.db) where
  process_command-Alike :
      (args : List Bytes)
      → IsCovered args
      → Same env.now h.db h'.db
      → ((process_command env args h).0 ≡ (process_command env args h').0)
        × Same env.now (process_command env args h).1.db (process_command env args h').1.db
  unfolding process_command
  process_command-Alike [] covered same = (refl, same)
  process_command-Alike (name ∷ args) covered same =
      let total = (h.total_commands_processed + 1) % 2 ^ 64 in
      let total' = (h'.total_commands_processed + 1) % 2 ^ 64 in
      run_command-Alike env.now name args _ _ (cleaned env.now total h.db)
        (cleaned env.now total' h'.db)
        (find-Found env.now (to_upper name) _ _
          (commands-Paired env h.start_time h'.start_time total total') covered)
        (λ j.
          Same-cleaned env.now total h.db v j
          ∙ same j
          ∙ sym (Same-cleaned env.now total' h'.db v' j))

-- The clock of a run of requests that starts at `now` never goes back.
abbrev pub Ordered : ℤ → List (Env × List Bytes) → Type 0
Ordered now [] = Unit
Ordered now ((env, args) ∷ requests) = (now ≤ℤ env.now) × Ordered env.now requests

-- Two handlers whose databases show the same at one time (they may hold different expired entries,
-- have counted different numbers of commands, and so clean up at different moments) give the same
-- replies to the same requests from then on, whatever arguments these have, if the clock does not
-- go back and no request is DEL, KEYS, DBSIZE or INFO.
pub replies_agree :
    (now : ℤ) (requests : List (Env × List Bytes)) (h h' : CommandHandler)
    → IsValid h.db
    → IsValid h'.db
    → Same now h.db h'.db
    → Ordered now requests
    → All (λ r. IsCovered r.1) requests
    → (process_all requests h).0 ≡ (process_all requests h').0
unfolding process_all
replies_agree now [] h h' v v' same ordered covered = refl
replies_agree now ((env, args) ∷ requests) h h' v v' same ordered covered =
    let (reply, after) =
      process_command-Alike env h h' v v' args covered.0
        (Same-later now env.now h.db h'.db ordered.0 same) in
    rw (
      reply,
      replies_agree env.now requests (process_command env args h).1 (process_command env args h').1
          (process_command-IsValid env args h v) (process_command-IsValid env args h' v') after
          ordered.1 covered.1,
    )
