-- ===== src/Tests/Replies.antt =====
-- Examples for the database, the handler and the commands on strings and expiry.
use cpp_redis.Prelude.{
  ◌-◌, ◌/◌, ◌≡◌, refl, inr, none, some, [], ◌∷◌, Bytes, codes, arith, ltb, if◌then◌else◌, str_eq,
}
use cpp_redis.Prelude.Int.{pos, negsuc, ◌+ℤ◌, InInt64}
use cpp_redis.Prelude.Assoc.{find, Distinct}
use cpp_redis.Number.{digits, decimal, to_string}
use cpp_redis.Resp.Formatter.{format_bulk_string, format_integer, format_null}
use cpp_redis.Database.{of_string, is_expired}
use cpp_redis.Database.View.{view}
use cpp_redis.Database.Invariant.{IsValid}
use cpp_redis.Commands.Strings.{cmd_get, cmd_set, cmd_exists, cmd_incr_by, cmd_mset}
use cpp_redis.Commands.Strings.Replies.{
  flat, last_of, live_count, get-set, exists_counts, mset_stores,
}
use cpp_redis.Commands.Strings.Counters.{incr_by_sum}
use cpp_redis.Commands.Ttl.{cmd_expire, cmd_ttl}
use cpp_redis.Commands.Ttl.Expiry.{deadline, expiring, get-set_ex, ttl-expire}
use cpp_redis.Handler.{process_all, new_handler}
use cpp_redis.Handler.Keeps.{reachable-IsValid}
use cpp_redis.Tests.{start, soon, late, env, some_db}

reachable-IsValid_example :
    IsValid
      (process_all
        ((env, codes "rpush" ∷ codes "l" ∷ codes "a" ∷ [])
          ∷ (env, codes "LPOP" ∷ codes "l" ∷ [])
          ∷ [])
        (new_handler (pos start))).1.db
reachable-IsValid_example =
    reachable-IsValid (pos start) (
      (env, codes "rpush" ∷ codes "l" ∷ codes "a" ∷ []) ∷ (env, codes "LPOP" ∷ codes "l" ∷ []) ∷ [])

get-set_example :
    ((cmd_get
        (pos late)
        (codes "GET" ∷ codes "t" ∷ [])
        (cmd_set (pos start) (codes "SET" ∷ codes "t" ∷ codes "new" ∷ []) some_db).1).0
      ≡ format_bulk_string (codes "new"))
    × (view
          (pos late)
          (cmd_set (pos start) (codes "SET" ∷ codes "t" ∷ codes "new" ∷ []) some_db).1
          (codes "n")
        ≡ (if str_eq (codes "t") (codes "n")
            then some (of_string (codes "new"))
            else view (pos late) some_db (codes "n")))
get-set_example =
    get-set (pos start) (pos late) (codes "SET") (codes "GET") (codes "t") (codes "new") some_db
      (codes "n")

get-set_ex_example :
    (cmd_get
      (pos late)
      (codes "GET" ∷ codes "t" ∷ [])
      (cmd_set
        (pos start)
        (codes "SET" ∷ codes "t" ∷ codes "new" ∷ codes "EX" ∷ to_string (pos 10) ∷ [])
        some_db).1).0
    ≡ (if ltb late (deadline start 10) then format_bulk_string (codes "new") else format_null)
get-set_ex_example =
    get-set_ex start late 10 (codes "SET") (codes "GET") (codes "t") (codes "new") some_db
      (omega arith)

held_n : view (pos start) some_db (codes "n") ≡ some (of_string (to_string (pos 41)))
unfolding view find is_expired to_string decimal digits str_eq
held_n = refl

ttl-expire_example :
    ((cmd_expire (pos start) (codes "EXPIRE" ∷ codes "n" ∷ to_string (pos 10) ∷ []) some_db).0
      ≡ format_integer (pos 1))
    × ((cmd_ttl
          (pos soon)
          (codes "TTL" ∷ codes "n" ∷ [])
          (cmd_expire
            (pos start)
            (codes "EXPIRE" ∷ codes "n" ∷ to_string (pos 10) ∷ [])
            some_db).1).0
        ≡ (if ltb soon (deadline start 10)
            then format_integer (pos ((deadline start 10 - soon) / 1000000000))
            else format_integer (negsuc 1)))
    × (view
          (pos soon)
          (cmd_expire (pos start) (codes "EXPIRE" ∷ codes "n" ∷ to_string (pos 10) ∷ []) some_db).1
          (codes "n")
        ≡ (if ltb soon (deadline start 10)
            then some (expiring (deadline start 10) (of_string (to_string (pos 41))))
            else none))
ttl-expire_example =
    ttl-expire start soon 10 (codes "EXPIRE") (codes "TTL") (codes "n") some_db
      (of_string (to_string (pos 41))) (omega arith) (omega arith) held_n

fits_31 : InInt64 (pos 41 +ℤ negsuc 9)
unfolding ◌+ℤ◌
fits_31 = (omega arith, omega arith)

incr_by_sum_example :
    ((cmd_incr_by (pos start) (codes "INCRBY" ∷ codes "n" ∷ to_string (negsuc 9) ∷ []) some_db).0
      ≡ format_integer (pos 41 +ℤ negsuc 9))
    × (view
          (pos start)
          (cmd_incr_by
            (pos start)
            (codes "INCRBY" ∷ codes "n" ∷ to_string (negsuc 9) ∷ [])
            some_db).1
          (codes "n")
        ≡ (if str_eq (codes "n") (codes "n")
            then some (of_string (to_string (pos 41 +ℤ negsuc 9)))
            else view (pos start) some_db (codes "n")))
incr_by_sum_example =
    incr_by_sum (pos start) (codes "INCRBY") (codes "n") some_db (pos 41) (negsuc 9) (codes "n")
      (inr (held_n, (omega arith, omega arith))) (omega arith, omega arith) fits_31

exists_counts_example :
    ((cmd_exists (pos late) (codes "EXISTS" ∷ codes "n" ∷ codes "t" ∷ codes "n" ∷ []) some_db).0
      ≡ format_integer
          (pos (live_count (pos late) some_db (codes "n" ∷ codes "t" ∷ codes "n" ∷ []))))
    × ((j : Bytes)
        → view
            (pos late)
            (cmd_exists
              (pos late)
              (codes "EXISTS" ∷ codes "n" ∷ codes "t" ∷ codes "n" ∷ [])
              some_db).1
            j
          ≡ view (pos late) some_db j)
exists_counts_example =
    exists_counts (pos late) (codes "EXISTS") (codes "n") (codes "t" ∷ codes "n" ∷ []) some_db

mset_stores_example :
    view
      (pos start)
      (cmd_mset
        (pos start)
        (codes "MSET" ∷ flat ((codes "n", codes "1") ∷ (codes "n", codes "2") ∷ []))
        some_db).1
      (codes "n")
    ≡ last_of
        ((codes "n", codes "1") ∷ (codes "n", codes "2") ∷ [])
        (codes "n")
        (view (pos start) some_db (codes "n"))
mset_stores_example =
    mset_stores (pos start) (codes "MSET") (codes "n", codes "1") ((codes "n", codes "2") ∷ [])
      some_db (codes "n")

Distinct-some_db : Distinct some_db
unfolding find str_eq
Distinct-some_db = (refl, (refl, (refl, tt)))
