-- ===== src/Tests/Races.antt =====
-- Examples for the commands of several threads.
use cpp_redis.Prelude.{◌+◌, ◌≡◌, refl, inr, true, some, none, [], ◌∷◌, Bytes, codes, arith, map}
use cpp_redis.Prelude.Int.{pos, ◌+ℤ◌, wrap_int64}
use cpp_redis.Prelude.Assoc
use cpp_redis.Number.{to_string}
use cpp_redis.Resp.Formatter.{format_integer}
use cpp_redis.Database.{RedisType, RedisValue, of_string, of_type, is_expired}
use cpp_redis.Commands.Strings.Counters.{current_of-Counts}
use cpp_redis.Threads.{Cell, reply, access, clean_up, play}
use cpp_redis.Threads.Commands.{code_incr, code_del, code_rpush}
use cpp_redis.Threads.Alone.Whole.{AsOneStep, ReadAsOneStep, ChangeAsOneStep, commands_alone}
use cpp_redis.Threads.Races.{
  two_threads, one_thread, shown, lost_update, dangling_push, cleanup_dangles,
}
use cpp_redis.Tests.{start, soon, some_db}

abbrev number_41 : RedisValue
number_41 = of_string (to_string (pos 41))

-- The cells of some_db.
abbrev some_cells : Bytes → Cell
some_cells key = record { value = Assoc.find key some_db; erased = 0 }

abbrev one_list : RedisValue
one_list = record (of_type RedisType.list) { list_value = codes "a" ∷ [] }

abbrev list_cells : Bytes → Cell
list_cells key = record { value = some one_list; erased = 0 }

abbrev number_cells : Bytes → Cell
number_cells key = record { value = some number_41; erased = 0 }

commands_alone_example :
    AsOneStep
      (pos start)
      (codes "RPUSH")
      (codes "l")
      (codes "b" ∷ [])
      some_db
      (some_cells (codes "l"))
    × ReadAsOneStep
        (pos start)
        (codes "RPUSH")
        (codes "l")
        (codes "b" ∷ [])
        some_db
        (some_cells (codes "l"))
    × ChangeAsOneStep
        (pos start)
        (codes "RPUSH")
        (codes "l")
        (codes "b" ∷ [])
        some_db
        (some_cells (codes "l"))
commands_alone_example =
    commands_alone (pos start) (codes "RPUSH") (codes "l") (codes "b" ∷ []) some_db
      (some_cells (codes "l")) refl

lost_update_example :
    shown (codes "n") (
      play (map access (0 ∷ 0 ∷ 1 ∷ 1 ∷ 0 ∷ 1 ∷ [])) (
        two_threads
          (codes "n")
          (pos start)
          (code_incr (codes "INCR" ∷ codes "n" ∷ []))
          (code_incr (codes "incr" ∷ codes "n" ∷ []))
          number_cells))
    ≡ some (
      reply (format_integer (wrap_int64 (pos 41 +ℤ pos 1)))
          ∷ reply (format_integer (wrap_int64 (pos 41 +ℤ pos 1)))
          ∷ [],
      some (of_string (to_string (wrap_int64 (pos 41 +ℤ pos 1)))),
    )
unfolding is_expired
lost_update_example =
    lost_update (codes "n") (codes "INCR") (codes "incr") (pos start) (pos 41) number_41
      number_cells refl refl
      (current_of-Counts (some number_41) (pos 41) (inr (refl, (omega arith, omega arith))))

dangling_push_example :
    play (map access (0 ∷ 0 ∷ 1 ∷ 0 ∷ [])) (
      two_threads
        (codes "l")
        (pos start)
        (code_rpush (codes "RPUSH" ∷ codes "l" ∷ codes "b" ∷ []))
        (code_del (codes "DEL" ∷ codes "l" ∷ []))
        list_cells)
    ≡ none
unfolding is_expired
dangling_push_example =
    dangling_push (codes "l") (codes "RPUSH") (codes "DEL") (codes "b") [] (pos start) one_list
      list_cells refl refl refl

-- A list that dies soon after its key was looked up.
abbrev dying_list : RedisValue
dying_list = record one_list { expiry = pos (start + 1); has_expiry = true }

abbrev dying_cells : Bytes → Cell
dying_cells key = record { value = some dying_list; erased = 0 }

cleanup_dangles_example :
    play (access 0 ∷ access 0 ∷ clean_up (pos soon) ∷ access 0 ∷ []) (
      one_thread
        (codes "l")
        (pos start)
        (code_rpush (codes "RPUSH" ∷ codes "l" ∷ codes "b" ∷ []))
        dying_cells)
    ≡ none
unfolding is_expired
cleanup_dangles_example =
    cleanup_dangles (codes "l") (codes "RPUSH") (codes "b") [] (pos start) (pos soon) dying_list
      dying_cells refl refl refl refl
