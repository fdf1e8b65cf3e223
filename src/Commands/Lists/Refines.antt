-- ===== src/Commands/Lists/Refines.antt =====
-- The commands on lists as abstract commands on what their key shows.
use mathlib.Core.Path.{subst, fun_ext}
use mathlib.Core.List.{reverse}
use cpp_redis.Prelude.{
  ℕ, ◌≡◌, ◌&&◌, Option, none, some, List, [], ◌∷◌, ◌++◌, Bytes, codes, arith, length, set,
  Bool-cases, inl, inr,
}
use cpp_redis.Prelude.Int.{ℤ, pos}
use cpp_redis.Utils.{is_integer, parse_int}
use cpp_redis.Resp.Formatter.{
  format_error, format_simple_string, format_bulk_string, format_integer, format_array, format_null,
}
use cpp_redis.Database.{RedisType, RedisValue, Db, type_eq, is_expired, typed}
use cpp_redis.Database.View.{view}
use cpp_redis.Commands.Abstract.{
  if_integers, Refines-not_an_integer, reads, Refines, Refines-same, Refines-store,
  Refines-get_value, view-lives, Refines-reads,
}
use cpp_redis.Commands.Lists.{
  push_front, push_back, push_with, cmd_lpush, cmd_rpush, pop_front, pop_back, pop_with, cmd_lpop,
  cmd_rpop, cmd_llen, range, cmd_lrange, position, element_at, cmd_lindex, set_at, set_found,
  cmd_lset,
}
use cpp_redis.Commands.Lists.Moves.{
  with_list, pushes, pops, uncons, unsnoc, push_front-reverse, push_back-append, pop_front-uncons,
  pop_back-unsnoc, Refines-push, Refines-pop,
}

-- What LRANGE and LINDEX read of a list.
abbrev pub element_reply : Option Bytes → Bytes
element_reply none = format_null
element_reply (some x) = format_bulk_string x

-- LSET: the list with another element at a position, or an error.
abbrev pub replaces : RedisValue → Bytes → Option ℕ → Bytes × Option RedisValue
replaces v x none = (format_error (codes "ERR index out of range"), some v)
replaces v x (some i) =
    (format_simple_string (codes "OK"), some (with_list (set v.list_value i x) v))

abbrev pub sets_found :
    ℤ → Bytes → Option RedisValue → Option RedisValue → Bytes × Option RedisValue
sets_found index x o none = (format_error (codes "ERR no such key"), o)
sets_found index x o (some v) = replaces v x (position index (length v.list_value))

abbrev pub sets_at : ℤ → Bytes → Option RedisValue → Bytes × Option RedisValue
sets_at index x o = sets_found index x o (typed RedisType.list o)

module _ (now : ℤ) (name key : Bytes) (db : Db) where
  pub cmd_lpush-Refines :
      (x : Bytes) (xs : List Bytes)
      → Refines now key db
          (cmd_lpush now (name ∷ key ∷ x ∷ xs) db)
          (pushes (λ l. reverse (x ∷ xs) ++ l) (view now db key))
  unfolding cmd_lpush
  cmd_lpush-Refines x xs =
      subst
        (λ f.
          Refines now key db (push_with (push_front (x ∷ xs)) now key db)
            (pushes f (view now db key)))
        (fun_ext (push_front-reverse (x ∷ xs))) (Refines-push now key db (push_front (x ∷ xs)))

  pub cmd_rpush-Refines :
      (x : Bytes) (xs : List Bytes)
      → Refines now key db
          (cmd_rpush now (name ∷ key ∷ x ∷ xs) db)
          (pushes (λ l. l ++ x ∷ xs) (view now db key))
  unfolding cmd_rpush
  cmd_rpush-Refines x xs =
      subst
        (λ f.
          Refines now key db (push_with (push_back (x ∷ xs)) now key db)
            (pushes f (view now db key)))
        (fun_ext (push_back-append (x ∷ xs))) (Refines-push now key db (push_back (x ∷ xs)))

  pub cmd_lpop-Refines :
      Refines now key db (cmd_lpop now (name ∷ key ∷ []) db) (pops uncons (view now db key))
  unfolding cmd_lpop
  cmd_lpop-Refines =
      subst (λ f. Refines now key db (pop_with pop_front now key db) (pops f (view now db key)))
        (fun_ext pop_front-uncons) (Refines-pop now key db pop_front)

  pub cmd_rpop-Refines :
      Refines now key db (cmd_rpop now (name ∷ key ∷ []) db) (pops unsnoc (view now db key))
  unfolding cmd_rpop
  cmd_rpop-Refines =
      subst (λ f. Refines now key db (pop_with pop_back now key db) (pops f (view now db key)))
        (fun_ext pop_back-unsnoc) (Refines-pop now key db pop_back)

  pub cmd_llen-Refines : Refines now key db (cmd_llen now (name ∷ key ∷ []) db) (
      reads RedisType.list
        (format_integer (pos 0))
        (λ v. format_integer (pos (length v.list_value)))
        (view now db key))
  unfolding cmd_llen
  cmd_llen-Refines =
      Refines-reads now key db RedisType.list _ _
        (λ o d. elim (typed RedisType.list o) [
          | none ↦ (format_integer (pos 0), d)
          | some v ↦ (format_integer (pos (length v.list_value)), d)
        ])
        (λ o d. ground arith)

  pub cmd_lrange-Refines :
      (start end : Bytes)
      → Refines now key db (cmd_lrange now (name ∷ key ∷ start ∷ end ∷ []) db) (
          if_integers
            (is_integer start && is_integer end)
            (reads RedisType.list
              (format_array [])
              (λ v. format_array (range (parse_int start) (parse_int end) v.list_value)))
            (view now db key))
  unfolding cmd_lrange
  cmd_lrange-Refines start end = elim (Bool-cases (is_integer start && is_integer end)) [
    | inr other ↦ rw other (Refines-not_an_integer now key db)
    | inl numbers ↦ rw numbers (
        Refines-reads now key db RedisType.list (format_array [])
          (λ v. format_array (range (parse_int start) (parse_int end) v.list_value))
          (λ o d. elim (typed RedisType.list o) [
            | none ↦ (format_array [], d)
            | some v ↦ (format_array (range (parse_int start) (parse_int end) v.list_value), d)
          ])
          (λ o d. ground arith))
  ]

  pub cmd_lindex-Refines :
      (index : Bytes)
      → Refines now key db (cmd_lindex now (name ∷ key ∷ index ∷ []) db) (
          if_integers
            (is_integer index)
            (reads RedisType.list format_null
              (λ v. element_reply (element_at (parse_int index) v.list_value)))
            (view now db key))
  unfolding cmd_lindex
  cmd_lindex-Refines index = elim (Bool-cases (is_integer index)) [
    | inr other ↦ rw other (Refines-not_an_integer now key db)
    | inl number ↦ rw number (
        Refines-reads now key db RedisType.list format_null
          (λ v. element_reply (element_at (parse_int index) v.list_value))
          (λ o d. elim (typed RedisType.list o) [
            | none ↦ (format_null, d)
            | some v ↦ elim (element_at (parse_int index) v.list_value) [
              | none ↦ (format_null, d)
              | some x ↦ (format_bulk_string x, d)
            ]
          ])
          (λ o d. ground arith))
  ]

  set_at-Refines :
      (v : RedisValue) (x : Bytes) (o : Option ℕ) (d : Db)
      → ((j : Bytes) → view now d j ≡ view now db j)
      → view now db key ≡ some v
      → Refines now key db (set_at key v o x d) (replaces v x o)
  unfolding set_at is_expired
  set_at-Refines v x none d same shown =
      Refines-same now key db (format_error (codes "ERR index out of range")) d (some v) same shown
  set_at-Refines v x (some i) d same shown =
      Refines-store now key db (format_simple_string (codes "OK")) d
        (with_list (set v.list_value i x) v) (λ j other. same j) (view-lives now key db v shown)

  set_found-Refines :
      (index : ℤ) (x : Bytes) (o : Option RedisValue) (d : Db)
      → ((j : Bytes) → view now d j ≡ view now db j)
      → view now db key ≡ o
      → Refines now key db (set_found index key x (typed RedisType.list o) d) (sets_at index x o)
  unfolding set_found typed
  set_found-Refines index x none d same shown =
      Refines-same now key db (format_error (codes "ERR no such key")) d none same shown
  set_found-Refines index x (some v) d same shown =
      elim (Bool-cases (type_eq v.type RedisType.list)) [
        | inl fits ↦
            rw fits (set_at-Refines v x (position index (length v.list_value)) d same shown)
        | inr other ↦
            rw other (
              Refines-same now key db (format_error (codes "ERR no such key")) d (some v) same
                shown)
      ]

  pub cmd_lset-Refines :
      (index x : Bytes)
      → Refines now key db
          (cmd_lset now (name ∷ key ∷ index ∷ x ∷ []) db)
          (if_integers (is_integer index) (sets_at (parse_int index) x) (view now db key))
  unfolding cmd_lset
  cmd_lset-Refines index x = elim (Bool-cases (is_integer index)) [
    | inr other ↦ rw other (Refines-not_an_integer now key db)
    | inl number ↦ rw number (
        Refines-get_value now key db
          (λ o d. set_found (parse_int index) key x (typed RedisType.list o) d)
          (sets_at (parse_int index) x) (λ o d. set_found-Refines (parse_int index) x o d))
  ]
