-- ===== src/Threads/Alone/Strings.antt =====
-- The commands of string_commands.cpp that have one key, as their accesses.
use cpp_redis.Prelude.{
  ◌≡◌, refl, none, some, [], ◌∷◌, Bytes, codes, arith, length, Bool-cases, inl, inr,
}
use cpp_redis.Prelude.Int.{ℤ, pos}
use cpp_redis.Prelude.Assoc
use cpp_redis.Utils.{is_integer}
use cpp_redis.Resp.Formatter.{format_simple_string, format_bulk_string, format_integer, format_null}
use cpp_redis.Database.{RedisValue, Db, of_string, set_value, delete_key}
use cpp_redis.Commands.Strings.{
  Current, current, refused, string_of, type_name, cmd_get, cmd_type, current_of, counted, count_by,
  cmd_incr, cmd_decr, cmd_incr_by, cmd_decr_by, appended, cmd_append, cmd_del, delete_all,
}
use cpp_redis.Threads.{Cell, reply, assign, erase_cell, put, run}
use cpp_redis.Threads.Commands.{
  get_reply, code_get, code_type, count_on, count_code, code_incr, code_decr, code_incr_by,
  code_decr_by, append_on, code_append, code_del,
}
use cpp_redis.Threads.Rules.{Leaves, Ends, Leaves-start, Leaves-put, Leaves-erase, Ends-reply}
use cpp_redis.Threads.Alone.{Alone, Ends-on_value, Ends-read, Ends-start}

pub cmd_get-Alone : (now : ℤ) → Alone now code_get (cmd_get now)
unfolding code_get cmd_get get_reply string_of
cmd_get-Alone now name key [] db c h =
    Ends-read key db now _ (λ v. get_reply (string_of (some v)))
      (λ o d. elim (string_of o) [ none ↦ (format_null, d) | some s ↦ (format_bulk_string s, d) ]) c
      db (Leaves-start key db c h) (λ d. refl) (λ v. ground arith)
cmd_get-Alone now name key (x ∷ rest) db c h = Ends-start now key _ db c h

pub cmd_type-Alone : (now : ℤ) → Alone now code_type (cmd_type now)
unfolding code_type cmd_type
cmd_type-Alone now name key [] db c h =
    Ends-read key db now _ (λ v. format_simple_string (type_name v.type))
      (λ o d. elim o [
        | none ↦ (format_simple_string (codes "none"), d)
        | some v ↦ (format_simple_string (type_name v.type), d)
      ])
      c db (Leaves-start key db c h) (λ d. refl) (λ v. refl)
cmd_type-Alone now name key (x ∷ rest) db c h = Ends-start now key _ db c h

module _ (now : ℤ) (key : Bytes) (db : Db) (c : Cell) (h : c.value ≡ Assoc.find key db) where
  -- A reply, and a value that is stored.
  Ends-assign :
      (c' : Cell) (d : Db) (v : RedisValue) (r : Bytes)
      → Leaves key db c' d
      → Ends now key db (assign v (reply r)) c' (r, set_value key v d)
  unfolding set_value run
  Ends-assign c' d v r left = (put v c', refl, Leaves-put key db v c' d left)

  Ends-count_on :
      (step : ℤ → ℤ) (n : Current) (c' : Cell) (d : Db)
      → Leaves key db c' d
      → Ends now key db (count_on step n) c' (counted step key n d)
  unfolding count_on counted
  Ends-count_on step (refused message) c' d left = Ends-reply key db now message c' d left
  Ends-count_on step (current n) c' d left = Ends-assign c' d _ _ left

  Ends-count : (step : ℤ → ℤ) → Ends now key db (count_code step) c (count_by step now key db)
  unfolding count_code count_by current_of
  Ends-count step =
      Ends-on_value key db now (count_on step (current_of none))
        (λ p v. count_on step (current_of (some v))) (λ o d. counted step key (current_of o) d) c db
        (Leaves-start key db c h) (λ c' d left gone. Ends-count_on step (current_of none) c' d left)
        (λ v here lives. Ends-count_on step (current_of (some v)) c db (Leaves-start key db c h))

pub cmd_incr-Alone : (now : ℤ) → Alone now code_incr (cmd_incr now)
unfolding code_incr cmd_incr
cmd_incr-Alone now name key [] db c h = Ends-count now key db c h _
cmd_incr-Alone now name key (x ∷ rest) db c h = Ends-start now key _ db c h

pub cmd_decr-Alone : (now : ℤ) → Alone now code_decr (cmd_decr now)
unfolding code_decr cmd_decr
cmd_decr-Alone now name key [] db c h = Ends-count now key db c h _
cmd_decr-Alone now name key (x ∷ rest) db c h = Ends-start now key _ db c h

pub cmd_incr_by-Alone : (now : ℤ) → Alone now code_incr_by (cmd_incr_by now)
unfolding code_incr_by cmd_incr_by
cmd_incr_by-Alone now name key [] db c h = Ends-start now key _ db c h
cmd_incr_by-Alone now name key (x ∷ []) db c h = elim (Bool-cases (is_integer x)) [
  | inl number ↦ rw number (Ends-count now key db c h _)
  | inr other ↦ rw other (Ends-start now key _ db c h)
]
cmd_incr_by-Alone now name key (x ∷ y ∷ rest) db c h = Ends-start now key _ db c h

pub cmd_decr_by-Alone : (now : ℤ) → Alone now code_decr_by (cmd_decr_by now)
unfolding code_decr_by cmd_decr_by
cmd_decr_by-Alone now name key [] db c h = Ends-start now key _ db c h
cmd_decr_by-Alone now name key (x ∷ []) db c h = elim (Bool-cases (is_integer x)) [
  | inl number ↦ rw number (Ends-count now key db c h _)
  | inr other ↦ rw other (Ends-start now key _ db c h)
]
cmd_decr_by-Alone now name key (x ∷ y ∷ rest) db c h = Ends-start now key _ db c h

pub cmd_append-Alone : (now : ℤ) → Alone now code_append (cmd_append now)
unfolding code_append cmd_append append_on
cmd_append-Alone now name key [] db c h = Ends-start now key _ db c h
cmd_append-Alone now name key (x ∷ []) db c h =
    Ends-on_value key db now (append_on (appended none x)) (λ p v. append_on (appended (some v) x))
      (λ o d.
        (format_integer (pos (length (appended o x))), set_value key (of_string (appended o x)) d))
      c db (Leaves-start key db c h) (λ c' d left gone. Ends-assign now key db c h c' d _ _ left)
      (λ v here lives. Ends-assign now key db c h c db _ _ (Leaves-start key db c h))
cmd_append-Alone now name key (x ∷ y ∷ rest) db c h = Ends-start now key _ db c h

-- DEL of one key.
pub cmd_del-Alone :
    (now : ℤ) (name key : Bytes) (db : Db) (c : Cell)
    → c.value ≡ Assoc.find key db
    → Ends now key db (code_del (name ∷ key ∷ [])) c (cmd_del now (name ∷ key ∷ []) db)
unfolding code_del cmd_del delete_all delete_key Assoc.contains run
cmd_del-Alone now name key db c h =
    (erase_cell c, ground (arith), Leaves-erase key db c db (Leaves-start key db c h))
