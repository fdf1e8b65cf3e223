-- ===== src/Commands/Strings/Agrees.antt =====
-- The commands on strings, but for DEL, reply alike on databases that show the same.
use cpp_redis.Prelude.{
  ℕ, ◌+◌, refl, Bool, true, false, Option, none, some, List, [], ◌∷◌, Bytes, codes, length,
  if◌then◌else◌, str_eq,
}
use cpp_redis.Prelude.Int.{ℤ, pos}
use cpp_redis.Utils.{is_integer, parse_int, to_upper}
use cpp_redis.Resp.Formatter.{
  format_simple_string, format_bulk_string, format_integer, format_array, format_null,
}
use cpp_redis.Database.{RedisValue, Db, of_string, set_value, seconds, set_expiry}
use cpp_redis.Database.Same.{
  Same, Alike, Agrees, Same-set_value, Alike-get_value, Alike-key_exists, Alike-then, Alike-read,
  Alike-if, Alike-map,
}
use cpp_redis.Commands.Errors.{not_an_integer}
use cpp_redis.Commands.Strings.{
  Options, Current, replied, set_options, set_reply, cmd_set, string_of, cmd_get, count_existing,
  cmd_exists, type_name, cmd_type, current, refused, current_of, counted, count_by, cmd_incr,
  cmd_decr, cmd_incr_by, cmd_decr_by, cmd_strlen, appended, cmd_append, get_all, cmd_mget, set_all,
  pairs_of, mset_reply, cmd_mset,
}

options_if-Alike :
    (now : ℤ) (key : Bytes) (b : Bool) (p q p' q' : Options)
    → Alike now (set_reply key p) (set_reply key p')
    → Alike now (set_reply key q) (set_reply key q')
    → Alike now (set_reply key (if b then p else q)) (set_reply key (if b then p' else q'))
options_if-Alike now key true p q p' q' h k = h
options_if-Alike now key false p q p' q' h k = k

set_options-Alike :
    (now : ℤ) (key : Bytes) (options : List Bytes) (value : RedisValue) (d d' : Db)
    → Same now d d'
    → Alike now
        (set_reply key (set_options now key options value d))
        (set_reply key (set_options now key options value d'))
unfolding set_reply set_options
set_options-Alike now key [] value d d' same = (refl, Same-set_value now key value d d' same)
set_options-Alike now key (option ∷ []) value d d' same = (refl, same)
set_options-Alike now key (option ∷ arg ∷ rest) value d d' same =
    let param = to_upper option in
    let in_seconds = set_expiry now (seconds (parse_int arg)) value in
    let in_milliseconds = set_expiry now (parse_int arg) value in
    let step = λ (b : Bool) (p q p' q' : Options). options_if-Alike now key b p q p' q' in
    let after_ex = set_options-Alike now key rest in_seconds d d' same in
    let after_px = set_options-Alike now key rest in_milliseconds d d' same in
    let skipped = set_options-Alike now key rest value d d' same in
    let refused' : (r : Bytes)
        → Alike now (set_reply key (replied r d)) (set_reply key (replied r d')) =
      λ r. (refl, same) in
    step (str_eq param (codes "EX")) _ _ _ _
      (step (is_integer arg) _ _ _ _ after_ex (refused' not_an_integer))
      (step (str_eq param (codes "PX")) _ _ _ _
        (step (is_integer arg) _ _ _ _ after_px (refused' not_an_integer))
        (step (str_eq param (codes "NX")) _ _ _ _
          (Alike-then now _ _
            (λ found e.
              set_reply key
                (if found then replied format_null e else set_options now key (arg ∷ rest) value e))
            (Alike-key_exists now key d d' same)
            (λ found e e' s.
              step found _ _ _ _ (refl, s) (set_options-Alike now key (arg ∷ rest) value e e' s)))
          (step (str_eq param (codes "XX")) _ _ _ _
            (Alike-then now _ _
              (λ found e.
                set_reply key (
                  if found
                  then set_options now key (arg ∷ rest) value e
                  else replied format_null e))
              (Alike-key_exists now key d d' same)
              (λ found e e' s.
                step found _ _ _ _ (set_options-Alike now key (arg ∷ rest) value e e' s) (refl, s)))
            skipped)))

pub cmd_set-Agrees : (now : ℤ) → Agrees now (cmd_set now)
unfolding cmd_set
cmd_set-Agrees now (name ∷ key ∷ value ∷ options) db db' same =
    set_options-Alike now key options (of_string value) db db' same
cmd_set-Agrees now [] db db' same = (refl, same)
cmd_set-Agrees now (name ∷ []) db db' same = (refl, same)
cmd_set-Agrees now (name ∷ key ∷ []) db db' same = (refl, same)

pub cmd_get-Agrees : (now : ℤ) → Agrees now (cmd_get now)
unfolding cmd_get
cmd_get-Agrees now (name ∷ key ∷ []) db db' same =
    Alike-then now _ _
      (λ o d. elim (string_of o) [ none ↦ (format_null, d) | some s ↦ (format_bulk_string s, d) ])
      (Alike-get_value now key db db' same) (λ o. Alike-read now (string_of o) format_null _)
cmd_get-Agrees now [] db db' same = (refl, same)
cmd_get-Agrees now (name ∷ []) db db' same = (refl, same)
cmd_get-Agrees now (name ∷ key ∷ more ∷ args) db db' same = (refl, same)

counted-Alike :
    (now : ℤ) (step : ℤ → ℤ) (key : Bytes) (c : Current) (d d' : Db)
    → Same now d d'
    → Alike now (counted step key c d) (counted step key c d')
unfolding counted
counted-Alike now step key (refused message) d d' same = (refl, same)
counted-Alike now step key (current n) d d' same = (refl, Same-set_value now key _ d d' same)

count_by-Alike :
    (step : ℤ → ℤ) (now : ℤ) (key : Bytes) (db db' : Db)
    → Same now db db'
    → Alike now (count_by step now key db) (count_by step now key db')
unfolding count_by
count_by-Alike step now key db db' same =
    Alike-then now _ _ (λ o. counted step key (current_of o)) (Alike-get_value now key db db' same)
      (λ o. counted-Alike now step key (current_of o))

pub cmd_incr-Agrees : (now : ℤ) → Agrees now (cmd_incr now)
unfolding cmd_incr
cmd_incr-Agrees now (name ∷ key ∷ []) db db' same = count_by-Alike _ now key db db' same
cmd_incr-Agrees now [] db db' same = (refl, same)
cmd_incr-Agrees now (name ∷ []) db db' same = (refl, same)
cmd_incr-Agrees now (name ∷ key ∷ more ∷ args) db db' same = (refl, same)

pub cmd_decr-Agrees : (now : ℤ) → Agrees now (cmd_decr now)
unfolding cmd_decr
cmd_decr-Agrees now (name ∷ key ∷ []) db db' same = count_by-Alike _ now key db db' same
cmd_decr-Agrees now [] db db' same = (refl, same)
cmd_decr-Agrees now (name ∷ []) db db' same = (refl, same)
cmd_decr-Agrees now (name ∷ key ∷ more ∷ args) db db' same = (refl, same)

pub cmd_incr_by-Agrees : (now : ℤ) → Agrees now (cmd_incr_by now)
unfolding cmd_incr_by
cmd_incr_by-Agrees now (name ∷ key ∷ n ∷ []) db db' same =
    Alike-if now (is_integer n) _ _ _ _ _ (count_by-Alike _ now key db db' same) same
cmd_incr_by-Agrees now [] db db' same = (refl, same)
cmd_incr_by-Agrees now (name ∷ []) db db' same = (refl, same)
cmd_incr_by-Agrees now (name ∷ key ∷ []) db db' same = (refl, same)
cmd_incr_by-Agrees now (name ∷ key ∷ n ∷ more ∷ args) db db' same = (refl, same)

pub cmd_decr_by-Agrees : (now : ℤ) → Agrees now (cmd_decr_by now)
unfolding cmd_decr_by
cmd_decr_by-Agrees now (name ∷ key ∷ n ∷ []) db db' same =
    Alike-if now (is_integer n) _ _ _ _ _ (count_by-Alike _ now key db db' same) same
cmd_decr_by-Agrees now [] db db' same = (refl, same)
cmd_decr_by-Agrees now (name ∷ []) db db' same = (refl, same)
cmd_decr_by-Agrees now (name ∷ key ∷ []) db db' same = (refl, same)
cmd_decr_by-Agrees now (name ∷ key ∷ n ∷ more ∷ args) db db' same = (refl, same)

pub cmd_strlen-Agrees : (now : ℤ) → Agrees now (cmd_strlen now)
unfolding cmd_strlen
cmd_strlen-Agrees now (name ∷ key ∷ []) db db' same =
    Alike-then now _ _
      (λ o d. elim (string_of o) [
        | none ↦ (format_integer (pos 0), d)
        | some s ↦ (format_integer (pos (length s)), d)
      ])
      (Alike-get_value now key db db' same) (λ o. Alike-read now (string_of o) _ _)
cmd_strlen-Agrees now [] db db' same = (refl, same)
cmd_strlen-Agrees now (name ∷ []) db db' same = (refl, same)
cmd_strlen-Agrees now (name ∷ key ∷ more ∷ args) db db' same = (refl, same)

pub cmd_append-Agrees : (now : ℤ) → Agrees now (cmd_append now)
unfolding cmd_append
cmd_append-Agrees now (name ∷ key ∷ x ∷ []) db db' same =
    Alike-then now _ _
      (λ o d.
        (format_integer (pos (length (appended o x))), set_value key (of_string (appended o x)) d))
      (Alike-get_value now key db db' same) (λ o d d' s. (refl, Same-set_value now key _ d d' s))
cmd_append-Agrees now [] db db' same = (refl, same)
cmd_append-Agrees now (name ∷ []) db db' same = (refl, same)
cmd_append-Agrees now (name ∷ key ∷ []) db db' same = (refl, same)
cmd_append-Agrees now (name ∷ key ∷ x ∷ more ∷ args) db db' same = (refl, same)

pub cmd_type-Agrees : (now : ℤ) → Agrees now (cmd_type now)
unfolding cmd_type
cmd_type-Agrees now (name ∷ key ∷ []) db db' same =
    Alike-then now _ _
      (λ o d. elim o [
        | none ↦ (format_simple_string (codes "none"), d)
        | some v ↦ (format_simple_string (type_name v.type), d)
      ])
      (Alike-get_value now key db db' same) (λ o. Alike-read now o _ _)
cmd_type-Agrees now [] db db' same = (refl, same)
cmd_type-Agrees now (name ∷ []) db db' same = (refl, same)
cmd_type-Agrees now (name ∷ key ∷ more ∷ args) db db' same = (refl, same)

count_existing-Alike :
    (now : ℤ) (keys : List Bytes) (n : ℕ) (db db' : Db)
    → Same now db db'
    → Alike now (count_existing now keys n db) (count_existing now keys n db')
unfolding count_existing
count_existing-Alike now [] n db db' same = (refl, same)
count_existing-Alike now (key ∷ keys) n db db' same =
    Alike-then now _ _ (λ found. count_existing now keys (if found then n + 1 else n))
      (Alike-key_exists now key db db' same)
      (λ found. count_existing-Alike now keys (if found then n + 1 else n))

pub cmd_exists-Agrees : (now : ℤ) → Agrees now (cmd_exists now)
unfolding cmd_exists
cmd_exists-Agrees now (name ∷ key ∷ keys) db db' same =
    Alike-map now (λ n. format_integer (pos n)) _ _
      (count_existing-Alike now (key ∷ keys) 0 db db' same)
cmd_exists-Agrees now [] db db' same = (refl, same)
cmd_exists-Agrees now (name ∷ []) db db' same = (refl, same)

get_all-Alike :
    (now : ℤ) (keys : List Bytes) (db db' : Db)
    → Same now db db'
    → Alike now (get_all now keys db) (get_all now keys db')
unfolding get_all
get_all-Alike now [] db db' same = (refl, same)
get_all-Alike now (key ∷ keys) db db' same =
    Alike-then now _ _
      (λ o d. (
        elim (string_of o) [ none ↦ [] | some s ↦ s ] ∷ (get_all now keys d).0,
        (get_all now keys d).1,
      ))
      (Alike-get_value now key db db' same)
      (λ o d d' s.
        Alike-map now (λ l. elim (string_of o) [ none ↦ [] | some s ↦ s ] ∷ l) _ _
          (get_all-Alike now keys d d' s))

pub cmd_mget-Agrees : (now : ℤ) → Agrees now (cmd_mget now)
unfolding cmd_mget
cmd_mget-Agrees now (name ∷ key ∷ keys) db db' same =
    Alike-map now format_array _ _ (get_all-Alike now (key ∷ keys) db db' same)
cmd_mget-Agrees now [] db db' same = (refl, same)
cmd_mget-Agrees now (name ∷ []) db db' same = (refl, same)

set_all-Same :
    (now : ℤ) (pairs : List (Bytes × Bytes)) (db db' : Db)
    → Same now db db'
    → Same now (set_all pairs db) (set_all pairs db')
unfolding set_all
set_all-Same now [] db db' same = same
set_all-Same now ((key, value) ∷ pairs) db db' same =
    set_all-Same now pairs _ _ (Same-set_value now key (of_string value) db db' same)

mset_reply-Alike :
    (now : ℤ) (pairs : Option (List (Bytes × Bytes))) (db db' : Db)
    → Same now db db'
    → Alike now (mset_reply pairs db) (mset_reply pairs db')
unfolding mset_reply
mset_reply-Alike now none db db' same = (refl, same)
mset_reply-Alike now (some pairs) db db' same = (refl, set_all-Same now pairs db db' same)

pub cmd_mset-Agrees : (now : ℤ) → Agrees now (cmd_mset now)
unfolding cmd_mset
cmd_mset-Agrees now (name ∷ key ∷ value ∷ rest) db db' same =
    mset_reply-Alike now (pairs_of (key ∷ value ∷ rest)) db db' same
cmd_mset-Agrees now [] db db' same = (refl, same)
cmd_mset-Agrees now (name ∷ []) db db' same = (refl, same)
cmd_mset-Agrees now (name ∷ key ∷ []) db db' same = (refl, same)
