-- ===== src/Commands/Strings/Keeps.antt =====
-- The commands on strings keep the database well formed.
use mathlib.Core.Path.{subst}
use cpp_redis.Utils.{parse_int}
use cpp_redis.Prelude.{
  ℕ, ◌≡◌, refl, sym, Bool, true, false, List, [], ◌∷◌, Bytes, arith, inl, inr, Option-cases,
  if◌then◌else◌,
}
use cpp_redis.Prelude.Int.{ℤ, ◌+ℤ◌, ◌-ℤ◌}
use cpp_redis.Database.{
  RedisType, RedisValue, Db, of_string, key_exists, get_value, delete_key, set_expiry, seconds,
}
use cpp_redis.Database.Invariant.{
  IsValid, IsFilled, Holds, Keeps, get_value-IsValid, key_exists-IsValid, set_value-IsValid,
  delete_key-IsValid,
}
use cpp_redis.Commands.Strings.{
  Options, replied, accepted, set_options, cmd_set, cmd_get, delete_all, cmd_del, count_existing,
  cmd_exists, cmd_type, Current, current, refused, current_of, count_by, counted, set_reply,
  mset_reply, cmd_incr, cmd_decr, cmd_incr_by, cmd_decr_by, cmd_strlen, cmd_append, get_all,
  cmd_mget, pairs_of, set_all, cmd_mset,
}

cmd_get-Keeps : (now : ℤ) → Keeps (cmd_get now)
unfolding cmd_get
cmd_get-Keeps now [] db h = h
cmd_get-Keeps now (name ∷ key ∷ []) db h = ground (arith, get_value-IsValid now key db h)
cmd_get-Keeps now _ db h = h

string-IsFilled : (v : RedisValue) → v.type ≡ RedisType.string → IsFilled v
string-IsFilled v e = subst (λ t. Holds t v.list_value v.set_value v.hash_value) (sym e) tt

-- How the loop over the options of SET may end.
data Ends : Options → Type 0 where
  by_reply : {reply : Bytes} {db : Db} → IsValid db → Ends (replied reply db)
  by_value :
      {v : RedisValue} {db : Db} → IsValid db → v.type ≡ RedisType.string → Ends (accepted v db)

Ends-if : (b : Bool) (o o' : Options) → Ends o → Ends o' → Ends (if b then o else o')
Ends-if true o o' h k = h
Ends-if false o o' h k = k

set_options-Ends :
    (now : ℤ) (key : Bytes) (options : List Bytes) (v : RedisValue) (db : Db)
    → v.type ≡ RedisType.string
    → IsValid db
    → Ends (set_options now key options v db)
unfolding set_options set_expiry
set_options-Ends now key [] v db s h = by_value h s
set_options-Ends now key (option ∷ []) v db s h = by_reply h
set_options-Ends now key (option ∷ arg ∷ rest) v db s h =
    let found = key_exists-IsValid now key db h in
    let next = set_options-Ends now key (arg ∷ rest) v (key_exists now key db).1 s found in
    let skipped = set_options-Ends now key rest v db s h in
    let in_seconds =
      set_options-Ends now key rest (set_expiry now (seconds (parse_int arg)) v) db s h in
    let in_milliseconds = set_options-Ends now key rest (set_expiry now (parse_int arg) v) db s h in
    search (Ends-if, by_reply) depth 9

stored : (key : Bytes) (o : Options) → Ends o → IsValid (set_reply key o).1
unfolding set_reply
stored key (replied reply db) (by_reply h) = h
stored key (accepted v db) (by_value h s) = set_value-IsValid key v db (string-IsFilled v s) h

cmd_set-Keeps : (now : ℤ) → Keeps (cmd_set now)
unfolding cmd_set
cmd_set-Keeps now [] db h = h
cmd_set-Keeps now (name ∷ []) db h = h
cmd_set-Keeps now (name ∷ key ∷ []) db h = h
cmd_set-Keeps now (name ∷ key ∷ value ∷ options) db h =
    stored key _ (set_options-Ends now key options (of_string value) db refl h)

delete_all-IsValid :
    (keys : List Bytes) (n : ℕ) (db : Db) → IsValid db → IsValid (delete_all keys n db).1
unfolding delete_all
delete_all-IsValid [] n db h = h
delete_all-IsValid (key ∷ keys) n db h =
    delete_all-IsValid keys _ (delete_key key db).1 (delete_key-IsValid key db h)

cmd_del-Keeps : (now : ℤ) → Keeps (cmd_del now)
unfolding cmd_del
cmd_del-Keeps now [] db h = h
cmd_del-Keeps now (name ∷ []) db h = h
cmd_del-Keeps now (name ∷ key ∷ keys) db h = delete_all-IsValid (key ∷ keys) 0 db h

count_existing-IsValid :
    (now : ℤ) (keys : List Bytes) (n : ℕ) (db : Db)
    → IsValid db
    → IsValid (count_existing now keys n db).1
unfolding count_existing
count_existing-IsValid now [] n db h = h
count_existing-IsValid now (key ∷ keys) n db h =
    count_existing-IsValid now keys _ (key_exists now key db).1 (key_exists-IsValid now key db h)

cmd_exists-Keeps : (now : ℤ) → Keeps (cmd_exists now)
unfolding cmd_exists
cmd_exists-Keeps now [] db h = h
cmd_exists-Keeps now (name ∷ []) db h = h
cmd_exists-Keeps now (name ∷ key ∷ keys) db h = count_existing-IsValid now (key ∷ keys) 0 db h

cmd_type-Keeps : (now : ℤ) → Keeps (cmd_type now)
unfolding cmd_type
cmd_type-Keeps now [] db h = h
cmd_type-Keeps now (name ∷ key ∷ []) db h = ground (arith, get_value-IsValid now key db h)
cmd_type-Keeps now _ db h = h

counted-IsValid :
    (step : ℤ → ℤ) (key : Bytes) (c : Current) (db : Db)
    → IsValid db
    → IsValid (counted step key c db).1
unfolding counted
counted-IsValid step key (refused message) db h = h
counted-IsValid step key (current n) db h = set_value-IsValid key _ db tt h

count_by-IsValid :
    (step : ℤ → ℤ) (now : ℤ) (key : Bytes) (db : Db)
    → IsValid db
    → IsValid (count_by step now key db).1
unfolding count_by
count_by-IsValid step now key db h =
    counted-IsValid step key (current_of (get_value now key db).0) (get_value now key db).1
      (get_value-IsValid now key db h)

cmd_incr-Keeps : (now : ℤ) → Keeps (cmd_incr now)
unfolding cmd_incr
cmd_incr-Keeps now [] db h = h
cmd_incr-Keeps now (name ∷ key ∷ []) db h = count_by-IsValid _ now key db h
cmd_incr-Keeps now _ db h = h

cmd_decr-Keeps : (now : ℤ) → Keeps (cmd_decr now)
unfolding cmd_decr
cmd_decr-Keeps now [] db h = h
cmd_decr-Keeps now (name ∷ key ∷ []) db h = count_by-IsValid _ now key db h
cmd_decr-Keeps now _ db h = h

cmd_incr_by-Keeps : (now : ℤ) → Keeps (cmd_incr_by now)
unfolding cmd_incr_by
cmd_incr_by-Keeps now [] db h = h
cmd_incr_by-Keeps now (name ∷ key ∷ n ∷ []) db h =
    ground (arith, h, count_by-IsValid (λ m. m +ℤ parse_int n) now key db h)
cmd_incr_by-Keeps now _ db h = h

cmd_decr_by-Keeps : (now : ℤ) → Keeps (cmd_decr_by now)
unfolding cmd_decr_by
cmd_decr_by-Keeps now [] db h = h
cmd_decr_by-Keeps now (name ∷ key ∷ n ∷ []) db h =
    ground (arith, h, count_by-IsValid (λ m. m -ℤ parse_int n) now key db h)
cmd_decr_by-Keeps now _ db h = h

cmd_strlen-Keeps : (now : ℤ) → Keeps (cmd_strlen now)
unfolding cmd_strlen
cmd_strlen-Keeps now [] db h = h
cmd_strlen-Keeps now (name ∷ key ∷ []) db h = ground (arith, get_value-IsValid now key db h)
cmd_strlen-Keeps now _ db h = h

cmd_append-Keeps : (now : ℤ) → Keeps (cmd_append now)
unfolding cmd_append
cmd_append-Keeps now [] db h = h
cmd_append-Keeps now (name ∷ key ∷ x ∷ []) db h =
    set_value-IsValid key _ _ tt (get_value-IsValid now key db h)
cmd_append-Keeps now _ db h = h

get_all-IsValid :
    (now : ℤ) (keys : List Bytes) (db : Db) → IsValid db → IsValid (get_all now keys db).1
unfolding get_all
get_all-IsValid now [] db h = h
get_all-IsValid now (key ∷ keys) db h =
    get_all-IsValid now keys (get_value now key db).1 (get_value-IsValid now key db h)

cmd_mget-Keeps : (now : ℤ) → Keeps (cmd_mget now)
unfolding cmd_mget
cmd_mget-Keeps now [] db h = h
cmd_mget-Keeps now (name ∷ []) db h = h
cmd_mget-Keeps now (name ∷ key ∷ keys) db h = get_all-IsValid now (key ∷ keys) db h

set_all-IsValid : (pairs : List (Bytes × Bytes)) (db : Db) → IsValid db → IsValid (set_all pairs db)
unfolding set_all
set_all-IsValid [] db h = h
set_all-IsValid ((key, value) ∷ pairs) db h =
    set_all-IsValid pairs _ (set_value-IsValid key (of_string value) db tt h)

cmd_mset-Keeps : (now : ℤ) → Keeps (cmd_mset now)
unfolding cmd_mset mset_reply
cmd_mset-Keeps now [] db h = h
cmd_mset-Keeps now (name ∷ []) db h = h
cmd_mset-Keeps now (name ∷ key ∷ []) db h = h
cmd_mset-Keeps now (name ∷ key ∷ value ∷ rest) db h =
    elim (Option-cases (pairs_of (key ∷ value ∷ rest))) [
      | inl odd ↦ rw odd h
      | inr (pairs, even) ↦ rw even (set_all-IsValid pairs db h)
    ]

-- SET, GET, DEL, EXISTS, TYPE, INCR, DECR, INCRBY, DECRBY, STRLEN, APPEND, MGET and MSET.
pub string_commands-Keeps :
    (now : ℤ)
    → Keeps (cmd_set now)
      × Keeps (cmd_get now)
      × Keeps (cmd_del now)
      × Keeps (cmd_exists now)
      × Keeps (cmd_type now)
      × Keeps (cmd_incr now)
      × Keeps (cmd_decr now)
      × Keeps (cmd_incr_by now)
      × Keeps (cmd_decr_by now)
      × Keeps (cmd_strlen now)
      × Keeps (cmd_append now)
      × Keeps (cmd_mget now)
      × Keeps (cmd_mset now)
string_commands-Keeps now = (
  cmd_set-Keeps now,
  cmd_get-Keeps now,
  cmd_del-Keeps now,
  cmd_exists-Keeps now,
  cmd_type-Keeps now,
  cmd_incr-Keeps now,
  cmd_decr-Keeps now,
  cmd_incr_by-Keeps now,
  cmd_decr_by-Keeps now,
  cmd_strlen-Keeps now,
  cmd_append-Keeps now,
  cmd_mget-Keeps now,
  cmd_mset-Keeps now,
)
