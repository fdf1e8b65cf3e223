-- ===== src/Threads/Alone/Positions.antt =====
-- LSET as its accesses.
use cpp_redis.Prelude.{
  ℕ, ◌≡◌, refl, true, Option, none, some, [], ◌∷◌, Bytes, arith, length, ltb, set, Bool-cases, inl,
  inr,
}
use cpp_redis.Prelude.Int.{ℤ}
use cpp_redis.Prelude.Assoc
use cpp_redis.Utils.{is_integer, parse_int}
use cpp_redis.Database.{RedisType, RedisValue, Db, type_eq, typed, store}
use cpp_redis.Commands.Lists.{position, set_at, set_found, cmd_lset}
use cpp_redis.Threads.{Cell, put}
use cpp_redis.Threads.Writers.{assign_at, set_code, code_lset}
use cpp_redis.Threads.Rules.{Ends, Leaves-start, Leaves-put, Ends-reply, Ends-load, Ends-modify}
use cpp_redis.Threads.Alone.{Alone, Ends-on_value, Ends-start}

position-inside : (index : ℤ) (n i : ℕ) → position index n ≡ some i → ltb i n ≡ true
unfolding position
position-inside index n i e = ground arith

module _ (now : ℤ) (key : Bytes) (db : Db) (c : Cell) (h : c.value ≡ Assoc.find key db) where
  Ends-set :
      (x : Bytes) (v : RedisValue) (o : Option ℕ)
      → c.value ≡ some v
      → ((i : ℕ) → o ≡ some i → ltb i (length v.list_value) ≡ true)
      → Ends now key db (set_code c.erased x o) c (set_at key v o x db)
  unfolding set_code set_at assign_at store
  Ends-set x v none here inside = Ends-start now key _ db c h
  Ends-set x v (some i) here inside =
      let w = record v { list_value = set v.list_value i x } in
      Ends-modify key db now (assign_at i x) _ c v w _ here (rw (inside i refl) refl)
        (Ends-reply key db now _ (put w c) _ (Leaves-put key db w c db (Leaves-start key db c h)))

pub cmd_lset-Alone : (now : ℤ) → Alone now code_lset (cmd_lset now)
unfolding code_lset cmd_lset set_found typed
cmd_lset-Alone now name key [] db c h = Ends-start now key _ db c h
cmd_lset-Alone now name key (index ∷ []) db c h = Ends-start now key _ db c h
cmd_lset-Alone now name key (index ∷ x ∷ []) db c h = elim (Bool-cases (is_integer index)) [
  | inr other ↦ rw other (Ends-start now key _ db c h)
  | inl number ↦ rw number (
      Ends-on_value key db now _ _
        (λ o d. set_found (parse_int index) key x (typed RedisType.list o) d) c db
        (Leaves-start key db c h) (λ c' d left gone. Ends-reply key db now _ c' d left)
        (λ v here lives. elim (Bool-cases (type_eq v.type RedisType.list)) [
          | inr mistyped ↦ rw mistyped (Ends-start now key _ db c h)
          | inl fits ↦ rw fits (
              Ends-load key db now _ c v _ here (
                Ends-set now key db c h x v (position (parse_int index) (length v.list_value)) here
                  (λ i e. position-inside (parse_int index) (length v.list_value) i e)))
        ]))
]
cmd_lset-Alone now name key (index ∷ x ∷ y ∷ rest) db c h = Ends-start now key _ db c h
