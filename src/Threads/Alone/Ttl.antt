-- ===== src/Threads/Alone/Ttl.antt =====
-- The commands of ttl_commands.cpp, as their accesses.
use cpp_redis.Prelude.{◌≡◌, refl, true, some, [], ◌∷◌, Bytes, Bool-cases, inl, inr}
use cpp_redis.Prelude.Int.{ℤ, pos, le_ℤ}
use cpp_redis.Prelude.Assoc
use cpp_redis.Utils.{is_integer, parse_int}
use cpp_redis.Database.{RedisValue, Db, seconds, set_expiry, clear_expiry, store, delete_key}
use cpp_redis.Commands.Ttl.{
  from_time_t, expire_found, cmd_expire, expireat_found, cmd_expireat, ttl_found, cmd_ttl,
  persist_found, cmd_persist,
}
use cpp_redis.Threads.{Cell, reply, modify, remove, erase_cell, put, run}
use cpp_redis.Threads.Commands.{code_expire, code_expireat, code_ttl, code_persist}
use cpp_redis.Threads.Rules.{
  Ends, Leaves-start, Leaves-put, Leaves-erase, Ends-reply, Ends-look_up, Ends-modify,
}
use cpp_redis.Threads.Alone.{Alone, Ends-on_value, Ends-start}

module _ (now : ℤ) (key : Bytes) (db : Db) (c : Cell) (h : c.value ≡ Assoc.find key db) where
  -- A removal, or a write through the pointer, and the reply.
  Ends-remove :
      (r : Bytes) → Ends now key db (remove (λ gone. reply r)) c (r, (delete_key key db).1)
  unfolding run delete_key
  Ends-remove r = (erase_cell c, refl, Leaves-erase key db c db (Leaves-start key db c h))

  Ends-write :
      (f : RedisValue → RedisValue) (v : RedisValue) (r : Bytes)
      → c.value ≡ some v
      → Ends now key db (modify c.erased (λ w. some (f w)) (reply r)) c (r, store key (f v) db)
  unfolding run store
  Ends-write f v r here =
      Ends-modify key db now (λ w. some (f w)) (reply r) c v (f v) _ here refl
        (put (f v) c, refl, Leaves-put key db (f v) c db (Leaves-start key db c h))

pub cmd_expire-Alone : (now : ℤ) → Alone now (code_expire now) (cmd_expire now)
unfolding code_expire cmd_expire expire_found
cmd_expire-Alone now name key [] db c h = Ends-start now key _ db c h
cmd_expire-Alone now name key (n ∷ []) db c h = elim (Bool-cases (is_integer n)) [
  | inr other ↦ rw other (Ends-start now key _ db c h)
  | inl number ↦ rw number (
      Ends-look_up key db now _ (λ o d. expire_found now key (parse_int n) o d) c db
        (Leaves-start key db c h) (λ c' d left gone. Ends-reply key db now _ c' d left)
        (λ v here lives. elim (Bool-cases (le_ℤ (parse_int n) (pos 0))) [
          | inl past ↦ rw past (Ends-remove now key db c h _)
          | inr coming ↦
              rw coming
                (Ends-write now key db c h (set_expiry now (seconds (parse_int n))) v _ here)
        ]))
]
cmd_expire-Alone now name key (n ∷ x ∷ rest) db c h = Ends-start now key _ db c h

pub cmd_expireat-Alone : (now : ℤ) → Alone now (code_expireat now) (cmd_expireat now)
unfolding code_expireat cmd_expireat expireat_found
cmd_expireat-Alone now name key [] db c h = Ends-start now key _ db c h
cmd_expireat-Alone now name key (n ∷ []) db c h = elim (Bool-cases (is_integer n)) [
  | inr other ↦ rw other (Ends-start now key _ db c h)
  | inl number ↦ rw number (
      Ends-look_up key db now _ (λ o d. expireat_found now key (from_time_t (parse_int n)) o d) c db
        (Leaves-start key db c h) (λ c' d left gone. Ends-reply key db now _ c' d left)
        (λ v here lives. elim (Bool-cases (le_ℤ (from_time_t (parse_int n)) now)) [
          | inl past ↦ rw past (Ends-remove now key db c h _)
          | inr coming ↦ rw coming (
              Ends-write now key db c h
                (λ w. record w { expiry = from_time_t (parse_int n); has_expiry = true }) v _ here)
        ]))
]
cmd_expireat-Alone now name key (n ∷ x ∷ rest) db c h = Ends-start now key _ db c h

pub cmd_ttl-Alone : (now : ℤ) → Alone now (code_ttl now) (cmd_ttl now)
unfolding code_ttl cmd_ttl ttl_found
cmd_ttl-Alone now name key [] db c h =
    Ends-on_value key db now _ _ (λ o d. ttl_found now key o d) c db (Leaves-start key db c h)
      (λ c' d left gone. Ends-reply key db now _ c' d left)
      (λ v here lives. elim (Bool-cases v.has_expiry) [
        | inr lasting ↦ rw lasting (Ends-start now key _ db c h)
        | inl mortal ↦ rw mortal (elim (Bool-cases (le_ℤ v.expiry now)) [
          | inl past ↦ rw past (Ends-remove now key db c h _)
          | inr coming ↦ rw coming (Ends-start now key _ db c h)
        ])
      ])
cmd_ttl-Alone now name key (x ∷ rest) db c h = Ends-start now key _ db c h

pub cmd_persist-Alone : (now : ℤ) → Alone now code_persist (cmd_persist now)
unfolding code_persist cmd_persist persist_found
cmd_persist-Alone now name key [] db c h =
    Ends-on_value key db now _ _ (λ o d. persist_found key o d) c db (Leaves-start key db c h)
      (λ c' d left gone. Ends-reply key db now _ c' d left)
      (λ v here lives. elim (Bool-cases v.has_expiry) [
        | inr lasting ↦ rw lasting (Ends-start now key _ db c h)
        | inl mortal ↦ simp mortal (Ends-write now key db c h clear_expiry v _ here)
      ])
cmd_persist-Alone now name key (x ∷ rest) db c h = Ends-start now key _ db c h
