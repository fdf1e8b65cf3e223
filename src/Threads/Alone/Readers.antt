-- ===== src/Threads/Alone/Readers.antt =====
-- The commands that only read, as their accesses.
use cpp_redis.Prelude.{
  ◌≡◌, refl, ◌&&◌, Option, none, some, List, [], ◌∷◌, Bytes, arith, length, Bool-cases, inl, inr,
  if◌then◌else◌,
}
use cpp_redis.Prelude.Int.{ℤ, pos}
use cpp_redis.Prelude.Assoc
use cpp_redis.Prelude.Assoc.{Assoc}
use cpp_redis.Prelude.Ordered
use cpp_redis.Utils.{is_integer, parse_int}
use cpp_redis.Resp.Formatter.{format_integer, format_array, format_null, format_bulk_string}
use cpp_redis.Database.{RedisType, RedisValue, Db, get_value, typed, type_eq}
use cpp_redis.Commands.Strings.{string_of, cmd_strlen}
use cpp_redis.Commands.Lists.{range, element_at, cmd_llen, cmd_lrange, cmd_lindex}
use cpp_redis.Commands.Sets.{cmd_sismember, cmd_scard, cmd_smembers}
use cpp_redis.Commands.Hashes.{
  keys_of, values_of, entries_of, list_with, cmd_hget, cmd_hexists, cmd_hlen, cmd_hkeys, cmd_hvals,
  cmd_hgetall,
}
use cpp_redis.Threads.{Cell, reply}
use cpp_redis.Threads.Commands.{get_reply}
use cpp_redis.Threads.Readers.{
  read_code, list_code, code_strlen, code_llen, code_lrange, code_lindex, code_sismember,
  code_scard, code_smembers, code_hget, code_hexists, code_hlen, code_hkeys, code_hvals,
  code_hgetall,
}
use cpp_redis.Threads.Rules.{Ends, Leaves-start, Ends-reply, Ends-eq}
use cpp_redis.Threads.Alone.{Alone, Ends-on_value, Ends-start}

module _ (now : ℤ) (key : Bytes) (db : Db) (c : Cell) (h : c.value ≡ Assoc.find key db) where
  -- A command that reads an element of its type, and replies alike without one.
  Ends-read_code :
      (t : RedisType) (r : Bytes) (shown : RedisValue → Bytes)
      (f : Option RedisValue → Db → Bytes × Db)
      → ((d : Db) → f none d ≡ (r, d))
      → ((v : RedisValue) (d : Db) → f (some v) d ≡ (if type_eq v.type t then shown v else r, d))
      → Ends now key db
          (read_code t r shown)
          c
          (f (get_value now key db).0 (get_value now key db).1)
  unfolding read_code
  Ends-read_code t r shown f missing found =
      Ends-on_value key db now (reply r) _ f c db (Leaves-start key db c h)
        (λ c' d left gone.
          Ends-eq key db now (reply r) c' (f none d) (r, d) (missing d)
            (Ends-reply key db now r c' d left))
        (λ v here lives. elim (Bool-cases (type_eq v.type t)) [
          | inl fits ↦
              rw (found v db, fits) (Ends-reply key db now (shown v) c db (Leaves-start key db c h))
          | inr other ↦
              rw (found v db, other) (Ends-reply key db now r c db (Leaves-start key db c h))
        ])

pub cmd_llen-Alone : (now : ℤ) → Alone now code_llen (cmd_llen now)
unfolding code_llen cmd_llen typed
cmd_llen-Alone now name key [] db c h =
    Ends-read_code now key db c h RedisType.list (format_integer (pos 0))
      (λ v. format_integer (pos (length v.list_value)))
      (λ o d. elim (typed RedisType.list o) [
        | none ↦ (format_integer (pos 0), d)
        | some v ↦ (format_integer (pos (length v.list_value)), d)
      ])
      (λ d. refl) (λ v d. ground arith)
cmd_llen-Alone now name key (y ∷ rest) db c h = Ends-start now key _ db c h

pub cmd_sismember-Alone : (now : ℤ) → Alone now code_sismember (cmd_sismember now)
unfolding code_sismember cmd_sismember typed
cmd_sismember-Alone now name key [] db c h = Ends-start now key _ db c h
cmd_sismember-Alone now name key (x ∷ []) db c h =
    Ends-read_code now key db c h RedisType.set (format_integer (pos 0))
      (λ v. format_integer (pos (if Ordered.member x v.set_value then 1 else 0)))
      (λ o d. elim (typed RedisType.set o) [
        | none ↦ (format_integer (pos 0), d)
        | some v ↦ (format_integer (pos (if Ordered.member x v.set_value then 1 else 0)), d)
      ])
      (λ d. refl) (λ v d. ground arith)
cmd_sismember-Alone now name key (x ∷ y ∷ rest) db c h = Ends-start now key _ db c h

pub cmd_scard-Alone : (now : ℤ) → Alone now code_scard (cmd_scard now)
unfolding code_scard cmd_scard typed
cmd_scard-Alone now name key [] db c h =
    Ends-read_code now key db c h RedisType.set (format_integer (pos 0))
      (λ v. format_integer (pos (length v.set_value)))
      (λ o d. elim (typed RedisType.set o) [
        | none ↦ (format_integer (pos 0), d)
        | some v ↦ (format_integer (pos (length v.set_value)), d)
      ])
      (λ d. refl) (λ v d. ground arith)
cmd_scard-Alone now name key (y ∷ rest) db c h = Ends-start now key _ db c h

pub cmd_smembers-Alone : (now : ℤ) → Alone now code_smembers (cmd_smembers now)
unfolding code_smembers cmd_smembers typed
cmd_smembers-Alone now name key [] db c h =
    Ends-read_code now key db c h RedisType.set (format_array []) (λ v. format_array v.set_value)
      (λ o d. elim (typed RedisType.set o) [
        | none ↦ (format_array [], d)
        | some v ↦ (format_array v.set_value, d)
      ])
      (λ d. refl) (λ v d. ground arith)
cmd_smembers-Alone now name key (y ∷ rest) db c h = Ends-start now key _ db c h

pub cmd_hexists-Alone : (now : ℤ) → Alone now code_hexists (cmd_hexists now)
unfolding code_hexists cmd_hexists typed
cmd_hexists-Alone now name key [] db c h = Ends-start now key _ db c h
cmd_hexists-Alone now name key (field ∷ []) db c h =
    Ends-read_code now key db c h RedisType.hash (format_integer (pos 0))
      (λ v. format_integer (pos (if Assoc.contains field v.hash_value then 1 else 0)))
      (λ o d. elim (typed RedisType.hash o) [
        | none ↦ (format_integer (pos 0), d)
        | some v ↦ (format_integer (pos (if Assoc.contains field v.hash_value then 1 else 0)), d)
      ])
      (λ d. refl) (λ v d. ground arith)
cmd_hexists-Alone now name key (field ∷ y ∷ rest) db c h = Ends-start now key _ db c h

pub cmd_hlen-Alone : (now : ℤ) → Alone now code_hlen (cmd_hlen now)
unfolding code_hlen cmd_hlen typed
cmd_hlen-Alone now name key [] db c h =
    Ends-read_code now key db c h RedisType.hash (format_integer (pos 0))
      (λ v. format_integer (pos (length v.hash_value)))
      (λ o d. elim (typed RedisType.hash o) [
        | none ↦ (format_integer (pos 0), d)
        | some v ↦ (format_integer (pos (length v.hash_value)), d)
      ])
      (λ d. refl) (λ v d. ground arith)
cmd_hlen-Alone now name key (y ∷ rest) db c h = Ends-start now key _ db c h

pub cmd_strlen-Alone : (now : ℤ) → Alone now code_strlen (cmd_strlen now)
unfolding code_strlen cmd_strlen string_of type_eq typed
cmd_strlen-Alone now name key [] db c h =
    Ends-read_code now key db c h RedisType.string (format_integer (pos 0))
      (λ v. format_integer (pos (length v.string_value)))
      (λ o d. elim (string_of o) [
        | none ↦ (format_integer (pos 0), d)
        | some s ↦ (format_integer (pos (length s)), d)
      ])
      (λ d. refl) (λ v d. ground arith)
cmd_strlen-Alone now name key (y ∷ rest) db c h = Ends-start now key _ db c h

pub cmd_hget-Alone : (now : ℤ) → Alone now code_hget (cmd_hget now)
unfolding code_hget cmd_hget typed get_reply
cmd_hget-Alone now name key [] db c h = Ends-start now key _ db c h
cmd_hget-Alone now name key (field ∷ []) db c h =
    Ends-read_code now key db c h RedisType.hash format_null
      (λ v. get_reply (Assoc.find field v.hash_value))
      (λ o d. elim (typed RedisType.hash o) [
        | none ↦ (format_null, d)
        | some v ↦ elim (Assoc.find field v.hash_value) [
          | none ↦ (format_null, d)
          | some x ↦ (format_bulk_string x, d)
        ]
      ])
      (λ d. refl) (λ v d. ground arith)
cmd_hget-Alone now name key (field ∷ y ∷ rest) db c h = Ends-start now key _ db c h

Ends-list_code :
    (listed : Assoc Bytes → List Bytes) (now : ℤ) (key : Bytes) (db : Db) (c : Cell)
    → c.value ≡ Assoc.find key db
    → Ends now key db (list_code listed) c (list_with listed now key db)
unfolding list_code list_with typed
Ends-list_code listed now key db c h =
    Ends-read_code now key db c h RedisType.hash (format_array [])
      (λ v. format_array (listed v.hash_value))
      (λ o d. elim (typed RedisType.hash o) [
        | none ↦ (format_array [], d)
        | some v ↦ (format_array (listed v.hash_value), d)
      ])
      (λ d. refl) (λ v d. ground arith)

pub cmd_hkeys-Alone : (now : ℤ) → Alone now code_hkeys (cmd_hkeys now)
unfolding code_hkeys cmd_hkeys
cmd_hkeys-Alone now name key [] db c h = Ends-list_code keys_of now key db c h
cmd_hkeys-Alone now name key (y ∷ rest) db c h = Ends-start now key _ db c h

pub cmd_hvals-Alone : (now : ℤ) → Alone now code_hvals (cmd_hvals now)
unfolding code_hvals cmd_hvals
cmd_hvals-Alone now name key [] db c h = Ends-list_code values_of now key db c h
cmd_hvals-Alone now name key (y ∷ rest) db c h = Ends-start now key _ db c h

pub cmd_hgetall-Alone : (now : ℤ) → Alone now code_hgetall (cmd_hgetall now)
unfolding code_hgetall cmd_hgetall
cmd_hgetall-Alone now name key [] db c h = Ends-list_code entries_of now key db c h
cmd_hgetall-Alone now name key (y ∷ rest) db c h = Ends-start now key _ db c h

pub cmd_lrange-Alone : (now : ℤ) → Alone now code_lrange (cmd_lrange now)
unfolding code_lrange cmd_lrange typed
cmd_lrange-Alone now name key [] db c h = Ends-start now key _ db c h
cmd_lrange-Alone now name key (start ∷ []) db c h = Ends-start now key _ db c h
cmd_lrange-Alone now name key (start ∷ end ∷ []) db c h =
    elim (Bool-cases (is_integer start && is_integer end)) [
      | inr other ↦ rw other (Ends-start now key _ db c h)
      | inl numbers ↦ rw numbers (
          Ends-read_code now key db c h RedisType.list (format_array [])
            (λ v. format_array (range (parse_int start) (parse_int end) v.list_value))
            (λ o d. elim (typed RedisType.list o) [
              | none ↦ (format_array [], d)
              | some v ↦ (format_array (range (parse_int start) (parse_int end) v.list_value), d)
            ])
            (λ d. refl) (λ v d. ground arith))
    ]
cmd_lrange-Alone now name key (start ∷ end ∷ y ∷ rest) db c h = Ends-start now key _ db c h

pub cmd_lindex-Alone : (now : ℤ) → Alone now code_lindex (cmd_lindex now)
unfolding code_lindex cmd_lindex typed get_reply
cmd_lindex-Alone now name key [] db c h = Ends-start now key _ db c h
cmd_lindex-Alone now name key (index ∷ []) db c h = elim (Bool-cases (is_integer index)) [
  | inr other ↦ rw other (Ends-start now key _ db c h)
  | inl number ↦ rw number (
      Ends-read_code now key db c h RedisType.list format_null
        (λ v. get_reply (element_at (parse_int index) v.list_value))
        (λ o d. elim (typed RedisType.list o) [
          | none ↦ (format_null, d)
          | some v ↦ elim (element_at (parse_int index) v.list_value) [
            | none ↦ (format_null, d)
            | some x ↦ (format_bulk_string x, d)
          ]
        ])
        (λ d. refl) (λ v d. ground arith))
]
cmd_lindex-Alone now name key (index ∷ y ∷ rest) db c h = Ends-start now key _ db c h
