-- ===== src/Threads/Alone.antt =====
-- A command that nothing interrupts does, by its accesses, what the command of Commands/ does.
pub mod Strings
pub mod Readers
pub mod Writers
pub mod Positions
pub mod Lists
pub mod Ttl
pub mod Whole
use cpp_redis.Prelude.{ℕ, ◌≡◌, false, Option, none, some, List, ◌∷◌, Bytes}
use cpp_redis.Prelude.Int.{ℤ}
use cpp_redis.Prelude.Assoc
use cpp_redis.Database.{RedisValue, Db, is_expired, get_value}
use cpp_redis.Threads.{Cell, Code, reply}
use cpp_redis.Threads.Commands.{on_value}
use cpp_redis.Threads.Rules.{
  Leaves, Ends, Leaves-start, Ends-reply, Ends-look_up, Ends-load, Ends-eq,
}

-- The code of a command, on whatever key and arguments and from whatever database, replies and
-- changes the map as the command does.
abbrev pub Alone : ℤ → (List Bytes → Code) → (List Bytes → Db → Bytes × Db) → Type 0
Alone now code cmd =
    (name key : Bytes) (rest : List Bytes) (db : Db) (c : Cell)
    → c.value ≡ Assoc.find key db
    → Ends now key db (code (name ∷ key ∷ rest)) c (cmd (name ∷ key ∷ rest) db)

module _ (key : Bytes) (before : Db) (now : ℤ) where
  pub Ends-on_value :
      (missing : Code) (found : ℕ → RedisValue → Code) (f : Option RedisValue → Db → Bytes × Db)
      (c : Cell) (db : Db)
      → Leaves key before c db
      → ((c' : Cell) (d : Db)
          → Leaves key before c' d
          → c'.value ≡ none
          → Ends now key before missing c' (f none d))
      → ((v : RedisValue)
          → c.value ≡ some v
          → is_expired now v ≡ false
          → Ends now key before (found c.erased v) c (f (some v) db))
      → Ends now key before
          (on_value missing found)
          c
          (f (get_value now key db).0 (get_value now key db).1)
  unfolding on_value
  Ends-on_value missing found f c db h none_case some_case =
      Ends-look_up key before now _ f c db h none_case (λ v here lives.
        Ends-load key before now (found c.erased) c v (f (some v) db) here (some_case v here lives))

  -- A command that only reads its element.
  pub Ends-read :
      (r : Bytes) (g : RedisValue → Bytes) (f : Option RedisValue → Db → Bytes × Db) (c : Cell)
      (db : Db)
      → Leaves key before c db
      → ((d : Db) → f none d ≡ (r, d))
      → ((v : RedisValue) → f (some v) db ≡ (g v, db))
      → Ends now key before
          (on_value (reply r) (λ p v. reply (g v)))
          c
          (f (get_value now key db).0 (get_value now key db).1)
  Ends-read r g f c db h e e' =
      Ends-on_value (reply r) _ f c db h
        (λ c' d left gone.
          Ends-eq key before now (reply r) c' (f none d) (r, d) (e d)
            (Ends-reply key before now r c' d left))
        (λ v here lives.
          Ends-eq key before now (reply (g v)) c (f (some v) db) (g v, db) (e' v)
            (Ends-reply key before now (g v) c db h))

-- A reply to a wrong number of arguments.
pub Ends-start :
    (now : ℤ) (key r : Bytes) (db : Db) (c : Cell)
    → c.value ≡ Assoc.find key db
    → Ends now key db (reply r) c (r, db)
Ends-start now key r db c h = Ends-reply key db now r c db (Leaves-start key db c h)
