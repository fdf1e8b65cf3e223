-- ===== src/Threads.antt =====
-- Commands of several threads on the one database, an access at a time. Every operation of
-- redis/database/redis_database.cpp holds the database's lock, but the pointer that `getValue` returns
-- is read and written by redis/commands/ after the lock is released. The commands here have one key; the
-- clean-up of redis/command_handler.cpp and FLUSHALL are events between their accesses.
pub mod Commands
pub mod Readers
pub mod Writers
pub mod Rules
pub mod Alone
pub mod Races
use cpp_redis.Prelude.{
  ℕ, ◌+◌, Option, none, some, List, [], ◌∷◌, Bytes, Bool, true, false, ◌==◌, if◌then◌else◌, str_eq,
  get_elem?, set,
}
use cpp_redis.Prelude.Int.{ℤ}
use cpp_redis.Database.{RedisValue, is_expired}

-- The element of a key in the map, and how many elements of that key have been erased.
pub record Cell : Type 0 where
  pub value : Option RedisValue
  pub erased : ℕ

-- What a command still has to do. A pointer to an element of its key is the number of elements that
-- were erased before; it dangles once its own element has been erased too. `undefined` is undefined
-- behaviour: a null pointer, or `front` of an empty list.
pub data Code : Type 0 where
  reply : Bytes → Code
  undefined : Code
  look_up : (Option ℕ → Code) → Code
  load : ℕ → (RedisValue → Code) → Code
  modify : ℕ → (RedisValue → Option RedisValue) → Code → Code
  assign : RedisValue → Code → Code
  remove : (Bool → Code) → Code

unfoldable pub erase_cell : Cell → Cell
erase_cell c = elim c.value [ none ↦ c | some v ↦ record { value = none; erased = c.erased + 1 } ]

-- getValue
unfoldable pub fetch : ℤ → Cell → Option ℕ × Cell
unfolding erase_cell
fetch now c = elim c.value [
  | none ↦ (none, c)
  | some v ↦ if is_expired now v then (none, erase_cell c) else (some c.erased, c)
]

-- The element behind a pointer.
unfoldable pub element : ℕ → Cell → Option RedisValue
element p c = if p == c.erased then c.value else none

abbrev pub put : RedisValue → Cell → Cell
put v c = record c { value = some v }

abbrev pub is_held : Cell → Bool
is_held c = elim c.value [ none ↦ false | some v ↦ true ]

-- One access; `none` is undefined behaviour.
unfoldable pub step : ℤ → Code → Cell → Option (Code × Cell)
step now (reply r) c = some (reply r, c)
step now undefined c = none
step now (look_up k) c = some (k (fetch now c).0, (fetch now c).1)
step now (load p k) c = elim (element p c) [ none ↦ none | some v ↦ some (k v, c) ]
step now (modify p f k) c = elim (element p c) [
  | none ↦ none
  | some v ↦ elim (f v) [ none ↦ none | some w ↦ some (k, put w c) ]
]
step now (assign v k) c = some (k, put v c)
step now (remove k) c = some (k (is_held c), erase_cell c)

-- A command that nothing interrupts: its reply, and what it leaves.
unfoldable pub run : ℤ → Code → Cell → Option (Bytes × Cell)
run now (reply r) c = some (r, c)
run now undefined c = none
run now (look_up k) c = run now (k (fetch now c).0) (fetch now c).1
run now (load p k) c = elim (element p c) [ none ↦ none | some v ↦ run now (k v) c ]
run now (modify p f k) c = elim (element p c) [
  | none ↦ none
  | some v ↦ elim (f v) [ none ↦ none | some w ↦ run now k (put w c) ]
]
run now (assign v k) c = run now k (put v c)
run now (remove k) c = run now (k (is_held c)) (erase_cell c)

-- A thread with its command: the key, the clock reading, and what is left to do.
pub record Task : Type 0 where
  pub key : Bytes
  pub now : ℤ
  pub code : Code

pub record System : Type 0 where
  pub tasks : List Task
  pub cells : Bytes → Cell

abbrev pub update : (Bytes → Cell) → Bytes → Cell → Bytes → Cell
update cells key c j = if str_eq key j then c else cells j

-- The system behind an access of a thread.
abbrev pub moved : System → ℕ → Task → Option (Code × Cell) → Option System
moved s i t none = none
moved s i t (some (code, c)) =
    some
      (record { tasks = set s.tasks i (record t { code = code }); cells = update s.cells t.key c })

-- An access of thread `i`.
unfoldable pub turn : ℕ → System → Option System
turn i s = elim (get_elem? s.tasks i) [
  | none ↦ some s
  | some t ↦ moved s i t (step t.now t.code (s.cells t.key))
]

-- cleanupExpiredKeys, on the element of a key.
unfoldable pub clean_cell : ℤ → Cell → Cell
clean_cell now c = elim c.value [ none ↦ c | some v ↦ if is_expired now v then erase_cell c else c ]

-- What may happen next: an access of a thread to its key, or what another thread does to all keys:
-- `clean_up` is the cleanupExpiredKeys of every hundredth command, at a clock reading, and `clear` the
-- clearDatabase of FLUSHALL.
pub data Event : Type 0 where
  access : ℕ → Event
  clean_up : ℤ → Event
  clear : Event

unfoldable pub happen : Event → System → Option System
happen (access i) s = turn i s
happen (clean_up now) s = some (record s { cells = λ key. clean_cell now (s.cells key) })
happen clear s = some (record s { cells = λ key. erase_cell (s.cells key) })

-- The database is accessed in the given order.
unfoldable pub play : List Event → System → Option System
play [] s = some s
play (event ∷ events) s = elim (happen event s) [ none ↦ none | some s' ↦ play events s' ]
