-- ===== src/Database.antt =====
-- redis/database/redis_value.h, enum/redis_type.h and redis/database/redis_database.cpp. Every
-- operation runs under the database's lock and is one step here. A clock reading is an argument,
-- in nanoseconds since the epoch. The pointer that `getValue` returns is the value that it points to;
-- a write through it is `store`.
pub mod View
pub mod Invariant
pub mod Same
use cpp_redis.Prelude.{
  ℕ, ◌*◌, ◌≡◌, refl, ◌⊎◌, inl, inr, Bool, true, false, not, ◌&&◌, ◌||◌, Option, none, some, List,
  [], ◌∷◌, ◌++◌, Bytes, codes, length, ◌==◌, if◌then◌else◌,
}
use cpp_redis.Prelude.Int.{ℤ, pos, ◌+ℤ◌, scale, le_ℤ, wrap_int64}
use cpp_redis.Prelude.Assoc
use cpp_redis.Prelude.Assoc.{Assoc}

pub data RedisType : Type 0 where
  string list set hash zset stream : RedisType

unfoldable pub type_eq : RedisType → RedisType → Bool
type_eq a b = tag a == tag b
  where
    tag : RedisType → ℕ
    tag RedisType.string = 0
    tag RedisType.list = 1
    tag RedisType.set = 2
    tag RedisType.hash = 3
    tag RedisType.zset = 4
    tag RedisType.stream = 5

-- `zset_value` has no entry: nothing reads or writes it.
pub record RedisValue : Type 0 where
  pub type : RedisType
  pub string_value : Bytes
  pub list_value : List Bytes
  pub set_value : List Bytes
  pub hash_value : Assoc Bytes
  pub expiry : ℤ
  pub has_expiry : Bool

-- RedisValue(RedisType)
abbrev pub of_type : RedisType → RedisValue
of_type t = record {
  type = t;
  string_value = [];
  list_value = [];
  set_value = [];
  hash_value = [];
  expiry = pos 0;
  has_expiry = false;
}

-- RedisValue(const std::string&)
abbrev pub of_string : Bytes → RedisValue
of_string str = record (of_type RedisType.string) { string_value = str }

unfoldable pub is_expired : ℤ → RedisValue → Bool
is_expired now v = v.has_expiry && le_ℤ v.expiry now

-- A count of seconds as the milliseconds that `setExpiry` takes.
unfoldable pub seconds : ℤ → ℤ
seconds n = wrap_int64 (scale 1000 n)

unfoldable pub set_expiry : ℤ → ℤ → RedisValue → RedisValue
set_expiry now ttl v = record v {
  expiry = wrap_int64 (now +ℤ wrap_int64 (scale 1000000 ttl));
  has_expiry = true;
}

unfoldable pub clear_expiry : RedisValue → RedisValue
clear_expiry v = record v { has_expiry = false }

-- The value behind a pointer, unless `!value || value->type != t`.
unfoldable pub typed : RedisType → Option RedisValue → Option RedisValue
typed t none = none
typed t (some v) = if type_eq v.type t then some v else none

abbrev pub Db : Type 0
Db = Assoc RedisValue

unfoldable pub key_exists : ℤ → Bytes → Db → Bool × Db
key_exists now key db = elim (Assoc.find key db) [
  | none ↦ (false, db)
  | some v ↦ if is_expired now v then (false, Assoc.erase key db) else (true, db)
]

unfoldable pub get_value : ℤ → Bytes → Db → Option RedisValue × Db
get_value now key db = elim (Assoc.find key db) [
  | none ↦ (none, db)
  | some v ↦ if is_expired now v then (none, Assoc.erase key db) else (some v, db)
]

unfoldable pub set_value : Bytes → RedisValue → Db → Db
set_value key value db = Assoc.insert key value db

-- The value of a key is changed in place, through the pointer that `getValue` returned.
unfoldable pub store : Bytes → RedisValue → Db → Db
store key value db = Assoc.insert key value db

-- How the commands that create a missing key begin: a value of another type is refused, and a
-- `getValue` behind the `setValue` of a fresh value finds that value.
pub data Opened : Type 0 where
  mistyped : Db → Opened
  opened : RedisValue → Db → Opened

unfoldable pub open_found : RedisType → Bytes → Option RedisValue → Db → Opened
open_found t key none db = opened (of_type t) (set_value key (of_type t) db)
open_found t key (some v) db = if type_eq v.type t then opened v db else mistyped db

unfoldable pub open_value : RedisType → ℤ → Bytes → Db → Opened
open_value t now key db = let (value, db') = get_value now key db in open_found t key value db'

unfoldable pub delete_key : Bytes → Db → Bool × Db
delete_key key db = (Assoc.contains key db, Assoc.erase key db)

unfoldable pub clear_database : Db → Db
clear_database db = []

unfoldable pub get_database_size : Db → ℕ
get_database_size db = length db

unfoldable pub cleanup_expired_keys : ℤ → Db → Db
cleanup_expired_keys now db = Assoc.erase_if (is_expired now) db

-- What `getMatchingKeys` appends to the regular expression for a byte of the pattern.
unfoldable pub regex_piece : ℕ → Bytes
regex_piece c =
    if c == b'*'
    then codes ".*"
    else if c == b'?'
    then codes "."
    else if c == b'.'
        || c == b'^'
        || c == b'$'
        || c == b'+'
        || c == b'|'
        || c == b'('
        || c == b')'
        || c == b'['
        || c == b']'
        || c == b'{'
        || c == b'}'
    then b'\\' ∷ c ∷ []
    else c ∷ []

unfoldable pub regex_of : Bytes → Bytes
regex_of [] = []
regex_of (c ∷ pattern) = regex_piece c ++ regex_of pattern

-- The loop over the database with the compiled expression.
unfoldable pub matching_keys : ℤ → (Bytes → Bool) → Db → List Bytes
matching_keys now matches [] = []
matching_keys now matches ((key, v) ∷ db) =
    let rest = matching_keys now matches db in
    if not (is_expired now v) && matches key then key ∷ rest else rest

-- `std::regex` is a parameter: it compiles an expression to a test, or throws with a message.
pub data Regex : Type 0 where
  compiled : (Bytes → Bool) → Regex
  regex_error : Bytes → Regex

-- The message of the exception on the left, the keys on the right.
unfoldable pub get_matching_keys : (Bytes → Regex) → ℤ → Bytes → Db → Bytes ⊎ List Bytes
get_matching_keys regex now pattern db = elim (regex (regex_of pattern)) [
  | compiled matches ↦ inr (matching_keys now matches db)
  | regex_error message ↦ inl message
]
