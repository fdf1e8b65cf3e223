-- ===== src/Commands/Strings/Replies.antt =====
-- What a client sees of the commands on strings.
use cpp_redis.Prelude.{
  ℕ, ◌+◌, ◌≡◌, refl, ap, ◌∙◌, Option, none, some, List, [], ◌∷◌, ◌++◌, Bytes, arith, length,
  if◌then◌else◌, str_eq, str_eq_refl,
}
use cpp_redis.Prelude.Int.{ℤ, pos}
use cpp_redis.Resp.Formatter.{format_bulk_string, format_null, format_integer}
use cpp_redis.Database.{RedisValue, Db, of_string, is_expired, key_exists, get_value, set_value}
use cpp_redis.Database.View.{
  live, view, is_some, get_value-view, view-get_value, key_exists-view, view-key_exists,
  view-set_value,
}
use cpp_redis.Commands.Strings.{
  set_options, set_reply, cmd_set, cmd_get, string_of, count_existing, cmd_exists, appended,
  cmd_append, set_all, pairs_of, mset_reply, cmd_mset,
}

-- The reply of GET to the string that a key holds.
abbrev pub got : Option Bytes → Bytes
got none = format_null
got (some s) = format_bulk_string s

pub cmd_get-view :
    (now : ℤ) (name key : Bytes) (db : Db)
    → (cmd_get now (name ∷ key ∷ []) db).0 ≡ got (string_of (view now db key))
unfolding cmd_get
cmd_get-view now name key db = ground (arith, get_value-view now key db)

-- A value that never expires.
abbrev pub lasting : Bytes → Option RedisValue
lasting s = some (of_string s)

live-of_string : (now : ℤ) (s : Bytes) → live now (lasting s) ≡ lasting s
unfolding is_expired
live-of_string now s = refl

pub view-set :
    (now : ℤ) (key s : Bytes) (db : Db) (j : Bytes)
    → view now (set_value key (of_string s) db) j
      ≡ (if str_eq key j then lasting s else view now db j)
view-set now key s db j = rw (view-set_value now key (of_string s) db j, live-of_string now s)

-- After a SET with no options a GET, at whatever time, returns the value, and what any other key
-- shows is as before.
pub get-set :
    (now later : ℤ) (set_name get_name key value : Bytes) (db : Db) (j : Bytes)
    → let db' = (cmd_set now (set_name ∷ key ∷ value ∷ []) db).1 in
      ((cmd_get later (get_name ∷ key ∷ []) db').0 ≡ format_bulk_string value)
      × (view later db' j ≡ (if str_eq key j then some (of_string value) else view later db j))
unfolding cmd_set set_reply set_options string_of
get-set now later set_name get_name key value db j =
    let held : view later (set_value key (of_string value) db) key ≡ lasting value =
      view-set later key value db key ∙ rw (str_eq_refl key) in
    (
      cmd_get-view later get_name key (set_value key (of_string value) db) ∙ rw held,
      view-set later key value db j,
    )

-- What a key and the others show after a look-up and a store.
pub view-set-get_value :
    (now : ℤ) (key s : Bytes) (db : Db) (j : Bytes)
    → view now (set_value key (of_string s) (get_value now key db).1) j
      ≡ (if str_eq key j then lasting s else view now db j)
view-set-get_value now key s db j =
    view-set now key s (get_value now key db).1 j
    ∙ ap (λ o. if str_eq key j then lasting s else o) (view-get_value now key db j)

-- How many of the keys a client sees, each as often as it is named.
abbrev pub live_count : ℤ → Db → List Bytes → ℕ
live_count now db [] = 0
live_count now db (key ∷ keys) =
    (if is_some (view now db key) then 1 else 0) + live_count now db keys

live_count-cong :
    (now : ℤ) (db db' : Db) (keys : List Bytes)
    → ((j : Bytes) → view now db' j ≡ view now db j)
    → live_count now db' keys ≡ live_count now db keys
live_count-cong now db db' [] h = refl
live_count-cong now db db' (key ∷ keys) h = cc (h key, live_count-cong now db db' keys h)

count_existing_lem :
    (now : ℤ) (keys : List Bytes) (count : ℕ) (db : Db)
    → ((count_existing now keys count db).0 ≡ count + live_count now db keys)
      × ((j : Bytes) → view now (count_existing now keys count db).1 j ≡ view now db j)
unfolding count_existing
count_existing_lem now [] count db = (omega arith, λ j. refl)
count_existing_lem now (key ∷ keys) count db =
    let db' = (key_exists now key db).1 in
    let same = view-key_exists now key db in
    let (rest, others) =
      count_existing_lem now keys (if (key_exists now key db).0 then count + 1 else count) db' in
    (
      ground (arith, rest, live_count-cong now db db' keys same, key_exists-view now key db),
      λ j. others j ∙ same j,
    )

-- EXISTS replies how many of its arguments are keys that a client sees, and changes nothing that a
-- client sees.
pub exists_counts :
    (now : ℤ) (name key : Bytes) (keys : List Bytes) (db : Db)
    → let (reply, db') = cmd_exists now (name ∷ key ∷ keys) db in
      (reply ≡ format_integer (pos (live_count now db (key ∷ keys))))
      × ((j : Bytes) → view now db' j ≡ view now db j)
unfolding cmd_exists
exists_counts now name key keys db =
    let (count, same) = count_existing_lem now (key ∷ keys) 0 db in
    (ap (λ n. format_integer (pos n)) (count ∙ omega arith), same)

-- What a key shows after the pairs of MSET have been stored from left to right.
abbrev pub last_of : List (Bytes × Bytes) → Bytes → Option RedisValue → Option RedisValue
last_of [] j o = o
last_of ((key, value) ∷ pairs) j o = last_of pairs j (if str_eq key j then lasting value else o)

set_all-view :
    (now : ℤ) (pairs : List (Bytes × Bytes)) (db : Db) (j : Bytes)
    → view now (set_all pairs db) j ≡ last_of pairs j (view now db j)
unfolding set_all
set_all-view now [] db j = refl
set_all-view now ((key, value) ∷ pairs) db j =
    set_all-view now pairs (set_value key (of_string value) db) j
    ∙ ap (last_of pairs j) (view-set now key value db j)

-- The arguments that name the keys and values of MSET.
abbrev pub flat : List (Bytes × Bytes) → List Bytes
flat [] = []
flat ((key, value) ∷ pairs) = key ∷ value ∷ flat pairs

pairs_of-flat : (pairs : List (Bytes × Bytes)) → pairs_of (flat pairs) ≡ some pairs
unfolding pairs_of
pairs_of-flat [] = refl
pairs_of-flat ((key, value) ∷ pairs) = rw (pairs_of-flat pairs)

-- MSET of at least one pair: each key shows the last value that it is paired with, without an
-- expiry, and any other key what it showed before.
pub mset_stores :
    (now : ℤ) (name : Bytes) (pair : Bytes × Bytes) (pairs : List (Bytes × Bytes)) (db : Db)
    (j : Bytes)
    → view now (cmd_mset now (name ∷ flat (pair ∷ pairs)) db).1 j
      ≡ last_of (pair ∷ pairs) j (view now db j)
unfolding cmd_mset mset_reply
mset_stores now name (key, value) pairs db j =
    rw (pairs_of-flat ((key, value) ∷ pairs)) (set_all-view now ((key, value) ∷ pairs) db j)

-- The text that a key holds; a key that is missing or holds no string counts as empty.
abbrev pub text_of : Option Bytes → Bytes
text_of none = []
text_of (some s) = s

appended-text_of : (o : Option RedisValue) (x : Bytes) → appended o x ≡ text_of (string_of o) ++ x
unfolding appended
appended-text_of o x = ground arith

-- After APPEND a GET, at whatever time, returns the text that the key held at the time of the
-- APPEND (none, if it was missing or held no string) with the new text behind it; the reply of APPEND
-- is its length, and what any other key shows is as before.
pub get-append :
    (now later : ℤ) (name get_name key x : Bytes) (db : Db) (j : Bytes)
    → let text = text_of (string_of (view now db key)) ++ x in
      let (reply, db') = cmd_append now (name ∷ key ∷ x ∷ []) db in
      (reply ≡ format_integer (pos (length text)))
      × ((cmd_get later (get_name ∷ key ∷ []) db').0 ≡ format_bulk_string text)
      × (view now db' j ≡ (if str_eq key j then some (of_string text) else view now db j))
unfolding cmd_append string_of
get-append now later name get_name key x db j =
    let text = text_of (string_of (view now db key)) ++ x in
    let left = (get_value now key db).1 in
    let same : appended (get_value now key db).0 x ≡ text =
      appended-text_of (get_value now key db).0 x
      ∙ ap (λ o. text_of (string_of o) ++ x) (get_value-view now key db) in
    let held : view later (set_value key (of_string text) left) key ≡ lasting text =
      view-set later key text left key ∙ rw (str_eq_refl key) in
    (
      ap (λ s. format_integer (pos (length s))) same,
      ap (λ s. (cmd_get later (get_name ∷ key ∷ []) (set_value key (of_string s) left)).0) same
          ∙ cmd_get-view later get_name key (set_value key (of_string text) left)
          ∙ rw held,
      ap (λ s. view now (set_value key (of_string s) left) j) same
          ∙ view-set-get_value now key text db j,
    )
