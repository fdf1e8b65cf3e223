-- ===== src/Commands/Ttl/Expiry.antt =====
-- When keys expire, and what TTL replies.
use cpp_redis.Prelude.{
  ℕ, Bool-cases, inl, inr, ◌+◌, ◌-◌, ◌*◌, ◌/◌, ◌^◌, ◌≤◌, ◌<◌, ◌≡◌, refl, ap, ◌∙◌, true, none, some,
  [], ◌∷◌, Bytes, codes, arith, ltb, if◌then◌else◌, str_eq, str_eq_refl,
}
use cpp_redis.Prelude.Int.{pos, negsuc, wrap_int64, wrap_int64_self, scale, div_trunc, ◌+ℤ◌, ◌-ℤ◌}
use cpp_redis.Number.{to_string}
use cpp_redis.Utils.{to_upper, upper}
use cpp_redis.Utils.Integers.{parse_int-to_string}
use cpp_redis.Resp.Formatter.{format_integer, format_bulk_string, format_null}
use cpp_redis.Database.{
  RedisValue, Db, of_string, is_expired, seconds, set_expiry, get_value, set_value, store,
}
use cpp_redis.Database.View.{live, view, get_value-view, view-store, view-set_value}
use cpp_redis.Commands.Strings.{accepted, set_options, set_reply, cmd_set, cmd_get, string_of}
use cpp_redis.Commands.Strings.Replies.{got, cmd_get-view}
use cpp_redis.Commands.Ttl.{expire_found, cmd_expire, ttl_found, cmd_ttl}

-- The time at which a key expires that is given `n` seconds at the time `t`, in nanoseconds.
abbrev pub deadline : ℕ → ℕ → ℕ
deadline t n = t + n * 1000000000

abbrev pub expiring : ℕ → RedisValue → RedisValue
expiring at v = record v { expiry = pos at; has_expiry = true }

scale_pos : (k n : ℕ) → scale k (pos n) ≡ pos (k * n)
unfolding scale
scale_pos k n = ground arith

seconds_pos : (n : ℕ) → 1000 * n < 2 ^ 63 → seconds (pos n) ≡ pos (1000 * n)
unfolding seconds
seconds_pos n h =
    ap wrap_int64 (scale_pos 1000 n) ∙ wrap_int64_self (pos (1000 * n)) (h, omega arith)

sum_pos : (a b : ℕ) → pos a +ℤ pos b ≡ pos (a + b)
unfolding ◌+ℤ◌
sum_pos a b = ground arith

-- The deadline is exact where it fits into the clock's 64 bits.
set_expiry-seconds :
    (t n : ℕ) (v : RedisValue)
    → deadline t n < 2 ^ 63
    → set_expiry (pos t) (seconds (pos n)) v ≡ expiring (deadline t n) v
unfolding set_expiry
set_expiry-seconds t n v h =
    let in_ns : wrap_int64 (scale 1000000 (seconds (pos n))) ≡ pos (n * 1000000000) =
      ap (λ m. wrap_int64 (scale 1000000 m)) (seconds_pos n (omega arith))
      ∙ ap wrap_int64 (scale_pos 1000000 (1000 * n))
      ∙ wrap_int64_self (pos (1000000 * (1000 * n))) (omega arith)
      ∙ ap pos (omega arith) in
    let at : wrap_int64 (pos t +ℤ wrap_int64 (scale 1000000 (seconds (pos n))))
        ≡ pos (deadline t n) =
      ap (λ m. wrap_int64 (pos t +ℤ m)) in_ns
      ∙ ap wrap_int64 (sum_pos t (n * 1000000000))
      ∙ wrap_int64_self (pos (deadline t n)) (omega arith) in
    ap (λ e. record v { expiry = e; has_expiry = true }) at

-- A value with a deadline is live exactly before it.
live-expiring :
    (later at : ℕ) (v : RedisValue)
    → live (pos later) (some (expiring at v))
      ≡ (if ltb later at then some (expiring at v) else none)
unfolding is_expired
live-expiring later at v = ground arith

set_options_ex :
    (t n : ℕ) (key : Bytes) (v : RedisValue) (db : Db)
    → deadline t n < 2 ^ 63
    → set_options (pos t) key (codes "EX" ∷ to_string (pos n) ∷ []) v db
      ≡ accepted (expiring (deadline t n) v) db
unfolding set_options to_upper upper str_eq
set_options_ex t n key v db h =
    let (is_number, read) = parse_int-to_string (pos n) (omega arith) in
    rw is_number (
      ap (λ m. accepted (set_expiry (pos t) (seconds m) v) db) read
      ∙ ap (λ w. accepted w db) (set_expiry-seconds t n v h))

-- What a key with a deadline shows.
view-store-expiring :
    (later at : ℕ) (key : Bytes) (v : RedisValue) (db : Db)
    → view (pos later) (store key (expiring at v) db) key
      ≡ (if ltb later at then some (expiring at v) else none)
view-store-expiring later at key v db =
    view-store (pos later) key (expiring at v) db key
    ∙ rw (str_eq_refl key) (live-expiring later at v)

-- SET with EX and a number of seconds, whose deadline fits into the clock: a GET at any time returns
-- the value before the deadline, and null from it on.
pub get-set_ex :
    (t later n : ℕ) (name get_name key value : Bytes) (db : Db)
    → deadline t n < 2 ^ 63
    → (cmd_get
        (pos later)
        (get_name ∷ key ∷ [])
        (cmd_set (pos t) (name ∷ key ∷ value ∷ codes "EX" ∷ to_string (pos n) ∷ []) db).1).0
      ≡ (if ltb later (deadline t n) then format_bulk_string value else format_null)
unfolding cmd_set set_reply string_of
get-set_ex t later n name get_name key value db h =
    let at = deadline t n in
    let v = of_string value in
    let held : view (pos later) (set_value key (expiring at v) db) key
        ≡ (if ltb later at then some (expiring at v) else none) =
      view-set_value (pos later) key (expiring at v) db key
      ∙ rw (str_eq_refl key) (live-expiring later at v) in
    ap (λ o. (cmd_get (pos later) (get_name ∷ key ∷ []) (set_reply key o).1).0)
      (set_options_ex t n key v db h)
    ∙ cmd_get-view (pos later) get_name key (set_value key (expiring at v) db)
    ∙ ap (λ o. got (string_of o)) held
    ∙ ground arith

expire_found_run :
    (t n : ℕ) (key : Bytes) (v : RedisValue) (db : Db)
    → 0 < n
    → deadline t n < 2 ^ 63
    → expire_found (pos t) key (pos n) (some v) db
      ≡ (format_integer (pos 1), store key (expiring (deadline t n) v) db)
unfolding expire_found
expire_found_run t n key v db positive h = ground (arith, set_expiry-seconds t n v h)

expire_run :
    (t n : ℕ) (name key : Bytes) (db : Db) (v : RedisValue)
    → 0 < n
    → deadline t n < 2 ^ 63
    → view (pos t) db key ≡ some v
    → cmd_expire (pos t) (name ∷ key ∷ to_string (pos n) ∷ []) db
      ≡ (format_integer (pos 1), store key (expiring (deadline t n) v) (get_value (pos t) key db).1)
unfolding cmd_expire
expire_run t n name key db v positive h held =
    let (is_number, read) = parse_int-to_string (pos n) (omega arith) in
    let left = (get_value (pos t) key db).1 in
    let found : (get_value (pos t) key db).0 ≡ some v = get_value-view (pos t) key db ∙ held in
    rw is_number (
      ap (λ m. expire_found (pos t) key m (get_value (pos t) key db).0 left) read
      ∙ ap (λ o. expire_found (pos t) key (pos n) o left) found
      ∙ expire_found_run t n key v left positive h)

difference_pos : (a b : ℕ) → b ≤ a → pos a -ℤ pos b ≡ pos (a - b)
unfolding ◌-ℤ◌
difference_pos a b h = ground arith

div_trunc_pos : (a : ℕ) → div_trunc (pos a) 1000000000 ≡ pos (a / 1000000000)
unfolding div_trunc
div_trunc_pos a = ground arith

ttl_found_live :
    (later at : ℕ) (key : Bytes) (v : RedisValue) (db : Db)
    → later < at
    → at < 2 ^ 63
    → ttl_found (pos later) key (some (expiring at v)) db
      ≡ (format_integer (pos ((at - later) / 1000000000)), db)
unfolding ttl_found
ttl_found_live later at key v db h fits =
    let left : wrap_int64 (pos at -ℤ pos later) ≡ pos (at - later) =
      ap wrap_int64 (difference_pos at later (omega arith))
      ∙ wrap_int64_self (pos (at - later)) (omega arith) in
    let whole : div_trunc (wrap_int64 (pos at -ℤ pos later)) 1000000000
        ≡ pos ((at - later) / 1000000000) =
      ap (λ m. div_trunc m 1000000000) left ∙ div_trunc_pos (at - later) in
    ground (arith, whole)

ttl_found_shown :
    (later at : ℕ) (key : Bytes) (v : RedisValue) (db : Db)
    → at < 2 ^ 63
    → (ttl_found (pos later) key (if ltb later at then some (expiring at v) else none) db).0 ≡ (
        if ltb later at
        then format_integer (pos ((at - later) / 1000000000))
        else format_integer (negsuc 1))
ttl_found_shown later at key v db fits = elim (Bool-cases (ltb later at)) [
  | inl before ↦ rw before (ap (λ p. p.0) (ttl_found_live later at key v db (ground arith) fits))
  | inr after ↦ rw after (unfold ttl_found in refl)
]

-- TTL of a key with a deadline.
cmd_ttl-expiring :
    (later at : ℕ) (name key : Bytes) (v : RedisValue) (db : Db)
    → at < 2 ^ 63
    → view (pos later) db key ≡ (if ltb later at then some (expiring at v) else none)
    → (cmd_ttl (pos later) (name ∷ key ∷ []) db).0 ≡ (
        if ltb later at
        then format_integer (pos ((at - later) / 1000000000))
        else format_integer (negsuc 1))
unfolding cmd_ttl
cmd_ttl-expiring later at name key v db fits held =
    let left = (get_value (pos later) key db).1 in
    ap (λ o. (ttl_found (pos later) key o left).0) (get_value-view (pos later) key db ∙ held)
    ∙ ttl_found_shown later at key v left fits

-- EXPIRE of a key that a client sees, by a positive number of seconds whose deadline fits into the
-- clock: the reply is 1; at any time TTL replies the whole seconds that are left before the deadline,
-- and -2 from it on; and the key shows its value, with the deadline, before it, and nothing from it on.
pub ttl-expire :
    (t later n : ℕ) (name ttl_name key : Bytes) (db : Db) (v : RedisValue)
    → 0 < n
    → deadline t n < 2 ^ 63
    → view (pos t) db key ≡ some v
    → let at = deadline t n in
      let (reply, db') = cmd_expire (pos t) (name ∷ key ∷ to_string (pos n) ∷ []) db in
      (reply ≡ format_integer (pos 1))
      × ((cmd_ttl (pos later) (ttl_name ∷ key ∷ []) db').0 ≡ (
          if ltb later at
          then format_integer (pos ((at - later) / 1000000000))
          else format_integer (negsuc 1)))
      × (view (pos later) db' key ≡ (if ltb later at then some (expiring at v) else none))
ttl-expire t later n name ttl_name key db v positive h held =
    let at = deadline t n in
    let run = expire_run t n name key db v positive h held in
    let left = (get_value (pos t) key db).1 in
    let shown = view-store-expiring later at key v left in
    (
      ap (λ p. p.0) run,
      ap (λ p. (cmd_ttl (pos later) (ttl_name ∷ key ∷ []) p.1).0) run
          ∙ cmd_ttl-expiring later at ttl_name key v (store key (expiring at v) left) h shown,
      ap (λ p. view (pos later) p.1 key) run ∙ shown,
    )
