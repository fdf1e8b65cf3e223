-- ===== src/Commands/Ttl/Refines.antt =====
-- The commands on expiry as abstract commands on what their key shows.
use cpp_redis.Prelude.{
  ◌≡◌, refl, true, false, Bool, Option, none, some, [], ◌∷◌, Bytes, arith, if◌then◌else◌,
  Bool-cases, inl, inr,
}
use cpp_redis.Prelude.Int.{ℤ, pos, negsuc, ◌-ℤ◌, div_trunc, le_ℤ, wrap_int64}
use cpp_redis.Utils.{is_integer, parse_int}
use cpp_redis.Resp.Formatter.{format_integer}
use cpp_redis.Database.{RedisValue, Db, seconds, set_expiry, clear_expiry, is_expired}
use cpp_redis.Database.View.{live, view}
use cpp_redis.Commands.Abstract.{
  Refines, Refines-same, Refines-store, Refines-store-live, Refines-delete, Refines-get_value,
  view-lives, if_integers, Refines-not_an_integer,
}
use cpp_redis.Commands.Ttl.{
  from_time_t, expire_found, cmd_expire, expireat_found, cmd_expireat, ttl_found, cmd_ttl,
  persist_found, cmd_persist,
}

-- A value gets a deadline, or goes at once where that has passed.
abbrev pub expires :
    ℤ → Bool → (RedisValue → RedisValue) → Option RedisValue → Bytes × Option RedisValue
expires now past f none = (format_integer (pos 0), none)
expires now past f (some v) = (format_integer (pos 1), if past then none else live now (some (f v)))

-- The whole seconds to the deadline; -1 without one, and -2 where nothing is shown.
abbrev pub times : ℤ → Option RedisValue → Bytes × Option RedisValue
times now none = (format_integer (negsuc 1), none)
times now (some v) = (
  if v.has_expiry
      then format_integer (div_trunc (wrap_int64 (v.expiry -ℤ now)) 1000000000)
      else format_integer (negsuc 0),
  some v,
)

abbrev pub persists : Option RedisValue → Bytes × Option RedisValue
persists none = (format_integer (pos 0), none)
persists (some v) =
    if v.has_expiry
    then (format_integer (pos 1), some (clear_expiry v))
    else (format_integer (pos 0), some v)

module _ (now : ℤ) (name key : Bytes) (db : Db) where
  expire_found-Refines :
      (n : ℤ) (o : Option RedisValue) (d : Db)
      → ((j : Bytes) → view now d j ≡ view now db j)
      → view now db key ≡ o
      → Refines now key db
          (expire_found now key n o d)
          (expires now (le_ℤ n (pos 0)) (set_expiry now (seconds n)) o)
  unfolding expire_found
  expire_found-Refines n none d same shown = Refines-same now key db _ d none same shown
  expire_found-Refines n (some v) d same shown = elim (Bool-cases (le_ℤ n (pos 0))) [
    | inl past ↦ rw past (Refines-delete now key db (format_integer (pos 1)) d same)
    | inr coming ↦ rw coming (
        Refines-store-live now key db (format_integer (pos 1)) d (set_expiry now (seconds n) v)
          same)
  ]

  pub cmd_expire-Refines :
      (n : Bytes)
      → Refines now key db (cmd_expire now (name ∷ key ∷ n ∷ []) db) (
          if_integers
            (is_integer n)
            (expires now (le_ℤ (parse_int n) (pos 0)) (set_expiry now (seconds (parse_int n))))
            (view now db key))
  unfolding cmd_expire
  cmd_expire-Refines n = elim (Bool-cases (is_integer n)) [
    | inr other ↦ rw other (Refines-not_an_integer now key db)
    | inl number ↦ rw number (
        Refines-get_value now key db (λ o d. expire_found now key (parse_int n) o d)
          (expires now (le_ℤ (parse_int n) (pos 0)) (set_expiry now (seconds (parse_int n))))
          (expire_found-Refines (parse_int n)))
  ]

  expireat_found-Refines :
      (t : ℤ) (o : Option RedisValue) (d : Db)
      → ((j : Bytes) → view now d j ≡ view now db j)
      → view now db key ≡ o
      → Refines now key db
          (expireat_found now key t o d)
          (expires now (le_ℤ t now) (λ v. record v { expiry = t; has_expiry = true }) o)
  unfolding expireat_found
  expireat_found-Refines t none d same shown = Refines-same now key db _ d none same shown
  expireat_found-Refines t (some v) d same shown = elim (Bool-cases (le_ℤ t now)) [
    | inl past ↦ rw past (Refines-delete now key db (format_integer (pos 1)) d same)
    | inr coming ↦ rw coming (
        Refines-store-live now key db (format_integer (pos 1)) d
          (record v { expiry = t; has_expiry = true }) same)
  ]

  pub cmd_expireat-Refines :
      (n : Bytes)
      → Refines now key db (cmd_expireat now (name ∷ key ∷ n ∷ []) db) (
          if_integers
            (is_integer n)
            (expires now
              (le_ℤ (from_time_t (parse_int n)) now)
              (λ v. record v { expiry = from_time_t (parse_int n); has_expiry = true }))
            (view now db key))
  unfolding cmd_expireat
  cmd_expireat-Refines n = elim (Bool-cases (is_integer n)) [
    | inr other ↦ rw other (Refines-not_an_integer now key db)
    | inl number ↦ rw number (
        Refines-get_value now key db (λ o d. expireat_found now key (from_time_t (parse_int n)) o d)
          (expires now (le_ℤ (from_time_t (parse_int n)) now)
            (λ v. record v { expiry = from_time_t (parse_int n); has_expiry = true }))
          (expireat_found-Refines (from_time_t (parse_int n))))
  ]

  ttl_found-Refines :
      (o : Option RedisValue) (d : Db)
      → ((j : Bytes) → view now d j ≡ view now db j)
      → view now db key ≡ o
      → Refines now key db (ttl_found now key o d) (times now o)
  unfolding ttl_found
  ttl_found-Refines none d same shown = Refines-same now key db _ d none same shown
  ttl_found-Refines (some v) d same shown = elim (Bool-cases v.has_expiry) [
    | inr lasting ↦
        simp lasting (Refines-same now key db (format_integer (negsuc 0)) d (some v) same shown)
    | inl mortal ↦
        let coming : le_ℤ v.expiry now ≡ false =
          unfold is_expired in ground (arith, view-lives now key db v shown) in
        simp (mortal, coming) (Refines-same now key db _ d (some v) same shown)
  ]

  pub cmd_ttl-Refines :
      Refines now key db (cmd_ttl now (name ∷ key ∷ []) db) (times now (view now db key))
  unfolding cmd_ttl
  cmd_ttl-Refines =
      Refines-get_value now key db (λ o d. ttl_found now key o d) (times now) ttl_found-Refines

  persist_found-Refines :
      (o : Option RedisValue) (d : Db)
      → ((j : Bytes) → view now d j ≡ view now db j)
      → view now db key ≡ o
      → Refines now key db (persist_found key o d) (persists o)
  unfolding persist_found clear_expiry is_expired
  persist_found-Refines none d same shown = Refines-same now key db _ d none same shown
  persist_found-Refines (some v) d same shown = elim (Bool-cases v.has_expiry) [
    | inr lasting ↦
        simp lasting (Refines-same now key db (format_integer (pos 0)) d (some v) same shown)
    | inl mortal ↦ simp mortal (
        Refines-store now key db (format_integer (pos 1)) d (clear_expiry v) (λ j other. same j)
          refl)
  ]

  pub cmd_persist-Refines :
      Refines now key db (cmd_persist now (name ∷ key ∷ []) db) (persists (view now db key))
  unfolding cmd_persist
  cmd_persist-Refines =
      Refines-get_value now key db (λ o d. persist_found key o d) persists persist_found-Refines
