-- ===== src/Commands/Strings/Counters.antt =====
-- What a client sees of the counting commands.
use cpp_redis.Prelude.{
  inr, inl, ◌⊎◌, ◌^◌, ◌-◌, ◌≡◌, refl, ap, ◌∙◌, Option, none, some, [], ◌∷◌, Bytes, arith,
  if◌then◌else◌, str_eq,
}
use cpp_redis.Prelude.Int.{signed, negsuc, ℤ, pos, InInt64, wrap_int64, wrap_int64_self, ◌+ℤ◌}
use cpp_redis.Number.{to_string}
use cpp_redis.Utils.Integers.{parse_int-to_string}
use cpp_redis.Resp.Formatter.{format_integer}
use cpp_redis.Database.{RedisValue, Db, of_string, get_value, set_value}
use cpp_redis.Database.View.{view, get_value-view}
use cpp_redis.Commands.Strings.{current, current_of, counted, count_by, cmd_incr, cmd_incr_by}
use cpp_redis.Commands.Strings.Replies.{view-set-get_value}

-- The value that a counter key counts from.
abbrev pub Counts : Option RedisValue → ℤ → Type 0
Counts o n = (o ≡ none) × (n ≡ pos 0) ⊎ (o ≡ some (of_string (to_string n))) × InInt64 n

pub current_of-Counts : (o : Option RedisValue) (n : ℤ) → Counts o n → current_of o ≡ current n
unfolding current_of
current_of-Counts o n (inl (missing, zero)) = rw (missing, zero)
current_of-Counts o n (inr (held, fits)) =
    let (accepted, read) = parse_int-to_string n fits in rw (held, accepted, read)

count_by_lem :
    (step : ℤ → ℤ) (now : ℤ) (key : Bytes) (db : Db) (n : ℤ)
    → Counts (view now db key) n
    → count_by step now key db ≡ (
      format_integer (wrap_int64 (step n)),
      set_value key (of_string (to_string (wrap_int64 (step n)))) (get_value now key db).1,
    )
unfolding count_by counted
count_by_lem step now key db n c =
    rw (get_value-view now key db, current_of-Counts (view now db key) n c)

module _ (now : ℤ) (name key : Bytes) (db : Db) (n k : ℤ) where
  incr_by_run :
      Counts (view now db key) n
      → InInt64 k
      → InInt64 (n +ℤ k)
      → cmd_incr_by now (name ∷ key ∷ to_string k ∷ []) db ≡ (
        format_integer (n +ℤ k),
        set_value key (of_string (to_string (n +ℤ k))) (get_value now key db).1,
      )
  unfolding cmd_incr_by
  incr_by_run c fits sum_fits =
      let (accepted, read) = parse_int-to_string k fits in
      rw accepted (
        ap (λ m. count_by (λ x. x +ℤ m) now key db) read
        ∙ count_by_lem (λ x. x +ℤ k) now key db n c
        ∙ ap
            (λ z.
              (format_integer z, set_value key (of_string (to_string z)) (get_value now key db).1))
            (wrap_int64_self (n +ℤ k) sum_fits))

  -- INCRBY on a key that is missing or holds a printed `long long`, by an increment that was printed,
  -- with a sum that fits: the reply is the sum, the key holds its print afterwards without an
  -- expiry, and what any other key shows is as before.
  pub incr_by_sum :
      (j : Bytes)
      → Counts (view now db key) n
      → InInt64 k
      → InInt64 (n +ℤ k)
      → let (reply, db') = cmd_incr_by now (name ∷ key ∷ to_string k ∷ []) db in
        (reply ≡ format_integer (n +ℤ k))
        × (view now db' j
            ≡ (if str_eq key j then some (of_string (to_string (n +ℤ k))) else view now db j))
  incr_by_sum j c fits sum_fits =
      let run = incr_by_run c fits sum_fits in
      (
        ap (λ p. p.0) run,
        ap (λ p. view now p.1 j) run ∙ view-set-get_value now key (to_string (n +ℤ k)) db j,
      )

-- INCR of the greatest `long long` wraps around: the reply is the least one.
pub incr_wraps :
    (now : ℤ) (name key : Bytes) (db : Db)
    → view now db key ≡ some (of_string (to_string (pos (2 ^ 63 - 1))))
    → (cmd_incr now (name ∷ key ∷ []) db).0 ≡ format_integer (negsuc (2 ^ 63 - 1))
unfolding cmd_incr
incr_wraps now name key db held =
    ap (λ p. p.0)
      (count_by_lem (λ x. x +ℤ pos 1) now key db (pos (2 ^ 63 - 1)) (inr (held, omega arith)))
    ∙ (unfold wrap_int64 ◌+ℤ◌ signed in refl)
