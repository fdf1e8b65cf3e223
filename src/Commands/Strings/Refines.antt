-- ===== src/Commands/Strings/Refines.antt =====
-- The commands on strings as abstract commands on what their key shows.
use cpp_redis.Prelude.{
  ◌≡◌, refl, Option, none, some, [], ◌∷◌, Bytes, codes, arith, length, Bool-cases, inl, inr,
}
use cpp_redis.Prelude.Int.{ℤ, pos, ◌+ℤ◌, ◌-ℤ◌, wrap_int64}
use cpp_redis.Number.{to_string}
use cpp_redis.Utils.{is_integer, parse_int}
use cpp_redis.Resp.Formatter.{format_simple_string, format_bulk_string, format_integer, format_null}
use cpp_redis.Database.{RedisValue, Db, of_string, is_expired, set_value, store}
use cpp_redis.Database.View.{view}
use cpp_redis.Commands.Abstract.{
  Refines, Refines-same, Refines-store, Refines-get_value, Refines-eq, if_integers,
  Refines-not_an_integer,
}
use cpp_redis.Commands.Strings.{
  set_options, set_reply, cmd_set, string_of, cmd_get, type_name, cmd_type, Current, current,
  refused, current_of, counted, count_by, cmd_incr, cmd_decr, cmd_incr_by, cmd_decr_by, cmd_strlen,
  appended, cmd_append,
}

abbrev pub gets : Option RedisValue → Bytes × Option RedisValue
gets o = (elim (string_of o) [ none ↦ format_null | some s ↦ format_bulk_string s ], o)

abbrev pub puts : Bytes → Option RedisValue → Bytes × Option RedisValue
puts value o = (format_simple_string (codes "OK"), some (of_string value))

abbrev pub names_type : Option RedisValue → Bytes × Option RedisValue
names_type o = (
  elim o [
    | none ↦ format_simple_string (codes "none")
    | some v ↦ format_simple_string (type_name v.type)
  ],
  o,
)

abbrev pub measures : Option RedisValue → Bytes × Option RedisValue
measures o = (
  elim (string_of o) [ none ↦ format_integer (pos 0) | some s ↦ format_integer (pos (length s)) ],
  o,
)

-- Nothing, and what is no string, counts as the empty string.
abbrev pub appends : Bytes → Option RedisValue → Bytes × Option RedisValue
appends x o = (format_integer (pos (length (appended o x))), some (of_string (appended o x)))

abbrev pub counts_from : (ℤ → ℤ) → Option RedisValue → Current → Bytes × Option RedisValue
counts_from step o (refused message) = (message, o)
counts_from step o (current n) =
    (format_integer (wrap_int64 (step n)), some (of_string (to_string (wrap_int64 (step n)))))

abbrev pub counts : (ℤ → ℤ) → Option RedisValue → Bytes × Option RedisValue
counts step o = counts_from step o (current_of o)

module _ (now : ℤ) (name key : Bytes) (db : Db) where
  Refines-put :
      (r s : Bytes) (d : Db)
      → ((j : Bytes) → view now d j ≡ view now db j)
      → Refines now key db (r, set_value key (of_string s) d) (r, some (of_string s))
  unfolding set_value store is_expired
  Refines-put r s d same =
      unfold store in Refines-store now key db r d (of_string s) (λ j other. same j) refl

  pub cmd_get-Refines :
      Refines now key db (cmd_get now (name ∷ key ∷ []) db) (gets (view now db key))
  unfolding cmd_get
  cmd_get-Refines =
      Refines-get_value now key db
        (λ o d. elim (string_of o) [ none ↦ (format_null, d) | some s ↦ (format_bulk_string s, d) ])
        gets
        (λ o d same shown.
          Refines-eq now key db _ ((gets o).0, d) (gets o) (ground arith)
            (Refines-same now key db (gets o).0 d o same shown))

  pub cmd_type-Refines :
      Refines now key db (cmd_type now (name ∷ key ∷ []) db) (names_type (view now db key))
  unfolding cmd_type
  cmd_type-Refines =
      Refines-get_value now key db
        (λ o d. elim o [
          | none ↦ (format_simple_string (codes "none"), d)
          | some v ↦ (format_simple_string (type_name v.type), d)
        ])
        names_type
        (λ o d same shown.
          Refines-eq now key db _ ((names_type o).0, d) (names_type o) (ground arith)
            (Refines-same now key db (names_type o).0 d o same shown))

  pub cmd_strlen-Refines :
      Refines now key db (cmd_strlen now (name ∷ key ∷ []) db) (measures (view now db key))
  unfolding cmd_strlen
  cmd_strlen-Refines =
      Refines-get_value now key db
        (λ o d. elim (string_of o) [
          | none ↦ (format_integer (pos 0), d)
          | some s ↦ (format_integer (pos (length s)), d)
        ])
        measures
        (λ o d same shown.
          Refines-eq now key db _ ((measures o).0, d) (measures o) (ground arith)
            (Refines-same now key db (measures o).0 d o same shown))

  pub cmd_set-Refines :
      (value : Bytes)
      → Refines now key db (cmd_set now (name ∷ key ∷ value ∷ []) db) (puts value (view now db key))
  unfolding cmd_set set_options set_reply
  cmd_set-Refines value = Refines-put (format_simple_string (codes "OK")) value db (λ j. refl)

  pub cmd_append-Refines :
      (x : Bytes)
      → Refines now key db (cmd_append now (name ∷ key ∷ x ∷ []) db) (appends x (view now db key))
  unfolding cmd_append
  cmd_append-Refines x =
      Refines-get_value now key db
        (λ o d. (
          format_integer (pos (length (appended o x))),
          set_value key (of_string (appended o x)) d,
        ))
        (appends x) (λ o d same shown. Refines-put _ (appended o x) d same)

  counted-Refines :
      (step : ℤ → ℤ) (n : Current) (o : Option RedisValue) (d : Db)
      → ((j : Bytes) → view now d j ≡ view now db j)
      → view now db key ≡ o
      → Refines now key db (counted step key n d) (counts_from step o n)
  unfolding counted
  counted-Refines step (refused message) o d same shown =
      Refines-same now key db message d o same shown
  counted-Refines step (current n) o d same shown = Refines-put _ _ d same

  count_by-Refines :
      (step : ℤ → ℤ) → Refines now key db (count_by step now key db) (counts step (view now db key))
  unfolding count_by
  count_by-Refines step =
      Refines-get_value now key db (λ o d. counted step key (current_of o) d) (counts step)
        (λ o d. counted-Refines step (current_of o) o d)

  pub cmd_incr-Refines :
      Refines now key db
        (cmd_incr now (name ∷ key ∷ []) db)
        (counts (λ n. n +ℤ pos 1) (view now db key))
  unfolding cmd_incr
  cmd_incr-Refines = count_by-Refines (λ n. n +ℤ pos 1)

  pub cmd_decr-Refines :
      Refines now key db
        (cmd_decr now (name ∷ key ∷ []) db)
        (counts (λ n. n -ℤ pos 1) (view now db key))
  unfolding cmd_decr
  cmd_decr-Refines = count_by-Refines (λ n. n -ℤ pos 1)

  pub cmd_incr_by-Refines :
      (x : Bytes)
      → Refines now key db
          (cmd_incr_by now (name ∷ key ∷ x ∷ []) db)
          (if_integers (is_integer x) (counts (λ n. n +ℤ parse_int x)) (view now db key))
  unfolding cmd_incr_by
  cmd_incr_by-Refines x = elim (Bool-cases (is_integer x)) [
    | inl number ↦ rw number (count_by-Refines (λ n. n +ℤ parse_int x))
    | inr other ↦ rw other (Refines-not_an_integer now key db)
  ]

  pub cmd_decr_by-Refines :
      (x : Bytes)
      → Refines now key db
          (cmd_decr_by now (name ∷ key ∷ x ∷ []) db)
          (if_integers (is_integer x) (counts (λ n. n -ℤ parse_int x)) (view now db key))
  unfolding cmd_decr_by
  cmd_decr_by-Refines x = elim (Bool-cases (is_integer x)) [
    | inl number ↦ rw number (count_by-Refines (λ n. n -ℤ parse_int x))
    | inr other ↦ rw other (Refines-not_an_integer now key db)
  ]
