-- ===== src/Commands/Abstract.antt =====
-- An abstract command has one key: it replies by what the key shows, and says what the key shows
-- behind it. Here is what lists, sets and hashes have in common, with the rules by which a command
-- of redis/commands/ is shown to implement its abstract command.
use mathlib.Core.Path.{subst}
use cpp_redis.Prelude.{
  ◌≡◌, refl, sym, ap, ◌∙◌, Bool, false, Option, none, some, Bytes, arith, if◌then◌else◌, str_eq,
  str_eq_iff, Bool-cases, inl, inr,
}
use cpp_redis.Prelude.Int.{ℤ}
use cpp_redis.Database.{
  RedisType, RedisValue, Db, Opened, mistyped, opened, of_type, type_eq, typed, is_expired,
  get_value, set_value, store, delete_key, open_found, open_value,
}
use cpp_redis.Database.View.{
  live, view, get_value-view, view-get_value, view-store, view-set_value, view-delete_key,
}
use cpp_redis.Database.Invariant.{delete_key-store}
use cpp_redis.Commands.Errors.{not_an_integer, wrong_kind}

-- A command that reads a value of type `t`; `r` is the reply where there is none.
abbrev pub reads :
    RedisType → Bytes → (RedisValue → Bytes) → Option RedisValue → Bytes × Option RedisValue
reads t r f o = (elim (typed t o) [ none ↦ r | some v ↦ f v ], o)

-- A command that creates a missing value, and changes it.
abbrev pub grows :
    RedisType
    → (RedisValue → Bytes)
    → (RedisValue → RedisValue)
    → Option RedisValue
    → Bytes × Option RedisValue
grows t r f none = (r (of_type t), some (f (of_type t)))
grows t r f (some v) = if type_eq v.type t then (r v, some (f v)) else (wrong_kind, some v)

-- What a command takes off a value: its reply, and the value that is left, unless that is empty.
pub record Taken : Type 0 where
  pub reply : Bytes
  pub rest : RedisValue
  pub is_last : Bool

abbrev pub took : Bytes → Option RedisValue → Option Taken → Bytes × Option RedisValue
took r o none = (r, o)
took r o (some x) = (x.reply, if x.is_last then none else some x.rest)

abbrev pub shrunk :
    Bytes
    → (RedisValue → Option Taken)
    → Option RedisValue
    → Option RedisValue
    → Bytes × Option RedisValue
shrunk r f o none = (r, o)
shrunk r f o (some v) = took r o (f v)

abbrev pub shrinks :
    RedisType → Bytes → (RedisValue → Option Taken) → Option RedisValue → Bytes × Option RedisValue
shrinks t r f o = shrunk r f o (typed t o)

-- A command whose arguments must be integers.
abbrev pub if_integers :
    Bool
    → (Option RedisValue → Bytes × Option RedisValue)
    → Option RedisValue
    → Bytes × Option RedisValue
if_integers ok f o = if ok then f o else (not_an_integer, o)

-- At a time a command on a key replies what an abstract command does, leaves under the key what
-- that says, and leaves the other keys as they were.
abbrev pub Refines : ℤ → Bytes → Db → Bytes × Db → Bytes × Option RedisValue → Type 0
Refines now key db p q =
    (p.0 ≡ q.0) × ((j : Bytes) → view now p.1 j ≡ (if str_eq key j then q.1 else view now db j))

module _ (now : ℤ) (key : Bytes) (db : Db) where
  abbrev Shows : Db → Type 0
  Shows d = (j : Bytes) → view now d j ≡ view now db j

  pub Refines-same :
      (r : Bytes) (d : Db) (o : Option RedisValue)
      → ((j : Bytes) → view now d j ≡ view now db j)
      → view now db key ≡ o
      → Refines now key db (r, d) (r, o)
  Refines-same r d o same e = (
    refl,
    λ j. elim (Bool-cases (str_eq key j)) [
      | inl here ↦ rw here (same j ∙ ap (view now db) (sym ((str_eq_iff key j).0 here)) ∙ e)
      | inr other ↦ rw other (same j)
    ],
  )

  pub Refines-store :
      (r : Bytes) (d : Db) (w : RedisValue)
      → ((j : Bytes) → str_eq key j ≡ false → view now d j ≡ view now db j)
      → is_expired now w ≡ false
      → Refines now key db (r, store key w d) (r, some w)
  Refines-store r d w same lives = (refl, λ j. ground (arith, view-store now key w d j, same j))

  -- A value that may have expired already.
  pub Refines-store-live :
      (r : Bytes) (d : Db) (w : RedisValue)
      → ((j : Bytes) → view now d j ≡ view now db j)
      → Refines now key db (r, store key w d) (r, live now (some w))
  Refines-store-live r d w same = (refl, λ j. ground (arith, view-store now key w d j, same j))

  pub Refines-delete :
      (r : Bytes) (d : Db)
      → ((j : Bytes) → view now d j ≡ view now db j)
      → Refines now key db (r, (delete_key key d).1) (r, none)
  Refines-delete r d same = (refl, λ j. ground (arith, view-delete_key now key d j, same j))

  pub view-lives : (v : RedisValue) → view now db key ≡ some v → is_expired now v ≡ false
  unfolding view
  view-lives v e = ground arith

  -- A command that begins with a look-up of its key.
  pub Refines-get_value :
      (f : Option RedisValue → Db → Bytes × Db) (q : Option RedisValue → Bytes × Option RedisValue)
      → ((o : Option RedisValue) (d : Db)
          → ((j : Bytes) → view now d j ≡ view now db j)
          → view now db key ≡ o
          → Refines now key db (f o d) (q o))
      → Refines now key db
          (f (get_value now key db).0 (get_value now key db).1)
          (q (view now db key))
  Refines-get_value f q h =
      let shown = get_value-view now key db in
      subst (λ o. Refines now key db (f (get_value now key db).0 (get_value now key db).1) (q o))
        shown
        (h (get_value now key db).0 (get_value now key db).1 (view-get_value now key db)
          (sym shown))

  pub Refines-eq :
      (p p' : Bytes × Db) (q : Bytes × Option RedisValue)
      → p ≡ p'
      → Refines now key db p' q
      → Refines now key db p q
  Refines-eq p p' q e h = subst (λ x. Refines now key db x q) (sym e) h

  pub Refines-reads :
      (t : RedisType) (r : Bytes) (f : RedisValue → Bytes)
      (use_found : Option RedisValue → Db → Bytes × Db)
      → ((o : Option RedisValue) (d : Db) → use_found o d ≡ ((reads t r f o).0, d))
      → Refines now key db
          (use_found (get_value now key db).0 (get_value now key db).1)
          (reads t r f (view now db key))
  Refines-reads t r f use_found e = Refines-get_value use_found (reads t r f) (λ o d same shown.
      Refines-eq (use_found o d) _ (reads t r f o) (e o d) (Refines-same _ d o same shown))

  -- A command that creates its value: what it does with a value of another type, and with one of
  -- its own.
  pub Refines-grows :
      (t : RedisType) (r : RedisValue → Bytes) (f : RedisValue → RedisValue)
      (use_opened : Opened → Bytes × Db)
      → ((d : Db) → use_opened (mistyped d) ≡ (wrong_kind, d))
      → ((v : RedisValue) (d : Db) → use_opened (opened v d) ≡ (r v, store key (f v) d))
      → ((v : RedisValue) → is_expired now (f v) ≡ is_expired now v)
      → Refines now key db (use_opened (open_value t now key db)) (grows t r f (view now db key))
  unfolding open_value open_found is_expired
  Refines-grows t r f use_opened bad good keeps =
      Refines-get_value (λ o d. use_opened (open_found t key o d)) (grows t r f) found
    where
      fresh : is_expired now (of_type t) ≡ false
      fresh = refl

      found :
          (o : Option RedisValue) (d : Db)
          → ((j : Bytes) → view now d j ≡ view now db j)
          → view now db key ≡ o
          → Refines now key db (use_opened (open_found t key o d)) (grows t r f o)
      found none d same shown =
          Refines-eq _ _ (grows t r f none) (good (of_type t) (set_value key (of_type t) d)) (
            Refines-store (r (of_type t)) (set_value key (of_type t) d) (f (of_type t))
              (λ j other. ground (arith, view-set_value now key (of_type t) d j, same j))
              (keeps (of_type t) ∙ fresh))
      found (some v) d same shown = elim (Bool-cases (type_eq v.type t)) [
        | inl fits ↦ rw fits (
            Refines-eq _ _ _ (good v d)
              (Refines-store (r v) d (f v) (λ j other. same j) (keeps v ∙ view-lives v shown)))
        | inr other ↦
            rw other (Refines-eq _ _ _ (bad d) (Refines-same wrong_kind d (some v) same shown))
      ]

  abbrev pub stored : Taken → Db → Db
  stored x d = if x.is_last then (delete_key key (store key x.rest d)).1 else store key x.rest d

  pub Refines-stored :
      (x : Taken) (d : Db)
      → ((j : Bytes) → view now d j ≡ view now db j)
      → is_expired now x.rest ≡ false
      → Refines now key db (x.reply, stored x d) (x.reply, if x.is_last then none else some x.rest)
  Refines-stored x d same lives = elim (Bool-cases x.is_last) [
    | inl last ↦ rw last (
        Refines-eq _ (x.reply, (delete_key key d).1) _
          (ap (λ e. (x.reply, e)) (delete_key-store key x.rest d)) (Refines-delete x.reply d same))
    | inr more ↦ rw more (Refines-store x.reply d x.rest (λ j other. same j) lives)
  ]

  pub Refines-shrinks :
      (t : RedisType) (r : Bytes) (f : RedisValue → Option Taken)
      (use_found : Option RedisValue → Db → Bytes × Db)
      → ((d : Db) → use_found none d ≡ (r, d))
      → ((v : RedisValue) (d : Db)
          → use_found (some v) d ≡ elim (f v) [ none ↦ (r, d) | some x ↦ (x.reply, stored x d) ])
      → ((v : RedisValue) (x : Taken) → f v ≡ some x → is_expired now x.rest ≡ is_expired now v)
      → Refines now key db
          (use_found (typed t (get_value now key db).0) (get_value now key db).1)
          (shrinks t r f (view now db key))
  unfolding typed
  Refines-shrinks t r f use_found missing here keeps =
      Refines-get_value (λ o d. use_found (typed t o) d) (shrinks t r f) found
    where
      taken :
          (v : RedisValue) (d : Db) (o : Option Taken)
          → f v ≡ o
          → ((j : Bytes) → view now d j ≡ view now db j)
          → view now db key ≡ some v
          → Refines now key db
              (elim o [ none ↦ (r, d) | some x ↦ (x.reply, stored x d) ])
              (took r (some v) o)
      taken v d none e same shown = Refines-same r d (some v) same shown
      taken v d (some x) e same shown = Refines-stored x d same (keeps v x e ∙ view-lives v shown)

      found :
          (o : Option RedisValue) (d : Db)
          → ((j : Bytes) → view now d j ≡ view now db j)
          → view now db key ≡ o
          → Refines now key db (use_found (typed t o) d) (shrinks t r f o)
      found none d same shown = Refines-eq _ _ _ (missing d) (Refines-same r d none same shown)
      found (some v) d same shown = elim (Bool-cases (type_eq v.type t)) [
        | inl fits ↦ rw fits (Refines-eq _ _ _ (here v d) (taken v d (f v) refl same shown))
        | inr other ↦ rw other (Refines-eq _ _ _ (missing d) (Refines-same r d (some v) same shown))
      ]

  -- The error that leaves everything as it was.
  pub Refines-not_an_integer :
      Refines now key db (not_an_integer, db) (not_an_integer, view now db key)
  Refines-not_an_integer = Refines-same not_an_integer db (view now db key) (λ j. refl) refl
