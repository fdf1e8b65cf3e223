-- ===== src/Database/Same.antt =====
-- Databases that show the same at a time: they may differ in the entries that have expired.
use mathlib.Core.Path.{subst}
use cpp_redis.Prelude.{
  ◌≡◌, refl, sym, ap, ◌∙◌, Bool, true, false, Option, none, some, List, Bytes, if◌then◌else◌,
  Bool-cases, inl, inr,
}
use cpp_redis.Prelude.Int.{ℤ, ◌≤ℤ◌}
use cpp_redis.Prelude.Assoc.{Distinct}
use cpp_redis.Database.{
  RedisType, RedisValue, Db, Opened, opened, mistyped, of_type, type_eq, key_exists, get_value,
  set_value, store, delete_key, cleanup_expired_keys, open_found, open_value,
}
use cpp_redis.Database.View.{
  live, is_some, view, get_value-view, view-get_value, key_exists-view, view-key_exists,
  view-set_value, view-store, view-delete_key, view-cleanup_expired_keys, view_later,
}

abbrev pub Same : ℤ → Db → Db → Type 0
Same now db db' = (j : Bytes) → view now db j ≡ view now db' j

-- The same replies, and databases that show the same behind them.
abbrev pub Alike {ℓ} : {A : Type ℓ} → ℤ → A × Db → A × Db → Type ℓ
Alike now p q = (p.0 ≡ q.0) × Same now p.1 q.1

-- A command replies alike on databases that show the same.
abbrev pub Agrees : ℤ → (List Bytes → Db → Bytes × Db) → Type 0
Agrees now cmd =
    (args : List Bytes) (db db' : Db) → Same now db db' → Alike now (cmd args db) (cmd args db')

-- What shows the same does so later on.
pub Same-later : (now later : ℤ) (db db' : Db) → now ≤ℤ later → Same now db db' → Same later db db'
Same-later now later db db' h same j =
    sym (view_later now later db j h) ∙ ap (live later) (same j) ∙ view_later now later db' j h

pub Same-cleanup_expired_keys :
    (now : ℤ) (db : Db) → Distinct db → Same now (cleanup_expired_keys now db) db
Same-cleanup_expired_keys now db d j = view-cleanup_expired_keys now db j d

module _ (now : ℤ) (key : Bytes) (v : RedisValue) (db db' : Db) (same : Same now db db') where
  pub Same-store : Same now (store key v db) (store key v db')
  Same-store j = rw (view-store now key v db j, view-store now key v db' j, same j)

  pub Same-set_value : Same now (set_value key v db) (set_value key v db')
  Same-set_value j = rw (view-set_value now key v db j, view-set_value now key v db' j, same j)

module _ (now : ℤ) (key : Bytes) (db db' : Db) (same : Same now db db') where
  pub Same-delete_key : Same now (delete_key key db).1 (delete_key key db').1
  Same-delete_key j = rw (view-delete_key now key db j, view-delete_key now key db' j, same j)

  pub Alike-get_value : Alike now (get_value now key db) (get_value now key db')
  Alike-get_value = (
    get_value-view now key db ∙ same key ∙ sym (get_value-view now key db'),
    λ j. view-get_value now key db j ∙ same j ∙ sym (view-get_value now key db' j),
  )

  pub Alike-key_exists : Alike now (key_exists now key db) (key_exists now key db')
  Alike-key_exists = (
    key_exists-view now key db ∙ ap is_some (same key) ∙ sym (key_exists-view now key db'),
    λ j. view-key_exists now key db j ∙ same j ∙ sym (view-key_exists now key db' j),
  )

-- What follows an operation that is alike is alike, if it is for each of its results.
pub Alike-then {ℓ κ} :
    {A : Type ℓ} {B : Type κ} (now : ℤ) (p q : A × Db) (k : A → Db → B × Db)
    → Alike now p q
    → ((a : A) (d d' : Db) → Same now d d' → Alike now (k a d) (k a d'))
    → Alike now (k p.0 p.1) (k q.0 q.1)
Alike-then now p q k (e, same) h =
    subst (λ a. Alike now (k a p.1) (k q.0 q.1)) (sym e) (h q.0 p.1 q.1 same)

open_found-Alike :
    (now : ℤ) (t : RedisType) (key : Bytes) (k : Opened → Bytes × Db)
    → ((v : RedisValue) (d d' : Db) → Same now d d' → Alike now (k (opened v d)) (k (opened v d')))
    → ((d d' : Db) → Same now d d' → Alike now (k (mistyped d)) (k (mistyped d')))
    → (o : Option RedisValue) (d d' : Db) → Same now d d'
    → Alike now (k (open_found t key o d)) (k (open_found t key o d'))
unfolding open_found
open_found-Alike now t key k ready other none d d' same =
    ready (of_type t) _ _ (Same-set_value now key (of_type t) d d' same)
open_found-Alike now t key k ready other (some v) d d' same = elim (Bool-cases (type_eq v.type t)) [
  | inl fits ↦ rw fits (ready v d d' same)
  | inr fails ↦ rw fails (other d d' same)
]

pub open_value-Alike :
    (now : ℤ) (t : RedisType) (key : Bytes) (k : Opened → Bytes × Db) (db db' : Db)
    → ((v : RedisValue) (d d' : Db) → Same now d d' → Alike now (k (opened v d)) (k (opened v d')))
    → ((d d' : Db) → Same now d d' → Alike now (k (mistyped d)) (k (mistyped d')))
    → Same now db db'
    → Alike now (k (open_value t now key db)) (k (open_value t now key db'))
unfolding open_value
open_value-Alike now t key k db db' ready other same =
    Alike-then now _ _ (λ o d. k (open_found t key o d)) (Alike-get_value now key db db' same)
      (open_found-Alike now t key k ready other)

-- A reply that depends on a part of the value, with the database as it is.
pub Alike-read {ℓ κ} :
    {A : Type ℓ} {B : Type κ} (now : ℤ) (o : Option A) (r : B) (f : A → B) (d d' : Db)
    → Same now d d'
    → Alike now
        (elim o as (λ _. B × Db) [ none ↦ (r, d) | some a ↦ (f a, d) ])
        (elim o as (λ _. B × Db) [ none ↦ (r, d') | some a ↦ (f a, d') ])
Alike-read now none r f d d' same = (refl, same)
Alike-read now (some a) r f d d' same = (refl, same)

-- Code behind a test of the arguments.
pub Alike-if {ℓ} :
    {B : Type ℓ} (now : ℤ) (b : Bool) (r : B) (p q : B × Db) (d d' : Db)
    → Alike now p q
    → Same now d d'
    → Alike now (if b then p else (r, d)) (if b then q else (r, d'))
Alike-if now true r p q d d' h same = h
Alike-if now false r p q d d' h same = (refl, same)

pub Alike-map {ℓ κ} :
    {A : Type ℓ} {B : Type κ} (now : ℤ) (f : A → B) (p q : A × Db)
    → Alike now p q
    → Alike now (f p.0, p.1) (f q.0, q.1)
Alike-map now f p q (e, same) = (ap f e, same)
