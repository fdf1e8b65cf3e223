-- ===== src/Threads/Rules.antt =====
-- Rules for a command that nothing interrupts: what each access does to the cell of its key is what
-- the operation of redis_database.cpp does to the map.
use mathlib.Core.Path.{subst}
use cpp_redis.Prelude.{
  ℕ, ◌≡◌, refl, sym, ◌∙◌, false, Option, none, some, Bytes, arith, if◌then◌else◌, str_eq,
  str_eq_refl, str_eq_iff, Bool-cases, Option-cases, inl, inr, ◌⊎◌,
}
use cpp_redis.Prelude.Int.{ℤ}
use cpp_redis.Prelude.Assoc
use cpp_redis.Prelude.Assoc.{find-insert, find-erase}
use cpp_redis.Database.{RedisValue, Db, is_expired, get_value}
use cpp_redis.Threads.{
  Cell, Code, reply, look_up, load, modify, erase_cell, fetch, element, put, run,
}

-- The map behind a command on a key: the key's cell, and the other keys as in `before`.
abbrev pub Leaves : Bytes → Db → Cell → Db → Type 0
Leaves key before c db =
    (j : Bytes) → Assoc.find j db ≡ (if str_eq key j then c.value else Assoc.find j before)

-- From a cell a command gives this reply and leaves this database.
abbrev pub Ends : ℤ → Bytes → Db → Code → Cell → Bytes × Db → Type 0
Ends now key before code c p =
    (c' : Cell) × (run now code c ≡ some (p.0, c')) × Leaves key before c' p.1

module _ (key : Bytes) (before : Db) where
  pub Leaves-start : (c : Cell) → c.value ≡ Assoc.find key before → Leaves key before c before
  Leaves-start c h j = ground (arith, str_eq_iff key j)

  pub Leaves-put :
      (v : RedisValue) (c : Cell) (db : Db)
      → Leaves key before c db
      → Leaves key before (put v c) (Assoc.insert key v db)
  Leaves-put v c db h j = ground (arith, find-insert key j v db, h j)

  pub Leaves-erase :
      (c : Cell) (db : Db)
      → Leaves key before c db
      → Leaves key before (erase_cell c) (Assoc.erase key db)
  unfolding erase_cell
  Leaves-erase c db h j = ground (arith, find-erase key j db, h j)

  pub Leaves-find : (c : Cell) (db : Db) → Leaves key before c db → Assoc.find key db ≡ c.value
  Leaves-find c db h = h key ∙ rw (str_eq_refl key)

  module _ (now : ℤ) where
    pub Ends-reply :
        (r : Bytes) (c : Cell) (db : Db)
        → Leaves key before c db
        → Ends now key before (reply r) c (r, db)
    unfolding run
    Ends-reply r c db h = (c, refl, h)

    pub Ends-eq :
        (k : Code) (c : Cell) (p q : Bytes × Db)
        → p ≡ q
        → Ends now key before k c q
        → Ends now key before k c p
    Ends-eq k c p q e ends = subst (Ends now key before k c) (sym e) ends

    -- A look-up finds nothing, or a live element behind its pointer.
    Found : Cell → Db → Type 0
    Found c db =
        ((c' : Cell) × (d : Db) × (fetch now c ≡ (none, c'))
          × (get_value now key db ≡ (none, d))
          × Leaves key before c' d
          × (c'.value ≡ none))
        ⊎ ((v : RedisValue) × (c.value ≡ some v)
            × (is_expired now v ≡ false)
            × (fetch now c ≡ (some c.erased, c))
            × (get_value now key db ≡ (some v, db)))

    Found-fetch : (c : Cell) (db : Db) → Leaves key before c db → Found c db
    unfolding Found fetch get_value erase_cell
    Found-fetch c db h = elim (Option-cases c.value) [
      | inl gone ↦
          let found : Assoc.find key db ≡ none = Leaves-find c db h ∙ gone in
          inl (c, db, ground arith, ground arith, h, gone)
      | inr (v, here) ↦
          let found : Assoc.find key db ≡ some v = Leaves-find c db h ∙ here in
          elim (Bool-cases (is_expired now v)) [
            | inl expired ↦ inl (
              erase_cell c,
              Assoc.erase key db,
              ground arith,
              ground arith,
              Leaves-erase c db h,
              ground arith,
            )
            | inr lives ↦ inr (v, here, lives, ground arith, ground arith)
          ]
    ]

    fetch-live :
        (c : Cell) (v : RedisValue)
        → c.value ≡ some v
        → is_expired now v ≡ false
        → fetch now c ≡ (some c.erased, c)
    unfolding fetch
    fetch-live c v here lives = ground arith

    pub Ends-look_up :
        (k : Option ℕ → Code) (f : Option RedisValue → Db → Bytes × Db) (c : Cell) (db : Db)
        → Leaves key before c db
        → ((c' : Cell) (d : Db)
            → Leaves key before c' d
            → c'.value ≡ none
            → Ends now key before (k none) c' (f none d))
        → ((v : RedisValue)
            → c.value ≡ some v
            → is_expired now v ≡ false
            → Ends now key before (k (some c.erased)) c (f (some v) db))
        → Ends now key before (look_up k) c (f (get_value now key db).0 (get_value now key db).1)
    unfolding run Found
    Ends-look_up k f c db h missing found = elim (Found-fetch c db h) [
      | inl (c', d, cell, map, left, gone) ↦ rw (cell, map) (missing c' d left gone)
      | inr (v, here, lives, cell, map) ↦ rw (cell, map) (found v here lives)
    ]

    element_self : (c : Cell) → element c.erased c ≡ c.value
    unfolding element
    element_self c = ground arith

    pub Ends-load :
        (k : RedisValue → Code) (c : Cell) (v : RedisValue) (p : Bytes × Db)
        → c.value ≡ some v
        → Ends now key before (k v) c p
        → Ends now key before (load c.erased k) c p
    unfolding run
    Ends-load k c v p e ends =
        let (c', runs, left) = ends in (c', ground (arith, element_self c), left)

    pub Ends-modify :
        (f : RedisValue → Option RedisValue) (k : Code) (c : Cell) (v w : RedisValue)
        (p : Bytes × Db)
        → c.value ≡ some v
        → f v ≡ some w
        → Ends now key before k (put w c) p
        → Ends now key before (modify c.erased f k) c p
    unfolding run
    Ends-modify f k c v w p e g ends =
        let (c', runs, left) = ends in (c', ground (arith, element_self c), left)

    -- A look-up of a live element.
    pub Ends-look_up_live :
        (k : Option ℕ → Code) (c : Cell) (v : RedisValue) (p : Bytes × Db)
        → c.value ≡ some v
        → is_expired now v ≡ false
        → Ends now key before (k (some c.erased)) c p
        → Ends now key before (look_up k) c p
    unfolding run
    Ends-look_up_live k c v p here lives ends = rw (fetch-live c v here lives) ends
