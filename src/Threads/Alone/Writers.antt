-- ===== src/Threads/Alone/Writers.antt =====
-- SADD, SREM, HSET and HDEL as their accesses.
use mathlib.Core.Path.{subst}
use cpp_redis.Prelude.{
  ℕ, ◌+◌, ◌≡◌, refl, sym, ap, Bool, Option, none, some, List, [], ◌∷◌, Bytes, is_empty, Bool-cases,
  inl, inr, if◌then◌else◌,
}
use cpp_redis.Prelude.Int.{ℤ, pos}
use cpp_redis.Prelude.Assoc
use cpp_redis.Prelude.Assoc.{Assoc}
use cpp_redis.Prelude.Ordered
use cpp_redis.Resp.Formatter.{format_integer}
use cpp_redis.Database.{
  RedisType, RedisValue, Db, Opened, mistyped, opened, is_expired, of_type, type_eq, typed,
  get_value, open_found, open_value, set_value, store, delete_key,
}
use cpp_redis.Commands.Errors.{wrong_kind}
use cpp_redis.Commands.Strings.{pairs_of}
use cpp_redis.Commands.Sets.{
  add_members, add_opened, cmd_sadd, store_set, remove_members, remove_found, cmd_srem,
}
use cpp_redis.Commands.Hashes.{
  set_fields, set_opened, hset_pairs, cmd_hset, delete_fields, store_hash, delete_found, cmd_hdel,
}
use cpp_redis.Threads.{Cell, Code, remove, erase_cell, put, run, undefined}
use cpp_redis.Threads.Writers.{
  count_each, grow_code, count_reply, tidy_code, shrink_code, with_set, with_hash, code_sadd,
  code_srem, hset_code, code_hset, code_hdel,
}
use cpp_redis.Threads.Rules.{
  Leaves, Ends, Leaves-start, Leaves-put, Leaves-erase, Ends-reply, Ends-load, Ends-modify,
  Ends-look_up_live,
}
use cpp_redis.Threads.Alone.{Alone, Ends-on_value, Ends-start}

-- The loop on a value that nobody else touches.
count_all :
    {A : Type 0}
    → (A → RedisValue → ℕ → ℕ)
    → (A → RedisValue → RedisValue)
    → List A
    → ℕ
    → RedisValue
    → ℕ × RedisValue
count_all next change [] n v = (n, v)
count_all next change (x ∷ xs) n v = count_all next change xs (next x v n) (change x v)

module _ {A : Type 0} (now : ℤ) (key : Bytes) (db : Db) (next : A → RedisValue → ℕ → ℕ)
    (change : A → RedisValue → RedisValue) where
  Ends-count_each :
      (end : ℕ → Code) (xs : List A) (n : ℕ) (c : Cell) (v : RedisValue) (p : Bytes × Db)
      → c.value ≡ some v
      → Ends now key db
          (end (count_all next change xs n v).0)
          (put (count_all next change xs n v).1 c)
          p
      → Ends now key db (count_each next change end c.erased n xs) c p
  unfolding count_each count_all
  Ends-count_each end [] n c v p here ends =
      let same : put v c ≡ c =
        ap (λ (o : Option RedisValue). record { value = o; erased = c.erased }) (sym here) in
      subst (λ c'. Ends now key db (end n) c' p) same ends
  Ends-count_each end (x ∷ xs) n c v p here ends = Ends-load key db now _ c v p here (
      Ends-modify key db now _ _ c v (change x v) p here refl
        (Ends-count_each end xs (next x v n) (put (change x v) c) (change x v) p refl ends))

module _ (now : ℤ) (key : Bytes) (db : Db) (c : Cell) (h : c.value ≡ Assoc.find key db) where
  -- A command that creates its value.
  Ends-grow :
      (t : RedisType) (body : ℕ → Code) (r : RedisValue → Bytes) (f : RedisValue → RedisValue)
      (use_opened : Opened → Bytes × Db)
      → ((d : Db) → use_opened (mistyped d) ≡ (wrong_kind, d))
      → ((v : RedisValue) (d : Db) → use_opened (opened v d) ≡ (r v, store key (f v) d))
      → ((c' : Cell) (v : RedisValue) (d : Db)
          → c'.value ≡ some v
          → Leaves key db (put (f v) c') d
          → Ends now key db (body c'.erased) c' (r v, d))
      → Ends now key db (grow_code t body) c (use_opened (open_value t now key db))
  unfolding grow_code open_value open_found store set_value run is_expired
  Ends-grow t body r f use_opened bad good ends =
      let fresh = of_type t in
      Ends-on_value key db now _ _ (λ o d. use_opened (open_found t key o d)) c db
        (Leaves-start key db c h)
        (λ c' d left gone. rw (good fresh (set_value key fresh d)) (
          Ends-look_up_live key db now (λ p. elim p [ none ↦ undefined | some q ↦ body q ])
            (put fresh c') fresh _ refl refl
            (ends (put fresh c') fresh _ refl
              (Leaves-put key db _ (put fresh c') _ (Leaves-put key db fresh c' d left)))))
        (λ v here lives. elim (Bool-cases (type_eq v.type t)) [
          | inl fits ↦
              rw (fits, good v db)
                (ends c v _ here (Leaves-put key db _ c db (Leaves-start key db c h)))
          | inr other ↦ rw (other, bad db) (Ends-start now key _ db c h)
        ])

  -- The end of a removal from a value `w`.
  Ends-tidy :
      (is_left_empty : RedisValue → Bool) (n : ℕ) (c' : Cell) (w : RedisValue) (d : Db)
      → Leaves key db c' d
      → Ends now key db (tidy_code is_left_empty c'.erased n) (put w c') (
        format_integer (pos n),
        if is_left_empty w then (delete_key key (store key w d)).1 else store key w d,
      )
  unfolding tidy_code store delete_key run
  Ends-tidy is_left_empty n c' w d left =
      let stored = Leaves-put key db w c' d left in
      Ends-load key db now
        (λ x. if is_left_empty x then remove (λ gone. count_reply n) else count_reply n) (put w c')
        w _ refl
        (elim (Bool-cases (is_left_empty w)) [
          | inl gone ↦
              rw gone (erase_cell (put w c'), refl, Leaves-erase key db (put w c') _ stored)
          | inr more ↦ rw more (put w c', refl, stored)
        ])

  -- A command that takes away from its value.
  Ends-shrink :
      (t : RedisType) (body : ℕ → Code) (use_found : Option RedisValue → Db → Bytes × Db)
      → ((d : Db) → use_found none d ≡ (format_integer (pos 0), d))
      → ((v : RedisValue)
          → c.value ≡ some v
          → Ends now key db (body c.erased) c (use_found (some v) db))
      → Ends now key db
          (shrink_code t body)
          c
          (use_found (typed t (get_value now key db).0) (get_value now key db).1)
  unfolding shrink_code typed
  Ends-shrink t body use_found missing ends =
      Ends-on_value key db now _ _ (λ o d. use_found (typed t o) d) c db (Leaves-start key db c h)
        (λ c' d left gone. rw (missing d) (Ends-reply key db now _ c' d left))
        (λ v here lives. elim (Bool-cases (type_eq v.type t)) [
          | inl fits ↦ rw fits (ends v here)
          | inr other ↦ rw (other, missing db) (Ends-start now key _ db c h)
        ])

-- Each loop, by the function of Commands/ that it stands for.
adding :
    (xs : List Bytes) (n : ℕ) (v : RedisValue)
    → count_all
        (λ y v n. if Ordered.member y v.set_value then n else n + 1)
        (λ y v. with_set v (Ordered.insert y v.set_value))
        xs
        n
        v
      ≡ ((add_members xs n v.set_value).0, with_set v (add_members xs n v.set_value).1)
unfolding count_all add_members
adding [] n v = refl
adding (x ∷ xs) n v = adding xs _ (with_set v (Ordered.insert x v.set_value))

removing :
    (xs : List Bytes) (n : ℕ) (v : RedisValue)
    → count_all
        (λ y v n. if Ordered.member y v.set_value then n + 1 else n)
        (λ y v. with_set v (Ordered.erase y v.set_value))
        xs
        n
        v
      ≡ ((remove_members xs n v.set_value).0, with_set v (remove_members xs n v.set_value).1)
unfolding count_all remove_members
removing [] n v = refl
removing (x ∷ xs) n v = removing xs _ (with_set v (Ordered.erase x v.set_value))

setting :
    (xs : List (Bytes × Bytes)) (n : ℕ) (v : RedisValue)
    → count_all
        (λ y v n. if Assoc.contains y.0 v.hash_value then n else n + 1)
        (λ y v. with_hash v (Assoc.insert y.0 y.1 v.hash_value))
        xs
        n
        v
      ≡ ((set_fields xs n v.hash_value).0, with_hash v (set_fields xs n v.hash_value).1)
unfolding count_all set_fields
setting [] n v = refl
setting ((field, value) ∷ xs) n v =
    setting xs _ (with_hash v (Assoc.insert field value v.hash_value))

deleting :
    (xs : List Bytes) (n : ℕ) (v : RedisValue)
    → count_all
        (λ y v n. if Assoc.contains y v.hash_value then n + 1 else n)
        (λ y v. with_hash v (Assoc.erase y v.hash_value))
        xs
        n
        v
      ≡ ((delete_fields xs n v.hash_value).0, with_hash v (delete_fields xs n v.hash_value).1)
unfolding count_all delete_fields
deleting [] n v = refl
deleting (x ∷ xs) n v = deleting xs _ (with_hash v (Assoc.erase x v.hash_value))

pub cmd_sadd-Alone : (now : ℤ) → Alone now code_sadd (cmd_sadd now)
unfolding code_sadd cmd_sadd add_opened
cmd_sadd-Alone now name key [] db c h = Ends-start now key _ db c h
cmd_sadd-Alone now name key (x ∷ xs) db c h =
    Ends-grow now key db c h RedisType.set _ _ _ (add_opened key (x ∷ xs)) (λ d. refl) (λ v d. refl)
      (λ c' v d here left.
        Ends-count_each now key db _ _ count_reply (x ∷ xs) 0 c' v _ here
          (rw (adding (x ∷ xs) 0 v) (Ends-reply key db now _ _ d left)))

pub cmd_srem-Alone : (now : ℤ) → Alone now code_srem (cmd_srem now)
unfolding code_srem cmd_srem remove_found store_set
cmd_srem-Alone now name key [] db c h = Ends-start now key _ db c h
cmd_srem-Alone now name key (x ∷ xs) db c h =
    Ends-shrink now key db c h RedisType.set _ (remove_found key (x ∷ xs)) (λ d. refl)
      (λ v here.
        Ends-count_each now key db _ _ (tidy_code (λ v. is_empty v.set_value) c.erased) (x ∷ xs) 0 c
          v _ here
          (rw (removing (x ∷ xs) 0 v) (
            Ends-tidy now key db c h (λ w. is_empty w.set_value) _ c _ db
              (Leaves-start key db c h))))

pub cmd_hset-Alone : (now : ℤ) → Alone now code_hset (cmd_hset now)
unfolding code_hset cmd_hset hset_code hset_pairs set_opened
cmd_hset-Alone now name key [] db c h = Ends-start now key _ db c h
cmd_hset-Alone now name key (field ∷ []) db c h = Ends-start now key _ db c h
cmd_hset-Alone now name key (field ∷ value ∷ rest) db c h =
    pairs_alone (pairs_of (field ∷ value ∷ rest))
  where
    pairs_alone :
        (pairs : Option (List (Bytes × Bytes)))
        → Ends now key db (hset_code pairs) c (hset_pairs now key pairs db)
    pairs_alone none = Ends-start now key _ db c h
    pairs_alone (some pairs) =
        Ends-grow now key db c h RedisType.hash _ _ _ (set_opened key pairs) (λ d. refl)
          (λ v d. refl)
          (λ c' v d here left.
            Ends-count_each now key db _ _ count_reply pairs 0 c' v _ here
              (rw (setting pairs 0 v) (Ends-reply key db now _ _ d left)))

pub cmd_hdel-Alone : (now : ℤ) → Alone now code_hdel (cmd_hdel now)
unfolding code_hdel cmd_hdel delete_found store_hash
cmd_hdel-Alone now name key [] db c h = Ends-start now key _ db c h
cmd_hdel-Alone now name key (field ∷ fields) db c h =
    Ends-shrink now key db c h RedisType.hash _ (delete_found key (field ∷ fields)) (λ d. refl)
      (λ v here.
        Ends-count_each now key db _ _ (tidy_code (λ v. is_empty v.hash_value) c.erased)
          (field ∷ fields) 0 c v _ here
          (rw (deleting (field ∷ fields) 0 v) (
            Ends-tidy now key db c h (λ w. is_empty w.hash_value) _ c _ db
              (Leaves-start key db c h))))
