-- ===== src/Threads/Alone/Lists.antt =====
-- The commands of list_commands.cpp that push and pop, as their accesses.
use cpp_redis.Prelude.{
  ◌≡◌, refl, Option, none, some, List, [], ◌∷◌, ◌++◌, Bytes, arith, length, is_empty, Bool-cases,
  Option-cases, inl, inr, if◌then◌else◌,
}
use cpp_redis.Prelude.Int.{ℤ, pos}
use cpp_redis.Prelude.Assoc
use cpp_redis.Resp.Formatter.{format_integer, format_null, format_bulk_string}
use cpp_redis.Database.{
  RedisType, RedisValue, Db, is_expired, of_type, type_eq, typed, open_found, open_value, set_value,
  store, delete_key,
}
use cpp_redis.Commands.Lists.{
  push_front, push_back, push_opened, push_with, cmd_lpush, cmd_rpush, pop_front, pop_back,
  store_list, popped, pop_found, pop_with, cmd_lpop, cmd_rpop,
}
use cpp_redis.Threads.{Cell, reply, load, remove, erase_cell, put, run, undefined}
use cpp_redis.Threads.Commands.{
  push_each, push_code, code_lpush, code_rpush, without_end, pop_rest, pop_code, code_lpop,
  code_rpop,
}
use cpp_redis.Threads.Rules.{
  Leaves, Ends, Leaves-start, Leaves-put, Leaves-erase, Ends-reply, Ends-load, Ends-modify,
  Ends-look_up_live,
}
use cpp_redis.Threads.Alone.{Alone, Ends-on_value, Ends-start}

abbrev with_list : RedisValue → List Bytes → RedisValue
with_list v list = record v { list_value = list }

-- A loop that pushes all of the arguments, one after another.
record Pushes (push : Bytes → List Bytes → List Bytes)
    (push_all : List Bytes → List Bytes → List Bytes) : Type 0 where
  none_left : (list : List Bytes) → push_all [] list ≡ list
  one_more : (x : Bytes) (xs list : List Bytes) → push_all (x ∷ xs) list ≡ push_all xs (push x list)

module _ (now : ℤ) (key : Bytes) (db : Db) (push : Bytes → List Bytes → List Bytes)
    (push_all : List Bytes → List Bytes → List Bytes) (loop : Pushes push push_all) where
  Ends-push_each :
      (xs : List Bytes) (c : Cell) (v : RedisValue) (d : Db)
      → c.value ≡ some v
      → Leaves key db (put (with_list v (push_all xs v.list_value)) c) d
      → Ends now key db
          (push_each push c.erased xs)
          c
          (format_integer (pos (length (push_all xs v.list_value))), d)
  unfolding push_each
  Ends-push_each [] c v d here left = rw (loop.none_left v.list_value) (
      Ends-load key db now _ c v _ here
        (Ends-reply key db now _ c d (λ j. ground (arith, left j, loop.none_left v.list_value))))
  Ends-push_each (x ∷ xs) c v d here left =
      let w = with_list v (push x v.list_value) in
      let left' : Leaves key db (put (with_list w (push_all xs (push x v.list_value))) c) d =
        rw (loop.one_more x xs v.list_value) at left in
      rw (loop.one_more x xs v.list_value) (
        Ends-modify key db now _ (push_each push c.erased xs) c v w _ here refl
          (Ends-push_each xs (put w c) w d refl left'))

  Ends-push :
      (xs : List Bytes) (c : Cell)
      → c.value ≡ Assoc.find key db
      → Ends now key db (push_code push xs) c (push_with (push_all xs) now key db)
  unfolding push_code push_with open_value open_found push_opened store set_value run is_expired
  Ends-push xs c h =
      let fresh = of_type RedisType.list in
      Ends-on_value key db now _ _
        (λ o d. push_opened (push_all xs) key (open_found RedisType.list key o d)) c db
        (Leaves-start key db c h)
        (λ c' d left gone.
          Ends-look_up_live key db now
            (λ p. elim p [ none ↦ undefined | some q ↦ push_each push q xs ]) (put fresh c') fresh _
            refl refl
            (Ends-push_each xs (put fresh c') fresh _ refl
              (Leaves-put key db _ (put fresh c') _ (Leaves-put key db fresh c' d left))))
        (λ v here lives. elim (Bool-cases (type_eq v.type RedisType.list)) [
          | inl fits ↦
              rw fits
                (Ends-push_each xs c v _ here (Leaves-put key db _ c db (Leaves-start key db c h)))
          | inr other ↦ rw other (Ends-start now key _ db c h)
        ])

front-Pushes : Pushes (λ y list. y ∷ list) push_front
unfolding push_front
front-Pushes = record { none_left = λ list. refl; one_more = λ x xs list. refl }

back-Pushes : Pushes (λ y list. list ++ y ∷ []) push_back
unfolding push_back
back-Pushes = record { none_left = λ list. refl; one_more = λ x xs list. refl }

pub cmd_lpush-Alone : (now : ℤ) → Alone now code_lpush (cmd_lpush now)
unfolding code_lpush cmd_lpush
cmd_lpush-Alone now name key [] db c h = Ends-start now key _ db c h
cmd_lpush-Alone now name key (x ∷ xs) db c h =
    Ends-push now key db _ push_front front-Pushes (x ∷ xs) c h

pub cmd_rpush-Alone : (now : ℤ) → Alone now code_rpush (cmd_rpush now)
unfolding code_rpush cmd_rpush
cmd_rpush-Alone now name key [] db c h = Ends-start now key _ db c h
cmd_rpush-Alone now name key (x ∷ xs) db c h =
    Ends-push now key db _ push_back back-Pushes (x ∷ xs) c h

-- A pop of a list takes nothing off an empty one, and something off another.
record Pops (pop : List Bytes → Option (Bytes × List Bytes)) : Type 0 where
  of_nil : pop [] ≡ none
  of_cons :
      (x : Bytes) (xs : List Bytes)
      → (y : Bytes) × (ys : List Bytes) × (pop (x ∷ xs) ≡ some (y, ys))

module _ (now : ℤ) (key : Bytes) (db : Db) (pop : List Bytes → Option (Bytes × List Bytes))
    (pops : Pops pop) where
  Ends-store_list :
      (list : List Bytes) (c : Cell) (v : RedisValue) (x : Bytes) (d : Db)
      → Leaves key db c d
      → Ends now key db
          (if is_empty list
            then remove (λ gone. reply (format_bulk_string x))
            else reply (format_bulk_string x))
          (put (with_list v list) c)
          (format_bulk_string x, store_list key v list d)
  unfolding store_list store delete_key run
  Ends-store_list [] c v x d left =
      let w = with_list v [] in
      (erase_cell (put w c), refl, Leaves-erase key db (put w c) _ (Leaves-put key db w c d left))
  Ends-store_list (y ∷ ys) c v x d left =
      let w = with_list v (y ∷ ys) in (put w c, refl, Leaves-put key db w c d left)

  Ends-pop_rest :
      (c : Cell) (v : RedisValue) (x : Bytes) (list : List Bytes) (d : Db)
      → c.value ≡ some v
      → Leaves key db c d
      → pop v.list_value ≡ some (x, list)
      → Ends now key db (pop_rest pop c.erased x) c (format_bulk_string x, store_list key v list d)
  unfolding pop_rest without_end
  Ends-pop_rest c v x list d here left e =
      let w = with_list v list in
      Ends-modify key db now (without_end pop) _ c v w _ here (ground (arith, e))
        (Ends-load key db now _ (put w c) w _ refl (Ends-store_list list c v x d left))

  -- What a pop does with the elements that it has found.
  Ends-popped :
      (list : List Bytes) (c : Cell) (v : RedisValue) (d : Db)
      → v.list_value ≡ list
      → c.value ≡ some v
      → Leaves key db c d
      → Ends now key db
          (if is_empty list
            then reply format_null
            else load c.erased (λ w. elim (pop w.list_value) [
              | none ↦ undefined
              | some (x, l) ↦ pop_rest pop c.erased x
            ]))
          c
          (popped key v (pop list) d)
  unfolding popped
  Ends-popped [] c v d e here left = rw pops.of_nil (Ends-reply key db now _ c d left)
  Ends-popped (x ∷ xs) c v d e here left =
      let (y, ys, taken) = pops.of_cons x xs in
      let found : pop v.list_value ≡ some (y, ys) = rw e taken in
      rw taken
        (Ends-load key db now _ c v _ here (rw found (Ends-pop_rest c v y ys d here left found)))

  Ends-pop :
      (c : Cell)
      → c.value ≡ Assoc.find key db
      → Ends now key db (pop_code pop) c (pop_with pop now key db)
  unfolding pop_code pop_with pop_found typed
  Ends-pop c h =
      Ends-on_value key db now _ _ (λ o d. pop_found pop key (typed RedisType.list o) d) c db
        (Leaves-start key db c h) (λ c' d left gone. Ends-reply key db now _ c' d left)
        (λ v here lives. elim (Bool-cases (type_eq v.type RedisType.list)) [
          | inl fits ↦ rw fits (Ends-popped v.list_value c v db refl here (Leaves-start key db c h))
          | inr other ↦ rw other (Ends-start now key _ db c h)
        ])

front-Pops : Pops pop_front
front-Pops = record { of_nil = refl; of_cons = λ x xs. (x, xs, refl) }

back-Pops : Pops pop_back
unfolding pop_back
back-Pops = record {
  of_nil = refl;
  of_cons = λ x xs. elim (Option-cases (pop_back xs)) [
    | inl last ↦ (x, [], rw last)
    | inr ((y, ys), more) ↦ (y, x ∷ ys, rw more)
  ];
}

pub cmd_lpop-Alone : (now : ℤ) → Alone now code_lpop (cmd_lpop now)
unfolding code_lpop cmd_lpop
cmd_lpop-Alone now name key [] db c h = Ends-pop now key db pop_front front-Pops c h
cmd_lpop-Alone now name key (x ∷ xs) db c h = Ends-start now key _ db c h

pub cmd_rpop-Alone : (now : ℤ) → Alone now code_rpop (cmd_rpop now)
unfolding code_rpop cmd_rpop
cmd_rpop-Alone now name key [] db c h = Ends-pop now key db pop_back back-Pops c h
cmd_rpop-Alone now name key (x ∷ xs) db c h = Ends-start now key _ db c h
