-- ===== src/Commands/Lists/Moves.antt =====
-- What pushes and pops do to a list, by the order of its elements, and to what its key shows.
use mathlib.Core.Path.{subst}
use mathlib.Core.List.{reverse, reverse-append, reverse-reverse}
use cpp_redis.Prelude.{
  ◌≡◌, refl, sym, ap, ◌∙◌, Option, none, some, List, [], ◌∷◌, ◌++◌, append_assoc, append-nil, Bytes,
  arith, length, is_empty,
}
use cpp_redis.Prelude.Int.{ℤ, pos}
use cpp_redis.Resp.Formatter.{format_bulk_string, format_integer, format_null}
use cpp_redis.Database.{RedisType, RedisValue, Db, is_expired}
use cpp_redis.Database.View.{view}
use cpp_redis.Commands.Abstract.{
  stored, grows, Taken, shrinks, Refines, Refines-grows, Refines-shrinks,
}
use cpp_redis.Commands.Lists.{
  push_front, push_back, push_opened, push_with, pop_front, pop_back, store_list, popped, pop_found,
  pop_with,
}

abbrev pub with_list : List Bytes → RedisValue → RedisValue
with_list list v = record v { list_value = list }

-- A push puts the list that `f` makes of the old one under the key, and replies its length.
abbrev pub pushes : (List Bytes → List Bytes) → Option RedisValue → Bytes × Option RedisValue
pushes f =
    grows RedisType.list (λ v. format_integer (pos (length (f v.list_value))))
      (λ v. with_list (f v.list_value) v)

-- A pop takes an element, and leaves a list.
abbrev pub taken_off : RedisValue → Option (Bytes × List Bytes) → Option Taken
taken_off v none = none
taken_off v (some (x, xs)) =
    some (record { reply = format_bulk_string x; rest = with_list xs v; is_last = is_empty xs })

-- The first element and the others.
abbrev pub uncons : List Bytes → Option (Bytes × List Bytes)
uncons [] = none
uncons (x ∷ xs) = some (x, xs)

-- The last element and the others.
abbrev pub unsnoc : List Bytes → Option (Bytes × List Bytes)
unsnoc list = elim (reverse list) [ [] ↦ none | x ∷ xs ↦ some (x, reverse xs) ]

abbrev pub pops :
    (List Bytes → Option (Bytes × List Bytes)) → Option RedisValue → Bytes × Option RedisValue
pops f = shrinks RedisType.list format_null (λ v. taken_off v (f v.list_value))

pub push_front-reverse : (xs l : List Bytes) → push_front xs l ≡ reverse xs ++ l
unfolding push_front
push_front-reverse [] l = refl
push_front-reverse (x ∷ xs) l =
    push_front-reverse xs (x ∷ l)
    ∙ sym (append_assoc (reverse xs) (x ∷ []) l)
    ∙ ap (λ ys. ys ++ l) (sym (reverse-append (x ∷ []) xs))

pub push_back-append : (xs l : List Bytes) → push_back xs l ≡ l ++ xs
unfolding push_back
push_back-append [] l = sym (append-nil l)
push_back-append (x ∷ xs) l = push_back-append xs (l ++ x ∷ []) ∙ append_assoc l (x ∷ []) xs

pop_back-last : (ys : List Bytes) (x : Bytes) → pop_back (ys ++ x ∷ []) ≡ some (x, ys)
unfolding pop_back
pop_back-last [] x = refl
pop_back-last (y ∷ ys) x = ground (arith, pop_back-last ys x)

pop_back-reverse :
    (r : List Bytes) → pop_back (reverse r) ≡ elim r [ [] ↦ none | x ∷ xs ↦ some (x, reverse xs) ]
unfolding pop_back
pop_back-reverse [] = refl
pop_back-reverse (x ∷ xs) = ap pop_back (reverse-append (x ∷ []) xs) ∙ pop_back-last (reverse xs) x

pub pop_front-uncons : (l : List Bytes) → pop_front l ≡ uncons l
pop_front-uncons [] = refl
pop_front-uncons (x ∷ l) = refl

pub pop_back-unsnoc : (l : List Bytes) → pop_back l ≡ unsnoc l
pop_back-unsnoc l = ap pop_back (sym (reverse-reverse l)) ∙ pop_back-reverse (reverse l)

taken_off-lives :
    (now : ℤ) (v : RedisValue) (o : Option (Bytes × List Bytes)) (x : Taken)
    → taken_off v o ≡ some x
    → is_expired now x.rest ≡ is_expired now v
unfolding is_expired
taken_off-lives now v none x e = cc
taken_off-lives now v (some (y, ys)) x e =
    let y_off : Taken = record {
      reply = format_bulk_string y;
      rest = with_list ys v;
      is_last = is_empty ys;
    } in
    let same : y_off ≡ x = cc in
    subst (λ (z : Taken). is_expired now z.rest ≡ is_expired now v) same refl

module _ (now : ℤ) (key : Bytes) (db : Db) where
  popped-stored :
      (v : RedisValue) (o : Option (Bytes × List Bytes)) (d : Db)
      → popped key v o d ≡ elim (taken_off v o) [
        | none ↦ (format_null, d)
        | some x ↦ (x.reply, stored now key db x d)
      ]
  unfolding popped store_list
  popped-stored v none d = refl
  popped-stored v (some (x, xs)) d = refl

  pub Refines-push :
      (f : List Bytes → List Bytes)
      → Refines now key db (push_with f now key db) (pushes f (view now db key))
  unfolding push_with push_opened is_expired
  Refines-push f =
      Refines-grows now key db RedisType.list (λ v. format_integer (pos (length (f v.list_value))))
        (λ v. with_list (f v.list_value) v) (push_opened f key) (λ d. refl) (λ v d. refl)
        (λ v. refl)

  pub Refines-pop :
      (f : List Bytes → Option (Bytes × List Bytes))
      → Refines now key db (pop_with f now key db) (pops f (view now db key))
  unfolding pop_with pop_found
  Refines-pop f =
      Refines-shrinks now key db RedisType.list format_null (λ v. taken_off v (f v.list_value))
        (pop_found f key) (λ d. refl) (λ v d. popped-stored v (f v.list_value) d)
        (λ v x e. taken_off-lives now v (f v.list_value) x e)
