-- ===== src/Commands/Lists/Ends.antt =====
-- The two ends of a list: what the loops of LPUSH and RPUSH build, and what LPOP and RPOP take off.
use cpp_redis.Prelude.{◌≡◌, refl, sym, ap, ◌∙◌, some, List, [], ◌∷◌, ◌++◌, Bytes}
use cpp_redis.Commands.Lists.{push_front, push_back, pop_front, pop_back}

append_assoc : (xs ys zs : List Bytes) → (xs ++ ys) ++ zs ≡ xs ++ (ys ++ zs)
append_assoc [] ys zs = refl
append_assoc (x ∷ xs) ys zs = ap (λ l. x ∷ l) (append_assoc xs ys zs)

append_nil : (xs : List Bytes) → xs ++ [] ≡ xs
append_nil [] = refl
append_nil (x ∷ xs) = ap (λ l. x ∷ l) (append_nil xs)

push_back_lem : (xs list : List Bytes) → push_back xs list ≡ list ++ xs
unfolding push_back
push_back_lem [] list = sym (append_nil list)
push_back_lem (x ∷ xs) list = push_back_lem xs (list ++ x ∷ []) ∙ append_assoc list (x ∷ []) xs

push_back-snoc :
    (xs list : List Bytes) (x : Bytes) → push_back (xs ++ x ∷ []) list ≡ push_back xs list ++ x ∷ []
unfolding push_back
push_back-snoc [] list x = refl
push_back-snoc (y ∷ xs) list x = push_back-snoc xs (list ++ y ∷ []) x

pop_back-snoc : (list : List Bytes) (x : Bytes) → pop_back (list ++ x ∷ []) ≡ some (x, list)
unfolding pop_back
pop_back-snoc [] x = refl
pop_back-snoc (y ∷ ys) x = rw (pop_back-snoc ys x) refl

-- The last value that LPUSH names is the one at the front.
push_front-snoc :
    (xs list : List Bytes) (x : Bytes) → push_front (xs ++ x ∷ []) list ≡ x ∷ push_front xs list
unfolding push_front
push_front-snoc [] list x = refl
push_front-snoc (y ∷ xs) list x = push_front-snoc xs (y ∷ list) x

-- Whatever LPUSH and RPUSH have pushed, their last value is what LPOP and RPOP take off the same end,
-- and what remains is the list without that value; RPUSH appends its values in order.
pub pop-push :
    (xs list : List Bytes) (x : Bytes)
    → (pop_front (push_front (xs ++ x ∷ []) list) ≡ some (x, push_front xs list))
      × (pop_back (push_back (xs ++ x ∷ []) list) ≡ some (x, push_back xs list))
      × (push_back xs list ≡ list ++ xs)
pop-push xs list x = (
  ap pop_front (push_front-snoc xs list x),
  ap pop_back (push_back-snoc xs list x) ∙ pop_back-snoc (push_back xs list) x,
  push_back_lem xs list,
)
