-- ===== src/Resp/Parser/Reads.antt =====
-- Parsers whose result depends on the bytes that they take and on none behind them, one rule for each
-- way to build a parser; `findCRLF` is one.
use cpp_redis.Prelude.{
  ◌≡◌, refl, sym, ap, ◌∙◌, Bool, true, false, Option, none, some, [], ◌∷◌, ◌++◌, append_assoc,
  arith, Bytes, if◌then◌else◌, ◌>>=◌, >>=-eq-some,
}
use cpp_redis.Resp.Parser.{find_crlf}

-- `p` takes from `s` a front part that leaves `r`, and returns `v` for that part whatever follows.
pub record Reads {A : Type 0} (p : Bytes → Option (A × Bytes)) (s : Bytes) (v : A) (r : Bytes)
    : Type 0 where
  pub front : Bytes
  pub splits : s ≡ front ++ r
  pub again : (t : Bytes) → p (front ++ t) ≡ some (v, t)

abbrev pub Streams : {A : Type 0} → (Bytes → Option (A × Bytes)) → Type 0
Streams {A} p = (s : Bytes) (v : A) (r : Bytes) → p s ≡ some (v, r) → Reads p s v r

-- The line is what stands before the first CRLF.
find_crlf_sound : (s l r : Bytes) → find_crlf s ≡ some (l, r) → s ≡ l ++ 13 ∷ 10 ∷ r
unfolding find_crlf
find_crlf_sound [] l r h = cc
find_crlf_sound (c ∷ []) l r h = cc
find_crlf_sound (c ∷ d ∷ s) [] r h = ground arith
find_crlf_sound (c ∷ d ∷ s) (e ∷ l) r h = ground (arith, find_crlf_sound (d ∷ s) l r)

find_crlf_again :
    (s l r t : Bytes) → find_crlf s ≡ some (l, r) → find_crlf (l ++ 13 ∷ 10 ∷ t) ≡ some (l, t)
unfolding find_crlf
find_crlf_again [] l r t h = cc
find_crlf_again (c ∷ []) l r t h = cc
find_crlf_again (c ∷ d ∷ s) [] r t h = refl
find_crlf_again (c ∷ d ∷ s) (e ∷ []) r t h = ground arith
find_crlf_again (c ∷ d ∷ s) (e ∷ f ∷ l) r t h =
    ground (arith, find_crlf_sound (d ∷ s) (f ∷ l) r, find_crlf_again (d ∷ s) (f ∷ l) r t)

pub find_crlf-Streams : Streams find_crlf
find_crlf-Streams s l r h = record {
  front = l ++ 13 ∷ 10 ∷ [];
  splits = find_crlf_sound s l r h ∙ sym (append_assoc l (13 ∷ 10 ∷ []) r);
  again = λ t. rw (append_assoc l (13 ∷ 10 ∷ []) t) (find_crlf_again s l r t h);
}

-- A parser that goes on behind what another one took.
pub Streams-then :
    {A B : Type 0} (p : Bytes → Option (A × Bytes)) (k : A → Bytes → Option (B × Bytes))
    → Streams p
    → ((a : A) → Streams (k a))
    → Streams (λ s. p s >>= λ x. k x.0 x.1)
Streams-then p k sp sk s v r h =
    let ((a, rest), first, second) = >>=-eq-some (p s) (λ x. k x.0 x.1) h in
    let one = sp s a rest first in
    let two = sk a rest v r second in
    record {
      front = one.front ++ two.front;
      splits =
          one.splits
          ∙ ap (λ x. one.front ++ x) two.splits
          ∙ sym (append_assoc one.front two.front r);
      again =
          λ t. rw (append_assoc one.front two.front t, one.again (two.front ++ t)) (two.again t);
    }

pub Streams-pure : {A : Type 0} (a : A) → Streams (λ s. some (a, s))
Streams-pure a s v r h = record { front = []; splits = ground arith; again = λ t. ground arith }

pub Streams-none : {A : Type 0} → Streams {A = A} (λ s. none)
Streams-none s v r h = cc

-- A parser that looks at a value it has already.
pub Streams-lift :
    {A B : Type 0} (o : Option A) (k : A → Bytes → Option (B × Bytes))
    → ((a : A) → Streams (k a))
    → Streams (λ s. o >>= λ a. k a s)
Streams-lift none k sk s v r h = cc
Streams-lift (some a) k sk s v r h = sk a s v r h

pub Streams-if :
    {A : Type 0} (b : Bool) {p q : Bytes → Option (A × Bytes)}
    → Streams p
    → Streams q
    → Streams (λ s. if b then p s else q s)
Streams-if true sp sq = sp
Streams-if false sp sq = sq
