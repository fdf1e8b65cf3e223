-- ===== src/Client/Progress.antt =====
-- The inner loop ends, and neither throws nor runs out of the rounds that it is given.
use mathlib.Core.Path.{subst}
use cpp_redis.Prelude.{
  sym, take, ℕ, zero, suc, ◌<◌, ◌≡◌, ◌≢◌, ◌∙◌, refl, inl, inr, Option, none, some, List, [], ◌∷◌,
  ◌++◌, Bytes, arith, length, length-drop, Option-cases, >>=-eq-some, ◌>>=◌, ltb, if◌then◌else◌,
  ◌==◌, true, false, Bool,
}
use cpp_redis.Prelude.Int.{ℤ, pos, negsuc}
use cpp_redis.Client.{Client, waiting, serve, drain, receive}
use cpp_redis.Handler.{Env}
use cpp_redis.Resp.Value.{
  RespData, RespValue, RespItems, RespType, resp, vector, text, nullopt, nil, cons,
}
use cpp_redis.Resp.Parser.{
  max_depth, parse, parse_value, parse_marked, parse_array, array_of, parse_elements,
  parse_simple_string, parse_error, parse_integer, parse_bulk_string, bulk_of, bulk_body,
  to_string_vector, element_strings, find_crlf, safe_string_to_int, safe_string_to_long_long,
  max_args,
}
use cpp_redis.Resp.Parser.Stream.{bulk_body_sound}
use cpp_redis.Resp.Parser.Consumed.{parse_consumed}

-- `getArray` does not throw.
abbrev pub Readable : RespValue → Type 0
Readable v = (args : List Bytes) × (to_string_vector v ≡ some args)

abbrev ReadableAll : RespItems → Type 0
ReadableAll items = (args : List Bytes) × (element_strings items ≡ some args)

-- Whatever a parser returns has a property.
abbrev Yields : {A : Type 0} → (A → Type 0) → (Bytes → Option (A × Bytes)) → Type 0
Yields {A} P p = (s : Bytes) (v : A) (r : Bytes) → p s ≡ some (v, r) → P v

Yields-if :
    {A : Type 0} {P : A → Type 0} (b : Bool) {p q : Bytes → Option (A × Bytes)}
    → Yields P p
    → Yields P q
    → Yields P (λ s. if b then p s else q s)
Yields-if true yp yq = yp
Yields-if false yp yq = yq

Yields-none : {A : Type 0} (P : A → Type 0) → Yields P (λ s. none)
Yields-none P s v r h = cc

-- A parser that goes on behind what another one took.
Yields-then :
    {A B : Type 0} {P : B → Type 0} (o : Bytes → Option (A × Bytes))
    (k : A → Bytes → Option (B × Bytes))
    → ((a : A) → Yields P (k a))
    → Yields P (λ s. o s >>= λ x. k x.0 x.1)
Yields-then o k yk s v r h =
    let ((a, t), found, rest) = >>=-eq-some (o s) (λ x. k x.0 x.1) h in yk a t v r rest

Yields-lift :
    {A B : Type 0} {P : B → Type 0} (o : Option A) (k : A → Bytes → Option (B × Bytes))
    → ((a : A) → Yields P (k a))
    → Yields P (λ s. o >>= λ a. k a s)
Yields-lift none k yk s v r h = cc
Yields-lift (some a) k yk s v r h = yk a s v r h

Yields-pure : {A : Type 0} (P : A → Type 0) (a : A) → P a → Yields P (λ s. some (a, s))
Yields-pure {A} P a pa s v r h = let same : a ≡ v = cc in subst P same pa

-- A value that holds no vector is read as one argument.
scalar-Readable : (t : RespType) (d : RespData) → t ≢ RespType.array → Readable (resp t d)
unfolding to_string_vector
scalar-Readable RespType.simple_string d h = (_, refl)
scalar-Readable RespType.error d h = (_, refl)
scalar-Readable RespType.integer d h = (_, refl)
scalar-Readable RespType.bulk_string d h = (_, refl)
scalar-Readable RespType.array d h = absurd (h refl)
scalar-Readable RespType.null_value d h = (_, refl)

array-Readable :
    (items : RespItems) → ReadableAll items → Readable (resp RespType.array (vector items))
unfolding to_string_vector
array-Readable items h = h

bulk_body-Readable : (len : ℕ) → Yields Readable (bulk_body len)
bulk_body-Readable len s v r h =
    let value : v ≡ resp RespType.bulk_string (text (take len s)) =
      (bulk_body_sound len s v r h).3 in
    subst Readable (sym value) (scalar-Readable RespType.bulk_string _ (cc))

bulk_of-Readable : (len : ℤ) → Yields Readable (bulk_of len)
unfolding bulk_of
bulk_of-Readable (pos len) = bulk_body-Readable len
bulk_of-Readable (negsuc zero) =
    Yields-pure Readable _ (scalar-Readable RespType.null_value nullopt (cc))
bulk_of-Readable (negsuc (suc n)) = Yields-none Readable

cons-Readable :
    (element : RespValue) (items : RespItems)
    → Readable element
    → ReadableAll items
    → ReadableAll (cons element items)
unfolding to_string_vector
cons-Readable element items (here, one) (more, others) = (here ++ more, rw (one, others))

elements-Readable :
    (p : Bytes → Option (RespValue × Bytes)) (n : ℕ)
    → Yields Readable p
    → Yields ReadableAll (parse_elements p n)
unfolding parse_elements
elements-Readable p zero yp s v r h =
    Yields-pure ReadableAll nil (unfold to_string_vector in ([], refl)) s v r h
elements-Readable p (suc n) yp s v r h =
    let ((element, t), first, rest) = >>=-eq-some (p s) _ h in
    let ((items, t'), others, last) = >>=-eq-some (parse_elements p n t) _ rest in
    let same : cons element items ≡ v = cc in
    subst ReadableAll same (
      cons-Readable element items (yp s element t first)
        (elements-Readable p n yp t items t' others))

array_of-Readable :
    (p : Bytes → Option (RespValue × Bytes)) (n : ℤ)
    → Yields Readable p
    → Yields Readable (array_of p n)
unfolding array_of
array_of-Readable p (pos n) yp = Yields-if (ltb max_args n) (Yields-none Readable) λ s v r h.
    let ((items, t), found, last) = >>=-eq-some (parse_elements p n s) _ h in
    let same : resp RespType.array (vector items) ≡ v = cc in
    subst Readable same (array-Readable items (elements-Readable p n yp s items t found))
array_of-Readable p (negsuc zero) yp =
    Yields-pure Readable _ (scalar-Readable RespType.null_value nullopt (cc))
array_of-Readable p (negsuc (suc n)) yp = Yields-none Readable

marked-Readable :
    (p : Bytes → Option (RespValue × Bytes)) (c : ℕ)
    → Yields Readable p
    → Yields Readable (parse_marked p c)
unfolding parse_marked parse_simple_string parse_error parse_integer parse_bulk_string parse_array
marked-Readable p c yp =
    Yields-if (c == b'+')
      (Yields-then find_crlf _
        (λ l. Yields-pure Readable _ (scalar-Readable RespType.simple_string _ (cc))))
      (Yields-if (c == b'-')
        (Yields-then find_crlf _
          (λ l. Yields-pure Readable _ (scalar-Readable RespType.error _ (cc))))
        (Yields-if (c == b':')
          (Yields-then find_crlf _ (λ l.
            Yields-lift (safe_string_to_long_long l) _
              (λ n. Yields-pure Readable _ (scalar-Readable RespType.integer _ (cc)))))
          (Yields-if (c == b'$')
            (Yields-then find_crlf _ (λ l. Yields-lift (safe_string_to_int l) _ bulk_of-Readable))
            (Yields-if (c == b'*')
              (Yields-then find_crlf _
                (λ l. Yields-lift (safe_string_to_int l) _ (λ n. array_of-Readable p n yp)))
              (Yields-none Readable)))))

value-Readable : (levels : ℕ) → Yields Readable (parse_value levels)
unfolding parse_value
value-Readable zero s v r h = cc
value-Readable (suc levels) [] v r h = cc
value-Readable (suc levels) (c ∷ s) v r h =
    marked-Readable (parse_value levels) c (value-Readable levels) s v r h

-- Every value that was parsed is turned into arguments: `getArray` never throws on it.
pub parse_readable :
    (s : Bytes) (v : RespValue) (n : ℕ)
    → parse s ≡ some (v, n)
    → (args : List Bytes) × (to_string_vector v ≡ some args)
unfolding parse
parse_readable s v n h =
    let ((v', r), found, last) = >>=-eq-some (parse_value (suc max_depth) s) _ h in
    let same : v' ≡ v = cc in subst Readable same (value-Readable (suc max_depth) s v' r found)

module _ (envs : ℕ → Env) (rounds : ℕ) (c : Client) where
  pub drain_incomplete : parse c.buffer ≡ none → drain envs (suc rounds) c ≡ waiting c
  unfolding drain
  drain_incomplete h = rw (h, drain)

  pub drain_complete :
      (v : RespValue) (n : ℕ) (args : List Bytes)
      → parse c.buffer ≡ some (v, n)
      → to_string_vector v ≡ some args
      → drain envs (suc rounds) c ≡ drain envs rounds (serve envs args n c)
  unfolding drain
  drain_complete v n args h k = ground arith

-- The inner loop, given more rounds than there are bytes in the buffer, ends waiting for more bytes,
-- with a buffer at whose front no request is complete.
pub drain_waits :
    (envs : ℕ → Env) (rounds : ℕ) (c : Client)
    → length c.buffer < rounds
    → (c' : Client) × (drain envs rounds c ≡ waiting c') × (parse c'.buffer ≡ none)
drain_waits envs zero c h = absurd (omega arith)
drain_waits envs (suc rounds) c h = elim (Option-cases (parse c.buffer)) [
  | inl incomplete ↦ (c, drain_incomplete envs rounds c incomplete, incomplete)
  | inr ((value, consumed), complete) ↦
      let (args, read) = parse_readable c.buffer value consumed complete in
      let (taken, fits, _) = parse_consumed c.buffer value consumed complete in
      let (c', done, stuck) =
        drain_waits envs rounds (serve envs args consumed c)
          (unfold serve in omega (arith, length-drop {0} consumed c.buffer)) in
      (c', drain_complete envs rounds c value consumed args complete read ∙ done, stuck)
]

-- A `read` of any bytes is worked off completely: no exception, no endless loop, and no complete
-- request left in the buffer.
pub receive_waits :
    (envs : ℕ → Env) (chunk : Bytes) (c : Client)
    → (c' : Client) × (receive envs chunk c ≡ waiting c') × (parse c'.buffer ≡ none)
unfolding receive
receive_waits envs chunk c = drain_waits envs _ _ (omega arith)
