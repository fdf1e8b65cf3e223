-- ===== src/Resp/Parser/Consumed.antt =====
-- How many bytes a value takes, and what bytes that arrive later change: nothing.
use cpp_redis.Prelude.{
  ℕ, suc, ◌+◌, ◌-◌, ◌≤◌, ◌<◌, ◌≡◌, ap, ◌∙◌, some, ◌∷◌, ◌++◌, append_assoc, arith, Bytes, length,
  take, drop, length-append, drop-append_le, take-append, >>=-eq-some,
}
use cpp_redis.Resp.Value.{RespValue}
use cpp_redis.Resp.Parser.{max_depth, parse_value, parse}
use cpp_redis.Resp.Parser.Stream.{parse_value-Takes}

-- The bytes that a value took, and how many they are.
pub record Took (s : Bytes) (v : RespValue) (n : ℕ) : Type 0 where
  pub marker : ℕ
  pub body : Bytes
  pub rest : Bytes
  pub splits : s ≡ (marker ∷ body) ++ rest
  pub count : n ≡ length (marker ∷ body)
  pub again : (t : Bytes) → parse ((marker ∷ body) ++ t) ≡ some (v, n)

pub length-append_sub : (xs ys : Bytes) → length (xs ++ ys) - length ys ≡ length xs
length-append_sub xs ys = omega (arith, length-append {0} xs ys)

pub parse_at :
    (s : Bytes) (v : RespValue) (r : Bytes)
    → parse_value (suc max_depth) s ≡ some (v, r)
    → parse s ≡ some (v, length s - length r)
unfolding parse
parse_at s v r h = rw h

pub parse-Took : (s : Bytes) (v : RespValue) (n : ℕ) → parse s ≡ some (v, n) → Took s v n
unfolding parse
parse-Took s v n h =
    let ((v', r), found, same) =
      >>=-eq-some (parse_value (suc max_depth) s) (λ x. some (x.0, length s - length x.1)) h in
    let got = parse_value-Takes (suc max_depth) s v' r found in
    let front = got.marker ∷ got.body in
    let sizes : length s ≡ length front + length r = ap length got.splits ∙ length-append front r in
    let value : v' ≡ v = cc in
    let count : n ≡ length front = let same_count : length s - length r ≡ n = cc in omega arith in
    record {
      marker = got.marker;
      body = got.body;
      rest = r;
      splits = got.splits;
      count = count;
      again = λ t.
          parse_at (front ++ t) v' t (got.again t) ∙ cc (value, length-append_sub front t, count);
    }

-- A value takes at least one byte and no more than there are, and what it is depends on those
-- bytes alone.
pub parse_consumed :
    (s : Bytes) (v : RespValue) (n : ℕ)
    → parse s ≡ some (v, n)
    → (0 < n) × (n ≤ length s) × ((t : Bytes) → parse (take n s ++ t) ≡ some (v, n))
parse_consumed s v n h =
    let got = parse-Took s v n h in
    let front = got.marker ∷ got.body in
    let taken : take n s ≡ front =
      (λ i. take (got.count i) (got.splits i)) ∙ take-append front got.rest in
    (
      omega (arith, got.count),
      omega (arith, got.count, ap length got.splits, length-append {0} front got.rest),
      λ t. rw taken (got.again t),
    )

-- Bytes that arrive behind a complete value change neither the value nor the count.
pub parse-append :
    (s t : Bytes) (v : RespValue) (n : ℕ) → parse s ≡ some (v, n) → parse (s ++ t) ≡ some (v, n)
parse-append s t v n h =
    let got = parse-Took s v n h in
    let front = got.marker ∷ got.body in
    rw (got.splits, append_assoc front got.rest t) (got.again (got.rest ++ t))

-- What `erase(0, consumed)` leaves.
pub drop-parse :
    (s t : Bytes) (v : RespValue) (n : ℕ) → parse s ≡ some (v, n) → drop n (s ++ t) ≡ drop n s ++ t
drop-parse s t v n h = drop-append_le n s t (parse_consumed s v n h).1
