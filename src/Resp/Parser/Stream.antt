-- ===== src/Resp/Parser/Stream.antt =====
-- Every branch of the parser depends on the bytes that it takes alone.
use mathlib.Core.Path.{subst}
use cpp_redis.Prelude.{
  ℕ, zero, suc, ◌≤◌, ◌≡◌, sym, ap, ◌∙◌, Option, some, [], ◌∷◌, ◌++◌, append_assoc, arith, Bytes,
  length, take, drop, length-append, take-append-drop, length-take_le, take-append, drop-append,
  ltb, ◌==◌,
}
use cpp_redis.Prelude.Int.{ℤ, pos, negsuc}
use cpp_redis.Resp.Value.{nil, resp, text, RespValue, RespType}
use cpp_redis.Resp.Parser.{
  find_crlf, parse_simple_string, parse_error, parse_integer, bulk_body, bulk_of, parse_bulk_string,
  parse_elements, array_of, parse_array, parse_marked, parse_value, safe_string_to_int,
  safe_string_to_long_long, max_string_length, max_args,
}
use cpp_redis.Resp.Parser.Reads.{
  Streams, find_crlf-Streams, Streams-then, Streams-pure, Streams-none, Streams-lift, Streams-if,
}

Streams-parse_simple_string : Streams parse_simple_string
unfolding parse_simple_string
Streams-parse_simple_string = Streams-then find_crlf _ find_crlf-Streams (λ str. Streams-pure _)

Streams-parse_error : Streams parse_error
unfolding parse_error
Streams-parse_error = Streams-then find_crlf _ find_crlf-Streams (λ err. Streams-pure _)

Streams-parse_integer : Streams parse_integer
unfolding parse_integer
Streams-parse_integer =
    Streams-then find_crlf _ find_crlf-Streams
      λ line. Streams-lift (safe_string_to_long_long line) _ (λ value. Streams-pure _)

-- A bulk string of the announced length, with its CRLF.
pub bulk_body_at :
    (str t : Bytes)
    → length str ≤ max_string_length
    → bulk_body (length str) (str ++ 13 ∷ 10 ∷ t) ≡ some (resp RespType.bulk_string (text str), t)
unfolding bulk_body
bulk_body_at str t h =
    rw
      (
        drop-append str (13 ∷ 10 ∷ t),
        take-append str (13 ∷ 10 ∷ t),
        length-append str (13 ∷ 10 ∷ t),
      )
      (ground arith)

-- What a bulk string that was read looks like.
pub bulk_body_sound :
    (len : ℕ) (s : Bytes) (v : RespValue) (r : Bytes)
    → bulk_body len s ≡ some (v, r)
    → (len ≤ max_string_length)
      × (len ≤ length s)
      × (drop len s ≡ 13 ∷ 10 ∷ r)
      × (v ≡ resp RespType.bulk_string (text (take len s)))
unfolding bulk_body
bulk_body_sound len s v r h = ground arith

bulk_body-Streams : (len : ℕ) → Streams (bulk_body len)
bulk_body-Streams len s v r h =
    let (short, enough, tail, value) = bulk_body_sound len s v r h in
    let size = length-take_le len s enough in
    record {
      front = take len s ++ 13 ∷ 10 ∷ [];
      splits =
          sym (take-append-drop len s)
          ∙ ap (λ x. take len s ++ x) tail
          ∙ sym (append_assoc (take len s) (13 ∷ 10 ∷ []) r);
      again = λ t. rw (append_assoc (take len s) (13 ∷ 10 ∷ []) t) (
          subst (λ n. bulk_body n (take len s ++ 13 ∷ 10 ∷ t) ≡ some (v, t)) size
            (bulk_body_at (take len s) t (omega arith) ∙ ap (λ x. some (x, t)) (sym value)));
    }

bulk_of-Streams : (len : ℤ) → Streams (bulk_of len)
unfolding bulk_of
bulk_of-Streams (pos len) = bulk_body-Streams len
bulk_of-Streams (negsuc zero) = Streams-pure _
bulk_of-Streams (negsuc (suc n)) = Streams-none

Streams-parse_bulk_string : Streams parse_bulk_string
unfolding parse_bulk_string
Streams-parse_bulk_string =
    Streams-then find_crlf _ find_crlf-Streams
      λ line. Streams-lift (safe_string_to_int line) _ bulk_of-Streams

parse_elements-Streams :
    (p : Bytes → Option (RespValue × Bytes)) (n : ℕ) → Streams p → Streams (parse_elements p n)
unfolding parse_elements
parse_elements-Streams p zero sp = Streams-pure nil
parse_elements-Streams p (suc n) sp = Streams-then p _ sp λ element.
    Streams-then (parse_elements p n) _ (parse_elements-Streams p n sp) λ elements. Streams-pure _

array_of-Streams :
    (p : Bytes → Option (RespValue × Bytes)) (n : ℤ) → Streams p → Streams (array_of p n)
unfolding array_of
array_of-Streams p (pos n) sp = Streams-if (ltb max_args n) Streams-none (
    Streams-then (parse_elements p n) _ (parse_elements-Streams p n sp)
      (λ elements. Streams-pure _))
array_of-Streams p (negsuc zero) sp = Streams-pure _
array_of-Streams p (negsuc (suc n)) sp = Streams-none

parse_array-Streams : (p : Bytes → Option (RespValue × Bytes)) → Streams p → Streams (parse_array p)
unfolding parse_array
parse_array-Streams p sp =
    Streams-then find_crlf _ find_crlf-Streams
      λ line. Streams-lift (safe_string_to_int line) _ (λ n. array_of-Streams p n sp)

parse_marked-Streams :
    (p : Bytes → Option (RespValue × Bytes)) (c : ℕ) → Streams p → Streams (parse_marked p c)
unfolding parse_marked
parse_marked-Streams p c sp = Streams-if (c == b'+') Streams-parse_simple_string (
    Streams-if (c == b'-') Streams-parse_error (
      Streams-if (c == b':') Streams-parse_integer (
        Streams-if (c == b'$') Streams-parse_bulk_string
          (Streams-if (c == b'*') (parse_array-Streams p sp) Streams-none))))

-- A value that is read takes at least its marker.
pub record Takes (levels : ℕ) (s : Bytes) (v : RespValue) (r : Bytes) : Type 0 where
  pub marker : ℕ
  pub body : Bytes
  pub splits : s ≡ marker ∷ (body ++ r)
  pub again : (t : Bytes) → parse_value levels (marker ∷ (body ++ t)) ≡ some (v, t)

parse_value-Streams : (levels : ℕ) → Streams (parse_value levels)
unfolding parse_value
parse_value-Streams zero s v r h = cc
parse_value-Streams (suc levels) [] v r h = cc
parse_value-Streams (suc levels) (c ∷ s) v r h =
    let got = parse_marked-Streams (parse_value levels) c (parse_value-Streams levels) s v r h in
    record { front = c ∷ got.front; splits = ap (λ x. c ∷ x) got.splits; again = got.again }

pub parse_value-Takes :
    (levels : ℕ) (s : Bytes) (v : RespValue) (r : Bytes)
    → parse_value levels s ≡ some (v, r)
    → Takes levels s v r
unfolding parse_value
parse_value-Takes zero s v r h = cc
parse_value-Takes (suc levels) [] v r h = cc
parse_value-Takes (suc levels) (c ∷ s) v r h =
    let got = parse_marked-Streams (parse_value levels) c (parse_value-Streams levels) s v r h in
    record { marker = c; body = got.front; splits = ap (λ x. c ∷ x) got.splits; again = got.again }
