-- ===== src/Resp/PlainText/Exact.antt =====
-- parsePlainText finds exactly the words of a line.
use mathlib.Core.Path.{subst}
use cpp_redis.Prelude.{
  ℕ, zero, suc, ◌<◌, ◌≡◌, refl, sym, ap, ◌∙◌, true, false, none, some, List, [], ◌∷◌, ◌++◌, Bytes,
  arith, length, length-append, ◌==◌, All, Bool-cases, inl, inr,
}
use cpp_redis.Number.{is_space, skip_spaces}
use cpp_redis.Resp.PlainText.{
  split_word, next_token, remove_byte, push_token, read_tokens, parse_plain_text,
}

-- Bytes of which all, or none, are spaces.
abbrev pub IsBlank : Bytes → Type 0
IsBlank = All (λ c. is_space c ≡ true)

abbrev pub IsSolid : Bytes → Type 0
IsSolid = All (λ c. is_space c ≡ false)

-- What may follow a word: nothing, or a space.
abbrev pub IsBreak : Bytes → Type 0
IsBreak [] = Unit
IsBreak (c ∷ s) = is_space c ≡ true

-- A line with its words, each of which stands between spaces or at an end of the line.
pub data Line : List Bytes → Bytes → Type 0 where
  no_word : (blank : Bytes) → IsBlank blank → Line [] blank
  a_word :
      {words : List Bytes} {s : Bytes} (blank : Bytes) (c : ℕ) (word : Bytes)
      → IsBlank blank
      → IsSolid (c ∷ word)
      → IsBreak s
      → Line words s
      → Line ((c ∷ word) ∷ words) (blank ++ (c ∷ (word ++ s)))

skip_spaces-blank : (blank s : Bytes) → IsBlank blank → skip_spaces (blank ++ s) ≡ skip_spaces s
unfolding skip_spaces
skip_spaces-blank [] s h = refl
skip_spaces-blank (c ∷ blank) s h = rw h.0 (skip_spaces-blank blank s h.1)

split_word-solid : (word s : Bytes) → IsSolid word → IsBreak s → split_word (word ++ s) ≡ (word, s)
unfolding split_word
split_word-solid [] [] h b = refl
split_word-solid [] (c ∷ s) h b = rw b refl
split_word-solid (c ∷ word) s h b = rw (h.0, split_word-solid word s h.1 b) refl

remove_byte-solid :
    (b : ℕ) (word : Bytes) → is_space b ≡ true → IsSolid word → remove_byte b word ≡ word
unfolding remove_byte
remove_byte-solid b [] e h = refl
remove_byte-solid b (c ∷ word) e h = elim (Bool-cases (c == b)) [
  | inl same ↦
      let equal : c ≡ b = ground arith in let space : is_space c ≡ true = rw equal e in absurd cc
  | inr other ↦ rw (other, remove_byte-solid b word e h.1) refl
]

push_token-solid :
    (c : ℕ) (word : Bytes) (result : List Bytes)
    → IsSolid (c ∷ word)
    → push_token (c ∷ word) result ≡ (c ∷ word) ∷ result
unfolding push_token is_space
push_token-solid c word result h =
    rw (remove_byte-solid 13 (c ∷ word) refl h, remove_byte-solid 10 (c ∷ word) refl h) refl

skip_spaces-all : (blank : Bytes) → IsBlank blank → skip_spaces blank ≡ []
unfolding skip_spaces
skip_spaces-all [] h = refl
skip_spaces-all (c ∷ blank) h = rw h.0 (skip_spaces-all blank h.1)

skip_spaces-word : (c : ℕ) (s : Bytes) → is_space c ≡ false → skip_spaces (c ∷ s) ≡ c ∷ s
unfolding skip_spaces
skip_spaces-word c s h = rw h refl

next_token-word :
    (blank : Bytes) (c : ℕ) (word s : Bytes)
    → IsBlank blank
    → IsSolid (c ∷ word)
    → IsBreak s
    → next_token (blank ++ (c ∷ (word ++ s))) ≡ some (c ∷ word, s)
unfolding next_token
next_token-word blank c word s h solid b =
    rw
      (
        next_token,
        skip_spaces-blank blank (c ∷ (word ++ s)) h ∙ skip_spaces-word c (word ++ s) solid.0,
      )
      (ap some (split_word-solid (c ∷ word) s solid b))

next_token-none : (blank : Bytes) → IsBlank blank → next_token blank ≡ none
unfolding next_token
next_token-none blank h = rw (next_token, skip_spaces-all blank h) refl

rest-shorter :
    (blank : Bytes) (c : ℕ) (word s : Bytes) → length s < length (blank ++ (c ∷ (word ++ s)))
rest-shorter blank c word s =
    omega (arith, length-append blank (c ∷ (word ++ s)), length-append word s)

-- One round of the loop.
read_tokens-none : (n : ℕ) (s : Bytes) → next_token s ≡ none → read_tokens (suc n) s ≡ []
unfolding read_tokens
read_tokens-none n s e = rw (e, read_tokens) refl

read_tokens-some :
    (n : ℕ) (s token rest : Bytes)
    → next_token s ≡ some (token, rest)
    → read_tokens (suc n) s ≡ push_token token (read_tokens n rest)
unfolding read_tokens
read_tokens-some n s token rest e = rw (e, read_tokens) refl

read_tokens-Line :
    (n : ℕ) (words : List Bytes) (s : Bytes) → Line words s → length s < n → read_tokens n s ≡ words
read_tokens-Line zero words s line more = absurd (omega arith)
read_tokens-Line (suc n) [] _ (no_word s h) more = read_tokens-none n s (next_token-none s h)
read_tokens-Line (suc n) _ _ (a_word {words = others} {s = rest} blank c word h solid b line) more =
    read_tokens-some n _ (c ∷ word) rest (next_token-word blank c word rest h solid b)
    ∙ push_token-solid c word (read_tokens n rest) solid
    ∙ ap (λ ws. (c ∷ word) ∷ ws)
        (read_tokens-Line n others rest line (omega (arith, rest-shorter blank c word rest, more)))

IsBlank-IsBreak : (blank : Bytes) → IsBlank blank → IsBreak blank
IsBlank-IsBreak [] h = tt
IsBlank-IsBreak (c ∷ blank) h = h.0

-- A letter before a word: a word of its own, or the first of that word.
lengthen :
    {words : List Bytes} {s : Bytes} (c : ℕ) (letter : is_space c ≡ false) (blank : Bytes) (d : ℕ)
    (word : Bytes)
    → IsBlank blank
    → IsSolid (d ∷ word)
    → IsBreak s
    → Line words s
    → (ws : List Bytes) × Line ws (c ∷ (blank ++ (d ∷ (word ++ s))))
lengthen {words = others} c letter [] d word h solid b line =
    ((c ∷ d ∷ word) ∷ others, a_word [] c (d ∷ word) tt (letter, solid) b line)
lengthen {words = others} c letter (e ∷ blank) d word h solid b line = (
  (c ∷ []) ∷ (d ∷ word) ∷ others,
  a_word [] c [] tt (letter, tt) h.0 (a_word (e ∷ blank) d word h solid b line),
)

-- A line that begins with one byte more.
extend :
    (c : ℕ) (words : List Bytes) (s : Bytes) → Line words s → (ws : List Bytes) × Line ws (c ∷ s)
extend c _ _ (no_word blank h) = elim (Bool-cases (is_space c)) [
  | inl space ↦ ([], no_word (c ∷ blank) (space, h))
  | inr solid ↦
      ((c ∷ []) ∷ [], a_word [] c [] tt (solid, tt) (IsBlank-IsBreak blank h) (no_word blank h))
]
extend c _ _ (a_word {words = others} {s = rest} blank d word h solid b line) =
    elim (Bool-cases (is_space c)) [
      | inl space ↦ ((d ∷ word) ∷ others, a_word (c ∷ blank) d word (space, h) solid b line)
      | inr letter ↦ lengthen c letter blank d word h solid b line
    ]

Line-exists : (s : Bytes) → (ws : List Bytes) × Line ws s
Line-exists [] = ([], no_word [] tt)
Line-exists (c ∷ s) = let (words, line) = Line-exists s in extend c words s line

-- For every line, the words that parsePlainText returns are those of the line, in its order: bytes
-- without a space, as many as stand together, between spaces or at the ends of the line. No word is
-- empty, and the rounds of the loop are enough.
pub parse_plain_text-Line : (s : Bytes) → Line (parse_plain_text s) s
unfolding parse_plain_text
parse_plain_text-Line s =
    let (words, line) = Line-exists s in
    subst (λ ws. Line ws s) (sym (read_tokens-Line (suc (length s)) words s line (omega arith)))
      line
