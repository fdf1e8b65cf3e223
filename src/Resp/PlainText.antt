-- ===== src/Resp/PlainText.antt =====
-- resp/resp_parser.cpp: parsePlainText, the words of a line that is not RESP.
pub mod Exact
use cpp_redis.Prelude.{
  ℕ, zero, suc, ◌+◌, Option, none, some, List, [], ◌∷◌, Bytes, length, is_empty, ◌==◌,
  if◌then◌else◌,
}
use cpp_redis.Number.{is_space, skip_spaces}

-- The bytes before the first space, and the others.
unfoldable pub split_word : Bytes → Bytes × Bytes
split_word [] = ([], [])
split_word (c ∷ s) =
    let (word, rest) = split_word s in if is_space c then ([], c ∷ s) else (c ∷ word, rest)

-- `iss >> token`: `none` where only spaces are left.
unfoldable pub next_token : Bytes → Option (Bytes × Bytes)
next_token s = elim (skip_spaces s) [ [] ↦ none | c ∷ rest ↦ some (split_word (c ∷ rest)) ]

-- std::remove with erase.
unfoldable pub remove_byte : ℕ → Bytes → Bytes
remove_byte b [] = []
remove_byte b (c ∷ s) = let rest = remove_byte b s in if c == b then rest else c ∷ rest

unfoldable pub push_token : Bytes → List Bytes → List Bytes
push_token token result =
    let clean = remove_byte 10 (remove_byte 13 token) in
    if is_empty clean then result else clean ∷ result

-- The loop, on fuel.
unfoldable pub read_tokens : ℕ → Bytes → List Bytes
read_tokens zero s = []
read_tokens (suc n) s = elim (next_token s) [
  | none ↦ []
  | some (token, rest) ↦ push_token token (read_tokens n rest)
]

-- A token takes a byte at least, so the input's length and one more are enough rounds.
unfoldable pub parse_plain_text : Bytes → List Bytes
parse_plain_text input = read_tokens (suc (length input)) input
