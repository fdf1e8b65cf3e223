-- ===== src/Client/Stuck.antt =====
-- A buffer whose front is no type marker: what `handleClient` makes of a line that is not RESP.
use cpp_redis.Prelude.{
  ℕ, ◌≡◌, sym, ap, ◌∙◌, Bool, false, ◌||◌, Option, none, List, [], ◌∷◌, ◌++◌, Bytes, arith, length,
  ◌==◌, append-nil, append_assoc,
}
use cpp_redis.Resp.Value.{RespValue}
use cpp_redis.Resp.Parser.{max_depth, parse_marked, parse_value, parse}
use cpp_redis.Handler.{Env}
use cpp_redis.Client.{Client, receive, receive_all, waiting}
use cpp_redis.Client.Progress.{drain_incomplete}
use cpp_redis.Client.Chunks.{joined, receive_all_step}

-- The first bytes of RESP values.
abbrev pub is_marker : ℕ → Bool
is_marker c = c == b'+' || c == b'-' || c == b':' || c == b'$' || c == b'*'

parse_marked_lem :
    (next : Bytes → Option (RespValue × Bytes)) (c : ℕ) (s : Bytes)
    → is_marker c ≡ false
    → parse_marked next c s ≡ none
unfolding parse_marked
parse_marked_lem next c s h = ground arith

pub parse_unmarked : (c : ℕ) (s : Bytes) → is_marker c ≡ false → parse (c ∷ s) ≡ none
unfolding parse parse_value
parse_unmarked c s h = rw (parse_marked_lem (parse_value max_depth) c s h)

receive_unmarked :
    (envs : ℕ → Env) (chunk : Bytes) (c : Client) (b : ℕ) (rest : Bytes)
    → c.buffer ≡ b ∷ rest
    → is_marker b ≡ false
    → receive envs chunk c ≡ waiting (record c { buffer = c.buffer ++ chunk })
unfolding receive
receive_unmarked envs chunk c b rest front h =
    drain_incomplete envs (length (c.buffer ++ chunk)) (record c { buffer = c.buffer ++ chunk })
      (ap (λ l. parse (l ++ chunk)) front ∙ parse_unmarked b (rest ++ chunk) h)

-- A connection whose buffer starts with a byte that is no type marker is never answered again: whatever
-- is read, every byte is kept in the buffer, and nothing is sent, served or changed in the handler.
pub receive_all_stuck :
    (envs : ℕ → Env) (chunks : List Bytes) (c : Client) (b : ℕ) (rest : Bytes)
    → c.buffer ≡ b ∷ rest
    → is_marker b ≡ false
    → receive_all envs chunks c ≡ waiting (record c { buffer = c.buffer ++ joined chunks })
unfolding receive_all
receive_all_stuck envs [] c b rest front h =
    ap (λ l. waiting (record c { buffer = l })) (sym (append-nil c.buffer))
receive_all_stuck envs (chunk ∷ chunks) c b rest front h =
    let c' = record c { buffer = c.buffer ++ chunk } in
    receive_all_step envs chunk chunks c c' (receive_unmarked envs chunk c b rest front h)
    ∙ receive_all_stuck envs chunks c' b (rest ++ chunk) (ap (λ l. l ++ chunk) front) h
    ∙ ap (λ l. waiting (record c { buffer = l })) (append_assoc c.buffer chunk (joined chunks))
