-- ===== src/Client/Requests.antt =====
-- From the bytes that clients send to the replies: the parser, the handler and the loop of the
-- connection together.
use cpp_redis.Prelude.{
  ℕ, zero, suc, ◌+◌, ◌≤◌, ◌<◌, ◌≡◌, sym, ap, ◌∙◌, none, some, List, [], ◌∷◌, ◌++◌, append_assoc,
  append-nil, Bytes, arith, All, length, length-append, drop-append,
}
use cpp_redis.Resp.Formatter.{format_array}
use cpp_redis.Resp.Value.{RespType, resp, vector}
use cpp_redis.Resp.Parser.{max_args, parse, to_string_vector}
use cpp_redis.Resp.Parser.RoundTrip.{Fits, bulks, parse-format_array, element_strings-bulks}
use cpp_redis.Handler.{Env, CommandHandler, process_command, process_all}
use cpp_redis.Client.{Client, serve, drain, receive, receive_all, waiting}
use cpp_redis.Client.Progress.{drain_incomplete, drain_complete}
use cpp_redis.Client.Chunks.{joined, receive_all-joined}

abbrev pub IsRequest : List Bytes → Type 0
IsRequest args = (length args ≤ max_args) × All Fits args

-- The bytes of the requests, one behind the other.
abbrev pub wire : List (List Bytes) → Bytes
wire [] = []
wire (args ∷ requests) = format_array args ++ wire requests

-- Each request with the environment that the connection's count gives it.
abbrev pub timed : (ℕ → Env) → ℕ → List (List Bytes) → List (Env × List Bytes)
timed envs n [] = []
timed envs n (args ∷ requests) = (envs n, args) ∷ timed envs (n + 1) requests

-- The client behind the replies of the handler to the requests, with bytes that are left.
abbrev pub replied : (ℕ → Env) → List (List Bytes) → Bytes → Client → Client
replied envs requests t c =
    let (replies, handler) = process_all (timed envs c.served requests) c.handler in
    record {
      buffer = t;
      handler = handler;
      sent = c.sent ++ joined replies;
      served = c.served + length requests;
    }

parse_request :
    (args : List Bytes) (s : Bytes)
    → IsRequest args
    → parse (format_array args ++ s)
      ≡ some (resp RespType.array (vector (bulks args)), length (format_array args))
parse_request args s h = parse-format_array args s h.0 h.1

to_string_vector-bulks :
    (args : List Bytes) → to_string_vector (resp RespType.array (vector (bulks args))) ≡ some args
unfolding to_string_vector
to_string_vector-bulks args = element_strings-bulks args

length-format_array : (args : List Bytes) → 0 < length (format_array args)
unfolding format_array
length-format_array args = omega arith

-- A client whose buffer holds the bytes.
abbrev holding : Bytes → Client → Client
holding s c = record c { buffer = s }

same_client :
    (b : Bytes) (h : CommandHandler) (s s' : Bytes) (n n' : ℕ)
    → s ≡ s'
    → n ≡ n'
    → ◌≡◌ {A = Client}
        (record { buffer = b; handler = h; sent = s; served = n })
        (record { buffer = b; handler = h; sent = s'; served = n' })
same_client b h s s' n n' p q i = record { buffer = b; handler = h; sent = p i; served = q i }

serve_request :
    (envs : ℕ → Env) (args : List Bytes) (n : ℕ) (t : Bytes) (requests : List (List Bytes))
    (c : Client)
    → replied envs requests t (serve envs args n c) ≡ replied envs (args ∷ requests) t c
unfolding serve process_all
serve_request envs args n t requests c =
    let h = (process_command (envs c.served) args c.handler).1 in
    let reply = (process_command (envs c.served) args c.handler).0 in
    let rest = process_all (timed envs (c.served + 1) requests) h in
    same_client t rest.1 _ _ _ _ (append_assoc c.sent reply (joined rest.0)) (omega arith)

serve-holding :
    (envs : ℕ → Env) (args : List Bytes) (s t : Bytes) (c : Client)
    → serve envs args (length s) (holding (s ++ t) c)
      ≡ holding t (serve envs args (length s) (holding (s ++ t) c))
unfolding serve
serve-holding envs args s t c = rw (drop-append s t)

replied_none : (envs : ℕ → Env) (t : Bytes) (c : Client) → holding t c ≡ replied envs [] t c
unfolding process_all
replied_none envs t c =
    same_client t c.handler c.sent (c.sent ++ []) c.served (c.served + 0) (sym (append-nil c.sent))
      (omega arith)

drain_requests :
    (envs : ℕ → Env) (requests : List (List Bytes)) (t : Bytes) (rounds : ℕ) (c : Client)
    → All IsRequest requests
    → parse t ≡ none
    → length (wire requests ++ t) < rounds
    → drain envs rounds (holding (wire requests ++ t) c) ≡ waiting (replied envs requests t c)
drain_requests envs requests t zero c h stuck k = absurd (omega arith)
drain_requests envs [] t (suc rounds) c h stuck k =
    drain_incomplete envs rounds (holding t c) stuck ∙ ap waiting (replied_none envs t c)
drain_requests envs (args ∷ requests) t (suc rounds) c h stuck k =
    let s = format_array args in
    let rest = wire requests ++ t in
    let next = serve envs args (length s) (holding (s ++ rest) c) in
    let fewer : length rest < rounds = omega (
      arith,
      length-format_array args,
      length-append {0} s rest,
      ap length (append_assoc s (wire requests) t),
    ) in
    ap (λ b. drain envs (suc rounds) (holding b c)) (append_assoc s (wire requests) t)
    ∙ drain_complete envs rounds (holding (s ++ rest) c) _ (length s) args
        (parse_request args rest h.0) (to_string_vector-bulks args)
    ∙ ap (drain envs rounds) (serve-holding envs args s rest c)
    ∙ drain_requests envs requests t rounds next h.1 stuck fewer
    ∙ ap waiting (serve_request envs args (length s) t requests (holding (s ++ rest) c))

receive_requests :
    (envs : ℕ → Env) (requests : List (List Bytes)) (t : Bytes) (c : Client)
    → All IsRequest requests
    → parse t ≡ none
    → c.buffer ≡ []
    → receive envs (wire requests ++ t) c ≡ waiting (replied envs requests t c)
unfolding receive
receive_requests envs requests t c h stuck empty =
    ap
      (λ b.
        drain envs (suc (length (b ++ (wire requests ++ t))))
          (holding (b ++ (wire requests ++ t)) c))
      empty
    ∙ drain_requests envs requests t _ c h stuck (omega arith)

-- Requests of at most `MAX_ARGS` items of at most `MAX_STRING_LENGTH` bytes each are sent to a connection
-- whose buffer is empty, and behind them bytes that are no complete request; however these
-- bytes are cut into chunks, the connection sends the handler's replies to the requests, one
-- behind the other and in their order, keeps the bytes behind the requests, and waits.
pub receive_all_requests :
    (envs : ℕ → Env) (requests : List (List Bytes)) (t chunk : Bytes) (chunks : List Bytes)
    (c : Client)
    → All IsRequest requests
    → parse t ≡ none
    → c.buffer ≡ []
    → joined (chunk ∷ chunks) ≡ wire requests ++ t
    → receive_all envs (chunk ∷ chunks) c ≡ waiting (replied envs requests t c)
receive_all_requests envs requests t chunk chunks c h stuck empty cut =
    receive_all-joined envs chunk chunks c
    ∙ ap (λ s. receive envs s c) cut
    ∙ receive_requests envs requests t c h stuck empty
