-- ===== src/Server.antt =====
-- server/tcp_server.h and server/tcp_server.cpp but for the bytes of one connection, which are in
-- Client.antt: the construction, the start, the loop that accepts connections, and the stop. What the
-- operating system returns is an argument. The acceptor, the threads of the connections and the
-- thread that stops the server interleave in any order; one command is one step.
pub mod Sockets
pub mod Invariant
pub mod Sound
pub mod Progress
pub mod Runs
pub mod Reading
pub mod Stop
pub mod Idle
use cpp_redis.Prelude.{
  ℕ, ◌+◌, ◌≡◌, ◌≢◌, ◌⊎◌, inl, inr, Bool, true, false, Option, none, some, List, [], ◌∷◌, ◌++◌,
  Bytes, codes, All, length, get_elem?, set, drop, ◌==◌, if◌then◌else◌,
}
use cpp_redis.Prelude.Int.{ℤ}
use cpp_redis.Resp.Value.{RespValue}
use cpp_redis.Resp.Parser.{parse, to_string_vector}
use cpp_redis.Handler.{Env, CommandHandler, process_command, new_handler}
use cpp_redis.Connections.{
  Thread, spawned, running, finished, joined, joinable, ConnectionManager, new_manager,
  can_accept_new_connection, cleanup_finished_threads, add_connection, stop_all_connections,
  count_in, count_out,
}

-- The variables of one call of `handleClient`; `is_open` falls with its `close`, and `is_reading` says
-- whether the thread is inside `read`, which returns only when the client sends or disconnects.
pub record Connection : Type 0 where
  pub socket : ℕ
  pub buffer : Bytes
  pub sent : Bytes
  pub is_reading : Bool
  pub is_open : Bool

-- `connections` holds the variables of the threads of `manager`, in their order, and `open_sockets`
-- the descriptors that `accept` has returned and nobody has closed.
pub record TcpServer : Type 0 where
  pub server_fd : ℕ
  pub port : ℕ
  pub is_running : Bool
  pub manager : ConnectionManager
  pub connections : List Connection
  pub handler : CommandHandler
  pub open_sockets : List ℕ

abbrev pub with_fd : ℕ → ℕ → ℤ → TcpServer
with_fd port fd start_time = record {
  server_fd = fd;
  port = port;
  is_running = false;
  manager = new_manager;
  connections = [];
  handler = new_handler start_time;
  open_sockets = [];
}

-- TCPServer(int): the results of `socket` and `setsockopt`, the text of `strerror`, and the clock. On
-- the left is the message of the exception.
unfoldable pub new_server : ℕ → Option ℕ → Bool → Bytes → ℤ → Bytes ⊎ TcpServer
new_server port none fails error start_time = inl (codes "Failed to create socket: " ++ error)
new_server port (some fd) fails error start_time =
    if fails
    then inl (codes "Failed to set socket options: " ++ error)
    else inr (with_fd port fd start_time)

-- `start` up to its call of `acceptConnections`: whether `bind` and `listen` fail.
unfoldable pub start : Bool → Bool → Bytes → TcpServer → Bytes ⊎ TcpServer
start bind_fails listen_fails error s =
    if s.is_running
    then inr s
    else if bind_fails
    then inl (codes "Bind failed: " ++ error)
    else if listen_fails
    then inl (codes "Listen failed: " ++ error)
    else inr (record s { is_running = true })

-- The connections of the threads that the clean-up keeps.
unfoldable pub keep_connections : List Thread → List Connection → List Connection
keep_connections [] cs = cs
keep_connections (t ∷ ts) [] = []
keep_connections (t ∷ ts) (c ∷ cs) =
    let rest = keep_connections ts cs in if joinable t then c ∷ rest else rest

abbrev pub new_connection : ℕ → Connection
new_connection socket = record {
  socket = socket;
  buffer = [];
  sent = [];
  is_reading = false;
  is_open = true;
}

-- The `try` block of the acceptor: a socket that gets no thread is closed at once.
unfoldable pub handed_over : ℕ → Option ConnectionManager → TcpServer → TcpServer
handed_over socket none s = record s {
  manager = cleanup_finished_threads s.manager;
  connections = keep_connections s.manager.client_threads s.connections;
}
handed_over socket (some m) s = record s {
  manager = m;
  connections =
      keep_connections s.manager.client_threads s.connections ++ new_connection socket ∷ [];
  open_sockets = socket ∷ s.open_sockets;
}

-- One round of `acceptConnections`: the result of `accept`.
unfoldable pub accept_round : Option ℕ → TcpServer → TcpServer
accept_round none s = s
accept_round (some socket) s =
    let added = handed_over socket (add_connection s.manager) s in
    if can_accept_new_connection s.manager then added else s

-- The outer loop has seen that the server is running, and calls `read`.
unfoldable pub enter_read : ℕ → Connection → TcpServer → TcpServer
enter_read i c s = record s { connections = set s.connections i (record c { is_reading = true }) }

-- `read` has returned bytes.
unfoldable pub read_chunk : ℕ → Bytes → Connection → TcpServer → TcpServer
read_chunk i chunk c s = record s {
  connections = set s.connections i (record c { buffer = c.buffer ++ chunk; is_reading = false });
}

-- A complete request is taken off the buffer and answered.
unfoldable pub serve_request : ℕ → Env → List Bytes → ℕ → Connection → TcpServer → TcpServer
serve_request i env args consumed c s =
    let (resp, handler) = process_command env args s.handler in
    record s {
      connections =
          set s.connections i (record c { buffer = drop consumed c.buffer; sent = c.sent ++ resp });
      handler = handler;
    }

unfoldable pub close_socket : ℕ → List ℕ → List ℕ
close_socket socket [] = []
close_socket socket (n ∷ ns) = if n == socket then ns else n ∷ close_socket socket ns

-- The end of `handleClient`.
unfoldable pub close_connection : ℕ → Connection → TcpServer → TcpServer
close_connection i c s = record s {
  connections = set s.connections i (record c { is_open = false });
  open_sockets = close_socket c.socket s.open_sockets;
}

-- `stop`: before and behind its wait for the threads.
unfoldable pub begin_stop : TcpServer → TcpServer
begin_stop s = record s { is_running = false }

unfoldable pub end_stop : TcpServer → TcpServer
end_stop s = record s { manager = stop_all_connections s.manager; connections = [] }

-- Whether `join` returns at once.
unfoldable pub has_ended : Thread → Bool
has_ended spawned = false
has_ended running = false
has_ended finished = true
has_ended joined = true

-- Thread `i` is in `handleClient`, with these variables.
pub record Handles (s : TcpServer) (i : ℕ) (c : Connection) : Type 0 where
  pub thread : get_elem? s.manager.client_threads i ≡ some running
  pub variables : get_elem? s.connections i ≡ some c
  pub not_closed : c.is_open ≡ true

-- How often a number stands in a list.
abbrev pub count : ℕ → List ℕ → ℕ
count n [] = 0
count n (m ∷ ms) = (if n == m then 1 else 0) + count n ms

-- A step of the server. A descriptor that `accept` returns is not open. The inner loop of `handleClient`
-- serves while a request is complete; then the outer loop calls `read` while the server is running,
-- and leaves when it is not. A thread inside `read` goes on only when that returns: bytes, or
-- nothing, and then it leaves too.
pub data Step (s s' : TcpServer) : Type 0 where
  started :
      (bind_fails listen_fails : Bool) (error : Bytes)
      → start bind_fails listen_fails error s ≡ inr s'
      → Step s s'
  accept_failed : s' ≡ accept_round none s → Step s s'
  accepted :
      (socket : ℕ) → count socket s.open_sockets ≡ 0 → s' ≡ accept_round (some socket) s → Step s s'
  began :
      (i : ℕ)
      → get_elem? s.manager.client_threads i ≡ some spawned
      → s' ≡ record s { manager = count_in i s.manager }
      → Step s s'
  waited :
      (i : ℕ) (c : Connection)
      → s.is_running ≡ true
      → Handles s i c
      → c.is_reading ≡ false
      → parse c.buffer ≡ none
      → s' ≡ enter_read i c s
      → Step s s'
  read :
      (i : ℕ) (chunk : Bytes) (c : Connection)
      → chunk ≢ []
      → Handles s i c
      → c.is_reading ≡ true
      → s' ≡ read_chunk i chunk c s
      → Step s s'
  disconnected :
      (i : ℕ) (c : Connection)
      → Handles s i c
      → c.is_reading ≡ true
      → s' ≡ close_connection i c s
      → Step s s'
  served :
      (i : ℕ) (env : Env) (c : Connection) (v : RespValue) (n : ℕ) (args : List Bytes)
      → Handles s i c
      → c.is_reading ≡ false
      → parse c.buffer ≡ some (v, n)
      → to_string_vector v ≡ some args
      → s' ≡ serve_request i env args n c s
      → Step s s'
  left :
      (i : ℕ) (c : Connection)
      → s.is_running ≡ false
      → Handles s i c
      → c.is_reading ≡ false
      → parse c.buffer ≡ none
      → s' ≡ close_connection i c s
      → Step s s'
  ended :
      (i : ℕ) (c : Connection)
      → get_elem? s.manager.client_threads i ≡ some running
      → get_elem? s.connections i ≡ some c
      → c.is_open ≡ false
      → s' ≡ record s { manager = count_out i s.manager }
      → Step s s'
  stop_begun : s.is_running ≡ true → s' ≡ begin_stop s → Step s s'
  stop_ended :
      s.is_running ≡ false
      → All (λ t. has_ended t ≡ true) s.manager.client_threads
      → s' ≡ end_stop s
      → Step s s'

pub data Reach (s : TcpServer) : TcpServer → Type 0 where
  here : Reach s s
  next : {s' s'' : TcpServer} → Reach s s' → Step s' s'' → Reach s s''
