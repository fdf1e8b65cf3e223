-- ===== src/Server/Invariant.antt =====
-- The invariant of the server, and the round of its acceptor where it holds.
use cpp_redis.Prelude.{
  ℕ, ◌≤◌, ◌≡◌, inl, inr, true, false, some, [], ◌∷◌, ◌++◌, arith, length, leb, if◌then◌else◌,
  Bool-cases,
}
use cpp_redis.Database.Invariant
use cpp_redis.Connections.{
  spawned, max_clients, ConnectionManager, can_accept_new_connection, add_connection,
}
use cpp_redis.Connections.Capacity
use cpp_redis.Connections.Capacity.{
  running_count, running_count-le, IsValid-new_manager, Step-Grows, add_connection_lem,
  cleanup_removes_nothing,
}
use cpp_redis.Server.{TcpServer, handed_over, accept_round, new_connection, count}
use cpp_redis.Server.Sockets.{Paired, open_count, keep_connections-Paired}

pub record IsSound (s : TcpServer) : Type 0 where
  pub database : Invariant.IsValid s.handler.db
  pub threads : Capacity.IsValid s.manager
  pub paired : Paired s.manager.client_threads s.connections
  pub accounted : (n : ℕ) → count n s.open_sockets ≡ open_count n s.connections
  pub single : (n : ℕ) → count n s.open_sockets ≤ 1

-- The server with one connection more.
abbrev pub admitted : ℕ → TcpServer → TcpServer
admitted socket s = record s {
  manager = record s.manager { client_threads = s.manager.client_threads ++ spawned ∷ [] };
  connections = s.connections ++ new_connection socket ∷ [];
  open_sockets = socket ∷ s.open_sockets;
}

handed_over_lem :
    (socket : ℕ) (s : TcpServer)
    → IsSound s
    → handed_over socket (add_connection s.manager) s
      ≡ (if leb max_clients (length s.manager.client_threads) then s else admitted socket s)
unfolding handed_over
handed_over_lem socket s v =
    let kept = keep_connections-Paired s.manager.client_threads s.connections v.paired in
    rw (add_connection_lem s.manager v.threads)
      (elim (Bool-cases (leb max_clients (length s.manager.client_threads))) [
        | inl full ↦ rw (full, cleanup_removes_nothing s.manager v.threads, kept)
        | inr room ↦ rw (room, kept)
      ])

-- The test of the counter lets through whatever `addConnection` takes.
can_accept_lem :
    (m : ConnectionManager)
    → Capacity.IsValid m
    → leb max_clients (length m.client_threads) ≡ false
    → can_accept_new_connection m ≡ true
unfolding can_accept_new_connection
can_accept_lem m v room = ground (arith, running_count-le m.client_threads)

pub accept_round_lem :
    (socket : ℕ) (s : TcpServer)
    → IsSound s
    → accept_round (some socket) s
      ≡ (if leb max_clients (length s.manager.client_threads) then s else admitted socket s)
unfolding accept_round
accept_round_lem socket s v =
    rw (handed_over_lem socket s v) (ground (arith, can_accept_lem s.manager v.threads))
