-- ===== src/Tests/Server.antt =====
-- Examples for the server with its acceptor, its connections and its stop.
use cpp_redis.Prelude.{◌≡◌, refl, true, false, some, [], ◌∷◌, All, leb, if◌then◌else◌}
use cpp_redis.Prelude.Int.{pos}
use cpp_redis.Resp.Parser.{parse, parse_value}
use cpp_redis.Connections.{
  max_clients, running, add_connection, cleanup_finished_threads, keep_joinable,
  can_accept_new_connection, count_in,
}
use cpp_redis.Server.{
  TcpServer, with_fd, start, accept_round, handed_over, keep_connections, new_connection, started,
  accepted, began, waited, stop_begun, Connection, enter_read, begin_stop, has_ended, Reach, here,
  next,
}
use cpp_redis.Server.Invariant.{IsSound, admitted}
use cpp_redis.Server.Sound.{server-IsSound, accept_round_exact}
use cpp_redis.Server.Stop.{IsStopped, stop_completes}
use cpp_redis.Server.Runs.{Run, stays, goes, is_quiet, is_idle}
use cpp_redis.Server.Reading.{Reads}
use cpp_redis.Server.Idle.{idle_client_holds_stop}
use cpp_redis.Tests.{env}

-- A started server that has accepted a connection on socket 5, whose thread has begun.
abbrev one_client : TcpServer
one_client = record (with_fd 6379 3 (pos 0)) {
  is_running = true;
  manager = record { client_threads = running ∷ []; active_connections = 1 };
  connections = new_connection 5 ∷ [];
  open_sockets = 5 ∷ [];
}

Reach-one_client : Reach (with_fd 6379 3 (pos 0)) one_client
unfolding start accept_round handed_over keep_connections add_connection cleanup_finished_threads
    keep_joinable can_accept_new_connection count_in
Reach-one_client =
    next (next (next here (started false false [] refl)) (accepted 5 refl refl)) (began 0 refl refl)

server-IsSound_example : IsSound one_client
server-IsSound_example = server-IsSound 6379 3 (pos 0) {s = one_client} Reach-one_client

accept_round_exact_example :
    accept_round (some 7) one_client
    ≡ (if leb max_clients 1 then one_client else admitted 7 one_client)
accept_round_exact_example = accept_round_exact 6379 3 (pos 0) {s = one_client} 7 Reach-one_client

stop_completes_example : (s' : TcpServer) × Run is_quiet one_client s' × IsStopped s'
stop_completes_example = stop_completes env 6379 3 (pos 0) {s = one_client} Reach-one_client

-- The thread of the one client is inside `read`.
abbrev reading : Connection
reading = record (new_connection 5) { is_reading = true }

abbrev idle_client : TcpServer
idle_client = record one_client { connections = reading ∷ [] }

Reach-idle_client : Reach (with_fd 6379 3 (pos 0)) idle_client
unfolding enter_read parse parse_value
Reach-idle_client = next Reach-one_client (
    waited 0 (new_connection 5) refl (record { thread = refl; variables = refl; not_closed = refl })
      refl refl refl)

Reads-idle_client : Reads idle_client 0 reading
Reads-idle_client = record {
  handles = record { thread = refl; variables = refl; not_closed = refl };
  inside = refl;
}

idle_stop : Run (is_idle 0) idle_client (begin_stop idle_client)
idle_stop = goes stays (stop_begun refl refl) refl

idle_client_holds_stop_example :
    Reads (begin_stop idle_client) 0 reading
    × ¬ All (λ t. has_ended t ≡ true) (begin_stop idle_client).manager.client_threads
idle_client_holds_stop_example =
    idle_client_holds_stop 6379 3 (pos 0) 0 reading {s = idle_client} {s' = begin_stop idle_client}
      Reach-idle_client Reads-idle_client idle_stop
