-- ===== src/Server/Sound.antt =====
-- What holds of the server however the acceptor, the connections and the stop interleave.
use mathlib.Core.Path.{subst}
use cpp_redis.Prelude.{
  ℕ, ◌<◌, ◌≡◌, refl, sym, ◌∙◌, ◌⊎◌, inl, inr, Bool, true, false, some, List, Bytes, arith, All,
  length, get_elem?, set, leb, if◌then◌else◌, Bool-cases,
}
use cpp_redis.Prelude.Int.{ℤ}
use cpp_redis.Database.Invariant
use cpp_redis.Handler.{Env, new_handler}
use cpp_redis.Handler.Keeps.{process_command-IsValid}
use cpp_redis.Connections.{
  running, spawned, finished, max_clients, ConnectionManager, can_accept_new_connection,
  add_connection, cleanup_finished_threads, stop_all_connections, new_manager, count_in, count_out,
}
use cpp_redis.Connections
use cpp_redis.Connections.Capacity.{IsValid-new_manager, Step-Grows, add_connection_lem}
use cpp_redis.Server.{
  Connection, TcpServer, with_fd, start, accept_round, enter_read, read_chunk, serve_request,
  close_connection, begin_stop, end_stop, has_ended, Handles, count, Step, started, accept_failed,
  accepted, began, waited, read, disconnected, served, left, ended, stop_begun, stop_ended, Reach,
  here, next,
}
use cpp_redis.Server.Sockets.{
  holds, Paired-append, Paired-began, Paired-ended, Paired-set, open_count_ended, open_count-append,
  open_count-set, count-close_socket,
}
use cpp_redis.Server.Invariant.{IsSound, admitted, accept_round_lem}

pub start_lem :
    (b l : Bool) (error : Bytes) (s s' : TcpServer)
    → start b l error s ≡ inr s'
    → (s' ≡ s) ⊎ (s' ≡ record s { is_running = true })
unfolding start
start_lem b l error s s' e = ground arith

running-IsSound : (s : TcpServer) (b : Bool) → IsSound s → IsSound (record s { is_running = b })
running-IsSound s b v = record {
  database = v.database;
  threads = v.threads;
  paired = v.paired;
  accounted = v.accounted;
  single = v.single;
}

started-IsSound :
    (b l : Bool) (error : Bytes) (s s' : TcpServer)
    → IsSound s
    → start b l error s ≡ inr s'
    → IsSound s'
started-IsSound b l error s s' v e = elim (start_lem b l error s s' e) [
  | inl same ↦ subst IsSound (sym same) v
  | inr runs ↦ subst IsSound (sym runs) (running-IsSound s true v)
]

admitted-IsSound :
    (socket : ℕ) (s : TcpServer)
    → IsSound s
    → leb max_clients (length s.manager.client_threads) ≡ false
    → count socket s.open_sockets ≡ 0
    → IsSound (admitted socket s)
admitted-IsSound socket s v room fresh = record {
  database = v.database;
  threads =
      (Step-Grows v.threads
        (Connections.added (add_connection_lem s.manager v.threads ∙ rw room))).valid;
  paired = Paired-append s.manager.client_threads s.connections socket v.paired;
  accounted = λ n. omega (arith, v.accounted n, open_count-append n socket s.connections);
  single = λ n. ground (arith, v.single n, fresh);
}

accepted-IsSound :
    (socket : ℕ) (s : TcpServer)
    → IsSound s
    → count socket s.open_sockets ≡ 0
    → IsSound (accept_round (some socket) s)
accepted-IsSound socket s v fresh =
    elim (Bool-cases (leb max_clients (length s.manager.client_threads))) [
      | inl full ↦ subst IsSound (sym (accept_round_lem socket s v ∙ rw full)) v
      | inr room ↦
          subst IsSound (sym (accept_round_lem socket s v ∙ rw room))
            (admitted-IsSound socket s v room fresh)
    ]

began-IsSound :
    (i : ℕ) (s : TcpServer)
    → IsSound s
    → get_elem? s.manager.client_threads i ≡ some spawned
    → IsSound (record s { manager = count_in i s.manager })
unfolding count_in
began-IsSound i s v h = record {
  database = v.database;
  threads = (Step-Grows v.threads (Connections.began i h refl)).valid;
  paired = Paired-began s.manager.client_threads s.connections i h v.paired;
  accounted = v.accounted;
  single = v.single;
}

ended-IsSound :
    (i : ℕ) (c : Connection) (s : TcpServer)
    → IsSound s
    → get_elem? s.manager.client_threads i ≡ some running
    → get_elem? s.connections i ≡ some c
    → c.is_open ≡ false
    → IsSound (record s { manager = count_out i s.manager })
unfolding count_out
ended-IsSound i c s v h k shut = record {
  database = v.database;
  threads = (Step-Grows v.threads (Connections.ended i h refl)).valid;
  paired = Paired-ended s.manager.client_threads s.connections i c k shut v.paired;
  accounted = v.accounted;
  single = v.single;
}

-- A thread changes its variables, with its socket as open as before.
changed-IsSound :
    (i : ℕ) (c c' : Connection) (s : TcpServer)
    → IsSound s
    → Handles s i c
    → ((n : ℕ) → holds n c' ≡ holds n c)
    → IsSound (record s { connections = set s.connections i c' })
changed-IsSound i c c' s v h same = record {
  database = v.database;
  threads = v.threads;
  paired = Paired-set s.manager.client_threads s.connections i c' h.thread v.paired;
  accounted =
      λ n. omega (arith, v.accounted n, open_count-set n s.connections i c c' h.variables, same n);
  single = v.single;
}

served-IsSound :
    (i : ℕ) (env : Env) (args : List Bytes) (n : ℕ) (c : Connection) (s : TcpServer)
    → IsSound s
    → Handles s i c
    → IsSound (serve_request i env args n c s)
unfolding serve_request
served-IsSound i env args n c s v h =
    let changed = changed-IsSound i c _ s v h (λ m. refl) in
    record {
      database = process_command-IsValid env args s.handler v.database;
      threads = v.threads;
      paired = changed.paired;
      accounted = changed.accounted;
      single = v.single;
    }

closed-IsSound :
    (i : ℕ) (c : Connection) (s : TcpServer)
    → IsSound s
    → Handles s i c
    → IsSound (close_connection i c s)
unfolding close_connection
closed-IsSound i c s v h =
    let c' = record c { is_open = false } in
    let moved = λ (n : ℕ). open_count-set n s.connections i c c' h.variables in
    let there : 0 < count c.socket s.open_sockets =
      ground (arith, v.accounted c.socket, moved c.socket, h.not_closed) in
    record {
      database = v.database;
      threads = v.threads;
      paired = Paired-set s.manager.client_threads s.connections i c' h.thread v.paired;
      accounted = λ n. ground (
        arith,
        v.accounted n,
        moved n,
        count-close_socket n c.socket s.open_sockets there,
        h.not_closed,
      );
      single = λ n. omega (arith, v.single n, count-close_socket n c.socket s.open_sockets there);
    }

stop_ended-IsSound :
    (s : TcpServer)
    → IsSound s
    → All (λ t. has_ended t ≡ true) s.manager.client_threads
    → IsSound (end_stop s)
unfolding end_stop stop_all_connections
stop_ended-IsSound s v h = record {
  database = v.database;
  threads = IsValid-new_manager;
  paired = tt;
  accounted =
      λ n. v.accounted n ∙ open_count_ended n s.manager.client_threads s.connections v.paired h;
  single = v.single;
}

Step-IsSound : {s s' : TcpServer} → IsSound s → Step s s' → IsSound s'
Step-IsSound {s} {s'} v (started b l error e) = started-IsSound b l error s s' v e
Step-IsSound {s} v (accept_failed e) = subst IsSound (sym e) (unfold accept_round in v)
Step-IsSound {s} v (accepted socket fresh e) =
    subst IsSound (sym e) (accepted-IsSound socket s v fresh)
Step-IsSound {s} v (began i h e) = subst IsSound (sym e) (began-IsSound i s v h)
Step-IsSound {s} v (waited i c runs h out stuck e) =
    subst IsSound (sym e) (unfold enter_read in changed-IsSound i c _ s v h (λ n. refl))
Step-IsSound {s} v (read i chunk c some_bytes h inside e) =
    subst IsSound (sym e) (unfold read_chunk in changed-IsSound i c _ s v h (λ n. refl))
Step-IsSound {s} v (disconnected i c h inside e) = subst IsSound (sym e) (closed-IsSound i c s v h)
Step-IsSound {s} v (served i env c w n args h out p a e) =
    subst IsSound (sym e) (served-IsSound i env args n c s v h)
Step-IsSound {s} v (left i c halted h out stuck e) =
    subst IsSound (sym e) (closed-IsSound i c s v h)
Step-IsSound {s} v (ended i c h k shut e) = subst IsSound (sym e) (ended-IsSound i c s v h k shut)
Step-IsSound {s} v (stop_begun runs e) =
    subst IsSound (sym e) (unfold begin_stop in running-IsSound s false v)
Step-IsSound {s} v (stop_ended halted all e) = subst IsSound (sym e) (stop_ended-IsSound s v all)

pub Reach-IsSound : {s s' : TcpServer} → IsSound s → Reach s s' → IsSound s'
Reach-IsSound v here = v
Reach-IsSound v (next r step) = Step-IsSound (Reach-IsSound v r) step

with_fd-IsSound : (port fd : ℕ) (start_time : ℤ) → IsSound (with_fd port fd start_time)
unfolding new_handler
with_fd-IsSound port fd start_time = record {
  database = Invariant.IsValid-nil;
  threads = IsValid-new_manager;
  paired = tt;
  accounted = λ n. refl;
  single = λ n. omega arith;
}

-- In every state that a new server reaches by any interleaving of starts, accepted connections, reads,
-- commands, ends of connections and stops: the database is well formed; at most `MAX_CLIENTS` threads
-- are held and the counter is right; the connections are those of the threads, a thread that has
-- ended having closed its socket; and each open socket is open once and belongs to one connection.
pub server-IsSound :
    (port fd : ℕ) (start_time : ℤ) {s : TcpServer}
    → Reach (with_fd port fd start_time) s
    → IsSound s
server-IsSound port fd start_time r = Reach-IsSound (with_fd-IsSound port fd start_time) r

-- In every state that a new server reaches, a round of the acceptor with a new socket starts a thread
-- for it exactly while fewer than `MAX_CLIENTS` threads are held, ended ones included; otherwise it
-- closes the socket and changes nothing.
pub accept_round_exact :
    (port fd : ℕ) (start_time : ℤ) {s : TcpServer} (socket : ℕ)
    → Reach (with_fd port fd start_time) s
    → accept_round (some socket) s
      ≡ (if leb max_clients (length s.manager.client_threads) then s else admitted socket s)
accept_round_exact port fd start_time {s} socket r =
    accept_round_lem socket s (server-IsSound port fd start_time r)
