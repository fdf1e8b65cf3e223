-- ===== src/Connections.antt =====
-- server/connection_manager.cpp: the threads of the connections and their count. A thread is added
-- by the acceptor, and counts itself in and out; these steps interleave in any order.
pub mod Capacity
use cpp_redis.Prelude.{
  ℕ, ◌+◌, ◌-◌, ◌≡◌, Bool, true, false, Option, none, some, List, [], ◌∷◌, ◌++◌, length, get_elem?,
  set, All, ltb, leb, if◌then◌else◌,
}

-- A `std::thread`: before and after its `active_connections++`, behind its `active_connections--`,
-- and joined.
pub data Thread : Type 0 where
  spawned running finished joined : Thread

-- A thread whose function has returned is joinable until it is joined.
unfoldable pub joinable : Thread → Bool
joinable spawned = true
joinable running = true
joinable finished = true
joinable joined = false

abbrev pub max_clients : ℕ
max_clients = 100

pub record ConnectionManager : Type 0 where
  pub client_threads : List Thread
  pub active_connections : ℕ

abbrev pub new_manager : ConnectionManager
new_manager = record { client_threads = []; active_connections = 0 }

unfoldable pub can_accept_new_connection : ConnectionManager → Bool
can_accept_new_connection m = ltb m.active_connections max_clients

-- std::remove_if and erase
unfoldable pub keep_joinable : List Thread → List Thread
keep_joinable [] = []
keep_joinable (t ∷ ts) = let rest = keep_joinable ts in if joinable t then t ∷ rest else rest

unfoldable pub cleanup_finished_threads : ConnectionManager → ConnectionManager
cleanup_finished_threads m = record m { client_threads = keep_joinable m.client_threads }

-- `none` is the exception "Maximum connections reached".
unfoldable pub add_connection : ConnectionManager → Option ConnectionManager
add_connection m =
    let m' = cleanup_finished_threads m in
    if leb max_clients (length m'.client_threads)
    then none
    else some (record m' { client_threads = m'.client_threads ++ spawned ∷ [] })

-- Every thread is joined, which waits for its end, and the vector is cleared.
unfoldable pub stop_all_connections : ConnectionManager → ConnectionManager
stop_all_connections m = record { client_threads = []; active_connections = 0 }

-- A thread's own steps, at its place in the vector.
unfoldable pub count_in : ℕ → ConnectionManager → ConnectionManager
count_in i m = record {
  client_threads = set m.client_threads i running;
  active_connections = m.active_connections + 1;
}

unfoldable pub count_out : ℕ → ConnectionManager → ConnectionManager
count_out i m = record {
  client_threads = set m.client_threads i finished;
  active_connections = m.active_connections - 1;
}

-- A step of the running server. An exception of `addConnection` leaves the state that the clean-up
-- left.
pub data Step (m m' : ConnectionManager) : Type 0 where
  added : add_connection m ≡ some m' → Step m m'
  refused : add_connection m ≡ none → m' ≡ cleanup_finished_threads m → Step m m'
  began : (i : ℕ) → get_elem? m.client_threads i ≡ some spawned → m' ≡ count_in i m → Step m m'
  ended : (i : ℕ) → get_elem? m.client_threads i ≡ some running → m' ≡ count_out i m → Step m m'

-- The steps that the server makes before it is stopped.
pub data Reach (m : ConnectionManager) : ConnectionManager → Type 0 where
  here : Reach m m
  next : {m' m'' : ConnectionManager} → Reach m m' → Step m' m'' → Reach m m''
