-- ===== src/Server/Sockets.antt =====
-- The open sockets of the server and the connections that hold them.
use cpp_redis.Prelude.{
  ℕ, zero, suc, ◌+◌, ◌<◌, ◌≡◌, refl, ap, true, false, some, List, [], ◌∷◌, ◌++◌, arith, All,
  get_elem?, set, ◌==◌, if◌then◌else◌,
}
use cpp_redis.Connections.{Thread, spawned, running, finished, joined, joinable}
use cpp_redis.Server.{Connection, new_connection, keep_connections, close_socket, has_ended, count}

-- A thread that waits to run has its socket open, and one that has ended has closed it.
abbrev Fit : Thread → Connection → Type 0
Fit spawned c = c.is_open ≡ true
Fit running c = Unit
Fit finished c = c.is_open ≡ false
Fit joined c = ⊥

abbrev pub Paired : List Thread → List Connection → Type 0
Paired [] [] = Unit
Paired [] (c ∷ cs) = ⊥
Paired (t ∷ ts) [] = ⊥
Paired (t ∷ ts) (c ∷ cs) = Fit t c × Paired ts cs

-- How many connections hold a socket open, 0 or 1 for each of them.
abbrev pub holds : ℕ → Connection → ℕ
holds n c = if c.is_open then (if n == c.socket then 1 else 0) else 0

abbrev pub open_count : ℕ → List Connection → ℕ
open_count n [] = 0
open_count n (c ∷ cs) = holds n c + open_count n cs

pub Paired-append :
    (ts : List Thread) (cs : List Connection) (socket : ℕ)
    → Paired ts cs
    → Paired (ts ++ spawned ∷ []) (cs ++ new_connection socket ∷ [])
Paired-append [] [] socket p = (refl, tt)
Paired-append [] (c ∷ cs) socket p = absurd p
Paired-append (t ∷ ts) [] socket p = absurd p
Paired-append (t ∷ ts) (c ∷ cs) socket p = (p.0, Paired-append ts cs socket p.1)

pub Paired-began :
    (ts : List Thread) (cs : List Connection) (i : ℕ)
    → get_elem? ts i ≡ some spawned
    → Paired ts cs
    → Paired (set ts i running) cs
Paired-began [] cs i h p = p
Paired-began (t ∷ ts) [] i h p = absurd p
Paired-began (t ∷ ts) (c ∷ cs) zero h p = (tt, p.1)
Paired-began (t ∷ ts) (c ∷ cs) (suc i) h p = (p.0, Paired-began ts cs i h p.1)

pub Paired-ended :
    (ts : List Thread) (cs : List Connection) (i : ℕ) (c : Connection)
    → get_elem? cs i ≡ some c
    → c.is_open ≡ false
    → Paired ts cs
    → Paired (set ts i finished) cs
Paired-ended [] cs i c h k p = p
Paired-ended (t ∷ ts) [] i c h k p = absurd p
Paired-ended (t ∷ ts) (d ∷ cs) zero c h k p = (ground arith, p.1)
Paired-ended (t ∷ ts) (d ∷ cs) (suc i) c h k p = (p.0, Paired-ended ts cs i c h k p.1)

pub Paired-set :
    (ts : List Thread) (cs : List Connection) (i : ℕ) (c : Connection)
    → get_elem? ts i ≡ some running
    → Paired ts cs
    → Paired ts (set cs i c)
Paired-set [] cs i c h p = cc
Paired-set (t ∷ ts) [] i c h p = absurd p
Paired-set (running ∷ ts) (d ∷ cs) zero c h p = (tt, p.1)
Paired-set (spawned ∷ ts) (d ∷ cs) zero c h p = cc
Paired-set (finished ∷ ts) (d ∷ cs) zero c h p = cc
Paired-set (joined ∷ ts) (d ∷ cs) zero c h p = cc
Paired-set (t ∷ ts) (d ∷ cs) (suc i) c h p = (p.0, Paired-set ts cs i c h p.1)

pub keep_connections-Paired :
    (ts : List Thread) (cs : List Connection) → Paired ts cs → keep_connections ts cs ≡ cs
unfolding keep_connections joinable
keep_connections-Paired [] cs p = refl
keep_connections-Paired (t ∷ ts) [] p = absurd p
keep_connections-Paired (spawned ∷ ts) (c ∷ cs) p =
    ap (λ l. c ∷ l) (keep_connections-Paired ts cs p.1)
keep_connections-Paired (running ∷ ts) (c ∷ cs) p =
    ap (λ l. c ∷ l) (keep_connections-Paired ts cs p.1)
keep_connections-Paired (finished ∷ ts) (c ∷ cs) p =
    ap (λ l. c ∷ l) (keep_connections-Paired ts cs p.1)
keep_connections-Paired (joined ∷ ts) (c ∷ cs) p = absurd p.0

-- When all threads have ended, no connection holds a socket.
pub open_count_ended :
    (n : ℕ) (ts : List Thread) (cs : List Connection)
    → Paired ts cs
    → All (λ t. has_ended t ≡ true) ts
    → open_count n cs ≡ 0
unfolding has_ended
open_count_ended n [] [] p h = refl
open_count_ended n [] (c ∷ cs) p h = absurd p
open_count_ended n (t ∷ ts) [] p h = absurd p
open_count_ended n (spawned ∷ ts) (c ∷ cs) p h = cc (h.0)
open_count_ended n (running ∷ ts) (c ∷ cs) p h = cc (h.0)
open_count_ended n (finished ∷ ts) (c ∷ cs) p h =
    ground (arith, p.0, open_count_ended n ts cs p.1 h.1)
open_count_ended n (joined ∷ ts) (c ∷ cs) p h = absurd p.0

pub open_count-append :
    (n socket : ℕ) (cs : List Connection)
    → open_count n (cs ++ new_connection socket ∷ [])
      ≡ (if n == socket then 1 else 0) + open_count n cs
open_count-append n socket [] = refl
open_count-append n socket (c ∷ cs) = omega (arith, open_count-append n socket cs)

pub open_count-set :
    (n : ℕ) (cs : List Connection) (i : ℕ) (c c' : Connection)
    → get_elem? cs i ≡ some c
    → open_count n (set cs i c') + holds n c ≡ open_count n cs + holds n c'
open_count-set n [] i c c' h = cc
open_count-set n (d ∷ cs) zero c c' h = ground arith
open_count-set n (d ∷ cs) (suc i) c c' h = omega (arith, open_count-set n cs i c c' h)

pub count-close_socket :
    (n m : ℕ) (ns : List ℕ)
    → 0 < count m ns
    → count n (close_socket m ns) + (if n == m then 1 else 0) ≡ count n ns
unfolding close_socket
count-close_socket n m [] h = absurd (omega arith)
count-close_socket n m (k ∷ ns) h = ground (arith, count-close_socket n m ns)
