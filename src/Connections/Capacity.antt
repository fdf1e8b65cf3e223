-- ===== src/Connections/Capacity.antt =====
-- The bounds on the connections, and what becomes of finished threads.
use mathlib.Core.Path.{subst}
use cpp_redis.Prelude.{
  ℕ, zero, suc, ◌≤◌, Bool-cases, inl, inr, ◌≡◌, refl, sym, ap, ◌∙◌, true, none, some, List, [], ◌∷◌,
  ◌++◌, length, length-append, get_elem?, set, All, All-append, leb, arith, if◌then◌else◌,
}
use cpp_redis.Connections.{
  Thread, spawned, running, finished, joined, joinable, max_clients, ConnectionManager, new_manager,
  keep_joinable, cleanup_finished_threads, add_connection, count_in, count_out, Step, added,
  refused, began, ended, Reach, here, next,
}

-- How many threads have counted themselves in and not out.
abbrev pub running_count : List Thread → ℕ
running_count [] = 0
running_count (running ∷ ts) = suc (running_count ts)
running_count (t ∷ ts) = running_count ts

pub record IsValid (m : ConnectionManager) : Type 0 where
  pub bounded : length m.client_threads ≤ max_clients
  pub counted : m.active_connections ≡ running_count m.client_threads
  pub unjoined : All (λ t. joinable t ≡ true) m.client_threads

keep_joinable-All : (ts : List Thread) → All (λ t. joinable t ≡ true) ts → keep_joinable ts ≡ ts
unfolding keep_joinable
keep_joinable-All [] h = refl
keep_joinable-All (t ∷ ts) h = rw (h.0, keep_joinable-All ts h.1)

length-set : (ts : List Thread) (i : ℕ) (t : Thread) → length (set ts i t) ≡ length ts
length-set [] i t = refl
length-set (x ∷ ts) zero t = refl
length-set (x ∷ ts) (suc i) t = ap suc (length-set ts i t)

All-set :
    (ts : List Thread) (i : ℕ) (t : Thread)
    → joinable t ≡ true
    → All (λ t. joinable t ≡ true) ts
    → All (λ t. joinable t ≡ true) (set ts i t)
All-set [] i t h k = tt
All-set (x ∷ ts) zero t h k = (h, k.1)
All-set (x ∷ ts) (suc i) t h k = (k.0, All-set ts i t h k.1)

running_count-append : (ts : List Thread) → running_count (ts ++ spawned ∷ []) ≡ running_count ts
running_count-append [] = refl
running_count-append (spawned ∷ ts) = running_count-append ts
running_count-append (running ∷ ts) = ap suc (running_count-append ts)
running_count-append (finished ∷ ts) = running_count-append ts
running_count-append (joined ∷ ts) = running_count-append ts

running_count-began :
    (ts : List Thread) (i : ℕ)
    → get_elem? ts i ≡ some spawned
    → running_count (set ts i running) ≡ suc (running_count ts)
running_count-began [] i h = cc
running_count-began (t ∷ ts) zero h = ground arith
running_count-began (t ∷ ts) (suc i) h = ground (arith, running_count-began ts i h)

running_count-ended :
    (ts : List Thread) (i : ℕ)
    → get_elem? ts i ≡ some running
    → suc (running_count (set ts i finished)) ≡ running_count ts
running_count-ended [] i h = cc
running_count-ended (t ∷ ts) zero h = ground arith
running_count-ended (t ∷ ts) (suc i) h = ground (arith, running_count-ended ts i h)

pub running_count-le : (ts : List Thread) → running_count ts ≤ length ts
running_count-le [] = omega arith
running_count-le (spawned ∷ ts) = omega (arith, running_count-le ts)
running_count-le (running ∷ ts) = omega (arith, running_count-le ts)
running_count-le (finished ∷ ts) = omega (arith, running_count-le ts)
running_count-le (joined ∷ ts) = omega (arith, running_count-le ts)

-- The clean-up before a new connection removes nothing.
pub cleanup_removes_nothing : (m : ConnectionManager) → IsValid m → cleanup_finished_threads m ≡ m
unfolding cleanup_finished_threads
cleanup_removes_nothing m v = rw (keep_joinable-All m.client_threads v.unjoined)

pub add_connection_lem :
    (m : ConnectionManager)
    → IsValid m
    → add_connection m ≡ (
        if leb max_clients (length m.client_threads)
        then none
        else some (record m { client_threads = m.client_threads ++ spawned ∷ [] }))
unfolding add_connection
add_connection_lem m v = rw (cleanup_removes_nothing m v, add_connection)

-- What a step makes of the threads.
pub record Grows (m m' : ConnectionManager) : Type 0 where
  pub valid : IsValid m'
  pub grown : length m.client_threads ≤ length m'.client_threads

added-Grows : (m m' : ConnectionManager) → IsValid m → add_connection m ≡ some m' → Grows m m'
added-Grows m m' v e =
    let choice = sym (add_connection_lem m v) ∙ e in
    elim (Bool-cases (leb max_clients (length m.client_threads))) [
      | inl full ↦ absurd (ground arith)
      | inr room ↦
          let same : record m { client_threads = m.client_threads ++ spawned ∷ [] } ≡ m' =
            ground arith in
          let longer = length-append m.client_threads (spawned ∷ []) in
          subst (Grows m) same (record {
            valid = record {
              bounded = ground arith;
              counted = v.counted ∙ sym (running_count-append m.client_threads);
              unjoined =
                  All-append (λ t. joinable t ≡ true) m.client_threads (spawned ∷ []) v.unjoined
                    (unfold joinable in (refl, tt));
            };
            grown = omega arith;
          })
    ]

began-Grows :
    (m : ConnectionManager) (i : ℕ)
    → IsValid m
    → get_elem? m.client_threads i ≡ some spawned
    → Grows m (count_in i m)
unfolding count_in joinable
began-Grows m i v h =
    let same = length-set m.client_threads i running in
    record {
      valid = record {
        bounded = omega arith;
        counted = omega (arith, running_count-began m.client_threads i h);
        unjoined = All-set m.client_threads i running refl v.unjoined;
      };
      grown = omega arith;
    }

ended-Grows :
    (m : ConnectionManager) (i : ℕ)
    → IsValid m
    → get_elem? m.client_threads i ≡ some running
    → Grows m (count_out i m)
unfolding count_out joinable
ended-Grows m i v h =
    let same = length-set m.client_threads i finished in
    record {
      valid = record {
        bounded = omega arith;
        counted = omega (arith, running_count-ended m.client_threads i h);
        unjoined = All-set m.client_threads i finished refl v.unjoined;
      };
      grown = omega arith;
    }

pub Step-Grows : {m m' : ConnectionManager} → IsValid m → Step m m' → Grows m m'
Step-Grows {m} {m'} v (added e) = added-Grows m m' v e
Step-Grows {m} v (refused e s) =
    subst (Grows m) (sym (s ∙ cleanup_removes_nothing m v))
      (record { valid = v; grown = omega arith })
Step-Grows {m} v (began i h s) = subst (Grows m) (sym s) (began-Grows m i v h)
Step-Grows {m} v (ended i h s) = subst (Grows m) (sym s) (ended-Grows m i v h)

Reach-Grows : {m m' : ConnectionManager} → IsValid m → Reach m m' → Grows m m'
Reach-Grows v here = record { valid = v; grown = omega arith }
Reach-Grows v (next r s) =
    let before = Reach-Grows v r in
    let after = Step-Grows before.valid s in
    record { valid = after.valid; grown = omega (arith, before.grown, after.grown) }

pub IsValid-new_manager : IsValid new_manager
IsValid-new_manager = record { bounded = omega arith; counted = refl; unjoined = tt }

-- Whatever the interleaving of the acceptor and the threads: at most `MAX_CLIENTS` threads are held,
-- and the counter is the number of threads between their `++` and their `--`, which is no more.
pub connections_bounded :
    {m : ConnectionManager}
    → Reach new_manager m
    → (length m.client_threads ≤ max_clients)
      × (m.active_connections ≡ running_count m.client_threads)
      × (m.active_connections ≤ max_clients)
connections_bounded {m} r =
    let v = (Reach-Grows IsValid-new_manager r).valid in
    (v.bounded, v.counted, omega (arith, v.bounded, v.counted, running_count-le m.client_threads))

-- Once `MAX_CLIENTS` connections have been accepted, every later one is refused until the server is
-- stopped, though all of them may have ended and the counter be 0: a finished thread is never
-- taken out of the vector, since it stays joinable.
pub full_forever :
    {m m' : ConnectionManager}
    → Reach new_manager m
    → length m.client_threads ≡ max_clients
    → Reach m m'
    → (add_connection m' ≡ none) × (length m'.client_threads ≡ max_clients)
full_forever {m} {m'} r full later =
    let before = (Reach-Grows IsValid-new_manager r).valid in
    let after = Reach-Grows before later in
    let held : length m'.client_threads ≡ max_clients =
      omega (arith, after.grown, after.valid.bounded) in
    (add_connection_lem m' after.valid ∙ ground arith, held)

-- A connection is added exactly while fewer than `MAX_CLIENTS` threads are held, ended ones
-- included, and it is added behind them.
pub add_connection_exact :
    {m : ConnectionManager}
    → Reach new_manager m
    → add_connection m ≡ (
        if leb max_clients (length m.client_threads)
        then none
        else some (record m { client_threads = m.client_threads ++ spawned ∷ [] }))
add_connection_exact {m} r = add_connection_lem m (Reach-Grows IsValid-new_manager r).valid
