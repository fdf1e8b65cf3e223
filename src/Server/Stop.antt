-- ===== src/Server/Stop.antt =====
-- A server that is shut down comes to the end of its stop when its clients disconnect.
use cpp_redis.Prelude.{
  ℕ, zero, suc, ◌<◌, ◌≡◌, refl, ap, ◌∙◌, ◌⊎◌, inl, inr, true, false, some, List, [], ◌∷◌, arith,
  All, length, get_elem?, set, Bool-cases,
}
use cpp_redis.Prelude.Int.{ℤ}
use cpp_redis.Handler.{Env}
use cpp_redis.Connections.{
  stop_all_connections, Thread, spawned, running, finished, joined, ConnectionManager, count_in,
  count_out,
}
use cpp_redis.Server.{
  Connection, TcpServer, with_fd, close_connection, begin_stop, end_stop, has_ended, Handles, count,
  Step, began, disconnected, left, ended, stop_begun, stop_ended, Reach, here, next,
}
use cpp_redis.Server.Sockets.{Paired}
use cpp_redis.Server.Invariant.{IsSound}
use cpp_redis.Server.Sound.{Reach-IsSound, server-IsSound}
use cpp_redis.Server.Progress.{get_elem?-set, drains}
use cpp_redis.Server.Runs.{Run, stays, goes, Run-trans, Run-Reach, is_quiet}

-- How many threads have not ended.
abbrev busy : List Thread → ℕ
busy [] = 0
busy (spawned ∷ ts) = suc (busy ts)
busy (running ∷ ts) = suc (busy ts)
busy (finished ∷ ts) = busy ts
busy (joined ∷ ts) = busy ts

busy-began :
    (ts : List Thread) (i : ℕ)
    → get_elem? ts i ≡ some spawned
    → (busy (set ts i running) ≡ busy ts) × (get_elem? (set ts i running) i ≡ some running)
busy-began [] i h = cc
busy-began (t ∷ ts) zero h = ground arith
busy-began (spawned ∷ ts) (suc i) h = (ap suc (busy-began ts i h).0, (busy-began ts i h).1)
busy-began (running ∷ ts) (suc i) h = (ap suc (busy-began ts i h).0, (busy-began ts i h).1)
busy-began (finished ∷ ts) (suc i) h = busy-began ts i h
busy-began (joined ∷ ts) (suc i) h = busy-began ts i h

busy-ended :
    (ts : List Thread) (i : ℕ)
    → get_elem? ts i ≡ some running
    → suc (busy (set ts i finished)) ≡ busy ts
busy-ended [] i h = cc
busy-ended (t ∷ ts) zero h = ground arith
busy-ended (spawned ∷ ts) (suc i) h = ap suc (busy-ended ts i h)
busy-ended (running ∷ ts) (suc i) h = ap suc (busy-ended ts i h)
busy-ended (finished ∷ ts) (suc i) h = busy-ended ts i h
busy-ended (joined ∷ ts) (suc i) h = busy-ended ts i h

abbrev Busy : List Thread → ℕ → Type 0
Busy ts i = (get_elem? ts i ≡ some spawned) ⊎ (get_elem? ts i ≡ some running)

Busy-later :
    (t : Thread) (ts : List Thread)
    → has_ended t ≡ true
    → All (λ t. has_ended t ≡ true) ts ⊎ ((i : ℕ) × Busy ts i)
    → All (λ t. has_ended t ≡ true) (t ∷ ts) ⊎ ((i : ℕ) × Busy (t ∷ ts) i)
Busy-later t ts h (inl all) = inl (h, all)
Busy-later t ts h (inr (i, b)) = inr (suc i, b)

Busy-cases : (ts : List Thread) → All (λ t. has_ended t ≡ true) ts ⊎ ((i : ℕ) × Busy ts i)
unfolding has_ended
Busy-cases [] = inl tt
Busy-cases (spawned ∷ ts) = inr (0, inl refl)
Busy-cases (running ∷ ts) = inr (0, inr refl)
Busy-cases (finished ∷ ts) = Busy-later finished ts refl (Busy-cases ts)
Busy-cases (joined ∷ ts) = Busy-later joined ts refl (Busy-cases ts)

Paired-get_elem? :
    (ts : List Thread) (cs : List Connection) (i : ℕ) {t : Thread}
    → Paired ts cs
    → get_elem? ts i ≡ some t
    → (c : Connection) × (get_elem? cs i ≡ some c)
Paired-get_elem? [] cs i p h = cc
Paired-get_elem? (t ∷ ts) [] i p h = absurd p
Paired-get_elem? (t ∷ ts) (c ∷ cs) zero p h = (c, refl)
Paired-get_elem? (t ∷ ts) (c ∷ cs) (suc i) p h = Paired-get_elem? ts cs i p.1 h

-- A later state with fewer threads that have not ended.
abbrev Fewer : TcpServer → Type 0
Fewer s =
    (s' : TcpServer) × Run is_quiet s s'
    × (s'.is_running ≡ s.is_running)
    × (busy s'.manager.client_threads < busy s.manager.client_threads)

ends_closed :
    (i : ℕ) (s : TcpServer) (c : Connection)
    → get_elem? s.manager.client_threads i ≡ some running
    → get_elem? s.connections i ≡ some c
    → c.is_open ≡ false
    → Fewer s
unfolding count_out
ends_closed i s c h k shut = (
  record s { manager = count_out i s.manager },
  goes stays (ended i c h k shut refl) refl,
  refl,
  omega (arith, busy-ended s.manager.client_threads i h),
)

-- A thread that leaves its loop in a step closes its socket, and ends in the next.
ends_by_close :
    (i : ℕ) (s : TcpServer) (c : Connection)
    → Handles s i c
    → Run is_quiet s (close_connection i c s)
    → Fewer s
unfolding close_connection
ends_by_close i s c h run =
    let shut = record c { is_open = false } in
    let (s', run', flag, fewer) =
      ends_closed i (close_connection i c s) shut h.thread
        (get_elem?-set s.connections i c shut h.variables) refl in
    (s', Run-trans run run', flag, fewer)

ends_open :
    (env : Env) (i : ℕ) (s : TcpServer) (c : Connection)
    → s.is_running ≡ false
    → Handles s i c
    → Fewer s
ends_open env i s c halted h = elim (Bool-cases c.is_reading) [
  | inl inside ↦ ends_by_close i s c h (goes stays (disconnected i c h inside refl) refl)
  | inr outside ↦
      let d = drains env (suc (length c.buffer)) i s c h outside (omega arith) in
      let (s', run, flag, fewer) = ends_by_close i d.state d.variables d.handles (
        goes stays (left i d.variables (d.same_flag ∙ halted) d.handles d.outside d.stuck refl)
          refl) in
      (
        s',
        Run-trans d.run run,
        flag ∙ d.same_flag,
        omega (arith, fewer, ap (λ (m : ConnectionManager). busy m.client_threads) d.same_manager),
      )
]

ends_running :
    (env : Env) (i : ℕ) (s : TcpServer)
    → IsSound s
    → s.is_running ≡ false
    → get_elem? s.manager.client_threads i ≡ some running
    → Fewer s
ends_running env i s v halted h =
    let (c, k) = Paired-get_elem? s.manager.client_threads s.connections i v.paired h in
    elim (Bool-cases c.is_open) [
      | inl open' ↦
          ends_open env i s c halted (record { thread = h; variables = k; not_closed = open' })
      | inr shut ↦ ends_closed i s c h k shut
    ]

one_less :
    (env : Env) (i : ℕ) (s : TcpServer)
    → IsSound s
    → s.is_running ≡ false
    → Busy s.manager.client_threads i
    → Fewer s
unfolding count_in
one_less env i s v halted (inl h) =
    let s' = record s { manager = count_in i s.manager } in
    let step : Step s s' = began i h refl in
    let (same, there) = busy-began s.manager.client_threads i h in
    let (s'', run, flag, fewer) =
      ends_running env i s' (Reach-IsSound v (next here step)) halted there in
    (s'', Run-trans (goes stays step refl) run, flag, omega (arith, fewer, same))
one_less env i s v halted (inr h) = ends_running env i s v halted h

last_steps :
    (env : Env) (f : ℕ) (s : TcpServer)
    → IsSound s
    → s.is_running ≡ false
    → busy s.manager.client_threads < f
    → (s' : TcpServer) × Run is_quiet s s'
      × (s'.is_running ≡ s.is_running)
      × All (λ t. has_ended t ≡ true) s'.manager.client_threads
last_steps env zero s v halted h = absurd (omega arith)
last_steps env (suc f) s v halted h = elim (Busy-cases s.manager.client_threads) [
  | inl all ↦ (s, stays, refl, all)
  | inr (i, b) ↦
      let (s1, run1, flag1, fewer) = one_less env i s v halted b in
      let (s2, run2, flag2, all) =
        last_steps env f s1 (Reach-IsSound v (Run-Reach run1)) (flag1 ∙ halted) (omega arith) in
      (s2, Run-trans run1 run2, flag2 ∙ flag1, all)
]

-- The state behind `stop`: nothing runs, and no thread, connection or socket is left.
pub record IsStopped (s : TcpServer) : Type 0 where
  pub halted : s.is_running ≡ false
  pub no_threads : s.manager.client_threads ≡ []
  pub no_connections : s.connections ≡ []
  pub no_sockets : (n : ℕ) → count n s.open_sockets ≡ 0

stop_from :
    (env : Env) (s : TcpServer)
    → IsSound s
    → s.is_running ≡ false
    → (s' : TcpServer) × Run is_quiet s s' × IsStopped s'
unfolding end_stop stop_all_connections
stop_from env s v halted =
    let (s1, run, flag, all) =
      last_steps env (suc (busy s.manager.client_threads)) s v halted (omega arith) in
    let step : Step s1 (end_stop s1) = stop_ended (flag ∙ halted) all refl in
    let v' = Reach-IsSound v (next (Run-Reach run) step) in
    (
      end_stop s1,
      goes run step refl,
      record {
        halted = flag ∙ halted;
        no_threads = refl;
        no_connections = refl;
        no_sockets = v'.accounted;
      },
    )

-- From every state that a new server reaches, with any environment for the commands that are still
-- served, a run leads to the end of a stop, where the server is not running and no thread, no
-- connection and no open socket of a connection is left. In this run nothing connects, no client sends
-- anything and no thread calls `read` again; a thread that is inside `read` leaves because its client
-- disconnects.
pub stop_completes :
    (env : Env) (port fd : ℕ) (start_time : ℤ) {s : TcpServer}
    → Reach (with_fd port fd start_time) s
    → (s' : TcpServer) × Run is_quiet s s' × IsStopped s'
unfolding begin_stop
stop_completes env port fd start_time {s} r =
    let v = server-IsSound port fd start_time r in
    elim (Bool-cases s.is_running) [
      | inl runs ↦
          let step : Step s (begin_stop s) = stop_begun runs refl in
          let (s', run, done) =
            stop_from env (begin_stop s) (Reach-IsSound v (next here step)) refl in
          (s', Run-trans (goes stays step refl) run, done)
      | inr halted ↦ stop_from env s v halted
    ]
