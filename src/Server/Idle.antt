-- ===== src/Server/Idle.antt =====
-- A stop of the server waits for a client that neither sends nor disconnects.
use mathlib.Core.Path.{subst}
use cpp_redis.Prelude.{
  ℕ, zero, suc, ◌≡◌, refl, sym, inl, inr, true, false, some, List, [], ◌∷◌, arith, All, get_elem?,
}
use cpp_redis.Prelude.Int.{ℤ}
use cpp_redis.Connections.{Thread, running, finished, count_in, count_out}
use cpp_redis.Server.{
  Connection, TcpServer, with_fd, accept_round, enter_read, read_chunk, serve_request,
  close_connection, begin_stop, has_ended, Step, started, accept_failed, accepted, began, waited,
  read, disconnected, served, left, ended, stop_begun, stop_ended, Reach,
}
use cpp_redis.Server.Invariant.{IsSound}
use cpp_redis.Server.Sound.{start_lem, Reach-IsSound, server-IsSound}
use cpp_redis.Server.Runs.{Run, stays, goes, Run-Reach, is_idle}
use cpp_redis.Server.Reading.{
  Reads, changes, Reads-same, Reads-changes, Reads-thread, Reads-accepted, reading-other,
  began-other, closed-other,
}

running_holds :
    (ts : List Thread) (i : ℕ)
    → get_elem? ts i ≡ some running
    → All (λ t. has_ended t ≡ true) ts
    → ⊥
unfolding has_ended
running_holds [] i h all = cc
running_holds (t ∷ ts) zero h all =
    let here : t ≡ running = cc in
    let ends : has_ended running ≡ true = subst (λ u. has_ended u ≡ true) here all.0 in cc
running_holds (t ∷ ts) (suc i) h all = running_holds ts i h all.1

Step-Reads :
    (i : ℕ) (c : Connection) {s s' : TcpServer} (step : Step s s')
    → is_idle i s s' step ≡ true
    → IsSound s
    → Reads s i c
    → Reads s' i c
unfolding enter_read read_chunk serve_request close_connection count_in count_out begin_stop
    accept_round
Step-Reads i c {s} {s'} (started b l error e) idle v h = elim (start_lem b l error s s' e) [
  | inl same ↦ subst (λ x. Reads x i c) (sym same) h
  | inr runs ↦
      subst (λ x. Reads x i c) (sym runs)
        (Reads-same s (record s { is_running = true }) i c refl refl h)
]
Step-Reads i c (accept_failed e) idle v h = subst (λ x. Reads x i c) (sym e) h
Step-Reads i c {s} (accepted socket fresh e) idle v h =
    subst (λ x. Reads x i c) (sym e) (Reads-accepted socket i s c v h)
Step-Reads i c {s} (began j k e) idle v h =
    subst (λ x. Reads x i c) (sym e) (Reads-thread s i j _ c running (began-other s i j c h k) h)
Step-Reads i c {s} (waited j d runs k out stuck e) idle v h =
    subst (λ x. Reads x i c) (sym e)
      (Reads-changes s i j c _ (reading-other s i j c d h k.variables out) h)
Step-Reads i c {s} (read j chunk d some_bytes k inside e) idle v h =
    subst (λ x. Reads x i c) (sym e) (Reads-changes s i j c _ (ground (arith, idle)) h)
Step-Reads i c {s} (disconnected j d k inside e) idle v h =
    let shut = record d { is_open = false } in
    subst (λ x. Reads x i c) (sym e)
      (Reads-same (changes s j shut) (close_connection j d s) i c refl refl
        (Reads-changes s i j c shut (ground (arith, idle)) h))
Step-Reads i c {s} (served j env d w n args k out p a e) idle v h =
    subst (λ x. Reads x i c) (sym e)
      (Reads-same (changes s j _) (serve_request j env args n d s) i c refl refl
        (Reads-changes s i j c _ (reading-other s i j c d h k.variables out) h))
Step-Reads i c {s} (left j d halted k out stuck e) idle v h =
    let shut = record d { is_open = false } in
    subst (λ x. Reads x i c) (sym e)
      (Reads-same (changes s j shut) (close_connection j d s) i c refl refl
        (Reads-changes s i j c shut (reading-other s i j c d h k.variables out) h))
Step-Reads i c {s} (ended j d k l shut e) idle v h =
    subst (λ x. Reads x i c) (sym e)
      (Reads-thread s i j _ c finished (closed-other s i j c d h l shut) h)
Step-Reads i c {s} (stop_begun runs e) idle v h =
    subst (λ x. Reads x i c) (sym e) (Reads-same s (begin_stop s) i c refl refl h)
Step-Reads i c {s} (stop_ended halted all e) idle v h =
    absurd (running_holds s.manager.client_threads i h.handles.thread all)

Run-Reads :
    (i : ℕ) (c : Connection) {s s' : TcpServer}
    → Run (is_idle i) s s'
    → IsSound s
    → Reads s i c
    → Reads s' i c
Run-Reads i c stays v h = h
Run-Reads i c (goes run step idle) v h =
    Step-Reads i c step idle (Reach-IsSound v (Run-Reach run)) (Run-Reads i c run v h)

-- In a state that a new server reaches, thread `i` is inside `read`. In every run from there in which
-- this call of `read` does not return, whatever else happens, a stop included, the thread stays inside
-- `read` with its variables as they are and its socket open, and the wait of `stop` for the threads is
-- not over.
pub idle_client_holds_stop :
    (port fd : ℕ) (start_time : ℤ) (i : ℕ) (c : Connection) {s s' : TcpServer}
    → Reach (with_fd port fd start_time) s
    → Reads s i c
    → Run (is_idle i) s s'
    → Reads s' i c × ¬ All (λ t. has_ended t ≡ true) s'.manager.client_threads
idle_client_holds_stop port fd start_time i c {s} {s'} r h run =
    let h' = Run-Reads i c run (server-IsSound port fd start_time r) h in
    (h', running_holds s'.manager.client_threads i h'.handles.thread)
