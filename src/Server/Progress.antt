-- ===== src/Server/Progress.antt =====
-- A connection of the server can always be worked off until it waits for bytes.
use cpp_redis.Prelude.{
  ℕ, zero, suc, ◌<◌, ◌≡◌, refl, inl, inr, false, none, some, List, [], ◌∷◌, ◌++◌, arith, length,
  length-drop, get_elem?, set, drop, Option-cases,
}
use cpp_redis.Resp.Parser.{parse}
use cpp_redis.Resp.Parser.Consumed.{parse_consumed}
use cpp_redis.Client.Progress.{parse_readable}
use cpp_redis.Handler.{Env, process_command}
use cpp_redis.Server.{Connection, TcpServer, serve_request, Handles, served}
use cpp_redis.Server.Runs.{Run, stays, goes, Run-trans, is_quiet}

pub get_elem?-set :
    (cs : List Connection) (i : ℕ) (c c' : Connection)
    → get_elem? cs i ≡ some c
    → get_elem? (set cs i c') i ≡ some c'
get_elem?-set [] i c c' h = cc
get_elem?-set (d ∷ cs) zero c c' h = refl
get_elem?-set (d ∷ cs) (suc i) c c' h = get_elem?-set cs i c c' h

-- A state in which thread `i` has served all that is complete in its buffer, with the threads and the flag as before.
pub record Drains (s : TcpServer) (i : ℕ) : Type 0 where
  pub state : TcpServer
  pub variables : Connection
  pub run : Run is_quiet s state
  pub handles : Handles state i variables
  pub outside : variables.is_reading ≡ false
  pub stuck : parse variables.buffer ≡ none
  pub same_manager : state.manager ≡ s.manager
  pub same_flag : state.is_running ≡ s.is_running

-- The inner loop of `handleClient` serves what is complete in its buffer, whatever its environment.
pub drains :
    (env : Env) (rounds i : ℕ) (s : TcpServer) (c : Connection)
    → Handles s i c
    → c.is_reading ≡ false
    → length c.buffer < rounds
    → Drains s i
unfolding serve_request
drains env zero i s c h out k = absurd (omega arith)
drains env (suc rounds) i s c h out k = elim (Option-cases (parse c.buffer)) [
  | inl incomplete ↦ record {
    state = s;
    variables = c;
    run = stays;
    handles = h;
    outside = out;
    stuck = incomplete;
    same_manager = refl;
    same_flag = refl;
  }
  | inr ((v, n), complete) ↦
      let (args, read) = parse_readable c.buffer v n complete in
      let (taken, fits, _) = parse_consumed c.buffer v n complete in
      let reply = (process_command env args s.handler).0 in
      let c' : Connection = record c { buffer = drop n c.buffer; sent = c.sent ++ reply } in
      let s' = serve_request i env args n c s in
      let h' : Handles s' i c' = record {
        thread = h.thread;
        variables = get_elem?-set s.connections i c c' h.variables;
        not_closed = h.not_closed;
      } in
      let later = drains env rounds i s' c' h' out (omega (arith, length-drop {0} n c.buffer)) in
      record {
        state = later.state;
        variables = later.variables;
        run =
            Run-trans (goes stays (served i env c v n args h out complete read refl) refl)
              later.run;
        handles = later.handles;
        outside = later.outside;
        stuck = later.stuck;
        same_manager = later.same_manager;
        same_flag = later.same_flag;
      }
]
