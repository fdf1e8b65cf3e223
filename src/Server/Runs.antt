-- ===== src/Server/Runs.antt =====
-- Runs of the server in which only some kinds of steps are taken.
use cpp_redis.Prelude.{ℕ, ◌≡◌, not, Bool, true, false, ◌==◌}
use cpp_redis.Server.{
  TcpServer, Step, started, accept_failed, accepted, began, waited, read, disconnected, served,
  left, ended, stop_begun, stop_ended, Reach, here, next,
}

-- A kind of steps.
abbrev pub Kind : Type 0
Kind = (s s' : TcpServer) → Step s s' → Bool

-- The steps from `s` are all of a kind.
pub data Run (kind : Kind) (s : TcpServer) : TcpServer → Type 0 where
  stays : Run kind s s
  goes :
      {s' s'' : TcpServer} (run : Run kind s s') (step : Step s' s'')
      → kind s' s'' step ≡ true
      → Run kind s s''

-- The steps of a server that is shut down: nothing connects, no bytes are read, and no thread calls
-- `read` any more. Threads begin, serve what is complete in their buffers, leave their loops and end, a
-- thread inside `read` by `read` returning nothing.
abbrev pub is_quiet : Kind
is_quiet s s' (started b l error e) = false
is_quiet s s' (accept_failed e) = false
is_quiet s s' (accepted socket fresh e) = false
is_quiet s s' (began i h e) = true
is_quiet s s' (waited i c runs h out stuck e) = false
is_quiet s s' (read i chunk c some_bytes h inside e) = false
is_quiet s s' (disconnected i c h inside e) = true
is_quiet s s' (served i env c v n args h out p a e) = true
is_quiet s s' (left i c halted h out stuck e) = true
is_quiet s s' (ended i c h k shut e) = true
is_quiet s s' (stop_begun runs e) = true
is_quiet s s' (stop_ended halted all e) = true

-- All steps but those in which the call of `read` by thread `i` returns.
abbrev pub is_idle : ℕ → Kind
is_idle i s s' (read j chunk c some_bytes h inside e) = not (j == i)
is_idle i s s' (disconnected j c h inside e) = not (j == i)
is_idle i s s' _ = true

pub Run-trans : {kind : Kind} {s t u : TcpServer} → Run kind s t → Run kind t u → Run kind s u
Run-trans r stays = r
Run-trans r (goes q step h) = goes (Run-trans r q) step h

pub Run-Reach : {kind : Kind} {s t : TcpServer} → Run kind s t → Reach s t
Run-Reach stays = here
Run-Reach (goes r step h) = next (Run-Reach r) step
