-- ===== src/Client.antt =====
-- The connection's loop of server/tcp_server.cpp, `TCPServer::handleClient`: bytes are read into a
-- buffer, and every complete request at its front is parsed, taken off and answered. The replies are
-- kept in the order in which they are sent; what the socket does with them is not modelled.
pub mod Progress
pub mod Chunks
pub mod Stuck
pub mod Requests
pub mod Answers
use cpp_redis.Prelude.{
  ℕ, zero, suc, ◌+◌, Option, none, some, List, [], ◌∷◌, ◌++◌, Bytes, length, drop,
}
use cpp_redis.Resp.Value.{RespValue}
use cpp_redis.Resp.Parser.{parse, to_string_vector}
use cpp_redis.Handler.{Env, CommandHandler, process_command}

-- `served` counts the commands; the environment of the next command is given by that count.
pub record Client : Type 0 where
  pub buffer : Bytes
  pub handler : CommandHandler
  pub sent : Bytes
  pub served : ℕ

-- An empty reply is not sent, which adds nothing here.
unfoldable pub serve : (ℕ → Env) → List Bytes → ℕ → Client → Client
serve envs args consumed c =
    let (resp, handler) = process_command (envs c.served) args c.handler in
    record c {
      buffer = drop consumed c.buffer;
      handler = handler;
      sent = c.sent ++ resp;
      served = c.served + 1;
    }

-- How the inner loop ends: it waits for more bytes, or an exception ends the connection, or the
-- rounds that it was given are over.
pub data Drained : Type 0 where
  waiting : Client → Drained
  threw : Drained
  exhausted : Drained

-- `while (true)` with a number of rounds.
unfoldable pub drain : (ℕ → Env) → ℕ → Client → Drained
drain envs zero c = exhausted
drain envs (suc rounds) c = elim (parse c.buffer) [
  | none ↦ waiting c
  | some (value, consumed) ↦ elim (to_string_vector value) [
    | none ↦ threw
    | some args ↦ drain envs rounds (serve envs args consumed c)
  ]
]

-- One `read` and the inner loop; every round but the last takes a byte off the buffer.
unfoldable pub receive : (ℕ → Env) → Bytes → Client → Drained
receive envs chunk c =
    let buffer = c.buffer ++ chunk in
    drain envs (suc (length buffer)) (record c { buffer = buffer })

-- The outer loop over the chunks that `read` returns.
unfoldable pub receive_all : (ℕ → Env) → List Bytes → Client → Drained
receive_all envs [] c = waiting c
receive_all envs (chunk ∷ chunks) c = elim (receive envs chunk c) [
  | waiting c' ↦ receive_all envs chunks c'
  | threw ↦ threw
  | exhausted ↦ exhausted
]
