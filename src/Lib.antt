-- ===== src/Lib.antt =====
-- A verification library for CppRedis, a server that speaks the Redis protocol (RESP2).
--
-- The program: server/tcp_server.cpp accepts connections and hands each to a thread of
-- server/connection_manager.cpp. The thread reads bytes into a buffer, resp/resp_parser.cpp takes complete
-- requests off its front, redis/command_handler.cpp finds the command by its name, and the commands of
-- redis/commands/ read and change the one database of redis/database/ and reply with the bytes that
-- resp/resp_formatter.cpp makes. All these paths are below src/ of the repository.
--
-- Files and the code that they model:
--   Utils.antt            utils/utility_functions.cpp; Utils/Glob.antt holds the reference definition of matchPattern
--   Logger.antt           utils/logger.cpp, as the bytes that it writes
--   Number.antt           std::stoll and std::to_string, as documented, which that code calls
--   Resp/Value.antt       resp/resp_value.h and resp/resp_value.cpp
--   Resp/Formatter.antt   resp/resp_formatter.cpp
--   Resp/Parser.antt      resp/resp_parser.cpp; Resp/Parser/ holds its lemmas
--   Resp/Print.antt       RESPParser::printValue of resp/resp_parser.cpp, as the text that it writes
--   Resp/PlainText.antt   parsePlainText of resp/resp_parser.cpp
--   Database.antt         redis/database/; View and Invariant hold what is shown of it
--   Commands/*.antt       redis/commands/*.cpp, a file for each; the folders hold the lemmas
--   Commands/Abstract.antt  abstract commands, on what one key shows; the Refines files take the commands to them
--   Handler.antt          redis/command_handler.cpp; Handler/Abstract.antt is a machine on what all keys show
--   Client.antt           TCPServer::handleClient of server/tcp_server.cpp
--   Connections.antt      server/connection_manager.cpp
--   Threads.antt          the pointers that getValue of redis/database/ returns, used by the commands
--                         outside of the lock while other threads run; the commands' accesses are in
--                         Threads/Commands.antt, Readers.antt and Writers.antt
--   Server.antt           server/tcp_server.cpp and server/tcp_server.h, with Client and Connections inside
--                         and with the runs that take only some kinds of its steps in Server/Runs.antt
--   Prelude.antt          shared types, lists over native numbers, byte strings, association lists
--   Tests.antt            concrete inputs; the files of Tests/ run the model on them
-- A C++ name like cmdLpush is written cmd_lpush here. A function that changes the database takes it and
-- returns it; a function of the parser returns none where the source returns false, and the
-- remaining bytes in place of the advanced position.
--
-- Choices of the model: a byte is a number and a string a list of bytes. A clock reading is a number of
-- nanoseconds that is the same throughout one command. A long long and the clock are integers
-- whose sums and products wrap around at 64 bits. Counts and sizes are unbounded, where the source has
-- machine integers that no data of a real size exceeds; total_commands_processed wraps at 64 bits. A
-- std::unordered_map is kept in the order of insertion. std::regex and the random draw of SPOP are
-- parameters of the commands that use them. Server.antt lets the acceptor, the threads of the connections
-- and the stop interleave in any order, a command being one step; a thread inside read goes on only when
-- read returns, with bytes or because the client has disconnected. Threads.antt interleaves accesses of
-- commands that have one key instead: a call of the database, which holds its lock, or a read or a write
-- through a pointer from getValue, which does not; two such accesses at the same moment are taken one
-- after the other. In between, other threads may run the clean-up of every hundredth command or FLUSHALL,
-- which erase elements of any key. A pointer dangles once its element is erased, and its use is then
-- undefined, which ends the run. The order of the two calls of the acceptor on the connection manager is
-- kept, without another step between them. The results of socket, setsockopt, bind, listen, accept and read
-- are arguments.
--
-- Termination: the parser's depth is a structural argument that starts at MAX_DEPTH + 1 levels; the loop
-- over the buffer has a number of rounds that starts at one more than the buffer's length, and each
-- request takes at least one byte; matchPattern has one round for each pair of positions, and
-- parsePlainText one more than its input has bytes. Other loops follow a list.
--
-- Not modelled: main.cpp, the calls of the logger and other output to the console, the accesses of SET,
-- SPOP and the commands with several keys in Threads.antt, a failing send, a std::regex_match that throws
-- after its expression has compiled, and RedisValue::zset_value (used by nothing).
pub mod Prelude
pub mod Number
pub mod Logger
pub mod Utils
pub mod Resp
pub mod Database
pub mod Commands
pub mod Handler
pub mod Client
pub mod Connections
pub mod Server
pub mod Threads
pub mod Tests
