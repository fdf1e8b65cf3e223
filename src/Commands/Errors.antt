-- ===== src/Commands/Errors.antt =====
-- The error replies that several commands share.
use cpp_redis.Prelude.{Bytes, codes, ◌++◌}
use cpp_redis.Resp.Formatter.{format_error}

abbrev pub wrong_arity : Bytes → Bytes
wrong_arity name =
    format_error (codes "ERR wrong number of arguments for '" ++ (name ++ codes "' command"))

abbrev pub not_an_integer : Bytes
not_an_integer = format_error (codes "ERR value is not an integer or out of range")

abbrev pub wrong_kind : Bytes
wrong_kind = format_error (codes "ERR Operation against a key holding the wrong kind of value")

abbrev pub syntax_error : Bytes
syntax_error = format_error (codes "ERR syntax error")
