-- ===== src/Resp.antt =====
-- The RESP protocol: values, the formatter of replies and the parser of requests (resp/).
pub mod Value
pub mod Formatter
pub mod Parser
pub mod PlainText
pub mod Print
