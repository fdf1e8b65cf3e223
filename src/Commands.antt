-- ===== src/Commands.antt =====
-- redis/commands/: a command takes the clock, its arguments with the command's name first, and the
-- database, and returns the reply and the database that it leaves.
pub mod Errors
pub mod Abstract
pub mod Strings
pub mod Lists
pub mod Sets
pub mod Hashes
pub mod Ttl
pub mod Server
