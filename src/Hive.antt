-- ===== src/Hive.antt =====
-- libwebtester/hive.c: the tree of the configuration.
pub mod Lexer
pub mod Tree
pub mod Parser
pub mod Shorter
pub mod Fuel
pub mod Invariant
pub mod Find
pub mod Open
pub mod Written
pub mod RoundTrip
mod Examples
