-- ===== src/Server.antt =====
-- The server's front ends: the connection loop of crates/server/src/tcp.rs.
pub mod Connection
pub mod Dispatch
pub mod Http
mod Tests
