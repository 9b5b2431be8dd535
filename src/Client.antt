-- ===== src/Client.antt =====
-- The Rust client of crates/client-rs: the consistent-hash ring and the failure policy.
pub mod Ring
pub mod Health
pub mod Cluster
pub mod Outcome
pub mod Link
pub mod Replies
mod Tests
