-- ===== src/Cache.antt =====
-- The cache of crates/server/src/cache, by its files.
pub mod Entry
pub mod Entries
pub mod Ghost
pub mod Index
pub mod Shard
pub mod Store
mod Tests
pub mod Slab
pub mod Table
