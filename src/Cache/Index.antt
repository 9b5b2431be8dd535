-- ===== src/Cache/Index.antt =====
-- The operations that a shard calls of its index (crates/server/src/cache/table.rs), where a call comes
-- to an end. The record has no laws; Cache/Table is the table itself.
pub mod Listed
use oxicache.Common.{ℕ, Option, Bytes}
use oxicache.Cache.Entry.{Entry}

pub record Index (hash : Bytes → ℕ) : Type 1 where
  pub Table : Type 0
  pub empty : Table
  pub len : Table → ℕ
  pub get : Table → ℕ → Bytes → Option Entry
  pub insert : Table → Entry → Table × Option Entry
  pub remove : Table → ℕ → Bytes → Table × Option Entry
  pub remove_if_same : Table → Entry → Table × Option Entry
