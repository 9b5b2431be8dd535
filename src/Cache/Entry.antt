-- ===== src/Cache/Entry.antt =====
-- Entries of crates/server/src/cache/s3fifo.rs. `id` stands for the address of the allocation; the
-- frequency and the liveness are atomics of the entry that the shard keeps by this address.
use oxicache.Common.{ℕ, ◌+◌, Bytes, length, if◌then◌else◌, ltb}

pub record Entry : Type 0 where
  pub id : ℕ
  pub key : Bytes
  pub value : Bytes
  pub hash : ℕ

abbrev pub freq_cap : ℕ
freq_cap = 3

abbrev pub entry_overhead : ℕ
entry_overhead = 128

abbrev pub ghost_min : ℕ
ghost_min = 64

abbrev pub nt_min : ℕ
nt_min = 1024

unfoldable pub cost : Entry → ℕ
cost e = length e.key + length e.value + entry_overhead

-- What a write handed to the epoch collector.
pub record Retired : Type 0 where
  pub small : ℕ
  pub large : ℕ
  pub large_bytes : ℕ

abbrev pub nothing : Retired
nothing = record { small = 0; large = 0; large_bytes = 0 }

unfoldable pub one : Entry → Retired
one e =
    if ltb (length e.value) nt_min
    then record { small = 1; large = 0; large_bytes = 0 }
    else record { small = 0; large = 1; large_bytes = cost e }

unfoldable pub add : Retired → Retired → Retired
add a b = record {
  small = a.small + b.small;
  large = a.large + b.large;
  large_bytes = a.large_bytes + b.large_bytes;
}

pub record TooLarge : Type 0 where
  pub cost : ℕ
  pub capacity : ℕ
