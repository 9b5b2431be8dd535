-- ===== src/Client/Health.antt =====
-- The failure policy of crates/client-rs/src/cluster.rs: what one word keeps about a server.
pub mod Interleave
use oxicache.Common.{ℕ, ◌+◌, ◌-◌, ◌*◌, ◌/◌, ◌%◌, ◌^◌, Option, none, some, min}
use oxicache.Common.{Bool, true, false, if◌then◌else◌, leb, ◌==◌, u64_mod}

-- Failures in a row that drop a server, and the milliseconds until it is tried again.
pub record Failover : Type 0 where
  pub failures : ℕ
  pub retry : ℕ

abbrev pub deadline_max : ℕ
deadline_max = 281474976710655

abbrev pub failures_max : ℕ
failures_max = 65535

abbrev pub healthy : ℕ
healthy = 0

-- The deadline has 48 bits, so the `|` of the source is a sum.
unfoldable pub health : ℕ → ℕ → ℕ
health failures deadline =
    min failures failures_max * (deadline_max + 1) + min deadline deadline_max

unfoldable pub failures : ℕ → ℕ
failures word = word / (deadline_max + 1)

unfoldable pub deadline : ℕ → ℕ
deadline word = word % (deadline_max + 1)

unfoldable pub saturating_add : ℕ → ℕ → ℕ
saturating_add a b = min (a + b) (u64_mod - 1)

unfoldable pub retry : Failover → ℕ
retry policy = min policy.retry (u64_mod - 1)

unfoldable pub is_up : ℕ → ℕ → Bool
is_up word now = leb (deadline word) now

unfoldable pub answered : ℕ → ℕ
answered word = if word == healthy then word else healthy

unfoldable pub next_deadline : Option Failover → ℕ → ℕ → ℕ
next_deadline none now seen = deadline seen
next_deadline (some policy) now seen =
    if leb policy.failures (failures seen + 1)
    then saturating_add now (retry policy)
    else deadline seen

-- The word that `failed` puts in the place of the one that it saw.
unfoldable pub failed : Option Failover → ℕ → ℕ → ℕ
failed failover now seen = health (failures seen + 1) (next_deadline failover now seen)

unfoldable pub drop_out : Failover → ℕ → ℕ
drop_out policy now = health policy.failures (saturating_add now (retry policy))

-- One access to the word that changes it, by any of the calls that share it. `answered` stores
-- after a load that other calls may follow; `failed` exchanges only what it saw.
pub data Step (failover : Option Failover) : ℕ → ℕ → Type 0 where
  clears : {word : ℕ} → Step failover word healthy
  counts : {word : ℕ} (now : ℕ) → Step failover word (failed failover now word)
  drops :
      {word : ℕ} (now : ℕ) (policy : Failover)
      → Path (Option Failover) failover (some policy)
      → Step failover word (drop_out policy now)

pub data Reach (failover : Option Failover) : ℕ → Type 0 where
  start : Reach failover healthy
  step : {word next : ℕ} → Reach failover word → Step failover word next → Reach failover next
