-- ===== src/Client/Cluster.antt =====
-- crates/client-rs/src/cluster.rs: which server a key goes to, what a call's outcome says of its
-- server, and the merge of several servers' batch replies. Errors carry what this code reads.
pub mod Batch
pub mod Places
pub mod Merged
pub mod Gathered
pub mod Shares
pub mod Asked
pub mod Scattered
pub mod Finished
mod Tests
use oxicache.Common.{ℕ, ◌+◌, ◌%◌, List, [], ◌∷◌, ◌++◌, Option}
use oxicache.Common.{
  Bool, true, false, if◌then◌else◌, leb, ◌==◌, length, set, get_or, Bytes, u32_mod, Result, ok, err,
}
use oxicache.Wire.{DecodeError, Status}
use oxicache.Wire.Frames.{Frames, frames, collect_loop}
use oxicache.Client.Ring.{Point, locate}
use oxicache.Client.Health.{Failover, is_up, answered, failed}

pub data Error : Type 0 where
  io closed serialize deserialize pem tls : Error
  refused : Status → Error
  invalid_status response_too_large too_many_items : ℕ → Error
  decode : DecodeError → Error
  count : ℕ → ℕ → Error

unfoldable pub unreachable : Error → Bool
unreachable Error.io = true
unreachable Error.closed = true
unreachable (Error.invalid_status b) = true
unreachable (Error.refused Status.unauthorized) = true
unreachable _ = false

-- The health words of the servers stand for the servers.
unfoldable pub index : List ℕ → List Point → Bytes → ℕ → ℕ
index words points key now =
    if length words == 1 then 0 else locate points key (λ i. is_up (get_or words i 0) now)

unfoldable pub note {ℓ} : {A : Type ℓ} → Option Failover → ℕ → ℕ → Result Error A → ℕ
note failover now word (ok a) = answered word
note failover now word (err e) = if unreachable e then failed failover now word else answered word

-- A reply in the merged buffer: its status, its offset and its length.
abbrev pub Place : Type 0
Place = ℕ × ℕ × ℕ

unfoldable pub fill_places : Bytes → List Place → List (ℕ × Bytes) → List ℕ → Bytes × List Place
fill_places merged places ((status, body) ∷ replies) (i ∷ items) =
    fill_places (merged ++ body)
      (set places i (status, length merged % u32_mod, length body % u32_mod)) replies items
fill_places merged places [] items = (merged, places)
fill_places merged places (reply ∷ replies) [] = (merged, places)

unfoldable pub merge_frames :
    Bytes → List Place → List ℕ → Result DecodeError Frames → Result Error (Bytes × List Place)
merge_frames merged places items (err e) = err (Error.decode e)
merge_frames merged places items (ok f) =
    if f.left == length items
    then ok (fill_places merged places (collect_loop f.left f) items)
    else err (Error.count (length items) f.left)

unfoldable pub merge : Bytes → List Place → List ℕ → Bytes → Result Error (Bytes × List Place)
merge merged places items replies =
    let total = length merged + length replies in
    if leb u32_mod total
    then err (Error.response_too_large total)
    else merge_frames merged places items (frames replies)
