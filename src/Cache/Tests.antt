-- ===== src/Cache/Tests.antt =====
-- Runs of the cache on small inputs, over an index that is a list.
use oxicache.Common.{
  ℕ, ◌≤◌, ◌<◌, ◌≡◌, refl, List, [], ◌∷◌, ◌++◌, inl, map, arith, some, false, Bytes, length,
}
use oxicache.Cache.Entry.{Entry, cost}
use oxicache.Cache.Index.Listed.{listed, find, without, same_bytes}
use oxicache.Cache.Shard.{
  Shard, new, set_entry, del, replaced, allocate, make_room, evict_loop, enqueue, maybe_compact,
}
use oxicache.Cache.Ghost.{ghost_take, has}
use oxicache.Cache.Shard.Evict.{Inv}
use oxicache.Cache.Shard.Budget.{new-Inv, set_entry-Inv, del-Inv, Kept}
use oxicache.Cache.Shard.Kills.{AmongThem}
use oxicache.Cache.Store.{Cache, Pending, Item, new_cache, locate, get_in, get_many}
use oxicache.Cache.Store.Batches.{get_many-get_in}
use oxicache.Cache.Slab.{class_of}
use oxicache.Cache.Slab.Classes.{Serves, class_of-Serves}
use oxicache.Cache.Store.Range.{locate-lt}

-- A hash of 64 bits that sends every key to the same place.
abbrev hasher : Bytes → ℕ
hasher key = 12297829382473034410

abbrev an_entry : Entry
an_entry = record { id = 1; key = 7 ∷ []; value = 8 ∷ 9 ∷ []; hash = 12297829382473034410 }

abbrev a_shard : Shard hasher (listed hasher)
a_shard = new hasher (listed hasher) 1000

abbrev stored : Shard hasher (listed hasher)
stored = (set_entry hasher (listed hasher) a_shard an_entry).0

abbrev a_cache : Cache hasher (listed hasher)
a_cache = new_cache hasher (listed hasher) 4000 3

abbrev none_pending : Pending
none_pending = record { entries = 0; bytes = 0 }

abbrev two_items : List Item
two_items = (1, 7 ∷ [], 8 ∷ []) ∷ (2, 9 ∷ [], []) ∷ []

stored-Inv : Inv hasher (listed hasher) [] stored
unfolding new cost find
stored-Inv =
    (set_entry-Inv hasher (listed hasher) a_shard an_entry (new-Inv hasher (listed hasher) 1000)
      (λ x h. absurd h) tt (omega arith)).0

set_entry-Inv_example :
    Inv hasher (listed hasher) [] stored
    × (stored.capacity ≡ a_shard.capacity)
    × (stored.used ≤ a_shard.capacity)
    × Kept hasher (listed hasher) stored an_entry
unfolding new cost find
set_entry-Inv_example =
    set_entry-Inv hasher (listed hasher) a_shard an_entry (new-Inv hasher (listed hasher) 1000)
      (λ x h. absurd h) tt (omega arith)

-- The index gives back the entry that is queued.
gives_back :
    AmongThem
      ((listed hasher).remove stored.table (hasher (7 ∷ [])) (7 ∷ [])).1
      (stored.small ++ stored.main)
unfolding set_entry replaced allocate make_room evict_loop enqueue maybe_compact ghost_take has find
    without same_bytes new cost
gives_back = inl refl

del-Inv_example :
    Inv hasher (listed hasher) [] ((del hasher (listed hasher) stored (hasher (7 ∷ [])) (7 ∷ [])).0)
    × ((del hasher (listed hasher) stored (hasher (7 ∷ [])) (7 ∷ [])).0.capacity ≡ stored.capacity)
    × ((e : Entry)
        → ((listed hasher).remove stored.table (hasher (7 ∷ [])) (7 ∷ [])).1 ≡ some e
        → (del hasher (listed hasher) stored (hasher (7 ∷ [])) (7 ∷ [])).0.live e.id ≡ false)
del-Inv_example =
    del-Inv hasher (listed hasher) stored (hasher (7 ∷ [])) (7 ∷ []) stored-Inv gives_back

get_many-get_in_example :
    (get_many hasher (listed hasher) a_cache ((7 ∷ []) ∷ (9 ∷ []) ∷ [])).1
    ≡ map (λ k. (get_in hasher (listed hasher) a_cache k).1) ((7 ∷ []) ∷ (9 ∷ []) ∷ [])
get_many-get_in_example = get_many-get_in hasher (listed hasher) a_cache ((7 ∷ []) ∷ (9 ∷ []) ∷ [])

locate-lt_example :
    (locate hasher (listed hasher) (new_cache hasher (listed hasher) 4000 3) (7 ∷ [])).0
    < length ((new_cache hasher (listed hasher) 4000 3).shards)
locate-lt_example = locate-lt hasher (listed hasher) 4000 3 (7 ∷ []) (omega arith)

class_of-Serves_example : (c : ℕ) × (class_of 3000 ≡ some c) × Serves 3000 c
class_of-Serves_example = class_of-Serves 3000 (omega arith) (omega arith)
