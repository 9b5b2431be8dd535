-- ===== src/Cache/Ghost.antt =====
-- The ghost queue of crates/server/src/cache/s3fifo.rs: hashes of entries that were evicted.
use oxicache.Common.{
  ℕ, List, [], ◌∷◌, ◌++◌, Bool, true, false, if◌then◌else◌, ltb, ◌==◌, max, length,
}
use oxicache.Cache.Entry.{ghost_min}

-- `order` is a deque, `set` a hash set: the numbers in it.
pub record Ghost : Type 0 where
  pub order : List ℕ
  pub set : List ℕ

unfoldable pub has : ℕ → List ℕ → Bool
has h [] = false
has h (x ∷ xs) = if x == h then true else has h xs

unfoldable pub without : ℕ → List ℕ → List ℕ
without h [] = []
without h (x ∷ xs) = let rest = without h xs in if x == h then rest else x ∷ rest

-- Whether the hash was there, and the list without it.
unfoldable pub ghost_take : Ghost → ℕ → Bool × Ghost
ghost_take g h = (has h g.set, record g { set = without h g.set })

unfoldable pub trim : List ℕ → List ℕ → ℕ → Ghost
trim [] set limit = record { order = []; set = set }
trim (old ∷ order) set limit =
    let rest = trim order (without old set) limit in
    if ltb (max limit ghost_min) (length (old ∷ order))
    then rest
    else record { order = old ∷ order; set = set }

unfoldable pub ghost_push : Ghost → ℕ → ℕ → Ghost
ghost_push g h limit =
    if has h g.set then trim g.order g.set limit else trim (g.order ++ (h ∷ [])) (h ∷ g.set) limit
