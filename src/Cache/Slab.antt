-- ===== src/Cache/Slab.antt =====
-- crates/server/src/cache/slab.rs: size classes, free lists and per-thread magazines. A chunk is its
-- address; the base of a fresh region comes from the operating system and is an argument.
pub mod Classes
use oxicache.Common.{
  ℕ, zero, suc, ◌+◌, ◌-◌, ◌*◌, ◌/◌, ◌%◌, ◌^◌, List, [], ◌∷◌, ◌++◌, Option, none, some, min, max,
}
use oxicache.Common.{Bool, true, false, if◌then◌else◌, ltb, leb, length, take, drop}
use oxicache.Cache.Entries.{update}

abbrev pub max_slab : ℕ
max_slab = 65536

abbrev pub linear_max : ℕ
linear_max = 1024

abbrev pub linear : ℕ
linear = 16

abbrev pub classes : ℕ
classes = 40

abbrev pub batch_bytes : ℕ
batch_bytes = 65536

abbrev pub region : ℕ
region = 8388608

unfoldable pub div_ceil : ℕ → ℕ → ℕ
div_ceil a b = (a + (b - 1)) / b

-- The place of the highest bit, `usize::BITS - 1 - leading_zeros`.
unfoldable pub high_bit : ℕ → ℕ → ℕ
high_bit zero n = 0
high_bit (suc fuel) n = let half = high_bit fuel (n / 2) in if ltb n 2 then 0 else suc half

unfoldable pub class_above : ℕ → ℕ → ℕ
class_above size k = linear + 4 * (k - 10) + div_ceil (size - 2 ^ k) (2 ^ (k - 2)) - 1

unfoldable pub class_of : ℕ → Option ℕ
class_of size =
    if leb size linear_max
    then some (div_ceil size 64 - 1)
    else if ltb max_slab size
    then none
    else some (class_above size (high_bit 64 (size - 1)))

unfoldable pub class_size : ℕ → ℕ
class_size class =
    if ltb class linear
    then (class + 1) * 64
    else let g = class - linear in let k = 10 + g / 4 in 2 ^ k + (g % 4 + 1) * 2 ^ (k - 2)

unfoldable pub batch : ℕ → ℕ
batch class = min (max (batch_bytes / class_size class) 1) 32

pub record Central : Type 0 where
  pub free : ℕ → List ℕ
  pub cursor : ℕ
  pub end : ℕ

unfoldable pub carve : ℕ → ℕ → ℕ → List ℕ
carve cur size zero = []
carve cur size (suc n) = cur ∷ carve (cur + size) size n

-- Fresh chunks, from a new region at `base` if the old one has no room.
unfoldable pub refill_fresh : Central → ℕ → ℕ → ℕ → List ℕ × Central
refill_fresh c class n base =
    let size = class_size class in
    let need = size * n in
    if ltb (c.end - c.cursor) need
    then (carve base size n, record c { cursor = base + need; end = base + region })
    else (carve c.cursor size n, record c { cursor = c.cursor + need })

unfoldable pub refill_free : Central → ℕ → ℕ → List ℕ → ℕ → List ℕ × Central
refill_free c class n [] base = refill_fresh c class n base
refill_free c class n (p ∷ ps) base =
    let at = length (p ∷ ps) - min (length (p ∷ ps)) n in
    (drop at (p ∷ ps), record c { free = update c.free class (take at (p ∷ ps)) })

-- The chunks that `refill` appends, and what it leaves.
unfoldable pub refill : Central → ℕ → ℕ → ℕ → List ℕ × Central
refill c class n base = refill_free c class n (c.free class) base

unfoldable pub flush_chunks : Central → ℕ → List ℕ → ℕ → List ℕ × Central
flush_chunks c class from keep =
    (take keep from, record c { free = update c.free class (c.free class ++ drop keep from) })

-- `Vec::pop`: the last element, and the rest.
unfoldable pub pop : List ℕ → Option (ℕ × List ℕ)
pop [] = none
pop (p ∷ []) = some (p, [])
pop (p ∷ q ∷ ps) = elim (pop (q ∷ ps)) [ none ↦ none | some (x, rest) ↦ some (x, p ∷ rest) ]

abbrev pub Magazines : Type 0
Magazines = ℕ → List ℕ

unfoldable pub popped :
    Magazines → Central → ℕ → Option (ℕ × List ℕ) → Option (ℕ × Magazines × Central)
popped m c class none = none
popped m c class (some (p, rest)) = some (p, update m class rest, c)

unfoldable pub alloc_from :
    Magazines → Central → ℕ → ℕ → Option (ℕ × List ℕ) → Option (ℕ × Magazines × Central)
alloc_from m c class base (some (p, rest)) = some (p, update m class rest, c)
alloc_from m c class base none =
    let (chunks, c') = refill c class (batch class) base in popped m c' class (pop chunks)

-- On a thread whose magazines are there; `none` in the chunk is the `expect`.
unfoldable pub alloc : Magazines → Central → ℕ → ℕ → Option (ℕ × Option (ℕ × Magazines × Central))
alloc m c size base = elim (class_of size) [
  | none ↦ none
  | some class ↦ some (class, alloc_from m c class base (pop (m class)))
]

unfoldable pub free : Magazines → Central → ℕ → ℕ → Magazines × Central
free m c p class =
    let v = m class ++ (p ∷ []) in
    let cap = 2 * batch class in
    let (kept, c') = flush_chunks c class v (cap / 2) in
    if ltb cap (length v) then (update m class kept, c') else (update m class v, c)
