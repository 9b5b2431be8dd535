-- ===== src/Cache/Table.antt =====
-- crates/server/src/cache/table.rs: the cuckoo index. A bucket's slots are words, 0 for an empty one;
-- the array of buckets is a function of the bucket and the slot. `heap` gives the entry at an address.
-- Readers are single steps here, so the sequence number that they check is left out.
pub mod Placed
pub mod Sound
pub mod Lookup
mod Tests
pub mod Paths
pub mod Displaced
use oxicache.Common.{
  ℕ, zero, suc, ◌+◌, ◌-◌, ◌*◌, ◌/◌, ◌%◌, ◌^◌, max, List, [], ◌∷◌, ◌++◌, Option, none, some,
}
use oxicache.Common.{
  Bool, true, false, if◌then◌else◌, ◌&&◌, ◌||◌, not, ltb, leb, ◌==◌, Bytes, u64_mod,
}
use oxicache.Cache.Entry.{Entry}
use oxicache.Cache.Store.{ceil_log2}
use Prim.Native.Nat.{bit_and, bit_or, bit_xor}

abbrev pub slots : ℕ
slots = 8

abbrev pub min_buckets : ℕ
min_buckets = 64

abbrev pub max_load_eighths : ℕ
max_load_eighths = 7

abbrev pub max_kicks : ℕ
max_kicks = 256

abbrev pub max_walks : ℕ
max_walks = 4

abbrev pub ptr_values : ℕ
ptr_values = 281474976710656

-- A bucket and a slot of it.
abbrev pub Position : Type 0
Position = ℕ × ℕ

pub record Table : Type 0 where
  pub words : Position → ℕ
  pub mask : ℕ

unfoldable pub new_table : ℕ → Table
new_table buckets = record {
  words = λ p. 0;
  mask = max (2 ^ ceil_log2 64 buckets 0) min_buckets - 1;
}

unfoldable pub home : Table → ℕ → ℕ
home t hash = bit_and hash t.mask

unfoldable pub alt : Table → ℕ → ℕ → ℕ
alt t bucket tag = bit_and (bit_xor bucket (bit_or (tag * 0x9E3779B9 % u64_mod) 1)) t.mask

unfoldable pub tag_of : ℕ → ℕ
tag_of hash = hash / ptr_values % 65536

unfoldable pub tag_of_word : ℕ → ℕ
tag_of_word w = w / ptr_values % 65536

unfoldable pub ptr_of : ℕ → ℕ
ptr_of w = w % ptr_values

-- The address has 48 bits, which the source asserts, so its `|` is a sum.
unfoldable pub word : ℕ → ℕ → ℕ
word tag ptr = tag * ptr_values + ptr

unfoldable pub same_position : Position → Position → Bool
same_position (b, i) (b', i') = (b == b') && (i == i')

unfoldable pub store : Table → Position → ℕ → Table
store t p w = record t { words = λ q. if same_position q p then w else t.words q }

-- The first empty slot of a bucket, from slot `i` on.
unfoldable pub empty_from : Table → ℕ → ℕ → ℕ → Option ℕ
empty_from t b i zero = none
empty_from t b i (suc left) =
    let rest = empty_from t b (i + 1) left in if t.words (b, i) == 0 then some i else rest

unfoldable pub empty_slot : Table → ℕ → Option ℕ
empty_slot t b = empty_from t b 0 slots

unfoldable pub or_here {ℓ} : {A : Type ℓ} → Option A → Option A → Option A
or_here none o = o
or_here (some a) o = some a

unfoldable pub contains : Position → List Position → Bool
contains p [] = false
contains p (q ∷ qs) = let rest = contains p qs in if same_position p q then true else rest

unfoldable pub next_seed : ℕ → ℕ
next_seed seed = (seed * 6364136223846793005 + 1442695040888963407) % u64_mod

-- A path of occupied slots, and the empty slot that the last of them moves to.
abbrev pub Hops : Type 0
Hops = List Position × Position

-- The kicks of one walk, from bucket `b`: the seed afterwards, and the path if it found one.
unfoldable pub kick :
    (ℕ → List Position → ℕ → ℕ × Option Hops) → ℕ → List Position → ℕ → Option ℕ → ℕ × Option Hops
kick more seed path next none = more seed path next
kick more seed path next (some j) = (seed, some (path, (next, j)))

unfoldable pub walk : Table → ℕ → ℕ → List Position → ℕ → ℕ × Option Hops
walk t zero seed path b = (seed, none)
walk t (suc kicks) seed path b =
    let s = next_seed seed in
    let i = s / 2 ^ 33 % slots in
    let next = alt t b (tag_of_word (t.words (b, i))) in
    let go_on = kick (walk t kicks) s (path ++ ((b, i) ∷ [])) next (empty_slot t next) in
    if contains (b, i) path then (s, none) else go_on

unfoldable pub retry : (ℕ → ℕ × Option Hops) → ℕ × Option Hops → ℕ × Option Hops
retry again (seed, some path) = (seed, some path)
retry again (seed, none) = again seed

unfoldable pub walks : Table → ℕ → ℕ → ℕ → ℕ → ℕ × Option Hops
walks t zero b1 b2 seed = (seed, none)
walks t (suc n) b1 b2 seed =
    retry (walks t n b1 b2) (walk t max_kicks seed [] (if bit_and seed 1 == 0 then b1 else b2))

unfoldable pub find_path : Table → ℕ → ℕ → ℕ → ℕ × Option Hops
find_path t b1 b2 seed = walks t max_walks b1 b2 seed

-- The path applied backwards: each word moves one hop on, the last one first. What is left is the
-- first slot of the path, to be written.
unfoldable pub shift : Table → List Position → Position → Table × Position
shift t [] dest = (t, dest)
shift t (p ∷ path) dest = let (t', d) = shift t path dest in (store t' d (t'.words p), p)

unfoldable pub displaced : Table → ℕ → ℕ × Option Hops → ℕ × Option Table
displaced t new_word (seed, none) = (seed, none)
displaced t new_word (seed, some (path, dest)) =
    let (t', d) = shift t path dest in (seed, some (store t' d new_word))

-- `place`: the seed afterwards, and the table if the word has found a slot.
unfoldable pub place_in : Table → ℕ → ℕ → ℕ → ℕ → Option Position → ℕ × Option Table
place_in t seed b1 b2 new_word (some p) = (seed, some (store t p new_word))
place_in t seed b1 b2 new_word none = displaced t new_word (find_path t b1 b2 seed)

unfoldable pub slot_in : ℕ → Option ℕ → Option Position
slot_in b none = none
slot_in b (some i) = some (b, i)

unfoldable pub place : Table → ℕ → ℕ → ℕ → ℕ × Option Table
place t seed hash new_word =
    let b1 = home t hash in
    let b2 = alt t b1 (tag_of hash) in
    place_in t seed b1 b2 new_word
      (or_here (slot_in b1 (empty_slot t b1)) (slot_in b2 (empty_slot t b2)))

pub record CuckooIndex : Type 0 where
  pub table : Table
  pub len : ℕ
  pub kick_seed : ℕ

unfoldable pub new_index : CuckooIndex
new_index = record { table = new_table min_buckets; len = 0; kick_seed = 1 }

module _ (heap : ℕ → Entry) (same_key : Bytes → Bytes → Bool) where
  -- A slot's word is that of the key.
  unfoldable pub matches : ℕ → Bytes → ℕ → Bool
  matches tag key w = not (w == 0) && ((tag_of_word w == tag) && same_key (heap (ptr_of w)).key key)

  -- The slots of a bucket from slot `i` on.
  unfoldable pub find_from : Table → ℕ → Bytes → ℕ → ℕ → ℕ → Option (Position × ℕ)
  find_from t tag key b i zero = none
  find_from t tag key b i (suc left) =
      let rest = find_from t tag key b (i + 1) left in
      if matches tag key (t.words (b, i)) then some ((b, i), t.words (b, i)) else rest

  unfoldable pub find : Table → ℕ → Bytes → Option (Position × ℕ)
  find t hash key =
      let tag = tag_of hash in
      let b1 = home t hash in
      or_here (find_from t tag key b1 0 slots) (find_from t tag key (alt t b1 tag) 0 slots)

  unfoldable pub entry_of : Option (Position × ℕ) → Option Entry
  entry_of none = none
  entry_of (some (p, w)) = some (heap (ptr_of w))

  unfoldable pub get : CuckooIndex → ℕ → Bytes → Option Entry
  get x hash key = entry_of (find x.table hash key)

  unfoldable pub taken : CuckooIndex → Option (Position × ℕ) → CuckooIndex × Option Entry
  taken x none = (x, none)
  taken x (some (p, w)) =
      (record x { table = store x.table p 0; len = x.len - 1 }, some (heap (ptr_of w)))

  unfoldable pub remove : CuckooIndex → ℕ → Bytes → CuckooIndex × Option Entry
  remove x hash key = taken x (find x.table hash key)

  unfoldable pub taken_if_same :
      CuckooIndex → ℕ → Option (Position × ℕ) → CuckooIndex × Option Entry
  taken_if_same x id none = (x, none)
  taken_if_same x id (some (p, w)) = if ptr_of w == id then taken x (some (p, w)) else (x, none)

  unfoldable pub remove_if_same : CuckooIndex → ℕ → Entry → CuckooIndex × Option Entry
  remove_if_same x hash e = taken_if_same x e.id (find x.table hash e.key)

  -- `grow` puts every word of the old table into a fresh one, slot by slot, and begins again with
  -- twice the buckets when one of them finds no place.
  unfoldable pub moved : (ℕ → Table → ℕ × Option Table) → ℕ × Option Table → ℕ × Option Table
  moved more (seed, none) = (seed, none)
  moved more (seed, some t) = more seed t

  unfoldable pub move_word : ℕ → ℕ → Table → ℕ × Option Table
  move_word w seed t = if w == 0 then (seed, some t) else place t seed (heap (ptr_of w)).hash w

  unfoldable pub move_slots : Table → ℕ → ℕ → ℕ → ℕ → Table → ℕ × Option Table
  move_slots old b i zero seed t = (seed, some t)
  move_slots old b i (suc left) seed t =
      moved (move_slots old b (i + 1) left) (move_word (old.words (b, i)) seed t)

  unfoldable pub move_buckets : Table → ℕ → ℕ → ℕ → Table → ℕ × Option Table
  move_buckets old b zero seed t = (seed, some t)
  move_buckets old b (suc left) seed t =
      moved (move_buckets old (b + 1) left) (move_slots old b 0 slots seed t)

  unfoldable pub regrow : (ℕ → ℕ × Option Table) → ℕ × Option Table → ℕ × Option Table
  regrow again (seed, none) = again seed
  regrow again (seed, some t) = (seed, some t)

  -- `none` where the fuel runs out: the loop of the source has no bound of its own.
  unfoldable pub grow_loop : ℕ → Table → ℕ → ℕ → ℕ × Option Table
  grow_loop zero old n seed = (seed, none)
  grow_loop (suc fuel) old n seed =
      regrow (grow_loop fuel old (n * 2)) (move_buckets old 0 (old.mask + 1) seed (new_table n))

  unfoldable pub grown : CuckooIndex → ℕ × Option Table → Option CuckooIndex
  grown x (seed, none) = none
  grown x (seed, some t) = some (record x { table = t; kick_seed = seed })

  unfoldable pub grow : ℕ → CuckooIndex → Option CuckooIndex
  grow fuel x = grown x (grow_loop fuel x.table ((x.table.mask + 1) * 2) x.kick_seed)

  -- `insert`: `none` where the fuel runs out, as in `grow_loop`.
  unfoldable pub settled :
      (CuckooIndex → Option (CuckooIndex × Option Entry))
      → CuckooIndex
      → ℕ × Option Table
      → Option (CuckooIndex × Option Entry)
  settled retry_in x (seed, some t) =
      some (record x { table = t; len = x.len + 1; kick_seed = seed }, none)
  settled retry_in x (seed, none) = retry_in (record x { kick_seed = seed })

  unfoldable pub then_with {ℓ} :
      {A : Type ℓ} → (CuckooIndex → Option A) → Option CuckooIndex → Option A
  then_with f none = none
  then_with f (some x) = f x

  unfoldable pub place_loop : ℕ → ℕ → ℕ → CuckooIndex → Option (CuckooIndex × Option Entry)
  place_loop zero hash new_word x = none
  place_loop (suc fuel) hash new_word x =
      settled (λ y. then_with (place_loop fuel hash new_word) (grow fuel y)) x
        (place x.table x.kick_seed hash new_word)

  unfoldable pub room_for_one : ℕ → CuckooIndex → Option CuckooIndex
  room_for_one fuel x =
      let bigger = grow fuel x in
      if leb ((x.table.mask + 1) * slots * max_load_eighths) (x.len * 8) then bigger else some x

  unfoldable pub insert_at :
      ℕ → CuckooIndex → ℕ → Entry → Option (Position × ℕ) → Option (CuckooIndex × Option Entry)
  insert_at fuel x hash e (some (p, old)) =
      some
        (record x { table = store x.table p (word (tag_of hash) e.id) }, some (heap (ptr_of old)))
  insert_at fuel x hash e none =
      then_with (place_loop fuel hash (word (tag_of hash) e.id)) (room_for_one fuel x)

  unfoldable pub insert : ℕ → CuckooIndex → ℕ → Entry → Option (CuckooIndex × Option Entry)
  insert fuel x hash e = insert_at fuel x hash e (find x.table hash e.key)
