-- ===== src/Cache/Store.antt =====
-- crates/server/src/cache/mod.rs: the shards behind one cache, the batch calls and the collector's
-- thread-local count. Prefetches and epoch pins change no state of the model.
pub mod Batches
pub mod Range
pub mod Same
use oxicache.Common.{ℕ, zero, suc, ◌+◌, ◌-◌, ◌*◌, ◌/◌, ◌%◌, ◌^◌, List, [], ◌∷◌, Option, none, some}
use oxicache.Common.{
  Bool, true, false, if◌then◌else◌, ltb, leb, ◌==◌, length, get_elem?, set, is_some, Bytes, u64_mod,
}
use oxicache.Common.{Result, ok, err}
use oxicache.Cache.Entry.{Entry, Retired, nothing, add, TooLarge}
use oxicache.Cache.Index.{Index}
use oxicache.Cache.Shard.{Shard, new, get, touch, check_fits, del, used_bytes}
use oxicache.Cache.Shard as shard

-- The counters of a shard, but for its evictions.
pub record Counts : Type 0 where
  pub get_hits : ℕ
  pub get_misses : ℕ
  pub del_hits : ℕ
  pub del_misses : ℕ

pub record Stats : Type 0 where
  pub get_hits : ℕ
  pub get_misses : ℕ
  pub del_hits : ℕ
  pub del_misses : ℕ
  pub evictions : ℕ
  pub items : ℕ
  pub used_bytes : ℕ
  pub capacity : ℕ

unfoldable pub count_gets : Counts → ℕ → ℕ → Counts
count_gets c hits misses = record c {
  get_hits = (c.get_hits + hits) % u64_mod;
  get_misses = (c.get_misses + misses) % u64_mod;
}

unfoldable pub count_dels : Counts → ℕ → ℕ → Counts
count_dels c hits misses = record c {
  del_hits = (c.del_hits + hits) % u64_mod;
  del_misses = (c.del_misses + misses) % u64_mod;
}

-- The exponent of `next_power_of_two`, found in at most `fuel` doublings.
unfoldable pub ceil_log2 : ℕ → ℕ → ℕ → ℕ
ceil_log2 zero n k = k
ceil_log2 (suc fuel) n k = let more = ceil_log2 fuel n (k + 1) in if leb n (2 ^ k) then k else more

unfoldable pub copies {ℓ} : {A : Type ℓ} → ℕ → A → List A
copies zero a = []
copies (suc n) a = a ∷ copies n a

-- What a thread has retired since its last flush: large entries and their bytes.
pub record Pending : Type 0 where
  pub entries : ℕ
  pub bytes : ℕ

abbrev pub flush_entries : ℕ
flush_entries = 256

abbrev pub flush_bytes : ℕ
flush_bytes = 1048576

abbrev pub cleared : Pending
cleared = record { entries = 0; bytes = 0 }

-- The new count, and whether the collector was flushed.
unfoldable pub collect : Pending → Retired → Pending × Bool
collect p r =
    let t : Pending = record { entries = p.entries + r.large; bytes = p.bytes + r.large_bytes } in
    if ltb 0 r.small
    then (cleared, true)
    else if r.large == 0
    then (p, false)
    else if leb flush_entries t.entries
    then (cleared, true)
    else if leb flush_bytes t.bytes
    then (cleared, true)
    else (t, false)

-- The shard of a hash, by its top bits.
unfoldable pub shard_of : ℕ → ℕ → ℕ
shard_of shift h = if shift == 64 then 0 else h / 2 ^ shift

-- An entry to store: the address of its allocation, its key and its value.
abbrev pub Item : Type 0
Item = ℕ × Bytes × Bytes

module _ (hasher : Bytes → ℕ) (index : Index hasher) where
  pub record Slot : Type 0 where
    pub shard : Shard hasher index
    pub counts : Counts

  pub record Cache : Type 0 where
    pub shards : List Slot
    pub shift : ℕ
    pub capacity : ℕ

  unfoldable pub new_cache : ℕ → ℕ → Cache
  new_cache capacity shards =
      let k = ceil_log2 64 shards 0 in
      record {
        shards = copies (2 ^ k) (record {
          shard = new hasher index (capacity / 2 ^ k);
          counts = record { get_hits = 0; get_misses = 0; del_hits = 0; del_misses = 0 };
        });
        shift = 64 - k;
        capacity = capacity;
      }

  unfoldable pub locate : Cache → Bytes → ℕ × ℕ
  locate c key = (shard_of c.shift (hasher key), hasher key)

  unfoldable pub put : Cache → ℕ → Slot → Cache
  put c i slot = record c { shards = set c.shards i slot }

  -- `get_in`: the lookup counts and touches.
  unfoldable pub got : Cache → ℕ → Slot → Option Entry → Cache × Option Entry
  got c i slot none = (put c i (record slot { counts = count_gets slot.counts 0 1 }), none)
  got c i slot (some e) = (
    put c i (record slot {
      shard = touch hasher index slot.shard e;
      counts = count_gets slot.counts 1 0;
    }),
    some e,
  )

  unfoldable pub get_at : Cache → ℕ → ℕ → Bytes → Option Slot → Cache × Option Entry
  get_at c i h key none = (c, none)
  get_at c i h key (some slot) = got c i slot (get hasher index slot.shard h key)

  unfoldable pub get_in : Cache → Bytes → Cache × Option Entry
  get_in c key = let (i, h) = locate c key in get_at c i h key (get_elem? c.shards i)

  -- The last loop of `get_many`, which tallies the hits on the side.
  unfoldable pub touched : Cache → ℕ → Slot → Option Entry → Cache
  touched c i slot none = c
  touched c i slot (some e) = put c i (record slot { shard = touch hasher index slot.shard e })

  unfoldable pub look_at : Cache → ℕ → ℕ → Bytes → Option Slot → Cache × Option Entry
  look_at c i h key none = (c, none)
  look_at c i h key (some slot) =
      let e = get hasher index slot.shard h key in (touched c i slot e, e)

  unfoldable pub look : Cache → Bytes → Cache × Option Entry
  look c key = let (i, h) = locate c key in look_at c i h key (get_elem? c.shards i)

  unfoldable pub look_all : Cache → List Bytes → Cache × List (Option Entry)
  look_all c [] = (c, [])
  look_all c (k ∷ ks) = let (c', e) = look c k in let (c'', es) = look_all c' ks in (c'', e ∷ es)

  unfoldable pub hits_of {ℓ} : {A : Type ℓ} → List (Option A) → ℕ
  hits_of [] = 0
  hits_of (e ∷ es) = let n = hits_of es in if is_some e then suc n else n

  unfoldable pub count_at : Cache → ℕ → (Counts → Counts) → Option Slot → Cache
  count_at c i f none = c
  count_at c i f (some slot) = put c i (record slot { counts = f slot.counts })

  -- The tally goes to the shard of the first key.
  unfoldable pub get_many : Cache → List Bytes → Cache × List (Option Entry)
  get_many c [] = (c, [])
  get_many c (k ∷ ks) =
      let (c', es) = look_all c (k ∷ ks) in
      let i = (locate c k).0 in
      (
        count_at c' i (λ n. count_gets n (hits_of es) (length es - hits_of es))
            (get_elem? c'.shards i),
        es,
      )

  unfoldable pub check_slot : Option Slot → Bytes → Bytes → Result TooLarge (Unit {0})
  check_slot none key value = ok tt
  check_slot (some slot) key value = check_fits hasher index slot.shard key value

  unfoldable pub check_next :
      Result TooLarge (Unit {0}) → Result TooLarge (Unit {0}) → Result TooLarge (Unit {0})
  check_next (ok u) rest = rest
  check_next (err e) rest = err e

  -- Every item against the first shard, before anything is written.
  unfoldable pub check_all : Cache → List Item → Result TooLarge (Unit {0})
  check_all c [] = ok tt
  check_all c ((id, k, v) ∷ items) =
      check_next (check_slot (get_elem? c.shards 0) k v) (check_all c items)

  unfoldable pub set_at : Cache → ℕ → ℕ → Item → Option Slot → Cache × Retired
  set_at c i h item none = (c, nothing)
  set_at c i h (id, k, v) (some slot) =
      let (s, r) = shard.set hasher index slot.shard id k v h in
      (put c i (record slot { shard = s }), r)

  unfoldable pub set_one : Cache → Item → Cache × Retired
  set_one c (id, k, v) = let (i, h) = locate c k in set_at c i h (id, k, v) (get_elem? c.shards i)

  unfoldable pub set_all : Cache → Retired → List Item → Cache × Retired
  set_all c r [] = (c, r)
  set_all c r (item ∷ items) = let (c', r') = set_one c item in set_all c' (add r r') items

  unfoldable pub set_checked :
      Cache
      → Pending
      → List Item
      → Result TooLarge (Unit {0})
      → Cache × Pending × Result TooLarge (Unit {0})
  set_checked c p items (err e) = (c, p, err e)
  set_checked c p items (ok u) =
      let (c', r) = set_all c nothing items in (c', (collect p r).0, ok tt)

  unfoldable pub set_many :
      Cache → Pending → List Item → Cache × Pending × Result TooLarge (Unit {0})
  set_many c p items = set_checked c p items (check_all c items)

  unfoldable pub retired_of : Option Retired → Retired
  retired_of none = nothing
  retired_of (some r) = r

  unfoldable pub del_at : Cache → ℕ → ℕ → Bytes → Option Slot → Cache × Option Retired
  del_at c i h key none = (c, none)
  del_at c i h key (some slot) =
      let (s, found) = del hasher index slot.shard h key in
      (put c i (record slot { shard = s }), found)

  unfoldable pub del_one : Cache → Bytes → Cache × Option Retired
  del_one c key = let (i, h) = locate c key in del_at c i h key (get_elem? c.shards i)

  unfoldable pub del_all : Cache → List Bytes → Cache × List (Option Retired)
  del_all c [] = (c, [])
  del_all c (k ∷ ks) =
      let (c', found) = del_one c k in let (c'', rest) = del_all c' ks in (c'', found ∷ rest)

  unfoldable pub retired_all : List (Option Retired) → Retired
  retired_all [] = nothing
  retired_all (r ∷ rs) = add (retired_of r) (retired_all rs)

  unfoldable pub last_of : Bytes → List Bytes → Bytes
  last_of k [] = k
  last_of k (k' ∷ ks) = last_of k' ks

  -- The tally goes to the shard of the last key.
  unfoldable pub del_many : Cache → Pending → List Bytes → Cache × Pending × List (Option Retired)
  del_many c p [] = (c, (collect p nothing).0, [])
  del_many c p (k ∷ ks) =
      let (c', found) = del_all c (k ∷ ks) in
      let i = (locate c (last_of k ks)).0 in
      (
        count_at c' i (λ n. count_dels n (hits_of found) (length found - hits_of found))
            (get_elem? c'.shards i),
        (collect p (retired_all found)).0,
        found,
      )

  unfoldable pub sum_stats : Stats → List Slot → Stats
  sum_stats s [] = s
  sum_stats s (x ∷ xs) =
      sum_stats
        (record s {
          get_hits = s.get_hits + x.counts.get_hits;
          get_misses = s.get_misses + x.counts.get_misses;
          del_hits = s.del_hits + x.counts.del_hits;
          del_misses = s.del_misses + x.counts.del_misses;
          evictions = s.evictions + x.shard.evictions;
          items = s.items + index.len x.shard.table;
          used_bytes = s.used_bytes + used_bytes hasher index x.shard;
        })
        xs

  unfoldable pub stats : Cache → Stats
  stats c =
      sum_stats
        (record {
          get_hits = 0;
          get_misses = 0;
          del_hits = 0;
          del_misses = 0;
          evictions = 0;
          items = 0;
          used_bytes = 0;
          capacity = c.capacity;
        })
        c.shards
