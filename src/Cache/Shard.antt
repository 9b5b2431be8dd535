-- ===== src/Cache/Shard.antt =====
-- One S3-FIFO shard of crates/server/src/cache/s3fifo.rs: the index, the queues and the budget.
-- One call at a time; a reader's `touch` comes between calls. Sizes do not pass 2^64.
pub mod Moves
pub mod Evict
pub mod Rounds
pub mod Writes
pub mod Kills
pub mod Budget
pub mod Capacity
use oxicache.Common.{ℕ, zero, suc, ◌+◌, ◌-◌, ◌*◌, ◌/◌, ◌%◌, List, [], ◌∷◌, ◌++◌, Option, none, some}
use oxicache.Common.{Bool, true, false, if◌then◌else◌, ltb, leb, ◌==◌, max, length, Bytes, u64_mod}
use oxicache.Common.{Result, ok, err}
use oxicache.Cache.Entry.{
  Entry, cost, Retired, nothing, one, add, TooLarge, freq_cap, entry_overhead, ghost_min,
}
use oxicache.Cache.Entries.{update, sum_freq, sum_cost, keep_live}
use oxicache.Cache.Ghost.{Ghost, ghost_take, ghost_push}
use oxicache.Cache.Index.{Index}

module _ (hash : Bytes → ℕ) (index : Index hash) where
  pub record Shard : Type 0 where
    pub table : index.Table
    pub small : List Entry
    pub main : List Entry
    pub ghost : Ghost
    pub used : ℕ
    pub small_bytes : ℕ
    pub dead_bytes : ℕ
    pub freq : ℕ → ℕ
    pub live : ℕ → Bool
    pub capacity : ℕ
    pub small_capacity : ℕ
    pub evictions : ℕ

  unfoldable pub new : ℕ → Shard
  new capacity = record {
    table = index.empty;
    small = [];
    main = [];
    ghost = record { order = []; set = [] };
    used = 0;
    small_bytes = 0;
    dead_bytes = 0;
    freq = λ i. 0;
    live = λ i. false;
    capacity = capacity;
    small_capacity = capacity / 10;
    evictions = 0;
  }

  unfoldable pub get : Shard → ℕ → Bytes → Option Entry
  get s h k = index.get s.table h k

  unfoldable pub touch : Shard → Entry → Shard
  touch s e =
      let f = s.freq e.id in
      if ltb f freq_cap then record s { freq = update s.freq e.id (f + 1) } else s

  unfoldable pub check_fits : Shard → Bytes → Bytes → Result TooLarge (Unit {0})
  check_fits s key value =
      let c = length key + length value + entry_overhead in
      if ltb s.capacity c then err (record { cost = c; capacity = s.capacity }) else ok tt

  unfoldable pub kill : Shard → Entry → Shard
  kill s e =
      if s.live e.id
      then record s {
        live = update s.live e.id false;
        used = s.used - cost e;
        dead_bytes = s.dead_bytes + cost e;
      }
      else s

  -- A live entry that was popped leaves the index and the budget.
  unfoldable pub evict : Shard → Entry → Shard
  evict s e = record s {
    table = (index.remove_if_same s.table e).0;
    live = update s.live e.id false;
    used = s.used - cost e;
    evictions = (s.evictions + 1) % u64_mod;
  }

  -- The head of the small queue, popped: dropped if dead, promoted if used more than once,
  -- evicted otherwise.
  unfoldable pub promote : Shard → Entry → Shard
  promote s e = record s { freq = update s.freq e.id 0; main = s.main ++ (e ∷ []) }

  unfoldable pub evict_to_ghost : Shard → Entry → Shard
  evict_to_ghost s e =
      let s' = evict s e in record s' { ghost = ghost_push s'.ghost e.hash (length s'.main) }

  unfoldable pub drop_dead : Shard → Entry → Shard
  drop_dead s e = record s { dead_bytes = s.dead_bytes - cost e }

  unfoldable pub evict_popped : Shard → Entry → Shard × Retired
  evict_popped s e =
      if s.live e.id
      then (if ltb 1 (s.freq e.id) then (promote s e, nothing) else (evict_to_ghost s e, one e))
      else (drop_dead s e, one e)

  unfoldable pub evict_small_from : List Entry → Shard → Option (Shard × Retired)
  evict_small_from [] s = none
  evict_small_from (e ∷ small) s =
      some (evict_popped (record s { small = small; small_bytes = s.small_bytes - cost e }) e)

  unfoldable pub evict_small : Shard → Option (Shard × Retired)
  evict_small s = evict_small_from s.small s

  unfoldable pub rotate : Shard → Entry → Shard
  rotate s e = record s { freq = update s.freq e.id (s.freq e.id - 1); main = s.main ++ (e ∷ []) }

  -- A round of the loop of `evict_main` on the entry that it popped; `again` goes on.
  unfoldable pub main_round :
      (Shard → Option (Shard × Retired)) → Shard → Entry → Option (Shard × Retired)
  main_round again s e =
      let more = again (rotate s e) in
      if s.live e.id
      then (if ltb 0 (s.freq e.id) then more else some (evict s e, one e))
      else some (drop_dead s e, one e)

  unfoldable pub main_from :
      (Shard → Option (Shard × Retired)) → List Entry → Shard → Option (Shard × Retired)
  main_from again [] s = none
  main_from again (e ∷ main) s = main_round again (record s { main = main }) e

  unfoldable pub main_loop : ℕ → Shard → Option (Shard × Retired)
  main_loop zero s = none
  main_loop (suc fuel) s = main_from (main_loop fuel) s.main s

  -- Each further round lowers a frequency.
  unfoldable pub evict_main : Shard → Option (Shard × Retired)
  evict_main s = main_loop (suc (sum_freq s.freq s.main)) s

  unfoldable pub or_else :
      Option (Shard × Retired) → Option (Shard × Retired) → Option (Shard × Retired)
  or_else none b = b
  or_else (some a) b = some a

  unfoldable pub evict_once : Shard → Option (Shard × Retired)
  evict_once s =
      if leb s.small_capacity s.small_bytes
      then or_else (evict_small s) (evict_main s)
      else or_else (evict_main s) (evict_small s)

  -- The loop of `set`, for an entry that costs `c`.
  unfoldable pub evict_loop : ℕ → ℕ → Shard → Retired → Shard × Retired
  evict_loop zero c s r = (s, r)
  evict_loop (suc fuel) c s r =
      if ltb s.capacity (s.used + c)
      then elim (evict_once s) [ none ↦ (s, r) | some (s', r') ↦ evict_loop fuel c s' (add r r') ]
      else (s, r)

  -- Each round takes an entry out of the small queue, or out of both.
  unfoldable pub make_room : ℕ → Shard → Retired → Shard × Retired
  make_room c s r = evict_loop (suc (2 * length s.small + length s.main)) c s r

  -- `compact` keeps the live entries of a queue in order, and sums their cost.
  unfoldable pub maybe_compact : Shard → Shard
  maybe_compact s = if leb s.dead_bytes (s.capacity / 4) then s else record s {
    small = keep_live s.live s.small;
    main = keep_live s.live s.main;
    small_bytes = sum_cost (keep_live s.live s.small);
    dead_bytes = 0;
  }

  -- The entry joins the queue that the ghost list says.
  unfoldable pub enqueue : Shard → Entry → Shard
  enqueue s e =
      let (known, ghost) = ghost_take s.ghost e.hash in
      let s' : Shard = record s { used = s.used + cost e; ghost = ghost } in
      if known
      then record s' { main = s'.main ++ (e ∷ []) }
      else record s' { small_bytes = s'.small_bytes + cost e; small = s'.small ++ (e ∷ []) }

  unfoldable pub replaced : Shard → Option Entry → Shard × Retired
  replaced s none = (s, nothing)
  replaced s (some old) = (kill s old, one old)

  -- `Entry::new` allocates at the address `id`; its atomics start at 0 and `true`.
  unfoldable pub allocate : Shard → Entry → Shard
  allocate s e = record s { freq = update s.freq e.id 0; live = update s.live e.id true }

  unfoldable pub set_entry : Shard → Entry → Shard × Retired
  set_entry s e =
      let (table, old) = index.insert s.table e in
      let (s', r) = replaced (record (allocate s e) { table = table }) old in
      let (s'', r') = make_room (cost e) s' r in (maybe_compact (enqueue s'' e), r')

  unfoldable pub set : Shard → ℕ → Bytes → Bytes → ℕ → Shard × Retired
  set s id key value h = set_entry s (record { id = id; key = key; value = value; hash = h })

  unfoldable pub removed : Shard → Option Entry → Shard × Option Retired
  removed s none = (s, none)
  removed s (some e) = (maybe_compact (kill s e), some (one e))

  unfoldable pub del : Shard → ℕ → Bytes → Shard × Option Retired
  del s h key =
      let (table, old) = index.remove s.table h key in removed (record s { table = table }) old

  unfoldable pub used_bytes : Shard → ℕ
  used_bytes s = s.used
