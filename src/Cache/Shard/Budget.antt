-- ===== src/Cache/Shard/Budget.antt =====
-- `set` and `del` of a shard: its accounts and its byte budget, whatever its index answers.
use oxicache.Common.{
  ℕ, ◌+◌, ◌≤◌, ◌≡◌, refl, ap, ◌∙◌, inl, inr, [], ◌∷◌, ◌++◌, arith, Option, none, some, Bytes,
}
use oxicache.Common.{true, false, Bool-cases, leb, ◌/◌}
use oxicache.Cache.Entry.{Entry, cost, Retired}
use oxicache.Cache.Entries.{
  Fresh, In, In-append_left, In-append_right, In-keep_live_live, keep_live-append, update_self,
}
use oxicache.Cache.Ghost.{ghost_take}
use oxicache.Cache.Index.{Index}
use oxicache.Cache.Shard.{
  Shard, new, replaced, allocate, make_room, maybe_compact, enqueue, set_entry, removed, del, kill,
}
use oxicache.Cache.Shard.Evict.{Inv}
use oxicache.Cache.Shard.Writes.{Roomy, make_room-Roomy, enqueue-Inv, maybe_compact-Inv}
use oxicache.Cache.Shard.Kills.{AmongThem, kill-Inv, kill_capacity, replaced-Inv}
use mathlib.Core.Path.{subst}

-- The accounts of a new shard are in order.
pub new-Inv :
    (hash : Bytes → ℕ) (index : Index hash) (capacity : ℕ)
    → Inv hash index [] (new hash index capacity)
unfolding new
new-Inv hash index capacity = record {
  distinct = tt;
  extra_live = λ x h. absurd h;
  used_is = refl;
  small_is = refl;
  dead_is = refl;
}

module _ (hash : Bytes → ℕ) (index : Index hash) where
  -- An entry that is queued, and live.
  abbrev pub Kept : Shard hash index → Entry → Type 0
  Kept s e = In e (s.small ++ s.main) × (s.live e.id ≡ true)

  enqueue-Kept :
      (s : Shard hash index) (e : Entry) → s.live e.id ≡ true → Kept (enqueue hash index s e) e
  unfolding enqueue
  enqueue-Kept s e alive = elim (Bool-cases (ghost_take s.ghost e.hash).0) [
    | inl known ↦ rw known (
      In-append_right e s.small (s.main ++ (e ∷ [])) (In-append_right e s.main (e ∷ []) (inl refl)),
      alive,
    )
    | inr unknown ↦ rw unknown (
      In-append_left e (s.small ++ (e ∷ [])) s.main (In-append_right e s.small (e ∷ []) (inl refl)),
      alive,
    )
  ]

  maybe_compact-Kept :
      (s : Shard hash index) (e : Entry) → Kept s e → Kept (maybe_compact hash index s) e
  unfolding maybe_compact
  maybe_compact-Kept s e (there, alive) = elim (Bool-cases (leb s.dead_bytes (s.capacity / 4))) [
    | inl few ↦ rw few (there, alive)
    | inr many ↦ rw many (
      subst (In e) (keep_live-append s.live s.small s.main)
          (In-keep_live_live s.live e (s.small ++ s.main) there alive),
      alive,
    )
  ]

-- `set` of a new allocation whose cost is within the capacity, whatever the index answers as long as
-- the entry that it gives back, if any, is a queued one: no entry is queued twice afterwards, the
-- bytes in use, the bytes of the small queue and the dead bytes are the sums over the queues, the
-- bytes in use are within the capacity, and the new entry is queued and live.
pub set_entry-Inv :
    (hash : Bytes → ℕ) (index : Index hash) (s : Shard hash index) (e : Entry)
    → Inv hash index [] s
    → Fresh e.id (s.small ++ s.main)
    → AmongThem (index.insert s.table e).1 (s.small ++ s.main)
    → cost e ≤ s.capacity
    → Inv hash index [] ((set_entry hash index s e).0)
      × ((set_entry hash index s e).0.capacity ≡ s.capacity)
      × ((set_entry hash index s e).0.used ≤ s.capacity)
      × Kept hash index ((set_entry hash index s e).0) e
unfolding set_entry
set_entry-Inv hash index s e v fresh there fits = (v3.0, capacity, within, kept)
  where
    s1 : Shard hash index × Retired
    s1 =
        replaced hash index
          (record (allocate hash index s e) { table = (index.insert s.table e).0 })
          (index.insert s.table e).1

    s2 : Shard hash index
    s2 = (make_room hash index (cost e) s1.0 s1.1).0

    v1 : Inv hash index (e ∷ []) (s1.0) × (s1.0.capacity ≡ s.capacity)
    v1 =
        replaced-Inv hash index s e (index.insert s.table e).0 (index.insert s.table e).1 v fresh
          there

    room : Roomy hash index (e ∷ []) (cost e) (s1.0) s2
    room = make_room-Roomy hash index (e ∷ []) (cost e) (s1.0) (s1.1) v1.0

    v2 :
        Inv hash index [] (enqueue hash index s2 e)
        × ((enqueue hash index s2 e).used ≡ s2.used + cost e)
        × ((enqueue hash index s2 e).capacity ≡ s2.capacity)
        × ((enqueue hash index s2 e).table ≡ s2.table)
    v2 = enqueue-Inv hash index s2 e room.keeps

    s4 : Shard hash index
    s4 = maybe_compact hash index (enqueue hash index s2 e)

    v3 :
        Inv hash index [] s4
        × (s4.used ≡ (enqueue hash index s2 e).used)
        × (s4.capacity ≡ (enqueue hash index s2 e).capacity)
        × (s4.table ≡ (enqueue hash index s2 e).table)
    v3 = maybe_compact-Inv hash index (enqueue hash index s2 e) v2.0

    capacity : s4.capacity ≡ s.capacity
    capacity = v3.2 ∙ v2.2 ∙ room.same_capacity ∙ v1.1

    within : s4.used ≤ s.capacity
    within = elim room.room [
      | inl enough ↦ omega (arith, enough, v3.1, v2.1, room.same_capacity, v1.1)
      | inr emptied ↦ omega (arith, emptied, v3.1, v2.1, fits)
    ]

    kept : Kept hash index s4 e
    kept =
        maybe_compact-Kept hash index (enqueue hash index s2 e) e
          (enqueue-Kept hash index s2 e (room.keeps.extra_live e (inl refl)))

-- `del`, whatever the index answers as long as the entry that it gives back, if any, is a queued one:
-- afterwards no entry is queued twice, the counters are the sums over the queues, the capacity is the
-- same, and an entry that the index gave back is dead.
pub del-Inv :
    (hash : Bytes → ℕ) (index : Index hash) (s : Shard hash index) (h : ℕ) (k : Bytes)
    → Inv hash index [] s
    → AmongThem (index.remove s.table h k).1 (s.small ++ s.main)
    → Inv hash index [] ((del hash index s h k).0)
      × ((del hash index s h k).0.capacity ≡ s.capacity)
      × ((e : Entry)
          → (index.remove s.table h k).1 ≡ some e
          → (del hash index s h k).0.live e.id ≡ false)
unfolding del
del-Inv hash index s h k v there = with_old (index.remove s.table h k).1 there
  where
    s' : Shard hash index
    s' = record s { table = (index.remove s.table h k).0 }

    same : Inv hash index [] s'
    same = record {
      distinct = v.distinct;
      extra_live = λ x h. absurd h;
      used_is = v.used_is;
      small_is = v.small_is;
      dead_is = v.dead_is;
    }

    killed_dead : (e : Entry) → (kill hash index s' e).live e.id ≡ false
    killed_dead e =
        unfold kill in
        elim (Bool-cases (s.live e.id)) [
          | inl alive ↦ rw alive (update_self s.live e.id false)
          | inr dead ↦ rw dead dead
        ]

    compact_live : (t : Shard hash index) → (maybe_compact hash index t).live ≡ t.live
    compact_live t =
        unfold maybe_compact in
        elim (Bool-cases (leb t.dead_bytes (t.capacity / 4))) [
          | inl few ↦ rw few refl
          | inr many ↦ rw many refl
        ]

    with_old :
        (old : Option Entry)
        → AmongThem old (s.small ++ s.main)
        → Inv hash index [] ((removed hash index s' old).0)
          × ((removed hash index s' old).0.capacity ≡ s.capacity)
          × ((e : Entry) → old ≡ some e → (removed hash index s' old).0.live e.id ≡ false)
    with_old none there = unfold removed in (same, refl, λ e q. absurd (cc q))
    with_old (some old) there =
        let dead = kill-Inv hash index [] s' old same there (λ x h. absurd h) in
        let (kept, _, capacity, _) = maybe_compact-Inv hash index (kill hash index s' old) dead in
        unfold removed in
        (
          kept,
          capacity ∙ kill_capacity hash index s' old,
          λ e q.
              let one : old ≡ e = cc q in
              ap (λ l. l e.id) (compact_live (kill hash index s' old))
              ∙ subst (λ z. (kill hash index s' old).live z.id ≡ false) one (killed_dead old),
        )
