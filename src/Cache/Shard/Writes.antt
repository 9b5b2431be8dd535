-- ===== src/Cache/Shard/Writes.antt =====
-- The steps of the writes of a shard: making room, queueing, compacting.
use oxicache.Common.{
  ℕ, zero, suc, ◌+◌, ◌/◌, ◌≤◌, ◌<◌, ◌≡◌, refl, sym, ap, ◌∙◌, ◌⊎◌, inl, inr, List, [], ◌∷◌, ◌++◌,
  arith, append_assoc,
}
use oxicache.Common.{true, Bool-cases, ltb, leb, ltb→le, Bytes}
use oxicache.Cache.Entry.{Entry, cost, Retired, add}
use oxicache.Cache.Entries.{
  sum_cost, sum_live, sum_dead, keep_live, keep_live-append, sum-keep_live, sum_cost-append,
  sum_live-append, sum_dead-append, Distinct, Distinct-keep_live,
}
use oxicache.Cache.Ghost.{ghost_take}
use oxicache.Cache.Index.{Index}
use oxicache.Cache.Shard.{Shard, evict_loop, make_room, maybe_compact, enqueue}
use oxicache.Cache.Shard.Moves.{Distinct-move, Distinct-back}
use oxicache.Cache.Shard.Evict.{Inv}
use oxicache.Cache.Shard.Rounds.{weight, evict_once-Evicts}
use mathlib.Core.Path.{subst}

module _ (hash : Bytes → ℕ) (index : Index hash) where
  -- The loop of `set` ends with room for the entry, or with nothing left in the budget.
  pub record Roomy (extra : List Entry) (c : ℕ) (s t : Shard hash index) : Type 0 where
    pub keeps : Inv hash index extra t
    pub same_capacity : t.capacity ≡ s.capacity
    pub room : (t.used + c ≤ t.capacity) ⊎ (t.used ≡ 0)

  evict_loop-Roomy :
      (extra : List Entry) (fuel c : ℕ) (s : Shard hash index) (r : Retired)
      → Inv hash index extra s
      → weight hash index s < fuel
      → Roomy extra c s ((evict_loop hash index fuel c s r).0)
  unfolding evict_loop
  evict_loop-Roomy extra zero c s r v h = absurd (omega arith)
  evict_loop-Roomy extra (suc fuel) c s r v h = elim (Bool-cases (ltb s.capacity (s.used + c))) [
    | inr fits ↦ rw fits (record { keeps = v; same_capacity = refl; room = inl (ltb→le _ _ fits) })
    | inl full ↦ elim (evict_once-Evicts hash index extra s v) [
      | inl (no_small, no_main, stop) ↦
          rw (full, stop)
            (record {
              keeps = v;
              same_capacity = refl;
              room = inr (v.used_is ∙ rw (no_small, no_main) refl);
            })
      | inr ev ↦
          let further =
            evict_loop-Roomy extra fuel c (ev.result.0) (add r ev.result.1) ev.keeps
              (omega (arith, ev.lighter)) in
          rw (full, ev.returns)
            (record {
              keeps = further.keeps;
              same_capacity = further.same_capacity ∙ ev.same_capacity;
              room = further.room;
            })
    ]
  ]

  pub make_room-Roomy :
      (extra : List Entry) (c : ℕ) (s : Shard hash index) (r : Retired)
      → Inv hash index extra s
      → Roomy extra c s ((make_room hash index c s r).0)
  unfolding make_room
  make_room-Roomy extra c s r v = evict_loop-Roomy extra _ c s r v (omega arith)

  -- The new entry joins a queue.
  pub enqueue-Inv :
      (s : Shard hash index) (e : Entry)
      → Inv hash index (e ∷ []) s
      → Inv hash index [] (enqueue hash index s e)
        × ((enqueue hash index s e).used ≡ s.used + cost e)
        × ((enqueue hash index s e).capacity ≡ s.capacity)
        × ((enqueue hash index s e).table ≡ s.table)
  unfolding enqueue
  enqueue-Inv s e v = elim (Bool-cases (ghost_take s.ghost e.hash).0) [
    | inl known ↦ rw known (to_main, refl, refl, refl)
    | inr unknown ↦ rw unknown (to_small, refl, refl, refl)
  ]
    where
      alive : s.live e.id ≡ true
      alive = v.extra_live e (inl refl)

      counts : (sum_live s.live (e ∷ []) ≡ cost e) × (sum_dead s.live (e ∷ []) ≡ 0)
      counts = rw alive (omega arith, omega arith)

      to_main : Inv hash index [] (record s {
        main = s.main ++ (e ∷ []);
        ghost = (ghost_take s.ghost e.hash).1;
        used = s.used + cost e;
      })
      to_main =
          let assoc = append_assoc s.small s.main (e ∷ []) in
          record {
            distinct = subst (Distinct) assoc (Distinct-move [] e (s.small ++ s.main) v.distinct);
            extra_live = λ x h. absurd h;
            used_is = omega (
              arith,
              v.used_is,
              counts,
              ap (sum_live s.live) assoc,
              sum_live-append s.live (s.small ++ s.main) (e ∷ []),
            );
            small_is = v.small_is;
            dead_is = omega (
              arith,
              v.dead_is,
              counts,
              ap (sum_dead s.live) assoc,
              sum_dead-append s.live (s.small ++ s.main) (e ∷ []),
            );
          }

      to_small : Inv hash index [] (record s {
        small = s.small ++ (e ∷ []);
        ghost = (ghost_take s.ghost e.hash).1;
        used = s.used + cost e;
        small_bytes = s.small_bytes + cost e;
      })
      to_small =
          let assoc = append_assoc s.small (e ∷ []) s.main in
          record {
            distinct = subst (Distinct) (sym assoc) (Distinct-back [] s.small e s.main v.distinct);
            extra_live = λ x h. absurd h;
            used_is = omega (
              arith,
              v.used_is,
              counts,
              ap (sum_live s.live) assoc,
              sum_live-append s.live s.small (e ∷ s.main),
              sum_live-append s.live s.small s.main,
            );
            small_is = omega (arith, v.small_is, sum_cost-append s.small (e ∷ []));
            dead_is = omega (
              arith,
              v.dead_is,
              counts,
              ap (sum_dead s.live) assoc,
              sum_dead-append s.live s.small (e ∷ s.main),
              sum_dead-append s.live s.small s.main,
            );
          }

  pub maybe_compact-Inv :
      (s : Shard hash index)
      → Inv hash index [] s
      → Inv hash index [] (maybe_compact hash index s)
        × ((maybe_compact hash index s).used ≡ s.used)
        × ((maybe_compact hash index s).capacity ≡ s.capacity)
        × ((maybe_compact hash index s).table ≡ s.table)
  unfolding maybe_compact
  maybe_compact-Inv s v = elim (Bool-cases (leb s.dead_bytes (s.capacity / 4))) [
    | inl few ↦ rw few (v, refl, refl, refl)
    | inr many ↦ rw many (compacted, refl, refl, refl)
  ]
    where
      compacted : Inv hash index [] (record s {
        small = keep_live s.live s.small;
        main = keep_live s.live s.main;
        small_bytes = sum_cost (keep_live s.live s.small);
        dead_bytes = 0;
      })
      compacted =
          let apart = keep_live-append s.live s.small s.main in
          let (_, same, none_dead) = sum-keep_live s.live (s.small ++ s.main) in
          record {
            distinct =
                subst (Distinct) apart (Distinct-keep_live s.live (s.small ++ s.main) v.distinct);
            extra_live = λ x h. absurd h;
            used_is = v.used_is ∙ sym same ∙ ap (sum_live s.live) apart;
            small_is = refl;
            dead_is = sym none_dead ∙ ap (sum_dead s.live) apart;
          }
