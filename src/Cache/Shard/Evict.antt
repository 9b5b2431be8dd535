-- ===== src/Cache/Shard/Evict.antt =====
-- The accounts of a shard, and that eviction keeps them.
use oxicache.Common.{ℕ, ◌-◌, ◌≡◌, ap, ◌∙◌, List, [], ◌∷◌, ◌++◌, arith, append_assoc}
use oxicache.Common.{true, false, Bytes}
use oxicache.Cache.Entry.{Entry, cost}
use oxicache.Cache.Entries.{
  update_ne, In, sum_cost, sum_live, sum_dead, sum_live-append, sum_dead-append, sum-Fresh,
  Distinct, In-append_left, In-append_right, Distinct-middle,
}
use oxicache.Cache.Index.{Index}
use oxicache.Cache.Shard.{Shard, evict, drop_dead}
use oxicache.Cache.Shard.Moves.{Distinct-drop, Distinct-move, Distinct-front}
use mathlib.Core.Path.{subst}

module _ (hash : Bytes → ℕ) (index : Index hash) where
  -- `extra` is a new entry on its way into a queue, if there is one. No entry is queued twice, and
  -- the counters are the sums over the queues: of the live entries, of the small queue, of the dead.
  pub record Inv (extra : List Entry) (s : Shard hash index) : Type 0 where
    pub distinct : Distinct (extra ++ (s.small ++ s.main))
    pub extra_live : (x : Entry) → In x extra → s.live x.id ≡ true
    pub used_is : s.used ≡ sum_live s.live (s.small ++ s.main)
    pub small_is : s.small_bytes ≡ sum_cost s.small
    pub dead_is : s.dead_bytes ≡ sum_dead s.live (s.small ++ s.main)

  -- The entry `e` has been popped, and is still counted.
  pub record Popped (extra : List Entry) (s : Shard hash index) (e : Entry) : Type 0 where
    distinct : Distinct (extra ++ (e ∷ (s.small ++ s.main)))
    extra_live : (x : Entry) → In x extra → s.live x.id ≡ true
    used_is : s.used ≡ sum_live s.live (e ∷ (s.small ++ s.main))
    small_is : s.small_bytes ≡ sum_cost s.small
    dead_is : s.dead_bytes ≡ sum_dead s.live (e ∷ (s.small ++ s.main))

  module _ (extra : List Entry) (s : Shard hash index) (e : Entry) where
    pub pop_small :
        (rest : List Entry)
        → s.small ≡ e ∷ rest
        → Inv extra s
        → Popped extra (record s { small = rest; small_bytes = s.small_bytes - cost e }) e
    pop_small rest q v = record {
      distinct = subst (λ z. Distinct (extra ++ (z ++ s.main))) q v.distinct;
      extra_live = v.extra_live;
      used_is = v.used_is ∙ ap (λ z. sum_live s.live (z ++ s.main)) q;
      small_is = omega (arith, v.small_is, ap sum_cost q);
      dead_is = v.dead_is ∙ ap (λ z. sum_dead s.live (z ++ s.main)) q;
    }

    pub pop_main :
        (rest : List Entry)
        → s.main ≡ e ∷ rest
        → Inv extra s
        → Popped extra (record s { main = rest }) e
    pop_main rest q v = record {
      distinct =
          Distinct-front extra s.small e rest
            (subst (λ z. Distinct (extra ++ (s.small ++ z))) q v.distinct);
      extra_live = v.extra_live;
      used_is = omega (
        arith,
        v.used_is,
        ap (λ z. sum_live s.live (s.small ++ z)) q,
        sum_live-append s.live s.small (e ∷ rest),
        sum_live-append s.live s.small rest,
      );
      small_is = v.small_is;
      dead_is = omega (
        arith,
        v.dead_is,
        ap (λ z. sum_dead s.live (s.small ++ z)) q,
        sum_dead-append s.live s.small (e ∷ rest),
        sum_dead-append s.live s.small rest,
      );
    }

    -- The entry joins the main queue, whatever becomes of its frequency.
    pub push_main :
        (freq : ℕ → ℕ)
        → Popped extra s e
        → Inv extra (record s { freq = freq; main = s.main ++ (e ∷ []) })
    push_main freq v =
        let assoc = append_assoc s.small s.main (e ∷ []) in
        record {
          distinct =
              subst (λ z. Distinct (extra ++ z)) assoc
                (Distinct-move extra e (s.small ++ s.main) v.distinct);
          extra_live = v.extra_live;
          used_is = omega (
            arith,
            v.used_is,
            ap (sum_live s.live) assoc,
            sum_live-append s.live (s.small ++ s.main) (e ∷ []),
          );
          small_is = v.small_is;
          dead_is = omega (
            arith,
            v.dead_is,
            ap (sum_dead s.live) assoc,
            sum_dead-append s.live (s.small ++ s.main) (e ∷ []),
          );
        }

    pub evict-Inv : s.live e.id ≡ true → Popped extra s e → Inv extra (evict hash index s e)
    unfolding evict
    evict-Inv alive v =
        let fresh = (Distinct-middle extra e (s.small ++ s.main) v.distinct).1 in
        let (p, q) =
          sum-Fresh s.live e.id false (s.small ++ s.main)
            (λ x h. fresh x (In-append_right x extra _ h)) in
        record {
          distinct = Distinct-drop extra e (s.small ++ s.main) v.distinct;
          extra_live = λ x h.
              update_ne s.live e.id x.id false (fresh x (In-append_left x extra _ h))
              ∙ v.extra_live x h;
          used_is = ground (arith, alive, v.used_is, p);
          small_is = v.small_is;
          dead_is = ground (arith, alive, v.dead_is, q);
        }

    pub drop_dead-Inv :
        s.live e.id ≡ false → Popped extra s e → Inv extra (drop_dead hash index s e)
    unfolding drop_dead
    drop_dead-Inv dead v = record {
      distinct = Distinct-drop extra e (s.small ++ s.main) v.distinct;
      extra_live = v.extra_live;
      used_is = ground (arith, dead, v.used_is);
      small_is = v.small_is;
      dead_is = ground (arith, dead, v.dead_is);
    }
