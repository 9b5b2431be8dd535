-- ===== src/Cache/Shard/Rounds.antt =====
-- The loops of eviction end, and each takes an entry out of its queue.
use oxicache.Common.{
  ℕ, zero, suc, ◌+◌, ◌-◌, ◌*◌, ◌≤◌, ◌<◌, ◌≡◌, ◌≢◌, refl, ap, ◌⊎◌, inl, inr, List, [], ◌∷◌, ◌++◌,
  arith, Option, none, some, length, length-append,
}
use oxicache.Common.{Bool-cases, ltb, leb, ltb→lt, Bytes, ◌==◌, ==_iff}
use oxicache.Cache.Entry.{Entry, cost, Retired, one}
use oxicache.Cache.Entries.{update, update_self, sum_freq}
use oxicache.Cache.Ghost.{Ghost}
use oxicache.Cache.Index.{Index}
use oxicache.Cache.Shard.{
  Shard, promote, rotate, evict, evict_to_ghost, drop_dead, evict_popped, evict_small_from,
  evict_small, main_round, main_from, main_loop, evict_main, or_else, evict_once,
}
use oxicache.Cache.Shard.Evict.{
  Inv, Popped, pop_small, pop_main, push_main, evict-Inv, drop_dead-Inv,
}

sum_freq-append :
    (f : ℕ → ℕ) (xs ys : List Entry) → sum_freq f (xs ++ ys) ≡ sum_freq f xs + sum_freq f ys
sum_freq-append f [] ys = omega arith
sum_freq-append f (x ∷ xs) ys = omega (arith, sum_freq-append f xs ys)

-- Lowering one frequency raises no sum.
sum_freq-update :
    (f : ℕ → ℕ) (i v : ℕ) (xs : List Entry) → v ≤ f i → sum_freq (update f i v) xs ≤ sum_freq f xs
sum_freq-update f i v [] h = omega arith
sum_freq-update f i v (x ∷ xs) h = elim (Bool-cases (x.id == i)) [
  | inl e ↦ rw e (omega (arith, sum_freq-update f i v xs h, ap f ((==_iff x.id i).0 e)))
  | inr e ↦ rw e (omega (arith, sum_freq-update f i v xs h))
]

-- A rotation lowers the sum of the frequencies.
rotated_freq :
    (f : ℕ → ℕ) (e : Entry) (rest : List Entry)
    → 0 < f e.id
    → sum_freq (update f e.id (f e.id - 1)) (rest ++ (e ∷ [])) < sum_freq f (e ∷ rest)
rotated_freq f e rest h =
    let f' : ℕ → ℕ = update f e.id (f e.id - 1) in
    omega (
      arith,
      sum_freq-append f' rest (e ∷ []),
      sum_freq-update f e.id (f e.id - 1) rest (omega arith),
      update_self f e.id (f e.id - 1),
    )

at_end : (xs : List Entry) (e : Entry) → xs ++ (e ∷ []) ≢ []
at_end [] e q = absurd (cc)
at_end (x ∷ xs) e q = absurd (cc)

module _ (hash : Bytes → ℕ) (index : Index hash) where
  -- What the loop of `set` counts down.
  abbrev pub weight : Shard hash index → ℕ
  weight s = 2 * length s.small + length s.main

  -- A step of eviction that did something, and left the limits alone.
  pub record Evicts (extra : List Entry) (s : Shard hash index)
      (o : Option (Shard hash index × Retired)) : Type 0 where
    pub result : Shard hash index × Retired
    pub returns : o ≡ some result
    pub keeps : Inv hash index extra result.0
    pub lighter : weight (result.0) < weight s
    pub same_capacity : result.0.capacity ≡ s.capacity

  -- A round on a popped entry, if going on from a rotated one evicts.
  main_round-Evicts :
      (extra : List Entry) (s : Shard hash index) (e : Entry)
      (again : Shard hash index → Option (Shard hash index × Retired))
      → Popped hash index extra s e
      → (0 < s.freq e.id
          → Inv hash index extra (rotate hash index s e)
          → Evicts extra (rotate hash index s e) (again (rotate hash index s e)))
      → Evicts extra (record s { main = e ∷ s.main }) (main_round hash index again s e)
  unfolding main_round
  main_round-Evicts extra s e again v more = elim (Bool-cases (s.live e.id)) [
    | inr dead ↦ rw dead (record {
      result = (drop_dead hash index s e, one e);
      returns = refl;
      keeps = drop_dead-Inv hash index extra s e dead v;
      lighter = unfold drop_dead in omega arith;
      same_capacity = unfold drop_dead in refl;
    })
    | inl alive ↦ elim (Bool-cases (ltb 0 (s.freq e.id))) [
      | inr idle ↦
          rw (alive, idle)
            (record {
              result = (evict hash index s e, one e);
              returns = refl;
              keeps = evict-Inv hash index extra s e alive v;
              lighter = unfold evict in omega arith;
              same_capacity = unfold evict in refl;
            })
      | inl busy ↦
          rw (alive, busy)
            (let m = more (ltb→lt _ _ busy) (unfold rotate in push_main hash index extra s e _ v) in
              record {
                result = m.result;
                returns = m.returns;
                keeps = m.keeps;
                lighter = unfold rotate in omega (arith, m.lighter, length-append s.main (e ∷ []));
                same_capacity = unfold rotate in m.same_capacity;
              })
    ]
  ]

  -- The loop of `evict_main` returns while its queue has an entry: the fuel is enough.
  main_loop-Evicts :
      (extra : List Entry) (fuel : ℕ) (s : Shard hash index)
      → Inv hash index extra s
      → sum_freq s.freq s.main < fuel
      → ((s.main ≡ []) × (main_loop hash index fuel s ≡ none))
        ⊎ Evicts extra s (main_loop hash index fuel s)
  unfolding main_loop main_from
  main_loop-Evicts extra zero s v h = absurd (omega arith)
  main_loop-Evicts extra (suc fuel) s v h = from (main_loop-Evicts extra fuel) s.main refl
    where
      from :
          ((s' : Shard hash index)
            → Inv hash index extra s'
            → sum_freq s'.freq s'.main < fuel
            → ((s'.main ≡ []) × (main_loop hash index fuel s' ≡ none))
              ⊎ Evicts extra s' (main_loop hash index fuel s'))
          → (main : List Entry) → s.main ≡ main
          → ((main ≡ []) × (main_from hash index (main_loop hash index fuel) main s ≡ none))
            ⊎ Evicts extra
                (record s { main = main })
                (main_from hash index (main_loop hash index fuel) main s)
      from ih [] q = inl (refl, refl)
      from ih (e ∷ rest) q =
          let p : Shard hash index = record s { main = rest } in
          inr (
            main_round-Evicts extra p e (main_loop hash index fuel)
              (pop_main hash index extra s e rest q v)
              (λ busy v'.
                elim (ih (rotate hash index p e) v' (
                  unfold rotate in
                  omega (arith, rotated_freq s.freq e rest busy, ap (sum_freq s.freq) q))) [
                    | inl (nil, _) ↦ absurd (at_end rest e (unfold rotate in nil))
                    | inr ev ↦ ev
                  ]))

  pub evict_main-Evicts :
      (extra : List Entry) (s : Shard hash index)
      → Inv hash index extra s
      → ((s.main ≡ []) × (evict_main hash index s ≡ none))
        ⊎ Evicts extra s (evict_main hash index s)
  unfolding evict_main
  evict_main-Evicts extra s v =
      main_loop-Evicts extra (suc (sum_freq s.freq s.main)) s v (omega arith)

  evict_popped-Inv :
      (extra : List Entry) (s : Shard hash index) (e : Entry)
      → Popped hash index extra s e
      → Inv hash index extra ((evict_popped hash index s e).0)
        × (weight ((evict_popped hash index s e).0) ≤ weight s + 1)
        × ((evict_popped hash index s e).0.capacity ≡ s.capacity)
  unfolding evict_popped
  evict_popped-Inv extra s e v = elim (Bool-cases (s.live e.id)) [
    | inr dead ↦ rw dead (
      drop_dead-Inv hash index extra s e dead v,
      unfold drop_dead in omega arith,
      unfold drop_dead in refl,
    )
    | inl alive ↦ elim (Bool-cases (ltb 1 (s.freq e.id))) [
      | inl busy ↦
          rw (alive, busy)
            (unfold promote in
              (
                push_main hash index extra s e _ v,
                omega (arith, length-append s.main (e ∷ [])),
                refl,
              ))
      | inr idle ↦
          rw (alive, idle)
            (unfold evict_to_ghost in
              (
                ghostly (evict-Inv hash index extra s e alive v),
                unfold evict in omega arith,
                unfold evict in refl,
              ))
    ]
  ]
    where
      ghostly :
          {t : Shard hash index} {g : Ghost}
          → Inv hash index extra t
          → Inv hash index extra (record t { ghost = g })
      ghostly i = record {
        distinct = i.distinct;
        extra_live = i.extra_live;
        used_is = i.used_is;
        small_is = i.small_is;
        dead_is = i.dead_is;
      }

  pub evict_small-Evicts :
      (extra : List Entry) (s : Shard hash index)
      → Inv hash index extra s
      → ((s.small ≡ []) × (evict_small hash index s ≡ none))
        ⊎ Evicts extra s (evict_small hash index s)
  unfolding evict_small
  evict_small-Evicts extra s v = from s.small refl
    where
      from :
          (small : List Entry)
          → s.small ≡ small
          → ((small ≡ []) × (evict_small_from hash index small s ≡ none))
            ⊎ Evicts extra (record s { small = small }) (evict_small_from hash index small s)
      from [] q = unfold evict_small_from in inl (refl, refl)
      from (e ∷ rest) q =
          let p : Shard hash index = record s {
            small = rest;
            small_bytes = s.small_bytes - cost e;
          } in
          let (i, w, c) = evict_popped-Inv extra p e (pop_small hash index extra s e rest q v) in
          inr (
            unfold evict_small_from in
            record {
              result = evict_popped hash index p e;
              returns = refl;
              keeps = i;
              lighter = omega (arith, w);
              same_capacity = c;
            })

  -- A step fails only on empty queues.
  pub evict_once-Evicts :
      (extra : List Entry) (s : Shard hash index)
      → Inv hash index extra s
      → ((s.small ≡ []) × (s.main ≡ []) × (evict_once hash index s ≡ none))
        ⊎ Evicts extra s (evict_once hash index s)
  unfolding evict_once
  evict_once-Evicts extra s v = elim (Bool-cases (leb s.small_capacity s.small_bytes)) [
    | inl over ↦ rw over (either (evict_small-Evicts extra s v) (evict_main-Evicts extra s v))
    | inr under ↦
        rw under (elim (either (evict_main-Evicts extra s v) (evict_small-Evicts extra s v)) [
          | inl (m, s', n) ↦ inl (s', m, n)
          | inr ev ↦ inr ev
        ])
  ]
    where
      either :
          {P Q : Type 0} {a b : Option (Shard hash index × Retired)}
          → (P × (a ≡ none)) ⊎ Evicts extra s a
          → (Q × (b ≡ none)) ⊎ Evicts extra s b
          → (P × Q × (or_else hash index a b ≡ none)) ⊎ Evicts extra s (or_else hash index a b)
      either {b = b} (inr e) _ =
          unfold or_else in
          inr (record {
            result = e.result;
            returns = ap (λ z. or_else hash index z b) e.returns;
            keeps = e.keeps;
            lighter = e.lighter;
            same_capacity = e.same_capacity;
          })
      either (inl (p, n)) (inl (q, m)) = unfold or_else in inl (p, q, rw n m)
      either (inl (p, n)) (inr e) = unfold or_else in rw n (inr e)
