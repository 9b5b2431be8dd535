-- ===== src/Cache/Shard/Kills.antt =====
-- An entry of a shard dies, when its key is replaced or deleted.
use oxicache.Common.{
  ℕ, ◌≡◌, ◌≢◌, refl, sym, ap, ◌∙◌, inl, inr, List, [], ◌∷◌, ◌++◌, arith, Option, none, some,
  Bool-cases,
}
use oxicache.Common.{true, false, Bytes}
use oxicache.Cache.Entry.{Entry}
use oxicache.Cache.Entries.{update, update_ne, update_self, In, Fresh, sum-Fresh, sum_killed}
use oxicache.Cache.Index.{Index}
use oxicache.Cache.Shard.{Shard, kill, replaced, allocate}
use oxicache.Cache.Shard.Moves.{Distinct-behind}
use oxicache.Cache.Shard.Evict.{Inv}

-- An entry that the index gives back is one of these.
abbrev pub AmongThem : Option Entry → List Entry → Type 0
AmongThem none es = Unit {0}
AmongThem (some e) es = In e es

module _ (hash : Bytes → ℕ) (index : Index hash) where
  -- A queued entry dies: its cost moves to the dead.
  pub kill-Inv :
      (extra : List Entry) (s : Shard hash index) (e : Entry)
      → Inv hash index extra s
      → In e (s.small ++ s.main)
      → ((x : Entry) → In x extra → x.id ≢ e.id)
      → Inv hash index extra (kill hash index s e)
  unfolding kill
  kill-Inv extra s e v i others = elim (Bool-cases (s.live e.id)) [
    | inl alive ↦
        let (p, q) =
          sum_killed s.live e (s.small ++ s.main)
            (Distinct-behind extra (s.small ++ s.main) v.distinct) i alive in
        rw alive (record {
          distinct = v.distinct;
          extra_live = λ x h. update_ne s.live e.id x.id false (others x h) ∙ v.extra_live x h;
          used_is = omega (arith, v.used_is, p);
          small_is = v.small_is;
          dead_is = omega (arith, v.dead_is, q);
        })
    | inr dead ↦ rw dead v
  ]

  pub kill_capacity :
      (s : Shard hash index) (e : Entry) → (kill hash index s e).capacity ≡ s.capacity
  unfolding kill
  kill_capacity s e = ground arith

  -- The new entry is allocated and the one that it replaces is dead, before any eviction.
  pub replaced-Inv :
      (s : Shard hash index) (e : Entry) (t : index.Table) (old : Option Entry)
      → Inv hash index [] s
      → Fresh e.id (s.small ++ s.main)
      → AmongThem old (s.small ++ s.main)
      → Inv hash index
          (e ∷ [])
          ((replaced hash index (record (allocate hash index s e) { table = t }) old).0)
        × ((replaced hash index (record (allocate hash index s e) { table = t }) old).0.capacity
            ≡ s.capacity)
  unfolding allocate
  replaced-Inv s e t old v fresh there = with_old old there
    where
      s' : Shard hash index
      s' = record s { table = t; freq = update s.freq e.id 0; live = update s.live e.id true }

      added : Inv hash index (e ∷ []) s'
      added =
          let (p, q) = sum-Fresh s.live e.id true (s.small ++ s.main) fresh in
          record {
            distinct = (fresh, v.distinct);
            extra_live = λ x h. elim h [
              | inl same ↦
                  ap (λ z. update s.live e.id true z.id) same ∙ update_self s.live e.id true
              | inr more ↦ absurd more
            ];
            used_is = v.used_is ∙ sym p;
            small_is = v.small_is;
            dead_is = v.dead_is ∙ sym q;
          }

      with_old :
          (old : Option Entry)
          → AmongThem old (s.small ++ s.main)
          → Inv hash index (e ∷ []) ((replaced hash index s' old).0)
            × ((replaced hash index s' old).0.capacity ≡ s.capacity)
      with_old none there = unfold replaced in (added, refl)
      with_old (some old) there =
          unfold replaced in
          (
            kill-Inv (e ∷ []) s' old added there (λ x h. elim h [
              | inl same ↦ λ q. fresh old there (sym q ∙ ap (λ z. z.id) same)
              | inr more ↦ absurd more
            ]),
            kill_capacity s' old,
          )
