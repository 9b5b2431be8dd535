-- ===== src/Server/Dispatch/Alone/Sets.antt =====
-- A run of SET items against the same items one by one.
use oxicache.Common.{
  ℕ, suc, ◌+◌, ◌≡◌, refl, sym, ap, ◌∙◌, inl, inr, arith, List, [], ◌∷◌, ◌++◌, Option, none, some,
}
use oxicache.Common.{
  get_elem?, length, Bytes, Result, ok, err, Result-cases, ltb, if◌then◌else◌, ◌%◌, u64_mod,
}
use oxicache.Wire.{Status, DecodeError}
use oxicache.Io.Writer.Close.{Write}
use oxicache.Cache.Entry.{TooLarge, Retired, nothing, add, entry_overhead}
use oxicache.Cache.Index.{Index}
use oxicache.Cache.Shard.{check_fits}
use oxicache.Cache.Store.{
  Cache, Slot, Pending, Item, collect, check_slot, check_next, check_all, set_one, set_all,
  set_checked, set_many,
}
use oxicache.Cache.Store.Same.{
  SameShards, seen, set_one-SameShards, capacity_at, set_one-capacity, SameShards-capacity,
}
use oxicache.Server.Dispatch.{
  Texts, header_of, frame_of, allocated, stored, set_values, too_large_counted, set_reply,
  set_value, oks, set_singly, set_outcome, run_sets, bad_item, and_then,
}
use oxicache.Server.Dispatch.Alone.{State, each, sets_alone}
use oxicache.Server.Dispatch.Alone.Runs.{SameServed, Agree, and_then-Agree}
use mathlib.Core.Path.{subst}

module _ (hasher : Bytes → ℕ) (index : Index hasher) where
  check_slot-capacity :
      (o o' : Option (Slot hasher index)) (k v : Bytes)
      → capacity_at hasher index o ≡ capacity_at hasher index o'
      → check_slot hasher index o k v ≡ check_slot hasher index o' k v
  unfolding capacity_at seen check_slot check_fits
  check_slot-capacity none none k v h = refl
  check_slot-capacity none (some y) k v h = absurd (cc)
  check_slot-capacity (some x) none k v h = absurd (cc)
  check_slot-capacity (some x) (some y) k v h =
      let c = length k + length v + entry_overhead in
      let same : x.shard.capacity ≡ y.shard.capacity = cc in
      ap (λ n. if ltb n c then err (record { cost = c; capacity = n }) else ok tt) same

  check_all-capacity :
      (c d : Cache hasher index) (items : List Item)
      → capacity_at hasher index (get_elem? c.shards 0)
        ≡ capacity_at hasher index (get_elem? d.shards 0)
      → check_all hasher index c items ≡ check_all hasher index d items
  unfolding check_all
  check_all-capacity c d [] h = refl
  check_all-capacity c d ((id, k, v) ∷ items) h =
      rw (check_slot-capacity _ _ k v h, check_all-capacity c d items h) refl

  check_next-ok :
      (r r' : Result TooLarge (Unit {0}))
      → check_next hasher index r r' ≡ ok tt
      → (r ≡ ok tt) × (r' ≡ ok tt)
  unfolding check_next
  check_next-ok (ok tt) r' h = (refl, h)
  check_next-ok (err e) r' h = absurd (cc)

module _ (hasher : Bytes → ℕ) (index : Index hasher) (texts : Texts) where
  abbrev first : State hasher index texts → Option (Slot hasher index)
  first s = get_elem? s.cache.shards 0

  abbrev after_set : State hasher index texts → Pending → Bytes → Bytes → State hasher index texts
  after_set s p k v = record s {
    cache = (set_one hasher index s.cache (s.next, k, v)).0;
    pending = p;
    next = s.next + 1;
  }

  set_value-ok :
      (s : State hasher index texts) (k v : Bytes)
      → check_slot hasher index (first s) k v ≡ ok tt
      → (p : Pending) × (set_value hasher index texts s (k, v)
          ≡ (after_set s p k v, header_of Status.ok 0))
  unfolding set_value set_values set_many check_all allocated
  set_value-ok s k v fits = (
    (collect s.pending (set_all hasher index s.cache nothing ((s.next, k, v) ∷ [])).1).0,
    rw fits (unfold check_next set_checked set_all stored set_reply in refl),
  )

  set_value-err :
      (s : State hasher index texts) (k v : Bytes) (e : TooLarge)
      → check_slot hasher index (first s) k v ≡ err e
      → set_value hasher index texts s (k, v) ≡ (
        too_large_counted hasher index texts s,
        frame_of Status.too_large (texts.entry_too_large e),
      )
  unfolding set_value set_values set_many check_all allocated
  set_value-err s k v e large = rw large (unfold check_next set_checked stored set_reply in refl)

  first-capacity :
      (s t : State hasher index texts)
      → SameServed hasher index texts s t
      → capacity_at hasher index (first s) ≡ capacity_at hasher index (first t)
  first-capacity s t same = SameShards-capacity hasher index s.cache t.cache same.shards 0

  after_set-Same :
      (s t : State hasher index texts) (p q : Pending) (k v : Bytes)
      → SameServed hasher index texts s t
      → SameServed hasher index texts (after_set s p k v) (after_set t q k v)
  after_set-Same s t p q k v same = record {
    shards =
        subst
          (λ n.
            SameShards hasher index ((set_one hasher index s.cache (s.next, k, v)).0)
              ((set_one hasher index t.cache (n, k, v)).0))
          same.next (set_one-SameShards hasher index s.cache t.cache (s.next, k, v) same.shards);
    next = ap (λ n. n + 1) same.next;
    refused = same.refused;
  }

  step-Same :
      (s t : State hasher index texts) (q : Pending) (k v : Bytes)
      → SameServed hasher index texts s t
      → SameServed hasher index texts
          (record s { cache = (set_one hasher index s.cache (s.next, k, v)).0; next = suc s.next })
          (after_set t q k v)
  step-Same s t q k v same =
      let after = after_set-Same s t s.pending q k v same in
      record { shards = after.shards; next = omega (arith, same.next); refused = after.refused }

  set_value-Agree :
      (s t : State hasher index texts) (entry : Bytes × Bytes)
      → SameServed hasher index texts s t
      → Agree hasher index texts
          (set_value hasher index texts s entry)
          (set_value hasher index texts t entry)
  set_value-Agree s t (k, v) same =
      let alike =
        check_slot-capacity hasher index (first s) (first t) k v (first-capacity s t same) in
      elim (Result-cases (check_slot hasher index (first t) k v)) [
        | inl (tt, fits) ↦
            let (p, here) = set_value-ok s k v (alike ∙ fits) in
            let (q, there) = set_value-ok t k v fits in
            rw (here, there) (record { state = after_set-Same s t p q k v same; writes = refl })
        | inr (e, large) ↦
            rw (set_value-err s k v e (alike ∙ large), set_value-err t k v e large)
              (unfold too_large_counted in
                record {
                  state = record {
                    shards = same.shards;
                    next = same.next;
                    refused = ap (λ n. (n + 1) % u64_mod) same.refused;
                  };
                  writes = refl;
                })
      ]

  set_singly-each :
      (entries : List (Bytes × Bytes)) (s t : State hasher index texts)
      → SameServed hasher index texts s t
      → Agree hasher index texts
          (set_singly hasher index texts s entries)
          (each hasher index texts (set_value hasher index texts) entries t)
  unfolding each
  set_singly-each [] s t same = unfold set_singly in record { state = same; writes = refl }
  set_singly-each (entry ∷ entries) s t same = rw (cons entry entries s) (
      and_then-Agree hasher index texts (λ u. set_singly hasher index texts u entries)
        (each hasher index texts (set_value hasher index texts) entries)
        (set_value hasher index texts s entry) (set_value hasher index texts t entry)
        (set_value-Agree s t entry same) (set_singly-each entries))
    where
      cons :
          (entry : Bytes × Bytes) (entries : List (Bytes × Bytes)) (s : State hasher index texts)
          → set_singly hasher index texts s (entry ∷ entries)
            ≡ and_then hasher index texts
                (λ u. set_singly hasher index texts u entries)
                (set_value hasher index texts s entry)
      cons entry entries s = unfold set_singly and_then in refl

  -- What `set_many` leaves when every entry fits, whatever was retired.
  all_set :
      Retired
      → List (Bytes × Bytes)
      → State hasher index texts
      → State hasher index texts × List Write
  all_set r entries s = (
    record s {
      cache = (set_all hasher index s.cache r (allocated s.next entries)).0;
      next = s.next + length entries;
    },
    oks hasher index texts entries,
  )

  all_set-cons :
      (r : Retired) (k v : Bytes) (entries : List (Bytes × Bytes)) (s t : State hasher index texts)
      (q : Pending)
      → Agree hasher index texts
          (all_set (add r (set_one hasher index s.cache (s.next, k, v)).1) entries (record s {
            cache = (set_one hasher index s.cache (s.next, k, v)).0;
            next = suc s.next;
          }))
          (each hasher index texts (set_value hasher index texts) entries (after_set t q k v))
      → Agree hasher index texts (all_set r ((k, v) ∷ entries) s) (
          and_then hasher index texts
            (each hasher index texts (set_value hasher index texts) entries)
            (after_set t q k v, header_of Status.ok 0))
  unfolding all_set set_all allocated oks and_then
  all_set-cons r k v entries s t q ih = record {
    state = record {
      shards = ih.state.shards;
      next = omega (arith, ih.state.next);
      refused = ih.state.refused;
    };
    writes = ap (λ z. header_of Status.ok 0 ++ z) ih.writes;
  }

  all_set-each :
      (entries : List (Bytes × Bytes)) (r : Retired) (s t : State hasher index texts)
      → SameServed hasher index texts s t
      → check_all hasher index s.cache (allocated s.next entries) ≡ ok tt
      → Agree hasher index texts
          (all_set r entries s)
          (each hasher index texts (set_value hasher index texts) entries t)
  unfolding each allocated check_all
  all_set-each [] r s t same fits = nothing_set
    where
      nothing_set : Agree hasher index texts (all_set r [] s) (t, [])
      nothing_set =
          unfold all_set set_all allocated oks in
          record {
            state = record {
              shards = same.shards;
              next = omega (arith, same.next);
              refused = same.refused;
            };
            writes = refl;
          }
  all_set-each ((k, v) ∷ entries) r s t same fits =
      let (here, later) = check_next-ok hasher index _ _ fits in
      let there =
        sym (check_slot-capacity hasher index (first s) (first t) k v (first-capacity s t same))
        ∙ here in
      let (q, done) = set_value-ok t k v there in
      let item : Item = (s.next, k, v) in
      rw done (
        all_set-cons r k v entries s t q (
          all_set-each entries (add r (set_one hasher index s.cache item).1)
            (record s { cache = (set_one hasher index s.cache item).0; next = suc s.next })
            (after_set t q k v) (step-Same s t q k v same)
            (check_all-capacity hasher index ((set_one hasher index s.cache item).0) s.cache
                (allocated (suc s.next) entries) (set_one-capacity hasher index s.cache item 0)
              ∙ later)))

  set_outcome-each :
      (entries : List (Bytes × Bytes)) (s t : State hasher index texts)
      → SameServed hasher index texts s t
      → Agree hasher index texts
          (set_outcome hasher index texts entries (set_values hasher index texts s entries))
          (each hasher index texts (set_value hasher index texts) entries t)
  unfolding set_values set_many
  set_outcome-each entries s t same =
      elim (Result-cases (check_all hasher index s.cache (allocated s.next entries))) [
        | inl (tt, fits) ↦ rw fits (at_once (all_set-each entries nothing s t same fits))
        | inr (e, large) ↦
            rw large (unfold set_checked stored set_outcome in set_singly-each entries s t same)
      ]
    where
      at_once :
          Agree hasher index texts
            (all_set nothing entries s)
            (each hasher index texts (set_value hasher index texts) entries t)
          → Agree hasher index texts
              (set_outcome hasher index texts entries (
                stored hasher index texts s
                  (length entries)
                  (set_checked hasher index s.cache s.pending (allocated s.next entries) (ok tt))))
              (each hasher index texts (set_value hasher index texts) entries t)
      at_once a =
          unfold all_set set_checked stored set_outcome in
          record {
            state = record {
              shards = a.state.shards;
              next = a.state.next;
              refused = a.state.refused;
            };
            writes = a.writes;
          }

  pub run_sets-alone :
      (s t : State hasher index texts) (entries : List (Bytes × Bytes)) (bad : Option DecodeError)
      → SameServed hasher index texts s t
      → Agree hasher index texts
          (run_sets hasher index texts s entries bad)
          (sets_alone hasher index texts entries bad t)
  unfolding run_sets sets_alone
  run_sets-alone s t entries bad same =
      subst
        (λ r. Agree hasher index texts r (
          and_then hasher index texts (λ u. (u, bad_item hasher index texts bad))
            (each hasher index texts (set_value hasher index texts) entries t)))
        (joined (set_outcome hasher index texts entries (set_values hasher index texts s entries)))
        (and_then-Agree hasher index texts (λ u. (u, bad_item hasher index texts bad))
          (λ u. (u, bad_item hasher index texts bad))
          (set_outcome hasher index texts entries (set_values hasher index texts s entries))
          (each hasher index texts (set_value hasher index texts) entries t)
          (set_outcome-each entries s t same) (λ u v h. record { state = h; writes = refl }))
    where
      joined :
          (r : State hasher index texts × List Write)
          → and_then hasher index texts (λ u. (u, bad_item hasher index texts bad)) r
            ≡ (r.0, r.1 ++ bad_item hasher index texts bad)
      joined r = unfold and_then in refl
