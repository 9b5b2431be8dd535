-- ===== src/Cache/Store/Same.antt =====
-- Two caches with the same shards, whatever their counters: the single calls and the steps of the
-- batch calls answer alike on them and leave the same shards.
use oxicache.Common.{
  ℕ, zero, suc, ◌≡◌, refl, sym, ap, ◌∙◌, ◌⊎◌, inl, inr, List, [], ◌∷◌, Option, none, some,
  Option-cases, Bytes, get_elem?, set,
}
use oxicache.Cache.Index.{Index}
use oxicache.Cache.Shard.{Shard, get, touch, del}
use oxicache.Cache.Shard.Capacity.{set_entry-capacity}
use oxicache.Cache.Shard as shard
use oxicache.Cache.Store.{
  Cache, Slot, Counts, Item, locate, put, got, get_at, get_in, shard_of, touched, look_at, look,
  count_at, set_at, set_one, del_at, del_one,
}
use mathlib.Core.Path.{subst}

module _ (hasher : Bytes → ℕ) (index : Index hasher) where
  unfoldable pub shard_at : Option (Slot hasher index) → Option (Shard hasher index)
  shard_at none = none
  shard_at (some slot) = some slot.shard

  unfoldable pub SameShards : Cache hasher index → Cache hasher index → Type 0
  SameShards c d =
      (c.shift ≡ d.shift)
      × ((i : ℕ) → shard_at (get_elem? c.shards i) ≡ shard_at (get_elem? d.shards i))

  pub SameShards-refl : (c : Cache hasher index) → SameShards c c
  unfolding SameShards
  SameShards-refl c = (refl, λ i. refl)

  pub SameShards-sym : (c d : Cache hasher index) → SameShards c d → SameShards d c
  unfolding SameShards
  SameShards-sym c d (p, f) = (sym p, λ i. sym (f i))

  pub SameShards-trans :
      (c d e : Cache hasher index) → SameShards c d → SameShards d e → SameShards c e
  unfolding SameShards
  SameShards-trans c d e (p, f) (q, g) = (p ∙ q, λ i. f i ∙ g i)

  set-shards :
      (xs ys : List (Slot hasher index)) (v w : Slot hasher index) (i : ℕ)
      → ((j : ℕ) → shard_at (get_elem? xs j) ≡ shard_at (get_elem? ys j))
      → v.shard ≡ w.shard
      → (j : ℕ) → shard_at (get_elem? (set xs i v) j) ≡ shard_at (get_elem? (set ys i w) j)
  unfolding shard_at
  set-shards [] [] v w i h same j = refl
  set-shards [] (y ∷ ys) v w i h same j = absurd (cc (h 0))
  set-shards (x ∷ xs) [] v w i h same j = absurd (cc (h 0))
  set-shards (x ∷ xs) (y ∷ ys) v w zero h same zero = ap some same
  set-shards (x ∷ xs) (y ∷ ys) v w zero h same (suc j) = h (suc j)
  set-shards (x ∷ xs) (y ∷ ys) v w (suc i) h same zero = h 0
  set-shards (x ∷ xs) (y ∷ ys) v w (suc i) h same (suc j) =
      set-shards xs ys v w i (λ k. h (suc k)) same j

  -- A field of the slots that a write leaves as it was is the same everywhere.
  unfoldable pub seen {ℓ} :
      {X : Type ℓ} → (Slot hasher index → X) → Option (Slot hasher index) → Option X
  seen f none = none
  seen f (some slot) = some (f slot)

  seen-set {ℓ} :
      {X : Type ℓ} (f : Slot hasher index → X) (xs : List (Slot hasher index))
      (slot w : Slot hasher index) (i : ℕ)
      → get_elem? xs i ≡ some slot
      → f w ≡ f slot
      → (j : ℕ) → seen f (get_elem? (set xs i w) j) ≡ seen f (get_elem? xs j)
  unfolding seen
  seen-set f [] slot w i h same j = refl
  seen-set f (x ∷ xs) slot w zero h same zero = ap some same ∙ ap (seen f) (sym h)
  seen-set f (x ∷ xs) slot w zero h same (suc j) = refl
  seen-set f (x ∷ xs) slot w (suc i) h same zero = refl
  seen-set f (x ∷ xs) slot w (suc i) h same (suc j) = seen-set f xs slot w i h same j

  shard_at-seen : (o : Option (Slot hasher index)) → shard_at o ≡ seen (λ s. s.shard) o
  unfolding shard_at seen
  shard_at-seen none = refl
  shard_at-seen (some slot) = refl

  put-SameShards :
      (c d : Cache hasher index) (v w : Slot hasher index) (i : ℕ)
      → SameShards c d
      → v.shard ≡ w.shard
      → SameShards (put hasher index c i v) (put hasher index d i w)
  unfolding SameShards put
  put-SameShards c d v w i (p, f) same = (p, set-shards c.shards d.shards v w i f same)

  put-SameShards_self :
      (c : Cache hasher index) (slot w : Slot hasher index) (i : ℕ)
      → get_elem? c.shards i ≡ some slot
      → w.shard ≡ slot.shard
      → SameShards (put hasher index c i w) c
  unfolding SameShards put
  put-SameShards_self c slot w i there same = (
    refl,
    λ j.
        shard_at-seen (get_elem? (set c.shards i w) j)
        ∙ seen-set (λ s. s.shard) c.shards slot w i there same j
        ∙ sym (shard_at-seen (get_elem? c.shards j)),
  )

  -- Counting changes no shard.
  pub count_at-SameShards :
      (c : Cache hasher index) (i : ℕ) (f : Counts → Counts)
      → SameShards (count_at hasher index c i f (get_elem? c.shards i)) c
  unfolding count_at
  count_at-SameShards c i f = elim (Option-cases (get_elem? c.shards i)) [
    | inl nowhere ↦ rw nowhere (SameShards-refl c)
    | inr (slot, there) ↦ rw there (put-SameShards_self c slot _ i there refl)
  ]

  same_at :
      (c d : Cache hasher index)
      → SameShards c d
      → (i : ℕ) → shard_at (get_elem? c.shards i) ≡ shard_at (get_elem? d.shards i)
  unfolding SameShards
  same_at c d (p, f) = f

  -- What two optional slots of the same shard are.
  slots-cases :
      (o o' : Option (Slot hasher index))
      → shard_at o ≡ shard_at o'
      → ((o ≡ none) × (o' ≡ none))
        ⊎ ((x y : Slot hasher index) × (o ≡ some x) × (o' ≡ some y) × (x.shard ≡ y.shard))
  unfolding shard_at
  slots-cases none none h = inl (refl, refl)
  slots-cases none (some y) h = absurd (cc)
  slots-cases (some x) none h = absurd (cc)
  slots-cases (some x) (some y) h = inr (x, y, refl, refl, cc)

  locate-Same :
      (c d : Cache hasher index) (k : Bytes)
      → SameShards c d
      → locate hasher index c k ≡ locate hasher index d k
  unfolding locate SameShards
  locate-Same c d k (p, f) = ap (λ s. (shard_of s (hasher k), hasher k)) p

  -- A step of `get_many` against a read by itself.
  look_at-get_at :
      (c d : Cache hasher index) (i h : ℕ) (k : Bytes)
      → SameShards c d
      → ((look_at hasher index c i h k (get_elem? c.shards i)).1
          ≡ (get_at hasher index d i h k (get_elem? d.shards i)).1)
        × SameShards
            ((look_at hasher index c i h k (get_elem? c.shards i)).0)
            ((get_at hasher index d i h k (get_elem? d.shards i)).0)
  unfolding look_at get_at
  look_at-get_at c d i h k same =
      elim (slots-cases (get_elem? c.shards i) (get_elem? d.shards i) (same_at c d same i)) [
        | inl (p, q) ↦ rw (p, q) (refl, same)
        | inr (x, y, p, q, e) ↦ rw (p, q) (here x y p q e)
      ]
    where
      here :
          (x y : Slot hasher index)
          → get_elem? c.shards i ≡ some x
          → get_elem? d.shards i ≡ some y
          → x.shard ≡ y.shard
          → (get hasher index x.shard h k
              ≡ (got hasher index d i y (get hasher index y.shard h k)).1)
            × SameShards
                (touched hasher index c i x (get hasher index x.shard h k))
                ((got hasher index d i y (get hasher index y.shard h k)).0)
      here x y p q e = elim (Option-cases (get hasher index y.shard h k)) [
        | inl missing ↦
            rw (ap (λ s. get hasher index s h k) e ∙ missing, missing)
              (unfold got touched in
                (
                  refl,
                  SameShards-trans c d _ same
                      (SameShards-sym _ d (put-SameShards_self d y _ i q refl)),
                ))
        | inr (v, found) ↦
            rw (ap (λ s. get hasher index s h k) e ∙ found, found)
              (unfold got touched in
                (refl, put-SameShards c d _ _ i same (ap (λ s. touch hasher index s v) e)))
      ]

  pub look-get_in :
      (c d : Cache hasher index) (k : Bytes)
      → SameShards c d
      → ((look hasher index c k).1 ≡ (get_in hasher index d k).1)
        × SameShards ((look hasher index c k).0) ((get_in hasher index d k).0)
  unfolding look get_in
  look-get_in c d k same =
      subst
        (λ l.
          ((look hasher index c k).1 ≡ (get_at hasher index d l.0 l.1 k (get_elem? d.shards l.0)).1)
          × SameShards ((look hasher index c k).0)
              ((get_at hasher index d l.0 l.1 k (get_elem? d.shards l.0)).0))
        (locate-Same c d k same)
        (look_at-get_at c d (locate hasher index c k).0 (locate hasher index c k).1 k same)

  set_at-SameShards :
      (c d : Cache hasher index) (i h : ℕ) (item : Item)
      → SameShards c d
      → SameShards
          ((set_at hasher index c i h item (get_elem? c.shards i)).0)
          ((set_at hasher index d i h item (get_elem? d.shards i)).0)
  unfolding set_at
  set_at-SameShards c d i h (id, k, v) same =
      elim (slots-cases (get_elem? c.shards i) (get_elem? d.shards i) (same_at c d same i)) [
        | inl (p, q) ↦ rw (p, q) same
        | inr (x, y, p, q, e) ↦
            rw (p, q)
              (put-SameShards c d _ _ i same (ap (λ s. (shard.set hasher index s id k v h).0) e))
      ]

  pub set_one-SameShards :
      (c d : Cache hasher index) (item : Item)
      → SameShards c d
      → SameShards ((set_one hasher index c item).0) ((set_one hasher index d item).0)
  unfolding set_one
  set_one-SameShards c d (id, k, v) same =
      subst
        (λ l.
          SameShards ((set_one hasher index c (id, k, v)).0)
            ((set_at hasher index d l.0 l.1 (id, k, v) (get_elem? d.shards l.0)).0))
        (locate-Same c d k same)
        (set_at-SameShards c d (locate hasher index c k).0 (locate hasher index c k).1 (id, k, v)
          same)

  del_at-SameShards :
      (c d : Cache hasher index) (i h : ℕ) (k : Bytes)
      → SameShards c d
      → ((del_at hasher index c i h k (get_elem? c.shards i)).1
          ≡ (del_at hasher index d i h k (get_elem? d.shards i)).1)
        × SameShards
            ((del_at hasher index c i h k (get_elem? c.shards i)).0)
            ((del_at hasher index d i h k (get_elem? d.shards i)).0)
  unfolding del_at
  del_at-SameShards c d i h k same =
      elim (slots-cases (get_elem? c.shards i) (get_elem? d.shards i) (same_at c d same i)) [
        | inl (p, q) ↦ rw (p, q) (refl, same)
        | inr (x, y, p, q, e) ↦
            rw (p, q)
              (
                ap (λ s. (del hasher index s h k).1) e,
                put-SameShards c d _ _ i same (ap (λ s. (del hasher index s h k).0) e),
              )
      ]

  pub del_one-SameShards :
      (c d : Cache hasher index) (k : Bytes)
      → SameShards c d
      → ((del_one hasher index c k).1 ≡ (del_one hasher index d k).1)
        × SameShards ((del_one hasher index c k).0) ((del_one hasher index d k).0)
  unfolding del_one
  del_one-SameShards c d k same =
      subst
        (λ l.
          ((del_one hasher index c k).1
            ≡ (del_at hasher index d l.0 l.1 k (get_elem? d.shards l.0)).1)
          × SameShards ((del_one hasher index c k).0)
              ((del_at hasher index d l.0 l.1 k (get_elem? d.shards l.0)).0))
        (locate-Same c d k same)
        (del_at-SameShards c d (locate hasher index c k).0 (locate hasher index c k).1 k same)

  -- The capacities of the shards, which nothing changes.
  unfoldable pub capacity_at : Option (Slot hasher index) → Option ℕ
  unfolding seen
  capacity_at o = seen (λ s. s.shard.capacity) o

  pub set_one-capacity :
      (c : Cache hasher index) (item : Item) (j : ℕ)
      → capacity_at (get_elem? (set_one hasher index c item).0.shards j)
        ≡ capacity_at (get_elem? c.shards j)
  unfolding set_one set_at put
  set_one-capacity c (id, k, v) j =
      elim (Option-cases (get_elem? c.shards (locate hasher index c k).0)) [
        | inl nowhere ↦ rw nowhere refl
        | inr (slot, there) ↦
            let stored = shard.set hasher index slot.shard id k v (locate hasher index c k).1 in
            let kept : stored.0.capacity ≡ slot.shard.capacity =
              unfold shard.set in set_entry-capacity hasher index slot.shard _ in
            rw there (
              unfold capacity_at in
              seen-set (λ s. s.shard.capacity) c.shards slot (record slot { shard = stored.0 })
                (locate hasher index c k).0 there kept j)
      ]

  pub SameShards-capacity :
      (c d : Cache hasher index)
      → SameShards c d
      → (j : ℕ) → capacity_at (get_elem? c.shards j) ≡ capacity_at (get_elem? d.shards j)
  SameShards-capacity c d same j =
      elim (slots-cases (get_elem? c.shards j) (get_elem? d.shards j) (same_at c d same j)) [
        | inl (p, q) ↦ rw (p, q) refl
        | inr (x, y, p, q, e) ↦ rw (p, q) (unfold capacity_at seen in ap (λ s. some s.capacity) e)
      ]
