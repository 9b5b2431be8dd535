-- ===== src/Cache/Store/Batches.antt =====
-- A batch of reads against the same reads one by one, and what a batch of writes refuses.
use oxicache.Common.{
  ℕ, zero, suc, ◌+◌, ◌≤◌, ◌≡◌, refl, sym, ap, ◌∙◌, ◌⊎◌, inl, inr, arith, List, [], ◌∷◌, map, Option,
  none, some, Option-cases,
}
use oxicache.Common.{get_elem?, set, length, All, Bytes, Result, ok, err}
use oxicache.Cache.Entry.{Entry, TooLarge, entry_overhead}
use oxicache.Cache.Index.{Index}
use oxicache.Cache.Shard.{Shard, get, touch}
use oxicache.Cache.Store.{
  Cache, Slot, Item, locate, put, got, get_at, get_in, touched, look_at, look, look_all, get_many,
}

module _ (hasher : Bytes → ℕ) (index : Index hasher) where
  table_of : Option (Slot hasher index) → Option index.Table
  table_of none = none
  table_of (some slot) = some slot.shard.table

  answer : Option index.Table → ℕ → Bytes → Option Entry
  answer none h key = none
  answer (some t) h key = index.get t h key

  -- What the shards' tables answer for a key.
  peek : Cache hasher index → Bytes → Option Entry
  peek c key =
      let (i, h) = locate hasher index c key in answer (table_of (get_elem? c.shards i)) h key

  -- The tables of two caches agree, and so do the shards that they choose.
  SameTables : Cache hasher index → Cache hasher index → Type 0
  SameTables c d =
      (c.shift ≡ d.shift)
      × ((i : ℕ) → table_of (get_elem? c.shards i) ≡ table_of (get_elem? d.shards i))

  same_peek : (c d : Cache hasher index) (key : Bytes) → SameTables c d → peek c key ≡ peek d key
  unfolding peek locate SameTables
  same_peek c d key (shift, tables) = rw shift (rw (tables _) refl)

  set-tables :
      (xs : List (Slot hasher index)) (i j : ℕ) (slot slot' : Slot hasher index)
      → get_elem? xs i ≡ some slot
      → slot'.shard.table ≡ slot.shard.table
      → table_of (get_elem? (set xs i slot') j) ≡ table_of (get_elem? xs j)
  unfolding table_of
  set-tables [] i j slot slot' h same = refl
  set-tables (x ∷ xs) zero zero slot slot' h same = ap some same ∙ ap table_of (sym h)
  set-tables (x ∷ xs) zero (suc j) slot slot' h same = refl
  set-tables (x ∷ xs) (suc i) zero slot slot' h same = refl
  set-tables (x ∷ xs) (suc i) (suc j) slot slot' h same = set-tables xs i j slot slot' h same

  touch-table : (s : Shard hasher index) (e : Entry) → (touch hasher index s e).table ≡ s.table
  unfolding touch
  touch-table s e = ground arith

  put-SameTables :
      (c : Cache hasher index) (i : ℕ) (slot slot' : Slot hasher index)
      → get_elem? c.shards i ≡ some slot
      → slot'.shard.table ≡ slot.shard.table
      → SameTables (put hasher index c i slot') c
  unfolding put SameTables
  put-SameTables c i slot slot' h same = (refl, λ j. set-tables c.shards i j slot slot' h same)

  -- A read by itself, or within a batch, answers what the tables say, and leaves them alone.
  get_in-peek : (c : Cache hasher index) (key : Bytes) → (get_in hasher index c key).1 ≡ peek c key
  unfolding get_in peek get_at table_of answer get
  get_in-peek c key = elim (Option-cases (get_elem? c.shards (locate hasher index c key).0)) [
    | inl nowhere ↦ rw nowhere refl
    | inr (slot, there) ↦
        rw there
          (elim (Option-cases (index.get slot.shard.table (locate hasher index c key).1 key)) [
            | inl missing ↦ rw missing (unfold got in refl)
            | inr (e, found) ↦ rw found (unfold got in refl)
          ])
  ]

  look-peek :
      (c : Cache hasher index) (key : Bytes)
      → ((look hasher index c key).1 ≡ peek c key) × SameTables ((look hasher index c key).0) c
  unfolding look peek look_at table_of answer get
  look-peek c key = elim (Option-cases (get_elem? c.shards (locate hasher index c key).0)) [
    | inl nowhere ↦ rw nowhere (refl, unfold SameTables in (refl, λ i. refl))
    | inr (slot, there) ↦
        rw there
          (elim (Option-cases (index.get slot.shard.table (locate hasher index c key).1 key)) [
            | inl missing ↦ rw missing (refl, unfold touched SameTables in (refl, λ i. refl))
            | inr (e, found) ↦
                rw found (
                  refl,
                  unfold touched in put-SameTables c _ slot _ there (touch-table slot.shard e),
                )
          ])
  ]

  SameTables-trans : (c d e : Cache hasher index) → SameTables c d → SameTables d e → SameTables c e
  unfolding SameTables
  SameTables-trans c d e (p, f) (q, g) = (p ∙ q, λ i. f i ∙ g i)

  look_all-peek :
      (c d : Cache hasher index) (keys : List Bytes)
      → SameTables d c
      → (look_all hasher index d keys).1 ≡ map (peek c) keys
  unfolding look_all
  look_all-peek c d [] same = refl
  look_all-peek c d (k ∷ ks) same =
      let (answers, kept) = look-peek d k in
      rw (answers ∙ same_peek d c k same) (
        ap (λ es. peek c k ∷ es)
          (look_all-peek c ((look hasher index d k).0) ks (SameTables-trans _ d c kept same)))

same_map {ℓ κ} :
    {A : Type ℓ} {B : Type κ} (f g : A → B)
    → ((a : A) → f a ≡ g a)
    → (xs : List A) → map f xs ≡ map g xs
same_map f g h [] = refl
same_map f g h (a ∷ rest) = rw (h a) (ap (λ bs. g a ∷ bs) (same_map f g h rest))

-- `get_many` answers every key, in order, as `get_in` answers it alone on the cache as it was.
pub get_many-get_in :
    (hasher : Bytes → ℕ) (index : Index hasher) (c : Cache hasher index) (keys : List Bytes)
    → (get_many hasher index c keys).1 ≡ map (λ k. (get_in hasher index c k).1) keys
unfolding get_many
get_many-get_in hasher index c [] = refl
get_many-get_in hasher index c (k ∷ ks) =
    look_all-peek hasher index c c (k ∷ ks) (unfold SameTables in (refl, λ i. refl))
    ∙ same_map _ _ (λ key. sym (get_in-peek hasher index c key)) (k ∷ ks)

-- The shard that answers for all of a batch takes every item of it.
pub AllFit : Option ℕ → List Item → Type 0
AllFit none items = Unit
AllFit (some capacity) items =
    All (λ item. length item.1 + length item.2 + entry_overhead ≤ capacity) items

-- What the batch is checked against: the capacity of the first shard.
pub first_capacity :
    {hasher : Bytes → ℕ} {index : Index hasher} → Option (Slot hasher index) → Option ℕ
first_capacity none = none
first_capacity (some slot) = some slot.shard.capacity

Checked : Option ℕ → List Item → Result TooLarge (Unit {0}) → Type 0
Checked first items r =
    (AllFit first items × (r ≡ ok tt)) ⊎ ((AllFit first items → ⊥) × (e : TooLarge) × (r ≡ err e))
