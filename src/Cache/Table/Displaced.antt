-- ===== src/Cache/Table/Displaced.antt =====
-- `Index::place` of crates/server/src/cache/table.rs: the moves of a displacement, and the word that is
-- placed.
use oxicache.Common.{
  ℕ, ◌<◌, ◌≡◌, ◌≢◌, refl, sym, ap, ◌∙◌, ◌⊎◌, ◌↔◌, inl, inr, arith, List, [], ◌∷◌, Option, none,
  some, false,
}
use oxicache.Cache.Entry.{Entry}
use oxicache.Cache.Table.{
  Position, Table, slots, home, alt, tag_of, tag_of_word, empty_slot, or_here, contains, Hops,
  find_path, shift, displaced, store, slot_in, place_in, place,
}
use oxicache.Cache.Table.Placed.{store-other, store-mask, alt-mask, Near, Near-alt}
use oxicache.Cache.Table.Sound.{
  Everywhere, Except, key_at, hash_at, Placed, Sound, Placed-mask, narrow, Holds, fill-Sound,
  hop-Sound, hop-Holds, fill-Holds,
}
use oxicache.Cache.Table.Paths.{
  first, Chain, Full, Leads, Emptied, empty_slot-Emptied, contains-cons, find_path-Leads,
}
use mathlib.Core.Path.{subst}

module _ (heap : ℕ → Entry) where
  hop-Placed :
      (t : Table) (p d : Position) (w : ℕ)
      → Placed heap t p w
      → d.0 ≡ alt t p.0 (tag_of_word w)
      → d.1 < slots
      → Placed heap t d w
  hop-Placed t p d w h e l = record {
    near =
        let there = e ∙ ap (alt t p.0) h.tagged in
        subst (Near t (hash_at heap w)) (sym there) (Near-alt t (hash_at heap w) p.0 h.near);
    inside = l;
    tagged = h.tagged;
  }

  -- What the moves along a path have made of a table: the first slot of the path is spare now.
  record Shifted (t : Table) (path : List Position) (dest : Position) (u : Table) (d : Position)
      : Type 0 where
    mask : u.mask ≡ t.mask
    sound : Sound heap u (Except d)
    holds : (v : ℕ) → Holds heap t (Except dest) v ↔ Holds heap u (Except d) v
    bucket : d.0 ≡ first path dest.0
    inside : d.1 < slots
    apart : (q : Position) → q ≢ dest → contains q path ≡ false → (u.words q ≡ t.words q) × (q ≢ d)

  Shifted-cons :
      (t : Table) (p : Position) (path : List Position) (dest : Position) (u : Table) (d : Position)
      → Shifted t path dest u d
      → t.words dest ≡ 0
      → t.words p ≢ 0
      → p.1 < slots
      → contains p path ≡ false
      → first path dest.0 ≡ alt t p.0 (tag_of_word (t.words p))
      → Shifted t (p ∷ path) dest (store u d (u.words p)) p
  Shifted-cons t p path dest u d h empty z l out link =
      let p≢dest : p ≢ dest = λ e. z (ap t.words e ∙ empty) in
      let (same, p≢d) = h.apart p p≢dest out in
      let full : u.words p ≢ 0 = λ e. z (sym same ∙ e) in
      let there : d.0 ≡ alt u p.0 (tag_of_word (u.words p)) =
        h.bucket
        ∙ link
        ∙ sym (alt-mask t u p.0 (tag_of_word (t.words p)) h.mask)
        ∙ ap (λ w. alt u p.0 (tag_of_word w)) (sym same) in
      let moved = hop-Placed u p d (u.words p) (h.sound.placed p p≢d full) there h.inside in
      record {
        mask = store-mask u d (u.words p) ∙ h.mask;
        sound = hop-Sound heap u p d h.sound p≢d full moved;
        holds = λ v.
            let (to, from) = h.holds v in
            let (to', from') = hop-Holds heap u p d v p≢d in
            ((λ x. to' (to x)), λ x. from (from' x));
        bucket = refl;
        inside = l;
        apart = λ q n k.
            let (q≢p, k') = contains-cons q p path k in
            let (e, q≢d) = h.apart q n k' in (store-other u d q (u.words p) q≢d ∙ e, q≢p);
      }

  shift-Shifted :
      (t : Table) (path : List Position) (dest : Position)
      → Chain t path dest.0
      → t.words dest ≡ 0
      → dest.1 < slots
      → Sound heap t (Except dest)
      → Shifted t path dest ((shift t path dest).0) ((shift t path dest).1)
  unfolding shift Chain
  shift-Shifted t [] dest c empty l s = record {
    mask = refl;
    sound = s;
    holds = λ v. ((λ x. x), λ x. x);
    bucket = refl;
    inside = l;
    apart = λ q n k. (refl, n);
  }
  shift-Shifted t (p ∷ path) dest (z, k, out, link, c) empty l s =
      Shifted-cons t p path dest ((shift t path dest).0) ((shift t path dest).1)
        (shift-Shifted t path dest c empty l s) empty z k out link

  -- An empty position may be left out.
  spare-Holds :
      (t : Table) (d : Position) (v : ℕ)
      → t.words d ≡ 0
      → Holds heap t Everywhere v ↔ Holds heap t (Except d) v
  spare-Holds t d v e = (
    λ (z, q, i, h). (z, q, (λ x. z (sym h ∙ ap t.words x ∙ e)), h),
    λ (z, q, i, h). (z, q, tt, h),
  )

  -- The table after a placement of `w`, if there is one.
  abbrev Kept : Table → ℕ → Option Table → Type 0
  Kept t w none = Unit {0}
  Kept t w (some u) =
      (u.mask ≡ t.mask)
      × Sound heap u Everywhere
      × ((v : ℕ) → Holds heap u Everywhere v ↔ ((v ≡ w) ⊎ Holds heap t Everywhere v))

  -- A word for `hash` that no word of the table shares its key with.
  pub record New (t : Table) (hash w : ℕ) : Type 0 where
    pub full : w ≢ 0
    pub hashed : hash_at heap w ≡ hash
    pub tagged : tag_of_word w ≡ tag_of hash
    pub absent : (v : ℕ) → Holds heap t Everywhere v → key_at heap v ≢ key_at heap w

  New-Placed :
      (t : Table) (hash w : ℕ) (d : Position)
      → New t hash w
      → Near t hash d.0
      → d.1 < slots
      → Placed heap t d w
  New-Placed t hash w d n near l = record {
    near = subst (λ h. Near t h d.0) (sym n.hashed) near;
    inside = l;
    tagged = n.tagged ∙ ap tag_of (sym n.hashed);
  }

  -- The word is written at the spare position of `u`, which holds what `t` holds.
  written-Kept :
      (t u : Table) (d : Position) (hash w : ℕ)
      → u.mask ≡ t.mask
      → Sound heap u (Except d)
      → ((v : ℕ) → Holds heap t Everywhere v ↔ Holds heap u (Except d) v)
      → New t hash w
      → Near t hash d.0
      → d.1 < slots
      → Kept t w (some (store u d w))
  written-Kept t u d hash w m s same n near l = (
    store-mask u d w ∙ m,
    fill-Sound heap u d w {In = Except d} {Out = Everywhere} s (λ q i k. k)
        (Placed-mask heap t u d w m (New-Placed t hash w d n near l))
        (λ q i k z. n.absent (u.words q) ((same (u.words q)).1 (z, q, i, refl))),
    λ v. held v,
  )
    where
      held : (v : ℕ) → Holds heap (store u d w) Everywhere v ↔ ((v ≡ w) ⊎ Holds heap t Everywhere v)
      held v =
          let (to, from) = fill-Holds heap u d w v n.full in
          (
            (λ x. elim (to x) [ inl e ↦ inl e | inr h ↦ inr ((same v).1 h) ]),
            λ x. from (elim x [ inl e ↦ inl e | inr h ↦ inr ((same v).0 h) ]),
          )

  displaced-Kept :
      (t : Table) (hash w seed : ℕ) (found : Option Hops)
      → Sound heap t Everywhere
      → New t hash w
      → Leads t (Near t hash) (seed, found)
      → Kept t w ((displaced t w (seed, found)).1)
  unfolding displaced Leads
  displaced-Kept t hash w seed none s n h = tt
  displaced-Kept t hash w seed (some (path, dest)) s n (c, empty, l, start) =
      let g = shift-Shifted t path dest c empty l (narrow heap (λ q i. tt) s) in
      written-Kept t ((shift t path dest).0) ((shift t path dest).1) hash w g.mask g.sound
        (λ v.
          let (to, from) = spare-Holds t dest v empty in
          let (to', from') = g.holds v in ((λ x. to' (to x)), λ x. from (from' x)))
        n (subst (Near t hash) (sym g.bucket) start) g.inside

  -- What is asked of the choice of an empty slot.
  abbrev Chosen : Table → ℕ → Option Position → Type 0
  Chosen t hash none = Full t (home t hash) × Full t (alt t (home t hash) (tag_of hash))
  Chosen t hash (some p) = (t.words p ≡ 0) × Near t hash p.0 × (p.1 < slots)

  slot_in-Chosen :
      (t : Table) (hash : ℕ) (o o' : Option ℕ)
      → Emptied t (home t hash) 0 slots o
      → Emptied t (alt t (home t hash) (tag_of hash)) 0 slots o'
      → Chosen t hash
          (or_here (slot_in (home t hash) o) (slot_in (alt t (home t hash) (tag_of hash)) o'))
  unfolding or_here slot_in
  slot_in-Chosen t hash (some i) o' (z, l) h = (z, inl refl, l)
  slot_in-Chosen t hash none (some i) h (z, l) = (z, inr refl, l)
  slot_in-Chosen t hash none none h h' = ((λ i l. h i (omega arith) l), λ i l. h' i (omega arith) l)

  place_in-Kept :
      (t : Table) (seed hash w : ℕ) (o : Option Position)
      → Sound heap t Everywhere
      → New t hash w
      → Chosen t hash o
      → Kept t w ((place_in t seed (home t hash) (alt t (home t hash) (tag_of hash)) w o).1)
  unfolding place_in
  place_in-Kept t seed hash w (some p) s n (empty, near, l) =
      written-Kept t t p hash w refl (narrow heap (λ q i. tt) s) (λ v. spare-Holds t p v empty) n
        near l
  place_in-Kept t seed hash w none s n (f, g) =
      let b1 = home t hash in
      let b2 = alt t (home t hash) (tag_of hash) in
      displaced-Kept t hash w ((find_path t b1 b2 seed).0) ((find_path t b1 b2 seed).1) s n
        (find_path-Leads t b1 b2 seed f g)

  place-Kept :
      (t : Table) (seed hash w : ℕ)
      → Sound heap t Everywhere
      → New t hash w
      → Kept t w ((place t seed hash w).1)
  unfolding place
  place-Kept t seed hash w s n =
      let b1 = home t hash in
      let b2 = alt t (home t hash) (tag_of hash) in
      place_in-Kept t seed hash w _ s n (
        slot_in-Chosen t hash (empty_slot t b1) (empty_slot t b2) (empty_slot-Emptied t b1)
          (empty_slot-Emptied t b2))

-- A word is placed in a sound table, under the tag of its hash, when no word of the table is of its
-- key. If `place` finds it a slot, displacing others or not, then the table that results is sound and
-- holds that word and exactly those that it held; its buckets are as many.
pub place-Sound :
    (heap : ℕ → Entry) (t u : Table) (seed hash w : ℕ)
    → Sound heap t Everywhere
    → New heap t hash w
    → (place t seed hash w).1 ≡ some u
    → (u.mask ≡ t.mask)
      × Sound heap u Everywhere
      × ((v : ℕ) → Holds heap u Everywhere v ↔ ((v ≡ w) ⊎ Holds heap t Everywhere v))
place-Sound heap t u seed hash w s n e = subst (Kept heap t w) e (place-Kept heap t seed hash w s n)
