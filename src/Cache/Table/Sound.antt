-- ===== src/Cache/Table/Sound.antt =====
-- When a table is sound at the positions that count: each word stands in a slot of one of its two
-- buckets, under its tag, and no two words are of the same key.
use oxicache.Common.{ℕ, ◌<◌, ◌≡◌, ◌≢◌, sym, ap, ◌∙◌, ◌⊎◌, inl, inr, Bytes, ◌↔◌}
use oxicache.Cache.Entry.{Entry}
use oxicache.Cache.Table.{Position, Table, slots, tag_of, tag_of_word, ptr_of, store}
use oxicache.Cache.Table.Placed.{
  same_position-cases, store-here, store-other, store-mask, Near, Near-mask,
}
use mathlib.Core.Path.{subst}

pub position-cases : (p q : Position) → (p ≡ q) ⊎ (p ≢ q)
position-cases p q = elim (same_position-cases p q) [ inl (e, h) ↦ inl h | inr (e, h) ↦ inr h ]

abbrev pub Everywhere : Position → Type 0
Everywhere q = Unit {0}

abbrev pub Except : Position → Position → Type 0
Except d q = q ≢ d

module _ (heap : ℕ → Entry) where
  abbrev pub key_at : ℕ → Bytes
  key_at w = (heap (ptr_of w)).key

  abbrev pub hash_at : ℕ → ℕ
  hash_at w = (heap (ptr_of w)).hash

  pub record Placed (t : Table) (p : Position) (w : ℕ) : Type 0 where
    pub near : Near t (hash_at w) p.0
    pub inside : p.1 < slots
    pub tagged : tag_of_word w ≡ tag_of (hash_at w)

  pub record Sound (t : Table) (In : Position → Type 0) : Type 0 where
    pub placed : (q : Position) → In q → t.words q ≢ 0 → Placed t q (t.words q)
    pub unique :
        (q r : Position)
        → In q
        → In r
        → t.words q ≢ 0
        → t.words r ≢ 0
        → key_at (t.words q) ≡ key_at (t.words r)
        → q ≡ r

  pub Placed-mask :
      (t u : Table) (p : Position) (w : ℕ) → u.mask ≡ t.mask → Placed t p w → Placed u p w
  Placed-mask t u p w e h = record {
    near = Near-mask t u (hash_at w) p.0 e h.near;
    inside = h.inside;
    tagged = h.tagged;
  }

  pub narrow :
      {t : Table} {In Out : Position → Type 0}
      → ((q : Position) → Out q → In q)
      → Sound t In
      → Sound t Out
  narrow h s = record {
    placed = λ q i. s.placed q (h q i);
    unique = λ q r i j. s.unique q r (h q i) (h r j);
  }

  -- A word is written at `d`.
  pub fill-Sound :
      (t : Table) (d : Position) (w : ℕ) {In Out : Position → Type 0}
      → Sound t In
      → ((q : Position) → Out q → q ≢ d → In q)
      → Placed t d w
      → ((q : Position) → In q → q ≢ d → t.words q ≢ 0 → key_at (t.words q) ≢ key_at w)
      → Sound (store t d w) Out
  fill-Sound t d w {In} {Out} s h k other = record {
    placed = λ q i z. elim (position-cases q d) [
      | inl e ↦
          subst (λ p. Placed (store t d w) p ((store t d w).words p)) (sym e)
            (rw (store-here t d w) (Placed-mask t (store t d w) d w (store-mask t d w) k))
      | inr n ↦
          let same = store-other t d q w n in
          rw same (
            Placed-mask t (store t d w) q (t.words q) (store-mask t d w)
              (s.placed q (h q i n) (λ e. z (same ∙ e))))
    ];
    unique = λ q r i j y z e. elim (position-cases q d) [
      | inl a ↦ elim (position-cases r d) [
        | inl b ↦ a ∙ sym b
        | inr b ↦ absurd (taken r (h r j b) b z (sym (at q a) ∙ e))
      ]
      | inr a ↦ elim (position-cases r d) [
        | inl b ↦ absurd (taken q (h q i a) a y (sym (at r b) ∙ sym e))
        | inr b ↦
            let same = store-other t d q w a in
            let same' = store-other t d r w b in
            s.unique q r (h q i a) (h r j b) (λ x. y (same ∙ x)) (λ x. z (same' ∙ x))
              (ap key_at (sym same) ∙ e ∙ ap key_at same')
      ]
    ];
  }
    where
      at : (q : Position) → q ≡ d → key_at ((store t d w).words q) ≡ key_at w
      at q e = ap (λ p. key_at ((store t d w).words p)) e ∙ ap key_at (store-here t d w)

      taken :
          (q : Position)
          → In q
          → q ≢ d
          → (store t d w).words q ≢ 0
          → key_at w ≢ key_at ((store t d w).words q)
      taken q i n z e =
          let same = store-other t d q w n in
          other q i n (λ x. z (same ∙ x)) (sym (e ∙ ap key_at same))

  -- The words that a table holds at the positions that count.
  abbrev pub Holds : Table → (Position → Type 0) → ℕ → Type 0
  Holds t In w = (w ≢ 0) × (q : Position) × In q × (t.words q ≡ w)

  -- A word moves from `p` to `d`, and `p` is spare then.
  pub hop-Sound :
      (t : Table) (p d : Position)
      → Sound t (Except d)
      → p ≢ d
      → t.words p ≢ 0
      → Placed t d (t.words p)
      → Sound (store t d (t.words p)) (Except p)
  hop-Sound t p d s n z k =
      fill-Sound t d (t.words p) {In = λ q. (q ≢ d) × (q ≢ p)} {Out = Except p}
        (narrow (λ q i. i.0) s) (λ q i j. (j, i)) k (λ q i j y e. i.1 (s.unique q p j n y z e))

  pub hop-Holds :
      (t : Table) (p d : Position) (v : ℕ)
      → p ≢ d
      → Holds t (Except d) v ↔ Holds (store t d (t.words p)) (Except p) v
  hop-Holds t p d v n = (there, back)
    where
      there : Holds t (Except d) v → Holds (store t d (t.words p)) (Except p) v
      there (z, q, i, e) = elim (position-cases q p) [
        | inl h ↦ (z, d, (λ a. n (sym a)), store-here t d (t.words p) ∙ ap t.words (sym h) ∙ e)
        | inr h ↦ (z, q, h, store-other t d q (t.words p) i ∙ e)
      ]

      back : Holds (store t d (t.words p)) (Except p) v → Holds t (Except d) v
      back (z, q, i, e) = elim (position-cases q d) [
        | inl h ↦ (
          z,
          p,
          n,
          sym (store-here t d (t.words p)) ∙ ap (store t d (t.words p)).words (sym h) ∙ e,
        )
        | inr h ↦ (z, q, h, sym (store-other t d q (t.words p) h) ∙ e)
      ]

  pub fill-Holds :
      (t : Table) (d : Position) (w v : ℕ)
      → w ≢ 0
      → Holds (store t d w) Everywhere v ↔ ((v ≡ w) ⊎ Holds t (Except d) v)
  fill-Holds t d w v z = (there, back)
    where
      there : Holds (store t d w) Everywhere v → (v ≡ w) ⊎ Holds t (Except d) v
      there (y, q, i, e) = elim (position-cases q d) [
        | inl h ↦ inl (sym e ∙ ap (store t d w).words h ∙ store-here t d w)
        | inr h ↦ inr (y, q, h, sym (store-other t d q w h) ∙ e)
      ]

      back : (v ≡ w) ⊎ Holds t (Except d) v → Holds (store t d w) Everywhere v
      back (inl e) = ((λ x. z (sym e ∙ x)), d, tt, store-here t d w ∙ sym e)
      back (inr (y, q, h, e)) = (y, q, tt, store-other t d q w h ∙ e)
