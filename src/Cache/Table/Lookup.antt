-- ===== src/Cache/Table/Lookup.antt =====
-- `Table::find` of crates/server/src/cache/table.rs, on a sound table.
use oxicache.Common.{
  ℕ, zero, suc, ◌+◌, ◌<◌, ◌≤◌, ◌≡◌, ◌≢◌, refl, sym, ap, ◌∙◌, ◌⊎◌, ◌↔◌, inl, inr, arith, Option,
  none, some,
}
use oxicache.Common.{Bool, true, false, false≢true, Bool-cases, ◌==◌, ==_iff, not, ◌&&◌, Bytes}
use oxicache.Cache.Entry.{Entry}
use oxicache.Cache.Table.{
  Position, Table, slots, home, alt, tag_of, tag_of_word, ptr_of, or_here, matches, find_from, find,
}
use oxicache.Cache.Table.Sound.{Everywhere, key_at, hash_at, Placed, Sound, Holds}
use oxicache.Cache.Table.Placed.{Near, different}
use mathlib.Core.Path.{subst}

all_iff : (a b c : Bool) → ((not a && (b && c)) ≡ true) ↔ ((a ≡ false) × (b ≡ true) × (c ≡ true))
all_iff true b c = ((λ h. absurd (false≢true h)), λ (h, k, l). absurd (false≢true (sym h)))
all_iff false false c = ((λ h. absurd (false≢true h)), λ (h, k, l). absurd (false≢true k))
all_iff false true c = ((λ h. (refl, refl, h)), λ (h, k, l). l)

module _ (heap : ℕ → Entry) (same_key : Bytes → Bytes → Bool)
    (same : (a b : Bytes) → (same_key a b ≡ true) ↔ (a ≡ b)) where
  matches_iff :
      (tag w : ℕ) (key : Bytes)
      → (matches heap same_key tag key w ≡ true)
        ↔ ((w ≢ 0) × (tag_of_word w ≡ tag) × (key_at heap w ≡ key))
  unfolding matches
  matches_iff tag w key =
      let (to, from) =
        all_iff (w == 0) (tag_of_word w == tag) (same_key (heap (ptr_of w)).key key) in
      (
        (λ h.
            let (z, g, k) = to h in
            (different w 0 z, (==_iff (tag_of_word w) tag).0 g, (same (key_at heap w) key).0 k)),
        λ (z, g, k).
            from (zero_test z, (==_iff (tag_of_word w) tag).1 g, (same (key_at heap w) key).1 k),
      )
    where
      zero_test : w ≢ 0 → (w == 0) ≡ false
      zero_test z = elim (Bool-cases (w == 0)) [ inl e ↦ absurd (z ((==_iff w 0).0 e)) | inr e ↦ e ]

  -- What the slots of one bucket say.
  abbrev Searched : Table → ℕ → Bytes → ℕ → ℕ → ℕ → Option (Position × ℕ) → Type 0
  Searched t tag key b i left none =
      (j : ℕ) → i ≤ j → j < i + left → matches heap same_key tag key (t.words (b, j)) ≡ false
  Searched t tag key b i left (some (p, w)) =
      (t.words p ≡ w) × (matches heap same_key tag key w ≡ true)

  Searched-next :
      (t : Table) (tag : ℕ) (key : Bytes) (b i left : ℕ) (o : Option (Position × ℕ))
      → matches heap same_key tag key (t.words (b, i)) ≡ false
      → Searched t tag key b (i + 1) left o
      → Searched t tag key b i (suc left) o
  Searched-next t tag key b i left (some (p, w)) n h = h
  Searched-next t tag key b i left none n h = λ j k l. elim (nat_cases i j k) [
    | inl e ↦ ap (λ q. matches heap same_key tag key (t.words (b, q))) (sym e) ∙ n
    | inr e ↦ h j e (omega (arith, l))
  ]
    where
      nat_cases : (i j : ℕ) → i ≤ j → (i ≡ j) ⊎ (i + 1 ≤ j)
      nat_cases i j h = omega (arith, h)

  find_from-Searched :
      (t : Table) (tag : ℕ) (key : Bytes) (b i left : ℕ)
      → Searched t tag key b i left (find_from heap same_key t tag key b i left)
  unfolding find_from
  find_from-Searched t tag key b i zero = λ j k l. absurd (omega (arith, k, l))
  find_from-Searched t tag key b i (suc left) =
      elim (Bool-cases (matches heap same_key tag key (t.words (b, i)))) [
        | inl e ↦ rw e (refl, e)
        | inr e ↦ rw e (
            Searched-next t tag key b i left (find_from heap same_key t tag key b (i + 1) left) e
              (find_from-Searched t tag key b (i + 1) left))
      ]

  abbrev Looked : Table → ℕ → Bytes → ℕ → ℕ → Option (Position × ℕ) → Type 0
  Looked t tag key b1 b2 none =
      Searched t tag key b1 0 slots none × Searched t tag key b2 0 slots none
  Looked t tag key b1 b2 (some (p, w)) = (t.words p ≡ w) × (matches heap same_key tag key w ≡ true)

  or_here-Looked :
      (t : Table) (tag : ℕ) (key : Bytes) (b1 b2 : ℕ) (o o' : Option (Position × ℕ))
      → Searched t tag key b1 0 slots o
      → Searched t tag key b2 0 slots o'
      → Looked t tag key b1 b2 (or_here o o')
  unfolding or_here
  or_here-Looked t tag key b1 b2 (some (p, w)) o' h k = h
  or_here-Looked t tag key b1 b2 none (some (p, w)) h k = k
  or_here-Looked t tag key b1 b2 none none h k = (h, k)

  find-Looked :
      (t : Table) (hash : ℕ) (key : Bytes)
      → Looked t
          (tag_of hash)
          key
          (home t hash)
          (alt t (home t hash) (tag_of hash))
          (find heap same_key t hash key)
  unfolding find
  find-Looked t hash key =
      let tag = tag_of hash in
      let b1 = home t hash in
      or_here-Looked t tag key b1 (alt t b1 tag) _ _ (find_from-Searched t tag key b1 0 slots)
        (find_from-Searched t tag key (alt t b1 tag) 0 slots)

  -- A word that stands in its place is not missed.
  seen :
      (t : Table) (hash : ℕ) (key : Bytes) (p : Position) (w : ℕ)
      → Sound heap t Everywhere
      → hash_at heap w ≡ hash
      → w ≢ 0
      → t.words p ≡ w
      → key_at heap w ≡ key
      → (o : Option (Position × ℕ))
      → Looked t (tag_of hash) key (home t hash) (alt t (home t hash) (tag_of hash)) o
      → o ≡ some (p, w)
  seen t hash key p w s h z e k none (l, m) =
      let at : Placed heap t p w = subst (Placed heap t p) e (s.placed p tt (λ x. z (sym e ∙ x))) in
      let hit = (matches_iff (tag_of hash) w key).1 (z, at.tagged ∙ ap tag_of h, k) in
      absurd (
        false≢true (
          elim (subst (λ x. Near t x p.0) h at.near) [
            | inl b ↦ sym (in_bucket b (l p.1 (omega arith) at.inside))
            | inr b ↦ sym (in_bucket b (m p.1 (omega arith) at.inside))
          ]
          ∙ hit))
    where
      in_bucket :
          {b : ℕ}
          → p.0 ≡ b
          → matches heap same_key (tag_of hash) key (t.words (b, p.1)) ≡ false
          → matches heap same_key (tag_of hash) key w ≡ false
      in_bucket g n =
          ap (matches heap same_key (tag_of hash) key) (sym e ∙ ap (λ c. t.words (c, p.1)) g) ∙ n
  seen t hash key p w s h z e k (some (q, v)) (f, y) =
      let (n, g, x) = (matches_iff (tag_of hash) v key).0 y in
      let here =
        s.unique q p tt tt (λ a. n (sym f ∙ a)) (λ a. z (sym e ∙ a))
          (ap (key_at heap) f ∙ x ∙ sym k ∙ ap (key_at heap) (sym e)) in
      ap some (λ i. (here i, (sym f ∙ ap t.words here ∙ e) i))

-- In a sound table whose words of the key `key` have the hash `hash`, a lookup of the key by its hash
-- finds the word `w` at the position `p` if and only if `w` is not empty, stands at `p` and is of
-- that key.
pub find_iff :
    (heap : ℕ → Entry) (same_key : Bytes → Bytes → Bool)
    (same : (a b : Bytes) → (same_key a b ≡ true) ↔ (a ≡ b)) (t : Table) (hash : ℕ) (key : Bytes)
    (p : Position) (w : ℕ)
    → Sound heap t Everywhere
    → ((v : ℕ) → Holds heap t Everywhere v → key_at heap v ≡ key → hash_at heap v ≡ hash)
    → (find heap same_key t hash key ≡ some (p, w))
      ↔ ((w ≢ 0) × (t.words p ≡ w) × (key_at heap w ≡ key))
find_iff heap same_key same t hash key p w s hashed = (there, back)
  where
    there :
        find heap same_key t hash key ≡ some (p, w)
        → (w ≢ 0) × (t.words p ≡ w) × (key_at heap w ≡ key)
    there e =
        let (f, y) =
          subst
            (Looked heap same_key same t (tag_of hash) key (home t hash)
              (alt t (home t hash) (tag_of hash)))
            e (find-Looked heap same_key same t hash key) in
        let (z, g, k) = (matches_iff heap same_key same (tag_of hash) w key).0 y in (z, f, k)

    back :
        (w ≢ 0) × (t.words p ≡ w) × (key_at heap w ≡ key)
        → find heap same_key t hash key ≡ some (p, w)
    back (z, e, k) =
        seen heap same_key same t hash key p w s (hashed w (z, p, tt, e) k) z e k
          (find heap same_key t hash key) (find-Looked heap same_key same t hash key)
