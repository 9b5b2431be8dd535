-- ===== src/Cache/Table/Placed.antt =====
-- Words of the cuckoo table (crates/server/src/cache/table.rs) and the buckets of their hashes.
use oxicache.Common.{ℕ, ◌*◌, ◌%◌, ◌≡◌, ◌≢◌, refl, sym, ap, ◌∙◌, ◌⊎◌, inl, inr}
use oxicache.Common.{true, false, Bool-cases, ◌==◌, ==_iff, false≢true, u64_mod}
use oxicache.Common.{bit_xor_masked_twice, bit_and_again}
use oxicache.Cache.Table.{Position, Table, home, alt, tag_of, same_position, store}
use Prim.Native.Nat.{bit_and, bit_or, bit_xor}

pub different : (a b : ℕ) → (a == b) ≡ false → a ≢ b
different a b e h = false≢true (sym e ∙ (==_iff a b).1 h)

pub same_position-cases :
    (p q : Position)
    → ((same_position p q ≡ true) × (p ≡ q)) ⊎ ((same_position p q ≡ false) × (p ≢ q))
unfolding same_position
same_position-cases (b, i) (c, j) = elim (Bool-cases (b == c)) [
  | inr other ↦ inr (rw other refl, λ e. different b c other (ap (λ z. z.0) e))
  | inl same ↦ elim (Bool-cases (i == j)) [
    | inr other ↦ inr (rw (same, other) refl, λ e. different i j other (ap (λ z. z.1) e))
    | inl here ↦ inl (rw (same, here) refl, λ k. ((==_iff b c).0 same k, (==_iff i j).0 here k))
  ]
]

pub store-here : (t : Table) (p : Position) (w : ℕ) → (store t p w).words p ≡ w
unfolding store
store-here t p w = elim (same_position-cases p p) [
  | inl (e, q) ↦ rw e refl
  | inr (e, n) ↦ absurd (n refl)
]

pub store-other : (t : Table) (p q : Position) (w : ℕ) → q ≢ p → (store t p w).words q ≡ t.words q
unfolding store
store-other t p q w n = elim (same_position-cases q p) [
  | inl (e, h) ↦ absurd (n h)
  | inr (e, h) ↦ rw e refl
]

pub store-mask : (t : Table) (p : Position) (w : ℕ) → (store t p w).mask ≡ t.mask
unfolding store
store-mask t p w = refl

pub alt-mask : (t u : Table) (b tag : ℕ) → u.mask ≡ t.mask → alt u b tag ≡ alt t b tag
unfolding alt
alt-mask t u b tag e = ap (bit_and (bit_xor b (bit_or (tag * 0x9E3779B9 % u64_mod) 1))) e

pub home-mask : (t u : Table) (hash : ℕ) → u.mask ≡ t.mask → home u hash ≡ home t hash
unfolding home
home-mask t u hash e = ap (bit_and hash) e

-- From the alternative of a home, one hop leads back.
pub alt-alt : (t : Table) (hash tag : ℕ) → alt t (alt t (home t hash) tag) tag ≡ home t hash
unfolding home alt
alt-alt t hash tag =
    bit_xor_masked_twice (bit_and hash t.mask) (bit_or (tag * 0x9E3779B9 % u64_mod) 1) t.mask
      (bit_and_again hash t.mask)

-- The two buckets of a hash.
abbrev pub Near : Table → ℕ → ℕ → Type 0
Near t hash b = (b ≡ home t hash) ⊎ (b ≡ alt t (home t hash) (tag_of hash))

pub Near-alt : (t : Table) (hash b : ℕ) → Near t hash b → Near t hash (alt t b (tag_of hash))
Near-alt t hash b (inl e) = inr (ap (λ z. alt t z (tag_of hash)) e)
Near-alt t hash b (inr e) = inl (ap (λ z. alt t z (tag_of hash)) e ∙ alt-alt t hash (tag_of hash))

pub Near-mask : (t u : Table) (hash b : ℕ) → u.mask ≡ t.mask → Near t hash b → Near u hash b
Near-mask t u hash b e (inl h) = inl (h ∙ sym (home-mask t u hash e))
Near-mask t u hash b e (inr h) = inr (
    h
    ∙ sym (alt-mask t u (home t hash) (tag_of hash) e)
    ∙ ap (λ z. alt u z (tag_of hash)) (sym (home-mask t u hash e)))
