-- ===== src/Cache/Store/Range.antt =====
-- The shard that a key's hash picks is one of the cache's.
use oxicache.Common.{
  ℕ, zero, suc, ◌+◌, ◌-◌, ◌*◌, ◌^◌, ◌≤◌, ◌<◌, ◌≡◌, refl, sym, ap, ◌∙◌, inl, inr, arith,
}
use oxicache.Common.{Bool-cases, leb, ◌==◌, length, Bytes}
use oxicache.Cache.Index.{Index}
use oxicache.Cache.Store.{ceil_log2, copies, new_cache, shard_of, locate}
use mathlib.Core.Path.{subst}
use native.Mathlib.Nat.{pow-suc, pow-zero, mul_assoc, one-le-pow, div-lt_iff_lt-mul}

length-copies {ℓ} : {A : Type ℓ} (n : ℕ) (a : A) → length (copies n a) ≡ n
unfolding copies
length-copies zero a = refl
length-copies (suc n) a = ap suc (length-copies n a)

plus_zero : (a : ℕ) → a + 0 ≡ a
plus_zero a = omega arith

plus_suc : (a b : ℕ) → a + suc b ≡ suc (a + b)
plus_suc a b = omega arith

pow-add : (a b : ℕ) → 2 ^ (a + b) ≡ 2 ^ a * 2 ^ b
pow-add a zero = ap (λ z. 2 ^ z) (plus_zero a) ∙ omega (arith, pow-zero 2)
pow-add a (suc b) =
    ap (λ z. 2 ^ z) (plus_suc a b)
    ∙ pow-suc 2 (a + b)
    ∙ ap (λ z. z * 2) (pow-add a b)
    ∙ mul_assoc (2 ^ a) (2 ^ b) 2
    ∙ ap (λ z. 2 ^ a * z) (sym (pow-suc 2 b))

ceil_log2-le : (fuel n k : ℕ) → ceil_log2 fuel n k ≤ k + fuel
unfolding ceil_log2
ceil_log2-le zero n k = omega arith
ceil_log2-le (suc fuel) n k = elim (Bool-cases (leb n (2 ^ k))) [
  | inl enough ↦ rw enough (omega arith)
  | inr few ↦ rw few (omega (arith, ceil_log2-le fuel n (k + 1)))
]

split : (k : ℕ) → k ≤ 64 → 64 ≡ k + (64 - k)
split k h = omega arith

shard_of-lt : (k h : ℕ) → k ≤ 64 → h < 2 ^ 64 → shard_of (64 - k) h < 2 ^ k
unfolding shard_of
shard_of-lt k h small below = elim (Bool-cases (64 - k == 64)) [
  | inl whole ↦ rw whole (one-le-pow k 2 (omega arith))
  | inr parts ↦ rw parts (
      (div-lt_iff_lt-mul (one-le-pow (64 - k) 2 (omega arith))).1
        (subst (λ z. h < z) (ap (λ z. 2 ^ z) (split k small) ∙ pow-add k (64 - k)) below))
]

-- For every 64-bit hash, the index by which `locate` reaches into the shards of a new cache, without
-- a bounds check, is below their number.
pub locate-lt :
    (hasher : Bytes → ℕ) (index : Index hasher) (capacity shards : ℕ) (key : Bytes)
    → hasher key < 2 ^ 64
    → (locate hasher index (new_cache hasher index capacity shards) key).0
      < length ((new_cache hasher index capacity shards).shards)
unfolding locate new_cache
locate-lt hasher index capacity shards key below =
    rw (length-copies (2 ^ ceil_log2 64 shards 0) _) (
      shard_of-lt (ceil_log2 64 shards 0) (hasher key) (omega (arith, ceil_log2-le 64 shards 0))
        below)
