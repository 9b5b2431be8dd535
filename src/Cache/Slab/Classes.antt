-- ===== src/Cache/Slab/Classes.antt =====
-- The size classes: each allocation gets the smallest chunk that holds it.
use oxicache.Common.{
  ℕ, zero, suc, ◌+◌, ◌-◌, ◌*◌, ◌/◌, ◌%◌, ◌^◌, ◌≤◌, ◌<◌, ◌≡◌, refl, ap, ◌∙◌, ◌⊎◌, inl, inr, arith,
  some,
}
use oxicache.Common.{Bool-cases, ltb, leb, ltb→lt, ltb→le, leb→le, leb→lt, lt→ltb, le→ltb}
use oxicache.Cache.Slab.{
  max_slab, linear_max, classes, div_ceil, high_bit, class_above, class_of, class_size,
}
use mathlib.Core.Path.{subst}
use native.Mathlib.Nat.{pow-suc, pow-zero, pow-le-pow_right}

high_bit_bounds :
    (fuel n : ℕ)
    → 0 < n
    → n < 2 ^ fuel
    → (2 ^ high_bit fuel n ≤ n) × (n < 2 ^ suc (high_bit fuel n))
unfolding high_bit
high_bit_bounds zero n h below = absurd (omega (arith, pow-zero 2))
high_bit_bounds (suc fuel) n h below = elim (Bool-cases (ltb n 2)) [
  | inl small ↦ rw small (omega (arith, ltb→lt _ _ small), omega (arith, ltb→lt _ _ small))
  | inr large ↦
      let two = ltb→le _ _ large in
      let (lo, hi) =
        high_bit_bounds fuel (n / 2) (omega (arith, two)) (omega (arith, pow-suc 2 fuel)) in
      rw large (
        omega (arith, lo, pow-suc 2 (high_bit fuel (n / 2))),
        omega (arith, hi, pow-suc 2 (suc (high_bit fuel (n / 2)))),
      )
]

-- Chunk sizes above the linear classes, four to a doubling.
class_size_above :
    (j s : ℕ) → s < 4 → class_size (16 + 4 * j + s) ≡ 2 ^ (10 + j) + (s + 1) * 2 ^ (10 + j - 2)
unfolding class_size
class_size_above j s h =
    let q : (16 + 4 * j + s - 16) / 4 ≡ j = omega arith in
    let r : (16 + 4 * j + s - 16) % 4 ≡ s = omega arith in
    rw (le→ltb (16 + 4 * j + s) 16 (omega arith), q, r) refl

abbrev Quarter : ℕ → ℕ → ℕ → Type 0
Quarter size j s =
    (s < 4)
    × (class_above size (10 + j) ≡ 16 + 4 * j + s)
    × (size ≤ 2 ^ (10 + j) + (s + 1) * 2 ^ (10 + j - 2))
    × (2 ^ (10 + j) + s * 2 ^ (10 + j - 2) < size)
    × ((2 ^ (10 + j) + (s + 1) * 2 ^ (10 + j - 2)) % 64 ≡ 0)

-- Which quarter of its doubling a size lies in.
quarter :
    (size j : ℕ) → j < 6 → 2 ^ (10 + j) < size → size ≤ 2 ^ (11 + j) → (s : ℕ) × Quarter size j s
unfolding class_above div_ceil
quarter size zero h lo hi = (
  div_ceil (size - 1024) 256 - 1,
  (omega arith, omega arith, omega arith, omega arith, omega arith),
)
quarter size (suc zero) h lo hi = (
  div_ceil (size - 2048) 512 - 1,
  (omega arith, omega arith, omega arith, omega arith, omega arith),
)
quarter size (suc (suc zero)) h lo hi = (
  div_ceil (size - 4096) 1024 - 1,
  (omega arith, omega arith, omega arith, omega arith, omega arith),
)
quarter size (suc (suc (suc zero))) h lo hi = (
  div_ceil (size - 8192) 2048 - 1,
  (omega arith, omega arith, omega arith, omega arith, omega arith),
)
quarter size (suc (suc (suc (suc zero)))) h lo hi = (
  div_ceil (size - 16384) 4096 - 1,
  (omega arith, omega arith, omega arith, omega arith, omega arith),
)
quarter size (suc (suc (suc (suc (suc zero))))) h lo hi = (
  div_ceil (size - 32768) 8192 - 1,
  (omega arith, omega arith, omega arith, omega arith, omega arith),
)
quarter size (suc (suc (suc (suc (suc (suc j)))))) h lo hi = absurd (omega arith)

-- The class below the first quarter of a doubling is the last one of the doubling before.
class_size_before : (j : ℕ) → j < 6 → class_size (16 + 4 * j - 1) ≡ 2 ^ (10 + j)
class_size_before zero h = unfold class_size in refl
class_size_before (suc zero) h = class_size_above 0 3 (omega arith)
class_size_before (suc (suc zero)) h = class_size_above 1 3 (omega arith)
class_size_before (suc (suc (suc zero))) h = class_size_above 2 3 (omega arith)
class_size_before (suc (suc (suc (suc zero)))) h = class_size_above 3 3 (omega arith)
class_size_before (suc (suc (suc (suc (suc zero))))) h = class_size_above 4 3 (omega arith)
class_size_before (suc (suc (suc (suc (suc (suc j)))))) h = absurd (omega arith)

class_size_below :
    (j s : ℕ)
    → j < 6
    → s < 4
    → class_size (16 + 4 * j + s - 1) ≡ 2 ^ (10 + j) + s * 2 ^ (10 + j - 2)
class_size_below j zero h h' =
    let same : 16 + 4 * j + 0 - 1 ≡ 16 + 4 * j - 1 = omega arith in
    ap class_size same ∙ class_size_before j h ∙ omega arith
class_size_below j (suc s) h h' =
    let same : 16 + 4 * j + suc s - 1 ≡ 16 + 4 * j + s = omega arith in
    let shift : s + 1 ≡ suc s = omega arith in
    ap class_size same
    ∙ class_size_above j s (omega arith)
    ∙ ap (λ z. 2 ^ (10 + j) + z * 2 ^ (10 + j - 2)) shift

-- The class holds the size, and no smaller class does; its chunks are cache-line aligned.
pub Serves : ℕ → ℕ → Type 0
Serves size c =
    (c < classes)
    × (size ≤ class_size c)
    × ((c ≡ 0) ⊎ (class_size (c - 1) < size))
    × (class_size c % 64 ≡ 0)

linear_lem : (size : ℕ) → 0 < size → size ≤ linear_max → Serves size (div_ceil size 64 - 1)
unfolding Serves class_size div_ceil
linear_lem size h h' =
    let c = (size + 63) / 64 - 1 in
    rw (lt→ltb c 16 (omega arith), lt→ltb (c - 1) 16 (omega arith))
      (omega arith, omega arith, omega arith, omega arith)

above_lem :
    (size j : ℕ)
    → j < 6
    → 2 ^ (10 + j) < size
    → size ≤ 2 ^ (11 + j)
    → Serves size (class_above size (10 + j))
unfolding Serves
above_lem size j h lo hi =
    let (s, (small, is, fits, above, lines)) = quarter size j h lo hi in
    rw (is, class_size_above j s small, class_size_below j s h small)
      (omega (arith, small, h), fits, inr above, lines)

-- The highest bit of a size between the linear classes and the largest chunk.
high_bit_range :
    (n : ℕ)
    → 1024 ≤ n
    → n < 65536
    → (j : ℕ) × (high_bit 64 n ≡ 10 + j) × (j < 6) × (2 ^ (10 + j) ≤ n) × (n < 2 ^ (11 + j))
high_bit_range n lo hi =
    let (below, above) = high_bit_bounds 64 n (omega arith) (omega arith) in
    let j = high_bit 64 n - 10 in
    let ten : 10 ≤ high_bit 64 n = at_least above in
    let is : high_bit 64 n ≡ 10 + j = omega (arith, ten) in
    let next : suc (high_bit 64 n) ≡ 11 + j = omega (arith, ten) in
    (
      j,
      is,
      omega (arith, ten, at_most below),
      subst (λ z. 2 ^ z ≤ n) is below,
      subst (λ z. n < 2 ^ z) next above,
    )
  where
    at_least : n < 2 ^ suc (high_bit 64 n) → 10 ≤ high_bit 64 n
    at_least above = elim (Bool-cases (ltb (high_bit 64 n) 10)) [
      | inr enough ↦ ltb→le _ _ enough
      | inl few ↦
          let few' : suc (high_bit 64 n) ≤ 10 = ltb→lt _ _ few in
          let two : 0 < 2 = omega arith in
          absurd (omega (arith, above, pow-le-pow_right {n = 2} two few'))
    ]

    at_most : 2 ^ high_bit 64 n ≤ n → high_bit 64 n < 16
    at_most below = elim (Bool-cases (ltb (high_bit 64 n) 16)) [
      | inl enough ↦ ltb→lt _ _ enough
      | inr many ↦
          let two : 0 < 2 = omega arith in
          absurd (omega (arith, below, pow-le-pow_right {n = 2} two (ltb→le _ _ many)))
    ]

-- Every size from 1 byte to the largest that the slab serves has a class: one of the 40, whose
-- chunks hold the size and are a multiple of 64 bytes, and the class below it, if there is one, has
-- chunks that are too small.
pub class_of-Serves :
    (size : ℕ) → 0 < size → size ≤ max_slab → (c : ℕ) × (class_of size ≡ some c) × Serves size c
unfolding class_of
class_of-Serves size h h' = elim (Bool-cases (leb size linear_max)) [
  | inl small ↦ rw small (div_ceil size 64 - 1, refl, linear_lem size h (leb→le _ _ small))
  | inr large ↦
      let big = leb→lt _ _ large in
      let (j, is, few, lo, hi) = high_bit_range (size - 1) (omega (arith, big)) (omega arith) in
      rw (large, le→ltb max_slab size h', is)
        (
          class_above size (10 + j),
          refl,
          above_lem size j few (omega (arith, lo, big)) (omega (arith, hi, big)),
        )
]
