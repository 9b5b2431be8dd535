-- ===== src/Client/Ring/Clockwise.antt =====
-- Where the search of crates/client-rs/src/ring.rs starts: at the first point clockwise from a hash.
use oxicache.Common.{ℕ, zero, suc, ◌%◌, ◌≤◌, ◌<◌, ◌≡◌, ap, ◌∙◌, ◌⊎◌, inl, inr, List, [], ◌∷◌, arith}
use oxicache.Common.{length, ltb, Bool-cases, get_or, All, ltb→lt, ltb→le}
use oxicache.Client.Ring.{Point, partition_point, start_of}
use oxicache.Client.Ring.Sorted.{Ascending}
use native.Mathlib.Nat.{mod_self, mod-eq_of_lt}

abbrev pub hash_at : List Point → ℕ → ℕ
hash_at points i = (get_or points i (0, 0)).0

-- The first point clockwise from `h` is the one at `s`: those before it have hashes below `h`, and it
-- and all behind it have not; or all hashes are below `h`, and it is the first of all.
abbrev pub Clockwise : List Point → ℕ → ℕ → Type 0
Clockwise points h s =
    ((s < length points)
      × ((j : ℕ) → j < s → hash_at points j < h)
      × ((j : ℕ) → s ≤ j → j < length points → h ≤ hash_at points j))
    ⊎ ((s ≡ 0) × ((j : ℕ) → j < length points → hash_at points j < h))

partition_point-le : (h : ℕ) (points : List Point) → partition_point h points ≤ length points
unfolding partition_point
partition_point-le h [] = omega arith
partition_point-le h (p ∷ ps) =
    let rest = partition_point-le h ps in
    elim (Bool-cases (ltb p.0 h)) [
      | inl e ↦ rw e (omega (arith, rest))
      | inr e ↦ rw e (omega arith)
    ]

before_partition_point :
    (h : ℕ) (points : List Point) (j : ℕ) → j < partition_point h points → hash_at points j < h
unfolding partition_point
before_partition_point h [] j l = absurd (omega (arith, l))
before_partition_point h (p ∷ ps) zero l = elim (Bool-cases (ltb p.0 h)) [
  | inl e ↦ ltb→lt _ _ e
  | inr e ↦ absurd (omega (arith, (rw e at l)))
]
before_partition_point h (p ∷ ps) (suc j) l = elim (Bool-cases (ltb p.0 h)) [
  | inl e ↦ before_partition_point h ps j (omega (arith, (rw e at l)))
  | inr e ↦ absurd (omega (arith, (rw e at l)))
]

All-get_or :
    (P : Point → Type 0) (ps : List Point) (j : ℕ)
    → All P ps
    → j < length ps
    → P (get_or ps j (0, 0))
All-get_or P [] j a l = absurd (omega (arith, l))
All-get_or P (p ∷ ps) zero (h, a) l = h
All-get_or P (p ∷ ps) (suc j) (h, a) l = All-get_or P ps j a (omega (arith, l))

from_partition_point :
    (h : ℕ) (points : List Point) (j : ℕ)
    → Ascending points
    → partition_point h points ≤ j
    → j < length points
    → h ≤ hash_at points j
unfolding partition_point
from_partition_point h [] j a s l = absurd (omega (arith, l))
from_partition_point h (p ∷ ps) zero (above, a) s l = elim (Bool-cases (ltb p.0 h)) [
  | inl e ↦ absurd (omega (arith, (rw e at s)))
  | inr e ↦ ltb→le _ _ e
]
from_partition_point h (p ∷ ps) (suc j) (above, a) s l = elim (Bool-cases (ltb p.0 h)) [
  | inl e ↦ from_partition_point h ps j a (omega (arith, (rw e at s))) (omega (arith, l))
  | inr e ↦
      let le = ltb→le _ _ e in
      let more : p.0 < hash_at ps j = All-get_or (λ q. p.0 < q.0) ps j above (omega (arith, l)) in
      omega (arith, le, more)
]

-- Where the search starts, in a ring that has a point.
pub start_of-Clockwise :
    (h : ℕ) (points : List Point)
    → Ascending points
    → 0 < length points
    → Clockwise points h (start_of points h)
unfolding start_of
start_of-Clockwise h points a some_point =
    elim (Bool-cases (ltb (partition_point h points) (length points))) [
      | inl e ↦
          let inside = ltb→lt _ _ e in
          rw (mod-eq_of_lt inside)
            (inl (inside, before_partition_point h points, λ j. from_partition_point h points j a))
      | inr e ↦
          let whole : partition_point h points ≡ length points =
            omega (arith, ltb→le _ _ e, partition_point-le h points) in
          inr (
            ap (λ n. n % length points) whole ∙ mod_self (length points),
            λ j l. before_partition_point h points j (omega (arith, l, whole)),
          )
    ]
