-- ===== src/Client/Ring/Locate.antt =====
-- Which server the ring gives a key, and what the loss of a server moves.
use oxicache.Common.{
  ℕ, zero, suc, ◌+◌, ◌%◌, ◌≤◌, ◌<◌, ◌≡◌, refl, ap, ◌∙◌, ◌⊎◌, inl, inr, List, arith, length,
}
use oxicache.Common.{Bool, true, false, if◌then◌else◌, Bool-cases, Bytes}
use mathlib.Core.Path.{subst}
use oxicache.Client.Ring.Sorted.{Ascending}
use oxicache.Client.Ring.Clockwise.{Clockwise, start_of-Clockwise}
use oxicache.Client.Ring.{Point, hash, node_at, start_of, locate_loop, locate}

module _ (live : ℕ → Bool) (points : List Point) (start : ℕ) where
  abbrev at : ℕ → ℕ
  at i = node_at points ((start + i) % length points)

  pub loop_first :
      (i left : ℕ)
      → ((k : ℕ) × (i ≤ k)
          × (k < i + left)
          × (live (at k) ≡ true)
          × ((j : ℕ) → i ≤ j → j < k → live (at j) ≡ false)
          × (locate_loop live points start i left ≡ at k))
        ⊎ (((j : ℕ) → i ≤ j → j < i + left → live (at j) ≡ false)
            × (locate_loop live points start i left ≡ node_at points start))
  unfolding locate_loop
  loop_first i zero = inr (λ j h h'. absurd (omega arith), refl)
  loop_first i (suc left) = elim (Bool-cases (live (at i))) [
    | inl up ↦ rw up (inl (i, omega arith, omega arith, up, λ j h h'. absurd (omega arith), refl))
    | inr down ↦ elim (loop_first (i + 1) left) [
      | inl (k, h, h', up, before, found) ↦ rw down (
          inl (
            k,
            omega arith,
            omega arith,
            up,
            λ j g g'. elim (at_or_after i j g) [
              | inl same ↦ ap (λ z. live (at z)) same ∙ down
              | inr later ↦ before j later g'
            ],
            found,
          ))
      | inr (before, found) ↦ rw down (
          inr (
            λ j g g'. elim (at_or_after i j g) [
              | inl same ↦ ap (λ z. live (at z)) same ∙ down
              | inr later ↦ before j later (omega arith)
            ],
            found,
          ))
    ]
  ]
    where
      at_or_after : (i j : ℕ) → i ≤ j → (j ≡ i) ⊎ (i + 1 ≤ j)
      at_or_after i j h = omega arith

loop_stays :
    (live fewer : ℕ → Bool) (points : List Point) (start i left : ℕ)
    → ((n : ℕ) → live n ≡ false → fewer n ≡ false)
    → fewer (locate_loop live points start i left) ≡ true
    → locate_loop fewer points start i left ≡ locate_loop live points start i left
unfolding locate_loop
loop_stays live fewer points start i zero less up = refl
loop_stays live fewer points start i (suc left) less up =
    elim (Bool-cases (live (node_at points ((start + i) % length points)))) [
      | inl here ↦
          let up' =
            subst
              (λ b.
                fewer (
                  if b
                  then node_at points ((start + i) % length points)
                  else locate_loop live points start (i + 1) left)
                ≡ true)
              here up in
          rw (here, up') refl
      | inr gone ↦
          let up' =
            subst
              (λ b.
                fewer (
                  if b
                  then node_at points ((start + i) % length points)
                  else locate_loop live points start (i + 1) left)
                ≡ true)
              gone up in
          rw (gone, less _ gone) (loop_stays live fewer points start (i + 1) left less up')
    ]

-- In a ring that has a point and whose points ascend, `locate` gives the server of the first point,
-- clockwise from the key's own hash, whose server is live. Clockwise from the hash comes first the
-- point of the least hash that is not below it, or the point of the least hash of all when every
-- hash is below it; then the others in ascending order, and around. When no point's server is live,
-- it gives the server of the point that comes first.
pub locate-first :
    (points : List Point) (key : Bytes) (live : ℕ → Bool)
    → Ascending points
    → 0 < length points
    → (start : ℕ) × Clockwise points (hash key) start
      × (((k : ℕ) × (k < length points)
            × (live (node_at points ((start + k) % length points)) ≡ true)
            × ((j : ℕ) → j < k → live (node_at points ((start + j) % length points)) ≡ false)
            × (locate points key live ≡ node_at points ((start + k) % length points)))
          ⊎ (((j : ℕ)
                → j < length points
                → live (node_at points ((start + j) % length points)) ≡ false)
              × (locate points key live ≡ node_at points start)))
unfolding locate
locate-first points key live a some_point = (
  start_of points (hash key),
  start_of-Clockwise (hash key) points a some_point,
  elim (loop_first live points (start_of points (hash key)) 0 (length points)) [
    | inl (k, _, h, up, before, found) ↦
        inl (k, omega (arith, h), up, λ j g. before j (omega arith) g, found)
    | inr (before, found) ↦ inr (λ j g. before j (omega arith) (omega arith), found)
  ],
)

-- When servers drop out, the keys of the others stay: if `fewer` accepts only servers that `live`
-- accepts, and still accepts the server that `live` gives a key, then it gives the key the same one.
pub locate-stays :
    (points : List Point) (key : Bytes) (live fewer : ℕ → Bool)
    → ((n : ℕ) → live n ≡ false → fewer n ≡ false)
    → fewer (locate points key live) ≡ true
    → locate points key fewer ≡ locate points key live
unfolding locate
locate-stays points key live fewer less up =
    loop_stays live fewer points (start_of points (hash key)) 0 (length points) less up
