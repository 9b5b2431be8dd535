-- ===== src/Client/Ring/Sorted.antt =====
-- The points of the ring of crates/client-rs/src/ring.rs, in the order of their hashes.
use oxicache.Common.{ℕ, ◌≤◌, ◌<◌, ◌≡◌, ◌∙◌, sym, ◌⊎◌, inl, inr, List, [], ◌∷◌, arith}
use oxicache.Common.{true, false, ◌==◌, ==_iff, Bool-cases, All, Bytes}
use oxicache.Client.Ring.{
  Point, all_points, point_lt, insert_point, sort_points, dedup_after, dedup, new,
}

-- The hashes never fall.
abbrev Sorted : List Point → Type 0
Sorted [] = Unit {0}
Sorted (p ∷ ps) = All (λ q. p.0 ≤ q.0) ps × Sorted ps

-- Each hash is above the one before it.
abbrev pub Ascending : List Point → Type 0
Ascending [] = Unit {0}
Ascending (p ∷ ps) = All (λ q. p.0 < q.0) ps × Ascending ps

All-weaker :
    {P Q : Point → Type 0} (ps : List Point) → ((p : Point) → P p → Q p) → All P ps → All Q ps
All-weaker [] f a = tt
All-weaker (p ∷ ps) f (h, a) = (f p h, All-weaker ps f a)

point_lt→le : (names : List Bytes) (p q : Point) → point_lt names p q ≡ true → p.0 ≤ q.0
unfolding point_lt
point_lt→le names p q h = ground arith

not_point_lt→le : (names : List Bytes) (p q : Point) → point_lt names p q ≡ false → q.0 ≤ p.0
unfolding point_lt
not_point_lt→le names p q h = ground arith

insert_point-All :
    (P : Point → Type 0) (names : List Bytes) (p : Point) (ps : List Point)
    → P p
    → All P ps
    → All P (insert_point names p ps)
unfolding insert_point
insert_point-All P names p [] h a = (h, tt)
insert_point-All P names p (q ∷ qs) h (k, a) = elim (Bool-cases (point_lt names q p)) [
  | inl e ↦ rw e (k, insert_point-All P names p qs h a)
  | inr e ↦ rw e (h, (k, a))
]

insert_point-Sorted :
    (names : List Bytes) (p : Point) (ps : List Point)
    → Sorted ps
    → Sorted (insert_point names p ps)
unfolding insert_point
insert_point-Sorted names p [] s = (tt, tt)
insert_point-Sorted names p (q ∷ qs) (a, s) = elim (Bool-cases (point_lt names q p)) [
  | inl e ↦ rw e (
    insert_point-All (λ r. q.0 ≤ r.0) names p qs (point_lt→le names q p e) a,
    insert_point-Sorted names p qs s,
  )
  | inr e ↦
      let below = not_point_lt→le names q p e in
      rw e ((below, All-weaker qs (λ r h. omega (arith, h, below)) a), (a, s))
]

sort_points-Sorted : (names : List Bytes) (ps : List Point) → Sorted (sort_points names ps)
unfolding sort_points
sort_points-Sorted names [] = tt
sort_points-Sorted names (p ∷ ps) =
    insert_point-Sorted names p (sort_points names ps) (sort_points-Sorted names ps)

dedup_after-Ascending :
    (p : Point) (ps : List Point) → Sorted (p ∷ ps) → Ascending (p ∷ dedup_after p ps)
unfolding dedup_after
dedup_after-Ascending p [] s = (tt, tt)
dedup_after-Ascending p (q ∷ qs) ((le, a), (b, s)) = elim (Bool-cases (p.0 == q.0)) [
  | inl e ↦ rw e (dedup_after-Ascending p qs (a, s))
  | inr e ↦
      let (above, up) = dedup_after-Ascending q qs (b, s) in
      let less : p.0 < q.0 = ground (arith, le, e) in
      rw e
        ((less, All-weaker (dedup_after q qs) (λ r h. omega (arith, h, less)) above), (above, up))
]

dedup-Ascending : (ps : List Point) → Sorted ps → Ascending (dedup ps)
unfolding dedup
dedup-Ascending [] s = tt
dedup-Ascending (p ∷ ps) s = dedup_after-Ascending p ps s

-- Some point has this hash.
abbrev pub Hashed : ℕ → List Point → Type 0
Hashed h [] = ⊥
Hashed h (p ∷ ps) = (h ≡ p.0) ⊎ Hashed h ps

insert_point-Hashed :
    (names : List Bytes) (h : ℕ) (p : Point) (ps : List Point)
    → (h ≡ p.0) ⊎ Hashed h ps
    → Hashed h (insert_point names p ps)
unfolding insert_point
insert_point-Hashed names h p [] k = k
insert_point-Hashed names h p (q ∷ qs) k = elim (Bool-cases (point_lt names q p)) [
  | inl e ↦ rw e (still_there (insert_point-Hashed names h p qs) k)
  | inr e ↦ rw e k
]
  where
    still_there :
        ((h ≡ p.0) ⊎ Hashed h qs → Hashed h (insert_point names p qs))
        → (h ≡ p.0) ⊎ (h ≡ q.0) ⊎ Hashed h qs
        → (h ≡ q.0) ⊎ Hashed h (insert_point names p qs)
    still_there more (inl e) = inr (more (inl e))
    still_there more (inr (inl e)) = inl e
    still_there more (inr (inr e)) = inr (more (inr e))

sort_points-Hashed :
    (names : List Bytes) (h : ℕ) (ps : List Point) → Hashed h ps → Hashed h (sort_points names ps)
unfolding sort_points
sort_points-Hashed names h (p ∷ ps) (inl e) =
    insert_point-Hashed names h p (sort_points names ps) (inl e)
sort_points-Hashed names h (p ∷ ps) (inr k) =
    insert_point-Hashed names h p (sort_points names ps) (inr (sort_points-Hashed names h ps k))
sort_points-Hashed names h [] k = absurd k

dedup_after-Hashed :
    (h : ℕ) (p : Point) (ps : List Point)
    → (h ≡ p.0) ⊎ Hashed h ps
    → (h ≡ p.0) ⊎ Hashed h (dedup_after p ps)
unfolding dedup_after
dedup_after-Hashed h p [] k = k
dedup_after-Hashed h p (q ∷ qs) k = elim (Bool-cases (p.0 == q.0)) [
  | inl e ↦ rw e (dedup_after-Hashed h p qs (same ((==_iff p.0 q.0).0 e) k))
  | inr e ↦ rw e (other (dedup_after-Hashed h q qs) k)
]
  where
    same : p.0 ≡ q.0 → (h ≡ p.0) ⊎ (h ≡ q.0) ⊎ Hashed h qs → (h ≡ p.0) ⊎ Hashed h qs
    same e (inl k) = inl k
    same e (inr (inl k)) = inl (k ∙ sym e)
    same e (inr (inr k)) = inr k

    other :
        ((h ≡ q.0) ⊎ Hashed h qs → (h ≡ q.0) ⊎ Hashed h (dedup_after q qs))
        → (h ≡ p.0) ⊎ (h ≡ q.0) ⊎ Hashed h qs
        → (h ≡ p.0) ⊎ (h ≡ q.0) ⊎ Hashed h (dedup_after q qs)
    other more (inl k) = inl k
    other more (inr k) = inr (more k)

dedup-Hashed : (h : ℕ) (ps : List Point) → Hashed h ps → Hashed h (dedup ps)
unfolding dedup
dedup-Hashed h [] k = k
dedup-Hashed h (p ∷ ps) k = dedup_after-Hashed h p ps k

-- The ring of any servers has its points in ascending order of their hashes, no two of them with the
-- same hash, and each hash of each server's points is among them.
pub new-Ascending :
    (names : List Bytes)
    → Ascending (new names) × ((h : ℕ) → Hashed h (all_points 0 names) → Hashed h (new names))
unfolding new
new-Ascending names = (
  dedup-Ascending (sort_points names (all_points 0 names))
      (sort_points-Sorted names (all_points 0 names)),
  λ h k.
      dedup-Hashed h (sort_points names (all_points 0 names))
        (sort_points-Hashed names h (all_points 0 names) k),
)
