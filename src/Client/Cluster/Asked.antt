-- ===== src/Client/Cluster/Asked.antt =====
-- The bodies that `Cluster::batch` of crates/client-rs/src/cluster.rs sends: which items they hold.
use oxicache.Common.{ℕ, suc, ◌+◌, ◌≤◌, ◌≡◌, ap, ◌∙◌, inl, inr, arith, List, [], ◌∷◌, ◌++◌, some}
use oxicache.Common.{false, Bool-cases, if◌then◌else◌, leb, leb→le, ◌==◌, length, get_elem?, Bytes}
use oxicache.Common.{◌≢◌}
use oxicache.Wire.{max_items}
use oxicache.Wire.Encoder.{BatchEncoder, new, push, finish}
use oxicache.Wire.Items.{encode_batch}
use oxicache.Wire.Building.{Holds, new-Holds, push-Holds, finish-Holds}
use oxicache.Client.Cluster.Batch.{Group, group, group_of}

-- `sent` are the items at these positions, in the same order.
abbrev pub Picked : List (ℕ × Bytes) → List ℕ → List (ℕ × Bytes) → Type 0
Picked items [] [] = Unit {0}
Picked items [] (x ∷ sent) = ⊥
Picked items (i ∷ is) [] = ⊥
Picked items (i ∷ is) (x ∷ sent) = (get_elem? items i ≡ some x) × Picked items is sent

Picked-snoc :
    (items : List (ℕ × Bytes)) (is : List ℕ) (sent : List (ℕ × Bytes)) (n : ℕ) (x : ℕ × Bytes)
    → Picked items is sent
    → get_elem? items n ≡ some x
    → Picked items (is ++ (n ∷ [])) (sent ++ (x ∷ []))
Picked-snoc items [] [] n x p e = (e, tt)
Picked-snoc items [] (y ∷ sent) n x p e = absurd p
Picked-snoc items (i ∷ is) [] n x p e = absurd p
Picked-snoc items (i ∷ is) (y ∷ sent) n x (q, p) e = (q, Picked-snoc items is sent n x p e)

-- The encoder of a group holds the items whose positions the group records.
abbrev Asks : List (ℕ × Bytes) → Group → Type 0
Asks items g = (sent : List (ℕ × Bytes)) × Holds g.enc sent × Picked items g.items sent

group-Asks :
    (items : List (ℕ × Bytes)) (at n : ℕ) (rest : List (ℕ × Bytes)) (tos : List ℕ) (g : Group)
    → ((j : ℕ) → get_elem? items (j + n) ≡ get_elem? rest j)
    → Asks items g
    → Asks items (group at n rest tos g)
unfolding group
group-Asks items at n [] tos g f a = a
group-Asks items at n ((op, b) ∷ rest) [] g f a = a
group-Asks items at n ((op, b) ∷ rest) (to ∷ tos) g f (sent, holds, picked) =
    let more : Group = record { enc = push g.enc op b; items = g.items ++ (n ∷ []) } in
    let next : Asks items (if to == at then more else g) = elim (Bool-cases (to == at)) [
      | inl e ↦ rw e (
        sent ++ ((op, b) ∷ []),
        push-Holds g.enc sent op b holds,
        Picked-snoc items g.items sent n (op, b) picked (ap (get_elem? items) (front n) ∙ f 0),
      )
      | inr e ↦ rw e (sent, holds, picked)
    ] in
    group-Asks items at (n + 1) rest tos (if to == at then more else g)
      (λ j. ap (get_elem? items) (shifted j) ∙ f (suc j)) next
  where
    front : (k : ℕ) → k ≡ 0 + k
    front k = omega arith

    shifted : (j : ℕ) → j + (n + 1) ≡ suc j + n
    shifted j = omega arith

group_of-Asks :
    (items : List (ℕ × Bytes)) (tos : List ℕ) (at : ℕ) → Asks items (group_of items tos at)
unfolding group_of
group_of-Asks items tos at =
    group-Asks items at 0 items tos (record { enc = new; items = [] })
      (λ j. ap (get_elem? items) (no_more j)) ([], new-Holds, tt)
  where
    no_more : (j : ℕ) → j + 0 ≡ j
    no_more j = omega arith

-- What an encoder finishes with, when it does not panic.
finish-batch :
    (e : BatchEncoder) (sent : List (ℕ × Bytes)) (body : Bytes)
    → Holds e sent
    → finish e ≡ some body
    → body ≡ encode_batch sent
finish-batch e sent body h q = elim (Bool-cases (leb e.count max_items)) [
  | inl few ↦
      let fits : length sent ≤ max_items = omega (arith, leb→le _ _ few, h.count_is) in
      cc (finish-Holds e sent h fits, q)
  | inr many ↦ absurd (refused many q)
]
  where
    refused : leb e.count max_items ≡ false → finish e ≢ some body
    refused many q = unfold finish in cc (many, q)

-- The body sent to one server is the batch of the items at the recorded positions.
pub group_of-asked :
    (items : List (ℕ × Bytes)) (tos : List ℕ) (at : ℕ) (asked : Bytes)
    → finish (group_of items tos at).enc ≡ some asked
    → (sent : List (ℕ × Bytes)) × Picked items (group_of items tos at).items sent
      × (asked ≡ encode_batch sent)
group_of-asked items tos at asked q =
    let (sent, holds, picked) = group_of-Asks items tos at in
    (sent, picked, finish-batch (group_of items tos at).enc sent asked holds q)
