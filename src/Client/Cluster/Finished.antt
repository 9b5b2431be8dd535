-- ===== src/Client/Cluster/Finished.antt =====
-- The encoders of `Cluster::batch` (crates/client-rs/src/cluster.rs) and their counts.
use oxicache.Common.{
  ℕ, suc, ◌+◌, ◌≤◌, ◌≡◌, refl, inl, inr, arith, List, [], ◌∷◌, ◌++◌, Option, some,
}
use oxicache.Common.{
  Bool-cases, if◌then◌else◌, ◌==◌, ltb, le→leb, ltb→le, length, Bytes, Result, ok, err,
}
use oxicache.Wire.{DecodeError, max_items}
use oxicache.Wire.Encoder.{BatchEncoder, new, push, put_slice, finish}
use oxicache.Wire.Frames.{Frames, frames, collect}
use oxicache.Wire.Walked.{frames_inv}
use oxicache.Client.Cluster.{Error, index}
use oxicache.Client.Health.{Failover}
use oxicache.Client.Ring.{Point}
use oxicache.Client.Cluster.Batch.{
  Group, group, group_of, Landing, landed, landings, gather_all, split, route, routed, batch_frames,
  batch_body_of, batch,
}
use oxicache.Client.Cluster.Merged.{length-collect_loop}
use oxicache.Client.Outcome.{Outcome}

abbrev Given : {A : Type 0} → Option A → Type 0
Given {A} o = (a : A) × (o ≡ some a)

finish-Given : (e : BatchEncoder) → e.count ≤ max_items → Given (finish e)
unfolding finish
finish-Given e h = rw (le→leb e.count max_items h) (_, refl)

push_count : (e : BatchEncoder) (op : ℕ) (b : Bytes) → (push e op b).count ≡ suc e.count
unfolding push put_slice
push_count e op b = refl

group_count-le :
    (at n : ℕ) (items : List (ℕ × Bytes)) (tos : List ℕ) (g : Group)
    → (group at n items tos g).enc.count ≤ g.enc.count + length items
unfolding group
group_count-le at n [] tos g = omega arith
group_count-le at n ((op, b) ∷ items) [] g = omega arith
group_count-le at n ((op, b) ∷ items) (to ∷ tos) g =
    let more : Group = record { enc = push g.enc op b; items = g.items ++ (n ∷ []) } in
    let next = if to == at then more else g in
    let step : next.enc.count ≤ suc g.enc.count = elim (Bool-cases (to == at)) [
      | inl e ↦ rw e (omega (arith, push_count g.enc op b))
      | inr e ↦ rw e (omega arith)
    ] in
    omega (arith, step, group_count-le at (n + 1) items tos next)

group_of_count-le :
    (items : List (ℕ × Bytes)) (tos : List ℕ) (at : ℕ)
    → (group_of items tos at).enc.count ≤ length items
unfolding group_of new
group_of_count-le items tos at =
    omega (arith, group_count-le at 0 items tos (record { enc = new; items = [] }))

landed-Given :
    (send : ℕ → Bytes → Result Error Bytes) (clock : ℕ → ℕ) (at : ℕ) (g : Group)
    (body : Option Bytes) (ls : Option (List Landing))
    → Given body
    → Given ls
    → Given (landed send clock at g body ls)
unfolding landed
landed-Given send clock at g body ls (b, e) (l, h) = rw (e, h) (_, refl)

module _ (send : ℕ → Bytes → Result Error Bytes) (failover : Option Failover) (clock : ℕ → ℕ) where
  landings-Given :
      (items : List (ℕ × Bytes)) (tos arrivals : List ℕ)
      → length items ≤ max_items
      → Given (landings send failover clock items tos arrivals)
  unfolding landings
  landings-Given items tos [] h = ([], refl)
  landings-Given items tos (at ∷ arrivals) h =
      let few : (group_of items tos at).enc.count ≤ max_items =
        omega (arith, h, group_of_count-le items tos at) in
      landed-Given send clock at (group_of items tos at) (finish (group_of items tos at).enc)
        (landings send failover clock items tos arrivals)
        (finish-Given (group_of items tos at).enc few) (landings-Given items tos arrivals h)

  gather_all-Given :
      (words : List ℕ) (n : ℕ) (ls : Option (List Landing))
      → Given ls
      → Given (gather_all send failover clock words n ls)
  unfolding gather_all
  gather_all-Given words n ls (l, e) = rw e (_, refl)

  routed-Given :
      (words : List ℕ) (items : List (ℕ × Bytes)) (body : Bytes) (arrivals : List ℕ)
      (r : Result DecodeError (List ℕ))
      → length items ≤ max_items
      → Given (routed send failover clock words items body arrivals r)
  unfolding routed
  routed-Given words items body arrivals (err e) h = (_, refl)
  routed-Given words items body arrivals (ok []) h = (_, refl)
  routed-Given words items body arrivals (ok (first ∷ tos)) h =
      elim (Bool-cases (split first tos)) [
        | inr e ↦ rw e (_, refl)
        | inl e ↦ rw e (
            gather_all-Given words (length items)
              (landings send failover clock items (first ∷ tos) arrivals)
              (landings-Given items (first ∷ tos) arrivals h))
      ]

  batch_frames-Given :
      (words : List ℕ) (points : List Point) (now : ℕ) (body : Bytes) (arrivals : List ℕ)
      (r : Result DecodeError Frames)
      → frames body ≡ r
      → Given (batch_frames send failover clock words points now body arrivals r)
  unfolding batch_frames
  batch_frames-Given words points now body arrivals (err e) q = (_, refl)
  batch_frames-Given words points now body arrivals (ok f) q =
      let (counted, rest_is, few, walked) = frames_inv body f q in
      let all : length (collect f) ≡ f.left = unfold collect in length-collect_loop f.left f.rest in
      let size : length (collect f) ≤ max_items = omega (arith, few, all) in
      routed-Given words (collect f) body arrivals
        (route (λ key. index words points key now) (collect f)) size

  batch_body_of-Given :
      (words : List ℕ) (points : List Point) (now : ℕ) (arrivals : List ℕ) (o : Option Bytes)
      → Given o
      → Given (batch_body_of send failover clock words points now arrivals o)
  unfolding batch_body_of
  batch_body_of-Given words points now arrivals o (body, e) =
      rw e (batch_frames-Given words points now body arrivals (frames body) refl)

-- A batch call never asks an encoder to finish with more than 65536 items, which would panic: whatever
-- it is given it comes to a result, with the servers' health words after it.
pub batch_total :
    (send : ℕ → Bytes → Result Error Bytes) (failover : Option Failover) (clock : ℕ → ℕ)
    (words : List ℕ) (points : List Point) (now : ℕ) (arrivals : List ℕ) (enc : BatchEncoder)
    → (r : List ℕ × Result Error Outcome) × (batch send failover clock words points now arrivals enc
        ≡ some r)
unfolding batch
batch_total send failover clock words points now arrivals enc =
    elim (Bool-cases (ltb max_items enc.count)) [
      | inl e ↦ rw e (_, refl)
      | inr e ↦ rw e (
          batch_body_of-Given send failover clock words points now arrivals (finish enc)
            (finish-Given enc (ltb→le max_items enc.count e)))
    ]
