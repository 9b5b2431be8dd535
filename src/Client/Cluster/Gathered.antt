-- ===== src/Client/Cluster/Gathered.antt =====
-- The replies of several servers to a batch (crates/client-rs/src/cluster.rs), in the order in which they
-- land.
use oxicache.Common.{
  ℕ, ◌<◌, ◌≡◌, refl, sym, List, [], ◌∷◌, Option, none, some, All, Bytes, length, ok,
}
use oxicache.Wire.Frames.{Frames, frames, collect}
use oxicache.Client.Cluster.{Error, Place}
use oxicache.Client.Health.{Failover}
use oxicache.Client.Cluster.Batch.{Gathered, Landing, land, gather, gathered}
use oxicache.Client.Cluster.Places.{Reply, Reads, Covers, NotIn, Distinct, Reads-answer}
use oxicache.Client.Cluster.Merged.{Served, land-Landed, length-land}
use oxicache.Client.Outcome.{Outcome, answer}
use mathlib.Core.Path.{subst}

-- No item is of two shares.
abbrev pub Apart : List ℕ → List ℕ → Type 0
Apart is js = All (λ i. NotIn i js) is

abbrev pub Disjoint : List Landing → Type 0
Disjoint [] = Unit {0}
Disjoint (l ∷ ls) = All (λ k. Apart l.items k.items) ls × Disjoint ls

abbrev pub Within : ℕ → Landing → Type 0
Within n l = All (λ i. i < n) l.items × Distinct l.items

abbrev Extends : Bytes → List Place → Bytes → List Place → ℕ → Type 0
Extends m p m' p' i = (r : Reply) → Reads m p i r → Reads m' p' i r

Covers-Extends :
    (m m' : Bytes) (p p' : List Place) (is : List ℕ) (rs : List Reply)
    → All (Extends m p m' p') is
    → Covers m p is rs
    → Covers m' p' is rs
Covers-Extends m m' p p' [] rs k c = tt
Covers-Extends m m' p p' (i ∷ is) [] k c = c
Covers-Extends m m' p p' (i ∷ is) (r ∷ rs) (k, ks) (c, cs) =
    (k r c, Covers-Extends m m' p p' is rs ks cs)

-- What the later landings leave in place.
abbrev Kept : Gathered → Gathered → List Landing → Type 0
Kept g g' ls =
    (j : ℕ) → All (λ l. NotIn j l.items) ls → Extends g.merged g.places g'.merged g'.places j

Apart-Extends :
    (g g' : Gathered) (is : List ℕ) (ls : List Landing)
    → Kept g g' ls
    → All (λ k. Apart is k.items) ls
    → All (Extends g.merged g.places g'.merged g'.places) is
Apart-Extends g g' [] ls k a = tt
Apart-Extends g g' (i ∷ is) ls k a = (k i (heads ls a), Apart-Extends g g' is ls k (tails ls a))
  where
    heads :
        (ks : List Landing) → All (λ k. Apart (i ∷ is) k.items) ks → All (λ k. NotIn i k.items) ks
    heads [] a = tt
    heads (k ∷ ks) ((h, t), a) = (h, heads ks a)

    tails :
        (ks : List Landing) → All (λ k. Apart (i ∷ is) k.items) ks → All (λ k. Apart is k.items) ks
    tails [] a = tt
    tails (k ∷ ks) ((h, t), a) = (t, tails ks a)

pub Within-length : (m n : ℕ) (ls : List Landing) → m ≡ n → All (Within n) ls → All (Within m) ls
Within-length m n ls e = subst (λ k. All (Within k) ls) (sym e)

gather-Served :
    (failover : Option Failover) (ls : List Landing) (g : Gathered)
    → All (Within (length g.places)) ls
    → Disjoint ls
    → (gather failover g ls).failure ≡ none
    → (g.failure ≡ none) × All (Served (gather failover g ls)) ls × Kept g (gather failover g ls) ls
unfolding gather
gather-Served failover [] g w d z = (z, tt, λ j n r h. h)
gather-Served failover (l ∷ ls) g ((b, s), ws) (a, d) z =
    let g' = land failover g l in
    let (z', served, kept) =
      gather-Served failover ls g'
        (Within-length (length g'.places) (length g.places) ls (length-land failover g l b s) ws) d
        z in
    let (z0, (body, f, q, parsed, c), same, keeps) = land-Landed failover g l b s z' in
    let end = gather failover g' ls in
    (
      z0,
      (
        (
          body,
          f,
          q,
          parsed,
          Covers-Extends g'.merged end.merged g'.places end.places l.items (collect f)
              (Apart-Extends g' end l.items ls kept a) c,
        ),
        served,
      ),
      λ j (n, ns) r h. kept j ns r (keeps j r n h),
    )

-- Each reply of the list is what is read at its position.
abbrev pub Answers : Outcome → List ℕ → List Reply → Type 0
Answers o [] rs = Unit {0}
Answers o (i ∷ is) [] = ⊥
Answers o (i ∷ is) (r ∷ rs) = (answer o i ≡ some r) × Answers o is rs

Covers-Answers :
    (o : Outcome) (is : List ℕ) (rs : List Reply) → Covers o.body o.index is rs → Answers o is rs
Covers-Answers o [] rs c = tt
Covers-Answers o (i ∷ is) [] c = c
Covers-Answers o (i ∷ is) (r ∷ rs) (c, cs) = (Reads-answer o i r c, Covers-Answers o is rs cs)

gathered-ok :
    (g : Gathered) (failure : Option Error) (o : Outcome)
    → gathered g failure ≡ ok o
    → (failure ≡ none) × (o ≡ record { body = g.merged; index = g.places })
unfolding gathered
gathered-ok g none o e = (refl, cc e)
gathered-ok g (some x) o e = absurd (cc e)

-- Servers answer their shares of a batch, which have no item in common, in any order. When the call
-- succeeds every server has answered a batch body that parses, with one reply for each item of its
-- share, and under the position of each item is read the reply that its server gave it.
pub gather-Answers :
    (failover : Option Failover) (ls : List Landing) (g : Gathered) (o : Outcome)
    → All (Within (length g.places)) ls
    → Disjoint ls
    → gathered (gather failover g ls) ((gather failover g ls).failure) ≡ ok o
    → All
        (λ l.
          (body : Bytes) × (f : Frames) × (l.result ≡ ok body)
          × (frames body ≡ ok f)
          × Answers o l.items (collect f))
        ls
gather-Answers failover ls g o w d e =
    let end = gather failover g ls in
    let (z, is) = gathered-ok end end.failure o e in
    let (z0, served, kept) = gather-Served failover ls g w d z in answers ls served is
  where
    answers :
        (ks : List Landing)
        → All (Served (gather failover g ls)) ks
        → o ≡ record { body = (gather failover g ls).merged; index = (gather failover g ls).places }
        → All
            (λ l.
              (body : Bytes) × (f : Frames) × (l.result ≡ ok body)
              × (frames body ≡ ok f)
              × Answers o l.items (collect f))
            ks
    answers [] s e = tt
    answers (k ∷ ks) ((body, f, q, parsed, c), s) e =
        let there : Outcome = record {
          body = (gather failover g ls).merged;
          index = (gather failover g ls).places;
        } in
        (
          (
            body,
            f,
            q,
            parsed,
            subst (λ x. Answers x k.items (collect f)) (sym e)
                (Covers-Answers there k.items (collect f) c),
          ),
          answers ks s e,
        )
