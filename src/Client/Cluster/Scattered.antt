-- ===== src/Client/Cluster/Scattered.antt =====
-- `Cluster::batch` of crates/client-rs/src/cluster.rs on a batch that is split over servers.
use oxicache.Common.{
  ℕ, zero, suc, ◌<◌, ◌≡◌, ◌≢◌, refl, sym, ap, ◌∙◌, List, [], ◌∷◌, Option, none, some,
}
use oxicache.Common.{length, get_elem?, All, Bytes, Result, ok}
use oxicache.Wire.Encoder.{finish}
use oxicache.Wire.Frames.{Frames, frames, collect}
use oxicache.Client.Cluster.{Error}
use oxicache.Client.Health.{Failover}
use oxicache.Client.Cluster.Batch.{
  group_of, Landing, landed, landings, blank, Gathered, gather, gathered, gather_all,
}
use oxicache.Client.Cluster.Places.{NotIn, Distinct}
use oxicache.Client.Cluster.Gathered.{Apart, Disjoint, Within, Answers, gather-Answers}
use oxicache.Client.Outcome.{Outcome}
use mathlib.Core.Path.{subst}
use oxicache.Client.Cluster.Gathered.{Within-length}
use oxicache.Client.Cluster.Asked.{Picked, group_of-asked}
use oxicache.Wire.Items.{encode_batch}
use oxicache.Client.Cluster.Shares.{In, group_of-Share, shares-Apart}

-- The landings of the servers in `arrivals`, each with its share and what it answers.
abbrev pub Lands :
    (ℕ → Bytes → Result Error Bytes) → List (ℕ × Bytes) → List ℕ → List ℕ → List Landing → Type 0
Lands send items tos [] [] = Unit {0}
Lands send items tos [] (l ∷ ls) = ⊥
Lands send items tos (at ∷ arrivals) [] = ⊥
Lands send items tos (at ∷ arrivals) (l ∷ ls) =
    ((asked : Bytes) × (finish (group_of items tos at).enc ≡ some asked)
      × (l.result ≡ send at asked))
    × (l.items ≡ (group_of items tos at).items)
    × Lands send items tos arrivals ls

Lands-Within :
    (send : ℕ → Bytes → Result Error Bytes) (items : List (ℕ × Bytes)) (tos arrivals : List ℕ)
    (ls : List Landing)
    → Lands send items tos arrivals ls
    → All (Within (length items)) ls
Lands-Within send items tos [] [] h = tt
Lands-Within send items tos [] (l ∷ ls) h = absurd h
Lands-Within send items tos (at ∷ arrivals) [] h = absurd h
Lands-Within send items tos (at ∷ arrivals) (l ∷ ls) (a, e, h) =
    let s = group_of-Share items tos at in
    (
      subst (λ is. All (λ i. i < length items) is × Distinct is) (sym e) (s.below, s.distinct),
      Lands-Within send items tos arrivals ls h,
    )

Lands-Apart :
    (send : ℕ → Bytes → Result Error Bytes) (items : List (ℕ × Bytes)) (tos : List ℕ) (at : ℕ)
    (arrivals : List ℕ) (ls : List Landing)
    → NotIn at arrivals
    → Lands send items tos arrivals ls
    → All (λ k. Apart (group_of items tos at).items k.items) ls
Lands-Apart send items tos at [] [] n h = tt
Lands-Apart send items tos at [] (l ∷ ls) n h = absurd h
Lands-Apart send items tos at (to ∷ arrivals) [] n h = absurd h
Lands-Apart send items tos at (to ∷ arrivals) (l ∷ ls) (n, ns) (a, e, h) =
    let s = group_of-Share items tos at in
    let s' = group_of-Share items tos to in
    (
      subst (λ js. Apart (group_of items tos at).items js) (sym e)
          (shares-Apart tos at to (group_of items tos at).items (group_of items tos to).items
            (λ q. n (sym q)) s.routed s'.routed),
      Lands-Apart send items tos at arrivals ls ns h,
    )

Lands-Disjoint :
    (send : ℕ → Bytes → Result Error Bytes) (items : List (ℕ × Bytes)) (tos arrivals : List ℕ)
    (ls : List Landing)
    → Distinct arrivals
    → Lands send items tos arrivals ls
    → Disjoint ls
Lands-Disjoint send items tos [] [] d h = tt
Lands-Disjoint send items tos [] (l ∷ ls) d h = absurd h
Lands-Disjoint send items tos (at ∷ arrivals) [] d h = absurd h
Lands-Disjoint send items tos (at ∷ arrivals) (l ∷ ls) (n, d) (a, e, h) = (
  subst (λ is. All (λ k. Apart is k.items) ls) (sym e)
      (Lands-Apart send items tos at arrivals ls n h),
  Lands-Disjoint send items tos arrivals ls d h,
)

abbrev Landings :
    (ℕ → Bytes → Result Error Bytes)
    → List (ℕ × Bytes)
    → List ℕ
    → List ℕ
    → Option (List Landing)
    → Type 0
Landings send items tos arrivals none = Unit {0}
Landings send items tos arrivals (some ls) = Lands send items tos arrivals ls

landed-Lands :
    (send : ℕ → Bytes → Result Error Bytes) (clock : ℕ → ℕ) (items : List (ℕ × Bytes))
    (tos : List ℕ) (at : ℕ) (arrivals : List ℕ) (body : Option Bytes) (ls : Option (List Landing))
    → finish (group_of items tos at).enc ≡ body
    → Landings send items tos arrivals ls
    → Landings send items tos (at ∷ arrivals) (landed send clock at (group_of items tos at) body ls)
unfolding landed
landed-Lands send clock items tos at arrivals none ls q h = tt
landed-Lands send clock items tos at arrivals (some body) none q h = tt
landed-Lands send clock items tos at arrivals (some body) (some ls) q h = ((body, q, refl), refl, h)

landings-Lands :
    (send : ℕ → Bytes → Result Error Bytes) (failover : Option Failover) (clock : ℕ → ℕ)
    (items : List (ℕ × Bytes)) (tos arrivals : List ℕ)
    → Landings send items tos arrivals (landings send failover clock items tos arrivals)
unfolding landings
landings-Lands send failover clock items tos [] = tt
landings-Lands send failover clock items tos (at ∷ arrivals) =
    landed-Lands send clock items tos at arrivals (finish (group_of items tos at).enc)
      (landings send failover clock items tos arrivals) refl
      (landings-Lands send failover clock items tos arrivals)

-- What is said of each server: it was sent the items of its share and has answered them, and its
-- replies are read from the outcome.
abbrev pub Answered :
    (ℕ → Bytes → Result Error Bytes) → List (ℕ × Bytes) → List ℕ → Outcome → ℕ → Type 0
Answered send items tos o at =
    (share : List ℕ) × (sent : List (ℕ × Bytes)) × (body : Bytes) × (f : Frames) × ((i : ℕ)
      → i < length items
      → get_elem? tos i ≡ some at
      → In i share)
    × All (λ i. get_elem? tos i ≡ some at) share
    × Picked items share sent
    × (send at (encode_batch sent) ≡ ok body)
    × (frames body ≡ ok f)
    × Answers o share (collect f)

Lands-Answered :
    (send : ℕ → Bytes → Result Error Bytes) (items : List (ℕ × Bytes)) (tos : List ℕ) (o : Outcome)
    (arrivals : List ℕ) (ls : List Landing)
    → Lands send items tos arrivals ls
    → All
        (λ l.
          (body : Bytes) × (f : Frames) × (l.result ≡ ok body)
          × (frames body ≡ ok f)
          × Answers o l.items (collect f))
        ls
    → All (Answered send items tos o) arrivals
Lands-Answered send items tos o [] [] h a = tt
Lands-Answered send items tos o [] (l ∷ ls) h a = absurd h
Lands-Answered send items tos o (at ∷ arrivals) [] h a = absurd h
Lands-Answered send items tos o (at ∷ arrivals) (l ∷ ls) ((asked, q, is), e, h)
      ((body, f, r, parsed, c), a) =
    let s = group_of-Share items tos at in
    let (sent, picked, whole) = group_of-asked items tos at asked q in
    (
      (
        (group_of items tos at).items,
        sent,
        body,
        f,
        s.complete,
        s.routed,
        picked,
        ap (send at) (sym whole) ∙ sym is ∙ r,
        parsed,
        subst (λ js. Answers o js (collect f)) e c,
      ),
      Lands-Answered send items tos o arrivals ls h a,
    )

length-blank : (n : ℕ) → length (blank n) ≡ n
unfolding blank
length-blank zero = refl
length-blank (suc n) = ap suc (length-blank n)

gather_all-none :
    (send : ℕ → Bytes → Result Error Bytes) (failover : Option Failover) (clock : ℕ → ℕ)
    (words : List ℕ) (n : ℕ) {r : List ℕ × Result Error Outcome}
    → gather_all send failover clock words n none ≢ some r
unfolding gather_all
gather_all-none send failover clock words n q = cc q

gather_all-some :
    (send : ℕ → Bytes → Result Error Bytes) (failover : Option Failover) (clock : ℕ → ℕ)
    (words : List ℕ) (n : ℕ) (ls : List Landing) {words' : List ℕ} {o : Outcome}
    → gather_all send failover clock words n (some ls) ≡ some (words', ok o)
    → let g : Gathered = record { words = words; merged = []; places = blank n; failure = none } in
      gathered (gather failover g ls) ((gather failover g ls).failure) ≡ ok o
unfolding gather_all
gather_all-some send failover clock words n ls q = cc q

-- A batch is split over servers that are all different, and their answers, in the order in which they
-- land, give an outcome. Then each server was sent the batch body of the items of its share, which
-- are all the items routed to it and no others, in the order of the share's positions; it answered
-- with a batch body of a reply for each of them; and under an item's position the outcome has the
-- reply to that item.
pub gather_all-Answers :
    (send : ℕ → Bytes → Result Error Bytes) (failover : Option Failover) (clock : ℕ → ℕ)
    (words : List ℕ) (items : List (ℕ × Bytes)) (tos arrivals words' : List ℕ) (o : Outcome)
    → Distinct arrivals
    → gather_all send failover clock words
        (length items)
        (landings send failover clock items tos arrivals)
      ≡ some (words', ok o)
    → All (Answered send items tos o) arrivals
gather_all-Answers send failover clock words items tos arrivals words' o d e =
    from_landings (landings send failover clock items tos arrivals)
      (landings-Lands send failover clock items tos arrivals) e
  where
    from_landings :
        (r : Option (List Landing))
        → Landings send items tos arrivals r
        → gather_all send failover clock words (length items) r ≡ some (words', ok o)
        → All (Answered send items tos o) arrivals
    from_landings none h q = absurd (gather_all-none send failover clock words (length items) q)
    from_landings (some ls) h q =
        let g : Gathered = record {
          words = words;
          merged = [];
          places = blank (length items);
          failure = none;
        } in
        Lands-Answered send items tos o arrivals ls h (
          gather-Answers failover ls g o
            (Within-length (length g.places) (length items) ls (length-blank (length items))
              (Lands-Within send items tos arrivals ls h))
            (Lands-Disjoint send items tos arrivals ls d h)
            (gather_all-some send failover clock words (length items) ls q))
