-- ===== src/Client/Cluster/Merged.antt =====
-- `merge` of crates/client-rs/src/cluster.rs on the replies of one server, and their landing.
use oxicache.Common.{
  ℕ, zero, suc, ◌+◌, ◌≤◌, ◌<◌, ◌≡◌, ◌≢◌, refl, sym, ap, ◌∙◌, inl, inr, arith, List, [], ◌∷◌, Option,
  none, some,
}
use oxicache.Common.{
  Bool-cases, leb, leb→lt, ◌==◌, ==_iff, length, take, drop, All, Bytes, u32_mod, Result, ok, err,
  length-append, length-drop, take-append-drop, set, get_or,
}
use oxicache.Wire.{DecodeError, header_len, decode_header}
use oxicache.Wire.Frames.{Frames, frames, collect, collect_loop}
use oxicache.Wire.Walked.{after_item, next-suc, frames_inv}
use oxicache.Client.Cluster.{Error, Place, note, merge, merge_frames}
use oxicache.Client.Health.{Failover}
use oxicache.Client.Cluster.Batch.{Gathered, Landing, first_failure, merged_in, settle, land}
use oxicache.Client.Cluster.Places.{
  Reply, Reads, Covers, NotIn, Distinct, total, fill_places-keeps, length-fill_places,
  fill_places-Covers,
}

pub collect_loop-suc :
    (n : ℕ) (rest : Bytes)
    → collect_loop (suc n) (record { rest = rest; left = suc n })
      ≡ (
        (decode_header (take header_len rest)).0,
        take ((decode_header (take header_len rest)).1) (drop header_len rest),
      )
        ∷ collect_loop n (record { rest = after_item rest; left = n })
unfolding collect_loop
collect_loop-suc n rest =
    ap (λ o. elim o [ none ↦ [] | some (item, f') ↦ item ∷ collect_loop n f' ]) (next-suc n rest)

pub length-collect_loop :
    (n : ℕ) (rest : Bytes) → length (collect_loop n (record { rest = rest; left = n })) ≡ n
length-collect_loop zero rest = unfold collect_loop in refl
length-collect_loop (suc n) rest =
    ap length (collect_loop-suc n rest) ∙ ap suc (length-collect_loop n (after_item rest))

total-collect_loop :
    (n : ℕ) (rest : Bytes) → total (collect_loop n (record { rest = rest; left = n })) ≤ length rest
total-collect_loop zero rest = unfold collect_loop in omega arith
total-collect_loop (suc n) rest =
    let len = (decode_header (take header_len rest)).1 in
    let body = drop header_len rest in
    let parts : length (take len body) + length (drop len body) ≡ length body =
      sym (length-append (take len body) (drop len body)) ∙ ap length (take-append-drop len body) in
    rw (ap total (collect_loop-suc n rest))
      (omega (arith, parts, length-drop header_len rest, total-collect_loop n (after_item rest)))

-- What `merge` does to the buffer and the places when it succeeds.
abbrev pub Keeps : List ℕ → Bytes → List Place → Bytes → List Place → Type 0
Keeps is m p m' p' = (j : ℕ) (r : Reply) → NotIn j is → Reads m p j r → Reads m' p' j r

abbrev Merged : Bytes → List Place → List ℕ → Bytes → Result Error (Bytes × List Place) → Type 0
Merged m p is body (err e) = Unit {0}
Merged m p is body (ok (m', p')) =
    ((f : Frames) × (frames body ≡ ok f) × Covers m' p' is (collect f))
    × (length p' ≡ length p)
    × Keeps is m p m' p'

merge_frames-Merged :
    (m : Bytes) (p : List Place) (is : List ℕ) (body : Bytes) (o : Result DecodeError Frames)
    → frames body ≡ o
    → length m + length body < u32_mod
    → All (λ i. i < length p) is
    → Distinct is
    → Merged m p is body (merge_frames m p is o)
unfolding merge_frames
merge_frames-Merged m p is body (err e) q b l d = tt
merge_frames-Merged m p is body (ok f) q b l d = elim (Bool-cases (f.left == length is)) [
  | inr other ↦ rw other tt
  | inl same ↦
      let (counted, rest_is, few, walked) = frames_inv body f q in
      let rs = collect_loop f.left f in
      let many : length is ≡ length rs =
        sym ((==_iff f.left (length is)).0 same) ∙ sym (length-collect_loop f.left f.rest) in
      let size : total rs ≤ length body =
        omega (arith, total-collect_loop f.left f.rest, ap length rest_is, length-drop 4 body) in
      rw same (
        (f, q, unfold collect in fill_places-Covers m p rs is many l d (omega (arith, size, b))),
        length-fill_places m p rs is,
        λ j r n h. fill_places-keeps m p rs is j r n h,
      )
]

merge-Merged :
    (m : Bytes) (p : List Place) (is : List ℕ) (body : Bytes)
    → All (λ i. i < length p) is
    → Distinct is
    → Merged m p is body (merge m p is body)
unfolding merge
merge-Merged m p is body l d = elim (Bool-cases (leb u32_mod (length m + length body))) [
  | inl e ↦ rw e tt
  | inr e ↦ rw e (
      merge_frames-Merged m p is body (frames body) refl (leb→lt u32_mod (length m + length body) e)
        l d)
]

-- A server's replies are held, each under the position of its item.
abbrev pub Served : Gathered → Landing → Type 0
Served g l =
    (body : Bytes) × (f : Frames) × (l.result ≡ ok body)
    × (frames body ≡ ok f)
    × Covers g.merged g.places l.items (collect f)

abbrev pub Landed : Gathered → Gathered → Landing → Type 0
Landed g g' l =
    (g.failure ≡ none)
    × Served g' l
    × (length g'.places ≡ length g.places)
    × Keeps l.items g.merged g.places g'.merged g'.places

first_failure_kept : (o : Option Error) (e : Error) → first_failure o e ≢ none
unfolding first_failure
first_failure_kept none e h = cc h
first_failure_kept (some d) e h = cc h

settle-Landed :
    (g : Gathered) (words : List ℕ) (l : Landing) (body : Bytes)
    (r : Result Error (Bytes × List Place))
    → l.result ≡ ok body
    → Merged g.merged g.places l.items body r
    → (settle (record g { words = words }) r).failure ≡ none
    → Landed g (settle (record g { words = words }) r) l
unfolding settle
settle-Landed g words l body (err e) q h z = absurd (first_failure_kept g.failure e z)
settle-Landed g words l body (ok (m, p)) q ((f, parsed, c), same, keeps) z =
    (z, (body, f, q, parsed, c), same, keeps)

settle_failed :
    (g : Gathered) (words items : List ℕ) (e : Error)
    → (settle (record g { words = words }) (merged_in g items (err e))).failure ≢ none
unfolding settle merged_in
settle_failed g words items e = first_failure_kept g.failure e

pub land-Landed :
    (failover : Option Failover) (g : Gathered) (l : Landing)
    → All (λ i. i < length g.places) l.items
    → Distinct l.items
    → (land failover g l).failure ≡ none
    → Landed g (land failover g l) l
unfolding land
land-Landed failover g l b d =
    go (set g.words l.at (note failover l.now (get_or g.words l.at 0) l.result)) l.result refl
  where
    go :
        (words : List ℕ) (r : Result Error Bytes)
        → l.result ≡ r
        → (settle (record g { words = words }) (merged_in g l.items r)).failure ≡ none
        → Landed g (settle (record g { words = words }) (merged_in g l.items r)) l
    go words (err e) q z = absurd (settle_failed g words l.items e z)
    go words (ok body) q z =
        settle-Landed g words l body (merged_in g l.items (ok body)) q
          (unfold merged_in in merge-Merged g.merged g.places l.items body b d) z

length-settle :
    (g : Gathered) (words is : List ℕ) (body : Bytes) (r : Result Error (Bytes × List Place))
    → Merged g.merged g.places is body r
    → length (settle (record g { words = words }) r).places ≡ length g.places
unfolding settle
length-settle g words is body (err e) h = refl
length-settle g words is body (ok (m, p)) (c, same, keeps) = same

pub length-land :
    (failover : Option Failover) (g : Gathered) (l : Landing)
    → All (λ i. i < length g.places) l.items
    → Distinct l.items
    → length (land failover g l).places ≡ length g.places
unfolding land
length-land failover g l b d =
    go (set g.words l.at (note failover l.now (get_or g.words l.at 0) l.result)) l.result
  where
    go :
        (words : List ℕ) (r : Result Error Bytes)
        → length (settle (record g { words = words }) (merged_in g l.items r)).places
          ≡ length g.places
    go words (err e) = unfold merged_in settle in refl
    go words (ok body) =
        length-settle g words l.items body (merged_in g l.items (ok body))
          (unfold merged_in in merge-Merged g.merged g.places l.items body b d)
