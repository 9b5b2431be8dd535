-- ===== src/Client/Cluster/Places.antt =====
-- `merge` of crates/client-rs/src/cluster.rs: where the merged buffer holds the reply to an item.
use oxicache.Common.{
  ℕ, zero, suc, ◌+◌, ◌%◌, ◌<◌, ◌≡◌, ◌≢◌, refl, sym, ap, ◌∙◌, arith, List, [], ◌∷◌, ◌++◌, some,
  append_assoc, append-nil,
}
use oxicache.Common.{
  length, get_elem?, set, take, drop, All, Bytes, u32_mod, length-append, length-set, take-append,
  drop-append, true, leb, le→leb,
}
use oxicache.Client.Cluster.{Place, fill_places}
use oxicache.Client.Outcome.{Outcome, slice, sliced, answer_in, answer}

abbrev pub Reply : Type 0
Reply = ℕ × Bytes

pub record Reads (merged : Bytes) (places : List Place) (i : ℕ) (r : Reply) : Type 0 where
  pub before : Bytes
  pub after : Bytes
  pub split : merged ≡ before ++ r.1 ++ after
  pub placed : get_elem? places i ≡ some (r.0, length before, length r.1)

-- The items' replies, each under the position that the item came from.
abbrev pub Covers : Bytes → List Place → List ℕ → List Reply → Type 0
Covers merged places [] rs = Unit {0}
Covers merged places (i ∷ is) [] = ⊥
Covers merged places (i ∷ is) (r ∷ rs) = Reads merged places i r × Covers merged places is rs

abbrev pub NotIn : ℕ → List ℕ → Type 0
NotIn j is = All (λ i. i ≢ j) is

abbrev pub Distinct : List ℕ → Type 0
Distinct [] = Unit {0}
Distinct (i ∷ is) = NotIn i is × Distinct is

abbrev pub total : List Reply → ℕ
total [] = 0
total (r ∷ rs) = length r.1 + total rs

module _ {ℓ} {A : Type ℓ} where
  pub get_elem?-set :
      (xs : List A) (i : ℕ) (v : A) → i < length xs → get_elem? (set xs i v) i ≡ some v
  get_elem?-set [] i v h = absurd (omega (arith, h))
  get_elem?-set (x ∷ xs) zero v h = refl
  get_elem?-set (x ∷ xs) (suc i) v h = get_elem?-set xs i v (omega (arith, h))

  pub get_elem?-set_other :
      (xs : List A) (i j : ℕ) (v : A) → i ≢ j → get_elem? (set xs i v) j ≡ get_elem? xs j
  get_elem?-set_other [] i j v n = refl
  get_elem?-set_other (x ∷ xs) zero zero v n = absurd (n refl)
  get_elem?-set_other (x ∷ xs) zero (suc j) v n = refl
  get_elem?-set_other (x ∷ xs) (suc i) zero v n = refl
  get_elem?-set_other (x ∷ xs) (suc i) (suc j) v n =
      get_elem?-set_other xs i j v (λ e. n (ap suc e))

slice-middle : (x b y : Bytes) → slice (x ++ b ++ y) (length x) (length b) ≡ some b
unfolding slice
slice-middle x b y =
    let fits : leb (length x + length b) (length (x ++ b ++ y)) ≡ true =
      le→leb (length x + length b) (length (x ++ b ++ y))
        (omega (arith, length-append (x ++ b) y, length-append x b)) in
    rw fits (
      ap (λ z. some (take (length b) (drop (length x) z))) (append_assoc x b y)
      ∙ ap (λ z. some (take (length b) z)) (drop-append x (b ++ y))
      ∙ ap some (take-append b y))

pub Reads-answer :
    (o : Outcome) (i : ℕ) (r : Reply) → Reads o.body o.index i r → answer o i ≡ some r
unfolding answer answer_in sliced
Reads-answer o i r h =
    ap (answer_in o.body) h.placed
    ∙ ap (sliced r.0) (
        ap (λ z. slice z (length h.before) (length r.1)) h.split
        ∙ slice-middle h.before r.1 h.after)

Reads-append :
    {m : Bytes} {p : List Place} {j : ℕ} {r : Reply} (b : Bytes)
    → Reads m p j r
    → Reads (m ++ b) p j r
Reads-append {r = r} b h = record {
  before = h.before;
  after = h.after ++ b;
  split = ap (λ z. z ++ b) h.split ∙ append_assoc (h.before ++ r.1) h.after b;
  placed = h.placed;
}

Reads-set :
    {m : Bytes} {p : List Place} {j : ℕ} {r : Reply} (i : ℕ) (v : Place)
    → i ≢ j
    → Reads m p j r
    → Reads m (set p i v) j r
Reads-set {p = p} {j = j} i v n h = record {
  before = h.before;
  after = h.after;
  split = h.split;
  placed = get_elem?-set_other p i j v n ∙ h.placed;
}

-- Filling in replies keeps those of other items.
pub fill_places-keeps :
    (m : Bytes) (p : List Place) (rs : List Reply) (is : List ℕ) (j : ℕ) (r : Reply)
    → NotIn j is
    → Reads m p j r
    → Reads (fill_places m p rs is).0 (fill_places m p rs is).1 j r
unfolding fill_places
fill_places-keeps m p [] is j r n h = h
fill_places-keeps m p (x ∷ rs) [] j r n h = h
fill_places-keeps m p ((s, b) ∷ rs) (i ∷ is) j r (n, ns) h =
    fill_places-keeps (m ++ b) (set p i (s, length m % u32_mod, length b % u32_mod)) rs is j r ns
      (Reads-set i (s, length m % u32_mod, length b % u32_mod) n (Reads-append b h))

pub length-fill_places :
    (m : Bytes) (p : List Place) (rs : List Reply) (is : List ℕ)
    → length (fill_places m p rs is).1 ≡ length p
unfolding fill_places
length-fill_places m p [] is = refl
length-fill_places m p (x ∷ rs) [] = refl
length-fill_places m p ((s, b) ∷ rs) (i ∷ is) =
    length-fill_places (m ++ b) (set p i (s, length m % u32_mod, length b % u32_mod)) rs is
    ∙ length-set p i (s, length m % u32_mod, length b % u32_mod)

pub fill_places-Covers :
    (m : Bytes) (p : List Place) (rs : List Reply) (is : List ℕ)
    → length is ≡ length rs
    → All (λ i. i < length p) is
    → Distinct is
    → length m + total rs < u32_mod
    → Covers (fill_places m p rs is).0 (fill_places m p rs is).1 is rs
unfolding fill_places
fill_places-Covers m p [] [] e l d t = tt
fill_places-Covers m p [] (i ∷ is) e l d t = absurd (omega (arith, e))
fill_places-Covers m p (r ∷ rs) [] e l d t = tt
fill_places-Covers m p ((s, b) ∷ rs) (i ∷ is) e (l, ls) (n, d) t =
    let v : Place = (s, length m % u32_mod, length b % u32_mod) in
    let here : Reads (m ++ b) (set p i v) i (s, b) = record {
      before = m;
      after = [];
      split = sym (append-nil (m ++ b));
      placed = get_elem?-set p i v l ∙ (λ k.
          some (s, small (length m) (omega (arith, t)) k, small (length b) (omega (arith, t)) k));
    } in
    (
      fill_places-keeps (m ++ b) (set p i v) rs is i (s, b) n here,
      fill_places-Covers (m ++ b) (set p i v) rs is (omega (arith, e)) (rw (length-set p i v) ls) d
          (omega (arith, t, length-append m b)),
    )
  where
    small : (n : ℕ) → n < u32_mod → n % u32_mod ≡ n
    small n h = omega (arith, h)
