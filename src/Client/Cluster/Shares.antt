-- ===== src/Client/Cluster/Shares.antt =====
-- The shares of a batch that `Cluster::batch` splits (crates/client-rs/src/cluster.rs).
use oxicache.Common.{
  ℕ, suc, ◌+◌, ◌-◌, ◌≤◌, ◌<◌, ◌≡◌, ◌≢◌, sym, ap, ◌∙◌, ◌⊎◌, inl, inr, arith, List, [], ◌∷◌, ◌++◌,
  some,
}
use oxicache.Common.{
  false, false≢true, Bool-cases, if◌then◌else◌, ◌==◌, ==_iff, length, get_elem?, All, All-append,
  Bytes,
}
use oxicache.Wire.Encoder.{new, push}
use oxicache.Client.Cluster.Batch.{Group, group, group_of}
use oxicache.Client.Cluster.Places.{Distinct}
use oxicache.Client.Cluster.Gathered.{Apart}
use mathlib.Core.Path.{subst}

abbrev pub In : ℕ → List ℕ → Type 0
In i [] = ⊥
In i (j ∷ js) = (i ≡ j) ⊎ In i js

In-snoc : (i n : ℕ) (is : List ℕ) → (i ≡ n) ⊎ In i is → In i (is ++ (n ∷ []))
In-snoc i n [] (inl e) = inl e
In-snoc i n [] (inr h) = absurd h
In-snoc i n (j ∷ js) (inl e) = inr (In-snoc i n js (inl e))
In-snoc i n (j ∷ js) (inr (inl e)) = inl e
In-snoc i n (j ∷ js) (inr (inr h)) = inr (In-snoc i n js (inr h))

below_cases : (i n : ℕ) → i < n + 1 → (i ≡ n) ⊎ (i < n)
below_cases i n h = omega (arith, h)

-- Of the first `n` items, those at these positions and no other are routed to `at`.
pub record Share (tos : List ℕ) (at n : ℕ) (is : List ℕ) : Type 0 where
  pub below : All (λ i. i < n) is
  pub distinct : Distinct is
  pub routed : All (λ i. get_elem? tos i ≡ some at) is
  pub complete : (i : ℕ) → i < n → get_elem? tos i ≡ some at → In i is

pub All-map {ℓ} : {P Q : ℕ → Type ℓ} (xs : List ℕ) → ((i : ℕ) → P i → Q i) → All P xs → All Q xs
All-map [] f a = tt
All-map (x ∷ xs) f (p, a) = (f x p, All-map xs f a)

Distinct-snoc :
    (is : List ℕ) (n : ℕ) → All (λ i. i < n) is → Distinct is → Distinct (is ++ (n ∷ []))
Distinct-snoc [] n b d = (tt, tt)
Distinct-snoc (i ∷ is) n (l, b) (e, d) = (
  All-append (λ k. k ≢ i) is (n ∷ []) e ((λ q. absurd (omega (arith, q, l))), tt),
  Distinct-snoc is n b d,
)

Share-snoc :
    (tos : List ℕ) (at n : ℕ) (is : List ℕ)
    → get_elem? tos n ≡ some at
    → Share tos at n is
    → Share tos at (n + 1) (is ++ (n ∷ []))
Share-snoc tos at n is e s = record {
  below =
      All-append (λ i. i < n + 1) is (n ∷ []) (All-map is (λ i h. omega (arith, h)) s.below)
        (omega arith, tt);
  distinct = Distinct-snoc is n s.below s.distinct;
  routed = All-append (λ i. get_elem? tos i ≡ some at) is (n ∷ []) s.routed (e, tt);
  complete = λ i l q.
      In-snoc i n is (elim (below_cases i n l) [ inl h ↦ inl h | inr h ↦ inr (s.complete i h q) ]);
}

-- Items that go elsewhere, or nowhere, are left out.
Share-wider :
    (tos : List ℕ) (at m n : ℕ) (is : List ℕ)
    → m ≤ n
    → ((i : ℕ) → m ≤ i → i < n → get_elem? tos i ≢ some at)
    → Share tos at m is
    → Share tos at n is
Share-wider tos at m n is h none_there s = record {
  below = All-map is (λ i l. omega (arith, l, h)) s.below;
  distinct = s.distinct;
  routed = s.routed;
  complete =
      λ i l q. elim (side i) [ inl k ↦ s.complete i k q | inr k ↦ absurd (none_there i k l q) ];
}
  where
    side : (i : ℕ) → (i < m) ⊎ (m ≤ i)
    side i = omega arith

-- What `group` reads from position `n` on.
abbrev From : List ℕ → ℕ → List ℕ → Type 0
From tos n rest = (j : ℕ) → get_elem? tos (j + n) ≡ get_elem? rest j

group-Share :
    (tos : List ℕ) (at n : ℕ) (items : List (ℕ × Bytes)) (rest : List ℕ) (g : Group)
    → From tos n rest
    → Share tos at n g.items
    → Share tos at (n + length items) (group at n items rest g).items
unfolding group
group-Share tos at n [] rest g f s =
    Share-wider tos at n (n + 0) g.items (omega arith) (λ i k l. absurd (omega (arith, k, l))) s
group-Share tos at n ((op, b) ∷ items) [] g f s =
    Share-wider tos at n (n + suc (length items)) g.items (omega arith) (λ i k l e. nothing i k e) s
  where
    nothing : (i : ℕ) → n ≤ i → get_elem? tos i ≢ some at
    nothing i k e =
        let there : i - n + n ≡ i = omega (arith, k) in cc (f (i - n), ap (get_elem? tos) there, e)
group-Share tos at n ((op, b) ∷ items) (to ∷ rest) g f s =
    let more : Group = record { enc = push g.enc op b; items = g.items ++ (n ∷ []) } in
    let f' : From tos (n + 1) rest = λ j. ap (get_elem? tos) (shifted j) ∙ f (suc j) in
    let wide : Share tos at (n + 1) (if to == at then more else g).items =
      elim (Bool-cases (to == at)) [
        | inl e ↦ rw e (
            Share-snoc tos at n g.items
              (ap (get_elem? tos) (front n) ∙ f 0 ∙ ap some ((==_iff to at).0 e)) s)
        | inr e ↦ rw e (Share-wider tos at n (n + 1) g.items (omega arith) (elsewhere e) s)
      ] in
    subst (λ k. Share tos at k (group at (n + 1) items rest (if to == at then more else g)).items)
      (counted (length items))
      (group-Share tos at (n + 1) items rest (if to == at then more else g) f' wide)
  where
    elsewhere : (to == at) ≡ false → (i : ℕ) → n ≤ i → i < n + 1 → get_elem? tos i ≢ some at
    elsewhere e i k l q =
        let here : i ≡ 0 + n = omega (arith, k, l) in
        let same : to ≡ at = cc (f 0, ap (get_elem? tos) here, q) in
        false≢true (sym e ∙ (==_iff to at).1 same)

    front : (k : ℕ) → k ≡ 0 + k
    front k = omega arith

    shifted : (j : ℕ) → j + (n + 1) ≡ suc j + n
    shifted j = omega arith

    counted : (k : ℕ) → n + 1 + k ≡ n + suc k
    counted k = omega arith

pub group_of-Share :
    (items : List (ℕ × Bytes)) (tos : List ℕ) (at : ℕ)
    → Share tos at (length items) (group_of items tos at).items
unfolding group_of
group_of-Share items tos at =
    subst (λ k. Share tos at k (group at 0 items tos (record { enc = new; items = [] })).items)
      (no_less (length items))
      (group-Share tos at 0 items tos (record { enc = new; items = [] })
        (λ j. ap (get_elem? tos) (no_more j))
        (record {
          below = tt;
          distinct = tt;
          routed = tt;
          complete = λ i l e. absurd (omega (arith, l));
        }))
  where
    no_more : (j : ℕ) → j + 0 ≡ j
    no_more j = omega arith

    no_less : (k : ℕ) → 0 + k ≡ k
    no_less k = omega arith

-- The shares of two servers have no item in common.
pub shares-Apart :
    (tos : List ℕ) (at at' : ℕ) (is js : List ℕ)
    → at ≢ at'
    → All (λ i. get_elem? tos i ≡ some at) is
    → All (λ i. get_elem? tos i ≡ some at') js
    → Apart is js
shares-Apart tos at at' [] js n r r' = tt
shares-Apart tos at at' (i ∷ is) js n (e, r) r' =
    (All-map js (λ j h q. n (cc (e, h, q))) r', shares-Apart tos at at' is js n r r')
