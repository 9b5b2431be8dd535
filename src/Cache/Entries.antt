-- ===== src/Cache/Entries.antt =====
-- Lists of entries: what is in them, at distinct addresses, and what they cost.
use oxicache.Common.{
  ℕ, ◌+◌, ◌≡◌, ◌≢◌, refl, sym, ap, ◌∙◌, ◌⊎◌, inl, inr, List, [], ◌∷◌, ◌++◌, arith,
}
use oxicache.Common.{Bool, true, false, if◌then◌else◌, ◌==◌, ==_iff, Bool-cases}
use oxicache.Cache.Entry.{Entry, cost}
use mathlib.Core.Path.{subst}

abbrev pub update {ℓ} : {A : Type ℓ} → (ℕ → A) → ℕ → A → ℕ → A
update f i v j = if j == i then v else f j

abbrev pub sum_freq : (ℕ → ℕ) → List Entry → ℕ
sum_freq freq [] = 0
sum_freq freq (e ∷ xs) = freq e.id + sum_freq freq xs

abbrev pub sum_cost : List Entry → ℕ
sum_cost [] = 0
sum_cost (e ∷ xs) = cost e + sum_cost xs

abbrev pub keep_live : (ℕ → Bool) → List Entry → List Entry
keep_live live [] = []
keep_live live (e ∷ xs) = if live e.id then e ∷ keep_live live xs else keep_live live xs

abbrev pub sum_live : (ℕ → Bool) → List Entry → ℕ
sum_live live [] = 0
sum_live live (e ∷ xs) = (if live e.id then cost e else 0) + sum_live live xs

abbrev pub sum_dead : (ℕ → Bool) → List Entry → ℕ
sum_dead live [] = 0
sum_dead live (e ∷ xs) = (if live e.id then 0 else cost e) + sum_dead live xs

abbrev pub In : Entry → List Entry → Type 0
In e [] = ⊥
In e (x ∷ xs) = (e ≡ x) ⊎ In e xs

-- No entry of the list is at the address.
abbrev pub Fresh : ℕ → List Entry → Type 0
Fresh i xs = (e : Entry) → In e xs → e.id ≢ i

abbrev pub Distinct : List Entry → Type 0
Distinct [] = Unit {0}
Distinct (x ∷ xs) = Fresh x.id xs × Distinct xs

pub update_ne {ℓ} : {A : Type ℓ} (f : ℕ → A) (i j : ℕ) (v : A) → j ≢ i → update f i v j ≡ f j
update_ne f i j v h = elim (Bool-cases (j == i)) [
  | inl e ↦ absurd (h ((==_iff j i).0 e))
  | inr e ↦ rw e
]

pub update_self {ℓ} : {A : Type ℓ} (f : ℕ → A) (i : ℕ) (v : A) → update f i v i ≡ v
update_self f i v = rw ((==_iff i i).1 refl)

pub In-append : (e : Entry) (xs ys : List Entry) → In e (xs ++ ys) → In e xs ⊎ In e ys
In-append e [] ys h = inr h
In-append e (x ∷ xs) ys (inl h) = inl (inl h)
In-append e (x ∷ xs) ys (inr h) = elim (In-append e xs ys h) [ inl k ↦ inl (inr k) | inr k ↦ inr k ]

pub In-append_left : (e : Entry) (xs ys : List Entry) → In e xs → In e (xs ++ ys)
In-append_left e (x ∷ xs) ys (inl h) = inl h
In-append_left e (x ∷ xs) ys (inr h) = inr (In-append_left e xs ys h)
In-append_left e [] ys h = absurd h

pub In-append_right : (e : Entry) (xs ys : List Entry) → In e ys → In e (xs ++ ys)
In-append_right e [] ys h = h
In-append_right e (x ∷ xs) ys h = inr (In-append_right e xs ys h)

pub In-middle :
    (e : Entry) (xs : List Entry) (x : Entry) (ys : List Entry)
    → In e (xs ++ (x ∷ ys))
    → (e ≡ x) ⊎ In e (xs ++ ys)
In-middle e xs x ys h = elim (In-append e xs (x ∷ ys) h) [
  | inl k ↦ inr (In-append_left e xs ys k)
  | inr (inl k) ↦ inl k
  | inr (inr k) ↦ inr (In-append_right e xs ys k)
]

pub In-insert :
    (e : Entry) (xs : List Entry) (x : Entry) (ys : List Entry)
    → In e (xs ++ ys)
    → In e (xs ++ (x ∷ ys))
In-insert e xs x ys h = elim (In-append e xs ys h) [
  | inl k ↦ In-append_left e xs (x ∷ ys) k
  | inr k ↦ In-append_right e xs (x ∷ ys) (inr k)
]

pub In-here : (xs : List Entry) (x : Entry) (ys : List Entry) → In x (xs ++ (x ∷ ys))
In-here xs x ys = In-append_right x xs (x ∷ ys) (inl refl)

-- An entry in the middle is at an address of its own.
pub Distinct-middle :
    (xs : List Entry) (x : Entry) (ys : List Entry)
    → Distinct (xs ++ (x ∷ ys))
    → Distinct (xs ++ ys) × Fresh x.id (xs ++ ys)
Distinct-middle [] x ys d = (d.1, d.0)
Distinct-middle (z ∷ xs) x ys d =
    let (rest, fresh) = Distinct-middle xs x ys d.1 in
    ((λ e h. d.0 e (In-insert e xs x ys h), rest), apart fresh)
  where
    apart : Fresh x.id (xs ++ ys) → Fresh x.id (z ∷ (xs ++ ys))
    apart fresh e (inl h) = λ same. d.0 x (In-here xs x ys) (sym (sym (ap (λ v. v.id) h) ∙ same))
    apart fresh e (inr h) = fresh e h

pub Distinct-insert :
    (xs : List Entry) (x : Entry) (ys : List Entry)
    → Distinct (xs ++ ys)
    → Fresh x.id (xs ++ ys)
    → Distinct (xs ++ (x ∷ ys))
Distinct-insert [] x ys d f = (f, d)
Distinct-insert (z ∷ xs) x ys d f = (apart, Distinct-insert xs x ys d.1 (λ e h. f e (inr h)))
  where
    apart : Fresh z.id (xs ++ (x ∷ ys))
    apart e h = elim (In-middle e xs x ys h) [
      | inl same ↦ λ q. f z (inl refl) (sym (sym (ap (λ v. v.id) same) ∙ q))
      | inr there ↦ d.0 e there
    ]

pub sum_cost-append : (xs ys : List Entry) → sum_cost (xs ++ ys) ≡ sum_cost xs + sum_cost ys
sum_cost-append [] ys = omega arith
sum_cost-append (x ∷ xs) ys = omega (arith, sum_cost-append xs ys)

module _ (live : ℕ → Bool) where
  pub sum_live-append :
      (xs ys : List Entry) → sum_live live (xs ++ ys) ≡ sum_live live xs + sum_live live ys
  sum_live-append [] ys = omega arith
  sum_live-append (x ∷ xs) ys = omega (arith, sum_live-append xs ys)

  pub sum_dead-append :
      (xs ys : List Entry) → sum_dead live (xs ++ ys) ≡ sum_dead live xs + sum_dead live ys
  sum_dead-append [] ys = omega arith
  sum_dead-append (x ∷ xs) ys = omega (arith, sum_dead-append xs ys)

  pub sum-Fresh :
      (i : ℕ) (v : Bool) (xs : List Entry)
      → Fresh i xs
      → (sum_live (update live i v) xs ≡ sum_live live xs)
        × (sum_dead (update live i v) xs ≡ sum_dead live xs)
  sum-Fresh i v [] f = (refl, refl)
  sum-Fresh i v (x ∷ xs) f =
      let same = update_ne live i x.id v (f x (inl refl)) in
      let (p, q) = sum-Fresh i v xs (λ e h. f e (inr h)) in
      rw same (omega (arith, p), omega (arith, q))

  -- An entry of the list that dies moves its cost from the live to the dead.
  pub sum_killed :
      (e : Entry) (xs : List Entry)
      → Distinct xs
      → In e xs
      → live e.id ≡ true
      → (sum_live live xs ≡ cost e + sum_live (update live e.id false) xs)
        × (sum_dead (update live e.id false) xs ≡ cost e + sum_dead live xs)
  sum_killed e [] d h alive = absurd h
  sum_killed e (x ∷ xs) d (inl h) alive =
      let gone = ap (λ z. update live e.id false z.id) (sym h) ∙ update_self live e.id false in
      let alive_x : live x.id ≡ true = ap (λ z. live z.id) (sym h) ∙ alive in
      let (p, q) = sum-Fresh e.id false xs (λ z k r. d.0 z k (r ∙ ap (λ v. v.id) h)) in
      rw (gone, alive_x) (omega (arith, p, ap cost h), omega (arith, q, ap cost h))
  sum_killed e (x ∷ xs) d (inr h) alive =
      let (p, q) = sum_killed e xs d.1 h alive in
      rw (update_ne live e.id x.id false (λ q. d.0 e h (sym q)))
        (omega (arith, p), omega (arith, q))

  -- What is kept costs what is live, and nothing of it is dead.
  pub sum-keep_live :
      (xs : List Entry)
      → (sum_cost (keep_live live xs) ≡ sum_live live xs)
        × (sum_live live (keep_live live xs) ≡ sum_live live xs)
        × (sum_dead live (keep_live live xs) ≡ 0)
  sum-keep_live [] = (refl, refl, refl)
  sum-keep_live (x ∷ xs) =
      let (p, q, r) = sum-keep_live xs in
      elim (Bool-cases (live x.id)) [
        | inl e ↦ rw (e, e) (omega (arith, p), omega (arith, q), omega (arith, r))
        | inr e ↦ rw e (omega (arith, p), omega (arith, q), omega (arith, r))
      ]

  pub In-keep_live : (e : Entry) (xs : List Entry) → In e (keep_live live xs) → In e xs
  In-keep_live e [] h = h
  In-keep_live e (x ∷ xs) h = elim (Bool-cases (live x.id)) [
    | inl t ↦
        let h' : (e ≡ x) ⊎ In e (keep_live live xs) = rw t at h in
        elim h' [ inl same ↦ inl same | inr k ↦ inr (In-keep_live e xs k) ]
    | inr f ↦ inr (In-keep_live e xs (rw f at h))
  ]

  pub In-keep_live_live :
      (e : Entry) (xs : List Entry) → In e xs → live e.id ≡ true → In e (keep_live live xs)
  In-keep_live_live e [] h a = h
  In-keep_live_live e (x ∷ xs) (inl h) a = rw (subst (λ z. live z.id ≡ true) h a) (inl h)
  In-keep_live_live e (x ∷ xs) (inr h) a = elim (Bool-cases (live x.id)) [
    | inl t ↦ rw t (inr (In-keep_live_live e xs h a))
    | inr f ↦ rw f (In-keep_live_live e xs h a)
  ]

  pub Distinct-keep_live : (xs : List Entry) → Distinct xs → Distinct (keep_live live xs)
  Distinct-keep_live [] d = d
  Distinct-keep_live (x ∷ xs) d = elim (Bool-cases (live x.id)) [
    | inl t ↦ rw t (λ e h. d.0 e (In-keep_live e xs h), Distinct-keep_live xs d.1)
    | inr f ↦ rw f (Distinct-keep_live xs d.1)
  ]

  pub keep_live-append :
      (xs ys : List Entry) → keep_live live (xs ++ ys) ≡ keep_live live xs ++ keep_live live ys
  keep_live-append [] ys = refl
  keep_live-append (x ∷ xs) ys = elim (Bool-cases (live x.id)) [
    | inl t ↦ rw t (ap (◌∷◌ x) (keep_live-append xs ys))
    | inr f ↦ rw f (keep_live-append xs ys)
  ]
