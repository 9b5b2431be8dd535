-- ===== src/Cache/Table/Paths.antt =====
-- `find_path` of crates/server/src/cache/table.rs: displacement paths, and the walks that look for them.
use oxicache.Common.{
  ℕ, zero, suc, ◌+◌, ◌/◌, ◌%◌, ◌^◌, ◌<◌, ◌≤◌, ◌≡◌, ◌≢◌, refl, sym, ap, ◌∙◌, ◌⊎◌, inl, inr, arith,
  List, [], ◌∷◌, ◌++◌, Option, none, some,
}
use oxicache.Common.{Bool, true, false, false≢true, Bool-cases, if◌then◌else◌, ◌==◌, ==_iff}
use oxicache.Cache.Table.{
  Position, Table, slots, max_walks, max_kicks, alt, tag_of_word, same_position, empty_from,
  empty_slot, contains, next_seed, Hops, kick, walk, retry, walks, find_path,
}
use oxicache.Cache.Table.Placed.{same_position-cases, different}
use Prim.Native.Nat.{bit_and}

-- The bucket of the first slot of a path that ends in bucket `b`.
abbrev pub first : List Position → ℕ → ℕ
first [] b = b
first (p ∷ path) b = p.0

-- Each slot of the path holds a word, stands once, and its word moves to the bucket of the next.
unfoldable pub Chain : Table → List Position → ℕ → Type 0
Chain t [] b = Unit {0}
Chain t (p ∷ path) b =
    (t.words p ≢ 0)
    × (p.1 < slots)
    × (contains p path ≡ false)
    × (first path b ≡ alt t p.0 (tag_of_word (t.words p)))
    × Chain t path b

abbrev pub Full : Table → ℕ → Type 0
Full t b = (i : ℕ) → i < slots → t.words (b, i) ≢ 0

unfoldable pub Leads : Table → (ℕ → Type 0) → ℕ × Option Hops → Type 0
Leads t Start (seed, none) = Unit {0}
Leads t Start (seed, some (path, dest)) =
    Chain t path dest.0 × (t.words dest ≡ 0) × (dest.1 < slots) × Start (first path dest.0)

-- What the search for an empty slot says.
abbrev pub Emptied : Table → ℕ → ℕ → ℕ → Option ℕ → Type 0
Emptied t b i left none = (j : ℕ) → i ≤ j → j < i + left → t.words (b, j) ≢ 0
Emptied t b i left (some j) = (t.words (b, j) ≡ 0) × (j < i + left)

Emptied-next :
    (t : Table) (b i left : ℕ) (o : Option ℕ)
    → t.words (b, i) ≢ 0
    → Emptied t b (i + 1) left o
    → Emptied t b i (suc left) o
Emptied-next t b i left (some j) n (z, h) = (z, omega (arith, h))
Emptied-next t b i left none n h = λ j k l. elim (nat_cases i j k) [
  | inl e ↦ λ x. n (ap (λ q. t.words (b, q)) e ∙ x)
  | inr e ↦ h j e (omega (arith, l))
]
  where
    nat_cases : (i j : ℕ) → i ≤ j → (i ≡ j) ⊎ (i + 1 ≤ j)
    nat_cases i j h = omega (arith, h)

empty_from-Emptied : (t : Table) (b i left : ℕ) → Emptied t b i left (empty_from t b i left)
unfolding empty_from
empty_from-Emptied t b i zero = λ j k l. absurd (omega (arith, k, l))
empty_from-Emptied t b i (suc left) = elim (Bool-cases (t.words (b, i) == 0)) [
  | inl e ↦ rw e ((==_iff (t.words (b, i)) 0).0 e, omega arith)
  | inr e ↦ rw e (
      Emptied-next t b i left (empty_from t b (i + 1) left) (different (t.words (b, i)) 0 e)
        (empty_from-Emptied t b (i + 1) left))
]

pub empty_slot-Emptied : (t : Table) (b : ℕ) → Emptied t b 0 slots (empty_slot t b)
unfolding empty_slot
empty_slot-Emptied t b = empty_from-Emptied t b 0 slots

neither : (b c : Bool) → (if b then true else c) ≡ false → (b ≡ false) × (c ≡ false)
neither true c h = absurd (false≢true (sym h))
neither false c h = (refl, h)

pub contains-cons :
    (p q : Position) (qs : List Position)
    → contains p (q ∷ qs) ≡ false
    → (p ≢ q) × (contains p qs ≡ false)
unfolding contains
contains-cons p q qs h =
    let (e, k) = neither (same_position p q) (contains p qs) h in
    elim (same_position-cases p q) [
      | inl (y, x) ↦ absurd (false≢true (sym e ∙ y))
      | inr (y, x) ↦ (x, k)
    ]

contains-snoc :
    (p r : Position) (qs : List Position)
    → contains p qs ≡ false
    → p ≢ r
    → contains p (qs ++ (r ∷ [])) ≡ false
unfolding contains
contains-snoc p r [] h n = elim (same_position-cases p r) [
  | inl (e, k) ↦ absurd (n k)
  | inr (e, k) ↦ rw e refl
]
contains-snoc p r (q ∷ qs) h n =
    let (m, k) = contains-cons p q qs h in
    elim (same_position-cases p q) [
      | inl (e, l) ↦ absurd (m l)
      | inr (e, l) ↦ rw e (contains-snoc p r qs k n)
    ]

first-snoc :
    (path : List Position) (b i next : ℕ) → first (path ++ ((b, i) ∷ [])) next ≡ first path b
first-snoc [] b i next = refl
first-snoc (p ∷ path) b i next = refl

Chain-snoc :
    (t : Table) (path : List Position) (b i : ℕ)
    → Chain t path b
    → t.words (b, i) ≢ 0
    → i < slots
    → contains (b, i) path ≡ false
    → Chain t (path ++ ((b, i) ∷ [])) (alt t b (tag_of_word (t.words (b, i))))
unfolding Chain contains
Chain-snoc t [] b i c n l h = (n, l, refl, refl, tt)
Chain-snoc t (p ∷ path) b i (z, k, e, f, c) n l h =
    let (m, g) = contains-cons (b, i) p path h in
    (
      z,
      k,
      contains-snoc p (b, i) path e (λ x. m (sym x)),
      first-snoc path b i _ ∙ f,
      Chain-snoc t path b i c n l g,
    )

kick-Leads :
    (t : Table) (Start : ℕ → Type 0) (more : ℕ → List Position → ℕ → ℕ × Option Hops) (seed : ℕ)
    (path : List Position) (next : ℕ)
    → Chain t path next
    → Start (first path next)
    → (Full t next → Leads t Start (more seed path next))
    → (o : Option ℕ) → Emptied t next 0 slots o
    → Leads t Start (kick more seed path next o)
unfolding kick Leads
kick-Leads t Start more seed path next c s ih none h = ih (λ i l. h i (omega arith) l)
kick-Leads t Start more seed path next c s ih (some j) (z, l) = (c, z, l, s)

walk-Leads :
    (t : Table) (Start : ℕ → Type 0) (kicks seed : ℕ) (path : List Position) (b : ℕ)
    → Chain t path b
    → Full t b
    → Start (first path b)
    → Leads t Start (walk t kicks seed path b)
unfolding walk
walk-Leads t Start zero seed path b c f s = unfold Leads in tt
walk-Leads t Start (suc kicks) seed path b c f s =
    let seed' = next_seed seed in
    let i = seed' / 2 ^ 33 % slots in
    let next = alt t b (tag_of_word (t.words (b, i))) in
    let path' = path ++ ((b, i) ∷ []) in
    elim (Bool-cases (contains (b, i) path)) [
      | inl e ↦ rw e (unfold Leads in tt)
      | inr e ↦
          let l : i < slots = omega arith in
          let c' = Chain-snoc t path b i c (f i l) l e in
          let s' : Start (first path' next) = rw (first-snoc path b i next) s in
          rw e (
            kick-Leads t Start (walk t kicks) seed' path' next c' s'
              (λ full. walk-Leads t Start kicks seed' path' next c' full s') (empty_slot t next)
              (empty_slot-Emptied t next))
    ]

retry-Leads :
    (t : Table) (Start : ℕ → Type 0) (again : ℕ → ℕ × Option Hops)
    → ((seed : ℕ) → Leads t Start (again seed))
    → (r : ℕ × Option Hops) → Leads t Start r
    → Leads t Start (retry again r)
unfolding retry
retry-Leads t Start again ih (seed, none) h = ih seed
retry-Leads t Start again ih (seed, some (path, dest)) h = h

abbrev pub OneOf : ℕ → ℕ → ℕ → Type 0
OneOf b1 b2 b = (b ≡ b1) ⊎ (b ≡ b2)

walks-Leads :
    (t : Table) (n b1 b2 seed : ℕ)
    → Full t b1
    → Full t b2
    → Leads t (OneOf b1 b2) (walks t n b1 b2 seed)
unfolding walks
walks-Leads t zero b1 b2 seed f g = unfold Leads in tt
walks-Leads t (suc n) b1 b2 seed f g =
    retry-Leads t (OneOf b1 b2) (walks t n b1 b2) (λ s. walks-Leads t n b1 b2 s f g) _
      (elim (Bool-cases (bit_and seed 1 == 0)) [
        | inl e ↦
            rw e (walk-Leads t (OneOf b1 b2) max_kicks seed [] b1 (unfold Chain in tt) f (inl refl))
        | inr e ↦
            rw e (walk-Leads t (OneOf b1 b2) max_kicks seed [] b2 (unfold Chain in tt) g (inr refl))
      ])

pub find_path-Leads :
    (t : Table) (b1 b2 seed : ℕ)
    → Full t b1
    → Full t b2
    → Leads t (OneOf b1 b2) (find_path t b1 b2 seed)
unfolding find_path
find_path-Leads t b1 b2 seed f g = walks-Leads t max_walks b1 b2 seed f g
