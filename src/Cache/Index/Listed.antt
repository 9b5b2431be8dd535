-- ===== src/Cache/Index/Listed.antt =====
-- An index as a list of entries, the newest first, to run a shard with.
use oxicache.Common.{
  ℕ, ◌≡◌, ◌≢◌, refl, sym, ◌∙◌, ◌⊎◌, inl, inr, List, [], ◌∷◌, Option, none, some, false≢true,
}
use oxicache.Common.{Bool, true, false, if◌then◌else◌, Bool-cases, length, ◌==◌, ==_iff, Bytes}
use oxicache.Cache.Entry.{Entry}
use oxicache.Cache.Index.{Index}

unfoldable pub same_bytes : Bytes → Bytes → Bool
same_bytes [] [] = true
same_bytes [] (b ∷ bs) = false
same_bytes (a ∷ xs) [] = false
same_bytes (a ∷ xs) (b ∷ bs) = let rest = same_bytes xs bs in if a == b then rest else false

pub same_bytes-cases :
    (a b : Bytes) → ((same_bytes a b ≡ true) × (a ≡ b)) ⊎ ((same_bytes a b ≡ false) × (a ≢ b))
unfolding same_bytes
same_bytes-cases [] [] = inl (refl, refl)
same_bytes-cases [] (b ∷ bs) = inr (refl, λ q. cc q)
same_bytes-cases (a ∷ xs) [] = inr (refl, λ q. cc q)
same_bytes-cases (a ∷ xs) (b ∷ bs) = elim (Bool-cases (a == b)) [
  | inr other ↦ rw other (inr (refl, λ q. apart (cc q) other))
  | inl same ↦ elim (same_bytes-cases xs bs) [
    | inl (yes', q) ↦
        let head : a ≡ b = (==_iff a b).0 same in rw (same, yes') (inl (refl, cc (head, q)))
    | inr (no', n) ↦ rw (same, no') (inr (refl, λ q. n (cc q)))
  ]
]
  where
    apart : a ≡ b → (a == b) ≡ false → ⊥
    apart q other = false≢true (sym other ∙ (==_iff a b).1 q)

unfoldable pub find : List Entry → Bytes → Option Entry
find [] k = none
find (e ∷ es) k = let rest = find es k in if same_bytes e.key k then some e else rest

unfoldable pub without : List Entry → Bytes → List Entry
without [] k = []
without (e ∷ es) k = let rest = without es k in if same_bytes e.key k then rest else e ∷ rest

unfoldable pub remove_found : List Entry → Entry → Option Entry → List Entry × Option Entry
remove_found t e none = (t, none)
remove_found t e (some found) =
    if found.id == e.id then (without t e.key, some found) else (t, none)

abbrev pub listed : (hash : Bytes → ℕ) → Index hash
listed hash = record {
  Table = List Entry;
  empty = [];
  len = length;
  get = λ t h k. find t k;
  insert = λ t e. (e ∷ without t e.key, find t e.key);
  remove = λ t h k. (without t k, find t k);
  remove_if_same = λ t e. remove_found t e (find t e.key);
}
