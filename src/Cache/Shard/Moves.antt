-- ===== src/Cache/Shard/Moves.antt =====
-- Entries that move within the queues of a shard, or leave them: none is queued twice.
use oxicache.Common.{sym, List, [], ◌∷◌, ◌++◌, append_assoc, append-nil}
use oxicache.Cache.Entry.{Entry}
use oxicache.Cache.Entries.{Fresh, Distinct, Distinct-middle, Distinct-insert}
use mathlib.Core.Path.{subst}

-- An entry leaves.
pub Distinct-drop :
    (xs : List Entry) (e : Entry) (ys : List Entry)
    → Distinct (xs ++ (e ∷ ys))
    → Distinct (xs ++ ys)
Distinct-drop xs e ys d = (Distinct-middle xs e ys d).0

-- An entry moves to the end.
pub Distinct-move :
    (xs : List Entry) (e : Entry) (ys : List Entry)
    → Distinct (xs ++ (e ∷ ys))
    → Distinct (xs ++ (ys ++ (e ∷ [])))
Distinct-move xs e ys c =
    let (d, f) = Distinct-middle xs e ys c in
    subst Distinct (append_assoc xs ys (e ∷ [])) (
      Distinct-insert (xs ++ ys) e [] (subst Distinct (sym (append-nil (xs ++ ys))) d)
        (subst (Fresh e.id) (sym (append-nil (xs ++ ys))) f))

-- An entry moves to the front of a part.
pub Distinct-front :
    (xs ys : List Entry) (e : Entry) (zs : List Entry)
    → Distinct (xs ++ (ys ++ (e ∷ zs)))
    → Distinct (xs ++ (e ∷ (ys ++ zs)))
Distinct-front xs ys e zs c =
    let (d, f) =
      Distinct-middle (xs ++ ys) e zs (subst Distinct (sym (append_assoc xs ys (e ∷ zs))) c) in
    Distinct-insert xs e (ys ++ zs) (subst Distinct (append_assoc xs ys zs) d)
      (subst (Fresh e.id) (append_assoc xs ys zs) f)

-- An entry moves behind a part.
pub Distinct-back :
    (xs ys : List Entry) (e : Entry) (zs : List Entry)
    → Distinct (xs ++ (e ∷ (ys ++ zs)))
    → Distinct (xs ++ (ys ++ (e ∷ zs)))
Distinct-back xs ys e zs c =
    let (d, f) = Distinct-middle xs e (ys ++ zs) c in
    subst Distinct (append_assoc xs ys (e ∷ zs)) (
      Distinct-insert (xs ++ ys) e zs (subst Distinct (sym (append_assoc xs ys zs)) d)
        (subst (Fresh e.id) (sym (append_assoc xs ys zs)) f))

-- Those behind others.
pub Distinct-behind : (xs ys : List Entry) → Distinct (xs ++ ys) → Distinct ys
Distinct-behind [] ys d = d
Distinct-behind (x ∷ xs) ys (f, d) = Distinct-behind xs ys d
