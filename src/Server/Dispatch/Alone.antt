-- ===== src/Server/Dispatch/Alone.antt =====
-- The reference for a batch: each item answered by itself, in order. Here, how the runs of a batch
-- divide it.
pub mod Runs
pub mod Sets
use oxicache.Common.{
  ℕ, zero, suc, ◌+◌, ◌≤◌, ◌≡◌, refl, sym, ap, ◌∙◌, ◌⊎◌, inl, inr, arith, List, [], ◌∷◌, ◌++◌,
  Option, none, some, append_assoc, append-nil,
}
use oxicache.Common.{
  Bool, true, false, if◌then◌else◌, Bool-cases, ◌==◌, ==_iff, length, Bytes, Result, ok, err,
  Result-cases,
}
use oxicache.Wire.{Op, op_from_u8, Status, DecodeError, set_body}
use oxicache.Io.Writer.Close.{Write}
use oxicache.Cache.Index.{Index}
use oxicache.Server.Dispatch.{
  Texts, Served, frame_of, header_of, found_of, take_run, parsed, set_run, get_value, set_value,
  set_parsed, del_values, del_reply, bad_item, and_then,
}
use mathlib.Core.Path.{subst, fun_ext}

module _ (hasher : Bytes → ℕ) (index : Index hasher) (texts : Texts) where
  abbrev pub State : Type 0
  State = Served hasher index texts

  -- One step after another, over a list.
  unfoldable pub each {ℓ} :
      {A : Type ℓ} → (State → A → State × List Write) → List A → State → State × List Write
  each f [] s = (s, [])
  each f (x ∷ xs) s = and_then hasher index texts (each f xs) (f s x)

  unfoldable pub answer_get : State → Bytes → State × List Write
  answer_get s key = let (s', e) = get_value hasher index texts s key in (s', found_of e)

  unfoldable pub answer_del : State → Bytes → State × List Write
  answer_del s key = del_reply hasher index texts (del_values hasher index texts s (key ∷ []))

  unfoldable pub answer_op : State → ℕ → Bytes → Option Op → State × List Write
  answer_op s op b (some Op.get) = answer_get s b
  answer_op s op b (some Op.set) = set_parsed hasher index texts s (set_body b)
  answer_op s op b (some Op.del) = answer_del s b
  answer_op s op b _ = (s, frame_of Status.unknown_op (texts.not_in_batch op))

  unfoldable pub answer_item : State → ℕ × Bytes → State × List Write
  answer_item s (op, b) = answer_op s op b (op_from_u8 op)

  unfoldable pub alone : List (ℕ × Bytes) → State → State × List Write
  alone items s = each answer_item items s

  pub and_then_assoc :
      (f g : State → State × List Write) (r : State × List Write)
      → and_then hasher index texts g (and_then hasher index texts f r)
        ≡ and_then hasher index texts (λ s. and_then hasher index texts g (f s)) r
  unfolding and_then
  and_then_assoc f g (s, ws) =
      ap (λ z. ((g ((f s).0)).0, z)) (append_assoc ws ((f s).1) ((g ((f s).0)).1))

  pub alone-cons :
      (item : ℕ × Bytes) (items : List (ℕ × Bytes)) (s : State)
      → alone (item ∷ items) s ≡ and_then hasher index texts (alone items) (answer_item s item)
  unfolding alone each
  alone-cons item items s = refl

  each-cons {ℓ} :
      {A : Type ℓ} (f : State → A → State × List Write) (x : A) (xs : List A) (s : State)
      → each f (x ∷ xs) s ≡ and_then hasher index texts (each f xs) (f s x)
  unfolding each
  each-cons f x xs s = refl

  -- An item that `f` answers, and the run of its op after it.
  pub run_start :
      (f : State → Bytes → State × List Write) (op : ℕ) (b : Bytes) (items : List (ℕ × Bytes))
      (s : State)
      → answer_item s (op, b) ≡ f s b
      → ((t : State)
          → alone items t
            ≡ and_then hasher index texts
                (alone (take_run op items).1)
                (each f (take_run op items).0 t))
      → alone ((op, b) ∷ items) s
        ≡ and_then hasher index texts
            (alone (take_run op items).1)
            (each f (b ∷ (take_run op items).0) s)
  run_start f op b items s h ih =
      alone-cons (op, b) items s
      ∙ ap (λ r. and_then hasher index texts (alone items) r) h
      ∙ ap (λ g. and_then hasher index texts g (f s b)) (fun_ext ih)
      ∙ sym (and_then_assoc (each f (take_run op items).0) (alone (take_run op items).1) (f s b))
      ∙ ap (and_then hasher index texts (alone (take_run op items).1))
          (sym (each-cons f b (take_run op items).0 s))

  -- A run of one op whose items are answered by `f` is `f` over their bodies.
  pub take_run-alone :
      (f : State → Bytes → State × List Write) (op : ℕ) (items : List (ℕ × Bytes)) (s : State)
      → ((t : State) (b : Bytes) → answer_item t (op, b) ≡ f t b)
      → alone items s
        ≡ and_then hasher index texts (alone (take_run op items).1) (each f (take_run op items).0 s)
  unfolding take_run
  take_run-alone f op [] s h = unfold alone each and_then in refl
  take_run-alone f op ((o, b) ∷ items) s h = elim (Bool-cases (o == op)) [
    | inr other ↦ rw other (unfold alone each and_then in refl)
    | inl same ↦
        rw (same, (==_iff o op).0 same)
          (run_start f op b items s (h s b) (λ t. take_run-alone f op items t h))
  ]

  pub length-take_run :
      (op : ℕ) (items : List (ℕ × Bytes)) → length (take_run op items).1 ≤ length items
  unfolding take_run
  length-take_run op [] = omega arith
  length-take_run op ((o, b) ∷ items) = elim (Bool-cases (o == op)) [
    | inr other ↦ rw other (omega arith)
    | inl same ↦ rw same (omega (arith, length-take_run op items))
  ]

  -- What a run of SET items is answered.
  pub sets_alone : List (Bytes × Bytes) → Option DecodeError → State → State × List Write
  sets_alone entries bad s =
      and_then hasher index texts (λ t. (t, bad_item hasher index texts bad))
        (each (set_value hasher index texts) entries s)

  sets_alone-cons :
      (entry : Bytes × Bytes) (entries : List (Bytes × Bytes)) (bad : Option DecodeError)
      (s : State)
      → sets_alone (entry ∷ entries) bad s
        ≡ and_then hasher index texts
            (sets_alone entries bad)
            (set_value hasher index texts s entry)
  unfolding sets_alone each
  sets_alone-cons entry entries bad s = and_then_assoc _ _ _

  sets_alone-bad :
      (e : DecodeError) (s : State)
      → sets_alone [] (some e) s ≡ set_parsed hasher index texts s (err e)
  unfolding sets_alone each and_then set_parsed bad_item
  sets_alone-bad e s = refl

  set_parsed-ok :
      (s : State) (entry : Bytes × Bytes)
      → set_parsed hasher index texts s (ok entry) ≡ set_value hasher index texts s entry
  unfolding set_parsed
  set_parsed-ok s entry = refl

  pub answer_item-set :
      (s : State) (op : ℕ) (b : Bytes)
      → op_from_u8 op ≡ some Op.set
      → answer_item s (op, b) ≡ set_parsed hasher index texts s (set_body b)
  unfolding answer_item
  answer_item-set s op b h = ap (answer_op s op b) h ∙ unfold answer_op in refl

  -- The item that ends a run, or begins it, and the run after it.
  pub parsed-alone :
      (r : Result DecodeError (Bytes × Bytes))
      (run : List (Bytes × Bytes) × Option DecodeError × List (ℕ × Bytes))
      (items : List (ℕ × Bytes)) (s : State)
      → ((t : State)
          → alone items t ≡ and_then hasher index texts (alone run.2) (sets_alone run.0 run.1 t))
      → and_then hasher index texts (alone items) (set_parsed hasher index texts s r)
        ≡ and_then hasher index texts
            (alone (parsed r run items).2)
            (sets_alone (parsed r run items).0 (parsed r run items).1 s)
  unfolding parsed
  parsed-alone (err e) (entries, bad, rest) items s h =
      ap (and_then hasher index texts (alone items)) (sym (sets_alone-bad e s))
  parsed-alone (ok entry) (entries, bad, rest) items s h =
      ap (λ g. and_then hasher index texts g (set_parsed hasher index texts s (ok entry)))
        (fun_ext h)
      ∙ sym (
          and_then_assoc (sets_alone entries bad) (alone rest)
            (set_parsed hasher index texts s (ok entry)))
      ∙ ap (and_then hasher index texts (alone rest)) (
          ap (and_then hasher index texts (sets_alone entries bad)) (set_parsed-ok s entry)
          ∙ sym (sets_alone-cons entry entries bad s))

  pub set_run-alone :
      (op : ℕ) (items : List (ℕ × Bytes)) (s : State)
      → op_from_u8 op ≡ some Op.set
      → alone items s
        ≡ and_then hasher index texts
            (alone (set_run op items).2)
            (sets_alone (set_run op items).0 (set_run op items).1 s)
  unfolding set_run
  set_run-alone op [] s h = unfold alone sets_alone each and_then bad_item in refl
  set_run-alone op ((o, b) ∷ items) s h = elim (Bool-cases (o == op)) [
    | inr other ↦ rw other (unfold alone sets_alone each and_then bad_item in refl)
    | inl same ↦
        let is_set : op_from_u8 o ≡ some Op.set = ap op_from_u8 ((==_iff o op).0 same) ∙ h in
        rw same (
          alone-cons (o, b) items s
          ∙ ap (and_then hasher index texts (alone items)) (answer_item-set s o b is_set)
          ∙ parsed-alone (set_body b) (set_run op items) items s (λ t. set_run-alone op items t h))
  ]

  pub length-parsed :
      (r : Result DecodeError (Bytes × Bytes))
      (run : List (Bytes × Bytes) × Option DecodeError × List (ℕ × Bytes))
      (items : List (ℕ × Bytes))
      → length run.2 ≤ length items
      → length (parsed r run items).2 ≤ length items
  unfolding parsed
  length-parsed (err e) (entries, bad, rest) items h = omega arith
  length-parsed (ok entry) (entries, bad, rest) items h = h

  pub length-set_run :
      (op : ℕ) (items : List (ℕ × Bytes)) → length (set_run op items).2 ≤ length items
  unfolding set_run
  length-set_run op [] = omega arith
  length-set_run op ((o, b) ∷ items) = elim (Bool-cases (o == op)) [
    | inr other ↦ rw other (omega arith)
    | inl same ↦ rw same (
        omega
          (arith, length-parsed (set_body b) (set_run op items) items (length-set_run op items)))
  ]
