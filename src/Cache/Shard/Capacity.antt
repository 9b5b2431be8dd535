-- ===== src/Cache/Shard/Capacity.antt =====
-- No operation of a shard changes its capacity, whatever state the shard is in.
use oxicache.Common.{
  ℕ, zero, suc, ◌+◌, ◌≡◌, refl, ◌∙◌, inl, inr, arith, List, [], ◌∷◌, Option, none, some,
  Option-cases,
}
use oxicache.Common.{Bool-cases, ltb, leb, Bytes}
use oxicache.Cache.Entry.{Entry, cost, Retired, add}
use oxicache.Cache.Index.{Index}
use oxicache.Cache.Ghost.{ghost_take}
use oxicache.Cache.Shard.{
  Shard, evict, promote, evict_to_ghost, drop_dead, rotate, evict_popped, evict_small_from,
  evict_small, main_round, main_from, main_loop, evict_main, or_else, evict_once, evict_loop,
  make_room, maybe_compact, enqueue, replaced, allocate, set_entry,
}
use oxicache.Cache.Shard.Kills.{kill_capacity}
use mathlib.Core.Path.{subst}

module _ (hash : Bytes → ℕ) (index : Index hash) where
  -- What an eviction returns, if anything, has this capacity.
  Keeps : ℕ → Option (Shard hash index × Retired) → Type 0
  Keeps n none = Unit
  Keeps n (some (s, r)) = s.capacity ≡ n

  evict_popped-capacity :
      (s : Shard hash index) (e : Entry) → (evict_popped hash index s e).0.capacity ≡ s.capacity
  unfolding evict_popped promote evict_to_ghost evict drop_dead
  evict_popped-capacity s e = ground arith

  evict_small-Keeps : (s : Shard hash index) → Keeps s.capacity (evict_small hash index s)
  unfolding evict_small
  evict_small-Keeps s = from s.small
    where
      from : (small : List Entry) → Keeps s.capacity (evict_small_from hash index small s)
      from [] = unfold evict_small_from Keeps in tt
      from (e ∷ small) = unfold evict_small_from Keeps in evict_popped-capacity _ e

  main_round-Keeps :
      (again : Shard hash index → Option (Shard hash index × Retired)) (s : Shard hash index)
      (e : Entry)
      → ((t : Shard hash index) → Keeps t.capacity (again t))
      → Keeps s.capacity (main_round hash index again s e)
  unfolding main_round
  main_round-Keeps again s e ih = elim (Bool-cases (s.live e.id)) [
    | inr dead ↦ simp dead (unfold Keeps drop_dead in refl)
    | inl alive ↦ elim (Bool-cases (ltb 0 (s.freq e.id))) [
      | inl used ↦ simp (alive, used) (turned s e ih)
      | inr unused ↦ simp (alive, unused) (unfold Keeps evict in refl)
    ]
  ]
    where
      turned :
          (s : Shard hash index) (e : Entry)
          → ((t : Shard hash index) → Keeps t.capacity (again t))
          → Keeps s.capacity (again (rotate hash index s e))
      turned s e ih = unfold rotate in ih (rotate hash index s e)

  main_loop-Keeps :
      (fuel : ℕ) (s : Shard hash index) → Keeps s.capacity (main_loop hash index fuel s)
  unfolding main_loop
  main_loop-Keeps zero s = unfold Keeps in tt
  main_loop-Keeps (suc fuel) s = from s.main (main_loop-Keeps fuel)
    where
      from :
          (main : List Entry)
          → ((t : Shard hash index) → Keeps t.capacity (main_loop hash index fuel t))
          → Keeps s.capacity (main_from hash index (main_loop hash index fuel) main s)
      from [] ih = unfold main_from Keeps in tt
      from (e ∷ main) ih =
          unfold main_from in
          main_round-Keeps (main_loop hash index fuel) (record s { main = main }) e ih

  or_else-Keeps :
      (n : ℕ) (a b : Option (Shard hash index × Retired))
      → Keeps n a
      → Keeps n b
      → Keeps n (or_else hash index a b)
  unfolding or_else
  or_else-Keeps n none b h h' = h'
  or_else-Keeps n (some a) b h h' = h

  evict_once-Keeps : (s : Shard hash index) → Keeps s.capacity (evict_once hash index s)
  unfolding evict_once
  evict_once-Keeps s =
      let small = evict_small-Keeps s in
      let main : Keeps s.capacity (evict_main hash index s) =
        unfold evict_main in main_loop-Keeps _ s in
      elim (Bool-cases (leb s.small_capacity s.small_bytes)) [
        | inl full ↦ simp full (or_else-Keeps s.capacity _ _ small main)
        | inr room ↦ simp room (or_else-Keeps s.capacity _ _ main small)
      ]

  evict_loop-capacity :
      (fuel c : ℕ) (s : Shard hash index) (r : Retired)
      → (evict_loop hash index fuel c s r).0.capacity ≡ s.capacity
  unfolding evict_loop Keeps
  evict_loop-capacity zero c s r = refl
  evict_loop-capacity (suc fuel) c s r = elim (Bool-cases (ltb s.capacity (s.used + c))) [
    | inr fits ↦ simp fits refl
    | inl full ↦ elim (Option-cases (evict_once hash index s)) [
      | inl stop ↦ simp full (rw stop refl)
      | inr (found, e) ↦ simp full (
          rw e (
            evict_loop-capacity fuel c (found.0) (add r found.1)
            ∙ subst (Keeps s.capacity) e (evict_once-Keeps s)))
    ]
  ]

  pub set_entry-capacity :
      (s : Shard hash index) (e : Entry) → (set_entry hash index s e).0.capacity ≡ s.capacity
  unfolding set_entry make_room
  set_entry-capacity s e =
      maybe_compact-capacity _
      ∙ enqueue-capacity _
      ∙ evict_loop-capacity _ (cost e) _ _
      ∙ replaced-capacity (index.insert s.table e).1
    where
      maybe_compact-capacity :
          (s : Shard hash index) → (maybe_compact hash index s).capacity ≡ s.capacity
      maybe_compact-capacity s = unfold maybe_compact in ground arith

      enqueue-capacity : (s : Shard hash index) → (enqueue hash index s e).capacity ≡ s.capacity
      enqueue-capacity s =
          unfold enqueue in
          elim (Bool-cases (ghost_take s.ghost e.hash).0) [
            | inl known ↦ rw known refl
            | inr unknown ↦ rw unknown refl
          ]

      replaced-capacity :
          (old : Option Entry)
          → (replaced hash index
              (record (allocate hash index s e) { table = (index.insert s.table e).0 })
              old).0.capacity
            ≡ s.capacity
      replaced-capacity none = unfold replaced allocate in refl
      replaced-capacity (some old) = unfold replaced allocate in kill_capacity hash index _ old
