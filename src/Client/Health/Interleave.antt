-- ===== src/Client/Health/Interleave.antt =====
-- What calls that interleave can leave in the word of a server.
use oxicache.Common.{
  ℕ, ◌+◌, ◌≤◌, ◌≡◌, refl, sym, ◌∙◌, ◌⊎◌, inl, inr, arith, Option, none, some, min,
}
use oxicache.Common.{Bool-cases, leb, leb→le}
use oxicache.Client.Health.{
  Failover, deadline_max, failures_max, health, failures, deadline, next_deadline, failed, drop_out,
  retry, saturating_add, Step, Reach,
}
use mathlib.Core.Path.{subst}

-- What `health` packs, `failures` and `deadline` unpack, each at most its field's maximum.
pub failures-health :
    (f d : ℕ)
    → (failures (health f d) ≡ min f failures_max) × (deadline (health f d) ≡ min d deadline_max)
unfolding health failures deadline
failures-health f d = (omega arith, omega arith)

-- The words of a server that is not dropped or that has the failures that drop it.
pub Counted : Option Failover → ℕ → Type 0
Counted none word = deadline word ≡ 0
Counted (some policy) word =
    (deadline word ≡ 0) ⊎ (min policy.failures failures_max ≤ failures word)

failed-Counted :
    (failover : Option Failover) (now word : ℕ)
    → Counted failover word
    → Counted failover (failed failover now word)
unfolding failed next_deadline Counted
failed-Counted none now word c = (failures-health (failures word + 1) (deadline word)).1 ∙ rw c refl
failed-Counted (some policy) now word c =
    elim (Bool-cases (leb policy.failures (failures word + 1))) [
      | inl enough ↦ rw enough (
          let (f, _) = failures-health (failures word + 1) (saturating_add now (retry policy)) in
          inr (omega (arith, f, leb→le _ _ enough)))
      | inr few ↦
          let (f, d) = failures-health (failures word + 1) (deadline word) in
          rw few (elim c [ inl up ↦ inl (d ∙ rw up refl) | inr out ↦ inr (omega (arith, f, out)) ])
    ]

healthy-Counted : (failover : Option Failover) → Counted failover 0
unfolding Counted deadline
healthy-Counted none = refl
healthy-Counted (some policy) = inl refl

drop_out-Counted : (policy : Failover) (now : ℕ) → Counted (some policy) (drop_out policy now)
unfolding Counted drop_out
drop_out-Counted policy now =
    inr (omega (arith, (failures-health policy.failures (saturating_add now (retry policy))).0))

Step-Counted :
    {failover : Option Failover} {word next : ℕ}
    → Step failover word next
    → Counted failover word
    → Counted failover next
Step-Counted {failover} Step.clears c = healthy-Counted failover
Step-Counted {failover} {word} (Step.counts now) c = failed-Counted failover now word c
Step-Counted (Step.drops now policy same) c =
    subst (λ f. Counted f (drop_out policy now)) (sym same) (drop_out-Counted policy now)

-- However the calls interleave, a word with a retry deadline in it also has at least as many
-- failures as drop a server (or the most that the word holds), so an answer sees it and clears it;
-- without a failure policy no server is ever dropped.
pub Reach-Counted :
    {failover : Option Failover} {word : ℕ} → Reach failover word → Counted failover word
Reach-Counted {failover} Reach.start = healthy-Counted failover
Reach-Counted (Reach.step before s) = Step-Counted s (Reach-Counted before)
