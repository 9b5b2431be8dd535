-- ===== src/Client/Link/Dead.antt =====
-- `recover` of crates/client-rs/src/lib.rs: the connections that it gives.
use oxicache.Common.{ℕ, ◌≡◌, ◌≢◌, refl, sym, ◌∙◌, ◌⊎◌, inl, inr, Option, none, some}
use oxicache.Common.{false, false≢true, ◌==◌, ==_iff, Bool-cases, Result, ok, err}
use oxicache.Client.Cluster.{Error}
use oxicache.Client.Link.{
  Fatal, Lost, Failed, Setback, Link, Inner, Losses, is_conn, settled_up, settled, attempted,
  try_again, recover_settled, recover,
}
use mathlib.Core.Path.{subst}

-- What holds of the connection that a recovery gives.
abbrev Live : Losses → Option ℕ → Result Failed ℕ → Result Error ℕ → Type 0
Live lost before outcome (err e) = Unit {0}
Live lost before outcome (ok conn) =
    (outcome ≡ ok conn) ⊎ ((lost conn ≡ none) × (before ≢ some conn))

attempted-Live :
    (lost : Losses) (before : Option ℕ) (i : Inner) (now : ℕ) (outcome : Result Failed ℕ)
    → Live lost before outcome (attempted i now outcome).1
unfolding attempted
attempted-Live lost before i now (ok conn) = inl refl
attempted-Live lost before i now (err (Failed.fatal f)) = tt
attempted-Live lost before i now (err (Failed.setback s)) = tt

try_again-Live :
    (lost : Losses) (before : Option ℕ) (i : Inner) (seen now : ℕ) (outcome : Result Failed ℕ)
    (last : Option Setback)
    → Live lost before outcome (try_again i seen now outcome last).1
unfolding try_again
try_again-Live lost before i seen now outcome none = attempted-Live lost before i now outcome
try_again-Live lost before i seen now outcome (some s) = elim (Bool-cases (i.attempts == seen)) [
  | inl e ↦ rw e (attempted-Live lost before i now outcome)
  | inr e ↦ rw e tt
]

-- What is settled is a connection that has not ended, other than the one that failed.
abbrev Sound : Losses → Option ℕ → Option (Result Fatal ℕ) → Type 0
Sound lost before (some (ok conn)) = (lost conn ≡ none) × (before ≢ some conn)
Sound lost before _ = Unit {0}

is_conn-some : (before : Option ℕ) (conn : ℕ) → is_conn before conn ≡ false → before ≢ some conn
unfolding is_conn
is_conn-some none conn e h = cc h
is_conn-some (some c) conn e h =
    let same : c ≡ conn = cc h in false≢true (sym e ∙ (==_iff c conn).1 same)

settled_up-Sound :
    (lost : Losses) (before : Option ℕ) (conn : ℕ) (l : Option Lost)
    → lost conn ≡ l
    → Sound lost before (settled_up conn before l)
unfolding settled_up
settled_up-Sound lost before conn (some (Lost.fatal f)) e = tt
settled_up-Sound lost before conn (some Lost.transient) e = tt
settled_up-Sound lost before conn none e = elim (Bool-cases (is_conn before conn)) [
  | inl h ↦ rw h tt
  | inr h ↦ rw h (e, is_conn-some before conn h)
]

settled-Sound :
    (lost : Losses) (before : Option ℕ) (link : Link) → Sound lost before (settled lost before link)
unfolding settled
settled-Sound lost before (Link.up conn) = settled_up-Sound lost before conn (lost conn) refl
settled-Sound lost before Link.down = tt
settled-Sound lost before (Link.dead f) = tt

recover_settled-Live :
    (lost : Losses) (before : Option ℕ) (i : Inner) (seen now : ℕ) (outcome : Result Failed ℕ)
    (s : Option (Result Fatal ℕ))
    → Sound lost before s
    → Live lost before outcome (recover_settled i seen now outcome s).1
unfolding recover_settled
recover_settled-Live lost before i seen now outcome (some (ok conn)) h = inr h
recover_settled-Live lost before i seen now outcome (some (err f)) h = tt
recover_settled-Live lost before i seen now outcome none h =
    try_again-Live lost before (record i { link = Link.down }) seen now outcome i.last

-- The connection that a recovery gives is the one that its own attempt has opened, or one that is not
-- known to have ended and is not the one that the caller saw fail.
pub recover-ok :
    (lost : Losses) (i : Inner) (seen : ℕ) (before : Option ℕ) (now : ℕ) (outcome : Result Failed ℕ)
    (conn : ℕ)
    → (recover lost i seen before now outcome).1 ≡ ok conn
    → (outcome ≡ ok conn) ⊎ ((lost conn ≡ none) × (before ≢ some conn))
unfolding recover
recover-ok lost i seen before now outcome conn e = subst (Live lost before outcome) e (
    recover_settled-Live lost before i seen now outcome (settled lost before i.link)
      (settled-Sound lost before i.link))
