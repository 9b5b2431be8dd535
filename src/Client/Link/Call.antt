-- ===== src/Client/Link/Call.antt =====
-- `call` of crates/client-rs/src/lib.rs: a request, and its second sending on another connection. What
-- `send` comes to is a parameter, for the first time and for the second, and so is what other tasks do
-- to the client before a recovery.
use oxicache.Common.{ℕ, ◌≡◌, ◌≢◌, ◌⊎◌, List, [], ◌∷◌, Option, none, some}
use oxicache.Common.{Bytes, Result, ok, err}
use oxicache.Wire.{Status}
use oxicache.Client.Cluster.{Error}
use oxicache.Client.Link.{Failed, Inner, Losses, current, recover, Link}

-- A recovery: what is known of the connections, the attempts counted before it waits, when it has
-- the lock, and what an attempt comes to.
pub record Recovery : Type 0 where
  pub lost : Losses
  pub seen : ℕ
  pub now : ℕ
  pub outcome : Result Failed ℕ

abbrev pub Reply : Type 0
Reply = Result Error (Status × Bytes)

-- The client after a call, the connections on which the request was sent, and the result.
pub record Called : Type 0 where
  pub inner : Inner
  pub sent : List ℕ
  pub result : Reply

unfoldable pub recovered : Recovery → Inner → Option ℕ → Inner × Result Error ℕ
recovered r i before = recover r.lost i r.seen before r.now r.outcome

module _ (send again : ℕ → Reply) (start retry : Recovery) (others : Inner → Inner) where
  unfoldable pub resend : ℕ → Inner × Result Error ℕ → Called
  resend c (i, err e) = record { inner = i; sent = c ∷ []; result = err e }
  resend c (i, ok d) = record { inner = i; sent = c ∷ d ∷ []; result = again d }

  unfoldable pub sent_first : Inner → ℕ → Reply → Called
  sent_first i c (err Error.closed) = resend c (recovered retry (others i) (some c))
  sent_first i c r = record { inner = i; sent = c ∷ []; result = r }

  unfoldable pub on_conn : Inner × Result Error ℕ → Called
  on_conn (i, err e) = record { inner = i; sent = []; result = err e }
  on_conn (i, ok c) = sent_first i c (send c)

  unfoldable pub conn_of : Inner → Result Error (Option ℕ) → Inner × Result Error ℕ
  conn_of i (err e) = (i, err e)
  conn_of i (ok (some c)) = (i, ok c)
  conn_of i (ok none) = recovered start (others i) none

  unfoldable pub call : Losses → Inner → Called
  call lost i = on_conn (conn_of i (current lost i))

  -- A connection to send on: not known to have ended, or opened by the call's own attempt.
  abbrev pub Usable : Losses → ℕ → Type 0
  Usable lost c = (lost c ≡ none) ⊎ (start.outcome ≡ ok c) ⊎ (start.lost c ≡ none)

  -- What the sendings and the result have to do with each other.
  abbrev pub SentOnceOrTwice : Losses → List ℕ → Reply → Type 0
  SentOnceOrTwice lost [] r = (e : Error) × (r ≡ err e)
  SentOnceOrTwice lost (c ∷ []) r =
      Usable lost c
      × (((r ≡ send c) × (send c ≢ err Error.closed))
          ⊎ ((send c ≡ err Error.closed) × (e : Error) × (r ≡ err e)))
  SentOnceOrTwice lost (c ∷ d ∷ []) r =
      Usable lost c
      × (send c ≡ err Error.closed)
      × ((retry.outcome ≡ ok d) ⊎ ((retry.lost d ≡ none) × (c ≢ d)))
      × (r ≡ again d)
  SentOnceOrTwice lost (c ∷ d ∷ b ∷ more) r = ⊥

  abbrev Fits : Losses → Called → Type 0
  Fits lost k = SentOnceOrTwice lost k.sent k.result

  -- What is known of the connection that the call begins with.
  abbrev Begins : Losses → Inner × Result Error ℕ → Type 0
  Begins lost (i, err e) = Unit {0}
  Begins lost (i, ok c) = Usable lost c
