-- ===== src/Client/Cluster/Batch.antt =====
-- `Cluster::batch` of crates/client-rs/src/cluster.rs: a batch split over the servers, and their
-- replies gathered in the order in which they land. What a server answers to a body is a parameter.
use oxicache.Common.{ℕ, zero, suc, ◌+◌, List, [], ◌∷◌, ◌++◌, Option, none, some}
use oxicache.Common.{
  Bool, true, false, if◌then◌else◌, ltb, ◌==◌, length, set, get_or, Bytes, Result, ok, err, ◌>>=◌,
}
use oxicache.Wire.{Op, op_from_u8, DecodeError, set_body, max_items}
use oxicache.Wire.Encoder.{BatchEncoder, new, push, finish}
use oxicache.Wire.Frames.{Frames, frames, collect}
use oxicache.Client.Health.{Failover}
use oxicache.Client.Ring.{Point}
use oxicache.Client.Cluster.{Error, Place, index, note, merge}
use oxicache.Client.Outcome.{Outcome, batch_body}

-- The key that an item is routed by.
unfoldable pub key_of : Option Op → Bytes → Result DecodeError Bytes
key_of (some Op.set) item = do (key, value) ← set_body item; ok key
key_of _ item = ok item

unfoldable pub route : (Bytes → ℕ) → List (ℕ × Bytes) → Result DecodeError (List ℕ)
route server [] = ok []
route server ((op, item) ∷ items) = do
  key ← key_of (op_from_u8 op) item
  rest ← route server items
  ok (server key ∷ rest)

-- Whether some item goes to another server than the first.
unfoldable pub split : ℕ → List ℕ → Bool
split first [] = false
split first (at ∷ tos) = let rest = split first tos in if first == at then rest else true

-- The share of one server: its body, and where its items came from.
pub record Group : Type 0 where
  pub enc : BatchEncoder
  pub items : List ℕ

unfoldable pub group : ℕ → ℕ → List (ℕ × Bytes) → List ℕ → Group → Group
group at i ((op, item) ∷ items) (to ∷ tos) g =
    let more : Group = record { enc = push g.enc op item; items = g.items ++ (i ∷ []) } in
    group at (i + 1) items tos (if to == at then more else g)
group at i [] tos g = g
group at i (item ∷ items) [] g = g

unfoldable pub group_of : List (ℕ × Bytes) → List ℕ → ℕ → Group
group_of items tos at = group at 0 items tos (record { enc = new; items = [] })

pub record Gathered : Type 0 where
  pub words : List ℕ
  pub merged : Bytes
  pub places : List Place
  pub failure : Option Error

-- What one server has answered, and when it landed.
pub record Landing : Type 0 where
  pub at : ℕ
  pub now : ℕ
  pub items : List ℕ
  pub result : Result Error Bytes

-- `get_or_insert`.
unfoldable pub first_failure : Option Error → Error → Option Error
first_failure none e = some e
first_failure (some d) e = some d

unfoldable pub merged_in :
    Gathered → List ℕ → Result Error Bytes → Result Error (Bytes × List Place)
merged_in g items (err e) = err e
merged_in g items (ok replies) = merge g.merged g.places items replies

unfoldable pub settle : Gathered → Result Error (Bytes × List Place) → Gathered
settle g (ok (m, p)) = record g { merged = m; places = p }
settle g (err e) = record g { failure = first_failure g.failure e }

unfoldable pub land : Option Failover → Gathered → Landing → Gathered
land failover g l =
    let word = note failover l.now (get_or g.words l.at 0) l.result in
    settle (record g { words = set g.words l.at word }) (merged_in g l.items l.result)

unfoldable pub gather : Option Failover → Gathered → List Landing → Gathered
gather failover g [] = g
gather failover g (l ∷ ls) = gather failover (land failover g l) ls

unfoldable pub gathered : Gathered → Option Error → Result Error Outcome
gathered g none = ok (record { body = g.merged; index = g.places })
gathered g (some e) = err e

unfoldable pub blank : ℕ → List Place
blank zero = []
blank (suc n) = (0, 0, 0) ∷ blank n

unfoldable pub landed :
    (ℕ → Bytes → Result Error Bytes)
    → (ℕ → ℕ)
    → ℕ
    → Group
    → Option Bytes
    → Option (List Landing)
    → Option (List Landing)
landed send clock at g none ls = none
landed send clock at g (some body) none = none
landed send clock at g (some body) (some ls) =
    some (record { at = at; now = clock at; items = g.items; result = send at body } ∷ ls)

-- `send` is the call of one server, `arrivals` the order in which the servers that are asked answer,
-- and `clock` when. `none` is the panic of an encoder that holds too many items.
module _ (send : ℕ → Bytes → Result Error Bytes) (failover : Option Failover) (clock : ℕ → ℕ) where
  unfoldable pub landings : List (ℕ × Bytes) → List ℕ → List ℕ → Option (List Landing)
  landings items tos [] = some []
  landings items tos (at ∷ arrivals) =
      let g = group_of items tos at in
      landed send clock at g (finish g.enc) (landings items tos arrivals)

  unfoldable pub gather_all :
      List ℕ → ℕ → Option (List Landing) → Option (List ℕ × Result Error Outcome)
  gather_all words n none = none
  gather_all words n (some ls) =
      let g =
        gather failover (record { words = words; merged = []; places = blank n; failure = none })
          ls in
      some (g.words, gathered g g.failure)

  unfoldable pub single : List ℕ → ℕ → ℕ → Bytes → List ℕ × Result Error Outcome
  single words n at body =
      let result = batch_body (send at body) n in
      (set words at (note failover (clock at) (get_or words at 0) result), result)

  unfoldable pub routed :
      List ℕ
      → List (ℕ × Bytes)
      → Bytes
      → List ℕ
      → Result DecodeError (List ℕ)
      → Option (List ℕ × Result Error Outcome)
  routed words items body arrivals (err e) = some (words, err (Error.decode e))
  routed words items body arrivals (ok []) = some (words, ok (record { body = []; index = [] }))
  routed words items body arrivals (ok (first ∷ tos)) =
      let whole = single words (length items) first body in
      let shares = gather_all words (length items) (landings items (first ∷ tos) arrivals) in
      if split first tos then shares else some whole

  unfoldable pub batch_frames :
      List ℕ
      → List Point
      → ℕ
      → Bytes
      → List ℕ
      → Result DecodeError Frames
      → Option (List ℕ × Result Error Outcome)
  batch_frames words points now body arrivals (err e) = some (words, err (Error.decode e))
  batch_frames words points now body arrivals (ok f) =
      routed words (collect f) body arrivals (route (λ key. index words points key now) (collect f))

  unfoldable pub batch_body_of :
      List ℕ → List Point → ℕ → List ℕ → Option Bytes → Option (List ℕ × Result Error Outcome)
  batch_body_of words points now arrivals none = none
  batch_body_of words points now arrivals (some body) =
      batch_frames words points now body arrivals (frames body)

  unfoldable pub batch :
      List ℕ → List Point → ℕ → List ℕ → BatchEncoder → Option (List ℕ × Result Error Outcome)
  batch words points now arrivals enc =
      if ltb max_items enc.count
      then some (words, err (Error.too_many_items enc.count))
      else batch_body_of words points now arrivals (finish enc)
