-- ===== src/Client/Outcome.antt =====
-- `Outcome`, `Reply` and `batch_body` of crates/client-rs/src/lib.rs: how the replies to a batch are
-- indexed and read. A value's decoding is serde's and a parameter.
pub mod Indexed
use oxicache.Common.{ℕ, zero, suc, ◌+◌, ◌-◌, ◌%◌, List, [], ◌∷◌, Option, none, some}
use oxicache.Common.{
  Bool, true, false, if◌then◌else◌, leb, ◌==◌, length, get_elem?, take, drop, Bytes, u32_mod,
  Result, ok, err,
}
use oxicache.Wire.{DecodeError, Status, status_from_u8}
use oxicache.Wire.Frames.{Frames, frames, next}
use oxicache.Client.Cluster.{Error, Place}

pub record Outcome : Type 0 where
  pub body : Bytes
  pub index : List Place

unfoldable pub status_in : Option Place → Option Status
status_in none = none
status_in (some (byte, start, len)) = status_from_u8 byte

unfoldable pub status : Outcome → ℕ → Option Status
status o i = status_in (get_elem? o.index i)

-- `Bytes::slice`; `none` is its panic.
unfoldable pub slice : Bytes → ℕ → ℕ → Option Bytes
slice b start len = if leb (start + len) (length b) then some (take len (drop start b)) else none

unfoldable pub sliced : ℕ → Option Bytes → Option (ℕ × Bytes)
sliced status none = none
sliced status (some b) = some (status, b)

-- The status and the body that a slot reads; `none` is the panic of an index out of bounds.
unfoldable pub answer_in : Bytes → Option Place → Option (ℕ × Bytes)
answer_in body none = none
answer_in body (some (status, start, len)) = sliced status (slice body start len)

unfoldable pub answer : Outcome → ℕ → Option (ℕ × Bytes)
answer o i = answer_in o.body (get_elem? o.index i)

-- What each kind of slot makes of its answer.
unfoldable pub reply_value {ℓ} :
    {V : Type ℓ} → (Bytes → Result Error V) → Status → Bytes → Result Error (Option V)
reply_value decode Status.ok body = elim (decode body) [ ok v ↦ ok (some v) | err e ↦ err e ]
reply_value decode Status.not_found body = ok none
reply_value decode other body = err (Error.refused other)

unfoldable pub reply_unit : Status → Bytes → Result Error (Unit {0})
reply_unit Status.ok body = ok tt
reply_unit other body = err (Error.refused other)

unfoldable pub reply_bool : Status → Bytes → Result Error Bool
reply_bool Status.ok body = ok true
reply_bool Status.not_found body = ok false
reply_bool other body = err (Error.refused other)

unfoldable pub known {ℓ} :
    {A : Type ℓ} → (Status → Bytes → Result Error A) → ℕ → Bytes → Option Status → Result Error A
known reply byte body none = err (Error.invalid_status byte)
known reply byte body (some s) = reply s body

-- `Outcome::get`: the status is looked at before the body is sliced.
unfoldable pub get_known {ℓ} :
    {A : Type ℓ}
    → (Status → Bytes → Result Error A)
    → ℕ
    → Option Bytes
    → Option Status
    → Option (Result Error A)
get_known reply byte b none = some (err (Error.invalid_status byte))
get_known reply byte none (some s) = none
get_known reply byte (some b) (some s) = some (reply s b)

unfoldable pub get_place {ℓ} :
    {A : Type ℓ}
    → (Status → Bytes → Result Error A)
    → Bytes
    → Option Place
    → Option (Result Error A)
get_place reply body none = none
get_place reply body (some (byte, start, len)) =
    get_known reply byte (slice body start len) (status_from_u8 byte)

unfoldable pub get {ℓ} :
    {A : Type ℓ} → (Status → Bytes → Result Error A) → Outcome → ℕ → Option (Result Error A)
get reply o i = get_place reply o.body (get_elem? o.index i)

-- The offset of an item in the body, as `b.as_ptr() - base`: what is left behind it is `f.rest`.
unfoldable pub indexed : ℕ → ℕ → Frames → List Place
indexed total zero f = []
indexed total (suc n) f = elim (next f) [
  | none ↦ []
  | some ((status, b), f') ↦
      (status, (total - length f'.rest - length b) % u32_mod, length b % u32_mod)
      ∷ indexed total n f'
]

unfoldable pub index_replies : Bytes → ℕ → Result DecodeError Frames → Result Error Outcome
index_replies body n (err e) = err (Error.decode e)
index_replies body n (ok f) =
    if f.left == n
    then ok (record { body = body; index = indexed (length body) f.left f })
    else err (Error.count n f.left)

-- `batch_body` on the outcome of its call.
unfoldable pub batch_body : Result Error Bytes → ℕ → Result Error Outcome
batch_body (err e) n = err e
batch_body (ok body) n = index_replies body n (frames body)
