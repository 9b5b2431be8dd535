-- ===== src/Client/Replies.antt =====
-- `read_loop` of crates/client-rs/src/lib.rs: replies handed to the callers that wait. A caller is a
-- number; the writer queues it before its request is sent. The stream and the queue are events.
pub mod InOrder
pub mod Handed
pub mod Answered
mod Tests
use oxicache.Common.{ℕ, zero, suc, List, [], ◌∷◌, ◌++◌, Option, none, some}
use oxicache.Common.{Bool, true, false, length, Bytes, Result, ok, err}
use oxicache.Wire.{Status, status_from_u8}
use oxicache.Io.Reader.{Allocator, FrameReader, next_buffered_owned, fill}
use oxicache.Client.Cluster.{Error}
use oxicache.Client.Link.{Fatal, Lost}

abbrev pub Response : Type 0
Response = Result Error (Status × Bytes)

pub record Reading : Type 0 where
  pub reader : FrameReader
  pub pending : List ℕ
  pub answers : List (ℕ × Response)

unfoldable pub response_of : ℕ → Bytes → Option Status → Response
response_of byte body (some Status.ok) = ok (Status.ok, body)
response_of byte body (some Status.not_found) = ok (Status.not_found, body)
response_of byte body (some s) = err (Error.refused s)
response_of byte body none = err (Error.invalid_status byte)

unfoldable pub fatal_in : Response → Option Lost
fatal_in (err (Error.invalid_status b)) = some (Lost.fatal (Fatal.invalid_status b))
fatal_in _ = none

unfoldable pub stop_or :
    (Reading → Reading × Option Lost) → Reading → Option Lost → Reading × Option Lost
stop_or more s (some why) = (s, some why)
stop_or more s none = more s

-- A reply, to the oldest caller that waits.
unfoldable pub hand :
    (Reading → Reading × Option Lost) → Reading → Response → List ℕ → Reading × Option Lost
hand more s res [] = (s, some (Lost.fatal Fatal.desync))
hand more s res (caller ∷ callers) =
    stop_or more (record s { pending = callers; answers = s.answers ++ ((caller, res) ∷ []) })
      (fatal_in res)

unfoldable pub oversized : Reading → ℕ → List ℕ → Reading × Option Lost
oversized s n [] = (s, some Lost.transient)
oversized s n (caller ∷ callers) = (
  record s {
    pending = callers;
    answers = s.answers ++ ((caller, err (Error.response_too_large n)) ∷ []);
  },
  some Lost.transient,
)

unfoldable pub read_frame :
    (Reading → Reading × Option Lost)
    → Reading
    → FrameReader × Result ℕ (Option (ℕ × Bytes))
    → Reading × Option Lost
read_frame more s (r, ok none) = (record s { reader = r }, none)
read_frame more s (r, ok (some (byte, body))) =
    hand more (record s { reader = r }) (response_of byte body (status_from_u8 byte)) s.pending
read_frame more s (r, err n) = oversized (record s { reader = r }) n s.pending

-- The frames of one burst. The fuel is the length of the buffer, and a frame takes five bytes.
unfoldable pub read_burst : ℕ → Reading → Reading × Option Lost
read_burst zero s = (s, none)
read_burst (suc fuel) s = read_frame (read_burst fuel) s (next_buffered_owned s.reader)

pub data Event : Type 0 where
  queued : ℕ → Event
  arrived : Option Bytes → Event

unfoldable pub go_on :
    (Reading → Reading × Option Lost) → Reading × Option Lost → Reading × Option Lost
go_on more (s, some why) = (s, some why)
go_on more (s, none) = more s

unfoldable pub after_fill :
    (Reading → Reading × Option Lost) → Reading → FrameReader × Option Bool → Reading × Option Lost
after_fill more s (r, some true) =
    go_on more (read_burst (suc (length r.buf)) (record s { reader = r }))
after_fill more s (r, _) = (record s { reader = r }, some Lost.transient)

-- `none` while the loop goes on.
unfoldable pub read_loop : Allocator → Reading → List Event → Reading × Option Lost
read_loop a s [] = (s, none)
read_loop a s (Event.queued caller ∷ events) =
    read_loop a (record s { pending = s.pending ++ (caller ∷ []) }) events
read_loop a s (Event.arrived chunk ∷ events) =
    after_fill (λ t. read_loop a t events) s (fill a s.reader chunk)
