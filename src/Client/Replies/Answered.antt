-- ===== src/Client/Replies/Answered.antt =====
-- `read_loop` of crates/client-rs/src/lib.rs: the replies, each handed to the caller it is for.
use oxicache.Common.{ℕ, ◌≡◌, List, [], ◌∷◌, ◌++◌}
use oxicache.Common.{none, some, false, Bytes}
use oxicache.Io.Reader.{is_nil}
use oxicache.Client.Replies.Handed.{Handed}
use oxicache.Client.Replies.{Reading, Event}

-- What the stream brings.
abbrev pub arrived_in : List Event → Bytes
arrived_in [] = []
arrived_in (Event.queued c ∷ events) = arrived_in events
arrived_in (Event.arrived none ∷ events) = arrived_in events
arrived_in (Event.arrived (some chunk) ∷ events) = chunk ++ arrived_in events

-- No read fails, and none finds the end of the stream.
abbrev pub Open : List Event → Type 0
Open [] = Unit {0}
Open (Event.queued c ∷ events) = Open events
Open (Event.arrived none ∷ events) = ⊥
Open (Event.arrived (some chunk) ∷ events) = (is_nil chunk ≡ false) × Open events

-- No frame is left.
abbrev pub NoneLeft : Reading → List (ℕ × Bytes) → Type 0
NoneLeft t left = left ≡ []
