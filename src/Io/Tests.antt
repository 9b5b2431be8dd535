-- ===== src/Io/Tests.antt =====
-- Runs of the frame reader and writer on small inputs.
use oxicache.Common.{
  ℕ, ◌+◌, ◌≤◌, ◌<◌, ◌≡◌, refl, List, [], ◌∷◌, ◌++◌, arith, Option, some, max, length, Bytes,
}
use oxicache.Wire.Items.{encode_item, encode_items}
use oxicache.Wire.{encode_header}
use oxicache.Io.Reader.{
  FrameReader, Allocator, new, buf_size, request_of, want_of, pending_of, half_arrived, make_room,
}
use oxicache.Io.Reader.Chunks.{run, run-new}
use oxicache.Io.Reader.Room.{request-le, make_room_space}
use oxicache.Io.Writer.{
  FrameWriter, begin, end, abort, frame, flush, FlushEnd, take_bytes, take_all,
}
use oxicache.Io.Writer.Queue.{queued, IsQueue, queued-frame, take_bytes-eq-take_all}
use oxicache.Io.Writer.Flush.{Takes, flush-sends}
use oxicache.Io.Writer.Close.{Write, copied, referenced, write_all, written, begin-end, begin-abort}

abbrev exact : Allocator
exact = record {
  with_capacity = λ n. n;
  reserve = λ len cap n. len + n;
  with_capacity_enough = λ n. omega arith;
  reserve_enough = λ len cap n. omega arith;
}

-- A ping of one byte, and all but the last of its bytes.
abbrev half_a_ping : FrameReader
half_a_ping = record {
  buf = 6 ∷ 1 ∷ 0 ∷ 0 ∷ 0 ∷ [];
  capacity = 8;
  max_frame = 100;
  need = 0;
  lent = 0;
}

abbrev a_queue : FrameWriter
a_queue = record { chunk = 0 ∷ 0 ∷ 0 ∷ 0 ∷ 0 ∷ []; pieces = []; inline_limit = 2; len = 5 }

a_queue-IsQueue : IsQueue a_queue
a_queue-IsQueue = record { counted = refl; full = tt; limited = omega arith }

abbrev writes : List Write
writes = copied (1 ∷ []) ∷ referenced (2 ∷ 3 ∷ 4 ∷ []) ∷ []

run-new_example :
    run exact (new exact 100) ((6 ∷ 1 ∷ 0 ∷ []) ∷ (0 ∷ 0 ∷ 9 ∷ []) ∷ []) ≡ (6, 9 ∷ []) ∷ []
unfolding encode_items encode_item encode_header
run-new_example =
    run-new exact 100 ((6 ∷ 1 ∷ 0 ∷ []) ∷ (0 ∷ 0 ∷ 9 ∷ []) ∷ []) ((6, 9 ∷ []) ∷ [])
      ((omega arith, omega arith), tt) refl

request-le_example : buf_size ≤ max 5 (max 8 buf_size)
unfolding request_of want_of pending_of half_arrived
request-le_example = request-le half_a_ping buf_size refl

make_room_space_example :
    length (make_room exact half_a_ping).buf < (make_room exact half_a_ping).capacity
make_room_space_example = make_room_space exact half_a_ping

queued-frame_example :
    queued (frame a_queue 0 (7 ∷ 8 ∷ 9 ∷ [])) ≡ queued a_queue ++ encode_item (0, 7 ∷ 8 ∷ 9 ∷ [])
queued-frame_example = queued-frame a_queue 0 (7 ∷ 8 ∷ 9 ∷ [])

take_bytes-eq-take_all_example : take_bytes a_queue ≡ take_all a_queue
take_bytes-eq-take_all_example = take_bytes-eq-take_all a_queue

begin-end_example :
    (w' : FrameWriter) × (end (write_all ((begin a_queue 0).1) writes) ((begin a_queue 0).0)
      ≡ some w')
    × (queued w' ≡ queued a_queue ++ encode_item (0, written writes))
begin-end_example = begin-end a_queue 0 writes a_queue-IsQueue

begin-abort_example :
    (w' : FrameWriter) × (abort (write_all ((begin a_queue 0).1) writes) ((begin a_queue 0).0)
      ≡ some w')
    × (queued w' ≡ queued a_queue)
    × (w'.len ≡ length (queued w'))
begin-abort_example = begin-abort a_queue 0 writes a_queue-IsQueue

-- A stream that takes one byte at a time.
abbrev one_byte : ℕ → Bytes → Option ℕ
one_byte i b = some 1

one_byte-Takes : Takes one_byte
one_byte-Takes i b h = (0, refl, h)

flush-sends_example :
    flush a_queue one_byte
    ≡ (record a_queue { chunk = []; pieces = []; len = 0 }, queued a_queue, FlushEnd.flushed)
flush-sends_example = flush-sends a_queue one_byte a_queue-IsQueue one_byte-Takes
