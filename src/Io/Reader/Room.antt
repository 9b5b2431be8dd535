-- ===== src/Io/Reader/Room.antt =====
-- How far the read buffer grows.
use oxicache.Common.{ℕ, ◌≤◌, ◌<◌, ◌≡◌, max, inl, inr, none, some, Option-cases, arith, length}
use oxicache.Io.Reader.{
  FrameReader, buf_size, want_of, request_of, Allocator, release, shrink, grow, make_room,
}

want_pos : (r : FrameReader) → 0 < want_of r
unfolding want_of
want_pos r = ground arith

-- What is asked of the allocator is bounded by what the peer has sent and by the buffer that is
-- there, never by the length that a frame announces.
pub request-le :
    (r : FrameReader) (n : ℕ)
    → request_of r ≡ some n
    → n ≤ max (length r.buf) (max r.capacity buf_size)
unfolding request_of
request-le r n e = ground arith

request_of-none : (r : FrameReader) → request_of r ≡ none → length r.buf < r.capacity
unfolding request_of
request_of-none r e = ground (arith, want_pos r)

request_of-pos : (r : FrameReader) (n : ℕ) → request_of r ≡ some n → 0 < n
unfolding request_of
request_of-pos r n e = ground (arith, want_pos r)

-- A read always has room for a byte, so that an empty one means the end of the stream.
pub make_room_space :
    (a : Allocator) (r : FrameReader) → length (make_room a r).buf < (make_room a r).capacity
unfolding make_room grow
make_room_space a r = grown (shrink a (release r))
  where
    grown : (s : FrameReader) → length (grow a s).buf < (grow a s).capacity
    grown s = elim (Option-cases (request_of s)) [
      | inl e ↦ rw (e, grow) (request_of-none s e)
      | inr (n, e) ↦
          rw (e, grow)
            (omega (arith, a.reserve_enough (length s.buf) s.capacity n, request_of-pos s n e))
    ]
