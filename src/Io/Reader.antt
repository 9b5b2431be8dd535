-- ===== src/Io/Reader.antt =====
-- `FrameReader` of crates/wire/src/io.rs: frames out of a stream that arrives in pieces.
-- `BytesMut` is the bytes crate's: its capacity is a number that `advance` lowers, and what a fresh
-- or a grown buffer gets is a parameter, `with_capacity` and `reserve`.
pub mod Stream
pub mod Chunks
pub mod Owned
pub mod Room
use oxicache.Common.{
  ℕ, ◌+◌, ◌-◌, ◌*◌, ◌/◌, ◌^◌, ◌≤◌, [], ◌∷◌, ◌++◌, Option, none, some, Bool, true, false, not,
}
use oxicache.Common.{
  ◌&&◌, if◌then◌else◌, ltb, leb, min, max, length, take, drop, get_or, Bytes, Result, ok, err,
}
use oxicache.Wire.{header_len, decode_header}

abbrev pub buf_size : ℕ
buf_size = 64 * 2 ^ 10

pub record FrameReader : Type 0 where
  pub buf : Bytes
  pub capacity : ℕ
  pub max_frame : ℕ
  pub need : ℕ
  pub lent : ℕ

unfoldable pub set_max_frame : FrameReader → ℕ → FrameReader
set_max_frame r n = record r { max_frame = n }

-- `self.buf.advance(n)`, for `n` at most the bytes that are there.
unfoldable pub advance : FrameReader → ℕ → FrameReader
advance r n = record r { buf = drop n r.buf; capacity = r.capacity - n }

unfoldable pub release : FrameReader → FrameReader
unfolding advance
release r = record (advance r r.lent) { lent = 0 }

-- The error is `FrameTooLarge` with the announced length.
unfoldable pub head : FrameReader → FrameReader × Result ℕ (Option ℕ)
head r =
    if ltb (length r.buf) header_len
    then (r, ok none)
    else let len = (decode_header (take header_len r.buf)).1 in
      if ltb r.max_frame len
      then (r, err len)
      else if ltb (length r.buf) (header_len + len)
      then (record r { need = header_len + len }, ok none)
      else (record r { need = 0 }, ok (some len))

unfoldable pub lend :
    FrameReader × Result ℕ (Option ℕ) → FrameReader × Result ℕ (Option (ℕ × Bytes))
lend (r, err e) = (r, err e)
lend (r, ok none) = (r, ok none)
lend (r, ok (some len)) = (
  record r { lent = header_len + len },
  ok (some (get_or r.buf 0 0, take len (drop header_len r.buf))),
)

unfoldable pub next_buffered : FrameReader → FrameReader × Result ℕ (Option (ℕ × Bytes))
next_buffered r = lend (head (release r))

unfoldable pub hand_over :
    FrameReader × Result ℕ (Option ℕ) → FrameReader × Result ℕ (Option (ℕ × Bytes))
unfolding advance
hand_over (r, err e) = (r, err e)
hand_over (r, ok none) = (r, ok none)
hand_over (r, ok (some len)) =
    let r' = advance r header_len in (advance r' len, ok (some (get_or r.buf 0 0, take len r'.buf)))

unfoldable pub next_buffered_owned : FrameReader → FrameReader × Result ℕ (Option (ℕ × Bytes))
next_buffered_owned r = hand_over (head (release r))

unfoldable pub pending_of : FrameReader → ℕ
pending_of r = r.need - length r.buf

-- `pending > 0 && self.buf.len() >= pending`
unfoldable pub half_arrived : FrameReader → Bool
unfolding pending_of
half_arrived r = ltb 0 (pending_of r) && leb (pending_of r) (length r.buf)

unfoldable pub want_of : FrameReader → ℕ
unfolding pending_of half_arrived
want_of r =
    if half_arrived r
    then pending_of r
    else max (min (pending_of r) (max r.capacity buf_size)) (buf_size / 4)

-- The argument of `reserve`, if it is called.
unfoldable pub request_of : FrameReader → Option ℕ
unfolding want_of half_arrived
request_of r =
    if ltb (r.capacity - length r.buf) (want_of r)
    then some (if half_arrived r then want_of r else max (want_of r) buf_size)
    else none

-- What the allocator makes of a request: `with_capacity n` is the capacity of a fresh buffer, and
-- `reserve len cap n` that of a buffer of `len` bytes and capacity `cap` after `reserve(n)`.
pub record Allocator : Type 0 where
  pub with_capacity : ℕ → ℕ
  pub reserve : ℕ → ℕ → ℕ → ℕ
  pub with_capacity_enough : (n : ℕ) → n ≤ with_capacity n
  pub reserve_enough : (len cap n : ℕ) → len + n ≤ reserve len cap n

unfoldable pub is_nil : Bytes → Bool
is_nil [] = true
is_nil (b ∷ bs) = false

module _ (a : Allocator) where
  unfoldable pub new : ℕ → FrameReader
  new max_frame = record {
    buf = [];
    capacity = a.with_capacity buf_size;
    max_frame = max_frame;
    need = 0;
    lent = 0;
  }

  -- A large empty buffer is replaced by a small one.
  unfoldable pub shrink : FrameReader → FrameReader
  unfolding is_nil
  shrink r =
      if is_nil r.buf && ltb (4 * buf_size) r.capacity
      then record r { buf = []; capacity = a.with_capacity buf_size }
      else r

  unfoldable pub grow : FrameReader → FrameReader
  unfolding request_of
  grow r = elim (request_of r) [
    | none ↦ r
    | some n ↦ record r { capacity = a.reserve (length r.buf) r.capacity n }
  ]

  -- `fill` up to the read.
  unfoldable pub make_room : FrameReader → FrameReader
  make_room r = grow (shrink (release r))

  -- The read yields `chunk`, which is empty at the end of the stream, or fails (`none`).
  unfoldable pub fill : FrameReader → Option Bytes → FrameReader × Option Bool
  unfolding is_nil
  fill r none = (make_room r, none)
  fill r (some chunk) =
      let r' = make_room r in (record r' { buf = r'.buf ++ chunk }, some (not (is_nil chunk)))
