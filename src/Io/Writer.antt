-- ===== src/Io/Writer.antt =====
-- `FrameWriter` of crates/wire/src/io.rs: small frames gathered in one buffer, large bodies queued
-- by reference. Allocation sizes are left out; a body by reference is its bytes.
pub mod Queue
pub mod Marks
pub mod Close
pub mod Flush
use oxicache.Common.{
  ℕ, suc, zero, ◌+◌, ◌-◌, ◌*◌, ◌%◌, ◌^◌, List, [], ◌∷◌, ◌++◌, Option, none, some, Bool, true, false,
  not,
}
use oxicache.Common.{
  ◌&&◌, if◌then◌else◌, ltb, leb, ◌==◌, length, take, drop, set, get_elem?, copy_at, Bytes, u32_mod,
  to_le_bytes,
}
use oxicache.Wire.{header_len, encode_header}
use oxicache.Io.Reader.{buf_size, is_nil}

abbrev pub inline_body : ℕ
inline_body = 1024

-- A spilled buffer can still be patched; a referenced body is shared.
pub data Piece : Type 0 where
  own shared : Bytes → Piece

abbrev pub piece_bytes : Piece → Bytes
piece_bytes (own b) = b
piece_bytes (shared b) = b

pub record FrameWriter : Type 0 where
  pub chunk : Bytes
  pub pieces : List Piece
  pub inline_limit : ℕ
  pub len : ℕ

pub record Mark : Type 0 where
  pub piece : ℕ
  pub offset : ℕ
  pub len : ℕ

unfoldable pub with_inline_limit : ℕ → FrameWriter
with_inline_limit limit = record { chunk = []; pieces = []; inline_limit = limit; len = 0 }

unfoldable pub new : FrameWriter
unfolding with_inline_limit
new = with_inline_limit inline_body

unfoldable pub spill : FrameWriter → FrameWriter
spill w = record w { pieces = w.pieces ++ (own w.chunk ∷ []); chunk = [] }

-- Make room for `n` bytes in the buffer.
unfoldable pub spill_for : FrameWriter → ℕ → FrameWriter
spill_for w n = if ltb buf_size (length w.chunk + n) && not (is_nil w.chunk) then spill w else w

unfoldable pub put_slice : FrameWriter → Bytes → FrameWriter
put_slice w b =
    let w' = spill_for w (length b) in record w' { chunk = w'.chunk ++ b; len = w'.len + length b }

unfoldable pub header : FrameWriter → ℕ → ℕ → FrameWriter
header w tag n = put_slice w (encode_header tag n)

-- A buffer that holds something becomes a piece.
unfoldable pub seal : FrameWriter → FrameWriter
seal w = if is_nil w.chunk then w else spill w

unfoldable pub put_bytes : FrameWriter → Bytes → FrameWriter
put_bytes w b =
    if ltb (length b) w.inline_limit
    then put_slice w b
    else let w' = seal w in
      record w' { pieces = w'.pieces ++ (shared b ∷ []); len = w'.len + length b }

unfoldable pub frame : FrameWriter → ℕ → Bytes → FrameWriter
frame w tag body = put_bytes (header w tag (length body)) body

unfoldable pub begin : FrameWriter → ℕ → Mark × FrameWriter
begin w tag =
    let w' = spill_for w header_len in
    (record { piece = length w'.pieces; offset = length w'.chunk; len = w'.len }, header w' tag 0)

unfoldable pub since : FrameWriter → Mark → ℕ
since w m = w.len - m.len - header_len

-- `none` is the `unreachable!`: no piece there, or a shared one.
unfoldable pub patch : Option Piece → ℕ → Bytes → Option Piece
patch (some (own b)) at len = some (own (copy_at b at len))
patch (some (shared b)) at len = none
patch none at len = none

unfoldable pub put_back : FrameWriter → ℕ → Option Piece → Option FrameWriter
put_back w i none = none
put_back w i (some p) = some (record w { pieces = set w.pieces i p })

unfoldable pub end : FrameWriter → Mark → Option FrameWriter
end w m =
    let len = to_le_bytes (since w m % u32_mod) in
    let at = m.offset + 1 in
    if m.piece == length w.pieces
    then some (record w { chunk = copy_at w.chunk at len })
    else put_back w m.piece (patch (get_elem? w.pieces m.piece) at len)

unfoldable pub restore : FrameWriter → Mark → Option Piece → Option FrameWriter
restore w m (some (own b)) =
    some (record w { pieces = take m.piece w.pieces; chunk = take m.offset b; len = m.len })
restore w m (some (shared b)) = none
restore w m none = none

unfoldable pub abort : FrameWriter → Mark → Option FrameWriter
abort w m =
    if ltb m.piece (length w.pieces)
    then restore w m (get_elem? w.pieces m.piece)
    else some (record w { chunk = take m.offset w.chunk; len = m.len })

unfoldable pub is_empty : FrameWriter → Bool
is_empty w = w.len == 0

abbrev pub flat : List Piece → Bytes
flat [] = []
flat (p ∷ ps) = piece_bytes p ++ flat ps

-- Drain the queue as one buffer.
unfoldable pub take_all : FrameWriter → Bytes × FrameWriter
take_all w = (flat w.pieces ++ w.chunk, record w { pieces = []; chunk = []; len = 0 })

unfoldable pub one_buffer : List Piece → Bytes → Bytes
one_buffer [] chunk = chunk
one_buffer (p ∷ []) [] = piece_bytes p
one_buffer ps chunk = flat ps ++ chunk

unfoldable pub take_bytes : FrameWriter → Bytes × FrameWriter
unfolding one_buffer
take_bytes w = (one_buffer w.pieces w.chunk, record w { pieces = []; chunk = []; len = 0 })

-- How a flush ends. `stuck` is no result of the source: the fuel ran out.
pub data FlushEnd : Type 0 where
  flushed write_zero io_error stuck : FlushEnd

abbrev pub max_iov : ℕ
max_iov = 64

-- What one vectored write offers: the next pieces, the first of them from `off` on.
unfoldable pub offered : List Piece → ℕ → Bytes
offered ps off = drop off (flat (take max_iov ps))

-- The inner loop: step over what was written.
unfoldable pub step_over : List Piece → ℕ → ℕ → List Piece × ℕ
step_over ps off zero = (ps, off)
step_over [] off (suc n) = ([], off)
step_over (p ∷ ps) off (suc n) =
    let remaining = length (piece_bytes p) - off in
    let rest = step_over ps 0 (suc n - remaining) in
    if leb remaining (suc n) then rest else (p ∷ ps, off + suc n)

-- `answer i b` is what the `i`-th vectored write of the bytes `b` returns; `none` is an I/O error.
-- The result has the bytes that went out.
unfoldable pub flush_loop :
    ℕ → (ℕ → Bytes → Option ℕ) → ℕ → List Piece → ℕ → Bytes → Bytes × FlushEnd
flush_loop fuel answer i [] off sent = (sent, FlushEnd.flushed)
flush_loop zero answer i (p ∷ ps) off sent = (sent, FlushEnd.stuck)
flush_loop (suc fuel) answer i (p ∷ ps) off sent = elim (answer i (offered (p ∷ ps) off)) [
  | none ↦ (sent, FlushEnd.io_error)
  | some zero ↦ (sent, FlushEnd.write_zero)
  | some (suc n) ↦
      let (ps', off') = step_over (p ∷ ps) off (suc n) in
      flush_loop fuel answer (suc i) ps' off' (sent ++ take (suc n) (offered (p ∷ ps) off))
]

-- A flush that fails leaves the queue as it was; the connection is over then.
unfoldable pub flushed_writer : FrameWriter → FlushEnd → FrameWriter
flushed_writer w FlushEnd.flushed = record w { pieces = []; len = 0 }
flushed_writer w _ = w

-- Each write takes a byte at least, so the length of the queue is fuel enough.
unfoldable pub flush : FrameWriter → (ℕ → Bytes → Option ℕ) → FrameWriter × Bytes × FlushEnd
unfolding flushed_writer
flush w answer =
    let w' = seal w in
    let (sent, end) = flush_loop (suc (length (flat w'.pieces))) answer 0 w'.pieces 0 [] in
    (flushed_writer w' end, sent, end)
