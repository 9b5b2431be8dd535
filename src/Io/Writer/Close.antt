-- ===== src/Io/Writer/Close.antt =====
-- `begin`, any writes, and then `end` or `abort`.
use oxicache.Common.{ℕ, ◌≡◌, refl, sym, ap, ◌∙◌, List, [], ◌∷◌, ◌++◌, arith}
use oxicache.Common.{true, false, some, append_assoc, append-nil, length, Bytes, length-append}
use oxicache.Common.{
  ltb, ◌==◌, lt→ltb, le→ltb, lt→==, ==_iff, take-append_eq, get_elem?-append, set-append,
}
use oxicache.Wire.{encode_header}
use oxicache.Wire.Items.{encode_item, copy_at-header, length-item}
use oxicache.Io.Writer.{
  Piece, own, FrameWriter, Mark, put_slice, put_bytes, put_back, header, begin, since, patch, end,
  restore, abort, flat,
}
use oxicache.Io.Writer.Queue.{
  IsQueue, queued, flat-append, queued-spill_for, put_slice-IsQueue, put_bytes-IsQueue,
  spill_for-IsQueue,
}
use oxicache.Io.Writer.Marks.{
  regroup, Open, in_chunk, in_piece, buffer, Open-queued, put_slice-Open, put_bytes-Open,
  begin-Open,
}

module _ {m : Mark} {tag : ℕ} {before : List Piece} {front body : Bytes} {w : FrameWriter} where
  -- `since` is the length of the body.
  pub Open-since : IsQueue w → Open m tag before front body w → since w m ≡ length body
  unfolding since
  Open-since q o = omega (
    arith,
    q.counted,
    ap length (Open-queued o),
    length-item (flat before ++ front) body tag 0,
    mark_len o,
  )
    where
      mark_len : Open m tag before front body w → m.len ≡ length (flat before ++ front)
      mark_len (in_chunk a b c p q) = c
      mark_len (in_piece rest after a b c p q) = c

  -- `end` writes the length of what was written into the header, wherever it stands.
  pub Open-end :
      IsQueue w
      → Open m tag before front body w
      → (w' : FrameWriter) × (end w m ≡ some w')
        × (queued w' ≡ (flat before ++ front) ++ encode_item (tag, body))
  unfolding end encode_item
  Open-end q (in_chunk a b c p r) =
      let closed : Bytes = (front ++ encode_header tag (length body)) ++ body in
      let here : (m.piece == length w.pieces) ≡ true = (==_iff _ _).1 (a ∙ sym (ap length p)) in
      let size = Open-since q (in_chunk a b c p r) in
      (
        record w { chunk = closed },
        rw (here, size, r, b, copy_at-header front body tag (length body)),
        rw p (
            regroup (flat before) front (encode_header tag (length body)) body
            ∙ append_assoc (flat before ++ front) (encode_header tag (length body)) body),
      )
  Open-end q (in_piece rest after a b c p r) =
      let n : ℕ = length body in
      let old : Bytes = buffer front tag rest in
      let closed : Bytes = (front ++ encode_header tag n) ++ rest in
      let there : (m.piece == length w.pieces) ≡ false =
        lt→== _ _ (omega (arith, a, ap length p, length-append before (own old ∷ after))) in
      let size = Open-since q (in_piece rest after a b c p r) in
      (
        record w { pieces = before ++ (own closed ∷ after) },
        rw (there, size, p, get_elem?-append m.piece before after (own old) a)
            (unfold patch put_back in
              rw (
                b,
                copy_at-header front rest tag n,
                set-append m.piece before after (own old) (own closed) a,
              )),
        rw (flat-append before (own closed ∷ after), r) (simp append_assoc),
      )

  -- `abort` leaves the writer as it was at the mark.
  pub Open-abort :
      Open m tag before front body w
      → abort w m
        ≡ some (record w { pieces = before; chunk = front; len = length (flat before ++ front) })
  unfolding abort
  Open-abort (in_chunk a b c p r) =
      let here = le→ltb m.piece (length w.pieces) (omega (arith, a, ap length p)) in
      rw (
        here,
        p,
        r,
        c,
        append_assoc front (encode_header tag 0) body,
        take-append_eq m.offset front (encode_header tag 0 ++ body) b,
      )
  Open-abort (in_piece rest after a b c p r) =
      let old : Bytes = buffer front tag rest in
      let there : ltb m.piece (length w.pieces) ≡ true =
        lt→ltb _ _ (omega (arith, a, ap length p, length-append before (own old ∷ after))) in
      rw (there, p, get_elem?-append m.piece before after (own old) a)
        (unfold restore in
          rw (
            c,
            take-append_eq m.piece before (own old ∷ after) a,
            append_assoc front (encode_header tag 0) rest,
            take-append_eq m.offset front (encode_header tag 0 ++ rest) b,
          ))

-- What a server writes between `begin` and the end of the frame.
pub data Write : Type 0 where
  copied referenced : Bytes → Write

unfoldable pub write : FrameWriter → Write → FrameWriter
write w (copied b) = put_slice w b
write w (referenced b) = put_bytes w b

unfoldable pub write_all : FrameWriter → List Write → FrameWriter
unfolding write
write_all w [] = w
write_all w (x ∷ xs) = write_all (write w x) xs

abbrev pub written : List Write → Bytes
written [] = []
written (copied b ∷ xs) = b ++ written xs
written (referenced b ∷ xs) = b ++ written xs

write_all-Open :
    {m : Mark} {tag : ℕ} {before : List Piece} {front : Bytes} (xs : List Write) (body : Bytes)
    (w : FrameWriter)
    → IsQueue w
    → Open m tag before front body w
    → IsQueue (write_all w xs) × Open m tag before front (body ++ written xs) (write_all w xs)
unfolding write_all
write_all-Open [] body w q o = (q, rw (append-nil body) o)
write_all-Open (copied b ∷ xs) body w q o =
    rw (← append_assoc body b (written xs))
      (write_all-Open xs (body ++ b) _ (put_slice-IsQueue w b q) (put_slice-Open b o))
write_all-Open (referenced b ∷ xs) body w q o =
    rw (← append_assoc body b (written xs))
      (write_all-Open xs (body ++ b) _ (put_bytes-IsQueue w b q) (put_bytes-Open b o))

begin-IsQueue : (w : FrameWriter) (tag : ℕ) → IsQueue w → IsQueue ((begin w tag).1)
unfolding begin header
begin-IsQueue w tag q = put_slice-IsQueue _ (encode_header tag 0) (spill_for-IsQueue w 5 q)

pub begin-since :
    (w : FrameWriter) (tag : ℕ) (xs : List Write)
    → IsQueue w
    → since (write_all ((begin w tag).1) xs) ((begin w tag).0) ≡ length (written xs)
begin-since w tag xs q =
    let (q', o) = write_all-Open xs [] _ (begin-IsQueue w tag q) (begin-Open w tag q) in
    Open-since q' o

-- A frame written between `begin` and `end` is queued behind what was there, with its own length
-- in its header, however the writes spilled and split the buffer meanwhile.
pub begin-end :
    (w : FrameWriter) (tag : ℕ) (xs : List Write)
    → IsQueue w
    → (w' : FrameWriter) × (end (write_all ((begin w tag).1) xs) ((begin w tag).0) ≡ some w')
      × (queued w' ≡ queued w ++ encode_item (tag, written xs))
begin-end w tag xs q =
    let (q', o) = write_all-Open xs [] _ (begin-IsQueue w tag q) (begin-Open w tag q) in
    let (w', ended, all) = Open-end q' o in
    (w', ended, all ∙ ap (λ z. z ++ encode_item (tag, written xs)) (queued-spill_for w 5))

-- A frame that is aborted leaves no trace: the queue holds what it held, and its count is right.
pub begin-abort :
    (w : FrameWriter) (tag : ℕ) (xs : List Write)
    → IsQueue w
    → (w' : FrameWriter) × (abort (write_all ((begin w tag).1) xs) ((begin w tag).0) ≡ some w')
      × (queued w' ≡ queued w)
      × (w'.len ≡ length (queued w'))
begin-abort w tag xs q =
    let (_, o) = write_all-Open xs [] _ (begin-IsQueue w tag q) (begin-Open w tag q) in
    (_, Open-abort o, queued-spill_for w 5, refl)
