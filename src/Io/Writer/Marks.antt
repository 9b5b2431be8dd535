-- ===== src/Io/Writer/Marks.antt =====
-- A frame begun before its length is known: patched by `end`, or taken back by `abort`, wherever
-- its header has gone in the meantime.
use oxicache.Common.{ℕ, ◌+◌, ◌≡◌, refl, sym, ap, ◌∙◌, inl, inr, List, [], ◌∷◌, ◌++◌, arith}
use oxicache.Common.{Bool-cases, append_assoc, append-nil, length, Bytes}
use oxicache.Common.{◌&&◌, not, ltb}
use oxicache.Wire.{encode_header}
use oxicache.Wire.Items.{length-item, length-encode_header}
use oxicache.Io.Reader.{buf_size, is_nil}
use mathlib.Core.Path.{ap₂}
use oxicache.Io.Writer.{
  Piece, own, shared, FrameWriter, Mark, spill, spill_for, seal, put_slice, put_bytes, header,
  begin, flat,
}
use oxicache.Io.Writer.Queue.{IsQueue, queued, flat-append, chunk-seal, spill_for-IsQueue}

-- The buffer `front ++ header ++ rest` that the mark points into, behind the pieces `before`.
abbrev pub buffer : Bytes → ℕ → Bytes → Bytes
buffer front tag rest = (front ++ encode_header tag 0) ++ rest

-- A frame with this tag is begun at the mark. Its header stands in the buffer, or in a piece that
-- has been spilled since; `body` is what was written after it.
pub data Open (m : Mark) (tag : ℕ) (before : List Piece) (front body : Bytes) (w : FrameWriter)
    : Type 0 where
  in_chunk :
      m.piece ≡ length before
      → m.offset ≡ length front
      → m.len ≡ length (flat before ++ front)
      → w.pieces ≡ before
      → w.chunk ≡ buffer front tag body
      → Open m tag before front body w
  in_piece :
      (rest : Bytes) (after : List Piece)
      → m.piece ≡ length before
      → m.offset ≡ length front
      → m.len ≡ length (flat before ++ front)
      → w.pieces ≡ before ++ (own (buffer front tag rest) ∷ after)
      → body ≡ rest ++ (flat after ++ w.chunk)
      → Open m tag before front body w

pub regroup : (xs ys zs ws : Bytes) → xs ++ ((ys ++ zs) ++ ws) ≡ ((xs ++ ys) ++ zs) ++ ws
regroup xs ys zs ws = simp append_assoc

-- Everything that is queued, seen from the mark.
pub Open-queued :
    {m : Mark} {tag : ℕ} {before : List Piece} {front body : Bytes} {w : FrameWriter}
    → Open m tag before front body w
    → queued w ≡ buffer (flat before ++ front) tag body
Open-queued {m} {tag} {before} {front} {body} {w} (in_chunk a b c p q) =
    rw (p, q) (regroup (flat before) front (encode_header tag 0) body)
Open-queued {m} {tag} {before} {front} {body} {w} (in_piece rest after a b c p q) =
    let buf : Bytes = buffer front tag rest in
    rw (p, q, flat-append before (own buf ∷ after))
      (append_assoc (flat before) (buf ++ flat after) w.chunk
        ∙ ap (◌++◌ (flat before)) (append_assoc buf (flat after) w.chunk)
        ∙ ap (◌++◌ (flat before))
            (append_assoc (front ++ encode_header tag 0) rest (flat after ++ w.chunk))
        ∙ regroup (flat before) front (encode_header tag 0) (rest ++ (flat after ++ w.chunk)))

spill-Open :
    {m : Mark} {tag : ℕ} {before : List Piece} {front body : Bytes} {w : FrameWriter}
    → Open m tag before front body w
    → Open m tag before front body (spill w)
unfolding spill
spill-Open {body = body} (in_chunk a b c p q) =
    in_piece body [] a b c (ap₂ (λ ps z. ps ++ (own z ∷ [])) p q) (sym (append-nil body))
spill-Open {before = before} {front} {body} {w} (in_piece rest after a b c p q) =
    in_piece rest (after ++ (own w.chunk ∷ [])) a b c
      (ap (λ ps. ps ++ (own w.chunk ∷ [])) p
        ∙ append_assoc before (own _ ∷ after) (own w.chunk ∷ []))
      (q
        ∙ ap (◌++◌ rest) (
            sym (
              append-nil _
              ∙ flat-append after (own w.chunk ∷ [])
              ∙ ap (◌++◌ (flat after)) (append-nil w.chunk))))

spill_for-Open :
    {m : Mark} {tag : ℕ} {before : List Piece} {front body : Bytes} {w : FrameWriter} (n : ℕ)
    → Open m tag before front body w
    → Open m tag before front body (spill_for w n)
unfolding spill_for
spill_for-Open {w = w} n o =
    elim (Bool-cases (ltb buf_size (length w.chunk + n) && not (is_nil w.chunk))) [
      | inl e ↦ rw e (spill-Open o)
      | inr e ↦ rw e o
    ]

-- Bytes that are copied behind the mark join the body.
copy-Open :
    {m : Mark} {tag : ℕ} {before : List Piece} {front body : Bytes} {w : FrameWriter} (b : Bytes)
    (n : ℕ)
    → Open m tag before front body w
    → Open m tag before front (body ++ b) (record w { chunk = w.chunk ++ b; len = n })
copy-Open {tag = tag} {front = front} {body} b n (in_chunk h i j p q) =
    in_chunk h i j p (ap (λ z. z ++ b) q ∙ append_assoc (front ++ encode_header tag 0) body b)
copy-Open {w = w} b n (in_piece rest after h i j p q) = in_piece rest after h i j p (
    ap (λ z. z ++ b) q
    ∙ append_assoc rest (flat after ++ w.chunk) b
    ∙ ap (◌++◌ rest) (append_assoc (flat after) w.chunk b))

pub put_slice-Open :
    {m : Mark} {tag : ℕ} {before : List Piece} {front body : Bytes} {w : FrameWriter} (b : Bytes)
    → Open m tag before front body w
    → Open m tag before front (body ++ b) (put_slice w b)
unfolding put_slice
put_slice-Open b o = copy-Open b _ (spill_for-Open (length b) o)

seal-Open :
    {m : Mark} {tag : ℕ} {before : List Piece} {front body : Bytes} {w : FrameWriter}
    → Open m tag before front body w
    → Open m tag before front body (seal w)
unfolding seal
seal-Open {w = w} o = elim (Bool-cases (is_nil w.chunk)) [
  | inl e ↦ rw e o
  | inr e ↦ rw e (spill-Open o)
]

-- A buffer that holds the header is not empty, so after `seal` the header stands in a piece.
share-Open :
    {m : Mark} {tag : ℕ} {before : List Piece} {front body : Bytes} {w : FrameWriter} (b : Bytes)
    (n : ℕ)
    → w.chunk ≡ []
    → Open m tag before front body w
    → Open m tag before front
        (body ++ b)
        (record w { pieces = w.pieces ++ (shared b ∷ []); len = n })
share-Open {tag = tag} {front = front} {body} b n e (in_chunk h i j p q) =
    absurd (omega (arith, ap length (sym q ∙ e), length-item front body tag 0))
share-Open {before = before} {w = w} b n e (in_piece rest after h i j p q) =
    in_piece rest (after ++ (shared b ∷ [])) h i j
      (ap (λ ps. ps ++ (shared b ∷ [])) p ∙ append_assoc before (own _ ∷ after) (shared b ∷ []))
      (ap (λ z. z ++ b) q
        ∙ append_assoc rest (flat after ++ w.chunk) b
        ∙ ap (◌++◌ rest) shared_last)
  where
    shared_last : (flat after ++ w.chunk) ++ b ≡ flat (after ++ (shared b ∷ [])) ++ w.chunk
    shared_last =
        rw (e, append-nil (flat after), flat-append after (shared b ∷ []), append-nil b)
          (sym (append-nil _))

pub put_bytes-Open :
    {m : Mark} {tag : ℕ} {before : List Piece} {front body : Bytes} {w : FrameWriter} (b : Bytes)
    → Open m tag before front body w
    → Open m tag before front (body ++ b) (put_bytes w b)
unfolding put_bytes
put_bytes-Open {w = w} b o = elim (Bool-cases (ltb (length b) w.inline_limit)) [
  | inl e ↦ rw e (put_slice-Open b o)
  | inr e ↦ rw e (share-Open b _ (chunk-seal w) (seal-Open o))
]

-- Room that was made is still there.
spill_for_twice : (w : FrameWriter) (n : ℕ) → spill_for (spill_for w n) n ≡ spill_for w n
unfolding spill_for spill
spill_for_twice w n =
    elim (Bool-cases (ltb buf_size (length w.chunk + n) && not (is_nil w.chunk))) [
      | inl e ↦ rw e (unfold is_nil in ground arith)
      | inr e ↦ rw e (rw e)
    ]

pub begin-Open :
    (w : FrameWriter) (tag : ℕ)
    → IsQueue w
    → Open ((begin w tag).0) tag (spill_for w 5).pieces (spill_for w 5).chunk [] ((begin w tag).1)
unfolding begin header put_slice
begin-Open w tag q =
    let w' = spill_for w 5 in
    let kept : spill_for w' (length (encode_header tag 0)) ≡ w' =
      ap (spill_for w') (length-encode_header tag 0) ∙ spill_for_twice w 5 in
    in_chunk refl refl (spill_for-IsQueue w 5 q).counted (ap (λ v. v.pieces) kept)
      (ap (λ v. v.chunk ++ encode_header tag 0) kept ∙ sym (append-nil _))
