-- ===== src/Io/Writer/Queue.antt =====
-- What the writer has queued, as one sequence of bytes.
use oxicache.Common.{
  ℕ, ◌+◌, ◌≤◌, ◌<◌, ◌≡◌, refl, sym, ap, ◌∙◌, inl, inr, List, [], ◌∷◌, ◌++◌, arith,
}
use oxicache.Common.{
  true, false, Bool-cases, append_assoc, append-nil, length, All, Bytes, length-append,
}
use oxicache.Common.{ltb, ltb→le, ◌&&◌, not, Bool, All-append}
use oxicache.Wire.Items.{encode_item}
use oxicache.Wire.{encode_header}
use oxicache.Io.Reader.{is_nil, buf_size}
use oxicache.Io.Writer.{
  Piece, own, shared, piece_bytes, FrameWriter, spill, spill_for, seal, put_slice, header,
  put_bytes, frame, flat, take_all, take_bytes, one_buffer,
}

abbrev pub queued : FrameWriter → Bytes
queued w = flat w.pieces ++ w.chunk

-- The count is right, and no piece is empty.
pub record IsQueue (w : FrameWriter) : Type 0 where
  pub counted : w.len ≡ length (queued w)
  pub full : All (λ p. 0 < length (piece_bytes p)) w.pieces
  pub limited : 0 < w.inline_limit

pub flat-append : (ps qs : List Piece) → flat (ps ++ qs) ≡ flat ps ++ flat qs
flat-append [] qs = refl
flat-append (p ∷ ps) qs =
    ap (◌++◌ (piece_bytes p)) (flat-append ps qs)
    ∙ sym (append_assoc (piece_bytes p) (flat ps) (flat qs))

pub queued-spill : (w : FrameWriter) → queued (spill w) ≡ queued w
unfolding spill
queued-spill w =
    append-nil _
    ∙ flat-append w.pieces (own w.chunk ∷ [])
    ∙ ap (◌++◌ (flat w.pieces)) (append-nil w.chunk)

pub queued-spill_for : (w : FrameWriter) (n : ℕ) → queued (spill_for w n) ≡ queued w
unfolding spill_for
queued-spill_for w n =
    elim (Bool-cases (ltb buf_size (length w.chunk + n) && not (is_nil w.chunk))) [
      | inl e ↦ rw e (queued-spill w)
      | inr e ↦ rw e
    ]

pub queued-put_slice : (w : FrameWriter) (b : Bytes) → queued (put_slice w b) ≡ queued w ++ b
unfolding put_slice
queued-put_slice w b =
    let w' = spill_for w (length b) in
    sym (append_assoc (flat w'.pieces) w'.chunk b)
    ∙ ap (λ z. z ++ b) (queued-spill_for w (length b))

pub is_nil→eq : (b : Bytes) → is_nil b ≡ true → b ≡ []
unfolding is_nil
is_nil→eq [] e = refl
is_nil→eq (x ∷ xs) e = absurd (cc)

is_nil→pos : (b : Bytes) → is_nil b ≡ false → 0 < length b
unfolding is_nil
is_nil→pos [] e = absurd (cc)
is_nil→pos (x ∷ xs) e = omega arith

pub queued-seal : (w : FrameWriter) → queued (seal w) ≡ queued w
unfolding seal
queued-seal w = elim (Bool-cases (is_nil w.chunk)) [ inl e ↦ rw e | inr e ↦ rw e (queued-spill w) ]

pub chunk-seal : (w : FrameWriter) → (seal w).chunk ≡ []
unfolding seal spill
chunk-seal w = elim (Bool-cases (is_nil w.chunk)) [
  | inl e ↦ rw e (is_nil→eq w.chunk e)
  | inr e ↦ rw e
]

by_reference :
    (ps : List Piece) (c b : Bytes)
    → c ≡ []
    → flat (ps ++ (shared b ∷ [])) ++ c ≡ (flat ps ++ c) ++ b
by_reference ps c b e =
    rw (e, flat-append ps (shared b ∷ []), append-nil b, append-nil (flat ps)) (append-nil _)

-- Copied or queued by reference, a body is appended.
pub queued-put_bytes : (w : FrameWriter) (b : Bytes) → queued (put_bytes w b) ≡ queued w ++ b
unfolding put_bytes
queued-put_bytes w b = elim (Bool-cases (ltb (length b) w.inline_limit)) [
  | inl e ↦ rw e (queued-put_slice w b)
  | inr e ↦ rw e (
      by_reference (seal w).pieces (seal w).chunk b (chunk-seal w)
      ∙ ap (λ z. z ++ b) (queued-seal w))
]

pub queued-header :
    (w : FrameWriter) (tag n : ℕ) → queued (header w tag n) ≡ queued w ++ encode_header tag n
unfolding header
queued-header w tag n = queued-put_slice w (encode_header tag n)

-- A frame is queued whole and behind what was there, whichever way its body goes.
pub queued-frame :
    (w : FrameWriter) (tag : ℕ) (body : Bytes)
    → queued (frame w tag body) ≡ queued w ++ encode_item (tag, body)
unfolding frame encode_item
queued-frame w tag body =
    queued-put_bytes (header w tag (length body)) body
    ∙ ap (λ z. z ++ body) (queued-header w tag (length body))
    ∙ append_assoc (queued w) (encode_header tag (length body)) body

one_buffer-flat : (ps : List Piece) (c : Bytes) → one_buffer ps c ≡ flat ps ++ c
unfolding one_buffer
one_buffer-flat [] c = refl
one_buffer-flat (p ∷ []) [] = sym (append-nil _ ∙ append-nil _)
one_buffer-flat (p ∷ []) (x ∷ c) = refl
one_buffer-flat (p ∷ q ∷ ps) [] = refl
one_buffer-flat (p ∷ q ∷ ps) (x ∷ c) = refl

-- Both ways to drain the writer give what was queued and leave it empty.
pub take_bytes-eq-take_all : (w : FrameWriter) → take_bytes w ≡ take_all w
unfolding take_bytes take_all
take_bytes-eq-take_all w = rw (one_buffer-flat w.pieces w.chunk)

spill-IsQueue : (w : FrameWriter) → is_nil w.chunk ≡ false → IsQueue w → IsQueue (spill w)
unfolding spill
spill-IsQueue w e q = record {
  counted = q.counted ∙ ap length (sym (unfold spill in queued-spill w));
  full =
      All-append (λ p. 0 < length (piece_bytes p)) w.pieces (own w.chunk ∷ []) q.full
        (is_nil→pos w.chunk e, tt);
  limited = q.limited;
}

not_nil : (b : Bool) (c : Bytes) → (b && not (is_nil c)) ≡ true → is_nil c ≡ false
not_nil b c e = ground arith

pub spill_for-IsQueue : (w : FrameWriter) (n : ℕ) → IsQueue w → IsQueue (spill_for w n)
unfolding spill_for
spill_for-IsQueue w n q =
    elim (Bool-cases (ltb buf_size (length w.chunk + n) && not (is_nil w.chunk))) [
      | inl e ↦ rw e (spill-IsQueue w (not_nil _ w.chunk e) q)
      | inr e ↦ rw e q
    ]

pub seal-IsQueue : (w : FrameWriter) → IsQueue w → IsQueue (seal w)
unfolding seal
seal-IsQueue w q = elim (Bool-cases (is_nil w.chunk)) [
  | inl e ↦ rw e q
  | inr e ↦ rw e (spill-IsQueue w e q)
]

pub put_slice-IsQueue : (w : FrameWriter) (b : Bytes) → IsQueue w → IsQueue (put_slice w b)
unfolding put_slice
put_slice-IsQueue w b q =
    let q' = spill_for-IsQueue w (length b) q in
    let w' = spill_for w (length b) in
    record {
      counted = omega (
        arith,
        q'.counted,
        length-append (flat w'.pieces) w'.chunk,
        length-append (flat w'.pieces) (w'.chunk ++ b),
        length-append w'.chunk b,
      );
      full = q'.full;
      limited = q'.limited;
    }

pub put_bytes-IsQueue : (w : FrameWriter) (b : Bytes) → IsQueue w → IsQueue (put_bytes w b)
unfolding put_bytes
put_bytes-IsQueue w b q = elim (Bool-cases (ltb (length b) w.inline_limit)) [
  | inl e ↦ rw e (put_slice-IsQueue w b q)
  | inr e ↦ rw e (referenced (ltb→le _ _ e))
]
  where
    q' : IsQueue (seal w)
    q' = seal-IsQueue w q

    referenced :
        w.inline_limit ≤ length b
        → IsQueue (record (seal w) {
          pieces = (seal w).pieces ++ (shared b ∷ []);
          len = (seal w).len + length b;
        })
    referenced h = record {
      counted = omega (
        arith,
        q'.counted,
        ap length (by_reference (seal w).pieces (seal w).chunk b (chunk-seal w)),
        length-append (flat (seal w).pieces ++ (seal w).chunk) b,
      );
      full =
          All-append (λ p. 0 < length (piece_bytes p)) (seal w).pieces (shared b ∷ []) q'.full
            (omega (arith, q.limited), tt);
      limited = q'.limited;
    }

pub frame-IsQueue :
    (w : FrameWriter) (tag : ℕ) (body : Bytes) → IsQueue w → IsQueue (frame w tag body)
unfolding frame header
frame-IsQueue w tag body q =
    put_bytes-IsQueue _ body (put_slice-IsQueue w (encode_header tag (length body)) q)
