-- ===== src/Io/Reader/Stream.antt =====
-- Frames come out of the reader as they went into the stream, however the stream is cut.
use oxicache.Common.{ℕ, ◌+◌, ◌≤◌, ◌<◌, ◌≡◌, refl, sym, ap, ◌∙◌, inl, inr, [], ◌++◌}
use oxicache.Common.{arith, none, some, ok, err, Bool-cases, ltb, ltb→lt, ltb→le, lt→ltb, le→ltb}
use oxicache.Common.{
  append_assoc, append-nil, length, take, drop, get_or, Bytes, length-append, take-append_eq,
  drop-append_eq, take-append_le,
}
use oxicache.Wire.{encode_header, decode_header}
use oxicache.Wire.Items.{Fits, encode_item, length-encode_header, decode-encode_header}
use oxicache.Io.Reader.{FrameReader, release, head, lend, next_buffered}

-- The bytes that have arrived and are not handed out.
abbrev pub pending : FrameReader → Bytes
pending r = drop r.lent r.buf

pub get_or-encode_item :
    (tag : ℕ) (body rest : Bytes)
    → get_or ((encode_header tag (length body) ++ body) ++ rest) 0 0 ≡ tag
unfolding encode_header
get_or-encode_item tag body rest = refl

-- What `head` sees of a prefix that holds the whole header.
pub header_of_prefix :
    (tag : ℕ) (body tail p q : Bytes)
    → Fits (tag, body)
    → p ++ q ≡ (encode_header tag (length body) ++ body) ++ tail
    → 5 ≤ length p
    → (decode_header (take 5 p)).1 ≡ length body
header_of_prefix tag body tail p q fits e h =
    let header = encode_header tag (length body) in
    let same : take 5 p ≡ header =
      sym (take-append_le 5 p q h)
      ∙ ap (take 5) (e ∙ append_assoc header body tail)
      ∙ take-append_eq 5 header (body ++ tail) (sym (length-encode_header tag (length body))) in
    rw (same, decode-encode_header tag (length body) fits)

pub head_short : (r : FrameReader) → length r.buf < 5 → head r ≡ (r, ok none)
unfolding head
head_short r h = rw (lt→ltb (length r.buf) 5 h)

module _ (r : FrameReader) (len : ℕ) (enough : 5 ≤ length r.buf)
    (announced : (decode_header (take 5 r.buf)).1 ≡ len) where
  head_too_large : r.max_frame < len → head r ≡ (r, err len)
  unfolding head
  head_too_large h = rw (le→ltb (length r.buf) 5 enough, announced, lt→ltb r.max_frame len h)

  pub head_partial :
      len ≤ r.max_frame → length r.buf < 5 + len → head r ≡ (record r { need = 5 + len }, ok none)
  unfolding head
  head_partial small h = rw (
    le→ltb (length r.buf) 5 enough,
    announced,
    le→ltb r.max_frame len small,
    lt→ltb (length r.buf) (5 + len) h,
  )

  pub head_whole :
      len ≤ r.max_frame → 5 + len ≤ length r.buf → head r ≡ (record r { need = 0 }, ok (some len))
  unfolding head
  head_whole small h = rw (
    le→ltb (length r.buf) 5 enough,
    announced,
    le→ltb r.max_frame len small,
    le→ltb (length r.buf) (5 + len) h,
  )

pub length-framed :
    (tag : ℕ) (body rest : Bytes)
    → length ((encode_header tag (length body) ++ body) ++ rest) ≡ 5 + length body + length rest
length-framed tag body rest = omega (
  arith,
  length-append (encode_header tag (length body) ++ body) rest,
  length-append (encode_header tag (length body)) body,
  length-encode_header tag (length body),
)

-- A whole frame at the front of what has arrived is lent out.
pub next_buffered_complete :
    (r : FrameReader) (tag : ℕ) (body rest : Bytes)
    → Fits (tag, body)
    → length body ≤ r.max_frame
    → pending r ≡ encode_item (tag, body) ++ rest
    → next_buffered r
      ≡ (record (release r) { need = 0; lent = 5 + length body }, ok (some (tag, body)))
unfolding next_buffered release encode_item
next_buffered_complete r tag body rest fits small e =
    ap lend (
      head_whole (release r) (length body) (omega (arith, size))
        (header_of_prefix tag body rest (pending r) [] fits (append-nil (pending r) ∙ e)
          (omega (arith, size)))
        small (omega (arith, size)))
    ∙ unfold lend in rw (e, get_or-encode_item tag body rest, body_is)
  where
    size : length (pending r) ≡ 5 + length body + length rest
    size = ap length e ∙ length-framed tag body rest

    body_is : take (length body) (drop 5 ((encode_header tag (length body) ++ body) ++ rest)) ≡ body
    body_is =
        ap (λ z. take (length body) (drop 5 z))
          (append_assoc (encode_header tag (length body)) body rest)
        ∙ ap (take (length body)) (
            drop-append_eq 5 (encode_header tag (length body)) (body ++ rest)
              (sym (length-encode_header tag (length body))))
        ∙ take-append_eq (length body) body rest refl

pub next_buffered-short :
    (r : FrameReader) → length (pending r) < 5 → next_buffered r ≡ (release r, ok none)
unfolding next_buffered release
next_buffered-short r h = ap lend (head_short (release r) h) ∙ unfold lend in refl

pub next_buffered-partial :
    (r : FrameReader) (tag : ℕ) (body tail future : Bytes)
    → Fits (tag, body)
    → length body ≤ r.max_frame
    → pending r ++ future ≡ encode_item (tag, body) ++ tail
    → length (pending r) < 5 + length body
    → (need : ℕ) × (next_buffered r ≡ (record (release r) { need = need }, ok none))
unfolding next_buffered release encode_item
next_buffered-partial r tag body tail future fits small e short =
    elim (Bool-cases (ltb (length (pending r)) 5)) [
      | inl few ↦ (r.need, ap lend (head_short (release r) (ltb→lt _ _ few)) ∙ unfold lend in refl)
      | inr enough ↦
          let five = ltb→le _ _ enough in
          (
            5 + length body,
            ap lend (
                  head_partial (release r) (length body) five
                    (header_of_prefix tag body tail (pending r) future fits e five) small short)
                ∙ unfold lend in refl,
          )
    ]
