-- ===== src/Io/Reader/Owned.antt =====
-- `next_buffered_owned` of crates/wire/src/io.rs: what it hands out and what it leaves.
use oxicache.Common.{ℕ, ◌+◌, ◌≤◌, ◌<◌, ◌≡◌, refl, sym, ap, ◌∙◌, inl, inr, ◌++◌, [], arith}
use oxicache.Common.{none, some, Option, ok, Bool-cases, ltb, ltb→lt, ltb→le}
use oxicache.Common.{append_assoc, append-nil, length, drop, Bytes, take-append_eq, drop-append_eq}
use oxicache.Wire.{encode_header}
use oxicache.Wire.Items.{Fits, encode_item, length-encode_header}
use oxicache.Io.Reader.{FrameReader, release, advance, hand_over, next_buffered_owned}
use oxicache.Io.Reader.Stream.{
  pending, get_or-encode_item, header_of_prefix, head_short, head_partial, head_whole,
  length-framed,
}

-- The reader gives `item` and keeps the bytes `left`.
abbrev pub Gives : FrameReader → Option (ℕ × Bytes) → Bytes → Type 0
Gives r item left =
    (r' : FrameReader) × (next_buffered_owned r ≡ (r', ok item))
    × (pending r' ≡ left)
    × (r'.max_frame ≡ r.max_frame)

behind_header :
    (tag : ℕ) (body rest : Bytes)
    → drop 5 ((encode_header tag (length body) ++ body) ++ rest) ≡ body ++ rest
behind_header tag body rest =
    ap (drop 5) (append_assoc (encode_header tag (length body)) body rest)
    ∙ drop-append_eq 5 (encode_header tag (length body)) (body ++ rest)
        (sym (length-encode_header tag (length body)))

-- A whole frame at the front of what has arrived is handed out, and the rest is kept.
pub owned-whole :
    (r : FrameReader) (tag : ℕ) (body rest : Bytes)
    → Fits (tag, body)
    → length body ≤ r.max_frame
    → pending r ≡ encode_item (tag, body) ++ rest
    → Gives r (some (tag, body)) rest
unfolding next_buffered_owned release advance encode_item
owned-whole r tag body rest fits small e = (
  advance (advance (record (release r) { need = 0 }) 5) (length body),
  ap hand_over (
        head_whole (release r) (length body) (omega (arith, size))
          (header_of_prefix tag body rest (pending r) [] fits (append-nil (pending r) ∙ e)
            (omega (arith, size)))
          small (omega (arith, size)))
      ∙ unfold hand_over in
        rw
          (
            e,
            get_or-encode_item tag body rest,
            behind_header tag body rest,
            take-append_eq (length body) body rest refl,
          )
          refl,
  ap (drop (length body)) (ap (drop 5) e ∙ behind_header tag body rest)
      ∙ drop-append_eq (length body) body rest refl,
  refl,
)
  where
    size : length (pending r) ≡ 5 + length body + length rest
    size = ap length e ∙ length-framed tag body rest

-- Of a frame that has not all arrived nothing is handed out, and nothing is lost.
pub owned-short : (r : FrameReader) → length (pending r) < 5 → Gives r none (pending r)
unfolding next_buffered_owned release advance
owned-short r h =
    (release r, ap hand_over (head_short (release r) h) ∙ unfold hand_over in refl, refl, refl)

pub owned-partial :
    (r : FrameReader) (tag : ℕ) (body tail future : Bytes)
    → Fits (tag, body)
    → length body ≤ r.max_frame
    → pending r ++ future ≡ encode_item (tag, body) ++ tail
    → length (pending r) < 5 + length body
    → Gives r none (pending r)
unfolding next_buffered_owned release advance encode_item
owned-partial r tag body tail future fits small e short =
    elim (Bool-cases (ltb (length (pending r)) 5)) [
      | inl few ↦ owned-short r (ltb→lt _ _ few)
      | inr enough ↦
          let five = ltb→le _ _ enough in
          (
            record (release r) { need = 5 + length body },
            ap hand_over (
                  head_partial (release r) (length body) five
                    (header_of_prefix tag body tail (pending r) future fits e five) small short)
                ∙ unfold hand_over in refl,
            refl,
            refl,
          )
    ]
