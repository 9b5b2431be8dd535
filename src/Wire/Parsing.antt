-- ===== src/Wire/Parsing.antt =====
-- What `frames` accepts and what iterating yields: the batch format, read back.
use oxicache.Common.{ℕ, suc, ◌-◌, ◌≤◌, ◌≡◌, refl, sym, ap, ◌∙◌, List, [], ◌∷◌, ◌++◌}
use oxicache.Common.{arith, append_assoc, length, take, drop, All, Bytes}
use oxicache.Common.{some, take-append, drop-append}
use oxicache.Common.{ok, le→ltb, ==-suc}
use mathlib.Core.Path.{subst}
use oxicache.Wire.{max_items, encode_header}
use oxicache.Wire.Encoder.{BatchEncoder, finish}
use oxicache.Wire.Frames.{
  Frames, walk, check_end, frames, next, collect_loop, collect, decode_replies,
}
use oxicache.Wire.Items.{
  Fits, encode_items, encode_batch, length-encode_header, decode-encode_header, split_len-append,
  split_count-to_le_bytes,
}
use oxicache.Wire.Building.{Holds, finish-Holds}

-- One round of the walk over an encoded item.
walk_step :
    (n tag : ℕ) (body rest : Bytes)
    → Fits (tag, body)
    → walk (suc n) ((encode_header tag (length body) ++ body) ++ rest) ≡ walk n rest
unfolding walk
walk_step n tag body rest fits = rw (
  append_assoc (encode_header tag (length body)) body rest,
  split_len-append (encode_header tag (length body)) (body ++ rest) 5
      (sym (length-encode_header tag (length body))),
  decode-encode_header tag (length body) fits,
  split_len-append body rest (length body) refl,
)

walk-encode_items :
    (items : List (ℕ × Bytes)) → All Fits items → walk (length items) (encode_items items) ≡ ok []
unfolding encode_items
walk-encode_items [] h = unfold walk in refl
walk-encode_items ((tag, body) ∷ items) h =
    walk_step (length items) tag body (encode_items items) h.0 ∙ walk-encode_items items h.1

next-encode_item :
    (n tag : ℕ) (body rest : Bytes)
    → Fits (tag, body)
    → next (record { rest = (encode_header tag (length body) ++ body) ++ rest; left = suc n })
      ≡ some ((tag, body), record { rest = rest; left = n })
unfolding next
next-encode_item n tag body rest fits =
    let header = encode_header tag (length body) in
    let five = length-encode_header tag (length body) in
    let pred : suc n - 1 ≡ n = omega arith in
    rw (
      ==-suc n,
      append_assoc header body rest,
      subst (λ k. take k (header ++ (body ++ rest)) ≡ header) five
          (take-append header (body ++ rest)),
      subst (λ k. drop k (header ++ (body ++ rest)) ≡ body ++ rest) five
          (drop-append header (body ++ rest)),
      decode-encode_header tag (length body) fits,
      take-append body rest,
      drop-append body rest,
      pred,
    )

pub collect_loop-next :
    (n : ℕ) (f f' : Frames) (item : ℕ × Bytes)
    → next f ≡ some (item, f')
    → collect_loop (suc n) f ≡ item ∷ collect_loop n f'
unfolding collect_loop
collect_loop-next n f f' item e = rw (e, collect_loop)

collect_loop-encode_items :
    (items : List (ℕ × Bytes))
    → All Fits items
    → collect_loop (length items) (record { rest = encode_items items; left = length items })
      ≡ items
unfolding encode_items
collect_loop-encode_items [] h = unfold collect_loop in refl
collect_loop-encode_items ((tag, body) ∷ items) h =
    collect_loop-next (length items) _ _ _
      (next-encode_item (length items) tag body (encode_items items) h.0)
    ∙ ap (◌∷◌ (tag, body)) (collect_loop-encode_items items h.1)

pub frames-encode_batch :
    (items : List (ℕ × Bytes))
    → All Fits items
    → length items ≤ max_items
    → frames (encode_batch items) ≡ ok (record { rest = encode_items items; left = length items })
unfolding frames encode_batch check_end
frames-encode_batch items h few =
    rw
      (
        split_count-to_le_bytes (length items) (encode_items items) (omega arith),
        le→ltb max_items (length items) few,
        walk-encode_items items h,
      )
      refl

pub decode_replies-encode_batch :
    (items : List (ℕ × Bytes))
    → All Fits items
    → length items ≤ max_items
    → decode_replies (encode_batch items) ≡ ok items
unfolding decode_replies collect
decode_replies-encode_batch items h few =
    rw (frames-encode_batch items h few) (ap ok (collect_loop-encode_items items h))

-- A finished encoder is read back as the items that it holds, in order: nothing is lost, merged
-- or reordered, whatever bytes the bodies are made of. Each body is under 4 GiB and there are at
-- most 65536 items.
pub decode_replies-finish :
    (e : BatchEncoder) (items : List (ℕ × Bytes))
    → Holds e items
    → All Fits items
    → length items ≤ max_items
    → (body : Bytes) × (finish e ≡ some body) × (decode_replies body ≡ ok items)
decode_replies-finish e items h fits few =
    (encode_batch items, finish-Holds e items h few, decode_replies-encode_batch items fits few)
