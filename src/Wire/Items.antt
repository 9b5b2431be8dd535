-- ===== src/Wire/Items.antt =====
-- What a BATCH body holds: a count and its items, each a header and a body, in order.
use oxicache.Common.{ℕ, ◌+◌, ◌%◌, ◌^◌, ◌<◌, ◌≡◌, refl, ap, ◌∙◌, List, [], ◌∷◌, ◌++◌, arith}
use oxicache.Common.{append_assoc, length, Bytes, to_le_bytes}
use oxicache.Common.{
  sym, u32_mod, copy_at, copy_at-append, length-append, take-append, drop-append, ok, le→ltb,
}
use oxicache.Wire.{encode_header, decode_header, split_count, split_len}

unfoldable pub encode_item : ℕ × Bytes → Bytes
encode_item (tag, body) = encode_header tag (length body) ++ body

unfoldable pub encode_items : List (ℕ × Bytes) → Bytes
unfolding encode_item
encode_items [] = []
encode_items (item ∷ items) = encode_item item ++ encode_items items

unfoldable pub encode_batch : List (ℕ × Bytes) → Bytes
unfolding encode_items
encode_batch items = to_le_bytes (length items) ++ encode_items items

-- The body of an item fits the header's 32-bit length.
abbrev pub Fits : ℕ × Bytes → Type 0
Fits item = length (item.1) < 2 ^ 32

pub encode_items-append :
    (xs ys : List (ℕ × Bytes)) → encode_items (xs ++ ys) ≡ encode_items xs ++ encode_items ys
unfolding encode_items
encode_items-append [] ys = refl
encode_items-append (x ∷ xs) ys =
    ap (◌++◌ (encode_item x)) (encode_items-append xs ys)
    ∙ ground (arith, append_assoc (encode_item x) (encode_items xs) (encode_items ys))

pub length-encode_header : (tag n : ℕ) → length (encode_header tag n) ≡ 5
unfolding encode_header
length-encode_header tag n = refl

pub decode-encode_header : (tag n : ℕ) → n < 2 ^ 32 → decode_header (encode_header tag n) ≡ (tag, n)
unfolding encode_header decode_header
decode-encode_header tag n h = ground arith

pub split_len-append :
    (xs ys : Bytes) (n : ℕ) → n ≡ length xs → split_len (xs ++ ys) n ≡ ok (xs, ys)
unfolding split_len
split_len-append xs ys n h = rw h (
    rw (
      le→ltb (length (xs ++ ys)) (length xs) (omega (arith, length-append xs ys)),
      take-append xs ys,
      drop-append xs ys,
    ))

pub split_count-to_le_bytes :
    (n : ℕ) (rest : Bytes) → n < 2 ^ 32 → split_count (to_le_bytes n ++ rest) ≡ ok (n, rest)
unfolding split_count
split_count-to_le_bytes n rest h = ground arith

-- Writing the length into a header that was put down with length 0.
pub copy_at-header :
    (pre body : Bytes) (tag n : ℕ)
    → copy_at ((pre ++ encode_header tag 0) ++ body) (length pre + 1) (to_le_bytes (n % u32_mod))
      ≡ (pre ++ encode_header tag n) ++ body
unfolding encode_header
copy_at-header pre body tag n =
    let a : length pre + 1 ≡ length (pre ++ tag ∷ []) =
      omega (arith, length-append pre (tag ∷ [])) in
    let split = λ (b : Bytes).
      append_assoc pre (tag ∷ b) body ∙ sym (append_assoc pre (tag ∷ []) (b ++ body)) in
    rw
      (
        a,
        split (to_le_bytes 0),
        copy_at-append (pre ++ tag ∷ []) (to_le_bytes 0) body (to_le_bytes (n % u32_mod)) refl,
      )
      (sym (split (to_le_bytes (n % u32_mod))))

pub length-item :
    (pre body : Bytes) (tag n : ℕ)
    → length ((pre ++ encode_header tag n) ++ body) ≡ length pre + 5 + length body
length-item pre body tag n = omega (
  arith,
  length-append (pre ++ encode_header tag n) body,
  length-append pre (encode_header tag n),
  length-encode_header tag n,
)
