-- ===== src/Wire.antt =====
-- The frame format of crates/wire/src/lib.rs: tags, headers, SET bodies. Bodies are byte lists.
mod Tags
pub mod Encoder
pub mod Frames
pub mod Items
pub mod Building
pub mod Parsing
pub mod Walked
mod Tests
pub use Tags.{Op, op_byte, Status, status_byte}
unfoldable pub use Tags.{op_from_u8, status_from_u8}
use oxicache.Common.{ℕ, ◌+◌, ◌-◌, ◌*◌, ◌%◌, ◌^◌, List, [], ◌∷◌, ◌++◌}
use oxicache.Common.{if◌then◌else◌, ltb, length, take, drop, get_or, Bytes, u32_mod}
use oxicache.Common.{to_le_bytes, from_le_bytes, Result, ok, err, ◌>>=◌}

abbrev pub header_len : ℕ
header_len = 5

abbrev pub max_frame : ℕ
max_frame = 64 * 2 ^ 20

abbrev pub max_items : ℕ
max_items = 2 ^ 16

-- `len as u32` keeps the low 32 bits; the `debug_assert!` is not in a release build.
unfoldable pub encode_header : ℕ → ℕ → Bytes
encode_header tag len = tag ∷ to_le_bytes (len % u32_mod)

-- The argument is a `[u8; 5]`: no entry is ever missing.
unfoldable pub decode_header : Bytes → ℕ × ℕ
decode_header h =
    (get_or h 0 0, from_le_bytes (get_or h 1 0) (get_or h 2 0) (get_or h 3 0) (get_or h 4 0))

pub data DecodeError : Type 0 where
  truncated trailing too_many : ℕ → DecodeError

-- `split_first_chunk::<4>` fails on a slice of fewer than four bytes.
unfoldable pub split_count : Bytes → Result DecodeError (ℕ × Bytes)
split_count (a ∷ b ∷ c ∷ d ∷ rest) = ok (from_le_bytes a b c d, rest)
split_count body = err (DecodeError.truncated (4 - length body))

unfoldable pub split_len : Bytes → ℕ → Result DecodeError (Bytes × Bytes)
split_len b len =
    if ltb (length b) len
    then err (DecodeError.truncated (len - length b))
    else ok (take len b, drop len b)

unfoldable pub set_size : Bytes → Bytes → ℕ
set_size key value = 4 + length key + length value

unfoldable pub put_set_key : Bytes → Bytes → Bytes
put_set_key out key = (out ++ to_le_bytes (length key % u32_mod)) ++ key

unfoldable pub put_set : Bytes → Bytes → Bytes → Bytes
unfolding put_set_key
put_set out key value = put_set_key out key ++ value

unfoldable pub encode_set : Bytes → Bytes → Bytes
unfolding put_set
encode_set key value = put_set [] key value

unfoldable pub set_body : Bytes → Result DecodeError (Bytes × Bytes)
unfolding split_count split_len
set_body body = do (klen, rest) ← split_count body; split_len rest klen
