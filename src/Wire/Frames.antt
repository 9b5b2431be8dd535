-- ===== src/Wire/Frames.antt =====
-- `frames`, its iterator and `decode_replies` of crates/wire/src/lib.rs.
use oxicache.Common.{ℕ, zero, suc, ◌-◌, List, [], ◌∷◌, Option, none, some}
use oxicache.Common.{if◌then◌else◌, ltb, ◌==◌, length, take, drop, Bytes, Result, ok, err, ◌>>=◌}
use oxicache.Wire.{header_len, max_items, DecodeError, decode_header, split_count, split_len}

pub record Frames : Type 0 where
  pub rest : Bytes
  pub left : ℕ

-- The loop of `frames`: `n` frames to walk.
unfoldable pub walk : ℕ → Bytes → Result DecodeError Bytes
walk zero rest = ok rest
walk (suc n) rest = do
  (h, r) ← split_len rest header_len
  (body, rest') ← split_len r (decode_header h).1
  walk n rest'

unfoldable pub check_end : Bytes → ℕ → Bytes → Result DecodeError Frames
check_end body n [] = ok (record { rest = drop 4 body; left = n })
check_end body n (b ∷ bs) = err (DecodeError.trailing (length (b ∷ bs)))

unfoldable pub frames : Bytes → Result DecodeError Frames
frames body = do
  (n, rest) ← split_count body
  if ltb max_items n then err (DecodeError.too_many n) else walk n rest >>= check_end body n

-- One `next`: the reads are unchecked in the source, and stop at the end of the list here.
unfoldable pub next : Frames → Option ((ℕ × Bytes) × Frames)
next f =
    if f.left == 0
    then none
    else let (tag, len) = decode_header (take header_len f.rest) in
      let rest = drop header_len f.rest in
      some ((tag, take len rest), record { rest = drop len rest; left = f.left - 1 })

-- Iterating to the end. Each `next` lowers `left`, so `left` rounds are enough.
unfoldable pub collect_loop : ℕ → Frames → List (ℕ × Bytes)
collect_loop zero f = []
collect_loop (suc n) f = elim (next f) [ none ↦ [] | some (item, f') ↦ item ∷ collect_loop n f' ]

unfoldable pub collect : Frames → List (ℕ × Bytes)
collect f = collect_loop f.left f

-- The replies share the response's allocation in the source; here they are its bytes.
unfoldable pub decode_replies : Bytes → Result DecodeError (List (ℕ × Bytes))
decode_replies body = do f ← frames body; ok (collect f)
