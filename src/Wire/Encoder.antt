-- ===== src/Wire/Encoder.antt =====
-- `BatchEncoder` of crates/wire/src/lib.rs: the body of a BATCH request, built item by item.
use oxicache.Common.{ℕ, suc, ◌+◌, ◌-◌, ◌%◌, ◌++◌, Option, none, some, Bool}
use oxicache.Common.{if◌then◌else◌, leb, ◌==◌, length, take, copy_at, Bytes, u32_mod, to_le_bytes}
use oxicache.Wire.{Op, op_byte, header_len, max_items}
use oxicache.Wire.{encode_header, set_size, put_set_key, put_set}

pub record BatchEncoder : Type 0 where
  pub out : Bytes
  pub count : ℕ

-- `with_capacity` only sizes the allocation; `new` is `with_capacity(512)`.
unfoldable pub new : BatchEncoder
new = record { out = to_le_bytes 0; count = 0 }

unfoldable pub len : BatchEncoder → ℕ
len e = e.count

unfoldable pub is_empty : BatchEncoder → Bool
is_empty e = e.count == 0

unfoldable pub item : BatchEncoder → Op → ℕ → BatchEncoder
unfolding encode_header
item e op n = record { out = e.out ++ encode_header (op_byte op) n; count = suc e.count }

unfoldable pub put_slice : BatchEncoder → Bytes → BatchEncoder
put_slice e b = record e { out = e.out ++ b }

unfoldable pub get : BatchEncoder → Bytes → BatchEncoder
unfolding item put_slice
get e key = put_slice (item e Op.get (length key)) key

unfoldable pub set : BatchEncoder → Bytes → Bytes → BatchEncoder
unfolding item set_size put_set
set e key value =
    let e' = item e Op.set (set_size key value) in record e' { out = put_set e'.out key value }

unfoldable pub del : BatchEncoder → Bytes → BatchEncoder
unfolding item put_slice
del e key = put_slice (item e Op.del (length key)) key

unfoldable pub push : BatchEncoder → ℕ → Bytes → BatchEncoder
unfolding put_slice encode_header
push e op body =
    put_slice (record { out = e.out ++ encode_header op (length body); count = suc e.count }) body

-- What `set_with` does after its closure: roll the item back, or patch its length.
unfoldable pub close_set :
    {E : Type 0} → ℕ → BatchEncoder → Bytes × Option E → BatchEncoder × Option E
close_set at e (out, some x) = (record { out = take at out; count = e.count - 1 }, some x)
close_set at e (out, none) =
    let len = to_le_bytes ((length out - at - header_len) % u32_mod) in
    (record e { out = copy_at out (at + 1) len }, none)

-- The closure is given the buffer and leaves its own in it, whether it succeeds or fails.
unfoldable pub set_with :
    {E : Type 0} → BatchEncoder → Bytes → (Bytes → Bytes × Option E) → BatchEncoder × Option E
unfolding item close_set
set_with e key value =
    let e' = item e Op.set 0 in close_set (length e.out) e' (value (put_set_key e'.out key))

-- `none` is the panic of the assertion.
unfoldable pub finish : BatchEncoder → Option Bytes
unfolding copy_at
finish e =
    if leb e.count max_items then some (copy_at e.out 0 (to_le_bytes (e.count % u32_mod))) else none
