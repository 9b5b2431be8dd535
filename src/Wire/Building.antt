-- ===== src/Wire/Building.antt =====
-- What the operations of the batch encoder put into the body.
use oxicache.Common.{ℕ, suc, ◌-◌, ◌%◌, ◌≤◌, ◌<◌, ◌≡◌, refl, ap, ◌∙◌, List, [], ◌∷◌, ◌++◌}
use oxicache.Common.{arith, append_assoc, append-nil, length, take, Bytes, to_le_bytes, u32_mod}
use oxicache.Common.{Option, none, some, length-append, take-append, le→leb}
use native.Mathlib.Nat.{mod-eq_of_lt}
use oxicache.Wire.{
  Op, op_byte, max_items, encode_header, encode_set, set_size, put_set_key, put_set,
}
use oxicache.Wire.Encoder.{
  BatchEncoder, new, get, set, del, push, set_with, finish, item, close_set,
}
use oxicache.Wire.Items.{
  encode_item, encode_items, encode_batch, encode_items-append, length-item, copy_at-header,
}

-- The encoder holds these items, behind the placeholder of the count.
pub record Holds (e : BatchEncoder) (items : List (ℕ × Bytes)) : Type 0 where
  pub out_is : e.out ≡ to_le_bytes 0 ++ encode_items items
  pub count_is : e.count ≡ length items

pub new-Holds : Holds new []
unfolding new encode_items
new-Holds = record { out_is = refl; count_is = refl }

one_item : (x : ℕ × Bytes) → encode_items (x ∷ []) ≡ encode_item x
unfolding encode_items
one_item x = append-nil (encode_item x)

add-Holds :
    (e : BatchEncoder) (items : List (ℕ × Bytes)) (tag : ℕ) (body : Bytes)
    → Holds e items
    → Holds
        (record { out = (e.out ++ encode_header tag (length body)) ++ body; count = suc e.count })
        (items ++ ((tag, body) ∷ []))
add-Holds e items tag body h = record {
  out_is =
      rw (h.out_is, encode_items-append items ((tag, body) ∷ []), one_item (tag, body))
        (unfold encode_item in
          append_assoc (to_le_bytes 0 ++ encode_items items) (encode_header tag (length body)) body
          ∙ append_assoc (to_le_bytes 0) (encode_items items)
              (encode_header tag (length body) ++ body));
  count_is = omega (arith, length-append items ((tag, body) ∷ []), h.count_is);
}

pub push-Holds :
    (e : BatchEncoder) (items : List (ℕ × Bytes)) (op : ℕ) (body : Bytes)
    → Holds e items
    → Holds (push e op body) (items ++ ((op, body) ∷ []))
unfolding push
push-Holds e items op body h = add-Holds e items op body h

pub get-Holds :
    (e : BatchEncoder) (items : List (ℕ × Bytes)) (key : Bytes)
    → Holds e items
    → Holds (get e key) (items ++ ((op_byte Op.get, key) ∷ []))
unfolding get
get-Holds e items key h = add-Holds e items 1 key h

pub del-Holds :
    (e : BatchEncoder) (items : List (ℕ × Bytes)) (key : Bytes)
    → Holds e items
    → Holds (del e key) (items ++ ((op_byte Op.del, key) ∷ []))
unfolding del
del-Holds e items key h = add-Holds e items 3 key h

pub length-encode_set : (key value : Bytes) → length (encode_set key value) ≡ set_size key value
unfolding encode_set set_size
length-encode_set key value = omega (
  arith,
  length-append key value,
  length-append (to_le_bytes (length key % u32_mod) ++ key) value,
)

put_set_key-append :
    (out key value : Bytes) → put_set_key out key ++ value ≡ out ++ encode_set key value
unfolding encode_set put_set_key
put_set_key-append out key value =
    ap (λ z. z ++ value) (append_assoc out (to_le_bytes (length key % u32_mod)) key)
    ∙ append_assoc out (to_le_bytes (length key % u32_mod) ++ key) value

put_set-append : (out key value : Bytes) → put_set out key value ≡ out ++ encode_set key value
unfolding put_set
put_set-append out key value = put_set_key-append out key value

pub set-Holds :
    (e : BatchEncoder) (items : List (ℕ × Bytes)) (key value : Bytes)
    → Holds e items
    → Holds (set e key value) (items ++ ((op_byte Op.set, encode_set key value) ∷ []))
unfolding set
set-Holds e items key value h =
    rw
      (
        put_set-append (e.out ++ encode_header 2 (set_size key value)) key value,
        ← length-encode_set key value,
      )
      (add-Holds e items 2 (encode_set key value) h)

-- A closure that appends `value` and succeeds.
abbrev pub Appends : {E : Type 0} → (Bytes → Bytes × Option E) → Bytes → Type 0
Appends f value = (buf : Bytes) → f buf ≡ (buf ++ value, none)

-- A closure that fails, and keeps what stood in the buffer before it.
abbrev pub FailsWith : {E : Type 0} → (Bytes → Bytes × Option E) → E → Type 0
FailsWith f x = (buf : Bytes) → (junk : Bytes) × (f buf ≡ (buf ++ junk, some x))

-- A SET item whose value a closure appends is the item that `set` encodes, with its length patched in.
pub set_with-eq-set :
    {E : Type 0} (e : BatchEncoder) (key value : Bytes) (f : Bytes → Bytes × Option E)
    → Appends f value
    → set_with e key f ≡ (set e key value, none)
unfolding set_with set
set_with-eq-set e key value f h =
    let start : Bytes = e.out ++ encode_header 2 0 in
    let whole = put_set_key-append start key value in
    let size : (length (start ++ encode_set key value) - length e.out - 5) ≡ set_size key value =
      omega (arith, length-item e.out (encode_set key value) 2 0, length-encode_set key value) in
    ap (close_set (length e.out) (item e Op.set 0)) (h (put_set_key start key))
    ∙ rw (
      whole,
      size,
      copy_at-header e.out (encode_set key value) 2 (set_size key value),
      put_set-append (e.out ++ encode_header 2 (set_size key value)) key value,
    )

-- When the closure fails, whatever it appended, the encoder is as it was and the error is passed on.
pub set_with-failed :
    {E : Type 0} (e : BatchEncoder) (key : Bytes) (f : Bytes → Bytes × Option E) (x : E)
    → FailsWith f x
    → set_with e key f ≡ (e, some x)
unfolding set_with
set_with-failed e key f x h =
    let start : Bytes = put_set_key (e.out ++ encode_header 2 0) key in
    let (junk, failed) = h start in
    ap (close_set (length e.out) (item e Op.set 0)) failed ∙ rw (take_back junk, count_back)
  where
    count_back : suc e.count - 1 ≡ e.count
    count_back = omega arith

    take_back :
        (junk : Bytes)
        → take (length e.out) (put_set_key (e.out ++ encode_header 2 0) key ++ junk) ≡ e.out
    take_back junk =
        rw
          (
            put_set_key-append (e.out ++ encode_header 2 0) key junk,
            append_assoc e.out (encode_header 2 0) (encode_set key junk),
          )
          (take-append e.out (encode_header 2 0 ++ encode_set key junk))

-- The finished body is the batch of the items, unless there are too many.
pub finish-Holds :
    (e : BatchEncoder) (items : List (ℕ × Bytes))
    → Holds e items
    → length items ≤ max_items
    → finish e ≡ some (encode_batch items)
unfolding finish encode_batch
finish-Holds e items h fits =
    rw (h.count_is, h.out_is, le→leb (length items) max_items fits, mod-eq_of_lt fits') refl
  where
    fits' : length items < u32_mod
    fits' = omega arith
