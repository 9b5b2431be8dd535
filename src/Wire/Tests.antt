-- ===== src/Wire/Tests.antt =====
-- Runs of the wire codec on small inputs.
use oxicache.Common.{
  ℕ, ◌≤◌, ◌≡◌, refl, List, [], ◌∷◌, ◌++◌, arith, Option, none, some, Bytes, ok, length,
}
use oxicache.Wire.{max_items}
use oxicache.Wire.Encoder.{BatchEncoder, new, get, set, del, set_with, finish}
use oxicache.Wire.Frames.{
  Frames, frames, walk, check_end, next, collect, collect_loop, decode_replies,
}
use oxicache.Wire.Items.{encode_batch}
use oxicache.Wire.{decode_header, split_count, split_len}
use oxicache.Wire.Building.{new-Holds, get-Holds, del-Holds, set_with-eq-set, set_with-failed}
use oxicache.Wire.Parsing.{decode_replies-finish}
use oxicache.Wire.Walked.{InBounds, Iterated, encode_batch-decode_replies, frames-InBounds}

abbrev one_get : List (ℕ × Bytes)
one_get = (1, 7 ∷ []) ∷ []

abbrev one_get_body : Bytes
one_get_body = 1 ∷ 0 ∷ 0 ∷ 0 ∷ 1 ∷ 1 ∷ 0 ∷ 0 ∷ 0 ∷ 7 ∷ []

abbrev one_get_frames : Frames
one_get_frames = record { rest = 1 ∷ 1 ∷ 0 ∷ 0 ∷ 0 ∷ 7 ∷ []; left = 1 }

abbrev get_and_del : BatchEncoder
get_and_del = del (get new (7 ∷ [])) (9 ∷ 9 ∷ [])

abbrev appends_five : Bytes → Bytes × Option ℕ
appends_five buf = (buf ++ (5 ∷ []), none)

abbrev fails_with_eight : Bytes → Bytes × Option ℕ
fails_with_eight buf = (buf ++ (5 ∷ []), some 8)

one_get_parsed : decode_replies one_get_body ≡ ok one_get
unfolding decode_replies collect collect_loop frames walk check_end next split_count split_len
    decode_header
one_get_parsed = refl

one_get_walked : frames one_get_body ≡ ok one_get_frames
unfolding frames walk check_end split_count split_len decode_header
one_get_walked = refl

decode_replies-finish_example :
    (body : Bytes) × (finish get_and_del ≡ some body)
    × (decode_replies body ≡ ok ((1, 7 ∷ []) ∷ (3, 9 ∷ 9 ∷ []) ∷ []))
decode_replies-finish_example =
    decode_replies-finish get_and_del ((1, 7 ∷ []) ∷ (3, 9 ∷ 9 ∷ []) ∷ [])
      (del-Holds (get new (7 ∷ [])) one_get (9 ∷ 9 ∷ []) (get-Holds new [] (7 ∷ []) new-Holds))
      (omega arith, (omega arith, tt)) (omega arith)

encode_batch-decode_replies_example :
    (one_get_body ≡ encode_batch one_get) × (length one_get ≤ max_items)
encode_batch-decode_replies_example =
    encode_batch-decode_replies one_get_body one_get
      (
        omega arith,
        (
          omega arith,
          (
            omega arith,
            (
              omega arith,
              (
                omega arith,
                (omega arith, (omega arith, (omega arith, (omega arith, (omega arith, tt))))),
              ),
            ),
          ),
        ),
      )
      one_get_parsed

frames-InBounds_example : InBounds (1 ∷ 1 ∷ 0 ∷ 0 ∷ 0 ∷ 7 ∷ [])
frames-InBounds_example =
    frames-InBounds one_get_body one_get_frames one_get_frames one_get_walked Iterated.start
      (λ e. absurd (omega (arith, e)))

set_with-eq-set_example : set_with new (7 ∷ []) appends_five ≡ (set new (7 ∷ []) (5 ∷ []), none)
set_with-eq-set_example = set_with-eq-set new (7 ∷ []) (5 ∷ []) appends_five (λ buf. refl)

set_with-failed_example : set_with new (7 ∷ []) fails_with_eight ≡ (new, some 8)
set_with-failed_example = set_with-failed new (7 ∷ []) fails_with_eight 8 (λ buf. (5 ∷ [], refl))
