-- ===== src/Client/Cluster/Tests.antt =====
-- Two items for two servers, the second of which answers first.
use oxicache.Common.{
  ℕ, ◌≡◌, refl, arith, List, [], ◌∷◌, none, some, All, Bytes, Result, ok, get_elem?,
}
use oxicache.Wire.{decode_header, split_count, split_len}
use oxicache.Wire.Encoder.{new, push, put_slice, finish}
use oxicache.Wire.Frames.{Frames, frames, walk, check_end, next, collect, collect_loop}
use oxicache.Client.Cluster.{Error, merge, merge_frames, fill_places, note}
use oxicache.Client.Health.{answered}
use oxicache.Client.Cluster.Batch.{
  batch, group_of, group, landings, landed, gather_all, gather, gathered, land, settle, merged_in,
  blank,
}
use oxicache.Client.Cluster.Finished.{batch_total}
use oxicache.Client.Cluster.Scattered.{Answered, gather_all-Answers}
use oxicache.Wire.{status_from_u8}
use oxicache.Client.Outcome.{get, known, reply_bool}
use oxicache.Client.Outcome.{Outcome, batch_body, index_replies, indexed}
use oxicache.Client.Outcome.Indexed.{batch_body-answer}

-- Each server answers OK, with its own number.
abbrev numbered : ℕ → Bytes → Result Error Bytes
numbered at body = ok (1 ∷ 0 ∷ 0 ∷ 0 ∷ 0 ∷ 1 ∷ 0 ∷ 0 ∷ 0 ∷ at ∷ [])

abbrev at_once : ℕ → ℕ
at_once at = 0

abbrev two_gets : List (ℕ × Bytes)
two_gets = (1, 7 ∷ []) ∷ (1, 8 ∷ []) ∷ []

abbrev both : Outcome
both = record { body = 1 ∷ 0 ∷ []; index = (0, 1, 1) ∷ (0, 0, 1) ∷ [] }

both_landed :
    gather_all numbered none at_once
      (0 ∷ 0 ∷ [])
      2
      (landings numbered none at_once two_gets (0 ∷ 1 ∷ []) (1 ∷ 0 ∷ []))
    ≡ some (0 ∷ 0 ∷ [], ok both)
unfolding gather_all landings landed gather gathered land settle merged_in blank group_of group
    merge merge_frames fill_places note frames walk check_end next collect collect_loop
    decode_header split_count split_len new push put_slice finish answered
both_landed = refl

gather_all-Answers_example : All (Answered numbered two_gets (0 ∷ 1 ∷ []) both) (1 ∷ 0 ∷ [])
gather_all-Answers_example =
    gather_all-Answers numbered none at_once (0 ∷ 0 ∷ []) two_gets (0 ∷ 1 ∷ []) (1 ∷ 0 ∷ [])
      (0 ∷ 0 ∷ []) both (((λ e. absurd (omega (arith, e))), tt), (tt, tt)) both_landed

abbrev one_reply : Bytes
one_reply = 1 ∷ 0 ∷ 0 ∷ 0 ∷ 0 ∷ 1 ∷ 0 ∷ 0 ∷ 0 ∷ 5 ∷ []

abbrev read_five : Outcome
read_five = record { body = one_reply; index = (0, 9, 1) ∷ [] }

one_reply-read : batch_body (ok one_reply) 1 ≡ ok read_five
unfolding batch_body index_replies indexed frames walk check_end next decode_header split_count
    split_len
one_reply-read = refl

batch_body-answer_example :
    (f : Frames) × (frames one_reply ≡ ok f)
    × (f.left ≡ 1)
    × ((k : ℕ) (r : ℕ × Bytes)
        → get_elem? (collect f) k ≡ some r
        → get reply_bool read_five k ≡ some (known reply_bool r.0 r.1 (status_from_u8 r.0)))
batch_body-answer_example =
    batch_body-answer reply_bool one_reply 1 read_five (omega arith) one_reply-read

batch_total_example :
    (r : List ℕ × Result Error Outcome) × (batch numbered none at_once
        (0 ∷ 0 ∷ [])
        ((10, 0) ∷ (20, 1) ∷ [])
        0
        (1 ∷ 0 ∷ [])
        (push (push new 1 (7 ∷ [])) 1 (8 ∷ []))
      ≡ some r)
batch_total_example =
    batch_total numbered none at_once (0 ∷ 0 ∷ []) ((10, 0) ∷ (20, 1) ∷ []) 0 (1 ∷ 0 ∷ [])
      (push (push new 1 (7 ∷ [])) 1 (8 ∷ []))
