-- ===== src/Server/Dispatch/Batch.antt =====
-- `batch` of crates/server/src/tcp.rs against the reference of Server/Dispatch/Alone.
use oxicache.Common.{
  ℕ, zero, suc, ◌%◌, ◌≤◌, ◌≡◌, refl, ap, ◌∙◌, inl, inr, arith, List, [], ◌∷◌, ◌++◌, Option, none,
  some,
}
use oxicache.Common.{if◌then◌else◌, Bool-cases, ltb, length, Bytes, u32_mod, to_le_bytes, ok}
use oxicache.Wire.{Op, op_from_u8, Status, status_byte, set_body}
use oxicache.Wire.Frames.{Frames, frames, collect, collect_loop}
use oxicache.Wire.Items.{encode_item}
use oxicache.Io.Writer.{FrameWriter, begin, frame}
use oxicache.Io.Writer.Queue.{IsQueue, queued, queued-frame}
use oxicache.Io.Writer.Close.{
  Write, copied, write_all, written, begin-since, begin-end, begin-abort,
}
use oxicache.Cache.Index.{Index}
use oxicache.Server.Dispatch.{
  Texts, Served, max_response, frame_of, take_run, parsed, set_run, and_then, run_op, run_items,
  replaced, close_batch, batch_items, batch_parsed, batch,
}
use oxicache.Server.Dispatch.Alone.{
  State, each, answer_get, answer_del, answer_op, answer_item, alone, alone-cons, run_start,
  take_run-alone, length-take_run, parsed-alone, answer_item-set, set_run-alone, length-parsed,
  length-set_run,
}
use oxicache.Server.Dispatch.Alone.Runs.{
  SameServed, SameServed-refl, Agree, and_then-Agree, run_gets-each, run_dels-each,
}
use oxicache.Server.Dispatch.Alone.Sets.{run_sets-alone}
use mathlib.Core.Path.{subst}

module _ (hasher : Bytes → ℕ) (index : Index hasher) (texts : Texts) where
  abbrev More : Type 0
  More = List (ℕ × Bytes) → State hasher index texts → State hasher index texts × List Write

  -- `more` answers short lists of items as they are answered alone.
  abbrev Answers : ℕ → More → Type 0
  Answers n more =
      (items : List (ℕ × Bytes)) (s t : State hasher index texts)
      → length items ≤ n
      → SameServed hasher index texts s t
      → Agree hasher index texts (more items s) (alone hasher index texts items t)

  answer_item-op :
      (t : State hasher index texts) (op : ℕ) (b : Bytes) (q : Option Op)
      → op_from_u8 op ≡ q
      → answer_item hasher index texts t (op, b) ≡ answer_op hasher index texts t op b q
  unfolding answer_item
  answer_item-op t op b q h = ap (answer_op hasher index texts t op b) h

  -- An op that a batch does not take.
  refused-alone :
      (more : More) (s t : State hasher index texts) (op : ℕ) (b : Bytes) (items : List (ℕ × Bytes))
      → Answers (length items) more
      → SameServed hasher index texts s t
      → answer_item hasher index texts t (op, b)
        ≡ (t, frame_of Status.unknown_op (texts.not_in_batch op))
      → Agree hasher index texts
          (and_then hasher index texts
            (more items)
            (s, frame_of Status.unknown_op (texts.not_in_batch op)))
          (alone hasher index texts ((op, b) ∷ items) t)
  refused-alone more s t op b items answers same h =
      rw (alone-cons hasher index texts (op, b) items t, h)
        (and_then-Agree hasher index texts _ _ _ _ (record { state = same; writes = refl })
          (λ u v uv. answers items u v (omega arith) uv))

  run_op-alone :
      (more : More) (s t : State hasher index texts) (op : ℕ) (b : Bytes) (items : List (ℕ × Bytes))
      (q : Option Op)
      → op_from_u8 op ≡ q
      → Answers (length items) more
      → SameServed hasher index texts s t
      → Agree hasher index texts
          (run_op hasher index texts more s op b items q)
          (alone hasher index texts ((op, b) ∷ items) t)
  unfolding run_op
  run_op-alone more s t op b items (some Op.get) h answers same =
      let f = answer_get hasher index texts in
      let one = λ (u : State hasher index texts) (c : Bytes). gets u c in
      rw
        (run_start hasher index texts f op b items t (one t b)
          (λ u. take_run-alone hasher index texts f op items u one))
        (and_then-Agree hasher index texts _ _ _ _
          (run_gets-each hasher index texts s t (b ∷ (take_run op items).0) same)
          (λ u v uv. answers _ u v (length-take_run hasher index texts op items) uv))
    where
      gets :
          (u : State hasher index texts) (c : Bytes)
          → answer_item hasher index texts u (op, c) ≡ answer_get hasher index texts u c
      gets u c = answer_item-op u op c (some Op.get) h ∙ unfold answer_op in refl
  run_op-alone more s t op b items (some Op.del) h answers same =
      let f = answer_del hasher index texts in
      let one = λ (u : State hasher index texts) (c : Bytes). dels u c in
      rw
        (run_start hasher index texts f op b items t (one t b)
          (λ u. take_run-alone hasher index texts f op items u one))
        (and_then-Agree hasher index texts _ _ _ _
          (run_dels-each hasher index texts s t (b ∷ (take_run op items).0) same)
          (λ u v uv. answers _ u v (length-take_run hasher index texts op items) uv))
    where
      dels :
          (u : State hasher index texts) (c : Bytes)
          → answer_item hasher index texts u (op, c) ≡ answer_del hasher index texts u c
      dels u c = answer_item-op u op c (some Op.del) h ∙ unfold answer_op in refl
  run_op-alone more s t op b items (some Op.set) h answers same =
      let run = parsed (set_body b) (set_run op items) items in
      rw
        (alone-cons hasher index texts (op, b) items t
          ∙ ap (and_then hasher index texts (alone hasher index texts items))
              (answer_item-set hasher index texts t op b h)
          ∙ parsed-alone hasher index texts (set_body b) (set_run op items) items t
              (λ u. set_run-alone hasher index texts op items u h))
        (and_then-Agree hasher index texts _ _ _ _
          (run_sets-alone hasher index texts s t run.0 run.1 same)
          (λ u v uv.
            answers _ u v
              (length-parsed hasher index texts (set_body b) (set_run op items) items
                (length-set_run hasher index texts op items))
              uv))
  run_op-alone more s t op b items (some Op.auth) h answers same =
      refused-alone more s t op b items answers same
        (answer_item-op t op b (some Op.auth) h ∙ unfold answer_op in refl)
  run_op-alone more s t op b items (some Op.ping) h answers same =
      refused-alone more s t op b items answers same
        (answer_item-op t op b (some Op.ping) h ∙ unfold answer_op in refl)
  run_op-alone more s t op b items (some Op.batch) h answers same =
      refused-alone more s t op b items answers same
        (answer_item-op t op b (some Op.batch) h ∙ unfold answer_op in refl)
  run_op-alone more s t op b items none h answers same =
      refused-alone more s t op b items answers same
        (answer_item-op t op b none h ∙ unfold answer_op in refl)

  run_items-alone : (fuel : ℕ) → Answers fuel (run_items hasher index texts fuel)
  unfolding run_items
  run_items-alone zero [] s t h same = unfold alone each in record { state = same; writes = refl }
  run_items-alone zero (item ∷ items) s t h same = absurd (omega (arith, h))
  run_items-alone (suc fuel) [] s t h same =
      unfold alone each in record { state = same; writes = refl }
  run_items-alone (suc fuel) ((op, b) ∷ items) s t h same =
      run_op-alone (run_items hasher index texts fuel) s t op b items (op_from_u8 op) refl
        (λ rest u v short uv. run_items-alone fuel rest u v (omega (arith, h, short)) uv) same

module _ (hasher : Bytes → ℕ) (index : Index hasher) (texts : Texts) where
  -- The frame that a batch queues for these replies.
  abbrev pub frame_for : Bytes → Bytes
  frame_for replies =
      if ltb max_response (length replies)
      then encode_item (status_byte Status.too_large, texts.response_too_large (length replies))
      else encode_item (status_byte Status.ok, replies)

  close_batch-queued :
      (out : FrameWriter) (xs : List Write)
      → IsQueue out
      → let (mark, begun) = begin out (status_byte Status.ok) in
        (out' : FrameWriter) × (close_batch hasher index texts (write_all begun xs) mark
          ≡ some out')
        × (queued out' ≡ queued out ++ frame_for (written xs))
  unfolding close_batch
  close_batch-queued out xs q =
      let total = begin-since out (status_byte Status.ok) xs q in
      elim (Bool-cases (ltb max_response (length (written xs)))) [
        | inl over ↦
            let (w, aborted, before, _) = begin-abort out (status_byte Status.ok) xs q in
            let text = texts.response_too_large (length (written xs)) in
            rw (total, over, aborted)
              (
                frame w (status_byte Status.too_large) text,
                unfold replaced in refl,
                queued-frame w (status_byte Status.too_large) text
                    ∙ ap (λ z. z ++ encode_item (status_byte Status.too_large, text)) before,
              )
        | inr within ↦ rw (total, within) (begin-end out (status_byte Status.ok) xs q)
      ]

-- A BATCH body that parses is answered as its items would be one by one, in order: a GET, SET or DEL
-- with the reply that it has by itself, any other op with a refusal. The replies are queued behind
-- what was there, as one frame with their count, or in its place a refusal when they pass the limit
-- of a response. The shards, the next address and the metric end as they do one by one.
pub batch-alone :
    (hasher : Bytes → ℕ) (index : Index hasher) (texts : Texts) (s : Served hasher index texts)
    (body : Bytes) (out : FrameWriter) (f : Frames)
    → IsQueue out
    → frames body ≡ ok f
    → let one_by_one = alone hasher index texts (collect f) s in
      let count = to_le_bytes (length (collect f) % u32_mod) in
      SameServed hasher index texts ((batch hasher index texts s body out).0) (one_by_one.0)
      × (out' : FrameWriter) × ((batch hasher index texts s body out).1 ≡ some out')
      × (queued out' ≡ queued out ++ frame_for hasher index texts (count ++ written one_by_one.1))
unfolding batch collect
batch-alone hasher index texts s body out f q parses =
    rw parses (unfold batch_parsed in items_alone (collect_loop f.left f))
  where
    closed :
        (items : List (ℕ × Bytes)) {ws : List Write}
        → (run_items hasher index texts (length items) items s).1 ≡ ws
        → let count = to_le_bytes (length items % u32_mod) in
          (out' : FrameWriter) × ((batch_items hasher index texts s items out).1 ≡ some out')
          × (queued out' ≡ queued out ++ frame_for hasher index texts (count ++ written ws))
    closed items e =
        let count = to_le_bytes (length items % u32_mod) in
        let run = run_items hasher index texts (length items) items s in
        unfold batch_items in
        subst
          (λ zs.
            (out' : FrameWriter) × ((batch_items hasher index texts s items out).1 ≡ some out')
            × (queued out' ≡ queued out ++ frame_for hasher index texts (count ++ written zs)))
          e (close_batch-queued hasher index texts out (copied count ∷ run.1) q)

    items_alone :
        (items : List (ℕ × Bytes))
        → let one_by_one = alone hasher index texts items s in
          let count = to_le_bytes (length items % u32_mod) in
          SameServed hasher index texts
            ((batch_items hasher index texts s items out).0)
            (one_by_one.0)
          × (out' : FrameWriter) × ((batch_items hasher index texts s items out).1 ≡ some out')
          × (queued out'
              ≡ queued out ++ frame_for hasher index texts (count ++ written one_by_one.1))
    items_alone items =
        let count = to_le_bytes (length items % u32_mod) in
        let a =
          run_items-alone hasher index texts (length items) items s s (omega arith)
            (SameServed-refl hasher index texts s) in
        let run = run_items hasher index texts (length items) items s in
        let (out', is, holds) = closed items a.writes in
        unfold batch_items in (a.state, out', is, holds)
