-- ===== src/Server/Http/Replies.antt =====
-- The frames that `dispatch` of crates/server/src/tcp.rs writes for a known op.
use oxicache.Common.{
  ℕ, ◌%◌, ◌≡◌, refl, sym, ap, ◌∙◌, inl, inr, List, [], ◌∷◌, ◌++◌, Option, none, some, append_assoc,
  append-nil,
}
use oxicache.Common.{
  Bool-cases, is_some, ltb, length, Bytes, Result, ok, err, Result-cases, to_le_bytes, u32_mod,
}
use oxicache.Wire.{
  Op, op_byte, op_from_u8, Status, status_byte, DecodeError, set_body, encode_header,
}
use oxicache.Wire.Frames.{Frames, frames, collect}
use oxicache.Wire.Items.{encode_item}
use oxicache.Io.Writer.{FrameWriter, frame, inline_body, put_slice, put_bytes}
use oxicache.Io.Writer.Queue.{IsQueue, queued, queued-put_slice, queued-put_bytes, queued-frame}
use oxicache.Io.Writer.Close.{Write, copied, referenced, write, write_all, written}
use oxicache.Cache.Entry.{Entry, Retired, TooLarge}
use oxicache.Cache.Index.{Index}
use oxicache.Server.Dispatch.{
  Texts, Served, max_response, header_of, frame_of, value_of, deleted_of, get_reply, get_value,
  set_reply, set_value, set_values, set_parsed, del_reply, del_values, batch, batch_parsed,
  write_reply, dispatch_op, dispatch,
}
use oxicache.Server.Dispatch.Alone.{alone}
use oxicache.Server.Dispatch.Batch.{frame_for, batch-alone}
use mathlib.Core.Path.{subst}

-- The statuses that a known op is answered with.
abbrev pub Known : Status → Type 0
Known Status.ok = Unit {0}
Known Status.not_found = Unit {0}
Known Status.bad_request = Unit {0}
Known Status.too_large = Unit {0}
Known _ = ⊥

queued-write_all :
    (w : FrameWriter) (xs : List Write) → queued (write_all w xs) ≡ queued w ++ written xs
unfolding write_all write
queued-write_all w [] = sym (append-nil (queued w))
queued-write_all w (copied b ∷ xs) =
    queued-write_all (put_slice w b) xs
    ∙ ap (λ z. z ++ written xs) (queued-put_slice w b)
    ∙ append_assoc (queued w) b (written xs)
queued-write_all w (referenced b ∷ xs) =
    queued-write_all (put_bytes w b) xs
    ∙ ap (λ z. z ++ written xs) (queued-put_bytes w b)
    ∙ append_assoc (queued w) b (written xs)

-- Writes that make one frame.
abbrev Framed : List Write → Type 0
Framed ws = (st : Status) × (b : Bytes) × Known st × (written ws ≡ encode_item (status_byte st, b))

header_of-Framed : (st : Status) → Known st → Framed (header_of st 0)
unfolding header_of encode_item
header_of-Framed st k = (st, [], k, refl)

frame_of-Framed : (st : Status) (b : Bytes) → Known st → Framed (frame_of st b)
unfolding frame_of encode_item
frame_of-Framed st b k =
    (st, b, k, ap (◌++◌ (encode_header (status_byte st) (length b))) (append-nil b))

value_of-Framed : (e : Entry) → Framed (value_of e)
unfolding value_of encode_item
value_of-Framed e = elim (Bool-cases (ltb (length e.value) inline_body)) [
  | inl h ↦ rw h (
    Status.ok,
    e.value,
    tt,
    ap (◌++◌ (encode_header (status_byte Status.ok) (length e.value))) (append-nil e.value),
  )
  | inr h ↦ rw h (
    Status.ok,
    e.value,
    tt,
    ap (◌++◌ (encode_header (status_byte Status.ok) (length e.value))) (append-nil e.value),
  )
]

module _ (hasher : Bytes → ℕ) (index : Index hasher) (texts : Texts) where
  get_reply-Framed : (o : Option Entry) → Framed (get_reply hasher index texts o)
  unfolding get_reply
  get_reply-Framed none = header_of-Framed Status.not_found tt
  get_reply-Framed (some e) = elim (Bool-cases (ltb max_response (length e.value))) [
    | inl h ↦ rw h (frame_of-Framed Status.too_large (texts.response_too_large (length e.value)) tt)
    | inr h ↦ rw h (value_of-Framed e)
  ]

  set_reply-Framed :
      (r : Served hasher index texts × Result TooLarge (Unit {0}))
      → Framed (set_reply hasher index texts r).1
  unfolding set_reply
  set_reply-Framed (s, ok u) = header_of-Framed Status.ok tt
  set_reply-Framed (s, err e) = frame_of-Framed Status.too_large (texts.entry_too_large e) tt

  set_parsed-Framed :
      (s : Served hasher index texts) (r : Result DecodeError (Bytes × Bytes))
      → Framed (set_parsed hasher index texts s r).1
  unfolding set_parsed set_value
  set_parsed-Framed s (ok entry) = set_reply-Framed (set_values hasher index texts s (entry ∷ []))
  set_parsed-Framed s (err e) = frame_of-Framed Status.bad_request (texts.bad_body e) tt

  del_reply-Framed :
      (r : Served hasher index texts × List (Option Retired))
      → Framed (del_reply hasher index texts r).1
  unfolding del_reply deleted_of is_some
  del_reply-Framed (s, []) = header_of-Framed Status.not_found tt
  del_reply-Framed (s, none ∷ rs) = header_of-Framed Status.not_found tt
  del_reply-Framed (s, some r ∷ rs) = header_of-Framed Status.ok tt

  -- One frame more is queued.
  abbrev pub Replied : FrameWriter → Option FrameWriter → Type 0
  Replied out o =
      (out' : FrameWriter) × (st : Status) × (b : Bytes) × (o ≡ some out')
      × Known st
      × (queued out' ≡ queued out ++ encode_item (status_byte st, b))

  write_reply-Replied :
      (r : Served hasher index texts × List Write) (out : FrameWriter)
      → Framed r.1
      → Replied out (write_reply hasher index texts r out).1
  unfolding write_reply
  write_reply-Replied (s, ws) out (st, b, k, e) =
      (write_all out ws, st, b, refl, k, queued-write_all out ws ∙ ap (◌++◌ (queued out)) e)

  frame_for-Replied :
      (out out' : FrameWriter) (o : Option FrameWriter) (replies : Bytes)
      → o ≡ some out'
      → queued out' ≡ queued out ++ frame_for hasher index texts replies
      → Replied out o
  frame_for-Replied out out' o replies is e =
      elim (Bool-cases (ltb max_response (length replies))) [
        | inl h ↦ (
          out',
          Status.too_large,
          texts.response_too_large (length replies),
          is,
          tt,
          e ∙ rw h refl,
        )
        | inr h ↦ (out', Status.ok, replies, is, tt, e ∙ rw h refl)
      ]

  batch-eq :
      (s : Served hasher index texts) (body : Bytes) (out : FrameWriter)
      (r : Result DecodeError Frames)
      → frames body ≡ r
      → (batch hasher index texts s body out).1 ≡ (batch_parsed hasher index texts s r out).1
  unfolding batch
  batch-eq s body out r e = ap (λ z. (batch_parsed hasher index texts s z out).1) e

  batch_parsed-err :
      (s : Served hasher index texts) (x : DecodeError) (out : FrameWriter)
      → (batch_parsed hasher index texts s (err x) out).1
        ≡ some (frame out (status_byte Status.bad_request) (texts.bad_body x))
  unfolding batch_parsed
  batch_parsed-err s x out = refl

  batch-Replied :
      (s : Served hasher index texts) (body : Bytes) (out : FrameWriter)
      → IsQueue out
      → Replied out (batch hasher index texts s body out).1
  batch-Replied s body out q = elim (Result-cases (frames body)) [
    | inl (f, e) ↦
        let (same, out', is, holds) = batch-alone hasher index texts s body out f q e in
        frame_for-Replied out out' (batch hasher index texts s body out).1
          (to_le_bytes (length (collect f) % u32_mod)
            ++ written (alone hasher index texts (collect f) s).1)
          is holds
    | inr (x, e) ↦ refused x e
  ]
    where
      refused :
          (x : DecodeError)
          → frames body ≡ err x
          → Replied out (batch hasher index texts s body out).1
      refused x e = (
        frame out (status_byte Status.bad_request) (texts.bad_body x),
        Status.bad_request,
        texts.bad_body x,
        batch-eq s body out (err x) e ∙ batch_parsed-err s x out,
        tt,
        queued-frame out (status_byte Status.bad_request) (texts.bad_body x),
      )

  dispatch_op-Replied :
      (s : Served hasher index texts) (body : Bytes) (out : FrameWriter) (o : Op)
      → IsQueue out
      → Replied out (dispatch_op hasher index texts s (op_byte o) body out (some o)).1
  unfolding dispatch_op
  dispatch_op-Replied s body out Op.get q =
      let r = get_value hasher index texts s body in
      write_reply-Replied (r.0, get_reply hasher index texts r.1) out (get_reply-Framed r.1)
  dispatch_op-Replied s body out Op.set q =
      write_reply-Replied (set_parsed hasher index texts s (set_body body)) out
        (set_parsed-Framed s (set_body body))
  dispatch_op-Replied s body out Op.del q =
      write_reply-Replied
        (del_reply hasher index texts (del_values hasher index texts s (body ∷ []))) out
        (del_reply-Framed (del_values hasher index texts s (body ∷ [])))
  dispatch_op-Replied s body out Op.batch q = batch-Replied s body out q
  dispatch_op-Replied s body out Op.auth q =
      write_reply-Replied (s, header_of Status.ok 0) out (header_of-Framed Status.ok tt)
  dispatch_op-Replied s body out Op.ping q =
      write_reply-Replied (s, header_of Status.ok 0) out (header_of-Framed Status.ok tt)

  op-known : (o : Op) → op_from_u8 (op_byte o) ≡ some o
  unfolding op_from_u8
  op-known Op.get = refl
  op-known Op.set = refl
  op-known Op.del = refl
  op-known Op.batch = refl
  op-known Op.auth = refl
  op-known Op.ping = refl

  pub dispatch-Replied :
      (s : Served hasher index texts) (body : Bytes) (out : FrameWriter) (o : Op)
      → IsQueue out
      → Replied out (dispatch hasher index texts s (op_byte o) body out).1
  unfolding dispatch
  dispatch-Replied s body out o q =
      subst (λ z. Replied out (dispatch_op hasher index texts s (op_byte o) body out z).1)
        (sym (op-known o)) (dispatch_op-Replied s body out o q)
