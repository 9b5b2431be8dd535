-- ===== src/Server/Http/Exchange.antt =====
-- `handle` of crates/server/src/http.rs on admitted requests.
use oxicache.Common.{ℕ, ◌≡◌, refl, sym, ap, ◌∙◌, arith, [], ◌++◌, Option, none, some}
use oxicache.Common.{true, false, ltb, Bytes}
use oxicache.Wire.{
  Op, op_byte, Status, status_byte, status_from_u8, max_frame, encode_header, decode_header,
}
use oxicache.Wire.Items.{encode_item}
use oxicache.Io.Writer.{FrameWriter, new, with_inline_limit, take_bytes, take_all}
use oxicache.Io.Writer.Queue.{IsQueue, queued, take_bytes-eq-take_all}
use oxicache.Cache.Index.{Index}
use oxicache.Server.Dispatch.{Texts, Served, dispatch}
use oxicache.Server.Http.{
  Request, Response, BodyRead, HttpTexts, Front, Route, reply, code_of, framed, is_post, authorized,
  answered, serve_body, serve_op, handle_route, handle, route_of,
}
use mathlib.Core.Path.{subst}
use oxicache.Server.Http.Replies.{Known, Replied, dispatch-Replied}

-- The frame as a response.
status-known : (st : Status) → status_from_u8 (status_byte st) ≡ some st
unfolding status_from_u8
status-known Status.ok = refl
status-known Status.not_found = refl
status-known Status.bad_request = refl
status-known Status.too_large = refl
status-known Status.unauthorized = refl
status-known Status.unknown_op = refl

framed-encode_item :
    (st : Status) (b : Bytes)
    → framed (encode_item (status_byte st, b)) ≡ reply (code_of (some st)) b
unfolding framed encode_item encode_header decode_header
framed-encode_item st b = ap (λ o. reply (code_of o) b) (status-known st)

new-IsQueue : IsQueue new
unfolding new with_inline_limit
new-IsQueue = record { counted = refl; full = tt; limited = omega arith }

queued-new : queued new ≡ []
unfolding new with_inline_limit
queued-new = refl

take_bytes-queued : (w : FrameWriter) → (take_bytes w).0 ≡ queued w
take_bytes-queued w = ap (λ z. z.0) (take_bytes-eq-take_all w) ∙ unfold take_all in refl

module _ (hasher : Bytes → ℕ) (index : Index hasher) (texts : Texts) (http_texts : HttpTexts)
    (rendered : Served hasher index texts → Bytes) (token : Bytes) where
  -- What an exchange comes to: the frame of `dispatch`, and its status as the code.
  abbrev pub Exchanged :
      Front hasher index texts http_texts rendered token
      → Op
      → Bytes
      → Front hasher index texts http_texts rendered token × Option Response
      → Type 0
  Exchanged s o body (t, r) =
      (st : Status) × (b : Bytes) × (out : FrameWriter) × Known st
      × (dispatch hasher index texts s.served (op_byte o) body new ≡ (t.served, some out))
      × (queued out ≡ encode_item (status_byte st, b))
      × (r ≡ some (reply (code_of (some st)) b))

  answered-Exchanged :
      (s : Front hasher index texts http_texts rendered token) (o : Op) (body : Bytes)
      (d : Served hasher index texts × Option FrameWriter)
      → dispatch hasher index texts s.served (op_byte o) body new ≡ d
      → Replied hasher index texts new d.1
      → Exchanged s o body (answered hasher index texts http_texts rendered token s d)
  unfolding answered
  answered-Exchanged s o body (served, none) e (out, st, b, is, k, q) = absurd (cc is)
  answered-Exchanged s o body (served, some w) e (out, st, b, is, k, q) =
      let same : w ≡ out = cc is in
      let holds : queued w ≡ encode_item (status_byte st, b) =
        ap queued same ∙ q ∙ ap (λ z. z ++ encode_item (status_byte st, b)) queued-new in
      (
        st,
        b,
        w,
        k,
        e,
        holds,
        ap some (ap framed (take_bytes-queued w ∙ holds) ∙ framed-encode_item st b),
      )

-- A POST that carries the token, to the path of an op, with a whole body that is not announced as too
-- long, does to the cache what the op's frame does over TCP, and is answered with that frame: its body,
-- and the code of its status, which is 200, 404, 400 or 413.
pub handle-dispatch :
    (hasher : Bytes → ℕ) (index : Index hasher) (texts : Texts) (http_texts : HttpTexts)
    (rendered : Served hasher index texts → Bytes) (token : Bytes)
    (s : Front hasher index texts http_texts rendered token) (req : Request) (o : Op) (body : Bytes)
    → route_of req.path ≡ Route.of_op o
    → is_post req.method ≡ true
    → authorized req token ≡ true
    → ltb max_frame req.claimed ≡ false
    → req.body ≡ BodyRead.whole body
    → Exchanged hasher index texts http_texts rendered token s o body
        (handle hasher index texts http_texts rendered token s req)
handle-dispatch hasher index texts http_texts rendered token s req o body path post auth fits
      whole =
    subst (Exchanged hasher index texts http_texts rendered token s o body) (sym steps) (
      answered-Exchanged hasher index texts http_texts rendered token s o body
        (dispatch hasher index texts s.served (op_byte o) body new) refl
        (dispatch-Replied hasher index texts s.served body new o new-IsQueue))
  where
    routed :
        handle hasher index texts http_texts rendered token s req
        ≡ serve_op hasher index texts http_texts rendered token s req o
    routed = unfold handle handle_route in rw (path, post, auth) refl

    served :
        serve_op hasher index texts http_texts rendered token s req o
        ≡ answered hasher index texts http_texts rendered token s
            (dispatch hasher index texts s.served (op_byte o) body new)
    served = unfold serve_op serve_body in rw (fits, whole) refl

    steps :
        handle hasher index texts http_texts rendered token s req
        ≡ answered hasher index texts http_texts rendered token s
            (dispatch hasher index texts s.served (op_byte o) body new)
    steps = routed ∙ served
