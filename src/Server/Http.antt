-- ===== src/Server/Http.antt =====
-- `handle` of crates/server/src/http.rs: one exchange, over the cache and `dispatch`. A request is what
-- hyper has read of it; how its body is read, with hyper's limit, and the text of the metrics are
-- parameters, and so is the wording of the replies.
pub mod Admission
pub mod Replies
pub mod Exchange
mod Tests
use oxicache.Common.{ℕ, ◌+◌, ◌%◌, List, [], ◌∷◌, Option, none, some}
use oxicache.Common.{Bool, true, false, if◌then◌else◌, ◌&&◌, ltb, ◌==◌, Bytes, take, drop, u64_mod}
use oxicache.Wire.{Op, op_byte, Status, status_from_u8, max_frame, header_len, decode_header}
use oxicache.Io.Writer.{FrameWriter, new, take_bytes}
use oxicache.Cache.Index.{Index}
use oxicache.Server.Connection.{auth_required, ct_eq}
use oxicache.Server.Dispatch.{Texts, Served, dispatch}

pub data Method : Type 0 where
  get post other : Method

-- What reading the body comes to, under the limit.
pub data BodyRead : Type 0 where
  whole : Bytes → BodyRead
  too_long : BodyRead
  broken : Bytes → BodyRead

pub record Request : Type 0 where
  pub method : Method
  pub path : Bytes
  pub authorization : Option Bytes
  pub claimed : ℕ
  pub body : BodyRead

pub record Response : Type 0 where
  pub code : ℕ
  pub body : Bytes
  pub closes : Bool

pub record HttpTexts : Type 0 where
  pub unknown_path : Bytes → Bytes
  pub use_get : Bytes
  pub use_post : Bytes
  pub claims_too_much : ℕ → Bytes
  pub over_limit : Bytes

unfoldable pub reply : ℕ → Bytes → Response
reply code body = record { code = code; body = body; closes = false }

unfoldable pub closing : Response → Response
closing r = record r { closes = true }

unfoldable pub same_path : Bytes → Bytes → Bool
same_path [] [] = true
same_path [] (b ∷ bs) = false
same_path (a ∷ as') [] = false
same_path (a ∷ as') (b ∷ bs) = (a == b) && same_path as' bs

unfoldable pub strip_prefix : Bytes → Bytes → Option Bytes
strip_prefix [] bs = some bs
strip_prefix (a ∷ as') [] = none
strip_prefix (a ∷ as') (b ∷ bs) = let rest = strip_prefix as' bs in if a == b then rest else none

-- `b"Bearer "`.
abbrev pub bearer : Bytes
bearer = 66 ∷ 101 ∷ 97 ∷ 114 ∷ 101 ∷ 114 ∷ 32 ∷ []

unfoldable pub is_token : Bytes → Option Bytes → Bool
is_token token none = false
is_token token (some t) = ct_eq token t

unfoldable pub bearer_of : Option Bytes → Option Bytes
bearer_of none = none
bearer_of (some v) = strip_prefix bearer v

unfoldable pub authorized : Request → Bytes → Bool
authorized req token = is_token token (bearer_of req.authorization)

pub data Route : Type 0 where
  health metrics unknown : Route
  of_op : Op → Route

-- The paths, in ASCII.
unfoldable pub route_of : Bytes → Route
route_of p =
    if same_path p (47 ∷ 104 ∷ 101 ∷ 97 ∷ 108 ∷ 116 ∷ 104 ∷ [])
    then Route.health
    else if same_path p (47 ∷ 109 ∷ 101 ∷ 116 ∷ 114 ∷ 105 ∷ 99 ∷ 115 ∷ [])
    then Route.metrics
    else if same_path p (47 ∷ 103 ∷ 101 ∷ 116 ∷ [])
    then Route.of_op Op.get
    else if same_path p (47 ∷ 115 ∷ 101 ∷ 116 ∷ [])
    then Route.of_op Op.set
    else if same_path p (47 ∷ 100 ∷ 101 ∷ 108 ∷ [])
    then Route.of_op Op.del
    else if same_path p (47 ∷ 98 ∷ 97 ∷ 116 ∷ 99 ∷ 104 ∷ [])
    then Route.of_op Op.batch
    else if same_path p (47 ∷ 112 ∷ 105 ∷ 110 ∷ 103 ∷ [])
    then Route.of_op Op.ping
    else Route.unknown

unfoldable pub is_get : Method → Bool
is_get Method.get = true
is_get _ = false

unfoldable pub is_post : Method → Bool
is_post Method.post = true
is_post _ = false

unfoldable pub code_of : Option Status → ℕ
code_of (some Status.ok) = 200
code_of (some Status.not_found) = 404
code_of (some Status.bad_request) = 400
code_of (some Status.too_large) = 413
code_of (some Status.unauthorized) = 401
code_of _ = 500

-- The frame that a request was answered with, as a response.
unfoldable pub framed : Bytes → Response
framed raw =
    reply (code_of (status_from_u8 (decode_header (take header_len raw)).0)) (drop header_len raw)

module _ (hasher : Bytes → ℕ) (index : Index hasher) (texts : Texts) (http_texts : HttpTexts)
    (rendered : Served hasher index texts → Bytes) (token : Bytes) where
  pub record Front : Type 0 where
    pub served : Served hasher index texts
    pub auth_failures : ℕ

  unfoldable pub refused : Front → Front × Option Response
  refused s = (
    record s { auth_failures = (s.auth_failures + 1) % u64_mod },
    some (closing (reply 401 auth_required)),
  )

  unfoldable pub answered :
      Front → Served hasher index texts × Option FrameWriter → Front × Option Response
  answered s (served, none) = (record s { served = served }, none)
  answered s (served, some out) = (record s { served = served }, some (framed (take_bytes out).0))

  unfoldable pub serve_body : Front → Op → BodyRead → Front × Option Response
  serve_body s op too_long = (s, some (reply 413 http_texts.over_limit))
  serve_body s op (broken why) = (s, some (reply 400 why))
  serve_body s op (whole body) =
      answered s (dispatch hasher index texts s.served (op_byte op) body new)

  unfoldable pub serve_op : Front → Request → Op → Front × Option Response
  serve_op s req op =
      let served = serve_body s op req.body in
      if ltb max_frame req.claimed
      then (s, some (reply 413 (http_texts.claims_too_much req.claimed)))
      else served

  -- `none` is the panic of `dispatch`.
  unfoldable pub handle_route : Front → Request → Route → Front × Option Response
  handle_route s req Route.health = (s, some (closing (reply 200 [])))
  handle_route s req Route.metrics =
      if is_get req.method
      then (if authorized req token then (s, some (reply 200 (rendered s.served))) else refused s)
      else (s, some (closing (reply 405 http_texts.use_get)))
  handle_route s req (Route.of_op op) =
      let served = serve_op s req op in
      if is_post req.method
      then (if authorized req token then served else refused s)
      else (s, some (closing (reply 405 http_texts.use_post)))
  handle_route s req Route.unknown =
      (s, some (closing (reply 404 (http_texts.unknown_path req.path))))

  unfoldable pub handle : Front → Request → Front × Option Response
  handle s req = handle_route s req (route_of req.path)
