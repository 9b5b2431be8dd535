-- ===== src/Server/Http/Admission.antt =====
-- `handle` of crates/server/src/http.rs on requests without the token.
use oxicache.Common.{ℕ, ◌≡◌, refl, inl, inr, Option, some}
use oxicache.Common.{true, false, Bool-cases, Bytes}
use oxicache.Cache.Index.{Index}
use oxicache.Server.Dispatch.{Texts, Served}
use oxicache.Server.Http.{
  Request, Response, HttpTexts, Route, Front, reply, closing, is_get, is_post, authorized, refused,
  route_of, handle_route, handle,
}

module _ (hasher : Bytes → ℕ) (index : Index hasher) (texts : Texts) (http_texts : HttpTexts)
    (rendered : Served hasher index texts → Bytes) (token : Bytes) where
  abbrev Turned :
      Front hasher index texts http_texts rendered token
      → Front hasher index texts http_texts rendered token × Option Response
      → Type 0
  Turned s (t, r) = (t.served ≡ s.served) × (a : Response) × (r ≡ some a) × (a.closes ≡ true)

  refused-Turned :
      (s : Front hasher index texts http_texts rendered token)
      → Turned s (refused hasher index texts http_texts rendered token s)
  unfolding refused closing reply
  refused-Turned s = (refl, _, refl, refl)

  handle_route-Turned :
      (s : Front hasher index texts http_texts rendered token) (req : Request) (route : Route)
      → authorized req token ≡ false
      → Turned s (handle_route hasher index texts http_texts rendered token s req route)
  unfolding handle_route closing reply
  handle_route-Turned s req Route.health h = (refl, _, refl, refl)
  handle_route-Turned s req Route.unknown h = (refl, _, refl, refl)
  handle_route-Turned s req Route.metrics h = elim (Bool-cases (is_get req.method)) [
    | inl e ↦ rw (e, h) (refused-Turned s)
    | inr e ↦ rw e (refl, _, refl, refl)
  ]
  handle_route-Turned s req (Route.of_op op) h = elim (Bool-cases (is_post req.method)) [
    | inl e ↦ rw (e, h) (refused-Turned s)
    | inr e ↦ rw e (refl, _, refl, refl)
  ]

-- A request that does not carry the token, on whatever path, leaves the cache as it was, and is
-- answered with a response that closes its connection.
pub handle-unauthorized :
    (hasher : Bytes → ℕ) (index : Index hasher) (texts : Texts) (http_texts : HttpTexts)
    (rendered : Served hasher index texts → Bytes) (token : Bytes)
    (s : Front hasher index texts http_texts rendered token) (req : Request)
    → authorized req token ≡ false
    → ((handle hasher index texts http_texts rendered token s req).0.served ≡ s.served)
      × (a : Response) × ((handle hasher index texts http_texts rendered token s req).1 ≡ some a)
      × (a.closes ≡ true)
unfolding handle
handle-unauthorized hasher index texts http_texts rendered token s req h =
    handle_route-Turned hasher index texts http_texts rendered token s req (route_of req.path) h
