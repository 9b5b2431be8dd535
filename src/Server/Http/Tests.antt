-- ===== src/Server/Http/Tests.antt =====
-- Two requests to an empty server: a ping with the token, and one without.
use oxicache.Common.{ℕ, ◌≡◌, refl, [], ◌∷◌, none, some, true, false, Bytes}
use oxicache.Wire.{Op}
use oxicache.Cache.Index.Listed.{listed}
use oxicache.Cache.Store.{new_cache}
use oxicache.Server.Connection.{ct_eq, differences}
use oxicache.Server.Dispatch.{Texts, Served}
use oxicache.Server.Http.{
  Method, BodyRead, Request, Response, HttpTexts, Front, Route, same_path, strip_prefix, bearer_of,
  is_token, is_post, authorized, route_of, handle,
}
use oxicache.Server.Http.Admission.{handle-unauthorized}
use oxicache.Server.Http.Exchange.{Exchanged, handle-dispatch}

abbrev hasher : Bytes → ℕ
hasher key = 12297829382473034410

abbrev no_texts : Texts
no_texts = record {
  response_too_large = λ n. [];
  entry_too_large = λ e. [];
  bad_body = λ e. [];
  unknown_op = λ op. [];
  not_in_batch = λ op. [];
}

abbrev no_http_texts : HttpTexts
no_http_texts = record {
  unknown_path = λ p. [];
  use_get = [];
  use_post = [];
  claims_too_much = λ n. [];
  over_limit = [];
}

abbrev rendered : Served hasher (listed hasher) no_texts → Bytes
rendered s = []

abbrev token : Bytes
token = 5 ∷ 6 ∷ []

abbrev idle : Front hasher (listed hasher) no_texts no_http_texts rendered token
idle = record {
  served = record {
    cache = new_cache hasher (listed hasher) 4000 3;
    pending = record { entries = 0; bytes = 0 };
    next = 1;
    set_too_large = 0;
  };
  auth_failures = 0;
}

-- POST /ping with "Bearer " and the token.
abbrev ping : Request
ping = record {
  method = Method.post;
  path = 47 ∷ 112 ∷ 105 ∷ 110 ∷ 103 ∷ [];
  authorization = some (66 ∷ 101 ∷ 97 ∷ 114 ∷ 101 ∷ 114 ∷ 32 ∷ 5 ∷ 6 ∷ []);
  claimed = 0;
  body = BodyRead.whole [];
}

abbrev anonymous : Request
anonymous = record ping { authorization = none }

ping_path : route_of ping.path ≡ Route.of_op Op.ping
unfolding route_of same_path
ping_path = refl

ping_post : is_post ping.method ≡ true
unfolding is_post
ping_post = refl

token_accepted : authorized ping token ≡ true
unfolding authorized bearer_of strip_prefix is_token ct_eq differences
token_accepted = refl

no_token_refused : authorized anonymous token ≡ false
unfolding authorized bearer_of is_token
no_token_refused = refl

handle-dispatch_example :
    Exchanged hasher
      (listed hasher)
      no_texts
      no_http_texts
      rendered
      token
      idle
      Op.ping
      []
      (handle hasher (listed hasher) no_texts no_http_texts rendered token idle ping)
handle-dispatch_example =
    handle-dispatch hasher (listed hasher) no_texts no_http_texts rendered token idle ping Op.ping
      [] ping_path ping_post token_accepted refl refl

handle-unauthorized_example :
    ((handle hasher (listed hasher) no_texts no_http_texts rendered token idle anonymous).0.served
      ≡ idle.served)
    × (a : Response) × ((handle hasher
          (listed hasher)
          no_texts
          no_http_texts
          rendered
          token
          idle
          anonymous).1
        ≡ some a)
    × (a.closes ≡ true)
handle-unauthorized_example =
    handle-unauthorized hasher (listed hasher) no_texts no_http_texts rendered token idle anonymous
      no_token_refused
