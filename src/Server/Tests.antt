-- ===== src/Server/Tests.antt =====
-- A connection that sends a request before the token.
use oxicache.Common.{ℕ, suc, ◌+◌, ◌≡◌, refl, List, [], ◌∷◌, arith, false, Bytes, ◌↔◌, true}
use oxicache.Wire.{encode_header, decode_header, split_count, split_len}
use oxicache.Io.Reader.{
  Allocator, advance, release, head, lend, next_buffered, fill, make_room, grow, shrink, is_nil,
  request_of, want_of, half_arrived, pending_of, set_max_frame,
}
use oxicache.Io.Writer.{
  FrameWriter, header, frame, put_slice, put_bytes, spill_for, spill, seal, take_all,
}
use oxicache.Server.Connection.{
  Connection, Wait, End, max_auth_frame, admit, refuse, request, ct_eq, differences, serve_frame,
  burst_loop, burst, wait, close_or, serve_connection,
}
use oxicache.Common.{◌↔◌, true}
use oxicache.Server.Connection.Token.{ct_eq_iff}
use oxicache.Common.{◌++◌, ◌%◌, length, some, ok, u32_mod, to_le_bytes}
use oxicache.Wire.Frames.{Frames, frames, walk, check_end, collect}
use oxicache.Io.Writer.{new, with_inline_limit}
use oxicache.Io.Writer.Queue.{IsQueue, queued}
use oxicache.Io.Writer.Close.{written}
use oxicache.Cache.Index.Listed.{listed}
use oxicache.Cache.Store.{new_cache}
use oxicache.Server.Dispatch.{Texts, Served, batch}
use oxicache.Server.Dispatch.Alone.{alone}
use oxicache.Server.Dispatch.Alone.Runs.{SameServed}
use oxicache.Server.Dispatch.Batch.{frame_for, batch-alone}

abbrev exact : Allocator
exact = record {
  with_capacity = λ n. n;
  reserve = λ len cap n. len + n;
  with_capacity_enough = λ n. omega arith;
  reserve_enough = λ len cap n. omega arith;
}

-- The state counts the requests.
abbrev counting : ℕ → ℕ → Bytes → FrameWriter → ℕ × FrameWriter
counting n op body out = (suc n, out)

abbrev no_text : ℕ → Bytes
no_text n = []

abbrev fresh : Connection ℕ
fresh = record {
  authed = false;
  reader = record { buf = []; capacity = 65536; max_frame = max_auth_frame; need = 0; lent = 0 };
  out = record { chunk = []; pieces = []; inline_limit = 1024; len = 0 };
  auth_failures = 0;
  world = 0;
}

-- GET of a one-byte key.
abbrev early_get : List Wait
early_get = Wait.arrived (1 ∷ 1 ∷ 0 ∷ 0 ∷ 0 ∷ 7 ∷ []) ∷ []

early_get_refused :
    (serve_connection ℕ counting (5 ∷ []) no_text exact fresh early_get).2 ≡ End.refused
unfolding serve_connection burst burst_loop serve_frame wait close_or refuse admit request ct_eq
    differences next_buffered head lend release advance fill make_room grow shrink is_nil request_of
    want_of half_arrived pending_of set_max_frame decode_header encode_header header frame put_slice
    put_bytes spill_for spill seal take_all
early_get_refused = refl

abbrev a_token : Bytes
a_token = 5 ∷ 6 ∷ []

abbrev near_miss : Bytes
near_miss = 5 ∷ 7 ∷ []

ct_eq_iff_example : (ct_eq a_token near_miss ≡ true) ↔ (a_token ≡ near_miss)
ct_eq_iff_example = ct_eq_iff a_token near_miss

abbrev hasher : Bytes → ℕ
hasher key = 12297829382473034410

abbrev no_texts : Texts
no_texts = record {
  response_too_large = λ n. [];
  entry_too_large = λ e. [];
  bad_body = λ e. [];
  unknown_op = λ op. [];
  not_in_batch = λ op. [];
}

abbrev empty_server : Served hasher (listed hasher) no_texts
empty_server = record {
  cache = new_cache hasher (listed hasher) 4000 3;
  pending = record { entries = 0; bytes = 0 };
  next = 1;
  set_too_large = 0;
}

-- Two items: SET of the key 7 to 8, and GET of 7.
abbrev two_items : Frames
two_items = record {
  rest = 2 ∷ 6 ∷ 0 ∷ 0 ∷ 0 ∷ 1 ∷ 0 ∷ 0 ∷ 0 ∷ 7 ∷ 8 ∷ 1 ∷ 1 ∷ 0 ∷ 0 ∷ 0 ∷ 7 ∷ [];
  left = 2;
}

abbrev two_body : Bytes
two_body = 2 ∷ 0 ∷ 0 ∷ 0 ∷ two_items.rest

two_body-frames : frames two_body ≡ ok two_items
unfolding frames walk check_end split_count split_len decode_header
two_body-frames = refl

new-IsQueue : IsQueue new
unfolding new with_inline_limit
new-IsQueue = record { counted = refl; full = tt; limited = omega arith }

batch-alone_example :
    SameServed hasher
      (listed hasher)
      no_texts
      ((batch hasher (listed hasher) no_texts empty_server two_body new).0)
      ((alone hasher (listed hasher) no_texts (collect two_items) empty_server).0)
    × (out' : FrameWriter) × ((batch hasher (listed hasher) no_texts empty_server two_body new).1
        ≡ some out')
    × (queued out'
        ≡ queued new
          ++ frame_for hasher (listed hasher) no_texts (
              to_le_bytes (length (collect two_items) % u32_mod)
              ++ written
                  ((alone hasher (listed hasher) no_texts (collect two_items) empty_server).1)))
batch-alone_example =
    batch-alone hasher (listed hasher) no_texts empty_server two_body new two_items new-IsQueue
      two_body-frames
