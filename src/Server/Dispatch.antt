-- ===== src/Server/Dispatch.antt =====
-- `dispatch`, `value` and `batch` of crates/server/src/tcp.rs: what a request does to the cache, and
-- what is written for it. Each reply is a list of writes, made in order.
pub mod Alone
pub mod Batch
use oxicache.Common.{ℕ, zero, suc, ◌+◌, ◌%◌, List, [], ◌∷◌, ◌++◌, Option, none, some}
use oxicache.Common.{
  Bool, true, false, if◌then◌else◌, ltb, ◌==◌, length, is_some, Bytes, u32_mod, u64_mod,
  to_le_bytes, Result, ok, err,
}
use oxicache.Wire.{
  Op, op_from_u8, Status, status_byte, DecodeError, encode_header, set_body, max_frame,
}
use oxicache.Wire.Frames.{Frames, frames, collect_loop}
use oxicache.Io.Writer.{FrameWriter, Mark, inline_body, begin, since, end, abort, frame}
use oxicache.Io.Writer.Close.{Write, copied, referenced, write_all}
use oxicache.Cache.Entry.{Entry, Retired, TooLarge}
use oxicache.Cache.Index.{Index}
use oxicache.Cache.Store.{Cache, Pending, Item, get_in, get_many, set_many, del_many}

abbrev pub max_response : ℕ
max_response = max_frame

-- The wording of the replies that refuse.
pub record Texts : Type 0 where
  pub response_too_large : ℕ → Bytes
  pub entry_too_large : TooLarge → Bytes
  pub bad_body : DecodeError → Bytes
  pub unknown_op : ℕ → Bytes
  pub not_in_batch : ℕ → Bytes

-- `header` and `frame` as writes.
unfoldable pub header_of : Status → ℕ → List Write
header_of status n = copied (encode_header (status_byte status) n) ∷ []

unfoldable pub frame_of : Status → Bytes → List Write
frame_of status body =
    copied (encode_header (status_byte status) (length body)) ∷ referenced body ∷ []

unfoldable pub value_of : Entry → List Write
value_of e =
    copied (encode_header (status_byte Status.ok) (length e.value))
    ∷ (if ltb (length e.value) inline_body then copied e.value else referenced e.value)
    ∷ []

unfoldable pub found_of : Option Entry → List Write
found_of none = header_of Status.not_found 0
found_of (some e) = value_of e

unfoldable pub deleted_of : Option Retired → List Write
deleted_of r = header_of (if is_some r then Status.ok else Status.not_found) 0

-- A run of items of one op, and the rest: the loop of `next_if`.
unfoldable pub take_run : ℕ → List (ℕ × Bytes) → List Bytes × List (ℕ × Bytes)
take_run op [] = ([], [])
take_run op ((o, b) ∷ items) =
    let (bodies, rest) = take_run op items in
    if o == op then (b ∷ bodies, rest) else ([], (o, b) ∷ items)

-- A run of SET items, which a body that does not parse ends.
unfoldable pub parsed :
    Result DecodeError (Bytes × Bytes)
    → List (Bytes × Bytes) × Option DecodeError × List (ℕ × Bytes)
    → List (ℕ × Bytes)
    → List (Bytes × Bytes) × Option DecodeError × List (ℕ × Bytes)
parsed (err e) (entries, bad, rest) items = ([], some e, items)
parsed (ok entry) (entries, bad, rest) items = (entry ∷ entries, bad, rest)

unfoldable pub set_run :
    ℕ → List (ℕ × Bytes) → List (Bytes × Bytes) × Option DecodeError × List (ℕ × Bytes)
set_run op [] = ([], none, [])
set_run op ((o, b) ∷ items) =
    let run = parsed (set_body b) (set_run op items) items in
    if o == op then run else ([], none, (o, b) ∷ items)

-- Each entry is allocated at an address of its own.
unfoldable pub allocated : ℕ → List (Bytes × Bytes) → List Item
allocated id [] = []
allocated id ((k, v) ∷ entries) = (id, k, v) ∷ allocated (suc id) entries

module _ (hasher : Bytes → ℕ) (index : Index hasher) (texts : Texts) where
  -- The cache, the collector's count, the next address, and the metric that requests move.
  pub record Served : Type 0 where
    pub cache : Cache hasher index
    pub pending : Pending
    pub next : ℕ
    pub set_too_large : ℕ

  unfoldable pub get_value : Served → Bytes → Served × Option Entry
  get_value s key = let (c, e) = get_in hasher index s.cache key in (record s { cache = c }, e)

  unfoldable pub get_values : Served → List Bytes → Served × List (Option Entry)
  get_values s keys =
      let (c, es) = get_many hasher index s.cache keys in (record s { cache = c }, es)

  unfoldable pub stored :
      Served
      → ℕ
      → Cache hasher index × Pending × Result TooLarge (Unit {0})
      → Served × Result TooLarge (Unit {0})
  stored s n (c, p, ok u) = (record s { cache = c; pending = p; next = s.next + n }, ok u)
  stored s n (c, p, err e) = (record s { cache = c; pending = p }, err e)

  unfoldable pub set_values : Served → List (Bytes × Bytes) → Served × Result TooLarge (Unit {0})
  set_values s entries =
      stored s (length entries) (set_many hasher index s.cache s.pending (allocated s.next entries))

  unfoldable pub del_values : Served → List Bytes → Served × List (Option Retired)
  del_values s keys =
      let (c, p, found) = del_many hasher index s.cache s.pending keys in
      (record s { cache = c; pending = p }, found)

  unfoldable pub too_large_counted : Served → Served
  too_large_counted s = record s { set_too_large = (s.set_too_large + 1) % u64_mod }

  -- The reply to one `cache.set`.
  unfoldable pub set_reply : Served × Result TooLarge (Unit {0}) → Served × List Write
  set_reply (s, ok u) = (s, header_of Status.ok 0)
  set_reply (s, err e) = (too_large_counted s, frame_of Status.too_large (texts.entry_too_large e))

  unfoldable pub set_value : Served → Bytes × Bytes → Served × List Write
  set_value s entry = set_reply (set_values s (entry ∷ []))

  unfoldable pub set_parsed : Served → Result DecodeError (Bytes × Bytes) → Served × List Write
  set_parsed s (ok entry) = set_value s entry
  set_parsed s (err e) = (s, frame_of Status.bad_request (texts.bad_body e))

  unfoldable pub del_reply : Served × List (Option Retired) → Served × List Write
  del_reply (s, []) = (s, header_of Status.not_found 0)
  del_reply (s, r ∷ rs) = (s, deleted_of r)

  -- `MAX_RESPONSE` bounds a value that is read alone.
  unfoldable pub get_reply : Option Entry → List Write
  get_reply none = header_of Status.not_found 0
  get_reply (some e) =
      if ltb max_response (length e.value)
      then frame_of Status.too_large (texts.response_too_large (length e.value))
      else value_of e

  -- The runs of a batch.
  unfoldable pub values_of : List (Option Entry) → List Write
  values_of [] = []
  values_of (e ∷ es) = found_of e ++ values_of es

  unfoldable pub deletions_of : List (Option Retired) → List Write
  deletions_of [] = []
  deletions_of (r ∷ rs) = deleted_of r ++ deletions_of rs

  unfoldable pub oks : List (Bytes × Bytes) → List Write
  oks [] = []
  oks (entry ∷ entries) = header_of Status.ok 0 ++ oks entries

  unfoldable pub set_singly : Served → List (Bytes × Bytes) → Served × List Write
  set_singly s [] = (s, [])
  set_singly s (entry ∷ entries) =
      let (s', ws) = set_value s entry in let (s'', ws') = set_singly s' entries in (s'', ws ++ ws')

  -- All of a run at once, or, if something does not fit, one by one.
  unfoldable pub set_outcome :
      List (Bytes × Bytes) → Served × Result TooLarge (Unit {0}) → Served × List Write
  set_outcome entries (s, ok u) = (s, oks entries)
  set_outcome entries (s, err e) = set_singly s entries

  unfoldable pub bad_item : Option DecodeError → List Write
  bad_item none = []
  bad_item (some e) = frame_of Status.bad_request (texts.bad_body e)

  unfoldable pub run_gets : Served → List Bytes → Served × List Write
  run_gets s keys = let (s', es) = get_values s keys in (s', values_of es)

  unfoldable pub run_sets : Served → List (Bytes × Bytes) → Option DecodeError → Served × List Write
  run_sets s entries bad =
      let (s', ws) = set_outcome entries (set_values s entries) in (s', ws ++ bad_item bad)

  unfoldable pub run_dels : Served → List Bytes → Served × List Write
  run_dels s keys = let (s', rs) = del_values s keys in (s', deletions_of rs)

  unfoldable pub and_then :
      (Served → Served × List Write) → Served × List Write → Served × List Write
  and_then more (s, ws) = let (s', ws') = more s in (s', ws ++ ws')

  -- The run that begins with the item `(op, b)`, and `more` on what follows it.
  unfoldable pub run_op :
      (List (ℕ × Bytes) → Served → Served × List Write)
      → Served
      → ℕ
      → Bytes
      → List (ℕ × Bytes)
      → Option Op
      → Served × List Write
  run_op more s op b items (some Op.get) =
      let (keys, rest) = take_run op items in and_then (more rest) (run_gets s (b ∷ keys))
  run_op more s op b items (some Op.set) =
      let (entries, bad, rest) = parsed (set_body b) (set_run op items) items in
      and_then (more rest) (run_sets s entries bad)
  run_op more s op b items (some Op.del) =
      let (keys, rest) = take_run op items in and_then (more rest) (run_dels s (b ∷ keys))
  run_op more s op b items _ =
      and_then (more items) (s, frame_of Status.unknown_op (texts.not_in_batch op))

  -- The fuel is a bound on the number of runs.
  unfoldable pub run_items : ℕ → List (ℕ × Bytes) → Served → Served × List Write
  run_items zero items s = (s, [])
  run_items (suc fuel) [] s = (s, [])
  run_items (suc fuel) ((op, b) ∷ items) s = run_op (run_items fuel) s op b items (op_from_u8 op)

  -- The end of `batch`: the frame stands, or a refusal stands in its place. `none` is the panic of
  -- a mark that points nowhere.
  unfoldable pub replaced : ℕ → Option FrameWriter → Option FrameWriter
  replaced total none = none
  replaced total (some out) =
      some (frame out (status_byte Status.too_large) (texts.response_too_large total))

  unfoldable pub close_batch : FrameWriter → Mark → Option FrameWriter
  close_batch out mark =
      let total = since out mark in
      if ltb max_response total then replaced total (abort out mark) else end out mark

  unfoldable pub batch_items : Served → List (ℕ × Bytes) → FrameWriter → Served × Option FrameWriter
  batch_items s items out =
      let (mark, out') = begin out (status_byte Status.ok) in
      let (s', ws) = run_items (length items) items s in
      (s', close_batch (write_all out' (copied (to_le_bytes (length items % u32_mod)) ∷ ws)) mark)

  unfoldable pub batch_parsed :
      Served → Result DecodeError Frames → FrameWriter → Served × Option FrameWriter
  batch_parsed s (err e) out =
      (s, some (frame out (status_byte Status.bad_request) (texts.bad_body e)))
  batch_parsed s (ok f) out = batch_items s (collect_loop f.left f) out

  unfoldable pub batch : Served → Bytes → FrameWriter → Served × Option FrameWriter
  batch s body out = batch_parsed s (frames body) out

  unfoldable pub write_reply : Served × List Write → FrameWriter → Served × Option FrameWriter
  write_reply (s, ws) out = (s, some (write_all out ws))

  unfoldable pub dispatch_op :
      Served → ℕ → Bytes → FrameWriter → Option Op → Served × Option FrameWriter
  dispatch_op s op body out (some Op.get) =
      let (s', e) = get_value s body in write_reply (s', get_reply e) out
  dispatch_op s op body out (some Op.set) = write_reply (set_parsed s (set_body body)) out
  dispatch_op s op body out (some Op.del) = write_reply (del_reply (del_values s (body ∷ []))) out
  dispatch_op s op body out (some Op.batch) = batch s body out
  dispatch_op s op body out (some Op.auth) = write_reply (s, header_of Status.ok 0) out
  dispatch_op s op body out (some Op.ping) = write_reply (s, header_of Status.ok 0) out
  dispatch_op s op body out none =
      write_reply (s, frame_of Status.unknown_op (texts.unknown_op op)) out

  unfoldable pub dispatch : Served → ℕ → Bytes → FrameWriter → Served × Option FrameWriter
  dispatch s op body out = dispatch_op s op body out (op_from_u8 op)
