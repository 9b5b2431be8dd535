-- ===== src/Server/Connection.antt =====
-- `serve_connection` of crates/server/src/tcp.rs: authentication, bursts of requests, the wait for
-- more. The requests go to `dispatch`, which is a parameter, with whatever state it keeps. What the
-- clock and the stream do at a wait is an event, and the text of an error is a parameter.
pub mod Authentication
pub mod Token
use oxicache.Common.{ℕ, zero, suc, ◌+◌, ◌*◌, ◌%◌, ◌^◌, List, [], ◌∷◌, ◌++◌, Option, none, some}
use oxicache.Common.{
  Bool, true, false, if◌then◌else◌, ◌&&◌, ◌==◌, length, Bytes, u64_mod, Result, ok, err,
}
use oxicache.Wire.{Op, op_byte, Status, status_byte, max_frame}
use oxicache.Io.Reader.{FrameReader, Allocator, set_max_frame, next_buffered, fill}
use oxicache.Io.Writer.{FrameWriter, header, frame, take_all}
use Prim.Native.Nat.{bit_xor, bit_or}

abbrev pub max_auth_frame : ℕ
max_auth_frame = 4096

-- The differences of two slices of the same length, gathered.
unfoldable pub differences : Bytes → Bytes → ℕ → ℕ
differences (x ∷ xs) (y ∷ ys) acc = differences xs ys (bit_or acc (bit_xor x y))
differences [] ys acc = acc
differences (x ∷ xs) [] acc = acc

unfoldable pub ct_eq : Bytes → Bytes → Bool
ct_eq a b = (length a == length b) && (differences a b 0 == 0)

-- `b"auth required"`.
abbrev pub auth_required : Bytes
auth_required = 97 ∷ 117 ∷ 116 ∷ 104 ∷ 32 ∷ 114 ∷ 101 ∷ 113 ∷ 117 ∷ 105 ∷ 114 ∷ 101 ∷ 100 ∷ []

-- What a wait comes to: the deadline passes, the stream fails, or the output is taken and the read
-- gives these bytes (none at the end of the stream). What a wait that fails had sent is not counted,
-- and the flush of a refusal is taken to succeed.
pub data Wait : Type 0 where
  late failed : Wait
  arrived : Bytes → Wait

pub data End : Type 0 where
  refused timed_out io_error hung_up standing : End

pub record Connection (W : Type 0) : Type 0 where
  pub authed : Bool
  pub reader : FrameReader
  pub out : FrameWriter
  pub auth_failures : ℕ
  pub world : W

module _ (W : Type 0) (dispatch : W → ℕ → Bytes → FrameWriter → W × FrameWriter) (token : Bytes)
    (too_large : ℕ → Bytes) (a : Allocator) where
  unfoldable pub admit : Connection W → FrameReader → Connection W
  admit c r = record c {
    authed = true;
    reader = set_max_frame r max_frame;
    out = header c.out (status_byte Status.ok) 0;
  }

  unfoldable pub refuse : Connection W → FrameReader → Connection W
  refuse c r = record c {
    reader = r;
    out = frame c.out (status_byte Status.unauthorized) auth_required;
    auth_failures = (c.auth_failures + 1) % u64_mod;
  }

  unfoldable pub request : Connection W → FrameReader → ℕ → Bytes → Connection W
  request c r op body =
      let (world, out) = dispatch c.world op body c.out in
      record c { reader = r; world = world; out = out }

  -- One result of `next_buffered`; `more` goes on. The Boolean says whether to close.
  unfoldable pub serve_frame :
      (Connection W → Connection W × Bool)
      → Connection W
      → FrameReader × Result ℕ (Option (ℕ × Bytes))
      → Connection W × Bool
  serve_frame more c (r, err n) = (
    record c { reader = r; out = frame c.out (status_byte Status.too_large) (too_large n) },
    true,
  )
  serve_frame more c (r, ok none) = (record c { reader = r }, false)
  serve_frame more c (r, ok (some (op, body))) =
      let served = more (request c r op body) in
      let admitted = more (admit c r) in
      if c.authed
      then served
      else if (op == op_byte Op.auth) && ct_eq token body
      then admitted
      else (refuse c r, true)

  unfoldable pub burst_loop : ℕ → Connection W → Connection W × Bool
  burst_loop zero c = (c, false)
  burst_loop (suc fuel) c = serve_frame (burst_loop fuel) c (next_buffered c.reader)

  -- Every frame that is buffered; each takes five bytes at least.
  unfoldable pub burst : Connection W → Connection W × Bool
  burst c = burst_loop (suc (length c.reader.buf)) c

  -- What has been sent, and how the connection stands.
  unfoldable pub wait :
      (Connection W → Connection W × Bytes × End) → Connection W → Wait → Connection W × Bytes × End
  wait more c Wait.late = (c, [], End.timed_out)
  wait more c Wait.failed = (c, [], End.io_error)
  wait more c (Wait.arrived []) =
      let (sent, out) = take_all c.out in
      (record c { out = out; reader = (fill a c.reader (some [])).0 }, sent, End.hung_up)
  wait more c (Wait.arrived (b ∷ bs)) =
      let (sent, out) = take_all c.out in
      let (c', sent', end) =
        more (record c { out = out; reader = (fill a c.reader (some (b ∷ bs))).0 }) in
      (c', sent ++ sent', end)

  unfoldable pub close_or :
      (Connection W → Connection W × Bytes × End) → Connection W × Bool → Connection W × Bytes × End
  close_or waits (c, true) =
      let (sent, out) = take_all c.out in (record c { out = out }, sent, End.refused)
  close_or waits (c, false) = waits c

  -- The connection through these waits; `standing` if it still stands after them.
  unfoldable pub serve_connection : Connection W → List Wait → Connection W × Bytes × End
  serve_connection c [] = close_or (λ c'. (c', [], End.standing)) (burst c)
  serve_connection c (w ∷ ws) =
      close_or (λ c'. wait (λ c''. serve_connection c'' ws) c' w) (burst c)
