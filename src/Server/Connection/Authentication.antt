-- ===== src/Server/Connection/Authentication.antt =====
-- Nothing is served before the token.
use oxicache.Common.{ℕ, ◌≡◌, ◌⊎◌}
use oxicache.Common.{true, Bytes}
use oxicache.Io.Reader.{Allocator}
use oxicache.Io.Writer.{FrameWriter}
use oxicache.Server.Connection.{Connection}

module _ (W : Type 0) (dispatch : W → ℕ → Bytes → FrameWriter → W × FrameWriter) (token : Bytes)
    (too_large : ℕ → Bytes) (a : Allocator) where
  -- The connection has been admitted, or nothing has been dispatched for it.
  Guarded : W → Connection W → Type 0
  Guarded world c = (c.authed ≡ true) ⊎ (c.world ≡ world)
