-- ===== src/Client/Link.antt =====
-- The supervisor of a connection in crates/client-rs/src/lib.rs: why attempts fail, the link, and the
-- waits between attempts. A connection is a number, and `lost` says why it has ended; what an attempt
-- to connect comes to is a parameter. Times are in milliseconds; the sleep of `recover` until its next
-- attempt is left out, `now` being the time after it. Messages of errors are left out.
pub mod Dead
pub mod Waits
pub mod Call
use oxicache.Common.{ℕ, ◌+◌, ◌*◌, ◌%◌, min, Option, none, some}
use oxicache.Common.{Bool, true, false, if◌then◌else◌, ◌==◌, not, Result, ok, err, u64_mod}
use oxicache.Wire.{Status}
use oxicache.Client.Cluster.{Error}

abbrev pub backoff_min : ℕ
backoff_min = 100

abbrev pub backoff_max : ℕ
backoff_max = 5000

pub data Fatal : Type 0 where
  unauthorized desync : Fatal
  invalid_status : ℕ → Fatal

pub data Lost : Type 0 where
  transient : Lost
  fatal : Fatal → Lost

pub data Setback : Type 0 where
  io closed : Setback
  status : Status → Setback
  response_too_large : ℕ → Setback

pub data Failed : Type 0 where
  fatal : Fatal → Failed
  setback : Setback → Failed

unfoldable pub fatal_error : Fatal → Error
fatal_error Fatal.unauthorized = Error.refused Status.unauthorized
fatal_error (Fatal.invalid_status b) = Error.invalid_status b
fatal_error Fatal.desync = Error.closed

unfoldable pub fatal_of : Error → Option Fatal
fatal_of (Error.refused Status.unauthorized) = some Fatal.unauthorized
fatal_of (Error.invalid_status b) = some (Fatal.invalid_status b)
fatal_of _ = none

unfoldable pub setback_error : Setback → Error
setback_error Setback.io = Error.io
setback_error Setback.closed = Error.closed
setback_error (Setback.status s) = Error.refused s
setback_error (Setback.response_too_large n) = Error.response_too_large n

unfoldable pub setback_of : Error → Setback
setback_of Error.io = Setback.io
setback_of (Error.refused s) = Setback.status s
setback_of (Error.response_too_large n) = Setback.response_too_large n
setback_of _ = Setback.closed

unfoldable pub failed_from : Error → Option Fatal → Failed
failed_from e (some f) = Failed.fatal f
failed_from e none = Failed.setback (setback_of e)

unfoldable pub failed_of : Error → Failed
failed_of e = failed_from e (fatal_of e)

unfoldable pub failed_error : Failed → Error
failed_error (Failed.fatal f) = fatal_error f
failed_error (Failed.setback s) = setback_error s

unfoldable pub hung_up : Lost → Failed
hung_up (Lost.fatal f) = Failed.fatal f
hung_up Lost.transient = Failed.setback Setback.closed

-- `Conn::open`: the connection, the reply to AUTH on it, and why it ended if that was a hang-up.
unfoldable pub authenticated {ℓ} : {A : Type ℓ} → ℕ → Lost → Result Error A → Result Failed ℕ
authenticated conn verdict (ok a) = ok conn
authenticated conn verdict (err Error.closed) = err (hung_up verdict)
authenticated conn verdict (err e) = err (failed_of e)

unfoldable pub open_conn {ℓ} :
    {A : Type ℓ} → Result Error ℕ → Lost → Result Error A → Result Failed ℕ
open_conn (err e) verdict auth = err (failed_of e)
open_conn (ok conn) verdict auth = authenticated conn verdict auth

pub data Link : Type 0 where
  down : Link
  up : ℕ → Link
  dead : Fatal → Link

-- `Inner` with its `Backoff`.
pub record Inner : Type 0 where
  pub link : Link
  pub delay : ℕ
  pub not_before : ℕ
  pub last : Option Setback
  pub attempts : ℕ
  pub reconnects : ℕ

abbrev pub Losses : Type 0
Losses = ℕ → Option Lost

unfoldable pub fresh : Inner → ℕ → Inner
fresh i now = record i { delay = backoff_min; not_before = now; last = none }

unfoldable pub failed : Inner → Setback → ℕ → Inner
failed i s now = record i {
  not_before = now + i.delay;
  delay = min (i.delay * 2) backoff_max;
  last = some s;
}

unfoldable pub usable : ℕ → Option Lost → Option ℕ
usable conn none = some conn
usable conn (some l) = none

unfoldable pub current_link : Losses → Link → Result Error (Option ℕ)
current_link lost (Link.up conn) = ok (usable conn (lost conn))
current_link lost Link.down = ok none
current_link lost (Link.dead f) = err (fatal_error f)

unfoldable pub current : Losses → Inner → Result Error (Option ℕ)
current lost i = current_link lost i.link

-- What `recover` finds under its lock: a connection, a fatal error, or nothing to use.
unfoldable pub is_conn : Option ℕ → ℕ → Bool
is_conn none conn = false
is_conn (some c) conn = c == conn

unfoldable pub settled_up : ℕ → Option ℕ → Option Lost → Option (Result Fatal ℕ)
settled_up conn before (some (Lost.fatal f)) = some (err f)
settled_up conn before (some Lost.transient) = none
settled_up conn before none = if is_conn before conn then none else some (ok conn)

unfoldable pub settled : Losses → Option ℕ → Link → Option (Result Fatal ℕ)
settled lost before (Link.up conn) = settled_up conn before (lost conn)
settled lost before Link.down = none
settled lost before (Link.dead f) = some (err f)

-- The end of an attempt.
unfoldable pub attempted : Inner → ℕ → Result Failed ℕ → Inner × Result Error ℕ
attempted i now (ok conn) = (
  record (fresh i now) {
    link = Link.up conn;
    reconnects = (i.reconnects + 1) % u64_mod;
    attempts = (i.attempts + 1) % u64_mod;
  },
  ok conn,
)
attempted i now (err (Failed.fatal f)) =
    (record i { link = Link.dead f; attempts = (i.attempts + 1) % u64_mod }, err (fatal_error f))
attempted i now (err (Failed.setback s)) =
    (record (failed i s now) { attempts = (i.attempts + 1) % u64_mod }, err (setback_error s))

unfoldable pub try_again : Inner → ℕ → ℕ → Result Failed ℕ → Option Setback → Inner × Result Error ℕ
try_again i seen now outcome none = attempted i now outcome
try_again i seen now outcome (some s) =
    let again = attempted i now outcome in
    if i.attempts == seen then again else (i, err (setback_error s))

unfoldable pub recover_settled :
    Inner → ℕ → ℕ → Result Failed ℕ → Option (Result Fatal ℕ) → Inner × Result Error ℕ
recover_settled i seen now outcome (some (ok conn)) = (i, ok conn)
recover_settled i seen now outcome (some (err f)) =
    (record i { link = Link.dead f }, err (fatal_error f))
recover_settled i seen now outcome none =
    try_again (record i { link = Link.down }) seen now outcome i.last

-- `recover` from the moment it holds the lock: `seen` is the count of attempts before it waited for
-- it, `before` the connection that failed, and `outcome` what `Conn::open` comes to, at `now`.
unfoldable pub recover :
    Losses → Inner → ℕ → Option ℕ → ℕ → Result Failed ℕ → Inner × Result Error ℕ
recover lost i seen before now outcome =
    recover_settled i seen now outcome (settled lost before i.link)
