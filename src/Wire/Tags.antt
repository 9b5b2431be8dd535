-- ===== src/Wire/Tags.antt =====
-- The request and response tags of crates/wire/src/lib.rs.
use oxicache.Common.{ℕ, Option, none, some, if◌then◌else◌, ◌==◌}

pub data Op : Type 0 where
  get set del auth ping batch : Op

abbrev pub op_byte : Op → ℕ
op_byte Op.get = 1
op_byte Op.set = 2
op_byte Op.del = 3
op_byte Op.auth = 4
op_byte Op.ping = 5
op_byte Op.batch = 6

unfoldable pub op_from_u8 : ℕ → Option Op
op_from_u8 b =
    if b == 1
    then some Op.get
    else if b == 2
    then some Op.set
    else if b == 3
    then some Op.del
    else if b == 4
    then some Op.auth
    else if b == 5
    then some Op.ping
    else if b == 6
    then some Op.batch
    else none

pub data Status : Type 0 where
  ok bad_request unknown_op too_large unauthorized not_found : Status

abbrev pub status_byte : Status → ℕ
status_byte Status.ok = 0
status_byte Status.bad_request = 1
status_byte Status.unknown_op = 2
status_byte Status.too_large = 3
status_byte Status.unauthorized = 4
status_byte Status.not_found = 5

unfoldable pub status_from_u8 : ℕ → Option Status
status_from_u8 b =
    if b == 0
    then some Status.ok
    else if b == 1
    then some Status.bad_request
    else if b == 2
    then some Status.unknown_op
    else if b == 3
    then some Status.too_large
    else if b == 4
    then some Status.unauthorized
    else if b == 5
    then some Status.not_found
    else none
