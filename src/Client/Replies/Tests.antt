-- ===== src/Client/Replies/Tests.antt =====
-- A connection with two callers, one of whom is answered, and a client whose attempts fail.
use oxicache.Common.{
  ℕ, ◌+◌, ◌≡◌, ◌≢◌, refl, ◌⊎◌, arith, List, [], ◌∷◌, Option, none, some, Result, ok, err, min,
}
use oxicache.Io.Reader.{Allocator}
use oxicache.Client.Link.{
  Fatal, Setback, Failed, Link, Inner, Losses, current, recover, recover_settled, settled,
  settled_up, is_conn, attempted, fresh,
}
use oxicache.Client.Link.Dead.{recover-ok}
use oxicache.Client.Link.Call.{
  Recovery, Reply, call, on_conn, conn_of, sent_first, resend, recovered,
}
use oxicache.Client.Link.{usable, try_again, current_link}
use oxicache.Client.Cluster.{Error}
use oxicache.Wire.{Status}
use oxicache.Client.Link.Waits.{failing, failing-not_before}
use oxicache.Client.Replies.{Reading, Event}
use oxicache.Client.Replies.Handed.{Handed}

abbrev exact : Allocator
exact = record {
  with_capacity = λ n. n;
  reserve = λ len cap n. len + n;
  with_capacity_enough = λ n. omega arith;
  reserve_enough = λ len cap n. omega arith;
}

abbrev nobody : Reading
nobody = record {
  reader = record { buf = []; capacity = 65536; max_frame = 1000; need = 0; lent = 0 };
  pending = [];
  answers = [];
}

-- Two callers, and the reply to one.
abbrev one_of_two : List Event
one_of_two =
    Event.queued 4 ∷ Event.queued 5 ∷ Event.arrived (some (0 ∷ 1 ∷ 0 ∷ 0 ∷ 0 ∷ 9 ∷ [])) ∷ []

abbrev all_live : Losses
all_live conn = none

abbrev dead_client : Inner
dead_client = record {
  link = Link.dead Fatal.desync;
  delay = 100;
  not_before = 0;
  last = none;
  attempts = 3;
  reconnects = 1;
}

abbrev replaced_client : Inner
replaced_client = record dead_client { link = Link.up 9 }

abbrev seven : Option ℕ
seven = some 7

abbrev eight_opened : Result Failed ℕ
eight_opened = ok 8

recover_finds : (recover all_live replaced_client 3 seven 50 eight_opened).1 ≡ ok 9
unfolding recover recover_settled settled settled_up is_conn
recover_finds = refl

recover-ok_example : (eight_opened ≡ ok 9) ⊎ ((all_live 9 ≡ none) × (seven ≢ some 9))
recover-ok_example = recover-ok all_live replaced_client 3 seven 50 eight_opened 9 recover_finds

failing-not_before_example :
    (attempted
      (failing (fresh dead_client 0) ((10, Setback.io) ∷ (120, Setback.closed) ∷ []))
      400
      (err (Failed.setback Setback.io))).0.not_before
    ≡ 400 + min 400 5000
failing-not_before_example =
    failing-not_before dead_client 0 ((10, Setback.io) ∷ (120, Setback.closed) ∷ []) 400 Setback.io

abbrev closed_under : ℕ → Reply
closed_under conn = err Error.closed

abbrev answers_nine : ℕ → Reply
answers_nine conn = ok (Status.ok, 9 ∷ [])

abbrev opens_eight : Recovery
opens_eight = record { lost = all_live; seen = 3; now = 50; outcome = ok 8 }

abbrev nothing_else : Inner → Inner
nothing_else i = i

-- The connection 9 is closed under the request, which goes out again on the connection 8.
sent_on_both :
    (call closed_under answers_nine opens_eight opens_eight nothing_else all_live
      replaced_client).sent
    ≡ 9 ∷ 8 ∷ []
unfolding call on_conn conn_of sent_first resend recovered current current_link usable recover
    recover_settled settled settled_up is_conn try_again attempted fresh
sent_on_both = refl
