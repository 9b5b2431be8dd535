-- ===== src/Client/Replies/InOrder.antt =====
-- `read_loop` of crates/client-rs/src/lib.rs: the order of the callers.
use oxicache.Common.{
  ℕ, zero, suc, ◌≡◌, refl, sym, ap, ◌∙◌, List, [], ◌∷◌, ◌++◌, Option, none, some, append_assoc,
}
use oxicache.Common.{Bool, true, false, length, Bytes, Result, ok, err}
use oxicache.Wire.{status_from_u8}
use oxicache.Io.Reader.{Allocator, FrameReader, next_buffered_owned, fill}
use oxicache.Client.Cluster.{Error}
use oxicache.Client.Link.{Lost}
use oxicache.Client.Replies.{
  Response, Reading, response_of, fatal_in, stop_or, hand, oversized, read_frame, read_burst, Event,
  go_on, after_fill, read_loop,
}

abbrev pub callers : List (ℕ × Response) → List ℕ
callers [] = []
callers ((c, r) ∷ answers) = c ∷ callers answers

-- The callers answered, in order, and those that wait.
abbrev pub line : Reading → List ℕ
line s = callers s.answers ++ s.pending

callers-append : (xs ys : List (ℕ × Response)) → callers (xs ++ ys) ≡ callers xs ++ callers ys
callers-append [] ys = refl
callers-append ((c, r) ∷ xs) ys = ap (◌∷◌ c) (callers-append xs ys)

line-answer :
    (answers : List (ℕ × Response)) (c : ℕ) (res : Response) (waiting : List ℕ)
    → callers (answers ++ ((c, res) ∷ [])) ++ waiting ≡ callers answers ++ (c ∷ waiting)
line-answer answers c res waiting =
    ap (λ z. z ++ waiting) (callers-append answers ((c, res) ∷ []))
    ∙ append_assoc (callers answers) (c ∷ []) waiting

-- The caller at the head of the queue is answered.
hand-line :
    (more : Reading → Reading × Option Lost) (s : Reading) (res : Response) (waiting : List ℕ)
    → ((t : Reading) → line (more t).0 ≡ line t)
    → s.pending ≡ waiting
    → line (hand more s res waiting).0 ≡ line s
unfolding hand
hand-line more s res [] h e = refl
hand-line more s res (c ∷ waiting) h e =
    stopped (fatal_in res)
    ∙ line-answer s.answers c res waiting
    ∙ ap (◌++◌ (callers s.answers)) (sym e)
  where
    handed_on : Reading
    handed_on = record s { pending = waiting; answers = s.answers ++ ((c, res) ∷ []) }

    stopped : (o : Option Lost) → line (stop_or more handed_on o).0 ≡ line handed_on
    stopped none = unfold stop_or in h handed_on
    stopped (some why) = unfold stop_or in refl

oversized-line :
    (s : Reading) (n : ℕ) (waiting : List ℕ)
    → s.pending ≡ waiting
    → line (oversized s n waiting).0 ≡ line s
unfolding oversized
oversized-line s n [] e = refl
oversized-line s n (c ∷ waiting) e =
    line-answer s.answers c (err (Error.response_too_large n)) waiting
    ∙ ap (◌++◌ (callers s.answers)) (sym e)

read_frame-line :
    (more : Reading → Reading × Option Lost) (s : Reading)
    (next : FrameReader × Result ℕ (Option (ℕ × Bytes)))
    → ((t : Reading) → line (more t).0 ≡ line t)
    → line (read_frame more s next).0 ≡ line s
unfolding read_frame
read_frame-line more s (r, ok none) h = refl
read_frame-line more s (r, ok (some (byte, body))) h =
    hand-line more (record s { reader = r }) (response_of byte body (status_from_u8 byte)) s.pending
      h refl
read_frame-line more s (r, err n) h = oversized-line (record s { reader = r }) n s.pending refl

read_burst-line : (fuel : ℕ) (s : Reading) → line (read_burst fuel s).0 ≡ line s
unfolding read_burst
read_burst-line zero s = refl
read_burst-line (suc fuel) s =
    read_frame-line (read_burst fuel) s (next_buffered_owned s.reader) (read_burst-line fuel)

abbrev pub queued_in : List Event → List ℕ
queued_in [] = []
queued_in (Event.queued c ∷ events) = c ∷ queued_in events
queued_in (Event.arrived chunk ∷ events) = queued_in events

-- Those that were queued after the loop had ended.
abbrev Left : Reading → Reading → List ℕ → Type 0
Left s t queue = (later : List ℕ) × (line t ++ later ≡ line s ++ queue)

after_fill-Left :
    (more : Reading → Reading × Option Lost) (s : Reading) (next : FrameReader × Option Bool)
    (queue : List ℕ)
    → ((t : Reading) → Left t (more t).0 queue)
    → Left s (after_fill more s next).0 queue
unfolding after_fill
after_fill-Left more s (r, none) queue h = (queue, refl)
after_fill-Left more s (r, some false) queue h = (queue, refl)
after_fill-Left more s (r, some true) queue h =
    went (read_burst (suc (length r.buf)) (record s { reader = r }))
      (read_burst-line (suc (length r.buf)) (record s { reader = r }))
  where
    went : (b : Reading × Option Lost) → line b.0 ≡ line s → Left s (go_on more b).0 queue
    went (t, some why) e = unfold go_on in (queue, ap (λ z. z ++ queue) e)
    went (t, none) e = let (later, q) = h t in unfold go_on in (later, q ∙ ap (λ z. z ++ queue) e)

-- Whatever arrives, and however it is cut, the callers that have been answered and then those that
-- still wait are the callers in the order in which they were queued, each of them once; only callers
-- queued after the loop has ended are not among them.
pub read_loop-line :
    (a : Allocator) (s : Reading) (events : List Event)
    → (later : List ℕ) × (callers (read_loop a s events).0.answers
          ++ (read_loop a s events).0.pending
          ++ later
        ≡ callers s.answers ++ s.pending ++ queued_in events)
unfolding read_loop
read_loop-line a s [] = ([], refl)
read_loop-line a s (Event.queued c ∷ events) =
    let (later, e) = read_loop-line a (record s { pending = s.pending ++ (c ∷ []) }) events in
    (
      later,
      e
          ∙ ap (λ z. z ++ queued_in events)
              (sym (append_assoc (callers s.answers) s.pending (c ∷ [])))
          ∙ append_assoc (callers s.answers ++ s.pending) (c ∷ []) (queued_in events),
    )
read_loop-line a s (Event.arrived chunk ∷ events) =
    after_fill-Left (λ t. read_loop a t events) s (fill a s.reader chunk) (queued_in events)
      (λ t. read_loop-line a t events)
