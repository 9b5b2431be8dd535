-- ===== src/Client/Replies/Handed.antt =====
-- `read_loop` of crates/client-rs/src/lib.rs: the replies of one burst, each handed to a caller.
use oxicache.Common.{
  ℕ, zero, suc, ◌+◌, ◌<◌, ◌≡◌, ◌≢◌, refl, sym, ap, ◌∙◌, inl, inr, List, [], ◌∷◌, ◌++◌, arith,
}
use oxicache.Common.{
  Option, none, some, Bool-cases, length, Bytes, ok, All, ltb, ltb→lt, ltb→le, append_assoc,
  append-nil, append_longer, length-append, append-eq-nil,
}
use oxicache.Wire.{Status, status_from_u8, encode_header}
use oxicache.Wire.Items.{encode_item, encode_items}
use oxicache.Io.Reader.{FrameReader, next_buffered_owned}
use oxicache.Io.Reader.Stream.{pending, length-framed}
use oxicache.Io.Reader.Chunks.{Accepted, Short}
use oxicache.Io.Reader.Owned.{Gives, owned-whole, owned-short, owned-partial}
use oxicache.Client.Link.{Fatal, Lost}
use oxicache.Client.Replies.{
  Response, Reading, response_of, fatal_in, stop_or, hand, read_frame, read_burst,
}
use mathlib.Core.Path.{subst}

abbrev pub responses : List (ℕ × Response) → List Response
responses [] = []
responses ((c, r) ∷ answers) = r ∷ responses answers

-- What a reply says to its caller.
abbrev pub response : ℕ × Bytes → Response
response (byte, body) = response_of byte body (status_from_u8 byte)

abbrev pub all_responses : List (ℕ × Bytes) → List Response
all_responses [] = []
all_responses (frame ∷ frames) = response frame ∷ all_responses frames

-- Why the loop stops: nobody waits for the next reply, or the last reply's status is not known.
abbrev pub Stopped : Reading → (done left : List (ℕ × Bytes)) → Lost → Type 0
Stopped t done left (Lost.fatal Fatal.desync) = (t.pending ≡ []) × (left ≢ [])
Stopped t done left (Lost.fatal (Fatal.invalid_status byte)) =
    (before : List (ℕ × Bytes)) × (body : Bytes) × (done ≡ before ++ ((byte, body) ∷ []))
    × (status_from_u8 byte ≡ none)
Stopped t done left _ = ⊥

abbrev pub Ends :
    (Reading → List (ℕ × Bytes) → Type 0)
    → Reading
    → (done left : List (ℕ × Bytes)) → Option Lost
    → Type 0
Ends P t done left none = P t left
Ends P t done left (some why) = Stopped t done left why

-- The first frames have been handed out, in order; `P` holds of the others while the loop goes on.
abbrev pub Handed :
    (Reading → List (ℕ × Bytes) → Type 0)
    → Reading
    → List (ℕ × Bytes)
    → Reading × Option Lost
    → Type 0
Handed P s frames (t, why) =
    (done : List (ℕ × Bytes)) × (left : List (ℕ × Bytes)) × (done ++ left ≡ frames)
    × (responses t.answers ≡ responses s.answers ++ all_responses done)
    × Ends P t done left why

-- The frames that the stream still has, `future` of them not arrived yet.
abbrev pub Awaits : Bytes → Reading → List (ℕ × Bytes) → Type 0
Awaits future t left =
    (pending t.reader ++ future ≡ encode_items left)
    × All (Accepted t.reader.max_frame) left
    × Short left (pending t.reader)

responses-append :
    (xs ys : List (ℕ × Response)) → responses (xs ++ ys) ≡ responses xs ++ responses ys
responses-append [] ys = refl
responses-append ((c, r) ∷ xs) ys = ap (◌∷◌ r) (responses-append xs ys)

all_responses-append :
    (xs ys : List (ℕ × Bytes)) → all_responses (xs ++ ys) ≡ all_responses xs ++ all_responses ys
all_responses-append [] ys = refl
all_responses-append (x ∷ xs) ys = ap (◌∷◌ (response x)) (all_responses-append xs ys)

Ends-later :
    (P : Reading → List (ℕ × Bytes) → Type 0) (t : Reading) (xs done left : List (ℕ × Bytes))
    (why : Option Lost)
    → Ends P t done left why
    → Ends P t (xs ++ done) left why
Ends-later P t xs done left none h = h
Ends-later P t xs done left (some Lost.transient) h = h
Ends-later P t xs done left (some (Lost.fatal Fatal.unauthorized)) h = h
Ends-later P t xs done left (some (Lost.fatal Fatal.desync)) h = h
Ends-later P t xs done left (some (Lost.fatal (Fatal.invalid_status byte))) (before, body, e, h) =
    (xs ++ before, body, ap (◌++◌ xs) e ∙ sym (append_assoc xs before ((byte, body) ∷ [])), h)

-- Frames handed out after others.
pub Handed-after :
    (P : Reading → List (ℕ × Bytes) → Type 0) (s t : Reading) (xs frames : List (ℕ × Bytes))
    (r : Reading × Option Lost)
    → responses t.answers ≡ responses s.answers ++ all_responses xs
    → Handed P t frames r
    → Handed P s (xs ++ frames) r
Handed-after P s t xs frames (u, why) e (done, left, parts, said, ends) = (
  xs ++ done,
  left,
  append_assoc xs done left ∙ ap (◌++◌ xs) parts,
  said
      ∙ ap (λ z. z ++ all_responses done) e
      ∙ append_assoc (responses s.answers) (all_responses xs) (all_responses done)
      ∙ ap (◌++◌ (responses s.answers)) (sym (all_responses-append xs done)),
  Ends-later P u xs done left why ends,
)

-- Only an unknown status ends the loop.
fatal_in-known :
    (byte : ℕ) (body : Bytes) (st : Status) → fatal_in (response_of byte body (some st)) ≡ none
unfolding fatal_in response_of
fatal_in-known byte body Status.ok = refl
fatal_in-known byte body Status.bad_request = refl
fatal_in-known byte body Status.unknown_op = refl
fatal_in-known byte body Status.too_large = refl
fatal_in-known byte body Status.unauthorized = refl
fatal_in-known byte body Status.not_found = refl

fatal_in-unknown :
    (byte : ℕ) (body : Bytes)
    → fatal_in (response_of byte body none) ≡ some (Lost.fatal (Fatal.invalid_status byte))
unfolding fatal_in response_of
fatal_in-unknown byte body = refl

-- One frame, handed to the caller at the head of the queue.
hand-Handed :
    (P : Reading → List (ℕ × Bytes) → Type 0) (more : Reading → Reading × Option Lost) (s : Reading)
    (byte : ℕ) (body : Bytes) (rest : List (ℕ × Bytes)) (waiting : List ℕ)
    → s.pending ≡ waiting
    → ((t : Reading) → t.reader ≡ s.reader → Handed P t rest (more t))
    → Handed P s ((byte, body) ∷ rest) (hand more s (response (byte, body)) waiting)
unfolding hand
hand-Handed P more s byte body rest [] e h =
    ([], (byte, body) ∷ rest, refl, sym (append-nil _), (e, λ q. cc q))
hand-Handed P more s byte body rest (c ∷ waiting) e h = stopped (status_from_u8 byte) refl
  where
    handed_on : Reading
    handed_on = record s {
      pending = waiting;
      answers = s.answers ++ ((c, response (byte, body)) ∷ []);
    }

    said : responses handed_on.answers ≡ responses s.answers ++ (response (byte, body) ∷ [])
    said = responses-append s.answers ((c, response (byte, body)) ∷ [])

    stopped :
        (st : Option Status)
        → status_from_u8 byte ≡ st
        → Handed P s
            ((byte, body) ∷ rest)
            (stop_or more handed_on (fatal_in (response_of byte body (status_from_u8 byte))))
    stopped none q =
        subst (λ o. Handed P s ((byte, body) ∷ rest) (stop_or more handed_on o))
          (sym (ap (λ z. fatal_in (response_of byte body z)) q ∙ fatal_in-unknown byte body))
          (unfold stop_or in ((byte, body) ∷ [], rest, refl, said, ([], body, refl, q)))
    stopped (some st) q =
        subst (λ o. Handed P s ((byte, body) ∷ rest) (stop_or more handed_on o))
          (sym (ap (λ z. fatal_in (response_of byte body z)) q ∙ fatal_in-known byte body st))
          (unfold stop_or in
            Handed-after P s handed_on ((byte, body) ∷ []) rest (more handed_on) said
              (h handed_on refl))

read_burst-gives :
    (fuel : ℕ) (s : Reading) (r : FrameReader) (byte : ℕ) (body : Bytes)
    → next_buffered_owned s.reader ≡ (r, ok (some (byte, body)))
    → read_burst (suc fuel) s
      ≡ hand (read_burst fuel) (record s { reader = r }) (response (byte, body)) s.pending
unfolding read_burst
read_burst-gives fuel s r byte body e =
    ap (read_frame (read_burst fuel) s) e ∙ unfold read_frame in refl

read_burst-waits :
    (fuel : ℕ) (s : Reading) (r : FrameReader)
    → next_buffered_owned s.reader ≡ (r, ok none)
    → read_burst (suc fuel) s ≡ (record s { reader = r }, none)
unfolding read_burst
read_burst-waits fuel s r e = ap (read_frame (read_burst fuel) s) e ∙ unfold read_frame in refl

-- Nothing is handed out while the next frame has not all arrived.
waits-Handed :
    (fuel : ℕ) (s : Reading) (frames : List (ℕ × Bytes)) (future : Bytes)
    → Gives s.reader none (pending s.reader)
    → Awaits future s frames
    → Handed (Awaits future) s frames (read_burst (suc fuel) s)
waits-Handed fuel s frames future (r, e, same, limit) (whole, accepted, short) =
    subst (Handed (Awaits future) s frames) (sym (read_burst-waits fuel s r e)) (
      [],
      frames,
      refl,
      sym (append-nil _),
      (
        ap (λ z. z ++ future) same ∙ whole,
        subst (λ n. All (Accepted n) frames) (sym limit) accepted,
        subst (Short frames) (sym same) short,
      ),
    )

pub read_burst-Handed :
    (fuel : ℕ) (s : Reading) (frames : List (ℕ × Bytes)) (future : Bytes)
    → length (pending s.reader) < fuel
    → pending s.reader ++ future ≡ encode_items frames
    → All (Accepted s.reader.max_frame) frames
    → Handed (Awaits future) s frames (read_burst fuel s)
unfolding encode_items encode_item
read_burst-Handed zero s frames future h e accepted = absurd (omega (arith, h))
read_burst-Handed (suc fuel) s [] future h e accepted =
    let none_left = append-eq-nil (pending s.reader) future e in
    waits-Handed fuel s [] future (owned-short s.reader (omega (arith, ap length none_left)))
      (e, accepted, tt)
read_burst-Handed (suc fuel) s ((byte, body) ∷ frames) future h e ((fits, small), accepted) =
    elim (Bool-cases (ltb (length (pending s.reader)) (5 + length body))) [
      | inl short ↦
          let few = ltb→lt _ _ short in
          waits-Handed fuel s ((byte, body) ∷ frames) future
            (owned-partial s.reader byte body (encode_items frames) future fits small e few)
            (e, ((fits, small), accepted), few)
      | inr long ↦
          let item : Bytes = encode_header byte (length body) ++ body in
          let size = length-framed byte body [] in
          let (rest, front, back) =
            append_longer (pending s.reader) future item (encode_items frames) e
              (omega (arith, ltb→le _ _ long, length-append item [], size)) in
          let (r, gives, left, limit) = owned-whole s.reader byte body rest fits small front in
          subst (Handed (Awaits future) s ((byte, body) ∷ frames))
            (sym (read_burst-gives fuel s r byte body gives))
            (hand-Handed (Awaits future) (read_burst fuel) (record s { reader = r }) byte body
              frames s.pending refl
              (λ t same.
                read_burst-Handed fuel t frames future
                  (omega (
                    arith,
                    h,
                    ap (λ z. length (pending z)) same,
                    ap length left,
                    ap length front,
                    length-append item rest,
                    length-append item [],
                    size,
                  ))
                  (ap (λ z. pending z ++ future) same ∙ ap (λ z. z ++ future) left ∙ back)
                  (subst (λ n. All (Accepted n) frames) (sym (ap (λ z. z.max_frame) same ∙ limit))
                    accepted)))
    ]
