-- ===== src/Io/Reader/Chunks.antt =====
-- The loop of the connections over a reader: serve what is buffered, then read more.
use oxicache.Common.{
  ℕ, zero, suc, ◌+◌, ◌≤◌, ◌<◌, ◌≡◌, refl, sym, ap, ◌∙◌, inl, inr, List, [], ◌∷◌, ◌++◌,
}
use oxicache.Common.{
  arith, Option, none, some, Option-cases, length-drop, true, Result, ok, err, Bool-cases, ltb,
  ltb→lt, ltb→le,
}
use oxicache.Common.{
  append_assoc, append-nil, length, drop, All, Bytes, length-append, drop-append_eq, append_longer,
  append-eq-nil,
}
use oxicache.Wire.Items.{Fits, encode_item, encode_items}
use oxicache.Wire.{encode_header}
use oxicache.Io.Reader.{
  FrameReader, release, advance, next_buffered, new, fill, make_room, shrink, grow, request_of,
  is_nil, Allocator,
}
use oxicache.Io.Reader.Stream.{
  pending, next_buffered-short, length-framed, next_buffered_complete, next_buffered-partial,
}
use mathlib.Core.Path.{subst}

-- One result of `next_buffered`, with what the loop does afterwards.
unfoldable pub serve :
    (FrameReader → List (ℕ × Bytes) × FrameReader)
    → FrameReader × Result ℕ (Option (ℕ × Bytes))
    → List (ℕ × Bytes) × FrameReader
serve more (r, err e) = ([], r)
serve more (r, ok none) = ([], r)
serve more (r, ok (some frame)) = let (frames, r') = more r in (frame ∷ frames, r')

-- Every frame that is buffered, and the reader afterwards.
unfoldable pub drain : ℕ → FrameReader → List (ℕ × Bytes) × FrameReader
unfolding serve
drain zero r = ([], r)
drain (suc fuel) r = serve (drain fuel) (next_buffered r)

-- A frame takes five bytes at least, so this fuel is enough.
unfoldable pub drain_all : FrameReader → List (ℕ × Bytes) × FrameReader
drain_all r = drain (suc (length r.buf)) r

-- The frames that a reader yields while the stream arrives in these chunks.
unfoldable pub run : Allocator → FrameReader → List Bytes → List (ℕ × Bytes)
run a r [] = (drain_all r).0
run a r (c ∷ cs) = let (frames, r') = drain_all r in frames ++ run a (fill a r' (some c)).0 cs

abbrev pub join : List Bytes → Bytes
join [] = []
join (c ∷ cs) = c ++ join cs

-- The reader takes the frame.
abbrev pub Accepted : ℕ → ℕ × Bytes → Type 0
Accepted limit item = Fits item × (length (item.1) ≤ limit)

abbrev pub Short : List (ℕ × Bytes) → Bytes → Type 0
Short [] p = Unit {0}
Short (item ∷ items) p = length p < 5 + length (item.1)

-- `d` holds the first of the items, and its reader the part of the next one that has arrived.
record DrainedTo (d : List (ℕ × Bytes) × FrameReader) (r : FrameReader) (items : List (ℕ × Bytes))
    (future : Bytes) : Type 0 where
  left : List (ℕ × Bytes)
  items_are : d.0 ++ left ≡ items
  rest_is : pending (d.1) ++ future ≡ encode_items left
  short : Short left (pending (d.1))
  same_limit : d.1.max_frame ≡ r.max_frame
  still : All (Accepted r.max_frame) left

drain_frame :
    (fuel : ℕ) (r r' : FrameReader) (frame : ℕ × Bytes)
    → next_buffered r ≡ (r', ok (some frame))
    → drain (suc fuel) r ≡ (frame ∷ (drain fuel r').0, (drain fuel r').1)
unfolding drain
drain_frame fuel r r' frame e = ap (serve (drain fuel)) e

drain-none :
    (fuel : ℕ) (r r' : FrameReader)
    → next_buffered r ≡ (r', ok none)
    → drain (suc fuel) r ≡ ([], r')
unfolding drain
drain-none fuel r r' e = ap (serve (drain fuel)) e

drained_nil :
    (fuel : ℕ) (r : FrameReader) (future : Bytes)
    → pending r ++ future ≡ encode_items []
    → DrainedTo (drain (suc fuel) r) r [] future
unfolding encode_items release
drained_nil fuel r future e =
    let none_left = append-eq-nil (pending r) future e in
    subst (λ d. DrainedTo d r [] future)
      (sym (drain-none fuel r _ (next_buffered-short r (omega (arith, ap length none_left)))))
      (record {
        left = [];
        items_are = refl;
        rest_is = e;
        short = tt;
        same_limit = refl;
        still = tt;
      })

drain-Drained :
    (fuel : ℕ) (r : FrameReader) (items : List (ℕ × Bytes)) (future : Bytes)
    → length (pending r) < fuel
    → All (Accepted r.max_frame) items
    → pending r ++ future ≡ encode_items items
    → DrainedTo (drain fuel r) r items future
unfolding encode_items encode_item release
drain-Drained zero r items future h ok_items e = absurd (omega arith)
drain-Drained (suc fuel) r [] future h ok_items e = drained_nil fuel r future e
drain-Drained (suc fuel) r ((tag, body) ∷ items) future h ok_items e =
    elim (Bool-cases (ltb (length (pending r)) (5 + length body))) [
      | inl short ↦
          let (need, stop) =
            next_buffered-partial r tag body (encode_items items) future (ok_items.0.0)
              (ok_items.0.1) e (ltb→lt _ _ short) in
          subst (λ d. DrainedTo d r ((tag, body) ∷ items) future) (sym (drain-none fuel r _ stop))
            (record {
              left = (tag, body) ∷ items;
              items_are = refl;
              rest_is = e;
              short = ltb→lt _ _ short;
              same_limit = refl;
              still = ok_items;
            })
      | inr long ↦
          let item : Bytes = encode_header tag (length body) ++ body in
          let size = length-framed tag body [] in
          let (p', front, back) =
            append_longer (pending r) future item (encode_items items) e
              (omega (arith, ltb→le _ _ long, length-append item [], size)) in
          let r' : FrameReader = record (release r) { need = 0; lent = 5 + length body } in
          let whole = next_buffered_complete r tag body p' (ok_items.0.0) (ok_items.0.1) front in
          let pending' : pending r' ≡ p' =
            ap (drop (5 + length body)) front
            ∙ drop-append_eq (5 + length body) item p'
                (omega (arith, length-append item [], size)) in
          let d =
            drain-Drained fuel r' items future
              (omega (
                arith,
                ap length pending',
                ap length front,
                length-append item p',
                length-append item [],
                size,
              ))
              (ok_items.1) (ap (λ z. z ++ future) pending' ∙ back) in
          subst (λ d. DrainedTo d r ((tag, body) ∷ items) future)
            (sym (drain_frame fuel r r' (tag, body) whole))
            (record {
              left = d.left;
              items_are = ap (◌∷◌ (tag, body)) d.items_are;
              rest_is = d.rest_is;
              short = d.short;
              same_limit = d.same_limit;
              still = d.still;
            })
    ]

pub all_taken :
    (left : List (ℕ × Bytes)) (p : Bytes) → p ≡ encode_items left → Short left p → left ≡ []
unfolding encode_items encode_item
all_taken [] p e short = refl
all_taken ((tag, body) ∷ items) p e short =
    absurd (omega (arith, ap length e, length-framed tag body (encode_items items)))

is_nil→eq : (b : Bytes) → is_nil b ≡ true → b ≡ []
unfolding is_nil
is_nil→eq [] e = refl
is_nil→eq (x ∷ xs) e = absurd (cc)

module _ (a : Allocator) where
  shrink_keeps :
      (r : FrameReader)
      → ((shrink a r).buf ≡ r.buf)
        × ((shrink a r).lent ≡ r.lent)
        × ((shrink a r).max_frame ≡ r.max_frame)
  unfolding shrink
  shrink_keeps r = ground (arith, is_nil→eq r.buf)

  grow_keeps :
      (r : FrameReader)
      → ((grow a r).buf ≡ r.buf) × ((grow a r).lent ≡ r.lent) × ((grow a r).max_frame ≡ r.max_frame)
  unfolding grow
  grow_keeps r = elim (Option-cases (request_of r)) [
    | inl e ↦ rw (e, grow) (refl, refl, refl)
    | inr (n, e) ↦ rw (e, grow) (refl, refl, refl)
  ]

  -- Reading more adds to what has arrived, whatever becomes of the buffer.
  pub fill_adds :
      (r : FrameReader) (c : Bytes)
      → (pending (fill a r (some c)).0 ≡ pending r ++ c)
        × ((fill a r (some c)).0.max_frame ≡ r.max_frame)
  unfolding fill make_room release advance
  fill_adds r c =
      let g = grow_keeps (shrink a (release r)) in
      let s = shrink_keeps (release r) in (rw (g.1 ∙ s.1, g.0 ∙ s.0), g.2 ∙ s.2)

  run-frames :
      (cs : List Bytes) (r : FrameReader) (items : List (ℕ × Bytes))
      → All (Accepted r.max_frame) items
      → pending r ++ join cs ≡ encode_items items
      → run a r cs ≡ items
  unfolding run drain_all
  run-frames [] r items h e =
      let d =
        drain-Drained (suc (length r.buf)) r items [] (omega (arith, length-drop r.lent r.buf)) h
          e in
      let done =
        all_taken d.left (pending (drain_all r).1) (sym (append-nil _) ∙ d.rest_is) d.short in
      sym (append-nil _) ∙ ap (◌++◌ _) (sym done) ∙ d.items_are
  run-frames (c ∷ cs) r items h e =
      let d =
        drain-Drained (suc (length r.buf)) r items (c ++ join cs)
          (omega (arith, length-drop r.lent r.buf)) h e in
      let r' : FrameReader = (drain_all r).1 in
      let (adds, same) = fill_adds r' c in
      ap (◌++◌ _) (
        run-frames cs (fill a r' (some c)).0 d.left
          (subst (λ n. All (Accepted n) d.left) (sym (same ∙ d.same_limit)) d.still)
          (ap (λ z. z ++ join cs) adds ∙ append_assoc (pending r') c (join cs) ∙ d.rest_is))
      ∙ d.items_are

  -- A fresh reader yields exactly the frames that the peer sent, in order, however the stream is
  -- cut into reads. No body is over the accepted length.
  pub run-new :
      (limit : ℕ) (cs : List Bytes) (items : List (ℕ × Bytes))
      → All (Accepted limit) items
      → join cs ≡ encode_items items
      → run a (new a limit) cs ≡ items
  run-new limit cs items h e = unfold new in run-frames cs (new a limit) items h e
