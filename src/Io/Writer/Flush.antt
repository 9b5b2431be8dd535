-- ===== src/Io/Writer/Flush.antt =====
-- A flush sends the queue, whatever portions the stream takes it in.
use oxicache.Common.{
  ℕ, suc, zero, ◌+◌, ◌-◌, ◌≤◌, ◌<◌, ◌≡◌, refl, sym, ap, ◌∙◌, inl, inr, List, [], ◌∷◌, ◌++◌, arith,
}
use oxicache.Common.{
  Bool-cases, Option, some, append_assoc, append-nil, length, take, drop, All, Bytes, length-append,
}
use oxicache.Common.{
  leb, leb→le, leb→lt, drop-drop, drop-append_le, drop-append_add, take-append_le, take-append-drop,
  length-drop,
}
use oxicache.Io.Writer.{
  Piece, piece_bytes, FrameWriter, seal, spill, flat, FlushEnd, max_iov, offered, step_over,
  flush_loop, flushed_writer, flush,
}
use oxicache.Io.Writer.Queue.{IsQueue, queued, queued-seal, chunk-seal, seal-IsQueue}

-- The offset lies in the first piece.
abbrev Inside : List Piece → ℕ → Type 0
Inside [] off = off ≡ 0
Inside (p ∷ ps) off = off < length (piece_bytes p)

abbrev Full : List Piece → Type 0
Full ps = All (λ p. 0 < length (piece_bytes p)) ps

Full-Inside : (ps : List Piece) → Full ps → Inside ps 0
Full-Inside [] h = refl
Full-Inside (p ∷ ps) h = h.0

record SteppedTo (s : List Piece × ℕ) (rest : Bytes) : Type 0 where
  rest_is : drop (s.1) (flat (s.0)) ≡ rest
  inside : Inside (s.0) (s.1)
  full : Full (s.0)

step_over-SteppedTo :
    (ps : List Piece) (off n : ℕ)
    → Full ps
    → Inside ps off
    → n ≤ length (drop off (flat ps))
    → SteppedTo (step_over ps off n) (drop n (drop off (flat ps)))
unfolding step_over
step_over-SteppedTo ps off zero f i h = record { rest_is = refl; inside = i; full = f }
step_over-SteppedTo [] off (suc n) f i h = absurd (omega (arith, length-drop {0} off (flat [])))
step_over-SteppedTo (p ∷ ps) off (suc n) f i h =
    let b : Bytes = piece_bytes p in
    let apart = drop-append_le off b (flat ps) (omega arith) in
    let left = length-drop off b in
    elim (Bool-cases (leb (length b - off) (suc n))) [
      | inl past ↦
          let n' : ℕ = suc n - (length b - off) in
          let over = leb→le _ _ past in
          let further =
            step_over-SteppedTo ps 0 n' f.1 (Full-Inside ps f.1)
              (omega (arith, ap length apart, length-append (drop off b) (flat ps), left)) in
          let skipped : drop (suc n) (drop off (b ++ flat ps)) ≡ drop n' (flat ps) =
            ap (drop (suc n)) apart
            ∙ drop-append_add (suc n) n' (drop off b) (flat ps) (omega (arith, left)) in
          rw (past, skipped) further
      | inr within ↦ rw within (record {
        rest_is = drop-drop (off + suc n) off (suc n) (b ++ flat ps) refl;
        inside = omega (arith, leb→lt _ _ within);
        full = f;
      })
    ]

-- What a write offers is the front of what is left, and not empty.
flat-take-drop : (n : ℕ) (ps : List Piece) → flat (take n ps) ++ flat (drop n ps) ≡ flat ps
flat-take-drop zero ps = refl
flat-take-drop (suc n) [] = refl
flat-take-drop (suc n) (p ∷ ps) =
    append_assoc (piece_bytes p) (flat (take n ps)) (flat (drop n ps))
    ∙ ap (◌++◌ (piece_bytes p)) (flat-take-drop n ps)

offered_front :
    (p : Piece) (ps : List Piece) (off : ℕ)
    → off < length (piece_bytes p)
    → (0 < length (offered (p ∷ ps) off))
      × (drop off (flat (p ∷ ps)) ≡ offered (p ∷ ps) off ++ flat (drop max_iov (p ∷ ps)))
unfolding offered
offered_front p ps off h =
    let some_bytes = length-append (piece_bytes p) (flat (take 63 ps)) in
    (
      omega (arith, length-drop off (flat (take max_iov (p ∷ ps))), some_bytes),
      ap (drop off) (sym (flat-take-drop max_iov (p ∷ ps)))
          ∙ drop-append_le off (flat (take max_iov (p ∷ ps))) (flat (drop max_iov (p ∷ ps)))
              (omega (arith, some_bytes)),
    )

-- What a stream is relied on for: of some bytes offered it takes at least one, and no more.
abbrev pub Takes : (ℕ → Bytes → Option ℕ) → Type 0
Takes answer =
    (i : ℕ) (b : Bytes) → 0 < length b → (n : ℕ) × (answer i b ≡ some (suc n)) × (suc n ≤ length b)

flush_loop_step :
    (fuel i n off : ℕ) (answer : ℕ → Bytes → Option ℕ) (p : Piece) (ps : List Piece) (sent : Bytes)
    → answer i (offered (p ∷ ps) off) ≡ some (suc n)
    → flush_loop (suc fuel) answer i (p ∷ ps) off sent
      ≡ flush_loop fuel answer
          (suc i)
          ((step_over (p ∷ ps) off (suc n)).0)
          ((step_over (p ∷ ps) off (suc n)).1)
          (sent ++ take (suc n) (offered (p ∷ ps) off))
unfolding flush_loop
flush_loop_step fuel i n off answer p ps sent e = rw (e, flush_loop)

flush_loop-sends :
    (fuel i off : ℕ) (answer : ℕ → Bytes → Option ℕ) (ps : List Piece) (sent : Bytes)
    → Takes answer
    → Full ps
    → Inside ps off
    → length (drop off (flat ps)) < fuel
    → flush_loop fuel answer i ps off sent ≡ (sent ++ drop off (flat ps), FlushEnd.flushed)
flush_loop-sends fuel i off answer [] sent t f inside h =
    unfold flush_loop in rw inside (ap (λ z. (z, FlushEnd.flushed)) (sym (append-nil sent)))
flush_loop-sends zero i off answer (p ∷ ps) sent t f inside h = absurd (omega arith)
flush_loop-sends (suc fuel) i off answer (p ∷ ps) sent t f inside h =
    let (offers, front) = offered_front p ps off inside in
    let o : Bytes = offered (p ∷ ps) off in
    let (n, took, few) = t i o offers in
    let x : Bytes = drop off (flat (p ∷ ps)) in
    let all_few : suc n ≤ length x =
      omega (arith, ap length front, length-append o (flat (drop max_iov (p ∷ ps)))) in
    let s = step_over-SteppedTo (p ∷ ps) off (suc n) f inside all_few in
    let same : take (suc n) o ≡ take (suc n) x =
      sym (ap (take (suc n)) front ∙ take-append_le (suc n) o (flat (drop max_iov (p ∷ ps))) few) in
    flush_loop_step fuel i n off answer p ps sent took
    ∙ flush_loop-sends fuel (suc i) _ answer _ _ t s.full s.inside
        (omega (arith, ap length s.rest_is, length-drop (suc n) x))
    ∙ ap (λ z. (z, FlushEnd.flushed))
        (rw
          (
            s.rest_is,
            same,
            append_assoc sent (take (suc n) x) (drop (suc n) x),
            take-append-drop (suc n) x,
          )
          refl)

inline_limit-seal : (w : FrameWriter) → (seal w).inline_limit ≡ w.inline_limit
unfolding seal spill
inline_limit-seal w = ground arith

-- A stream that takes the queue in any portions, however small, gets all of it, in order; the loop
-- ends, and leaves the writer empty.
pub flush-sends :
    (w : FrameWriter) (answer : ℕ → Bytes → Option ℕ)
    → IsQueue w
    → Takes answer
    → flush w answer ≡ (record w { chunk = []; pieces = []; len = 0 }, queued w, FlushEnd.flushed)
unfolding flush flushed_writer
flush-sends w answer q t =
    let q' = seal-IsQueue w q in
    let ps : List Piece = (seal w).pieces in
    let loop =
      flush_loop-sends (suc (length (flat ps))) 0 0 answer ps [] t q'.full (Full-Inside ps q'.full)
        (omega arith) in
    let all : flat ps ≡ queued w =
      sym (append-nil (flat ps)) ∙ ap (◌++◌ (flat ps)) (sym (chunk-seal w)) ∙ queued-seal w in
    rw (loop, all, chunk-seal w, inline_limit-seal w)
