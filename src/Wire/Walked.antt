-- ===== src/Wire/Walked.antt =====
-- The unchecked reads of the `Frames` iterator stay inside the body, and what is accepted is the
-- encoding of what is yielded.
use oxicache.Common.{◌⊎◌, ℕ, zero, suc, ◌-◌, ◌≤◌, ◌≡◌, ◌≢◌, refl, sym, ap, ◌∙◌, List, [], ◌∷◌, ◌++◌}
use oxicache.Common.{
  arith, append_assoc, length, take, drop, All, All-drop, All-take, Bytes, IsByte, to_le_bytes,
}
use oxicache.Common.{some, take-append-drop, length-take, inl, inr}
use oxicache.Common.{
  ok, err, ◌>>=◌, if◌then◌else◌, Result-cases, ltb, ltb→le, ==-suc, Bool-cases, to-from_le_bytes,
}
use mathlib.Core.Path.{subst}
use oxicache.Wire.{
  DecodeError, max_items, header_len, encode_header, decode_header, split_len, split_count,
}
use oxicache.Wire.Frames.{
  Frames, walk, check_end, frames, next, collect, collect_loop, decode_replies,
}
use oxicache.Wire.Items.{encode_item, encode_items, encode_batch}
use oxicache.Wire.Parsing.{collect_loop-next}

-- Both reads of a round lie inside `rest`.
pub InBounds : Bytes → Type 0
InBounds rest =
    (header_len ≤ length rest)
    × ((decode_header (take header_len rest)).1 ≤ length (drop header_len rest))

-- What is left after a round.
abbrev pub after_item : Bytes → Bytes
after_item rest = drop ((decode_header (take header_len rest)).1) (drop header_len rest)

split_len-cases :
    (b : Bytes) (n : ℕ)
    → ((n ≤ length b) × (split_len b n ≡ ok (take n b, drop n b)))
      ⊎ ((x : DecodeError) × (split_len b n ≡ err x))
unfolding split_len
split_len-cases b n = elim (Bool-cases (ltb (length b) n)) [
  | inl short ↦ inr (DecodeError.truncated (n - length b), rw short)
  | inr enough ↦ inl (ltb→le (length b) n enough, rw enough)
]

walk_inv :
    (n : ℕ) (rest r : Bytes)
    → walk (suc n) rest ≡ ok r
    → InBounds rest × (walk n (after_item rest) ≡ ok r)
unfolding walk InBounds
walk_inv n rest r e = elim (split_len-cases rest header_len) [
  | inr (x, f) ↦ absurd (cc (rw f at e))
  | inl (enough, f) ↦
      let e' = rw f at e in
      elim (split_len-cases (drop header_len rest) ((decode_header (take header_len rest)).1)) [
        | inr (x, g) ↦ absurd (cc (rw g at e'))
        | inl (fits, g) ↦ ((enough, fits), rw g at e')
      ]
]

-- The remaining frames were all walked, to the end of the body.
abbrev pub IsWalked : Frames → Type 0
IsWalked f = walk f.left f.rest ≡ ok []

split_count_inv :
    (body rest : Bytes) (n : ℕ)
    → split_count body ≡ ok (n, rest)
    → (rest ≡ drop 4 body) × (All IsByte body → body ≡ to_le_bytes n ++ rest)
unfolding split_count
split_count_inv (a ∷ b ∷ c ∷ d ∷ r) rest n e =
    (ground arith, λ h. ground (arith, to-from_le_bytes a b c d h.0 h.1.0 h.1.1.0 h.1.1.1.0))
split_count_inv _ rest n e = absurd (cc)

check_end_inv :
    (body rest : Bytes) (n : ℕ) (f : Frames)
    → check_end body n rest ≡ ok f
    → (rest ≡ []) × (f ≡ record { rest = drop 4 body; left = n })
unfolding check_end
check_end_inv body [] n f e = (refl, ground arith)
check_end_inv body (b ∷ bs) n f e = absurd (cc)

-- Inversion of `frames`.
pub frames_inv :
    (body : Bytes) (f : Frames)
    → frames body ≡ ok f
    → (split_count body ≡ ok (f.left, drop 4 body))
      × (f.rest ≡ drop 4 body)
      × (f.left ≤ max_items)
      × IsWalked f
unfolding frames check_end
frames_inv body f e = elim (Result-cases (split_count body)) [
  | inr (x, q) ↦ absurd (cc (rw q at e))
  | inl ((n, rest), q) ↦ counted n rest q (rw q at e)
]
  where
    counted :
        (n : ℕ) (rest : Bytes)
        → split_count body ≡ ok (n, rest)
        → (if ltb max_items n
            then err (DecodeError.too_many n)
            else walk n rest >>= check_end body n)
          ≡ ok f
        → (split_count body ≡ ok (f.left, drop 4 body))
          × (f.rest ≡ drop 4 body)
          × (f.left ≤ max_items)
          × IsWalked f
    counted n rest q e' = elim (Bool-cases (ltb max_items n)) [
      | inl many ↦ absurd (cc (rw many at e'))
      | inr few ↦
          let walked = rw few at e' in
          elim (Result-cases (walk n rest)) [
            | inr (x, w) ↦ absurd (cc (rw w at walked))
            | inl (r, w) ↦
                let (done, made) = check_end_inv body r n f (rw w at walked) in
                let tail = (split_count_inv body rest n q).0 in
                rw made (cc (q, tail), refl, ltb→le max_items n few, cc (w, tail, done))
          ]
    ]

pub next-suc :
    (n : ℕ) (rest : Bytes)
    → next (record { rest = rest; left = suc n })
      ≡ some (
        (
          (decode_header (take header_len rest)).0,
          take ((decode_header (take header_len rest)).1) (drop header_len rest),
        ),
        record { rest = after_item rest; left = n },
      )
unfolding next
next-suc n rest = let pred : suc n - 1 ≡ n = omega arith in rw (==-suc n, pred)

-- While frames are left, the next one is read in bounds and leaves the rest as it was walked.
pub next-IsWalked :
    (n : ℕ) (rest : Bytes)
    → IsWalked (record { rest = rest; left = suc n })
    → InBounds rest × IsWalked (record { rest = after_item rest; left = n })
next-IsWalked n rest w = walk_inv n rest [] w

encode-decode_header :
    (h : Bytes)
    → length h ≡ 5
    → All IsByte h
    → encode_header ((decode_header h).0) ((decode_header h).1) ≡ h
unfolding encode_header decode_header
encode-decode_header (t ∷ a ∷ b ∷ c ∷ d ∷ []) e bytes = ground (arith, to-from_le_bytes a b c d)
encode-decode_header _ e bytes = absurd (omega arith)

-- A frame that is read in bounds is the encoding of its tag and its body.
read_back :
    (rest : Bytes)
    → InBounds rest
    → All IsByte rest
    → encode_item (
      (decode_header (take header_len rest)).0,
      take ((decode_header (take header_len rest)).1) (drop header_len rest),
    )
        ++ after_item rest
      ≡ rest
unfolding encode_item InBounds
read_back rest bounds h =
    let header : Bytes = take header_len rest in
    let r : Bytes = drop header_len rest in
    let len : ℕ = (decode_header header).1 in
    rw
      (
        length-take len r bounds.1,
        encode-decode_header header (length-take 5 rest bounds.0) (All-take IsByte 5 rest h),
        append_assoc header (take len r) (drop len r),
        take-append-drop len r,
      )
      (take-append-drop 5 rest)

-- What is left of a walked body is the encoding of what the iterator yields from it.
encode_items-collect_loop :
    (n : ℕ) (rest : Bytes)
    → IsWalked (record { rest = rest; left = n })
    → All IsByte rest
    → (length (collect_loop n (record { rest = rest; left = n })) ≡ n)
      × (encode_items (collect_loop n (record { rest = rest; left = n })) ≡ rest)
unfolding encode_items encode_item
encode_items-collect_loop zero rest w h = unfold collect_loop walk in (refl, cc)
encode_items-collect_loop (suc n) rest w h =
    let (bounds, walked) = next-IsWalked n rest w in
    let r : Bytes = drop header_len rest in
    let (count, again) = encode_items-collect_loop n (after_item rest) walked (
      All-drop IsByte ((decode_header (take header_len rest)).1) r
        (All-drop IsByte header_len rest h)) in
    rw (collect_loop-next n _ _ _ (next-suc n rest))
      (ap suc count, ap (◌++◌ _) again ∙ read_back rest bounds h)

-- A finished body is accepted only if it is the batch of what is yielded: no two bodies are read
-- as the same items, and re-encoding the parsed items gives the body back.
pub encode_batch-decode_replies :
    (body : Bytes) (items : List (ℕ × Bytes))
    → All IsByte body
    → decode_replies body ≡ ok items
    → (body ≡ encode_batch items) × (length items ≤ max_items)
unfolding decode_replies collect encode_batch
encode_batch-decode_replies body items h e = elim (Result-cases (frames body)) [
  | inr (x, q) ↦ absurd (cc (rw q at e))
  | inl (f, q) ↦
      let (counted, rest_is, few, walked) = frames_inv body f q in
      let (count, again) =
        encode_items-collect_loop f.left f.rest walked
          (subst (All IsByte) (sym rest_is) (All-drop IsByte 4 body h)) in
      let same : collect_loop f.left f ≡ items = cc (rw q at e) in
      rw (← same) (
        (split_count_inv body (drop 4 body) f.left counted).1 h ∙ rw (count, again, rest_is),
        rw count few,
      )
]

-- The states of an iteration that began at `f`.
pub data Iterated (f : Frames) : Frames → Type 0 where
  start : Iterated f f
  step :
      {g g' : Frames} {item : ℕ × Bytes} → Iterated f g → next g ≡ some (item, g') → Iterated f g'

next-IsWalked_step :
    (g g' : Frames) (item : ℕ × Bytes) → IsWalked g → next g ≡ some (item, g') → IsWalked g'
next-IsWalked_step g g' item w e = from_left g.left g.rest w e
  where
    from_left :
        (n : ℕ) (rest : Bytes)
        → IsWalked (record { rest = rest; left = n })
        → next (record { rest = rest; left = n }) ≡ some (item, g')
        → IsWalked g'
    from_left zero rest w e = absurd (unfold next in cc)
    from_left (suc n) rest w e = subst IsWalked (cc (next-suc n rest)) (next-IsWalked n rest w).1

Iterated-IsWalked : {f g : Frames} → IsWalked f → Iterated f g → IsWalked g
Iterated-IsWalked w start = w
Iterated-IsWalked w (step r e) = next-IsWalked_step _ _ _ (Iterated-IsWalked w r) e

-- However far a body that `frames` accepted has been iterated, the unchecked reads of the next
-- round, of the header and of the body that it announces, lie inside what is left of it.
pub frames-InBounds :
    (body : Bytes) (f g : Frames) → frames body ≡ ok f → Iterated f g → g.left ≢ 0 → InBounds g.rest
frames-InBounds body f g e r more =
    let (_, _, _, w) = frames_inv body f e in from_left g.left g.rest more (Iterated-IsWalked w r)
  where
    from_left :
        (n : ℕ) (rest : Bytes) → n ≢ 0 → IsWalked (record { rest = rest; left = n }) → InBounds rest
    from_left zero rest h w = absurd (h refl)
    from_left (suc n) rest h w = (next-IsWalked n rest w).0
