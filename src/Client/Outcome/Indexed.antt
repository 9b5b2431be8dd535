-- ===== src/Client/Outcome/Indexed.antt =====
-- `batch_body` of crates/client-rs/src/lib.rs: the index of one server's replies.
use oxicache.Common.{
  ℕ, zero, suc, ◌+◌, ◌-◌, ◌%◌, ◌^◌, ◌<◌, ◌≡◌, ◌≢◌, refl, sym, ap, ◌∙◌, inl, inr, arith, [], ◌∷◌,
  ◌++◌, none, some, append_assoc,
}
use oxicache.Common.{
  Bool-cases, ◌==◌, ==_iff, length, get_elem?, take, drop, Bytes, u32_mod, Result, ok, err,
  length-append, take-append-drop,
}
use oxicache.Wire.{DecodeError, header_len, decode_header}
use oxicache.Wire.Frames.{Frames, frames, collect, collect_loop}
use oxicache.Wire.Walked.{after_item, next-suc, frames_inv}
use oxicache.Client.Cluster.{Error}
use oxicache.Client.Cluster.Places.{Reply, Reads, Reads-answer}
use oxicache.Client.Cluster.Merged.{collect_loop-suc}
use mathlib.Core.Path.{subst}
use oxicache.Wire.{Status, status_from_u8}
use oxicache.Common.{Option, none}
use oxicache.Client.Cluster.{Place}
use oxicache.Client.Outcome.{answer_in, sliced, slice, get, get_place, get_known, known}
use oxicache.Client.Outcome.{Outcome, answer, indexed, index_replies, batch_body}

-- The parts of what is left before an item.
abbrev header_part : Bytes → Bytes
header_part rest = take header_len rest

abbrev body_part : Bytes → Bytes
body_part rest = take ((decode_header (take header_len rest)).1) (drop header_len rest)

parts : (rest : Bytes) → rest ≡ header_part rest ++ body_part rest ++ after_item rest
parts rest = sym (
    append_assoc (header_part rest) (body_part rest) (after_item rest)
    ∙ ap (◌++◌ (header_part rest))
        (take-append-drop ((decode_header (take header_len rest)).1) (drop header_len rest))
    ∙ take-append-drop header_len rest)

indexed-suc :
    (total n : ℕ) (rest : Bytes)
    → indexed total (suc n) (record { rest = rest; left = suc n })
      ≡ (
        (decode_header (take header_len rest)).0,
        (total - length (after_item rest) - length (body_part rest)) % u32_mod,
        length (body_part rest) % u32_mod,
      )
        ∷ indexed total n (record { rest = after_item rest; left = n })
unfolding indexed
indexed-suc total n rest =
    ap
      (λ o. elim o [
        | none ↦ []
        | some ((status, b), f') ↦
            (status, (total - length f'.rest - length b) % u32_mod, length b % u32_mod)
            ∷ indexed total n f'
      ])
      (next-suc n rest)

no_item :
    (rest : Bytes) (k : ℕ) (r : Reply)
    → get_elem? (collect_loop 0 (record { rest = rest; left = 0 })) k ≢ some r
unfolding collect_loop
no_item rest k r h = cc h

first-Reads :
    (body pre : Bytes) (n : ℕ) (rest : Bytes)
    → body ≡ pre ++ rest
    → length body < u32_mod
    → Reads body
        (indexed (length body) (suc n) (record { rest = rest; left = suc n }))
        0
        ((decode_header (take header_len rest)).0, body_part rest)
first-Reads body pre n rest e s =
    let apart : body ≡ pre ++ header_part rest ++ body_part rest ++ after_item rest =
      e
      ∙ ap (◌++◌ pre) (parts rest)
      ∙ sym (append_assoc pre (header_part rest ++ body_part rest) (after_item rest))
      ∙ ap (λ z. z ++ after_item rest)
          (sym (append_assoc pre (header_part rest) (body_part rest))) in
    let front = pre ++ header_part rest in
    let sizes : length body ≡ length front + length (body_part rest) + length (after_item rest) =
      ap length apart
      ∙ length-append (front ++ body_part rest) (after_item rest)
      ∙ ap (λ z. z + length (after_item rest)) (length-append front (body_part rest)) in
    let offset : (length body - length (after_item rest) - length (body_part rest)) % u32_mod
        ≡ length front =
      omega (arith, sizes, s) in
    let size : length (body_part rest) % u32_mod ≡ length (body_part rest) =
      omega (arith, sizes, s) in
    record {
      before = front;
      after = after_item rest;
      split = apart;
      placed =
          ap (λ xs. get_elem? xs 0) (indexed-suc (length body) n rest)
          ∙ (λ i. some ((decode_header (take header_len rest)).0, offset i, size i));
    }

-- In a body that begins with `pre`, the items of `rest` stand where their index says.
indexed-Reads :
    (body pre : Bytes) (n : ℕ) (rest : Bytes) (k : ℕ) (r : Reply)
    → body ≡ pre ++ rest
    → length body < u32_mod
    → get_elem? (collect_loop n (record { rest = rest; left = n })) k ≡ some r
    → Reads body (indexed (length body) n (record { rest = rest; left = n })) k r
indexed-Reads body pre zero rest k r e s h = absurd (no_item rest k r h)
indexed-Reads body pre (suc n) rest zero r e s h =
    let here : r ≡ ((decode_header (take header_len rest)).0, body_part rest) =
      cc (ap (λ xs. get_elem? xs 0) (collect_loop-suc n rest), h) in
    subst (Reads body (indexed (length body) (suc n) (record { rest = rest; left = suc n })) 0)
      (sym here) (first-Reads body pre n rest e s)
indexed-Reads body pre (suc n) rest (suc k) r e s h =
    let split : body ≡ (pre ++ (header_part rest ++ body_part rest)) ++ after_item rest =
      e
      ∙ ap (◌++◌ pre) (parts rest)
      ∙ sym (append_assoc pre (header_part rest ++ body_part rest) (after_item rest)) in
    let later =
      indexed-Reads body (pre ++ (header_part rest ++ body_part rest)) n (after_item rest) k r split
        s (ap (λ xs. get_elem? xs (suc k)) (sym (collect_loop-suc n rest)) ∙ h) in
    record {
      before = later.before;
      after = later.after;
      split = later.split;
      placed = ap (λ xs. get_elem? xs (suc k)) (indexed-suc (length body) n rest) ∙ later.placed;
    }

collect-eq : (f : Frames) → collect f ≡ collect_loop f.left f
unfolding collect
collect-eq f = refl

get_known-answer :
    {A : Type 0} (reply : Status → Bytes → Result Error A) (byte : ℕ) (b : Bytes)
    (st : Option Status)
    → get_known reply byte (some b) st ≡ some (known reply byte b st)
unfolding get_known known
get_known-answer reply byte b none = refl
get_known-answer reply byte b (some s) = refl

sliced-answer :
    {A : Type 0} (reply : Status → Bytes → Result Error A) (byte : ℕ) (o : Option Bytes) (r : Reply)
    → sliced byte o ≡ some r
    → get_known reply byte o (status_from_u8 byte) ≡ some (known reply r.0 r.1 (status_from_u8 r.0))
unfolding sliced
sliced-answer reply byte none r e = absurd (cc e)
sliced-answer reply byte (some b) r e =
    let same : (byte, b) ≡ r = cc e in
    get_known-answer reply byte b (status_from_u8 byte)
    ∙ ap (λ (q : Reply). some (known reply q.0 q.1 (status_from_u8 q.0))) same

answer_in-get_place :
    {A : Type 0} (reply : Status → Bytes → Result Error A) (body : Bytes) (p : Option Place)
    (r : Reply)
    → answer_in body p ≡ some r
    → get_place reply body p ≡ some (known reply r.0 r.1 (status_from_u8 r.0))
unfolding answer_in get_place
answer_in-get_place reply body none r e = absurd (cc e)
answer_in-get_place reply body (some (byte, start, len)) r e =
    sliced-answer reply byte (slice body start len) r e

get-answer :
    {A : Type 0} (reply : Status → Bytes → Result Error A) (o : Outcome) (k : ℕ) (r : Reply)
    → answer o k ≡ some r
    → get reply o k ≡ some (known reply r.0 r.1 (status_from_u8 r.0))
unfolding answer get
get-answer reply o k r e = answer_in-get_place reply o.body (get_elem? o.index k) r e

-- What an outcome is, for the replies `o` that came.
abbrev Read :
    {A : Type 0} → (Status → Bytes → Result Error A) → Bytes → ℕ → Result Error Outcome → Type 0
Read reply body n (err e) = Unit {0}
Read reply body n (ok o) =
    (f : Frames) × (frames body ≡ ok f)
    × (f.left ≡ n)
    × ((k : ℕ) (r : Reply)
        → get_elem? (collect f) k ≡ some r
        → get reply o k ≡ some (known reply r.0 r.1 (status_from_u8 r.0)))

index_replies-Read :
    {A : Type 0} (reply : Status → Bytes → Result Error A) (body : Bytes) (n : ℕ)
    (r : Result DecodeError Frames)
    → frames body ≡ r
    → length body < u32_mod
    → Read reply body n (index_replies body n r)
unfolding index_replies
index_replies-Read reply body n (err e) q s = tt
index_replies-Read reply body n (ok f) q s = elim (Bool-cases (f.left == n)) [
  | inr e ↦ rw e tt
  | inl e ↦
      let (counted, rest_is, few, walked) = frames_inv body f q in
      let whole : body ≡ take 4 body ++ f.rest =
        sym (take-append-drop 4 body) ∙ ap (◌++◌ (take 4 body)) (sym rest_is) in
      rw e (
        f,
        q,
        (==_iff f.left n).0 e,
        λ k r h.
            let o : Outcome = record { body = body; index = indexed (length body) f.left f } in
            get-answer reply o k r (
              Reads-answer o k r (
                indexed-Reads body (take 4 body) f.left f.rest k r whole s
                  (ap (λ xs. get_elem? xs k) (sym (collect-eq f)) ∙ h))),
      )
]

-- One server's replies to a batch, of fewer than 2 ^ 32 bytes: when the call gives an outcome, they
-- parse as replies to so many items, and a slot reads, by its kind of reply, the one to its item: the
-- value that the kind makes of it, or the error of a status that is not known.
pub batch_body-answer :
    {A : Type 0} (reply : Status → Bytes → Result Error A) (body : Bytes) (n : ℕ) (o : Outcome)
    → length body < 2 ^ 32
    → batch_body (ok body) n ≡ ok o
    → (f : Frames) × (frames body ≡ ok f)
      × (f.left ≡ n)
      × ((k : ℕ) (r : Reply)
          → get_elem? (collect f) k ≡ some r
          → get reply o k ≡ some (known reply r.0 r.1 (status_from_u8 r.0)))
unfolding batch_body
batch_body-answer reply body n o s e =
    subst (Read reply body n) e (index_replies-Read reply body n (frames body) refl s)
