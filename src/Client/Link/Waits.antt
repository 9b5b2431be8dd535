-- ===== src/Client/Link/Waits.antt =====
-- `Backoff` of crates/client-rs/src/lib.rs: the waits between attempts.
use oxicache.Common.{
  ℕ, zero, suc, ◌+◌, ◌*◌, ◌≤◌, ◌≡◌, refl, ap, ◌∙◌, arith, List, [], ◌∷◌, min, length, err,
}
use oxicache.Client.Link.{
  backoff_min, backoff_max, Setback, Failed, Inner, attempted, failed, fresh,
}

-- Attempts that fail for now, one after the other, each at its time.
unfoldable pub failing : Inner → List (ℕ × Setback) → Inner
failing i [] = i
failing i ((now, s) ∷ fails) = failing (attempted i now (err (Failed.setback s))).0 fails

-- `d`, doubled so many times.
abbrev pub doubled : ℕ → ℕ → ℕ
doubled zero d = d
doubled (suc n) d = 2 * doubled n d

doubled-suc : (n d : ℕ) → doubled n (2 * d) ≡ 2 * doubled n d
doubled-suc zero d = refl
doubled-suc (suc n) d = ap (λ x. 2 * x) (doubled-suc n d)

-- A bound in between makes no difference.
doubled-min : (n x m : ℕ) → min (doubled n (min x m)) m ≡ min (doubled n x) m
doubled-min zero x m = omega arith
doubled-min (suc n) x m = omega (arith, doubled-min n x m)

delay_once :
    (i : Inner) (now : ℕ) (s : Setback)
    → (attempted i now (err (Failed.setback s))).0.delay ≡ min (2 * i.delay) backoff_max
unfolding attempted failed
delay_once i now s = omega arith

not_before_once :
    (i : Inner) (now : ℕ) (s : Setback)
    → (attempted i now (err (Failed.setback s))).0.not_before ≡ now + i.delay
unfolding attempted failed
not_before_once i now s = refl

failing-delay :
    (i : Inner) (fails : List (ℕ × Setback))
    → i.delay ≤ backoff_max
    → (failing i fails).delay ≡ min (doubled (length fails) i.delay) backoff_max
unfolding failing
failing-delay i [] h = omega (arith, h)
failing-delay i ((now, s) ∷ fails) h =
    let i' = (attempted i now (err (Failed.setback s))).0 in
    let n = length fails in
    let once : i'.delay ≡ min (2 * i.delay) backoff_max = delay_once i now s in
    failing-delay i' fails (omega (arith, once))
    ∙ ap (λ d. min (doubled n d) backoff_max) once
    ∙ doubled-min n (2 * i.delay) backoff_max
    ∙ ap (λ d. min d backoff_max) (doubled-suc n i.delay)

-- After a success and so many failed attempts, a further one that fails at `now` puts the next off by
-- 100 milliseconds, doubled as often as attempts have failed before it, and by 5 seconds at most.
pub failing-not_before :
    (i : Inner) (start : ℕ) (fails : List (ℕ × Setback)) (now : ℕ) (s : Setback)
    → (attempted (failing (fresh i start) fails) now (err (Failed.setback s))).0.not_before
      ≡ now + min (doubled (length fails) backoff_min) backoff_max
unfolding fresh
failing-not_before i start fails now s =
    not_before_once (failing (fresh i start) fails) now s
    ∙ ap (◌+◌ now) (failing-delay (fresh i start) fails (omega arith))
