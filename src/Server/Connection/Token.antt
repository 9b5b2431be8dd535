-- ===== src/Server/Connection/Token.antt =====
-- What the comparison in constant time decides.
use oxicache.Common.{ℕ, ◌≡◌, refl, ap, ◌∙◌, ◌↔◌, arith, [], ◌∷◌}
use oxicache.Common.{
  Bool, true, false, ◌&&◌, ==_iff, length, Bytes, bit_or_zero, bit_xor_zero, bit_xor_self,
}
use oxicache.Server.Connection.{differences, ct_eq}
use mathlib.Core.Path.{subst}
use Prim.Native.Nat.{bit_or, bit_xor}

differences_zero :
    (xs ys : Bytes) (acc : ℕ)
    → length xs ≡ length ys
    → differences xs ys acc ≡ 0
    → (acc ≡ 0) × (xs ≡ ys)
unfolding differences
differences_zero [] [] acc same h = (h, refl)
differences_zero [] (y ∷ ys) acc same h = absurd (omega (arith, same))
differences_zero (x ∷ xs) [] acc same h = absurd (omega (arith, same))
differences_zero (x ∷ xs) (y ∷ ys) acc same h =
    let (first, rest) = differences_zero xs ys (bit_or acc (bit_xor x y)) (omega (arith, same)) h in
    let (before, here) = bit_or_zero acc (bit_xor x y) first in
    let x_is_y = bit_xor_zero x y here in (before, ap (λ z. z ∷ xs) x_is_y ∙ ap (λ zs. y ∷ zs) rest)

differences_self : (xs : Bytes) → differences xs xs 0 ≡ 0
unfolding differences
differences_self [] = refl
differences_self (x ∷ xs) = rw (bit_xor_self x) (differences_self xs)

both : (a b : Bool) → (a && b) ≡ true → (a ≡ true) × (b ≡ true)
both true b h = (refl, h)
both false b h = (h, absurd (cc))

-- `ct_eq` accepts a token exactly when it is the expected one, byte for byte.
pub ct_eq_iff : (a b : Bytes) → (ct_eq a b ≡ true) ↔ (a ≡ b)
unfolding ct_eq
ct_eq_iff a b = (equal, λ q. subst (λ z. ct_eq a z ≡ true) q same)
  where
    equal : ct_eq a b ≡ true → a ≡ b
    equal h =
        let (lengths, none) = both _ _ h in
        (differences_zero a b 0 ((==_iff _ _).0 lengths) ((==_iff _ _).0 none)).1

    same : ct_eq a a ≡ true
    same =
        rw
          (
            (==_iff (length a) (length a)).1 refl,
            (==_iff (differences a a 0) 0).1 (differences_self a),
          )
          refl
