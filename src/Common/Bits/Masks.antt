-- ===== src/Common/Bits/Masks.antt =====
-- A mask applied twice, and an exclusive or that is undone under a mask.
use mathlib.Core.Path.{◌≡◌, refl, sym, ap, ◌∙◌}
use mathlib.Core.Logic.{inl, inr}
use native.Mathlib.Omega.{arith}
use Prim.Native.Nat.{ℕ, zero, suc, ◌+◌, ◌/◌, ◌%◌, ◌≤◌, bit_and, bit_xor, differ, min}
use oxicache.Common.Bits.Halves.{
  IsDigit, last-IsDigit, bit_xor_half, bit_xor_last, bit_and_half, bit_and_last, halves-eq,
  zero-bit_and,
}

abbrev hop : ℕ → ℕ → ℕ → ℕ
hop b c m = bit_and (bit_xor b c) m

hop_half : (b c m : ℕ) → hop b c m / 2 ≡ hop (b / 2) (c / 2) (m / 2)
hop_half b c m = bit_and_half (bit_xor b c) m ∙ ap (λ x. bit_and x (m / 2)) (bit_xor_half b c)

hop_last : (b c m : ℕ) → hop b c m % 2 ≡ min (differ (b % 2) (c % 2)) (m % 2)
hop_last b c m = bit_and_last (bit_xor b c) m ∙ ap (λ x. min x (m % 2)) (bit_xor_last b c)

digits_undone :
    (b c m : ℕ)
    → IsDigit b
    → IsDigit c
    → IsDigit m
    → min b m ≡ b
    → min (differ (min (differ b c) m) c) m ≡ b
digits_undone b c m (inl e) (inl f) (inl g) h = rw (e, f, g) refl
digits_undone b c m (inl e) (inl f) (inr g) h = rw (e, f, g) refl
digits_undone b c m (inl e) (inr f) (inl g) h = rw (e, f, g) refl
digits_undone b c m (inl e) (inr f) (inr g) h = rw (e, f, g) refl
digits_undone b c m (inr e) f (inl g) h = absurd (omega (arith, e, g, h))
digits_undone b c m (inr e) (inl f) (inr g) h = rw (e, f, g) refl
digits_undone b c m (inr e) (inr f) (inr g) h = rw (e, f, g) refl

undone : (n b c m : ℕ) → b ≤ n → c ≤ n → m ≤ n → bit_and b m ≡ b → hop (hop b c m) c m ≡ b
undone zero b c m i j k h =
    let b0 : b ≡ 0 = omega (arith, i) in
    let c0 : c ≡ 0 = omega (arith, j) in let m0 : m ≡ 0 = omega (arith, k) in rw (b0, c0, m0) refl
undone (suc n) b c m i j k h =
    halves-eq _ b
      (hop_half (hop b c m) c m
        ∙ ap (λ x. hop x (c / 2) (m / 2)) (hop_half b c m)
        ∙ undone n (b / 2) (c / 2) (m / 2) (omega (arith, i)) (omega (arith, j)) (omega (arith, k))
            (sym (bit_and_half b m) ∙ ap (λ x. x / 2) h))
      (hop_last (hop b c m) c m
        ∙ ap (λ x. min (differ x (c % 2)) (m % 2)) (hop_last b c m)
        ∙ digits_undone (b % 2) (c % 2) (m % 2) (last-IsDigit b) (last-IsDigit c) (last-IsDigit m)
            (sym (bit_and_last b m) ∙ ap (λ x. x % 2) h))

-- Where `b` fits the mask, a masked exclusive or with `c`, made twice, gives `b` again.
pub bit_xor_masked_twice :
    (b c m : ℕ) → bit_and b m ≡ b → bit_and (bit_xor (bit_and (bit_xor b c) m) c) m ≡ b
bit_xor_masked_twice b c m h = undone (b + c + m) b c m (omega arith) (omega arith) (omega arith) h

masked_again : (n a m : ℕ) → a ≤ n → m ≤ n → bit_and (bit_and a m) m ≡ bit_and a m
masked_again zero a m i j =
    let a0 : a ≡ 0 = omega (arith, i) in let m0 : m ≡ 0 = omega (arith, j) in rw (a0, m0) refl
masked_again (suc n) a m i j =
    halves-eq _ _
      (bit_and_half (bit_and a m) m
        ∙ ap (λ x. bit_and x (m / 2)) (bit_and_half a m)
        ∙ masked_again n (a / 2) (m / 2) (omega (arith, i)) (omega (arith, j))
        ∙ sym (bit_and_half a m))
      (bit_and_last (bit_and a m) m
        ∙ ap (λ x. min x (m % 2)) (bit_and_last a m)
        ∙ min_again (a % 2) (m % 2)
        ∙ sym (bit_and_last a m))
  where
    min_again : (a m : ℕ) → min (min a m) m ≡ min a m
    min_again a m = omega arith

pub bit_and_again : (a m : ℕ) → bit_and (bit_and a m) m ≡ bit_and a m
bit_and_again a m = masked_again (a + m) a m (omega arith) (omega arith)

masked-le : (n a m : ℕ) → a ≤ n → bit_and a m ≤ m
masked-le zero a m i = let a0 : a ≡ 0 = omega (arith, i) in rw a0 (omega (arith, zero-bit_and m))
masked-le (suc n) a m i =
    omega
      (arith, masked-le n (a / 2) (m / 2) (omega (arith, i)), bit_and_half a m, bit_and_last a m)

pub bit_and-le : (a m : ℕ) → bit_and a m ≤ m
bit_and-le a m = masked-le a a m (omega arith)
