-- ===== src/Common/Bits/Halves.antt =====
-- The bitwise operations halve with their operands: their last digit is that of the last digits, and
-- the rest is that of the rest. Laws of several operations are then proved digit by digit.
use Prim.Native.Nat.{
  ℕ, zero, suc, two, ◌+◌, ◌*◌, ◌/◌, ◌%◌, ◌≤◌, ◌<◌, min, bit_and, bit_xor, bit_and-bitwise,
  bit_xor-bitwise, digits, differ,
}
use mathlib.Core.Path.{◌≡◌, refl, sym, ap, ◌∙◌}
use mathlib.Core.Logic.{◌⊎◌, inl, inr}
use native.Mathlib.Omega.{arith}

digits-fuel :
    (z : ℕ → ℕ) (f : ℕ → ℕ → ℕ) (n m a b : ℕ) → a ≤ n → a ≤ m → digits z f n a b ≡ digits z f m a b
digits-fuel z f zero zero a b h k = refl
digits-fuel z f zero (suc m) zero b h k = refl
digits-fuel z f zero (suc m) (suc a) b h k = absurd (omega (arith, h))
digits-fuel z f (suc n) zero zero b h k = refl
digits-fuel z f (suc n) zero (suc a) b h k = absurd (omega (arith, k))
digits-fuel z f (suc n) (suc m) zero b h k = refl
digits-fuel z f (suc n) (suc m) (suc a) b h k =
    ap (λ d. d * two + f (suc a % two) (b % two))
      (digits-fuel z f n m (suc a / two) (b / two) (omega (arith, h)) (omega (arith, k)))

digits-halves :
    (z : ℕ → ℕ) (f : ℕ → ℕ → ℕ) (a b : ℕ)
    → digits z f (suc a) (suc a) b
      ≡ digits z f (suc a / two) (suc a / two) (b / two) * two + f (suc a % two) (b % two)
digits-halves z f a b =
    ap (λ d. d * two + f (suc a % two) (b % two))
      (digits-fuel z f a (suc a / two) (suc a / two) (b / two) (omega arith) (omega arith))

-- A number by its halves.
abbrev twice : ℕ → ℕ → ℕ
twice q r = q * 2 + r

twice_halves : (a : ℕ) → a ≡ twice (a / 2) (a % 2)
twice_halves a = omega arith

bit_xor-twice : (a b : ℕ) → bit_xor a b ≡ twice (bit_xor (a / 2) (b / 2)) (differ (a % 2) (b % 2))
bit_xor-twice zero b =
    (λ i. bit_xor-bitwise zero b i)
    ∙ twice_halves b
    ∙ ap (λ q. twice q (b % 2)) (sym (λ i. bit_xor-bitwise zero (b / 2) i))
bit_xor-twice (suc a) b =
    (λ i. bit_xor-bitwise (suc a) b i)
    ∙ digits-halves (λ z. z) differ a b
    ∙ ap (λ q. twice q (differ (suc a % 2) (b % 2)))
        (sym (λ i. bit_xor-bitwise (suc a / 2) (b / 2) i))

bit_and-twice : (a b : ℕ) → bit_and a b ≡ twice (bit_and (a / 2) (b / 2)) (min (a % 2) (b % 2))
bit_and-twice zero b =
    (λ i. bit_and-bitwise zero b i)
    ∙ ap (twice 0) (zero_min (b % 2))
    ∙ ap (λ q. twice q (min 0 (b % 2))) (sym (λ i. bit_and-bitwise zero (b / 2) i))
  where
    zero_min : (n : ℕ) → 0 ≡ min 0 n
    zero_min n = omega arith
bit_and-twice (suc a) b =
    (λ i. bit_and-bitwise (suc a) b i)
    ∙ digits-halves (λ z. zero) min a b
    ∙ ap (λ q. twice q (min (suc a % 2) (b % 2))) (sym (λ i. bit_and-bitwise (suc a / 2) (b / 2) i))

abbrev pub IsDigit : ℕ → Type 0
IsDigit a = (a ≡ 0) ⊎ (a ≡ 1)

pub last-IsDigit : (a : ℕ) → IsDigit (a % 2)
last-IsDigit a = omega arith

differ-lt : (a b : ℕ) → IsDigit a → IsDigit b → differ a b < 2
differ-lt a b (inl e) (inl h) = rw (e, h) (omega arith)
differ-lt a b (inl e) (inr h) = rw (e, h) (omega arith)
differ-lt a b (inr e) (inl h) = rw (e, h) (omega arith)
differ-lt a b (inr e) (inr h) = rw (e, h) (omega arith)

pub bit_xor_half : (a b : ℕ) → bit_xor a b / 2 ≡ bit_xor (a / 2) (b / 2)
bit_xor_half a b =
    omega (arith, bit_xor-twice a b, differ-lt (a % 2) (b % 2) (last-IsDigit a) (last-IsDigit b))

pub bit_xor_last : (a b : ℕ) → bit_xor a b % 2 ≡ differ (a % 2) (b % 2)
bit_xor_last a b =
    omega (arith, bit_xor-twice a b, differ-lt (a % 2) (b % 2) (last-IsDigit a) (last-IsDigit b))

pub bit_and_half : (a b : ℕ) → bit_and a b / 2 ≡ bit_and (a / 2) (b / 2)
bit_and_half a b = omega (arith, bit_and-twice a b)

pub bit_and_last : (a b : ℕ) → bit_and a b % 2 ≡ min (a % 2) (b % 2)
bit_and_last a b = omega (arith, bit_and-twice a b)

pub halves-eq : (a b : ℕ) → a / 2 ≡ b / 2 → a % 2 ≡ b % 2 → a ≡ b
halves-eq a b q r = omega (arith, q, r)

pub zero-bit_and : (m : ℕ) → bit_and 0 m ≡ 0
zero-bit_and m = λ i. bit_and-bitwise 0 m i
