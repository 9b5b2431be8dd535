-- ===== src/Common/Bits.antt =====
-- When the bitwise or and exclusive or of two numbers are zero.
pub mod Halves
pub mod Masks
use Prim.Native.Nat.{
  ℕ, zero, suc, two, ◌/◌, ◌%◌, ◌≤◌, max, bit_or, bit_xor, bit_or-bitwise, bit_xor-bitwise, digits,
  differ,
}
use mathlib.Core.Path.{◌≡◌, refl, sym, ap, ◌∙◌}
use native.Mathlib.Omega.{arith}

differ-eq : (x y : ℕ) → differ x y ≡ 0 → x ≡ y
differ-eq zero y h = sym h
differ-eq (suc x) zero h = h
differ-eq (suc x) (suc y) h = ap suc (differ-eq x y h)

differ_self : (x : ℕ) → differ x x ≡ 0
differ_self zero = refl
differ_self (suc x) = differ_self x

digits-max : (n a b : ℕ) → a ≤ n → digits (λ z. z) max n a b ≡ 0 → (a ≡ 0) × (b ≡ 0)
digits-max zero a b h e = (omega arith, e)
digits-max (suc n) zero b h e = (refl, e)
digits-max (suc n) (suc a) b h e =
    let rest = digits-max n (suc a / two) (b / two) (omega (arith, h)) (omega (arith, e)) in
    absurd (omega (arith, rest, e))

digits-differ : (n a b : ℕ) → a ≤ n → digits (λ z. z) differ n a b ≡ 0 → a ≡ b
digits-differ zero a b h e = omega (arith, h, e)
digits-differ (suc n) zero b h e = sym e
digits-differ (suc n) (suc a) b h e =
    let rest = digits-differ n (suc a / two) (b / two) (omega (arith, h)) (omega (arith, e)) in
    let last = differ-eq (suc a % two) (b % two) (omega (arith, e)) in omega (arith, rest, last)

digits-differ_self : (n a : ℕ) → a ≤ n → digits (λ z. z) differ n a a ≡ 0
digits-differ_self zero a h = omega (arith, h)
digits-differ_self (suc n) zero h = refl
digits-differ_self (suc n) (suc a) h =
    omega (arith, digits-differ_self n (suc a / two) (omega (arith, h)), differ_self (suc a % two))

pub bit_or_zero : (a b : ℕ) → bit_or a b ≡ 0 → (a ≡ 0) × (b ≡ 0)
bit_or_zero a b e = digits-max a a b (omega arith) (sym (λ i. bit_or-bitwise a b i) ∙ e)

pub bit_xor_zero : (a b : ℕ) → bit_xor a b ≡ 0 → a ≡ b
bit_xor_zero a b e = digits-differ a a b (omega arith) (sym (λ i. bit_xor-bitwise a b i) ∙ e)

pub bit_xor_self : (a : ℕ) → bit_xor a a ≡ 0
bit_xor_self a = (λ i. bit_xor-bitwise a a i) ∙ digits-differ_self a a (omega arith)
