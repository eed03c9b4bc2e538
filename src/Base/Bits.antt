-- ===== src/Base/Bits.antt =====
-- Bitwise operations that are compared with 0.
use Prim.Native.Nat.{
  ℕ, zero, suc, ◌/◌, ◌%◌, ◌≤◌, bit_or, bit_xor, digits, differ, max, bit_or-bitwise,
  bit_xor-bitwise,
}
use mathlib.Core.Path.{◌≡◌, refl, sym, ◌∙◌}
use mathlib.Core.Logic.{◌↔◌}
use native.Mathlib.Omega.{arith}
use native.Mathlib.Nat.{le_refl}

or_digits-eq-zero : (n a b : ℕ) → a ≤ n → digits (λ y. y) max n a b ≡ 0 → (a ≡ 0) × (b ≡ 0)
or_digits-eq-zero zero a b h e = omega arith
or_digits-eq-zero (suc n) zero b h e = omega arith
or_digits-eq-zero (suc n) (suc a) b h e =
    let rest = or_digits-eq-zero n (suc a / 2) (b / 2) (omega arith) (omega arith) in
    omega (arith, rest)

pub bit_or-eq-zero_iff : (a b : ℕ) → (bit_or a b ≡ 0) ↔ ((a ≡ 0) × (b ≡ 0))
bit_or-eq-zero_iff a b =
    (λ e. or_digits-eq-zero a a b (le_refl a) (sym (bit_or-bitwise a b) ∙ e), λ h. rw (h.0, h.1))

differ-eq-zero : (x y : ℕ) → differ x y ≡ 0 → x ≡ y
differ-eq-zero zero y e = sym e
differ-eq-zero (suc x) zero e = e
differ-eq-zero (suc x) (suc y) e = omega (arith, differ-eq-zero x y e)

differ_self : (x : ℕ) → differ x x ≡ 0
differ_self zero = refl
differ_self (suc x) = differ_self x

xor_digits-eq-zero : (n a b : ℕ) → a ≤ n → digits (λ y. y) differ n a b ≡ 0 → a ≡ b
xor_digits-eq-zero zero a b h e = omega arith
xor_digits-eq-zero (suc n) zero b h e = omega arith
xor_digits-eq-zero (suc n) (suc a) b h e =
    let rest = xor_digits-eq-zero n (suc a / 2) (b / 2) (omega arith) (omega arith) in
    let digit = differ-eq-zero (suc a % 2) (b % 2) (omega arith) in omega (arith, rest, digit)

xor_digits_self : (n a : ℕ) → a ≤ n → digits (λ y. y) differ n a a ≡ 0
xor_digits_self zero a h = omega arith
xor_digits_self (suc n) zero h = refl
xor_digits_self (suc n) (suc a) h =
    omega (arith, xor_digits_self n (suc a / 2) (omega arith), differ_self (suc a % 2))

pub bit_xor-eq-zero_iff : (a b : ℕ) → (bit_xor a b ≡ 0) ↔ (a ≡ b)
bit_xor-eq-zero_iff a b = (
  λ e. xor_digits-eq-zero a a b (le_refl a) (sym (bit_xor-bitwise a b) ∙ e),
  λ h. rw h (bit_xor-bitwise b b ∙ xor_digits_self b b (le_refl b)),
)
