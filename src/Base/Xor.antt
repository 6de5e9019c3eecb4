-- ===== src/Base/Xor.antt =====
-- Exclusive or, digit by digit, and numbers that are determined by their digits.
use Prim.Native.Nat.{
  ℕ, zero, suc, ◌+◌, ◌*◌, ◌/◌, ◌%◌, ◌^◌, ◌≤◌, ◌<◌, bit_or, bit_xor, bitwise, bit_xor-bitwise,
  differ,
}
use mathlib.Core.Path.{◌≡◌, refl, ap, ◌∙◌}
use native.Mathlib.Omega.{arith}
use native.Mathlib.Nat.{le_refl, pow-suc}
use dave_go.Base.Bits.{
  bitwise_low, bit_at, bit_at-le, bit_at-zero, bit_at-bit_or, eq-zero_of_digits,
}

differ_mod : (x y : ℕ) → x < 2 → y < 2 → differ x y ≡ (x + y) % 2
differ_mod zero zero p q = refl
differ_mod zero (suc zero) p q = refl
differ_mod (suc zero) zero p q = refl
differ_mod (suc zero) (suc zero) p q = refl
differ_mod zero (suc (suc y)) p q = absurd (omega arith)
differ_mod (suc zero) (suc (suc y)) p q = absurd (omega arith)
differ_mod (suc (suc x)) y p q = absurd (omega arith)

bit_xor_low : (a b : ℕ) → bit_xor a b ≡ bit_xor (a / 2) (b / 2) * 2 + (a % 2 + b % 2) % 2
bit_xor_low zero b = simp bit_xor-bitwise (omega arith)
bit_xor_low (suc a) b = simp bit_xor-bitwise (
    bitwise_low (λ y. y) differ a b
    ∙ ap (λ (t : ℕ). bitwise (λ y. y) differ (suc a / 2) (b / 2) * 2 + t)
        (differ_mod (suc a % 2) (b % 2) (omega arith) (omega arith)))

pub bit_at-bit_xor : (k a b : ℕ) → bit_at k (bit_xor a b) ≡ (bit_at k a + bit_at k b) % 2
bit_at-bit_xor zero a b = omega (arith, bit_xor_low a b)
bit_at-bit_xor (suc k) a b =
    ap (bit_at k) (omega (arith, bit_xor_low a b)) ∙ bit_at-bit_xor k (a / 2) (b / 2)

-- Numbers with the same digits are equal.
pub eq_of_digits : (fuel a b : ℕ) → a + b ≤ fuel → ((k : ℕ) → bit_at k a ≡ bit_at k b) → a ≡ b
eq_of_digits zero a b h all = omega arith
eq_of_digits (suc fuel) zero zero h all = refl
eq_of_digits (suc fuel) (suc a) b h all =
    omega (arith, all 0, eq_of_digits fuel (suc a / 2) (b / 2) (omega arith) (λ k. all (suc k)))
eq_of_digits (suc fuel) zero (suc b) h all =
    omega (arith, all 0, eq_of_digits fuel 0 (suc b / 2) (omega arith) (λ k. all (suc k)))

-- Adding the same mask twice gives the number back.
pub bit_xor-bit_xor : (a b : ℕ) → bit_xor (bit_xor a b) b ≡ a
bit_xor-bit_xor a b = eq_of_digits (bit_xor (bit_xor a b) b + a) _ a (le_refl _) λ k.
    omega
      (arith, bit_at-bit_xor k (bit_xor a b) b, bit_at-bit_xor k a b, bit_at-le k a, bit_at-le k b)

pub zero-bit_xor : (b : ℕ) → bit_xor 0 b ≡ b
zero-bit_xor b = bit_xor-bitwise 0 b

pub bit_xor-eq_zero : (a b : ℕ) → bit_xor a b ≡ 0 → a ≡ b
bit_xor-eq_zero a b h = eq_of_digits (a + b) a b (le_refl _) λ k.
    omega
      (arith, bit_at-bit_xor k a b, ap (bit_at k) h, bit_at-zero k, bit_at-le k a, bit_at-le k b)

pub bit_xor_self : (a : ℕ) → bit_xor a a ≡ 0
bit_xor_self a =
    eq-zero_of_digits _ (bit_xor a a) (le_refl _) (λ k. omega (arith, bit_at-bit_xor k a a))

pub bit_or-eq_zero : (a b : ℕ) → bit_or a b ≡ 0 → (a ≡ 0) × (b ≡ 0)
bit_or-eq_zero a b h = (
  eq-zero_of_digits _ a (le_refl _)
      (λ k. omega (arith, bit_at-bit_or k a b, ap (bit_at k) h, bit_at-zero k)),
  eq-zero_of_digits _ b (le_refl _)
      (λ k. omega (arith, bit_at-bit_or k a b, ap (bit_at k) h, bit_at-zero k)),
)

bit_xor-lt_pow : (k a b : ℕ) → a < 2 ^ k → b < 2 ^ k → bit_xor a b < 2 ^ k
bit_xor-lt_pow zero a b ha hb =
    let ea : a ≡ 0 = omega arith in let eb : b ≡ 0 = omega arith in rw (ea, eb) (omega arith)
bit_xor-lt_pow (suc k) a b ha hb = omega (
  arith,
  pow-suc 2 k,
  bit_xor_low a b,
  bit_xor-lt_pow k (a / 2) (b / 2) (omega (arith, pow-suc 2 k)) (omega (arith, pow-suc 2 k)),
)

pub bit_xor-byte : (a b : ℕ) → a < 256 → b < 256 → bit_xor a b < 256
bit_xor-byte a b ha hb = bit_xor-lt_pow 8 a b ha hb
