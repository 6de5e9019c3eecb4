-- ===== src/Base/Bits.antt =====
-- The bit operations, one binary digit at a time.
use Prim.Native.Nat.{
  ℕ, zero, suc, ◌+◌, ◌*◌, ◌/◌, ◌%◌, ◌^◌, ◌≤◌, ◌<◌, min, max, bit_and, bit_or, digits, bitwise,
  bit_and-bitwise, bit_or-bitwise, compare, Ordering,
}
use mathlib.Core.Bool.{Bool, true, false}
use mathlib.Core.Path.{◌≡◌, refl, ap, ◌∙◌}
use mathlib.Core.Logic.{◌≢◌}
use native.Mathlib.Decide.{ℕ_discrete}
use native.Mathlib.Omega.{arith}
use native.Mathlib.Nat.{le_refl, pow-suc}

-- `bitwise` recurs on fuel; any fuel that covers the left number gives the same digits.
module _ (tail : ℕ → ℕ) (op : ℕ → ℕ → ℕ) where
  digits_enough : (m n a b : ℕ) → a ≤ m → a ≤ n → digits tail op m a b ≡ digits tail op n a b
  digits_enough zero zero a b p q = refl
  digits_enough zero (suc n) zero b p q = refl
  digits_enough zero (suc n) (suc a) b p q = absurd (omega arith)
  digits_enough (suc m) zero zero b p q = refl
  digits_enough (suc m) zero (suc a) b p q = absurd (omega arith)
  digits_enough (suc m) (suc n) zero b p q = refl
  digits_enough (suc m) (suc n) (suc a) b p q =
      rw (digits_enough m n (suc a / 2) (b / 2) (omega arith) (omega arith))

  pub bitwise_low :
      (a b : ℕ)
      → bitwise tail op (suc a) b ≡ bitwise tail op (suc a / 2) (b / 2) * 2 + op (suc a % 2) (b % 2)
  bitwise_low a b =
      omega (arith, digits_enough a (suc a / 2) (suc a / 2) (b / 2) (omega arith) (le_refl _))

pub bit_and_low : (a b : ℕ) → bit_and a b ≡ bit_and (a / 2) (b / 2) * 2 + min (a % 2) (b % 2)
bit_and_low zero b = simp bit_and-bitwise (omega arith)
bit_and_low (suc a) b = simp bit_and-bitwise (bitwise_low (λ y. 0) min a b)

pub bit_or_low : (a b : ℕ) → bit_or a b ≡ bit_or (a / 2) (b / 2) * 2 + max (a % 2) (b % 2)
bit_or_low zero b = simp bit_or-bitwise (omega arith)
bit_or_low (suc a) b = simp bit_or-bitwise (bitwise_low (λ y. y) max a b)

-- The digit of `a` at place `k`.
abbrev pub bit_at : ℕ → ℕ → ℕ
bit_at zero a = a % 2
bit_at (suc k) a = bit_at k (a / 2)

pub bit_at-le : (k a : ℕ) → bit_at k a ≤ 1
bit_at-le zero a = omega arith
bit_at-le (suc k) a = bit_at-le k (a / 2)

pub bit_at-bit_and : (k a b : ℕ) → bit_at k (bit_and a b) ≡ min (bit_at k a) (bit_at k b)
bit_at-bit_and zero a b = omega (arith, bit_and_low a b)
bit_at-bit_and (suc k) a b =
    ap (bit_at k) (omega (arith, bit_and_low a b)) ∙ bit_at-bit_and k (a / 2) (b / 2)

pub bit_at-bit_or : (k a b : ℕ) → bit_at k (bit_or a b) ≡ max (bit_at k a) (bit_at k b)
bit_at-bit_or zero a b = omega (arith, bit_or_low a b)
bit_at-bit_or (suc k) a b =
    ap (bit_at k) (omega (arith, bit_or_low a b)) ∙ bit_at-bit_or k (a / 2) (b / 2)

pub bit_at-zero : (k : ℕ) → bit_at k 0 ≡ 0
bit_at-zero zero = refl
bit_at-zero (suc k) = bit_at-zero k

pub bit_at-pow_self : (k : ℕ) → bit_at k (2 ^ k) ≡ 1
bit_at-pow_self zero = refl
bit_at-pow_self (suc k) = ap (bit_at k) (omega (arith, pow-suc 2 k)) ∙ bit_at-pow_self k

pub bit_at-pow_ne : (j k : ℕ) → j ≢ k → bit_at j (2 ^ k) ≡ 0
bit_at-pow_ne zero zero h = absurd (h refl)
bit_at-pow_ne zero (suc k) h = omega (arith, pow-suc 2 k)
bit_at-pow_ne (suc j) zero h = bit_at-zero j
bit_at-pow_ne (suc j) (suc k) h =
    ap (bit_at j) (omega (arith, pow-suc 2 k)) ∙ bit_at-pow_ne j k (λ e. h (ap suc e))

-- A number whose every digit is zero is zero.
pub eq-zero_of_digits : (fuel a : ℕ) → a ≤ fuel → ((k : ℕ) → bit_at k a ≡ 0) → a ≡ 0
eq-zero_of_digits fuel zero h all = refl
eq-zero_of_digits zero (suc a) h all = absurd (omega arith)
eq-zero_of_digits (suc fuel) (suc a) h all =
    omega (arith, all 0, eq-zero_of_digits fuel (suc a / 2) (omega arith) (λ k. all (suc k)))

-- `w & (1 << k)` is zero exactly when `w` has no digit at place `k`.
pub bit_and-pow_unset : (k w : ℕ) → bit_at k w ≡ 0 → bit_and w (2 ^ k) ≡ 0
bit_and-pow_unset k w h = eq-zero_of_digits _ (bit_and w (2 ^ k)) (le_refl _) digit
  where
    digit : (j : ℕ) → bit_at j (bit_and w (2 ^ k)) ≡ 0
    digit j = elim (ℕ_discrete j k) [
      | yes e ↦ omega (arith, bit_at-bit_and j w (2 ^ k), ap (λ (t : ℕ). bit_at t w) e)
      | no n ↦ omega (arith, bit_at-bit_and j w (2 ^ k), bit_at-pow_ne j k n)
    ]

pub bit_and-pow_set : (k w : ℕ) → bit_at k w ≡ 1 → bit_and w (2 ^ k) ≢ 0
bit_and-pow_set k w h e =
    omega (arith, bit_at-bit_and k w (2 ^ k), bit_at-pow_self k, ap (bit_at k) e, bit_at-zero k)

double-pow : (q k : ℕ) → q * 2 ^ suc k ≡ 2 * (q * 2 ^ k)
double-pow q k = omega (arith, ap (λ (t : ℕ). q * t) (pow-suc 2 k))

bit_or-zero : (fuel a : ℕ) → a ≤ fuel → bit_or a 0 ≡ a
bit_or-zero fuel zero h = refl
bit_or-zero zero (suc a) h = absurd (omega arith)
bit_or-zero (suc fuel) (suc a) h =
    omega (arith, bit_or_low (suc a) 0, bit_or-zero fuel (suc a / 2) (omega arith))

zero-bit_or : (b : ℕ) → bit_or 0 b ≡ b
zero-bit_or b = bit_or-bitwise 0 b

-- `r | (q << k)` is a sum when `r` fits `k` bits.
pub bit_or-add_high : (k q r : ℕ) → r < 2 ^ k → bit_or r (q * 2 ^ k) ≡ r + q * 2 ^ k
bit_or-add_high zero q r h =
    let e : r ≡ 0 = omega arith in rw e (zero-bit_or (q * 2 ^ 0) ∙ omega arith)
bit_or-add_high (suc k) q r h = omega (
  arith,
  bit_or_low r (q * 2 ^ suc k),
  double-pow q k,
  pow-suc 2 k,
  bit_or-add_high k q (r / 2) (omega (arith, pow-suc 2 k)),
  halves,
)
  where
    halves : bit_or (r / 2) (q * 2 ^ suc k / 2) ≡ bit_or (r / 2) (q * 2 ^ k)
    halves = ap (bit_or (r / 2)) (omega (arith, double-pow q k))

-- `(q << k) | r`, the other way round.
pub bit_or-add_low : (k q r : ℕ) → r < 2 ^ k → bit_or (q * 2 ^ k) r ≡ q * 2 ^ k + r
bit_or-add_low zero q r h =
    let e : r ≡ 0 = omega arith in rw e (bit_or-zero _ (q * 2 ^ 0) (le_refl _) ∙ omega arith)
bit_or-add_low (suc k) q r h = omega (
  arith,
  bit_or_low (q * 2 ^ suc k) r,
  double-pow q k,
  pow-suc 2 k,
  bit_or-add_low k q (r / 2) (omega (arith, pow-suc 2 k)),
  halves,
)
  where
    halves : bit_or (q * 2 ^ suc k / 2) (r / 2) ≡ bit_or (q * 2 ^ k) (r / 2)
    halves = ap (λ (t : ℕ). bit_or t (r / 2)) (omega (arith, double-pow q k))

-- Two functions agree below `n`, checked value by value.
pub agree_below : (f g : ℕ → ℕ) → ℕ → Bool
agree_below f g zero = true
agree_below f g (suc n) = elim (compare (f n) (g n)) [ Ordering.eq ↦ agree_below f g n | _ ↦ false ]

agree_below→eq : (f g : ℕ → ℕ) (n : ℕ) → agree_below f g n ≡ true → (i : ℕ) → i < n → f i ≡ g i
unfolding agree_below
agree_below→eq f g zero e i h = absurd (omega arith)
agree_below→eq f g (suc n) e i h = ground (arith, agree_below→eq f g n (ground arith) i)

bit_and-zero : (a : ℕ) → bit_and a 0 ≡ 0
bit_and-zero a =
    eq-zero_of_digits _ (bit_and a 0) (le_refl _)
      (λ k. omega (arith, bit_at-bit_and k a 0, bit_at-zero k))

-- Masks of low ones are remainders.
pub bit_and-mask_1 : (a : ℕ) → bit_and a 1 ≡ a % 2
bit_and-mask_1 a = omega (arith, bit_and_low a 1, bit_and-zero (a / 2))

bit_and-mask_3 : (a : ℕ) → bit_and a 3 ≡ a % 4
bit_and-mask_3 a = omega (arith, bit_and_low a 3, bit_and-mask_1 (a / 2))

bit_and-mask_7 : (a : ℕ) → bit_and a 7 ≡ a % 8
bit_and-mask_7 a = omega (arith, bit_and_low a 7, bit_and-mask_3 (a / 2))

pub bit_and-mask_15 : (a : ℕ) → bit_and a 15 ≡ a % 16
bit_and-mask_15 a = omega (arith, bit_and_low a 15, bit_and-mask_7 (a / 2))

pub bit_and-mask_31 : (a : ℕ) → bit_and a 31 ≡ a % 32
bit_and-mask_31 a = omega (arith, bit_and_low a 31, bit_and-mask_15 (a / 2))

pub bit_and-mask_63 : (a : ℕ) → bit_and a 63 ≡ a % 64
bit_and-mask_63 a = omega (arith, bit_and_low a 63, bit_and-mask_31 (a / 2))

pub bit_and-mask_127 : (a : ℕ) → bit_and a 127 ≡ a % 128
bit_and-mask_127 a = omega (arith, bit_and_low a 127, bit_and-mask_63 (a / 2))

-- The continuation bit over seven low bits.
pub bit_or-top_bit : (b : ℕ) → b < 128 → bit_or 0x80 b ≡ b + 128
unfolding agree_below
bit_or-top_bit = agree_below→eq (λ b. bit_or 0x80 b) (λ b. b + 128) 128 refl
