-- ===== src/Common/Bits.antt =====
-- Masks as arithmetic: `x & (2^k - 1)`, `x & !(2^k - 1)` and `x | 1`.
use Prim.Native.Nat.{
  ℕ, zero, suc, ◌+◌, ◌-◌, ◌*◌, ◌/◌, ◌%◌, ◌^◌, ◌≤◌, ◌<◌, min, max, bit_and, bit_or, digits,
  bit_and-bitwise, bit_or-bitwise,
}
use mathlib.Core.Path.{◌≡◌, refl}
use native.Mathlib.Nat.{pow-suc, one-le-pow, pow-le-pow_right, mod-eq_of_lt, div-add-mod}
use native.Mathlib.Decide.{ℕ_discrete}
use native.Mathlib.Omega.{arith}

-- The recursion on digits that both operations stand for: fuel above the first number is idle.
module _ (right : ℕ → ℕ) (op : ℕ → ℕ → ℕ) where
  one_idle : (n a b : ℕ) → a ≤ n → digits right op (suc n) a b ≡ digits right op n a b
  one_idle zero zero b h = refl
  one_idle zero (suc a) b h = absurd (omega arith)
  one_idle (suc n) zero b h = refl
  one_idle (suc n) (suc a) b h = omega (arith, one_idle n (suc a / 2) (b / 2) (omega arith))

  idle_fuel : (n a b : ℕ) → a ≤ n → digits right op n a b ≡ digits right op a a b
  idle_fuel zero zero b h = refl
  idle_fuel zero (suc a) b h = absurd (omega arith)
  idle_fuel (suc n) a b h = elim (ℕ_discrete a (suc n)) [
    | yes e ↦ rw e refl
    | no ne ↦ omega (arith, one_idle n a b (omega arith), idle_fuel n a b (omega arith))
  ]

bit_and_halves : (a b : ℕ) → bit_and a b ≡ 2 * bit_and (a / 2) (b / 2) + min (a % 2) (b % 2)
bit_and_halves zero b = omega (arith, bit_and-bitwise 0 b, bit_and-bitwise 0 (b / 2))
bit_and_halves (suc a) b = omega (
  arith,
  bit_and-bitwise (suc a) b,
  bit_and-bitwise (suc a / 2) (b / 2),
  idle_fuel (λ c. zero) min a (suc a / 2) (b / 2) (omega arith),
)

bit_or_halves : (a b : ℕ) → bit_or a b ≡ 2 * bit_or (a / 2) (b / 2) + max (a % 2) (b % 2)
bit_or_halves zero b = omega (arith, bit_or-bitwise 0 b, bit_or-bitwise 0 (b / 2))
bit_or_halves (suc a) b = omega (
  arith,
  bit_or-bitwise (suc a) b,
  bit_or-bitwise (suc a / 2) (b / 2),
  idle_fuel (λ c. c) max a (suc a / 2) (b / 2) (omega arith),
)

bit_and-zero_below : (n a : ℕ) → a ≤ n → bit_and a 0 ≡ 0
bit_and-zero_below n zero h = refl
bit_and-zero_below zero (suc a) h = absurd (omega arith)
bit_and-zero_below (suc n) (suc a) h =
    omega (arith, bit_and_halves (suc a) 0, bit_and-zero_below n (suc a / 2) (omega arith))

bit_or-zero_below : (n a : ℕ) → a ≤ n → bit_or a 0 ≡ a
bit_or-zero_below n zero h = refl
bit_or-zero_below zero (suc a) h = absurd (omega arith)
bit_or-zero_below (suc n) (suc a) h =
    omega (arith, bit_or_halves (suc a) 0, bit_or-zero_below n (suc a / 2) (omega arith))

-- `x | 1` sets the lowest bit.
pub bit_or-one : (a : ℕ) → bit_or a 1 ≡ a - a % 2 + 1
bit_or-one a = omega (arith, bit_or_halves a 1, bit_or-zero_below (a / 2) (a / 2) (omega arith))

mod_halves : (p n : ℕ) → 0 < p → n % (2 * p) ≡ 2 * (n / 2 % p) + n % 2
mod_halves p n h = grind (arith, div-add-mod (n / 2) p)

-- `x & (2^k - 1)` is the remainder.
pub bit_and_low : (k a : ℕ) → bit_and a (2 ^ k - 1) ≡ a % 2 ^ k
bit_and_low zero a = omega (arith, bit_and-zero_below a a (omega arith))
bit_and_low (suc k) a = ground (
  arith,
  bit_and_halves a (2 ^ suc k - 1),
  pow-suc 2 k,
  one-le-pow k 2,
  bit_and_low k (a / 2),
  mod_halves (2 ^ k) a,
)

-- `x & !(2^k - 1)` over `w` bits clears what is below `2^k`.
pub bit_and_high : (k w a : ℕ) → k ≤ w → a < 2 ^ w → bit_and a (2 ^ w - 2 ^ k) ≡ a - a % 2 ^ k
bit_and_high zero w a le h = ground (arith, bit_and_low w a, mod-eq_of_lt h)
bit_and_high (suc k) zero a le h = absurd (omega arith)
bit_and_high (suc k) (suc w) a le h = ground (
  arith,
  bit_and_halves a (2 ^ suc w - 2 ^ suc k),
  pow-suc 2 k,
  pow-suc 2 w,
  one-le-pow k 2,
  pow-le-pow_right {n = 2} (omega arith) {i = k} {j = w} (omega arith),
  bit_and_high k w (a / 2),
  mod_halves (2 ^ k) a,
)
