-- ===== src/Backoff/Bounds.antt =====
-- How long src/backoff.rs lets a loop wait, and when it yields.
use native.Mathlib.Nat.{pow-le-pow_right}
use ref_count.Common.{ℕ, zero, suc, ◌+◌, ◌*◌, ◌%◌, ◌^◌, ◌≤◌, ◌≡◌, ap, arith, bit_and_low}
use ref_count.Backoff.{Backoff, slight_spin, snooze}

slight_spin_lem : (n : ℕ) → slight_spin n ≡ 2 * 2 ^ (n % 8)
unfolding slight_spin
slight_spin_lem n = ap (λ k. 2 * 2 ^ k) (bit_and_low 3 n)

pow_bounds : (k : ℕ) → k ≤ 7 → (1 ≤ 2 ^ k) × (2 ^ k ≤ 128)
pow_bounds k h = omega (
  arith,
  pow-le-pow_right {n = 2} (omega arith) {i = 0} {j = k} (omega arith),
  pow-le-pow_right {n = 2} (omega arith) {i = k} {j = 7} h,
)

-- Every call of `slight_spin!` runs between 2 and 256 rounds, and eight attempts later it runs as
-- many rounds again.
pub slight_spin_bounds :
    (n : ℕ) → (2 ≤ slight_spin n) × (slight_spin n ≤ 256) × (slight_spin (n + 8) ≡ slight_spin n)
slight_spin_bounds n = (
  omega (arith, slight_spin_lem n, pow_bounds (n % 8) (omega arith)),
  omega (arith, slight_spin_lem n, pow_bounds (n % 8) (omega arith)),
  rw (slight_spin_lem (n + 8), slight_spin_lem n) (ap (λ k. 2 * 2 ^ k) (omega arith)),
)

-- `n` calls of `snooze` in a row
pub snoozes : ℕ → Backoff → Backoff
snoozes zero b = b
snoozes (suc n) b = (snooze (snoozes n b)).1
