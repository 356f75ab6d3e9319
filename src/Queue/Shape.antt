-- ===== src/Queue/Shape.antt =====
-- The capacities for which `ArrayQueue` of src/array_queue.rs works, and their `one_lap`.
use native.Mathlib.Nat.{pow-suc, pow-le-pow_right}
use native.Mathlib.Decide.{dec_lt}
use ref_count.Common.{
  ℕ, zero, suc, ◌+◌, ◌*◌, ◌^◌, ◌≤◌, ◌<◌, ◌≡◌, refl, ap, inl, inr, true, arith, ltb, Bool-cases,
}
use ref_count.Queue.Stamp.{one_lap, next_power_of_two, doubled_to}

-- The sizes of a queue: `2 ^ bits` is its `one_lap`.
pub record Shape (capacity bits : ℕ) : Type 0 where
  pub not_empty : 0 < capacity
  pub fits : capacity < 2 ^ bits
  pub narrow : bits ≤ 63
  pub lap_eq : one_lap capacity ≡ 2 ^ bits

-- The doubling stops at the first power that is not below `n`, and before any `2 ^ m` that is not.
doubled_to_lem :
    (fuel j n m : ℕ)
    → n ≤ 2 ^ m
    → j ≤ m
    → m ≤ j + fuel
    → (bits : ℕ) × (doubled_to fuel (2 ^ j) n ≡ 2 ^ bits) × (n ≤ 2 ^ bits) × (bits ≤ m)
unfolding doubled_to
doubled_to_lem zero j n m h lo hi = let same : j ≡ m = omega arith in (j, refl, rw same h, lo)
doubled_to_lem (suc fuel) j n m h lo hi = elim (Bool-cases (ltb (2 ^ j) n)) [
  | inl more ↦
      let (bits, e, le, few) = doubled_to_lem fuel (suc j) n m h (further more) (omega arith) in
      (bits, rw (more, double) e, le, few)
  | inr done ↦ (j, rw done, ground arith, lo)
]
  where
    double : 2 * 2 ^ j ≡ 2 ^ suc j
    double = omega (arith, pow-suc 2 j)

    further : ltb (2 ^ j) n ≡ true → suc j ≤ m
    further more = elim (dec_lt j m) [
      | yes below ↦ below
      | no not_below ↦ absurd (ground (arith, ap (λ x. 2 ^ x) (at_end not_below)))
    ]
      where
        at_end : ¬ (j < m) → j ≡ m
        at_end k = omega arith

-- For every capacity that is not 0 and below 2^63, `one_lap` of `ArrayQueue::new` is a power of two, at
-- most 2^63 and above the capacity.
pub Shape_exists :
    (capacity : ℕ) → 0 < capacity → capacity < 2 ^ 63 → (bits : ℕ) × Shape capacity bits
unfolding next_power_of_two one_lap
Shape_exists capacity pos small =
    let (bits, e, le, few) =
      doubled_to_lem 64 0 (capacity + 1) 63 (omega arith) (omega arith) (omega arith) in
    (bits, record { not_empty = pos; fits = omega arith; narrow = few; lap_eq = e })

-- `one_lap` is at most twice the capacity.
pub lap_le_double : (capacity bits : ℕ) → Shape capacity bits → 2 ^ bits ≤ 2 * capacity
unfolding next_power_of_two one_lap
lap_le_double capacity zero shape = omega (arith, shape.not_empty)
lap_le_double capacity (suc b) shape = elim (dec_lt (2 * capacity) (2 ^ suc b)) [
  | no not_more ↦ omega arith
  | yes more ↦
      let half : capacity + 1 ≤ 2 ^ b = omega (arith, pow-suc 2 b) in
      let (bits, e, le, few) =
        doubled_to_lem 64 0 (capacity + 1) b half (omega arith) (omega (arith, shape.narrow)) in
      let smaller : 2 ^ bits ≤ 2 ^ b =
        pow-le-pow_right {n = 2} (omega arith) {i = bits} {j = b} few in
      absurd (omega (arith, e, shape.lap_eq, pow-suc 2 b))
]
