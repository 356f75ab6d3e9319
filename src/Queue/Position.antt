-- ===== src/Queue/Position.antt =====
-- The stamps of src/array_queue.rs as positions: the places of the queue, counted from its creation
-- on, are numbered 0, 1, 2, …; place `p` has the index `p % capacity` in lap `p / capacity`, and laps
-- count up to the width of `usize`.
use native.Mathlib.Nat.{
  mod-add-mod, mod-eq_of_lt, div-eq_of_lt, zero-mod, one-le-pow, pow-le-pow_right, mul-le-mul_right,
  mod-lt, add-div_right, add-mod_right,
}
use native.Mathlib.Decide.{dec_lt}
use ref_count.Common.{
  ℕ, refl, lt→ltb, not-lt→ltb, ◌+◌, ◌-◌, ◌*◌, ◌/◌, ◌%◌, ◌^◌, ◌≤◌, ◌<◌, ◌≡◌, ap, ◌∙◌, arith,
  bit_and_low, bit_and_high,
}
use ref_count.Queue.Stamp.{
  usize_mod, not_usize, wrapping_add, wrapping_sub, one_lap, index_of, lap_of, next_stamp,
}
use ref_count.Queue.Laps.{fields-mod, suc-fields_of_lt, suc-fields_of_eq, add_lap, two_pow-add}
use ref_count.Queue.Shape.{Shape}

abbrev pub laps : ℕ → ℕ
laps bits = 2 ^ (64 - bits)

-- The stamp of place `p`.
unfoldable pub stamp_of : (capacity bits p : ℕ) → ℕ
stamp_of capacity bits p = p / capacity % laps bits * 2 ^ bits + p % capacity

module _ {capacity bits : ℕ} (shape : Shape capacity bits) where
  open shape use {not_empty, fits, narrow, lap_eq}

  abbrev width : ℕ
  width = 2 ^ bits

  all_bits : 64 - bits + bits ≡ 64
  all_bits = omega arith

  pub laps-width : laps bits * width ≡ usize_mod
  laps-width = two_pow-add (64 - bits) bits ∙ ap (λ x. 2 ^ x) all_bits

  pub width_bounds : (2 ≤ width) × (width ≤ 2 ^ 63)
  width_bounds = (omega arith, pow-le-pow_right {n = 2} (omega arith) {i = bits} {j = 63} narrow)

  index_lt : (p : ℕ) → p % capacity < width
  index_lt p = omega (arith, mod-lt p not_empty)

  lap_lt : (p : ℕ) → p / capacity % laps bits + 1 ≤ laps bits
  lap_lt p =
      omega (arith, mod-lt (p / capacity) {m = laps bits} (omega (arith, one-le-pow (64 - bits) 2)))

  -- A stamp never is the largest `usize`, so `stamp + 1` does not overflow.
  pub stamp_lt : (p : ℕ) → stamp_of capacity bits p + 1 < usize_mod
  unfolding stamp_of
  stamp_lt p = omega (
    arith,
    laps-width,
    mod-lt p not_empty,
    mul-le-mul_right {m = p / capacity % laps bits + 1} {n = laps bits} width (lap_lt p),
  )

  pub stamp-mod : (p : ℕ) → stamp_of capacity bits p % width ≡ p % capacity
  unfolding stamp_of
  stamp-mod p = fields-mod (p / capacity % laps bits) width (p % capacity) (index_lt p)

  pub index_of-stamp :
      (p : ℕ) → index_of (one_lap capacity) (stamp_of capacity bits p) ≡ p % capacity
  unfolding index_of
  index_of-stamp p = rw lap_eq (bit_and_low bits _ ∙ stamp-mod p)

  lap_of-stamp :
      (p : ℕ)
      → lap_of (one_lap capacity) (stamp_of capacity bits p) ≡ p / capacity % laps bits * width
  unfolding lap_of stamp_of
  lap_of-stamp p =
      let mask : not_usize (2 ^ bits - 1) ≡ 2 ^ 64 - 2 ^ bits = omega (arith, width_bounds) in
      rw (lap_eq, mask)
        (omega (
          arith,
          bit_and_high bits 64 (stamp_of capacity bits p) (omega arith) (omega (arith, stamp_lt p)),
          stamp-mod p,
        ))

  -- One lap on.
  pub stamp-add_lap :
      (p : ℕ)
      → wrapping_add (stamp_of capacity bits p) (one_lap capacity)
        ≡ stamp_of capacity bits (p + capacity)
  unfolding stamp_of
  stamp-add_lap p =
      rw (lap_eq, ← laps-width, add-div_right p not_empty)
        (add_lap (p / capacity % laps bits) (laps bits) width (p % capacity)
            (omega (arith, lap_lt p)) (index_lt p)
          ∙ same_fields)
    where
      same_fields :
          (p / capacity % laps bits + 1) % laps bits * width + p % capacity
          ≡ (p / capacity + 1) % laps bits * width + (p + capacity) % capacity
      same_fields = rw (mod-add-mod (p / capacity) (laps bits) 1, add-mod_right p capacity) refl

  pub stamp-sub_lap :
      (p : ℕ)
      → wrapping_sub (stamp_of capacity bits (p + capacity)) (one_lap capacity)
        ≡ stamp_of capacity bits p
  stamp-sub_lap p = rw (← stamp-add_lap p, lap_eq) (omega (arith, stamp_lt p, width_bounds))

  stamp_inside :
      (p : ℕ)
      → p % capacity + 1 < capacity
      → stamp_of capacity bits p + 1 ≡ stamp_of capacity bits (p + 1)
  unfolding stamp_of
  stamp_inside p h =
      rw ((suc-fields_of_lt p capacity h).0, (suc-fields_of_lt p capacity h).1) (omega arith)

  stamp_last :
      (p : ℕ)
      → p % capacity + 1 ≡ capacity
      → wrapping_add (p / capacity % laps bits * width) (one_lap capacity)
        ≡ stamp_of capacity bits (p + 1)
  unfolding stamp_of
  stamp_last p h =
      let lap = p / capacity % laps bits in
      let at_zero : lap * width + width ≡ lap * width + 0 + width = omega arith in
      rw
        (
          lap_eq,
          ← laps-width,
          (suc-fields_of_eq p capacity h).0,
          (suc-fields_of_eq p capacity h).1,
          ← mod-add-mod (p / capacity) (laps bits) 1,
          at_zero,
        )
        (add_lap lap (laps bits) width 0 (omega (arith, lap_lt p)) (omega (arith, index_lt p)))

  -- One place on.
  pub next_stamp-stamp :
      (p : ℕ)
      → next_stamp capacity (one_lap capacity) (stamp_of capacity bits p)
        ≡ stamp_of capacity bits (p + 1)
  unfolding next_stamp
  next_stamp-stamp p = elim (dec_lt (p % capacity + 1) capacity) [
    | yes inside ↦ rw (index_of-stamp p, lt→ltb _ _ inside) (stamp_inside p inside)
    | no last ↦
        rw (index_of-stamp p, not-lt→ltb _ _ last, lap_of-stamp p)
          (stamp_last p (omega (arith, mod-lt p not_empty)))
  ]

-- The first lap.
pub stamp_of_lt : (capacity bits p : ℕ) → p < capacity → stamp_of capacity bits p ≡ p
unfolding stamp_of
stamp_of_lt capacity bits p h =
    rw (div-eq_of_lt h, mod-eq_of_lt h, zero-mod (laps bits)) (omega arith)
