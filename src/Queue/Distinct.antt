-- ===== src/Queue/Distinct.antt =====
-- Until the laps of src/array_queue.rs have run through the width of `usize`, different places have
-- different stamps, and a stamp tells whether its slot is free or filled.
use native.Mathlib.Nat.{
  mod-eq_of_lt, div-lt_iff_lt-mul, div-add-mod, mul-div_cancel, mod-lt, mod-add-mod,
  mul-le-mul_right,
}
use ref_count.Common.{ℕ, ◌+◌, ◌*◌, ◌/◌, ◌%◌, ◌^◌, ◌≤◌, ◌<◌, ◌≡◌, ◌≢◌, sym, ap, ◌∙◌, arith}
use ref_count.Queue.Shape.{Shape, lap_le_double}
use ref_count.Queue.Position.{laps, stamp_of, stamp-mod, width_bounds, laps-width}

module _ {capacity bits : ℕ} (shape : Shape capacity bits) where
  -- The number of places that have stamps of their own.
  abbrev pub places : ℕ
  places = capacity * laps bits

  stamp_of_early :
      (p : ℕ) → p < places → stamp_of capacity bits p ≡ p / capacity * 2 ^ bits + p % capacity
  unfolding stamp_of
  stamp_of_early p h =
      let early : p / capacity < laps bits =
        (div-lt_iff_lt-mul shape.not_empty).1 (omega (arith, h)) in
      rw (mod-eq_of_lt early) (omega arith)

  pub same_place :
      (p q : ℕ)
      → p < places
      → q < places
      → stamp_of capacity bits p ≡ stamp_of capacity bits q
      → p ≡ q
  same_place p q hp hq e =
      let index : p % capacity ≡ q % capacity =
        sym (stamp-mod shape p) ∙ ap (λ x. x % 2 ^ bits) e ∙ stamp-mod shape q in
      let products : p / capacity * 2 ^ bits ≡ q / capacity * 2 ^ bits =
        omega (arith, stamp_of_early p hp, stamp_of_early q hq) in
      let positive : 0 < 2 ^ bits = omega (arith, width_bounds shape) in
      let lap : p / capacity ≡ q / capacity =
        sym (mul-div_cancel (p / capacity) positive)
        ∙ ap (λ x. x / 2 ^ bits) products
        ∙ mul-div_cancel (q / capacity) positive in
      sym (div-add-mod p capacity) ∙ rw (lap, index) (div-add-mod q capacity)

  -- A stamp that is one more than that of a place is not the stamp of a place with the same index.
  pub filled-ne-free :
      (p q : ℕ)
      → p % capacity ≡ q % capacity
      → stamp_of capacity bits p + 1 ≢ stamp_of capacity bits q
  filled-ne-free p q same e =
      let next : (stamp_of capacity bits p + 1) % 2 ^ bits ≡ p % capacity =
        ap (λ x. x % 2 ^ bits) e ∙ stamp-mod shape q ∙ sym same in
      let plain : (stamp_of capacity bits p + 1) % 2 ^ bits ≡ p % capacity + 1 =
        sym (mod-add-mod (stamp_of capacity bits p) (2 ^ bits) 1)
        ∙ ap (λ x. (x + 1) % 2 ^ bits) (stamp-mod shape p)
        ∙ mod-eq_of_lt (omega (arith, mod-lt p shape.not_empty, shape.fits)) in
      omega (arith, next, plain)

  -- For a capacity below 2^60 the places with stamps of their own are enough for 2^62 places and two
  -- laps.
  pub places_suffice :
      (n : ℕ) → capacity < 2 ^ 60 → n ≤ 2 ^ 62 → n + capacity + capacity ≤ capacity * laps bits
  places_suffice n small few =
      let whole : 2 ^ 64 ≤ 2 * (capacity * laps bits) = omega (
        arith,
        laps-width shape,
        mul-le-mul_right {m = 2 ^ bits} {n = 2 * capacity} (laps bits)
            (lap_le_double capacity bits shape),
      ) in
      omega arith
