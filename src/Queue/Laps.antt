-- ===== src/Queue/Laps.antt =====
-- Arithmetic for the stamps of src/array_queue.rs: numbers made of a lap and an index.
use native.Mathlib.Nat.{
  mod-eq_of_lt, mod_self, pow-suc, mul-add-mod_self_right, mul-add-div_right, div-eq_of_lt,
  div-add-mod', mul-le-mul_right, zero-add, suc-add,
}
use native.Mathlib.Decide.{dec_lt}
use ref_count.Common.{ℕ, zero, suc, ◌+◌, ◌*◌, ◌/◌, ◌%◌, ◌^◌, ◌<◌, ◌≡◌, ap, ◌∙◌, arith}

pub fields-mod : (y l i : ℕ) → i < l → (y * l + i) % l ≡ i
fields-mod y l i h = mul-add-mod_self_right y l i ∙ mod-eq_of_lt h

pub fields-div : (y l i : ℕ) → i < l → (y * l + i) / l ≡ y
fields-div y l i h =
    omega (arith, mul-add-div_right {m = l} (omega arith) y i, div-eq_of_lt {n = i} {m = l} h)

-- One place on: the index goes up, or goes back to 0 while the lap goes up.
pub suc-fields_of_lt : (p c : ℕ) → p % c + 1 < c → ((p + 1) % c ≡ p % c + 1) × ((p + 1) / c ≡ p / c)
suc-fields_of_lt p c h =
    let e : p + 1 ≡ p / c * c + (p % c + 1) = omega (arith, div-add-mod' p c) in
    (
      ap (λ x. x % c) e ∙ fields-mod (p / c) c (p % c + 1) h,
      ap (λ x. x / c) e ∙ fields-div (p / c) c (p % c + 1) h,
    )

pub suc-fields_of_eq : (p c : ℕ) → p % c + 1 ≡ c → ((p + 1) % c ≡ 0) × ((p + 1) / c ≡ p / c + 1)
suc-fields_of_eq p c h =
    let e : p + 1 ≡ (p / c + 1) * c + 0 = omega (arith, div-add-mod' p c, ap (λ x. p / c * x) h) in
    (
      ap (λ x. x % c) e ∙ fields-mod (p / c + 1) c 0 (omega arith),
      ap (λ x. x / c) e ∙ fields-div (p / c + 1) c 0 (omega arith),
    )

-- One lap on, within `m` laps of `l` places.
pub add_lap : (y m l i : ℕ) → y < m → i < l → (y * l + i + l) % (m * l) ≡ (y + 1) % m * l + i
add_lap y m l i hy hi = elim (dec_lt (y + 1) m) [
  | yes p ↦ rw (mod-eq_of_lt p) (
      omega (
        arith,
        mul-le-mul_right {m = y + 2} {n = m} l (omega arith),
        mod-eq_of_lt {n = y * l + i + l} {m = m * l}
            (omega (arith, mul-le-mul_right {m = y + 2} {n = m} l (omega arith))),
      ))
  | no p ↦
      let e : m ≡ y + 1 = omega arith in
      let below : i < (y + 1) * l =
        omega (arith, mul-le-mul_right {m = 1} {n = y + 1} l (omega arith)) in
      let around : y * l + i + l ≡ 1 * ((y + 1) * l) + i = omega arith in
      rw (e, mod_self, around) (omega (arith, fields-mod 1 ((y + 1) * l) i below))
]

pub two_pow-add : (d k : ℕ) → 2 ^ d * 2 ^ k ≡ 2 ^ (d + k)
two_pow-add zero k = rw zero-add (omega arith)
two_pow-add (suc d) k = rw suc-add (
    omega
      (arith, pow-suc 2 d, pow-suc 2 (d + k), two_pow-add d k, ap (λ x. x * 2 ^ k) (pow-suc 2 d)))
