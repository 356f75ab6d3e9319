-- ===== src/Queue/Observers.antt =====
-- `is_empty`, `is_full`, `len` and `IntoIter::next` of src/array_queue.rs on a queue that no other
-- thread uses.
use native.Mathlib.Nat.{mod-lt, add-zero, add-mod_right, mod-add-mod, mod-eq_of_lt, mod-eq-sub-mod}
use ref_count.Common.{
  ℕ, suc, ◌+◌, ◌-◌, ◌%◌, ◌^◌, ◌≤◌, ◌<◌, ◌≡◌, ◌≢◌, ap, ◌∙◌, sym, Bool, List, arith, length, ◌⊎◌, inl,
  inr, ◌==◌,
}
use native.Mathlib.Decide.{dec_lt}
use ref_count.Program.{returned, run}
use ref_count.Queue.Memory.{Memory, apply}
use ref_count.Queue.Ops.{is_empty, is_full, len, queue_size}
use ref_count.Queue.Shape.{Shape}
use ref_count.Queue.Position.{
  stamp_of, stamp-mod, index_of-stamp, stamp-add_lap, stamp_lt, width_bounds,
}
use ref_count.Queue.Contents.{Holds, index-ne}

-- Stamps of places up to a lap apart are different.
stamp-ne :
    {capacity bits : ℕ} (shape : Shape capacity bits) (p q : ℕ)
    → p < q
    → q ≤ p + capacity
    → stamp_of capacity bits p ≢ stamp_of capacity bits q
stamp-ne {capacity} {bits} shape p q lo hi same = elim (dec_lt q (p + capacity)) [
  | yes inside ↦
      index-ne p q capacity lo inside
        (sym (stamp-mod shape p) ∙ ap (λ x. x % 2 ^ bits) same ∙ stamp-mod shape q)
  | no lap_on ↦
      let e : q ≡ p + capacity = omega arith in
      let same' : stamp_of capacity bits p ≡ stamp_of capacity bits (p + capacity) =
        rw (← e) same in
      omega (arith, shape.lap_eq, width_bounds shape, stamp-add_lap shape p, stamp_lt shape p)
]

-- The index that is `n` places on, within a lap.
pub index-add :
    (h n c : ℕ)
    → n ≤ c
    → 0 < c
    → ((h % c + n < c) × ((h + n) % c ≡ h % c + n))
      ⊎ ((c ≤ h % c + n) × ((h + n) % c ≡ h % c + n - c))
index-add h n c le pos = elim (dec_lt (h % c + n) c) [
  | yes inside ↦ inl (inside, sym (mod-add-mod h c n) ∙ mod-eq_of_lt inside)
  | no around ↦
      let over : c ≤ h % c + n = omega arith in
      inr (
        over,
        sym (mod-add-mod h c n) ∙ mod-eq-sub-mod over ∙ mod-eq_of_lt (omega (arith, mod-lt h pos)),
      )
]

module _ {capacity bits : ℕ} (shape : Shape capacity bits) where
  -- The stamps of head and tail tell an empty, a full and another queue apart.
  pub ends_apart :
      (h n : ℕ)
      → n ≤ capacity
      → ((n ≡ 0) ⊎ (stamp_of capacity bits h ≢ stamp_of capacity bits (h + n)))
        × ((n ≡ capacity)
            ⊎ (stamp_of capacity bits (h + n) ≢ stamp_of capacity bits (h + capacity)))
  ends_apart h n le = (
    elim (dec_lt 0 n) [
      | yes some_items ↦ inr (stamp-ne shape h (h + n) (omega arith) (omega arith))
      | no empty ↦ inl (omega arith)
    ],
    elim (dec_lt n capacity) [
      | yes room ↦ inr (stamp-ne shape (h + n) (h + capacity) (omega arith) (omega arith))
      | no full ↦ inl (omega arith)
    ],
  )

module _ {T : Type 0} {capacity bits : ℕ} (shape : Shape capacity bits) where
  -- `is_empty` of a queue that no other thread uses tells whether it holds nothing, `is_full` whether
  -- it holds as many values as its capacity, and `len` how many it holds, after one round of its loop.
  pub observers_exact :
      (fuel h : ℕ) (items : List T) (m : Memory T) (misses : List Bool)
      → Holds capacity bits h items m
      → ((run apply (is_empty capacity) (record { mem = m; misses = misses })).0
          ≡ returned (length items == 0))
        × ((run apply (is_full capacity) (record { mem = m; misses = misses })).0
            ≡ returned (length items == capacity))
        × ((run apply (len capacity (suc fuel)) (record { mem = m; misses = misses })).0
            ≡ returned (length items))
  unfolding is_empty is_full len queue_size
  observers_exact fuel h items m misses holds = (
    ground (arith, holds.head_eq, holds.tail_eq, apart.0, add-zero h),
    ground (arith, holds.head_eq, holds.tail_eq, apart.1, stamp-add_lap shape h),
    ground (
      arith,
      holds.head_eq,
      holds.tail_eq,
      apart.0,
      holds.bounded,
      index_of-stamp shape h,
      index_of-stamp shape (h + length items),
      index-add h (length items) capacity holds.bounded shape.not_empty,
      mod-lt h shape.not_empty,
      add-zero h,
      add-mod_right h capacity,
    ),
  )
    where
      apart :
          ((length items ≡ 0)
            ⊎ (stamp_of capacity bits h ≢ stamp_of capacity bits (h + length items)))
          × ((length items ≡ capacity)
              ⊎ (stamp_of capacity bits (h + length items) ≢ stamp_of capacity bits (h + capacity)))
      apart = ends_apart shape h (length items) holds.bounded
