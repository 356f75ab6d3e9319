-- ===== src/Linear/Fits.antt =====
-- What the slot of a place is when head and tail are known, and the slots when one of them moves on, in the
-- queue of src/array_queue.rs.
use ref_count.Common.{
  ℕ, suc, ◌+◌, ◌-◌, ◌*◌, ◌%◌, ◌≤◌, ◌<◌, ◌≡◌, ◌≢◌, Option, some, List, [], ◌∷◌, ◌++◌, length,
  length-append, get_elem?, get_elem?_lt, get_elem?-append, sym, ap, ◌∙◌, arith,
}
use native.Mathlib.Nat.{add-mod_right}
use native.Mathlib.Decide.{dec_lt, ℕ_discrete}
use ref_count.Queue.Position.{stamp_of}
use ref_count.Queue.Contents.{index-ne}
use ref_count.Linear.Slots.{
  Slot, free, filling, filled, emptying, swapping, version_of, place_in, Fits,
}

-- Places with the same index that are less than a lap apart are the same.
pub same_index : (p q c : ℕ) → p < q + c → q < p + c → p % c ≡ q % c → p ≡ q
same_index p q c hp hq e = elim (ℕ_discrete p q) [
  | yes same ↦ same
  | no ne ↦ elim (dec_lt p q) [
    | yes before ↦ absurd (index-ne p q c before hq e)
    | no not_before ↦ absurd (index-ne q p c (omega arith) hp (sym e))
  ]
]

module _ {T : Type 0} (capacity bits h : ℕ) (items : List T) where
  pub home :
      (i stamp : ℕ) (value : Option T) (slot : Slot T)
      → Fits capacity bits h items i stamp value slot
      → place_in slot % capacity ≡ i
  home i stamp value (free p) fits = fits.0
  home i stamp value (filling p j v w) fits = fits.0
  home i stamp value (filled p v) fits = fits.0
  home i stamp value (emptying p j v w) fits = fits.0
  home i stamp value (swapping p j old v stage) fits = fits.0

  -- The stamp that a load finds.
  pub stamp_found :
      (i stamp : ℕ) (value : Option T) (slot : Slot T)
      → Fits capacity bits h items i stamp value slot
      → (p full : ℕ) × (p % capacity ≡ i)
        × (p < h + capacity)
        × (full ≤ 1)
        × (stamp ≡ stamp_of capacity bits p + full)
        × (version_of slot ≡ 2 * p + full)
  stamp_found i stamp value (free p) fits =
      (p, 0, fits.0, fits.3, omega arith, omega arith, omega arith)
  stamp_found i stamp value (filling p j v w) fits =
      (p, 0, fits.0, fits.3, omega arith, omega arith, omega arith)
  stamp_found i stamp value (filled p v) fits =
      (p, 1, fits.0, fits.3, omega arith, omega arith, omega arith)
  stamp_found i stamp value (emptying p j v w) fits =
      (p, 1, fits.0, omega arith, omega arith, omega arith, omega arith)
  stamp_found i stamp value (swapping p j old v stage) fits =
      (p, 1, fits.0, omega (arith, fits.2), omega arith, fits.1, omega arith)

  -- The slot of the place at the tail, if its version is that of the place or later.
  pub free_at_tail :
      (t i stamp : ℕ) (value : Option T) (slot : Slot T)
      → t ≡ h + length items
      → length items ≤ capacity
      → i ≡ t % capacity
      → Fits capacity bits h items i stamp value slot
      → 2 * t ≤ version_of slot
      → (slot ≡ free t) × (length items < capacity)
  free_at_tail t i stamp value (free p) e le ei fits low =
      let here : p ≡ t = same_index p t capacity (omega arith) (omega arith) (fits.0 ∙ ei) in
      (ap free here, omega arith)
  free_at_tail t i stamp value (filling p j v w) e le ei fits low =
      absurd (omega (arith, get_elem?_lt items (p - h) fits.4))
  free_at_tail t i stamp value (filled p v) e le ei fits low =
      absurd (omega (arith, get_elem?_lt items (p - h) fits.4))
  free_at_tail t i stamp value (emptying p j v w) e le ei fits low = absurd (omega arith)
  free_at_tail t i stamp value (swapping p j old v stage) e le ei fits low =
      absurd (omega (arith, fits.2))

  -- The slot of the place at the head, if its version is later than that of the place.
  pub filled_at_head :
      (i stamp : ℕ) (value : Option T) (slot : Slot T)
      → i ≡ h % capacity
      → Fits capacity bits h items i stamp value slot
      → 2 * h + 1 ≤ version_of slot
      → (v : T) × (slot ≡ filled h v) × (get_elem? items 0 ≡ some v) × (value ≡ some v)
  filled_at_head i stamp value (free p) ei fits low =
      absurd (omega (arith, same_index p h capacity (omega arith) (omega arith) (fits.0 ∙ ei)))
  filled_at_head i stamp value (filling p j v w) ei fits low =
      absurd (omega (arith, same_index p h capacity (omega arith) (omega arith) (fits.0 ∙ ei)))
  filled_at_head i stamp value (filled p v) ei fits low =
      let here : p ≡ h = same_index p h capacity (omega arith) (omega arith) (fits.0 ∙ ei) in
      let first : p - h ≡ 0 = omega arith in
      (v, ap (λ p. filled p v) here, rw first at fits.4, fits.5)
  filled_at_head i stamp value (emptying p j v w) ei fits low = absurd (omega arith)
  filled_at_head i stamp value (swapping p j old v stage) ei fits low =
      absurd (omega (arith, fits.2))

  -- The other slots when the tail moves on from its place, and when the head does.
  pub Fits-tail :
      (x : T) (i stamp : ℕ) (value : Option T) (slot : Slot T)
      → i ≢ (h + length items) % capacity
      → Fits capacity bits h items i stamp value slot
      → Fits capacity bits h (items ++ (x ∷ [])) i stamp value slot
  Fits-tail x i stamp value (free p) ne fits =
      let other : p ≢ h + length items = λ e. ne (sym fits.0 ∙ ap (λ p. p % capacity) e) in
      (fits.0, fits.1, omega (arith, length-append items (x ∷ []), other), fits.3)
  Fits-tail x i stamp value (filling p j v w) ne fits =
      (fits.0, fits.1, fits.2, fits.3, get_elem?-append items (x ∷ []) (p - h) fits.4, fits.5)
  Fits-tail x i stamp value (filled p v) ne fits =
      (fits.0, fits.1, fits.2, fits.3, get_elem?-append items (x ∷ []) (p - h) fits.4, fits.5)
  Fits-tail x i stamp value (emptying p j v w) ne fits =
      let other : p + capacity ≢ h + length items =
        λ e. ne (sym fits.0 ∙ sym (add-mod_right p capacity) ∙ ap (λ p. p % capacity) e) in
      (fits.0, fits.1, fits.2, omega (arith, length-append items (x ∷ []), other), fits.4)
  Fits-tail x i stamp value (swapping p j old v stage) ne fits = (
    fits.0,
    fits.1,
    fits.2,
    fits.3,
    get_elem?-append items (x ∷ []) (p + capacity - h) fits.4,
    fits.5,
  )

module _ {T : Type 0} (capacity bits h : ℕ) (x : T) (items : List T) where
  shifted :
      (p : ℕ) (v : T)
      → h + 1 ≤ p
      → get_elem? (x ∷ items) (p - h) ≡ some v
      → get_elem? items (p - (h + 1)) ≡ some v
  shifted p v le e = let next : p - h ≡ suc (p - (h + 1)) = omega arith in rw next at e

  pub Fits-head :
      (i stamp : ℕ) (value : Option T) (slot : Slot T)
      → i ≢ h % capacity
      → Fits capacity bits h (x ∷ items) i stamp value slot
      → Fits capacity bits (h + 1) items i stamp value slot
  Fits-head i stamp value (free p) ne fits = (fits.0, fits.1, omega arith, omega arith)
  Fits-head i stamp value (filling p j v w) ne fits =
      let other : p ≢ h = λ e. ne (sym fits.0 ∙ ap (λ p. p % capacity) e) in
      let le : h + 1 ≤ p = omega (arith, other) in
      (fits.0, fits.1, le, omega arith, shifted p v le fits.4, fits.5)
  Fits-head i stamp value (filled p v) ne fits =
      let other : p ≢ h = λ e. ne (sym fits.0 ∙ ap (λ p. p % capacity) e) in
      let le : h + 1 ≤ p = omega (arith, other) in
      (fits.0, fits.1, le, omega arith, shifted p v le fits.4, fits.5)
  Fits-head i stamp value (emptying p j v w) ne fits =
      (fits.0, fits.1, omega arith, omega arith, fits.4)
  Fits-head i stamp value (swapping p j old v stage) ne fits =
      let other : p + capacity ≢ h =
        λ e. ne (sym fits.0 ∙ sym (add-mod_right p capacity) ∙ ap (λ p. p % capacity) e) in
      let le : h + 1 ≤ p + capacity = omega (arith, other, fits.3) in
      (fits.0, fits.1, omega (arith, fits.2), le, shifted (p + capacity) v le fits.4, fits.5)
