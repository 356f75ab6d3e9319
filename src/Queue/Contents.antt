-- ===== src/Queue/Contents.antt =====
-- What the memory of a queue of src/array_queue.rs holds while no thread is inside one of its methods.
use native.Mathlib.Nat.{div-add-mod', add-mod_right, mod-eq_of_lt, zero-add}
use native.Mathlib.Decide.{dec_lt}
use ref_count.Common.{
  ℕ, suc, ◌+◌, ◌%◌, ◌≤◌, ◌<◌, ◌≡◌, refl, ◌≢◌, ap, sym, none, some, List, [], ◌∷◌, ◌++◌, arith,
  length, length-append, get_elem?, get_elem?_lt, get_elem?-append_one, update, inl, inr, ==_refl,
  ne→==,
}
use ref_count.Queue.Memory.{Memory}
use ref_count.Queue.Ops.{new}
use ref_count.Queue.Shape.{Shape}
use ref_count.Queue.Position.{stamp_of, stamp_of_lt}

-- The queue holds `items`, oldest first, and `h` values have been popped before. The slot of each
-- item carries the item and the stamp of its place plus 1; a slot that is free carries the stamp of
-- the place that comes to lie there next.
pub record Holds {T : Type 0} (capacity bits h : ℕ) (items : List T) (m : Memory T) : Type 0 where
  pub head_eq : m.head ≡ stamp_of capacity bits h
  pub tail_eq : m.tail ≡ stamp_of capacity bits (h + length items)
  pub bounded : length items ≤ capacity
  pub filled :
      (j : ℕ) (x : T)
      → get_elem? items j ≡ some x
      → (m.stamp ((h + j) % capacity) ≡ stamp_of capacity bits (h + j) + 1)
        × (m.value ((h + j) % capacity) ≡ some x)
  pub vacant :
      (j : ℕ)
      → length items ≤ j
      → j < capacity
      → m.stamp ((h + j) % capacity) ≡ stamp_of capacity bits (h + j)

-- Two places less than a lap apart have different indices.
pub index-ne : (p q c : ℕ) → p < q → q < p + c → p % c ≢ q % c
index-ne p q c lo hi e = grind (arith, div-add-mod' p c, div-add-mod' q c)

-- A write at one place does not reach another one less than a lap away.
pub update-ne :
    {A : Type 0} (c : ℕ) (f : ℕ → A) (p q : ℕ) (a : A)
    → p ≢ q
    → p < q + c
    → q < p + c
    → update f (p % c) a (q % c) ≡ f (q % c)
update-ne c f p q a ne lo hi = elim (dec_lt p q) [
  | yes before ↦ rw (ne→== (index-ne p q c before hi))
  | no not_before ↦ rw (ne→== (λ e. index-ne q p c (omega arith) lo (sym e)))
]

update-eq : {A : Type 0} (f : ℕ → A) (i : ℕ) (a : A) → update f i a i ≡ a
update-eq f i a = rw (==_refl i)

module _ {T : Type 0} (capacity bits : ℕ) where
  -- The memory after a push at place `t`, and after a pop at place `h`.
  abbrev pub pushed : (t : ℕ) → T → Memory T → Memory T
  pushed t v m = record m {
    tail = stamp_of capacity bits (t + 1);
    value = update m.value (t % capacity) (some v);
    stamp = update m.stamp (t % capacity) (stamp_of capacity bits t + 1);
  }

  abbrev pub popped : (h : ℕ) → Memory T → Memory T
  popped h m = record m {
    head = stamp_of capacity bits (h + 1);
    value = update m.value (h % capacity) none;
    stamp = update m.stamp (h % capacity) (stamp_of capacity bits (h + capacity));
  }

  pub pushed-Holds :
      (h : ℕ) (items : List T) (v : T) (m : Memory T)
      → length items < capacity
      → Holds capacity bits h items m
      → Holds capacity bits h (items ++ (v ∷ [])) (pushed (h + length items) v m)
  pushed-Holds h items v m room holds = record {
    head_eq = holds.head_eq;
    tail_eq = ap (stamp_of capacity bits) (omega (arith, length-append items (v ∷ [])));
    bounded = omega (arith, length-append items (v ∷ []));
    filled = λ j x e. elim (get_elem?-append_one items v j e) [
      | inl old ↦
          let lt : j < length items = get_elem?_lt items j old in
          rw
            (
              update-ne capacity m.stamp (h + length items) (h + j) _ (omega arith) (omega arith)
                  (omega arith),
              update-ne capacity m.value (h + length items) (h + j) _ (omega arith) (omega arith)
                  (omega arith),
            )
            (holds.filled j x old)
      | inr (at_end, same) ↦
          rw
            (
              at_end,
              update-eq m.stamp ((h + length items) % capacity) _,
              update-eq m.value ((h + length items) % capacity) _,
            )
            (refl, ap some same)
    ];
    vacant = λ j lo hi.
        let lt : length items < j = omega (arith, length-append items (v ∷ [])) in
        rw
          (update-ne capacity m.stamp (h + length items) (h + j) _ (omega arith) (omega arith)
            (omega arith))
          (holds.vacant j (omega arith) hi);
  }

  pub popped-Holds :
      (h : ℕ) (x : T) (items : List T) (m : Memory T)
      → Holds capacity bits h (x ∷ items) m
      → Holds capacity bits (h + 1) items (popped h m)
  popped-Holds h x items m holds = record {
    head_eq = refl;
    tail_eq = rw (place (length items)) holds.tail_eq;
    bounded = omega (arith, holds.bounded);
    filled = λ j y e.
        let lt : j < length items = get_elem?_lt items j e in
        rw
          (
            place j,
            update-ne capacity m.stamp h (h + suc j) _ (omega arith) (omega arith) (omega arith),
            update-ne capacity m.value h (h + suc j) _ (omega arith) (omega arith) (omega arith),
          )
          (holds.filled (suc j) y e);
    vacant = λ j lo hi. elim (dec_lt (suc j) capacity) [
      | yes inside ↦
          rw
            (
              place j,
              update-ne capacity m.stamp h (h + suc j) _ (omega arith) (omega arith) (omega arith),
            )
            (holds.vacant (suc j) (omega arith) inside)
      | no last ↦
          let around : h + 1 + j ≡ h + capacity = omega arith in
          rw (around, add-mod_right h capacity, update-eq m.stamp (h % capacity) _) refl
    ];
  }
    where
      place : (j : ℕ) → h + 1 + j ≡ h + suc j
      place j = omega arith

-- `ArrayQueue::new` gives an empty queue.
pub new-Holds :
    {T : Type 0} (capacity bits : ℕ) {m : Memory T}
    → Shape capacity bits
    → new capacity ≡ some m
    → Holds capacity bits 0 [] m
unfolding new
new-Holds {T} capacity bits {m} shape e = rw (sym fresh_eq) (record {
  head_eq = sym (stamp_of_lt capacity bits 0 shape.not_empty);
  tail_eq = sym (stamp_of_lt capacity bits 0 shape.not_empty);
  bounded = omega arith;
  filled = λ j x h. absurd (cc);
  vacant = λ j lo hi. rw (zero-add j, stamp_of_lt capacity bits j hi) (mod-eq_of_lt hi);
})
  where
    fresh : Memory T
    fresh = record { head = 0; tail = 0; stamp = λ i. i; value = λ i. none }

    fresh_eq : fresh ≡ m
    fresh_eq = ground (arith, shape.not_empty)
