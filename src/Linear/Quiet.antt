-- ===== src/Linear/Quiet.antt =====
-- The queue of src/array_queue.rs after every thread's call has returned.
use ref_count.Common.{
  ℕ, ◌+◌, ◌-◌, ◌%◌, ◌≤◌, ◌<◌, ◌≡◌, refl, sym, ap, ◌∙◌, List, length, get_elem?, get_elem?_lt, arith,
  Option, some, none,
}
use mathlib.Core.Path.{subst}
use native.Mathlib.Nat.{mod-lt}
use ref_count.Queue.Shape.{Shape}
use ref_count.Queue.Position.{stamp_of}
use ref_count.Queue.Contents.{Holds}
use ref_count.Linear.{Thread, System, Atomic}
use ref_count.Linear.Claims.{Claim, Seen}
use ref_count.Linear.Slots.{Slot, free, filling, filled, emptying, swapping, Fits, owner, slot_of}
use ref_count.Linear.Fits.{same_index}
use ref_count.Linear.Invariant.{Follows, Inv}
use ref_count.Linear.Lag.{word_place, claiming, Lags}

-- A slot that no thread owns is free for its place, or filled with the item of its place.
module _ {T : Type 0} (capacity bits h : ℕ) (items : List T) (few : length items ≤ capacity) where
  filled_slot :
      (j i stamp : ℕ) (x : T) (value : Option T) (slot : Slot T)
      → owner slot ≡ none
      → i ≡ (h + j) % capacity
      → get_elem? items j ≡ some x
      → Fits capacity bits h items i stamp value slot
      → (stamp ≡ stamp_of capacity bits (h + j) + 1) × (value ≡ some x)
  filled_slot j i stamp x value (free p) alone at_j item fits =
      let lt = get_elem?_lt items j item in
      absurd (
        omega (
          arith,
          lt,
          same_index p (h + j) capacity (omega (arith, lt)) (omega (arith, lt)) (fits.0 ∙ at_j),
        ))
  filled_slot j i stamp x value (filling p t v w) alone at_j item fits = absurd (cc)
  filled_slot j i stamp x value (filled p v) alone at_j item fits =
      let lt = get_elem?_lt items j item in
      let here : p ≡ h + j =
        same_index p (h + j) capacity (omega (arith, lt)) (omega (arith, lt)) (fits.0 ∙ at_j) in
      let offset : p - h ≡ j = omega arith in
      let value_eq : some v ≡ some x = sym (rw offset at fits.4) ∙ item in
      (fits.1 ∙ ap (λ p. stamp_of capacity bits p + 1) here, fits.5 ∙ value_eq)
  filled_slot j i stamp x value (emptying p t v w) alone at_j item fits = absurd (cc)
  filled_slot j i stamp x value (swapping p t old v w) alone at_j item fits = absurd (cc)

  free_slot :
      (j i stamp : ℕ) (value : Option T) (slot : Slot T)
      → owner slot ≡ none
      → i ≡ (h + j) % capacity
      → length items ≤ j
      → j < capacity
      → Fits capacity bits h items i stamp value slot
      → stamp ≡ stamp_of capacity bits (h + j)
  free_slot j i stamp value (free p) alone at_j le lt fits =
      fits.1
      ∙ ap (stamp_of capacity bits)
          (same_index p (h + j) capacity (omega arith) (omega arith) (fits.0 ∙ at_j))
  free_slot j i stamp value (filling p t v w) alone at_j le lt fits = absurd (cc)
  free_slot j i stamp value (filled p v) alone at_j le lt fits =
      let here : p ≡ h + j =
        same_index p (h + j) capacity (omega arith) (omega arith) (fits.0 ∙ at_j) in
      absurd (omega (arith, here, get_elem?_lt items (p - h) fits.4))
  free_slot j i stamp value (emptying p t v w) alone at_j le lt fits = absurd (cc)
  free_slot j i stamp value (swapping p t old v w) alone at_j le lt fits = absurd (cc)

module _ {T : Type 0} where
  claiming-owner : (slot : Slot T) → owner slot ≡ none → claiming slot ≡ none
  claiming-owner (free p) e = refl
  claiming-owner (filling p t v w) e = refl
  claiming-owner (filled p v) e = refl
  claiming-owner (emptying p t v w) e = refl
  claiming-owner (swapping p t old v w) e = absurd (cc)

module _ {T : Type 0} {capacity bits n : ℕ} {past : Seen} {s : System T} {a : Atomic T}
    (shape : Shape capacity bits) (inv : Inv capacity bits past n s a)
    (quiet : (i : ℕ) → s.threads i ≡ Thread.idle) where
  open inv use {
    head_place, slots, claims, seen, head_eq, lag, tail_eq, lags, bounded, fits, owned, follows,
  }

  at_rest : (j : ℕ) → claims j ≡ Claim.idle
  at_rest j = subst (Follows capacity bits (seen j) (claims j)) (quiet j) (follows j)

  unowned : (k : ℕ) → k < capacity → owner (slots k) ≡ none
  unowned k lt = from_owner (owner (slots k)) refl
    where
      from_owner : (o : Option ℕ) → owner (slots k) ≡ o → o ≡ none
      from_owner none e = refl
      from_owner (some j) e =
          let clash : none ≡ some (slots k) = sym (ap (slot_of j) (at_rest j)) ∙ owned k j lt e in
          absurd (cc)

  -- The word of the tail is up to date.
  no_lag : (l : Option ℕ) → Lags capacity (head_place + length a.items) slots l → l ≡ none
  no_lag none at = refl
  no_lag (some p) at =
      let k = p % capacity in
      let clash : some p ≡ none =
        sym (at.here p refl).1 ∙ claiming-owner (slots k) (unowned k (mod-lt p shape.not_empty)) in
      absurd (cc)

  pub quiet-Holds : Holds capacity bits head_place a.items s.mem
  quiet-Holds = record {
    head_eq = head_eq;
    tail_eq =
        tail_eq
        ∙ ap (λ l. stamp_of capacity bits (word_place capacity (head_place + length a.items) l))
            (no_lag lag lags);
    bounded = bounded;
    filled = λ j x item.
        let k = (head_place + j) % capacity in
        let lt : k < capacity = mod-lt (head_place + j) shape.not_empty in
        filled_slot capacity bits head_place a.items bounded j k (s.mem.stamp k) x (s.mem.value k)
          (slots k) (unowned k lt) refl item (fits k lt);
    vacant = λ j le lt_j.
        let k = (head_place + j) % capacity in
        let lt : k < capacity = mod-lt (head_place + j) shape.not_empty in
        free_slot capacity bits head_place a.items bounded j k (s.mem.stamp k) (s.mem.value k)
          (slots k) (unowned k lt) refl le lt_j (fits k lt);
  }
