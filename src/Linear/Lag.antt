-- ===== src/Linear/Lag.antt =====
-- The word of the tail while a `force_push` of src/array_queue.rs replaces the oldest value: it is one
-- place behind until the thread stores it.
use ref_count.Common.{
  ℕ, ◌+◌, ◌*◌, ◌%◌, ◌≤◌, ◌<◌, ◌≡◌, refl, sym, ap, ◌∙◌, Option, none, some, update, inl, inr, arith,
  Bool-cases, ◌==◌, ==_iff, ==_refl,
}
use native.Mathlib.Nat.{le_refl, add-mod_right}
use ref_count.Linear.Claims.{claimed, advanced, emptied, refilled}
use ref_count.Linear.Slots.{Slot, free, filling, filled, emptying, swapping, version_of}

-- The place that the word of the tail names, when the tail is at place `t`. The lag is the place of the
-- value that is replaced.
abbrev pub word_place : (capacity t : ℕ) (lag : Option ℕ) → ℕ
word_place capacity t none = t
word_place capacity t (some p) = p + capacity

module _ {T : Type 0} where
  -- The place of the value in a slot for which the tail has still to be stored.
  abbrev pub claiming : Slot T → Option ℕ
  claiming (swapping p j old v claimed) = some p
  claiming _ = none

  pub version-claiming :
      (slot : Slot T) (p : ℕ) → claiming slot ≡ some p → version_of slot ≡ 2 * p + 1
  version-claiming (swapping q j old v claimed) p e = let same : q ≡ p = cc in omega arith
  version-claiming (swapping q j old v advanced) p e = absurd (cc)
  version-claiming (swapping q j old v emptied) p e = absurd (cc)
  version-claiming (swapping q j old v refilled) p e = absurd (cc)
  version-claiming (free q) p e = absurd (cc)
  version-claiming (filling q j v w) p e = absurd (cc)
  version-claiming (filled q v) p e = absurd (cc)
  version-claiming (emptying q j v w) p e = absurd (cc)

-- The lag is that of the slot which is claimed, if there is one.
pub record Lags {T : Type 0} (capacity t : ℕ) (slots : ℕ → Slot T) (lag : Option ℕ) : Type 0 where
  pub here :
      (p : ℕ) → lag ≡ some p → (p + capacity + 1 ≡ t) × (claiming (slots (p % capacity)) ≡ some p)
  pub only :
      (k p : ℕ) → k < capacity → claiming (slots k) ≡ some p → (lag ≡ some p) × (p % capacity ≡ k)

module _ {T : Type 0} {capacity t : ℕ} {slots : ℕ → Slot T} where
  pub word_le : (lag : Option ℕ) → Lags capacity t slots lag → word_place capacity t lag ≤ t
  word_le none lags = le_refl t
  word_le (some p) lags = omega (arith, (lags.here p refl).0)

  -- There is no lag if the slot at the word's place is as new as the word, or the word is the tail.
  pub settled :
      (lag : Option ℕ)
      → Lags capacity t slots lag
      → 0 < capacity
      → 2 * word_place capacity t lag ≤ version_of (slots (word_place capacity t lag % capacity))
      → lag ≡ none
  settled none lags pos new = refl
  settled (some p) lags pos new =
      let (at_tail, claim) = lags.here p refl in
      let old : version_of (slots ((p + capacity) % capacity)) ≡ 2 * p + 1 =
        ap (λ x. version_of (slots x)) (add-mod_right p capacity)
        ∙ version-claiming (slots (p % capacity)) p claim in
      absurd (omega (arith, old))

  pub settled_of_le :
      (lag : Option ℕ) → Lags capacity t slots lag → t ≤ word_place capacity t lag → lag ≡ none
  settled_of_le none lags le = refl
  settled_of_le (some p) lags le = absurd (omega (arith, (lags.here p refl).0))

  -- How the lag passes to the next state: nothing about it changes, it begins, it ends.
  pub Lags-tail : (t' : ℕ) → Lags capacity t slots none → Lags capacity t' slots none
  Lags-tail t' lags = record { here = λ p e. absurd (cc); only = lags.only }

  pub Lags-update :
      {lag : Option ℕ} (k : ℕ) (new : Slot T)
      → claiming (slots k) ≡ none
      → claiming new ≡ none
      → Lags capacity t slots lag
      → Lags capacity t (update slots k new) lag
  Lags-update k new before after lags = record {
    here = λ p e.
        let (at_tail, claim) = lags.here p e in
        (
          at_tail,
          elim (Bool-cases (k == p % capacity)) [
            | inl same ↦
                let clash : some p ≡ none =
                  sym claim ∙ ap (λ x. claiming (slots x)) (sym ((==_iff _ _).0 same)) ∙ before in
                absurd (cc)
            | inr other ↦ rw other claim
          ],
        );
    only = λ l p lt e. elim (Bool-cases (k == l)) [
      | inl same ↦ let clash : none ≡ some p = sym after ∙ rw same at e in absurd (cc)
      | inr other ↦ lags.only l p lt (rw other at e)
    ];
  }

  pub Lags-begin :
      (p k t' : ℕ) (new : Slot T)
      → k ≡ p % capacity
      → p + capacity + 1 ≡ t'
      → claiming new ≡ some p
      → Lags capacity t slots none
      → Lags capacity t' (update slots k new) (some p)
  Lags-begin p k t' new at_k at_tail claim lags = record {
    here =
        λ q e. let same : p ≡ q = cc in (rw (← same) at_tail, rw (← same, ← at_k, ==_refl k) claim);
    only = λ l q lt e. elim (Bool-cases (k == l)) [
      | inl same ↦
          let claim' : some p ≡ some q = sym claim ∙ rw same at e in
          let same_place : p ≡ q = cc in
          (claim', rw (← same_place) (sym at_k ∙ (==_iff _ _).0 same))
      | inr other ↦ let clash : none ≡ some q = (lags.only l q lt (rw other at e)).0 in absurd (cc)
    ];
  }

  pub Lags-end :
      (p k : ℕ) (new : Slot T)
      → k ≡ p % capacity
      → claiming new ≡ none
      → Lags capacity t slots (some p)
      → Lags capacity t (update slots k new) none
  Lags-end p k new at_k after lags = record {
    here = λ q e. absurd (cc);
    only = λ l q lt e. elim (Bool-cases (k == l)) [
      | inl same ↦ let clash : none ≡ some q = sym after ∙ rw same at e in absurd (cc)
      | inr other ↦
          let (lag_eq, at_l) = lags.only l q lt (rw other at e) in
          let same_place : p ≡ q = cc in
          absurd (ground (arith, other, at_k ∙ ap (λ x. x % capacity) same_place ∙ at_l))
    ];
  }
