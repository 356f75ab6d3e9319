-- ===== src/Linear/Owning.antt =====
-- What a thread owns when a slot changes that is not its own.
use ref_count.Common.{
  ℕ, ◌%◌, ◌≡◌, ◌≢◌, refl, ap, ◌∙◌, some, update, inl, inr, Bool-cases, ◌==◌, ==_iff, true, false,
}
use ref_count.Linear.Claims.{Claim, called, pushing, written, popping, taken, replacing, done}
use ref_count.Linear.Slots.{Slot, filling, emptying, swapping, Owns, owner}

module _ {T : Type 0} (capacity : ℕ) (slots : ℕ → Slot T) (k : ℕ) (new : Slot T) (j : ℕ) where
  elsewhere :
      (i : ℕ) (mine : Slot T)
      → owner mine ≡ some j
      → owner (slots k) ≢ some j
      → slots i ≡ mine
      → update slots k new i ≡ mine
  elsewhere i mine own not_own e = elim (Bool-cases (k == i)) [
    | inl here ↦
        absurd (not_own (ap (λ x. owner (slots x)) ((==_iff k i).0 here) ∙ ap owner e ∙ own))
    | inr other ↦ rw other e
  ]

  pub Owns-update :
      (c : Claim T)
      → owner (slots k) ≢ some j
      → Owns capacity slots j c
      → Owns capacity (update slots k new) j c
  Owns-update Claim.idle ne h = tt
  Owns-update (called call) ne h = tt
  Owns-update (pushing p v r) ne h = elsewhere (p % capacity) (filling p j v false) refl ne h
  Owns-update (written p v r) ne h = elsewhere (p % capacity) (filling p j v true) refl ne h
  Owns-update (popping p v) ne h = elsewhere (p % capacity) (emptying p j v false) refl ne h
  Owns-update (taken p v) ne h = elsewhere (p % capacity) (emptying p j v true) refl ne h
  Owns-update (replacing p old v stage) ne h =
      elsewhere (p % capacity) (swapping p j old v stage) refl ne h
  Owns-update (done r) ne h = tt
