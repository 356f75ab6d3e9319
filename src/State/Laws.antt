-- ===== src/State/Laws.antt =====
-- `State::from_raw` of src/lib.rs is defined at every word and reads its lowest bit.
use ref_count.Common.{ℕ, ◌%◌, ◌≡◌, ◌↔◌, ◌⊎◌, inl, inr, true, some, arith}
use ref_count.Consts.{block_state}
use ref_count.Consts.Bits.{block_state_lem}
use ref_count.State.{State, from_raw, is_allowed, is_blocked, discriminant}

even_or_odd : (n : ℕ) → (n % 2 ≡ 0) ⊎ (n % 2 ≡ 1)
even_or_odd n = grind arith

-- For every word the transmute in `State::from_raw` is defined; the state it gives is blocked
-- exactly when the word is odd and allowed exactly when it is even, and its discriminant is the
-- block bit of the word.
pub from_raw_total :
    (word : ℕ)
    → (s : State) × (from_raw word ≡ some s)
      × ((is_blocked s ≡ true) ↔ (word % 2 ≡ 1))
      × ((is_allowed s ≡ true) ↔ (word % 2 ≡ 0))
      × (discriminant s ≡ block_state word)
unfolding from_raw is_blocked is_allowed
from_raw_total word = elim (even_or_odd word) [
  | inl e ↦ (
    State.allowed,
    ground (arith, block_state_lem word),
    ground arith,
    ground arith,
    ground (arith, block_state_lem word),
  )
  | inr e ↦ (
    State.blocked,
    ground (arith, block_state_lem word),
    ground arith,
    ground arith,
    ground (arith, block_state_lem word),
  )
]
