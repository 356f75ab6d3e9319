-- ===== src/Consts/Bits.antt =====
-- The masks of src/consts.rs as arithmetic.
use ref_count.Common.{
  ℕ, ◌+◌, ◌-◌, ◌*◌, ◌/◌, ◌%◌, ◌<◌, ◌≡◌, arith, bit_and_low, bit_and_high, bit_or-one, ◌^◌,
}
use ref_count.Consts.{standard_ref_count, block_state, masked, incremented, blocked}

pub standard_ref_count_lem : (s : ℕ) → standard_ref_count s ≡ s / 2
unfolding standard_ref_count
standard_ref_count_lem s = omega arith

pub block_state_lem : (s : ℕ) → block_state s ≡ s % 2
unfolding block_state
block_state_lem s = bit_and_low 1 s

pub masked_lem : (s : ℕ) → s < 2 ^ 32 → masked s ≡ s - s % 2
unfolding masked
masked_lem s h = bit_and_high 1 32 s (omega arith) h

pub incremented_lem : (s : ℕ) → incremented s ≡ (s + 2) % 2 ^ 32
unfolding incremented
incremented_lem s = omega arith

pub blocked_lem : (s : ℕ) → blocked s ≡ s - s % 2 + 1
unfolding blocked
blocked_lem s = bit_or-one s

ruleset fields =
    (arith, standard_ref_count_lem, block_state_lem, masked_lem, incremented_lem, blocked_lem)

-- The two fields of a counter word whose reference count is below the largest one do not mix: they
-- determine the word, masking keeps the count and clears the bit, blocking keeps the count and sets
-- the bit, and an increment adds one to the count and keeps the bit.
pub fields_of_count :
    (s : ℕ)
    → standard_ref_count s + 1 < 2 ^ 31
    → (s ≡ 2 * standard_ref_count s + block_state s)
      × (standard_ref_count (masked s) ≡ standard_ref_count s)
      × (block_state (masked s) ≡ 0)
      × (standard_ref_count (blocked s) ≡ standard_ref_count s)
      × (block_state (blocked s) ≡ 1)
      × (standard_ref_count (incremented s) ≡ standard_ref_count s + 1)
      × (block_state (incremented s) ≡ block_state s)
fields_of_count s h = omega fields
