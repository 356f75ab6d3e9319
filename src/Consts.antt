-- ===== src/Consts.antt =====
-- src/consts.rs, and the macros `standard_ref_count!` and `block_state!` of src/macros.rs: what the
-- 32 bits of the reference counter mean.
pub mod Bits
use ref_count.Common.{ℕ, ◌+◌, ◌-◌, ◌*◌, ◌/◌, ◌%◌, ◌^◌, bit_and, bit_or}

abbrev pub u32_mod : ℕ
u32_mod = 2 ^ 32

abbrev pub ref_blocked : ℕ
ref_blocked = 1

abbrev pub ref_allowed : ℕ
ref_allowed = 0

-- `!1`
abbrev pub ref_count_mask : ℕ
ref_count_mask = u32_mod - 1 - 1

abbrev pub ref_count_shift : ℕ
ref_count_shift = 1

-- `1 << REF_COUNT_SHIFT`
abbrev pub ref_incr : ℕ
ref_incr = 1 * 2 ^ ref_count_shift

abbrev pub state_mask : ℕ
state_mask = 1

unfoldable pub standard_ref_count : ℕ → ℕ
standard_ref_count state = state / 2 ^ ref_count_shift

unfoldable pub block_state : ℕ → ℕ
block_state state = bit_and state state_mask

-- the expressions that the attempts of a compare-exchange start from
unfoldable pub masked : ℕ → ℕ
masked state = bit_and state ref_count_mask

-- `u32` addition wraps around (a build with overflow checks panics instead).
unfoldable pub incremented : ℕ → ℕ
incremented state = (state + ref_incr) % u32_mod

unfoldable pub blocked : ℕ → ℕ
blocked state = bit_or state ref_blocked
