-- ===== src/Queue/Stamp.antt =====
-- How src/array_queue.rs takes a stamp apart and counts it up: the low bits are an index into the
-- buffer, the bits above are a lap. Arithmetic on `usize` is that of 64 bits.
use ref_count.Common.{ℕ, zero, suc, ◌+◌, ◌-◌, ◌*◌, ◌%◌, ◌^◌, bit_and, ltb, if◌then◌else◌}

abbrev pub usize_mod : ℕ
usize_mod = 2 ^ 64

abbrev pub wrapping_add : ℕ → ℕ → ℕ
wrapping_add a b = (a + b) % usize_mod

abbrev pub wrapping_sub : ℕ → ℕ → ℕ
wrapping_sub a b = (a + usize_mod - b) % usize_mod

-- `!x`
abbrev pub not_usize : ℕ → ℕ
not_usize x = usize_mod - 1 - x

-- `next_power_of_two` of the standard library: the first of `p`, `2p`, `4p`, … that is not below
-- `n`, within `fuel` doublings.
unfoldable pub doubled_to : (fuel p n : ℕ) → ℕ
doubled_to zero p n = p
doubled_to (suc fuel) p n = if ltb p n then doubled_to fuel (2 * p) n else p

unfoldable pub next_power_of_two : ℕ → ℕ
unfolding doubled_to
next_power_of_two n = doubled_to 64 1 n

-- A stamp of `{ lap: 1, index: 0 }`, the field `one_lap` that `ArrayQueue::new` computes.
unfoldable pub one_lap : (capacity : ℕ) → ℕ
unfolding next_power_of_two
one_lap capacity = next_power_of_two (capacity + 1)

unfoldable pub index_of : (lap stamp : ℕ) → ℕ
index_of lap stamp = bit_and stamp (lap - 1)

unfoldable pub lap_of : (lap stamp : ℕ) → ℕ
lap_of lap stamp = bit_and stamp (not_usize (lap - 1))

-- The stamp of the next place: the next index of the lap, or index 0 of the next lap.
unfoldable pub next_stamp : (capacity lap stamp : ℕ) → ℕ
next_stamp capacity lap stamp =
    if ltb (index_of lap stamp + 1) capacity then stamp + 1 else wrapping_add (lap_of lap stamp) lap
