-- ===== src/Backoff.antt =====
-- src/backoff.rs and the macro `slight_spin!` of src/macros.rs: how long a contended loop waits.
pub mod Bounds
use ref_count.Common.{ℕ, ◌+◌, ◌-◌, ◌*◌, ◌^◌, Bool, true, false, bit_and, ltb, if◌then◌else◌}

abbrev pub yield_point : ℕ
yield_point = 64

-- `struct Backoff`, with the number of calls since the last reset
pub record Backoff : Type 0 where
  pub calls : ℕ

-- One call's waiting: the rounds of `spin_loop`, and whether it comes to `yield_now!` after them.
pub record Pause : Type 0 where
  pub rounds : ℕ
  pub at_yield : Bool

-- `cfg(loom)`, the feature `std` without loom, and neither
pub data Configuration : Type 0 where
  with_loom : Configuration
  with_std : Configuration
  with_core : Configuration

-- Whether `yield_now!` yields the thread; it is empty in the default build.
unfoldable pub yields_now : Configuration → Bool
yields_now with_loom = true
yields_now with_std = true
yields_now with_core = false

unfoldable pub yields : Configuration → Pause → Bool
yields c p = if p.at_yield then yields_now c else false

abbrev pub new : Backoff
new = record { calls = 0 }

-- the bound of the loop in `slight_spin!`: `2 << (attempts & ((1 << 3) - 1))`
unfoldable pub slight_spin : ℕ → ℕ
slight_spin attempts = 2 * 2 ^ bit_and attempts (1 * 2 ^ 3 - 1)

unfoldable pub spin : Backoff → Pause × Backoff
spin b = (record { rounds = slight_spin b.calls; at_yield = false }, record { calls = b.calls + 1 })

unfoldable pub reset : Backoff → Backoff
reset b = record { calls = 0 }

unfoldable pub snooze : Backoff → Pause × Backoff
unfolding reset
snooze b =
    if ltb b.calls yield_point
    then (record { rounds = slight_spin b.calls; at_yield = false }, record { calls = b.calls + 1 })
    else (record { rounds = slight_spin b.calls; at_yield = true }, reset b)
