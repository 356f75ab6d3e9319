-- ===== src/Solo/Attempts.antt =====
-- The attempts of `try_get_ref` and `try_block_refs` of src/lib.rs by a thread that runs alone: a
-- load, and at most four weak compare-exchanges that may fail spuriously.
use ref_count.Common.{
  ℕ, ◌+◌, ◌^◌, ◌<◌, ◌≡◌, ◌⊎◌, Bool, true, false, none, some, List, arith, inl, inr, if◌then◌else◌,
  ◌==◌, ne→==,
}
use ref_count.Program.{returned, next_miss, later_misses, run}
use ref_count.Consts.{masked, incremented, blocked, block_state}
use ref_count.Consts.Bits.{masked_lem, incremented_lem, blocked_lem, block_state_lem}
use ref_count.RefCount.Memory.{Shared, apply}
use ref_count.RefCount.Ops.{
  ref, weak_try_incr, weak_try_block, many_weak_try_incr_refs, try_get_ref, try_block_refs,
}

-- Whether the next four compare-exchanges all fail spuriously.
abbrev pub four_misses : List Bool → Bool
four_misses misses =
    if next_miss misses
    then if next_miss (later_misses misses)
      then if next_miss (later_misses (later_misses misses))
        then next_miss (later_misses (later_misses (later_misses misses)))
        else false
      else false
    else false

pub masked-even : (s : ℕ) → s < 2 ^ 32 → block_state s ≡ 0 → masked s ≡ s
masked-even s lt e = omega (arith, masked_lem s lt, block_state_lem s)

pub masked-odd : (s : ℕ) → s < 2 ^ 32 → block_state s ≡ 1 → (s == masked s) ≡ false
masked-odd s lt e = ne→== (λ same. omega (arith, masked_lem s lt, block_state_lem s))

try_get_ref-unblocked :
    (m : Shared) (misses : List Bool)
    → m.count < 2 ^ 32
    → block_state m.count ≡ 0
    → ((run apply try_get_ref (record { mem = m; misses = misses })).0
        ≡ returned (if four_misses (later_misses misses) then none else some ref))
      × ((run apply try_get_ref (record { mem = m; misses = misses })).1.mem ≡ (
          if four_misses (later_misses misses)
          then m
          else record m { count = incremented m.count }))
unfolding try_get_ref many_weak_try_incr_refs weak_try_incr
try_get_ref-unblocked m misses lt e = ground (arith, masked-even m.count lt e)

try_get_ref-blocked :
    (m : Shared) (misses : List Bool)
    → m.count < 2 ^ 32
    → block_state m.count ≡ 1
    → ((run apply try_get_ref (record { mem = m; misses = misses })).0 ≡ returned none)
      × ((run apply try_get_ref (record { mem = m; misses = misses })).1.mem ≡ m)
unfolding try_get_ref many_weak_try_incr_refs weak_try_incr
try_get_ref-blocked m misses lt e = ground (arith, masked-odd m.count lt e)

try_block_refs-unblocked :
    (m : Shared) (misses : List Bool)
    → m.count < 2 ^ 32
    → block_state m.count ≡ 0
    → ((run apply try_block_refs (record { mem = m; misses = misses })).0
        ≡ returned (if four_misses (later_misses misses) then false else true))
      × ((run apply try_block_refs (record { mem = m; misses = misses })).1.mem
          ≡ (if four_misses (later_misses misses) then m else record m { count = blocked m.count }))
unfolding try_block_refs weak_try_block
try_block_refs-unblocked m misses lt e = ground (arith, masked-even m.count lt e)

try_block_refs-blocked :
    (m : Shared) (misses : List Bool)
    → m.count < 2 ^ 32
    → block_state m.count ≡ 1
    → ((run apply try_block_refs (record { mem = m; misses = misses })).0 ≡ returned false)
      × ((run apply try_block_refs (record { mem = m; misses = misses })).1.mem ≡ m)
unfolding try_block_refs weak_try_block
try_block_refs-blocked m misses lt e = ground (arith, masked-odd m.count lt e)

-- Whether an attempt by a thread that runs alone succeeds.
abbrev pub gets_through : Shared → List Bool → Bool
gets_through m misses =
    if block_state m.count == 0
    then if four_misses (later_misses misses) then false else true
    else false

pub block_state-cases : (s : ℕ) → (block_state s ≡ 0) ⊎ (block_state s ≡ 1)
block_state-cases s = ground (arith, block_state_lem s)

-- `try_get_ref` by a thread that runs alone returns a reference exactly if the block bit is clear and
-- not all of its four compare-exchanges fail spuriously; then it has added 2 to the word of the
-- counter, and else it has changed nothing. The word must have room for one more reference.
pub try_get_ref_alone :
    (m : Shared) (misses : List Bool)
    → m.count + 2 < 2 ^ 32
    → ((run apply try_get_ref (record { mem = m; misses = misses })).0
        ≡ returned (if gets_through m misses then some ref else none))
      × ((run apply try_get_ref (record { mem = m; misses = misses })).1.mem
          ≡ (if gets_through m misses then record m { count = m.count + 2 } else m))
try_get_ref_alone m misses room = elim (block_state-cases m.count) [
  | inl open_to_refs ↦ ground (
    arith,
    try_get_ref-unblocked m misses (omega arith) open_to_refs,
    open_to_refs,
    incremented_lem m.count,
  )
  | inr closed ↦ ground (arith, try_get_ref-blocked m misses (omega arith) closed, closed)
]

-- `try_block_refs` by a thread that runs alone returns `true` exactly if the block bit is clear and
-- not all of its four compare-exchanges fail spuriously; then it has set that bit, which adds 1 to
-- the word of the counter, and else it has changed nothing.
pub try_block_refs_alone :
    (m : Shared) (misses : List Bool)
    → m.count < 2 ^ 32
    → ((run apply try_block_refs (record { mem = m; misses = misses })).0
        ≡ returned (gets_through m misses))
      × ((run apply try_block_refs (record { mem = m; misses = misses })).1.mem
          ≡ (if gets_through m misses then record m { count = m.count + 1 } else m))
try_block_refs_alone m misses bound = elim (block_state-cases m.count) [
  | inl open_to_refs ↦ ground (
    arith,
    try_block_refs-unblocked m misses bound open_to_refs,
    open_to_refs,
    blocked_lem m.count,
    block_state_lem m.count,
  )
  | inr closed ↦ ground (arith, try_block_refs-blocked m misses bound closed, closed)
]
