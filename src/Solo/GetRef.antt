-- ===== src/Solo/GetRef.antt =====
-- `get_ref` of src/lib.rs by a thread that runs alone.
use ref_count.Common.{
  ℕ, ◌+◌, ◌^◌, ◌<◌, ◌≡◌, Bool, false, List, arith, inl, inr, update, if◌then◌else◌,
}
use ref_count.Program.{returned, later_misses, run}
use ref_count.Consts.{incremented, block_state}
use ref_count.Consts.Bits.{incremented_lem}
use ref_count.RefCount.Memory.{Shared, apply}
use ref_count.RefCount.Ops.{
  ref, ready, future, get_ref, new_future_ref, weak_try_incr, many_weak_try_incr_refs,
}
use ref_count.Solo.Attempts.{gets_through, four_misses, masked-even, masked-odd, block_state-cases}

get_ref-unblocked :
    (address : ℕ) (m : Shared) (misses : List Bool)
    → m.count < 2 ^ 32
    → block_state m.count ≡ 0
    → ((run apply (get_ref address) (record { mem = m; misses = misses })).0
        ≡ returned (
            if four_misses (later_misses misses)
            then future (record { registered = address })
            else ready ref))
      × ((run apply (get_ref address) (record { mem = m; misses = misses })).1.mem ≡ (
          if four_misses (later_misses misses)
          then record m { registered = update m.registered address false }
          else record m { count = incremented m.count }))
unfolding get_ref many_weak_try_incr_refs weak_try_incr new_future_ref
get_ref-unblocked address m misses lt e = ground (arith, masked-even m.count lt e)

get_ref-blocked :
    (address : ℕ) (m : Shared) (misses : List Bool)
    → m.count < 2 ^ 32
    → block_state m.count ≡ 1
    → ((run apply (get_ref address) (record { mem = m; misses = misses })).0
        ≡ returned (future (record { registered = address })))
      × ((run apply (get_ref address) (record { mem = m; misses = misses })).1.mem
          ≡ record m { registered = update m.registered address false })
unfolding get_ref many_weak_try_incr_refs weak_try_incr new_future_ref
get_ref-blocked address m misses lt e = ground (arith, masked-odd m.count lt e)

-- `get_ref` by a thread that runs alone, with room for one more reference, returns a reference and
-- adds 2 to the word exactly if the block bit is clear and not all of its four compare-exchanges fail
-- spuriously; else it returns a future whose flag, at the given address, is off, and changes nothing
-- else.
pub get_ref_alone :
    (address : ℕ) (m : Shared) (misses : List Bool)
    → m.count + 2 < 2 ^ 32
    → ((run apply (get_ref address) (record { mem = m; misses = misses })).0
        ≡ returned
            (if gets_through m misses then ready ref else future (record { registered = address })))
      × ((run apply (get_ref address) (record { mem = m; misses = misses })).1.mem ≡ (
          if gets_through m misses
          then record m { count = m.count + 2 }
          else record m { registered = update m.registered address false }))
get_ref_alone address m misses room = elim (block_state-cases m.count) [
  | inl open_to_refs ↦ ground (
    arith,
    get_ref-unblocked address m misses (omega arith) open_to_refs,
    open_to_refs,
    incremented_lem m.count,
  )
  | inr closed ↦ ground (arith, get_ref-blocked address m misses (omega arith) closed, closed)
]
