-- ===== src/Tests/Threads.antt =====
-- The theorems on the counter of src/lib.rs at concrete inputs.
use ref_count.Common.{
  ℕ, ◌≤◌, ◌<◌, ◌≡◌, ◌⊎◌, refl, Bool, true, false, Option, none, some, List, [], ◌∷◌, arith, length,
  if◌then◌else◌,
}
use ref_count.Consts.{ref_allowed, block_state, standard_ref_count}
use ref_count.Consts.Bits.{block_state_lem, standard_ref_count_lem}
use ref_count.Program.{returned, run}
use ref_count.Tests.Places.{shape_of_two, unused}
use ref_count.Queue.Memory as Queue
use ref_count.Queue.Ops
use ref_count.Queue.Contents.{Holds, new-Holds, pushed, pushed-Holds}
use ref_count.RefCount.Memory.{Waiter, Shared, apply}
use ref_count.RefCount.Ops.{
  ref, exclusive, ExclusiveRef, try_get_ref, try_block_refs, try_get_exclusive_ref, unblock_refs,
}
use ref_count.Solo.Wake.{Drained, unblock_refs-Drained}
use ref_count.Solo.Attempts.{try_get_ref_alone, try_block_refs_alone, gets_through}
use ref_count.RefCount.Ops.{FutureRef, blocking_get_ref, blocking_get_exclusive_ref}
use ref_count.RefCount.Futures.{Poll, poll_ref}
use ref_count.Solo.Blocking.{blocking_get_ref_returns}
use ref_count.Solo.BlockingExclusive.{blocking_get_exclusive_ref_returns}
use ref_count.RefCount.Ops.{ready, future, get_ref}
use ref_count.Common.{update}
use ref_count.Solo.GetRef.{get_ref_alone}
use ref_count.Solo.Registration.{Registered, poll_ref_registers}
use ref_count.Solo.Release.{try_get_exclusive_ref_alone, try_get_exclusive_ref_forgets}

abbrev no_waiters : Queue.Memory Waiter
no_waiters = unused

abbrev waiter : Waiter
waiter = record { waker = 5; registered = 100 }

abbrev waiting : List Waiter
waiting = waiter ∷ []

-- The counter with the word `count` and one waiter, whose flag is set.
abbrev counter : ℕ → Shared
counter count = record {
  count = count;
  waiter_queue = pushed 2 2 0 waiter no_waiters;
  registered = λ a. true;
  woken = [];
}

counter-Holds : Holds 2 2 0 waiting (pushed 2 2 0 waiter no_waiters)
unfolding Ops.new
counter-Holds =
    pushed-Holds 2 2 0 [] waiter no_waiters (omega arith) (new-Holds 2 2 shape_of_two refl)

unblock_refs-Drained_example :
    (m' : Shared) × (rest : List Bool) × (run apply
        (unblock_refs 2 3 2)
        (record { mem = counter 1; misses = [] })
      ≡ (returned tt, record { mem = m'; misses = rest }))
    × Drained 2 2 waiting (counter ref_allowed) m'
    × (length rest ≤ 0)
unblock_refs-Drained_example =
    unblock_refs-Drained shape_of_two 3 2 0 waiting (counter 1) [] counter-Holds (omega arith)
      (omega arith)

-- The first of the four compare-exchanges fails spuriously.
abbrev one_miss : List Bool
one_miss = false ∷ true ∷ []

try_get_ref_alone_example :
    ((run apply try_get_ref (record { mem = counter 4; misses = one_miss })).0
      ≡ returned (if gets_through (counter 4) one_miss then some ref else none))
    × ((run apply try_get_ref (record { mem = counter 4; misses = one_miss })).1.mem
        ≡ (if gets_through (counter 4) one_miss then counter 6 else counter 4))
try_get_ref_alone_example = try_get_ref_alone (counter 4) one_miss (omega arith)

try_block_refs_alone_example :
    ((run apply try_block_refs (record { mem = counter 4; misses = one_miss })).0
      ≡ returned (gets_through (counter 4) one_miss))
    × ((run apply try_block_refs (record { mem = counter 4; misses = one_miss })).1.mem
        ≡ (if gets_through (counter 4) one_miss then counter 5 else counter 4))
try_block_refs_alone_example = try_block_refs_alone (counter 4) one_miss (omega arith)

try_get_exclusive_ref_alone_example :
    (got : Option ExclusiveRef) × (m' : Shared) × (run apply
        (try_get_exclusive_ref 2 3 2)
        (record { mem = counter 4; misses = [] })
      ≡ (returned got, record { mem = m'; misses = [] }))
    × (((block_state 4 ≡ 1) × (got ≡ none) × (m' ≡ counter 4))
        ⊎ (((counter 4).count ≡ 0) × (got ≡ some exclusive) × (m' ≡ counter 1))
        ⊎ ((block_state 4 ≡ 0)
            × (0 < standard_ref_count 4)
            × (got ≡ none)
            × Drained 2 2 waiting (counter 0) m'))
try_get_exclusive_ref_alone_example =
    try_get_exclusive_ref_alone shape_of_two 3 2 0 waiting (counter 4) (omega arith) counter-Holds
      (omega arith) (omega arith)

try_get_exclusive_ref_forgets_example :
    (m' : Shared) × (m'' : Shared) × (run apply
        (try_get_exclusive_ref 2 3 2)
        (record { mem = counter 4; misses = [] })
      ≡ (returned none, record { mem = m'; misses = [] }))
    × (run apply (try_get_exclusive_ref 2 3 2) (record { mem = m'; misses = [] })
        ≡ (returned (some exclusive), record { mem = m''; misses = [] }))
    × (standard_ref_count m''.count ≡ 0)
try_get_exclusive_ref_forgets_example =
    try_get_exclusive_ref_forgets shape_of_two 3 2 0 waiting (counter 4) (omega arith)
      (omega (arith, block_state_lem 4)) (omega (arith, standard_ref_count_lem 4)) counter-Holds
      (omega arith) (omega arith)

blocking_get_ref_returns_example :
    (rest : List Bool) × (run apply
        (blocking_get_ref 3)
        (record { mem = counter 4; misses = one_miss })
      ≡ (returned ref, record { mem = counter 6; misses = rest }))
blocking_get_ref_returns_example =
    blocking_get_ref_returns 3 (counter 4) one_miss (omega arith) (omega (arith, block_state_lem 4))
      (omega arith)

blocking_get_exclusive_ref_returns_example :
    (rest : List Bool) × (run apply
        (blocking_get_exclusive_ref 3)
        (record { mem = counter 0; misses = one_miss })
      ≡ (returned exclusive, record { mem = counter 1; misses = rest }))
blocking_get_exclusive_ref_returns_example =
    blocking_get_exclusive_ref_returns 3 (counter 0) one_miss refl (omega arith)

-- The same counter, blocked, with all flags clear, and a future that has not been polled.
abbrev flags_clear : Shared
flags_clear = record (counter 1) { registered = λ a. false }

abbrev not_polled : FutureRef
not_polled = record { registered = 200 }

poll_ref_registers_example :
    (m' : Shared) × (rest : List Bool) × (run apply
        (poll_ref 2 3 9 not_polled)
        (record { mem = flags_clear; misses = one_miss })
      ≡ (returned Poll.pending, record { mem = m'; misses = rest }))
    × Registered shape_of_two 3 200 9 0 waiting flags_clear m'
poll_ref_registers_example =
    poll_ref_registers shape_of_two 3 9 0 not_polled waiting flags_clear one_miss counter-Holds
      (omega (arith, block_state_lem 1)) (omega arith)

get_ref_alone_example :
    ((run apply (get_ref 200) (record { mem = counter 4; misses = one_miss })).0
      ≡ returned (
          if gets_through (counter 4) one_miss
          then ready ref
          else future (record { registered = 200 })))
    × ((run apply (get_ref 200) (record { mem = counter 4; misses = one_miss })).1.mem ≡ (
        if gets_through (counter 4) one_miss
        then counter 6
        else record (counter 4) { registered = update (counter 4).registered 200 false }))
get_ref_alone_example = get_ref_alone 200 (counter 4) one_miss (omega arith)
