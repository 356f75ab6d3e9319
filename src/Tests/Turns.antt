-- ===== src/Tests/Turns.antt =====
-- Calls of src/lib.rs and src/futures.rs one after the other, on concrete counters.
use ref_count.Common.{
  ℕ, ◌+◌, ◌-◌, ◌*◌, ◌≡◌, ◌⊎◌, update, refl, Bool, true, false, List, [], ◌∷◌, none, some, arith,
  if◌then◌else◌, ◌==◌,
}
use ref_count.Consts.{standard_ref_count, block_state}
use ref_count.Program.{ret, ◌>>=◌, returned, run}
use ref_count.Queue.Contents.{Holds, new-Holds}
use ref_count.Queue.Ops
use ref_count.RefCount.Memory.{Shared, Waiter, apply}
use ref_count.RefCount.Ops.{
  ExclusiveRef, FutureExclusiveRef, ready, future, exclusive, get_ref, try_get_ref, new_future_ref,
  get_exclusive_ref, block_refs,
}
use ref_count.RefCount.Futures.{Poll, poll_blocked, poll_exclusive}
use ref_count.Solo.Equal.{get_ref-try_get_ref}
use ref_count.Solo.Turns.{drops, exclusive_after_drops}
use ref_count.Solo.TakeDrop.{drop_got, ref_taken_and_dropped}
use ref_count.Solo.GetExclusive.{block_refs_alone, get_exclusive_ref_alone}
use ref_count.Solo.PollBlocked.{poll_blocked_alone}
use ref_count.Solo.PollExclusive.{poll_exclusive_alone}
use ref_count.Solo.Registration.{Registered}
use ref_count.Solo.Attempts.{gets_through}
use ref_count.Tests.Places.{shape_of_two, unused}

abbrev counter : ℕ → Shared
counter n = record { count = n; waiter_queue = unused; registered = λ a. false; woken = [] }

abbrev one_miss : List Bool
one_miss = false ∷ true ∷ []

get_ref-try_get_ref_example : get_ref 5 ≡ (
    try_get_ref
    >>= elim [ some r ↦ ret (ready r) | none ↦ (do f ← new_future_ref 5; ret (future f)) ])
get_ref-try_get_ref_example = get_ref-try_get_ref 5

ref_taken_and_dropped_example :
    (rest : List Bool) × (run apply
        (try_get_ref >>= drop_got)
        (record { mem = counter 4; misses = one_miss })
      ≡ (returned tt, record { mem = counter 4; misses = rest }))
ref_taken_and_dropped_example = ref_taken_and_dropped (counter 4) one_miss (omega arith)

-- Three references are out, and two of them are dropped.
exclusive_after_drops_example :
    (called dropped polled : List Bool) × (run apply
        (get_exclusive_ref 5)
        (record { mem = counter 6; misses = one_miss })
      ≡ (
        returned (future (record { blocked_fut = none })),
        record { mem = counter (6 + 1); misses = called },
      ))
    × (run apply (drops 2) (record { mem = counter (6 + 1); misses = called })
        ≡ (returned tt, record { mem = counter (6 + 1 - 2 * 2); misses = dropped }))
    × (run apply
          (poll_exclusive 2 1 9 (record { blocked_fut = none }))
          (record { mem = counter (6 + 1 - 2 * 2); misses = dropped })
        ≡ (
          returned (
            if 2 == standard_ref_count 6 then Poll.ready exclusive else Poll.pending,
            record { blocked_fut = none },
          ),
          record {
            mem = record (counter (6 + 1 - 2 * 2)) {
              woken = if 2 == standard_ref_count 6 then [] else 9 ∷ [];
            };
            misses = polled;
          },
        ))
unfolding standard_ref_count block_state
exclusive_after_drops_example =
    exclusive_after_drops 2 1 9 5 2 (counter 6) one_miss (omega arith) refl (omega arith)
      (omega arith) refl

counter-Holds : Holds {T = Waiter} 2 2 0 [] unused
unfolding Ops.new
counter-Holds = new-Holds 2 2 shape_of_two refl

-- A reference is out, and the first compare-exchange fails spuriously.
get_exclusive_ref_alone_example :
    (rest : List Bool) × (run apply
        (get_exclusive_ref 5)
        (record { mem = counter 2; misses = one_miss })
      ≡ (
        returned (future (record { blocked_fut = none })),
        record { mem = counter 3; misses = rest },
      ))
unfolding block_state standard_ref_count
get_exclusive_ref_alone_example = get_exclusive_ref_alone 5 (counter 2) one_miss (omega arith)

block_refs_alone_example :
    (rest : List Bool) × (run apply (block_refs 5) (record { mem = counter 3; misses = one_miss })
      ≡ (
        returned (future (record { registered = 5 })),
        record {
          mem = record (counter 3) { registered = update (λ a. false) 5 false };
          misses = rest;
        },
      ))
unfolding block_state
block_refs_alone_example = block_refs_alone 5 (counter 3) one_miss (omega arith)

poll_blocked_alone_example :
    (m' : Shared) × (rest : List Bool) × (run apply
        (poll_blocked 2 3 9 (record { registered = 5 }))
        (record { mem = counter 3; misses = one_miss })
      ≡ (returned Poll.pending, record { mem = m'; misses = rest }))
    × (((gets_through (counter 3) one_miss ≡ true) × (m' ≡ counter 4))
        ⊎ ((block_state 3 ≡ 1) × Registered shape_of_two 3 5 9 0 [] (counter 3) m')
        ⊎ ((block_state 3 ≡ 0)
            × (gets_through (counter 3) one_miss ≡ false)
            × (m' ≡ record (counter 3) { woken = 9 ∷ [] })))
unfolding block_state
poll_blocked_alone_example =
    poll_blocked_alone shape_of_two 3 9 0 (record { registered = 5 }) [] (counter 3) one_miss
      counter-Holds (omega arith) (omega arith)

-- A reference is out, and the first attempt of the poll blocks references.
poll_exclusive_alone_example :
    (m' : Shared) × (rest : List Bool) × (answer : Poll ExclusiveRef) × (left : FutureExclusiveRef)
    × (run apply
          (poll_exclusive 2 3 9 (record { blocked_fut = some (record { registered = 5 }) }))
          (record { mem = counter 2; misses = one_miss })
        ≡ (returned (answer, left), record { mem = m'; misses = rest }))
    × (((gets_through (counter 2) one_miss ≡ true)
          × (left ≡ record { blocked_fut = none })
          × (answer ≡ Poll.pending)
          × (m' ≡ record (counter 3) { woken = 9 ∷ [] }))
        ⊎ ((gets_through (counter 2) one_miss ≡ false)
            × (left ≡ record { blocked_fut = some (record { registered = 5 }) })
            × (answer ≡ Poll.pending)
            × (((block_state 2 ≡ 1) × Registered shape_of_two 3 5 9 0 [] (counter 2) m')
                ⊎ ((block_state 2 ≡ 0) × (m' ≡ record (counter 2) { woken = 9 ∷ [] })))))
unfolding block_state standard_ref_count
poll_exclusive_alone_example =
    poll_exclusive_alone shape_of_two 3 9 0 (record { registered = 5 }) [] (counter 2) one_miss
      counter-Holds (omega arith) (omega arith)
