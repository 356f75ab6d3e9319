-- ===== src/Tests.antt =====
-- Runs of the functions of src/ on concrete inputs, and the theorems at such inputs.
pub mod Threads
pub mod Sharing
pub mod Waiting
pub mod Interleaving
pub mod Places
pub mod Turns
pub mod Borrows
use ref_count.Common.{
  ℕ, ◌+◌, ◌*◌, ◌%◌, ◌^◌, ◌≤◌, ◌<◌, ◌≡◌, ◌↔◌, ◌⊎◌, refl, Bool, true, false, Option, none, some, List,
  [], ◌∷◌, ◌++◌, arith, length, if◌then◌else◌, ◌==◌,
}
use ref_count.Backoff as Backoff
use ref_count.Backoff.Bounds.{slight_spin_bounds}
use ref_count.Consts.{standard_ref_count, block_state, masked, incremented, blocked}
use ref_count.Consts.Bits.{fields_of_count, block_state_lem, standard_ref_count_lem}
use ref_count.State
use ref_count.State.{State}
use ref_count.State.Laws.{from_raw_total}
use ref_count.Program.{returned, World, run}
use ref_count.Tests.Places.{shape_of_two, unused}
use ref_count.Queue.Memory.{Memory, apply}
use ref_count.Queue.Ops.{
  ok, err, new, push, force_push, pop, is_empty, is_full, len, drop_queue, next,
}
use ref_count.Queue.Shape.{Shape, Shape_exists}
use ref_count.Queue.Contents.{Holds, new-Holds, pushed, pushed-Holds}
use ref_count.Queue.Push.{push_room, push_full}
use ref_count.Queue.ForcePush.{force_push_room, force_push_full}
use ref_count.Queue.Pop.{pop_oldest, pop_empty}
use ref_count.Queue.Observers.{observers_exact}
use ref_count.Queue.Drain.{Remaining, Holds-Remaining, drop_queue_all, next_oldest}
use ref_count.Queue.Refinement.{
  Request, push_of, force_push_of, pop_of, from_push, from_force_push, from_pop, serve_all, replies,
  fifo_refinement,
}

-- A queue of two places: new, with one value, with two.
abbrev no_values : Memory ℕ
no_values = unused

no_values-Holds : Holds 2 2 0 [] no_values
unfolding new
no_values-Holds = new-Holds 2 2 shape_of_two refl

abbrev one_value : Memory ℕ
one_value = pushed 2 2 0 7 no_values

one_value-Holds : Holds 2 2 0 (7 ∷ []) one_value
one_value-Holds = pushed-Holds 2 2 0 [] 7 no_values (omega arith) no_values-Holds

abbrev two_values : Memory ℕ
two_values = pushed 2 2 1 8 one_value

two_values-Holds : Holds 2 2 0 (7 ∷ 8 ∷ []) two_values
two_values-Holds = pushed-Holds 2 2 0 (7 ∷ []) 8 one_value (omega arith) one_value-Holds

-- One compare-exchange fails spuriously.
abbrev one_miss : List Bool
one_miss = false ∷ false ∷ true ∷ []

push_full_example :
    (rest : List Bool) × (run apply (push 2 4 9) (record { mem = two_values; misses = one_miss })
      ≡ (returned (err 9), record { mem = two_values; misses = rest }))
    × (length rest ≤ length one_miss)
push_full_example =
    push_full shape_of_two 4 0 (7 ∷ 8 ∷ []) 9 two_values one_miss two_values-Holds refl
      (omega arith)

force_push_full_example :
    (m' : Memory ℕ) × (rest : List Bool) × (run apply
        (force_push 2 4 9)
        (record { mem = two_values; misses = one_miss })
      ≡ (returned (some 7), record { mem = m'; misses = rest }))
    × Holds 2 2 1 ((8 ∷ []) ++ (9 ∷ [])) m'
    × (length rest ≤ length one_miss)
force_push_full_example =
    force_push_full shape_of_two 4 0 7 (8 ∷ []) 9 two_values one_miss two_values-Holds refl
      (omega arith)

pop_empty_example :
    (rest : List Bool) × (run apply (pop 2 4) (record { mem = no_values; misses = one_miss })
      ≡ (returned none, record { mem = no_values; misses = rest }))
    × (length rest ≤ length one_miss)
pop_empty_example = pop_empty shape_of_two 4 0 no_values one_miss no_values-Holds (omega arith)

observers_exact_example :
    ((run apply (is_empty 2) (record { mem = two_values; misses = [] })).0 ≡ returned (2 == 0))
    × ((run apply (is_full 2) (record { mem = two_values; misses = [] })).0 ≡ returned (2 == 2))
    × ((run apply (len 2 1) (record { mem = two_values; misses = [] })).0 ≡ returned 2)
observers_exact_example =
    observers_exact shape_of_two 0 0 (7 ∷ 8 ∷ []) two_values [] two_values-Holds

drop_queue_all_example :
    (w : World (Memory ℕ)) × (run apply
        (drop_queue 2 true)
        (record { mem = two_values; misses = [] })
      ≡ (returned (7 ∷ 8 ∷ []), w))
drop_queue_all_example =
    drop_queue_all shape_of_two 0 (7 ∷ 8 ∷ []) two_values [] true two_values-Holds

abbrev just_seven : List ℕ
just_seven = 7 ∷ []

next_oldest_example :
    (m' : Memory ℕ) × (rest : List Bool) × (((just_seven ≡ [])
        × (m' ≡ one_value)
        × (run apply (next 2) (record { mem = one_value; misses = [] })
            ≡ (returned none, record { mem = m'; misses = rest })))
      ⊎ (x : ℕ) × (others : List ℕ) × (just_seven ≡ x ∷ others)
        × Remaining shape_of_two 1 others m'
        × (run apply (next 2) (record { mem = one_value; misses = [] })
            ≡ (returned (some x), record { mem = m'; misses = rest }))
        × (m'.value 0 ≡ none))
next_oldest_example =
    next_oldest shape_of_two 0 (7 ∷ []) one_value []
      (Holds-Remaining shape_of_two 0 (7 ∷ []) one_value one_value-Holds)

abbrev requests : List (Request ℕ)
requests = push_of 1 ∷ push_of 2 ∷ push_of 3 ∷ force_push_of 4 ∷ pop_of ∷ pop_of ∷ pop_of ∷ []

replies_of_requests :
    replies 2 requests []
    ≡ from_push (ok tt)
      ∷ from_push (ok tt)
      ∷ from_push (err 3)
      ∷ from_force_push (some 1)
      ∷ from_pop (some 2)
      ∷ from_pop (some 4)
      ∷ from_pop none
      ∷ []
replies_of_requests = refl

fifo_refinement_example :
    (w : World (Memory ℕ)) × (run apply
        (serve_all 2 4 requests)
        (record { mem = no_values; misses = one_miss })
      ≡ (returned (replies 2 requests []), w))
unfolding new
fifo_refinement_example = fifo_refinement shape_of_two 4 requests one_miss refl (omega arith)

Shape_exists_example : (bits : ℕ) × Shape 32 bits
Shape_exists_example = Shape_exists 32 (omega arith) (omega arith)

slight_spin_bounds_example :
    (2 ≤ Backoff.slight_spin 9)
    × (Backoff.slight_spin 9 ≤ 256)
    × (Backoff.slight_spin 17 ≡ Backoff.slight_spin 9)
slight_spin_bounds_example = slight_spin_bounds 9

fields_of_count_example :
    (7 ≡ 2 * standard_ref_count 7 + block_state 7)
    × (standard_ref_count (masked 7) ≡ standard_ref_count 7)
    × (block_state (masked 7) ≡ 0)
    × (standard_ref_count (blocked 7) ≡ standard_ref_count 7)
    × (block_state (blocked 7) ≡ 1)
    × (standard_ref_count (incremented 7) ≡ standard_ref_count 7 + 1)
    × (block_state (incremented 7) ≡ block_state 7)
fields_of_count_example = fields_of_count 7 (omega (arith, standard_ref_count_lem 7))

from_raw_total_example :
    (s : State) × (State.from_raw 7 ≡ some s)
    × ((State.is_blocked s ≡ true) ↔ (7 % 2 ≡ 1))
    × ((State.is_allowed s ≡ true) ↔ (7 % 2 ≡ 0))
    × (State.discriminant s ≡ block_state 7)
from_raw_total_example = from_raw_total 7
