-- ===== src/Linear/Linearizable.antt =====
-- What the threads in `push`, `force_push` and `pop` of src/array_queue.rs see, against the atomic queue.
use ref_count.Common.{ℕ, ◌^◌, ◌<◌, ◌≤◌, ◌≡◌, List}
use ref_count.Queue.Shape.{Shape}
use ref_count.Queue.Distinct.{places_suffice}
use ref_count.Queue.Contents.{Holds}
use ref_count.Linear.{Event, idle, System, Run, Atomic, AtomicRun}
use ref_count.Linear.Simulation.{Run-Inv}
use ref_count.Linear.Quiet.{quiet-Holds}

-- Threads call `push`, `force_push` and `pop` on a new queue with a capacity below 2^60 in any order, with their
-- accesses interleaved in any order and weak compare-exchanges that fail at will. Whatever at most
-- 2^62 steps lead to, the atomic queue has a run with the same calls and replies in the same order; and
-- if every call has returned, the memory holds the items of the atomic queue.
pub linearizable :
    {T : Type 0} {capacity bits steps : ℕ} {es : List (Event T)} {s : System T}
    → Shape capacity bits
    → capacity < 2 ^ 60
    → steps ≤ 2 ^ 62
    → Run capacity steps es s
    → (a : Atomic T) × AtomicRun capacity es a
      × (((i : ℕ) → s.threads i ≡ idle) → (h : ℕ) × Holds capacity bits h a.items s.mem)
linearizable {steps = steps} shape small few run =
    let (a, atomic, inv) = Run-Inv shape (places_suffice shape steps small few) run in
    (a, atomic, λ quiet. (inv.head_place, quiet-Holds shape inv quiet))
