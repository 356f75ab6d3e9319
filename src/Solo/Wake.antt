-- ===== src/Solo/Wake.antt =====
-- `unblock_refs` of src/lib.rs by a thread that runs alone: every waiter in the queue is woken.
use mathlib.Core.List.{append-nil, append_assoc}
use ref_count.Common.{
  ℕ, zero, suc, ◌+◌, ◌≤◌, ◌<◌, ◌≡◌, refl, sym, ◌∙◌, Bool, false, List, [], ◌∷◌, ◌++◌, arith, length,
  update,
}
use ref_count.Program.{returned, run, later_misses}
use ref_count.Program.Laws.{length-later_misses}
use ref_count.Consts.{ref_allowed}
use ref_count.Queue.Ops
use ref_count.Queue.Shape.{Shape}
use ref_count.Queue.Contents.{Holds}
use ref_count.Queue.Pop.{pop_oldest, pop_empty}
use ref_count.RefCount.Memory.{Waiter, Shared, apply}
use ref_count.RefCount.Ops.{wake, set_registered, wake_loop, unblock_refs}
use ref_count.Solo.Queue.{run-on_queue->>=}

abbrev pub wakers : List Waiter → List ℕ
wakers [] = []
wakers (w ∷ ws) = w.waker ∷ wakers ws

-- the flags after the waiters have been woken
abbrev pub cleared : List Waiter → (ℕ → Bool) → ℕ → Bool
cleared [] flags = flags
cleared (w ∷ ws) flags = cleared ws (update flags w.registered false)

-- What waking the queue's waiters does to the memory.
pub record Drained (capacity bits : ℕ) (ws : List Waiter) (m m' : Shared) : Type 0 where
  pub count_eq : m'.count ≡ m.count
  pub woken_eq : m'.woken ≡ m.woken ++ wakers ws
  pub flags_eq : m'.registered ≡ cleared ws m.registered
  pub places : ℕ
  pub empty : Holds capacity bits places [] m'.waiter_queue

module _ {capacity bits : ℕ} (shape : Shape capacity bits) (queue_fuel : ℕ) where
  wake_loop-Drained :
      (fuel h : ℕ) (ws : List Waiter) (m : Shared) (misses : List Bool)
      → Holds capacity bits h ws m.waiter_queue
      → length misses < queue_fuel
      → length ws < fuel
      → (m' : Shared) × (rest : List Bool) × (run apply
            (wake_loop capacity queue_fuel fuel)
            (record { mem = m; misses = misses })
          ≡ (returned tt, record { mem = m'; misses = rest }))
        × Drained capacity bits ws m m'
        × (length rest ≤ length misses)
  unfolding wake_loop wake set_registered
  wake_loop-Drained zero h ws m misses holds enough more = absurd (omega arith)
  wake_loop-Drained (suc fuel) h [] m misses holds enough more =
      let (rest, e, le) = pop_empty shape queue_fuel h m.waiter_queue misses holds (omega arith) in
      (
        m,
        rest,
        run-on_queue->>= (Ops.pop capacity queue_fuel) _ m misses e,
        record {
          count_eq = refl;
          woken_eq = sym (append-nil m.woken);
          flags_eq = refl;
          places = h;
          empty = holds;
        },
        le,
      )
  wake_loop-Drained (suc fuel) h (w ∷ ws) m misses holds enough more =
      let (q, rest, e, holds', le) =
        pop_oldest shape queue_fuel h w ws m.waiter_queue misses holds enough in
      let woken_one : Shared = record m {
        waiter_queue = q;
        registered = update m.registered w.registered false;
        woken = m.woken ++ (w.waker ∷ []);
      } in
      let (m', rest', e', d, le') =
        wake_loop-Drained fuel (h + 1) ws woken_one (later_misses (later_misses rest)) holds'
          (omega (arith, length-later_misses rest, length-later_misses (later_misses rest)))
          (omega arith) in
      (
        m',
        rest',
        run-on_queue->>= (Ops.pop capacity queue_fuel) _ m misses e ∙ e',
        record {
          count_eq = d.count_eq;
          woken_eq = d.woken_eq ∙ append_assoc m.woken (w.waker ∷ []) (wakers ws);
          flags_eq = d.flags_eq;
          places = d.places;
          empty = d.empty;
        },
        omega (arith, length-later_misses rest, length-later_misses (later_misses rest)),
      )

  -- `unblock_refs` by a thread that runs alone, on a queue that holds the waiters `ws`, returns; it
  -- allows references, wakes the task of every waiter, oldest first, clears their flags and leaves
  -- the queue empty. It needs a unit of `queue_fuel` more than the accesses that may fail spuriously
  -- and a unit of `wake_fuel` more than the waiters.
  pub unblock_refs-Drained :
      (wake_fuel h : ℕ) (ws : List Waiter) (m : Shared) (misses : List Bool)
      → Holds capacity bits h ws m.waiter_queue
      → length misses < queue_fuel
      → length ws < wake_fuel
      → (m' : Shared) × (rest : List Bool) × (run apply
            (unblock_refs capacity queue_fuel wake_fuel)
            (record { mem = m; misses = misses })
          ≡ (returned tt, record { mem = m'; misses = rest }))
        × Drained capacity bits ws (record m { count = ref_allowed }) m'
        × (length rest ≤ length misses)
  unfolding unblock_refs wake set_registered
  unblock_refs-Drained wake_fuel h [] m misses holds enough more =
      let (rest, e, le) =
        pop_empty shape queue_fuel h m.waiter_queue (later_misses misses) holds (omega arith) in
      let (m', rest', e', d, le') =
        wake_loop-Drained wake_fuel h [] (record m { count = ref_allowed }) (later_misses rest)
          holds (omega (arith, length-later_misses misses, length-later_misses rest)) more in
      (
        m',
        rest',
        run-on_queue->>= (Ops.pop capacity queue_fuel) _ (record m { count = ref_allowed })
              (later_misses misses) e
            ∙ e',
        d,
        omega (arith, length-later_misses misses, length-later_misses rest),
      )
  unblock_refs-Drained wake_fuel h (w ∷ ws) m misses holds enough more =
      let (q, rest, e, holds', le) =
        pop_oldest shape queue_fuel h w ws m.waiter_queue (later_misses misses) holds
          (omega (arith, length-later_misses misses)) in
      let woken_one : Shared = record m {
        count = ref_allowed;
        waiter_queue = q;
        registered = update m.registered w.registered false;
        woken = m.woken ++ (w.waker ∷ []);
      } in
      let (m', rest', e', d, le') =
        wake_loop-Drained wake_fuel (h + 1) ws woken_one (later_misses (later_misses rest)) holds'
          (omega (
            arith,
            length-later_misses misses,
            length-later_misses rest,
            length-later_misses (later_misses rest),
          ))
          (omega arith) in
      (
        m',
        rest',
        run-on_queue->>= (Ops.pop capacity queue_fuel) _ (record m { count = ref_allowed })
              (later_misses misses) e
            ∙ e',
        record {
          count_eq = d.count_eq;
          woken_eq = d.woken_eq ∙ append_assoc m.woken (w.waker ∷ []) (wakers ws);
          flags_eq = d.flags_eq;
          places = d.places;
          empty = d.empty;
        },
        omega (
          arith,
          length-later_misses misses,
          length-later_misses rest,
          length-later_misses (later_misses rest),
        ),
      )
