-- ===== src/Solo/Queue.antt =====
-- A call into the waiter queue of src/lib.rs changes the queue and nothing else that is shared.
use ref_count.Common.{Bool, List, ◌≡◌, refl, ap, ◌∙◌}
use ref_count.Program.{
  ret, act, spinning, undefined, ◌>>=◌, Outcome, returned, World, next_miss, later_misses, run,
}
use ref_count.Program.Laws.{proceed, run->>=}
use ref_count.Queue.Memory as Queue
use ref_count.Queue.Ops.{Method}
use ref_count.RefCount.Memory.{Waiter, Shared, Action, apply, on_queue}

-- the end of a run on the queue, as the end of one on all that is shared
abbrev pub around :
    {A : Type 0} → Shared → Outcome A × World (Queue.Memory Waiter) → Outcome A × World Shared
around m (o, w) = (o, record { mem = record m { waiter_queue = w.mem }; misses = w.misses })

pub run-on_queue :
    {A : Type 0} (q : Method Waiter A) (m : Shared) (misses : List Bool)
    → run apply (on_queue q) (record { mem = m; misses = misses })
      ≡ around m (run Queue.apply q (record { mem = m.waiter_queue; misses = misses }))
run-on_queue (ret a) m misses = refl
run-on_queue (act e k) m misses =
    let (r, q) = Queue.apply e (next_miss misses) m.waiter_queue in
    run-on_queue (k r) (record m { waiter_queue = q }) (later_misses misses)
run-on_queue spinning m misses = refl
run-on_queue undefined m misses = refl

-- What follows a call whose end on the queue is known.
pub run-on_queue->>= :
    {A B : Type 0} (q : Method Waiter A) (f : A → Action B) (m : Shared) (misses : List Bool)
    {a : A} {queue : Queue.Memory Waiter} {rest : List Bool}
    → run Queue.apply q (record { mem = m.waiter_queue; misses = misses })
      ≡ (returned a, record { mem = queue; misses = rest })
    → run apply (on_queue q >>= f) (record { mem = m; misses = misses })
      ≡ run apply (f a) (record { mem = record m { waiter_queue = queue }; misses = rest })
run-on_queue->>= q f m misses e =
    run->>= apply (on_queue q) f (record { mem = m; misses = misses })
    ∙ ap (λ end. proceed apply end f) (run-on_queue q m misses ∙ ap (around m) e)
