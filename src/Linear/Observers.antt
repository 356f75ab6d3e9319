-- ===== src/Linear/Observers.antt =====
-- What `len`, `is_empty` and `is_full` of src/array_queue.rs answer while other threads use the queue.
use ref_count.Common.{ℕ, ◌^◌, ◌≤◌, ◌<◌, ◌≡◌, refl, arith}
use ref_count.Queue.Shape.{Shape}
use ref_count.Queue.Distinct.{places_suffice}
use ref_count.Linear.{Run, Atomic, AtomicRun}
use ref_count.Linear.Claims.{nothing_seen}
use ref_count.Linear.Invariant.{Inv}
use ref_count.Linear.Simulation.{Run-Inv}
use ref_count.Linear.Watch.{
  Point, Observer, len_of, is_empty_of, is_full_of, Answer, look, right, Observed, During,
}
use ref_count.Linear.Advance.{steps_le, Early}
use ref_count.Linear.Shown.{Observed-Reaches}
use ref_count.Linear.Length.{len_within}
use ref_count.Linear.Ends.{is_empty_within, is_full_within}

reply_within :
    {T : Type 0} {capacity bits : ℕ} {p q : Point T} {a : Atomic T} (shape : Shape capacity bits)
    (o : Observer) (r : Answer o)
    → Inv capacity bits nothing_seen p.steps p.system a
    → AtomicRun capacity p.events a
    → Early shape q
    → Observed capacity p (look capacity o) r q
    → (n : ℕ) × During capacity p q n × (r ≡ right capacity o n)
reply_within shape (len_of fuel) r inv run early h =
    (r, len_within shape fuel r inv run early h, refl)
reply_within shape is_empty_of r inv run early h = is_empty_within shape r inv run early h
reply_within shape is_full_of r inv run early h = is_full_within shape r inv run early h

-- Threads call `push`, `force_push` and `pop` on a new queue with a capacity below 2^60, and after some
-- steps another thread calls `len`, `is_empty` or `is_full`, with the steps of the others between its
-- loads in any order. If it returns, after at most 2^62 steps in all, its answer is right for the number
-- of values that the queue showed at some moment of the call. This is the number that the atomic queue
-- held, or one less while a `force_push` that had taken out the oldest value had not returned.
pub observers_within :
    {T : Type 0} {capacity bits : ℕ} {p q : Point T}
    → Shape capacity bits
    → capacity < 2 ^ 60
    → q.steps ≤ 2 ^ 62
    → Run capacity p.steps p.events p.system
    → (o : Observer) (r : Answer o) → Observed capacity p (look capacity o) r q
    → (n : ℕ) × During capacity p q n × (r ≡ right capacity o n)
observers_within {capacity = capacity} {p = p} {q = q} shape small few run o r h =
    let early : Early shape q = places_suffice shape q.steps small few in
    let path = Observed-Reaches (look capacity o) p q r h in
    let (a, atomic, inv) = Run-Inv shape (omega (arith, early, steps_le path)) run in
    reply_within shape o r inv atomic early h
