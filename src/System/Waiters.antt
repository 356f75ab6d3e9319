-- ===== src/System/Waiters.antt =====
-- How a thread that runs a function of src/lib.rs or src/futures.rs uses the waiter queue: it makes whole
-- calls of `push` and `pop`, one after the other, as a thread of Linear does.
pub mod Functions
pub mod Calls
pub mod Projection
pub mod Runs
pub mod Sound
use ref_count.Common.{ℕ, ◌≡◌, ◌⊎◌, refl, inl, inr, none, some, Option}
use ref_count.Program.{ret, act, spinning, undefined, perform, ◌>>=◌, ◌>>◌}
use ref_count.Queue.Memory as Queue
use ref_count.Queue.Ops
use ref_count.Queue.Ops.{Method}
use ref_count.RefCount.Memory.{
  Waiter, Access, Response, Action, load_count, store_count, fetch_sub_count, cas_count, queue,
  load_flag, store_flag, wake_task, on_queue,
}
use ref_count.Linear
use ref_count.Linear.{Call, Reply, serve, running, push_of, pop_of, from_push, from_pop}

-- A call of the queue that has its reply is over.
abbrev pub settle : Method Waiter (Reply Waiter) → Linear.Thread Waiter
settle (ret r) = Linear.Thread.idle
settle (act e k) = running (act e k)
settle spinning = running spinning
settle undefined = running undefined

-- The accesses of the queue's memory that only wait.
abbrev pub IsWait : Queue.Access Waiter → Type 0
IsWait (Queue.spin_loop n) = Unit
IsWait Queue.yield_now = Unit
IsWait _ = ⊥

module _ (capacity : ℕ) where
  -- The program's accesses of the queue are those of the thread of Linear beside it.
  abbrev pub Tracks : {A : Type 0} → Action A → Linear.Thread Waiter → Type 0
  Tracks (ret a) Linear.Thread.idle = Unit
  Tracks (ret a) (running p) = ⊥
  Tracks (act (queue e) k) Linear.Thread.idle =
      (IsWait e × ((r : Queue.Response e) → Tracks (k r) Linear.Thread.idle))
      ⊎ ((fuel : ℕ) × (call : Call Waiter) × (m : Queue.Response e → Method Waiter (Reply Waiter))
          × (serve capacity fuel call ≡ act e m)
          × ((r : Queue.Response e) → Tracks (k r) (settle (m r))))
  Tracks (act (queue e) k) (running p) =
      (m : Queue.Response e → Method Waiter (Reply Waiter)) × (p ≡ act e m)
      × ((r : Queue.Response e) → Tracks (k r) (settle (m r)))
  Tracks (act e k) Linear.Thread.idle = (r : Response e) → Tracks (k r) Linear.Thread.idle
  Tracks (act e k) (running p) = ⊥
  Tracks spinning t = Unit
  Tracks undefined Linear.Thread.idle = ⊥
  Tracks undefined (running p) = p ≡ undefined

  pub Tracks->>= :
      {A B : Type 0} (m : Action A) (f : A → Action B) (t : Linear.Thread Waiter)
      → Tracks m t
      → ((a : A) → Tracks (f a) Linear.Thread.idle)
      → Tracks (m >>= f) t
  Tracks->>= (ret a) f Linear.Thread.idle h k = k a
  Tracks->>= (ret a) f (running p) h k = absurd h
  Tracks->>= (act (queue e) m) f Linear.Thread.idle (inl (waits, h)) k =
      inl (waits, λ r. Tracks->>= (m r) f Linear.Thread.idle (h r) k)
  Tracks->>= (act (queue e) m) f Linear.Thread.idle (inr (fuel, call, m', e', h)) k =
      inr (fuel, call, m', e', λ r. Tracks->>= (m r) f (settle (m' r)) (h r) k)
  Tracks->>= (act (queue e) m) f (running p) (m', e', h) k =
      (m', e', λ r. Tracks->>= (m r) f (settle (m' r)) (h r) k)
  Tracks->>= (act load_count m) f Linear.Thread.idle h k =
      λ r. Tracks->>= (m r) f Linear.Thread.idle (h r) k
  Tracks->>= (act (store_count n) m) f Linear.Thread.idle h k =
      λ r. Tracks->>= (m r) f Linear.Thread.idle (h r) k
  Tracks->>= (act (fetch_sub_count n) m) f Linear.Thread.idle h k =
      λ r. Tracks->>= (m r) f Linear.Thread.idle (h r) k
  Tracks->>= (act (cas_count c n) m) f Linear.Thread.idle h k =
      λ r. Tracks->>= (m r) f Linear.Thread.idle (h r) k
  Tracks->>= (act (load_flag x) m) f Linear.Thread.idle h k =
      λ r. Tracks->>= (m r) f Linear.Thread.idle (h r) k
  Tracks->>= (act (store_flag x b) m) f Linear.Thread.idle h k =
      λ r. Tracks->>= (m r) f Linear.Thread.idle (h r) k
  Tracks->>= (act (wake_task w) m) f Linear.Thread.idle h k =
      λ r. Tracks->>= (m r) f Linear.Thread.idle (h r) k
  Tracks->>= (act load_count m) f (running p) h k = absurd h
  Tracks->>= (act (store_count n) m) f (running p) h k = absurd h
  Tracks->>= (act (fetch_sub_count n) m) f (running p) h k = absurd h
  Tracks->>= (act (cas_count c n) m) f (running p) h k = absurd h
  Tracks->>= (act (load_flag x) m) f (running p) h k = absurd h
  Tracks->>= (act (store_flag x b) m) f (running p) h k = absurd h
  Tracks->>= (act (wake_task w) m) f (running p) h k = absurd h
  Tracks->>= spinning f t h k = tt
  Tracks->>= undefined f Linear.Thread.idle h k = absurd h
  Tracks->>= undefined f (running p) h k = h

  -- Inside a call of the queue, whose result `g` makes the reply.
  Tracks-call :
      {A B : Type 0} (m : Method Waiter A) (g : A → Reply Waiter) (f : A → Action B)
      → ((a : A) → Tracks (f a) Linear.Thread.idle)
      → Tracks (on_queue m >>= f) (settle (m >>= λ a. ret (g a)))
  Tracks-call (ret a) g f k = k a
  Tracks-call (act e m) g f k = (λ r. m r >>= λ a. ret (g a), refl, λ r. Tracks-call (m r) g f k)
  Tracks-call spinning g f k = tt
  Tracks-call undefined g f k = refl

  pub Tracks-pop->>= :
      {B : Type 0} (fuel : ℕ) (f : Option Waiter → Action B)
      → ((r : Option Waiter) → Tracks (f r) Linear.Thread.idle)
      → Tracks (on_queue (Ops.pop capacity fuel) >>= f) Linear.Thread.idle
  unfolding Ops.pop
  Tracks-pop->>= fuel f k =
      inr (fuel, pop_of, _, refl, λ r. Tracks-call (Ops.pop_loop capacity fuel _ r) from_pop f k)

  pub Tracks-push->>= :
      {B : Type 0} (fuel : ℕ) (w : Waiter) (f : Ops.Result (Unit {0}) Waiter → Action B)
      → ((r : Ops.Result (Unit {0}) Waiter) → Tracks (f r) Linear.Thread.idle)
      → Tracks (on_queue (Ops.push capacity fuel w) >>= f) Linear.Thread.idle
  unfolding Ops.push Ops.push_or_else
  Tracks-push->>= fuel w f k = inr (
    fuel,
    push_of w,
    _,
    refl,
    λ r. Tracks-call (Ops.push_loop capacity fuel (Ops.when_full capacity) _ r w) from_push f k,
  )
