-- ===== src/System/Waiters/Projection.antt =====
-- A run of threads that share a counter, seen from the waiter queue, is a run of the threads of Linear.
use ref_count.Common.{
  ℕ, suc, ◌+◌, ◌*◌, ◌≤◌, ◌≡◌, ◌≢◌, refl, sym, ap, ◌∙◌, Bool, List, inl, inr, arith, update, ==_refl,
  ne→==,
}
use ref_count.Program.{ret, act, spinning, undefined}
use ref_count.Queue.Memory as Queue
use ref_count.Queue.Ops.{Method}
use ref_count.RefCount.Memory.{Waiter, Action, queue}
use ref_count.Ownership.{Holding}
use ref_count.Linear
use ref_count.Linear.{Reply, Event, called, returned, running}
use ref_count.System.Public.{Sharing}
use ref_count.System.Waiters.{Tracks, settle, IsWait}

module _ (capacity : ℕ) where
  -- The run of Linear beside a state that some number of steps has led to.
  pub record Beside (steps : ℕ) (s : Sharing) : Type 0 where
    pub taken : ℕ
    pub events : List (Event Waiter)
    pub threads : ℕ → Linear.Thread Waiter
    pub run :
        Linear.Run capacity taken events (record { mem = s.mem.waiter_queue; threads = threads })
    pub few : taken ≤ 3 * steps
    pub tracks : (j : ℕ) → Tracks capacity (s.calls j) (threads j)

  pub idle_of :
      {A : Type 0} (a : A) (t : Linear.Thread Waiter)
      → Tracks capacity (ret a) t
      → t ≡ Linear.Thread.idle
  idle_of a Linear.Thread.idle h = refl
  idle_of a (running p) h = absurd h

  module _ (n : ℕ) (threads : ℕ → Linear.Thread Waiter) (i : ℕ) where
    -- A few steps of thread `i` have led to the memory `m`, and its program is `p`.
    abbrev Next : Queue.Memory Waiter → Action Holding → Type 0
    Next m p =
        (taken : ℕ) × (events : List (Event Waiter)) × (ts : ℕ → Linear.Thread Waiter) × Linear.Run
          capacity taken events (record { mem = m; threads = ts })
        × (taken ≤ n + 3)
        × Tracks capacity p (ts i)
        × ((j : ℕ) → j ≢ i → ts j ≡ threads j)

    -- A call that has its reply returns at once.
    settled :
        (m : Queue.Memory Waiter) (p : Action Holding) (taken : ℕ) (events : List (Event Waiter))
        (ts : ℕ → Linear.Thread Waiter) (rest : Method Waiter (Reply Waiter))
        → Linear.Run capacity taken events (record { mem = m; threads = ts })
        → taken ≤ n + 2
        → ts i ≡ running rest
        → Tracks capacity p (settle rest)
        → ((j : ℕ) → j ≢ i → ts j ≡ threads j)
        → Next m p
    settled m p taken events ts (ret r) run few at_i h others = (
      suc taken,
      _,
      update ts i Linear.Thread.idle,
      Linear.Run.later run (Linear.Step.finish i at_i),
      omega arith,
      rw (==_refl i) h,
      λ j ne. rw (ne→== (λ e. ne (sym e))) (others j ne),
    )
    settled m p taken events ts (act e k) run few at_i h others =
        (taken, events, ts, run, omega arith, rw at_i h, others)
    settled m p taken events ts spinning run few at_i h others =
        (taken, events, ts, run, omega arith, rw at_i h, others)
    settled m p taken events ts undefined run few at_i h others =
        (taken, events, ts, run, omega arith, rw at_i h, others)

    waited :
        {es : List (Event Waiter)} {q : Queue.Memory Waiter} (e : Queue.Access Waiter)
        (k : Queue.Response e → Action Holding) (miss : Bool)
        → Linear.Run capacity n es (record { mem = q; threads = threads })
        → threads i ≡ Linear.Thread.idle
        → IsWait e
        → ((r : Queue.Response e) → Tracks capacity (k r) Linear.Thread.idle)
        → Next (Queue.apply e miss q).1 (k (Queue.apply e miss q).0)
    waited (Queue.spin_loop x) k miss run at_i waits h =
        (n, _, threads, run, omega arith, rw at_i (h tt), λ j ne. refl)
    waited Queue.yield_now k miss run at_i waits h =
        (n, _, threads, run, omega arith, rw at_i (h tt), λ j ne. refl)
    waited Queue.load_head k miss run at_i waits h = absurd waits
    waited Queue.load_tail k miss run at_i waits h = absurd waits
    waited (Queue.store_head x) k miss run at_i waits h = absurd waits
    waited (Queue.store_tail x) k miss run at_i waits h = absurd waits
    waited (Queue.cas_head x y) k miss run at_i waits h = absurd waits
    waited (Queue.cas_tail x y) k miss run at_i waits h = absurd waits
    waited (Queue.load_stamp x) k miss run at_i waits h = absurd waits
    waited (Queue.store_stamp x y) k miss run at_i waits h = absurd waits
    waited (Queue.take_value x) k miss run at_i waits h = absurd waits
    waited (Queue.write_value x v) k miss run at_i waits h = absurd waits
    waited Queue.fence k miss run at_i waits h = absurd waits

    pub queue-Next :
        {es : List (Event Waiter)} {q : Queue.Memory Waiter} (e : Queue.Access Waiter)
        (k : Queue.Response e → Action Holding) (miss : Bool) (t : Linear.Thread Waiter)
        → Linear.Run capacity n es (record { mem = q; threads = threads })
        → threads i ≡ t
        → Tracks capacity (act (queue e) k) t
        → Next (Queue.apply e miss q).1 (k (Queue.apply e miss q).0)
    queue-Next e k miss Linear.Thread.idle run at_i (inl (waits, h)) =
        waited e k miss run at_i waits h
    queue-Next {q = q} e k miss Linear.Thread.idle run at_i (inr (fuel, call, m, first, h)) =
        let begun = Linear.Run.later run (Linear.Step.begin i fuel call at_i) in
        let made =
          Linear.Run.later begun
            (Linear.Step.access i e {k = m} miss (rw (==_refl i) (ap running first))) in
        settled (Queue.apply e miss q).1 (k (Queue.apply e miss q).0) (suc (suc n)) _ _
          (m (Queue.apply e miss q).0) made (omega arith) (rw (==_refl i) refl)
          (h (Queue.apply e miss q).0) (λ j ne. rw (ne→== (λ e. ne (sym e))) refl)
    queue-Next {q = q} e k miss (running p) run at_i (m, at_e, h) =
        settled (Queue.apply e miss q).1 (k (Queue.apply e miss q).0) (suc n) _ _
          (m (Queue.apply e miss q).0)
          (Linear.Run.later run (Linear.Step.access i e {k = m} miss (at_i ∙ ap running at_e)))
          (omega arith) (rw (==_refl i) refl) (h (Queue.apply e miss q).0)
          (λ j ne. rw (ne→== (λ e. ne (sym e))) refl)
