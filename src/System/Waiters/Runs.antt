-- ===== src/System/Waiters/Runs.antt =====
-- Every run of threads that share a counter has a run of Linear beside it.
use mathlib.Core.Path.{subst}
use mathlib.Core.Option
use ref_count.Common.{
  ℕ, suc, ◌≡◌, refl, sym, ap, Bool, false, [], Option, none, some, inl, inr, arith, update,
  Bool-cases, ◌==◌, ==_iff,
}
use ref_count.Program.{act}
use ref_count.Queue.Memory as Queue
use ref_count.Queue.Ops
use ref_count.RefCount.Memory.{
  Shared, Waiter, Access, Response, Action, apply, load_count, store_count, fetch_sub_count,
  cas_count, queue, load_flag, store_flag, wake_task, new,
}
use ref_count.Ownership.{Holding}
use ref_count.Linear
use ref_count.Linear.{running}
use ref_count.System.Public.{Sharing, PublicStep, begin, access, PublicReach, start, later}
use ref_count.System.Waiters.{Tracks}
use ref_count.System.Waiters.Calls.{PublicCall-Free}
use ref_count.System.Waiters.Projection.{Beside, idle_of, queue-Next}

module _ {capacity steps : ℕ} {s : Sharing} (b : Beside capacity steps s) (i : ℕ) where
  -- The thread does nothing to the queue.
  apart :
      (m : Shared) (p : Action Holding)
      → m.waiter_queue ≡ s.mem.waiter_queue
      → Tracks capacity p (b.threads i)
      → Beside capacity (suc steps) (record { mem = m; calls = update s.calls i p })
  apart m p same track = record {
    taken = b.taken;
    events = b.events;
    threads = b.threads;
    run =
        subst (λ q. Linear.Run capacity b.taken b.events (record { mem = q; threads = b.threads }))
          (sym same) b.run;
    few = omega (arith, b.few);
    tracks = λ j. elim (Bool-cases (i == j)) [
      | inl here ↦ rw (here, ← (==_iff i j).0 here) track
      | inr other ↦ rw other (b.tracks j)
    ];
  }

  access-Beside :
      (e : Access) (k : Response e → Action Holding) (miss : Bool) (t : Linear.Thread Waiter)
      → b.threads i ≡ t
      → Tracks capacity (act e k) t
      → Beside capacity (suc steps) (record {
        mem = (apply e miss s.mem).1;
        calls = update s.calls i (k (apply e miss s.mem).0);
      })
  access-Beside (queue e) k miss t at_i h =
      let (taken, events, ts, run, few, track, others) =
        queue-Next capacity b.taken b.threads i e k miss t b.run at_i h in
      record {
        taken = taken;
        events = events;
        threads = ts;
        run = run;
        few = omega (arith, b.few, few);
        tracks = λ j. elim (Bool-cases (i == j)) [
          | inl here ↦ rw (here, ← (==_iff i j).0 here) track
          | inr other ↦ rw (other, others j (λ e. ground (arith, e, other))) (b.tracks j)
        ];
      }
  access-Beside load_count k miss Linear.Thread.idle at_i h = apart _ _ refl (rw at_i (h _))
  access-Beside (store_count n) k miss Linear.Thread.idle at_i h = apart _ _ refl (rw at_i (h _))
  access-Beside (fetch_sub_count n) k miss Linear.Thread.idle at_i h =
      apart _ _ refl (rw at_i (h _))
  access-Beside (cas_count c n) k miss Linear.Thread.idle at_i h = apart _ _ refl (rw at_i (h _))
  access-Beside (load_flag x) k miss Linear.Thread.idle at_i h = apart _ _ refl (rw at_i (h _))
  access-Beside (store_flag x y) k miss Linear.Thread.idle at_i h = apart _ _ refl (rw at_i (h _))
  access-Beside (wake_task w) k miss Linear.Thread.idle at_i h = apart _ _ refl (rw at_i (h _))
  access-Beside load_count k miss (running p) at_i h = absurd h
  access-Beside (store_count n) k miss (running p) at_i h = absurd h
  access-Beside (fetch_sub_count n) k miss (running p) at_i h = absurd h
  access-Beside (cas_count c n) k miss (running p) at_i h = absurd h
  access-Beside (load_flag x) k miss (running p) at_i h = absurd h
  access-Beside (store_flag x y) k miss (running p) at_i h = absurd h
  access-Beside (wake_task w) k miss (running p) at_i h = absurd h

Step-Beside :
    {capacity steps : ℕ} {s t : Sharing}
    → PublicStep capacity s t
    → Beside capacity steps s
    → Beside capacity (suc steps) t
Step-Beside {capacity = capacity} {s = s} (begin i {h} {p} e call) b =
    let out : b.threads i ≡ Linear.Thread.idle =
      idle_of capacity h (b.threads i)
        (subst (λ p. Tracks capacity p (b.threads i)) e (b.tracks i)) in
    apart b i s.mem p refl (rw out (PublicCall-Free call))
Step-Beside {capacity = capacity} (access i e {k} miss h) b =
    access-Beside b i e k miss (b.threads i) refl
      (subst (λ p. Tracks capacity p (b.threads i)) h (b.tracks i))

queue_new :
    (capacity : ℕ) (m : Shared) → new capacity ≡ some m → Ops.new capacity ≡ some m.waiter_queue
unfolding new
queue_new capacity m e = from_new (Ops.new capacity) e
  where
    from_new :
        (q : Option (Queue.Memory Waiter))
        → Option.map
            (λ q. record { count = 0; waiter_queue = q; registered = λ a. false; woken = [] })
            q
          ≡ some m
        → q ≡ some m.waiter_queue
    from_new none e = absurd (cc)
    from_new (some q) e =
        let same : record { count = 0; waiter_queue = q; registered = λ a. false; woken = [] } ≡ m =
          cc in
        ap (λ (m : Shared). some m.waiter_queue) same

pub Reach-Beside :
    {capacity steps : ℕ} {s : Sharing} → PublicReach capacity steps s → Beside capacity steps s
Reach-Beside {capacity = capacity} (start {m} e) = record {
  taken = 0;
  events = [];
  threads = λ i. Linear.Thread.idle;
  run = Linear.Run.start (queue_new capacity m e);
  few = omega arith;
  tracks = λ j. tt;
}
Reach-Beside (later before step) = Step-Beside step (Reach-Beside before)
