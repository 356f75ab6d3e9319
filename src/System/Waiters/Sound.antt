-- ===== src/System/Waiters/Sound.antt =====
-- The waiter queue of src/lib.rs while threads share a counter, whatever they call.
use mathlib.Core.Path.{subst}
use ref_count.Common.{ℕ, ◌^◌, ◌≤◌, ◌<◌, ◌≡◌, ◌≢◌, ap, Option, none, some, inl, inr, arith}
use ref_count.Program.{act, undefined}
use ref_count.Queue.Memory as Queue
use ref_count.Queue.Ops
use ref_count.Queue.Ops.{Method}
use ref_count.Queue.Shape.{Shape}
use ref_count.RefCount.Memory.{Waiter, Action, queue}
use ref_count.Ownership.{Holding}
use ref_count.Linear
use ref_count.Linear.{
  Event, Reply, Call, serve, push_of, force_push_of, pop_of, Atomic, AtomicRun, running,
}
use ref_count.Linear.Race.{touches, no_data_race, no_undefined}
use ref_count.System.Public.{Sharing, PublicReach}
use ref_count.System.Waiters.{Tracks}
use ref_count.System.Waiters.Runs.{Reach-Beside}

undefined_of :
    (capacity : ℕ) (t : Linear.Thread Waiter)
    → Tracks capacity {A = Holding} undefined t
    → t ≡ running undefined
undefined_of capacity Linear.Thread.idle h = absurd h
undefined_of capacity (running p) h = ap running h

-- The first access of a call of the queue.
abbrev first_access : {A : Type 0} → Method Waiter A → Option (Queue.Access Waiter)
first_access (act e k) = some e
first_access _ = none

-- Threads call the public functions of a new `RefCount`, drop its references and poll its futures in any
-- order, with their accesses interleaved in any order, also without what the calls are meant to take.
-- With room for fewer than 2^60 waiters and in the first 2^60 steps, no thread comes to an index
-- outside the buffer of the waiter queue or takes a waiter out of a slot that has none.
pub no_undefined_waiters :
    {capacity bits steps : ℕ} {s : Sharing}
    → Shape capacity bits
    → capacity < 2 ^ 60
    → PublicReach capacity steps s
    → steps ≤ 2 ^ 60
    → (i : ℕ) → s.calls i ≢ undefined
no_undefined_waiters {capacity = capacity} shape small r few i e =
    let b = Reach-Beside r in
    no_undefined shape small (omega (arith, b.few, few)) b.run i (
      undefined_of capacity (b.threads i)
        (subst (λ p. Tracks capacity p (b.threads i)) e (b.tracks i)))

first-serve :
    (capacity fuel : ℕ) (call : Call Waiter) (e : Queue.Access Waiter) (x : ℕ)
    → touches e ≡ some x
    → first_access (serve capacity fuel call) ≢ some e
unfolding Ops.push Ops.force_push Ops.push_or_else Ops.pop
first-serve capacity fuel (push_of v) e x at_x same =
    let here : e ≡ Queue.load_tail = cc in let clash : none ≡ some x = rw here at at_x in cc
first-serve capacity fuel (force_push_of v) e x at_x same =
    let here : e ≡ Queue.load_tail = cc in let clash : none ≡ some x = rw here at at_x in cc
first-serve capacity fuel pop_of e x at_x same =
    let here : e ≡ Queue.load_head = cc in let clash : none ≡ some x = rw here at at_x in cc

-- A thread that is about to read or write a waiter in a slot is inside a call of the queue.
inside :
    (capacity : ℕ) (e : Queue.Access Waiter) (x : ℕ) (k : Queue.Response e → Action Holding)
    (t : Linear.Thread Waiter)
    → touches e ≡ some x
    → Tracks capacity (act (queue e) k) t
    → (m : Queue.Response e → Method Waiter (Reply Waiter)) × (t ≡ running (act e m))
inside capacity e x k (running p) at_x (m, same, h) = (m, ap running same)
inside capacity e x k Linear.Thread.idle at_x (inr (fuel, call, m, first, h)) =
    absurd (first-serve capacity fuel call e x at_x (ap first_access first))
inside capacity (Queue.spin_loop n) x k Linear.Thread.idle at_x (inl (waits, h)) = absurd (cc)
inside capacity Queue.yield_now x k Linear.Thread.idle at_x (inl (waits, h)) = absurd (cc)
inside capacity (Queue.take_value y) x k Linear.Thread.idle at_x (inl (waits, h)) = absurd waits
inside capacity (Queue.write_value y v) x k Linear.Thread.idle at_x (inl (waits, h)) = absurd waits
inside capacity Queue.load_head x k Linear.Thread.idle at_x (inl (waits, h)) = absurd waits
inside capacity Queue.load_tail x k Linear.Thread.idle at_x (inl (waits, h)) = absurd waits
inside capacity (Queue.store_head y) x k Linear.Thread.idle at_x (inl (waits, h)) = absurd waits
inside capacity (Queue.store_tail y) x k Linear.Thread.idle at_x (inl (waits, h)) = absurd waits
inside capacity (Queue.cas_head y z) x k Linear.Thread.idle at_x (inl (waits, h)) = absurd waits
inside capacity (Queue.cas_tail y z) x k Linear.Thread.idle at_x (inl (waits, h)) = absurd waits
inside capacity (Queue.load_stamp y) x k Linear.Thread.idle at_x (inl (waits, h)) = absurd waits
inside capacity (Queue.store_stamp y z) x k Linear.Thread.idle at_x (inl (waits, h)) = absurd waits
inside capacity Queue.fence x k Linear.Thread.idle at_x (inl (waits, h)) = absurd waits

-- Threads call the public functions of a new `RefCount`, drop its references and poll its futures in any
-- order, with their accesses interleaved in any order, also without what the calls are meant to take.
-- With room for fewer than 2^60 waiters and in the first 2^60 steps, no two threads are about to
-- read or write the waiter in the same slot of the waiter queue.
pub no_waiter_race :
    {capacity bits steps : ℕ} {s : Sharing}
    → Shape capacity bits
    → capacity < 2 ^ 60
    → PublicReach capacity steps s
    → steps ≤ 2 ^ 60
    → (i j x y : ℕ) (e e' : Queue.Access Waiter) {k : Queue.Response e → Action Holding}
      {k' : Queue.Response e' → Action Holding}
    → i ≢ j
    → s.calls i ≡ act (queue e) k
    → s.calls j ≡ act (queue e') k'
    → touches e ≡ some x
    → touches e' ≡ some y
    → x ≢ y
no_waiter_race {capacity = capacity} shape small r few i j x y e e' {k} {k'} other at_i at_j at_x
      at_y =
    let b = Reach-Beside r in
    let (m, runs_i) =
      inside capacity e x k (b.threads i) at_x
        (subst (λ p. Tracks capacity p (b.threads i)) at_i (b.tracks i)) in
    let (m', runs_j) =
      inside capacity e' y k' (b.threads j) at_y
        (subst (λ p. Tracks capacity p (b.threads j)) at_j (b.tracks j)) in
    no_data_race shape small (omega (arith, b.few, few)) b.run i j x y e e' other runs_i runs_j at_x
      at_y
