-- ===== src/RefCount/Ops.antt =====
-- The methods of `RefCount`, `Ref` and `ExclusiveRef` in src/lib.rs, written with the macros of
-- src/macros.rs. A loop takes fuel, one unit for each round; `queue_fuel` is that of a loop inside
-- the waiter queue, and `wake_fuel` that of the loop over the waiters.
use ref_count.Common.{ℕ, zero, suc, ◌+◌, Bool, true, false, Option, none, some, ◌==◌, if◌then◌else◌}
use ref_count.Consts.{
  ref_allowed, ref_incr, standard_ref_count, block_state, masked, incremented, blocked,
}
use ref_count.Backoff
use ref_count.Backoff.{Backoff}
use ref_count.Program.{ret, spinning, perform, ◌>>=◌, ◌>>◌, swapped, failed}
use ref_count.Queue.Memory as Queue
use ref_count.Queue.Ops
use ref_count.State
use ref_count.State.{State}
use ref_count.RefCount.Memory.{
  Waiter, Action, load_count, store_count, fetch_sub_count, cas_count, store_flag, wake_task,
  on_queue,
}

-- `weak_try_update_ref_count!` with a block for either result
abbrev pub weak_try_update : {A : Type 0} (current next : ℕ) → Action A → (ℕ → Action A) → Action A
weak_try_update current next done lost = do
  r ← perform (cas_count current next)
  elim r [ swapped ↦ done | failed s ↦ lost s ]

-- `weak_try_update_ref_count!(incr, …)`: after a failure the two variables follow the new state.
unfoldable pub weak_try_incr :
    {A : Type 0} (current next : ℕ) → Action A → ((current next : ℕ) → Action A) → Action A
weak_try_incr current next done rest =
    weak_try_update current next done (λ s. rest (masked s) (incremented (masked s)))

-- `weak_try_update_ref_count!(block, …)`
unfoldable pub weak_try_block :
    {A : Type 0} (current next : ℕ) → Action A → ((current next : ℕ) → Action A) → Action A
weak_try_block current next done rest =
    weak_try_update current next done (λ s. rest (masked s) (blocked (masked s)))

-- `many_weak_try_incr_refs!`: after the last failure the variables keep their values.
unfoldable pub many_weak_try_incr_refs :
    {A : Type 0} (current next : ℕ) → Action A → ((current next : ℕ) → Action A) → Action A
many_weak_try_incr_refs c n done rest = weak_try_incr c n done λ c n.
    weak_try_incr c n done
      λ c n. weak_try_incr c n done λ c n. weak_try_update c n done λ s. rest c n

-- `struct Ref` and `struct ExclusiveRef`: all that such a value holds is where its `RefCount` is.
pub data Ref : Type 0 where
  ref : Ref

pub data ExclusiveRef : Type 0 where
  exclusive : ExclusiveRef

-- `enum MaybeFuture`
pub data MaybeFuture (R : Type 0) (F : Type 0) : Type 0 where
  ready : R → MaybeFuture R F
  future : F → MaybeFuture R F

-- `struct FutureRef` and `struct FutureBlockedRefs`: the address of the flag `registered`
pub record FutureRef : Type 0 where
  pub registered : ℕ

pub record FutureBlockedRefs : Type 0 where
  pub registered : ℕ

-- `struct FutureExclusiveRef`
pub record FutureExclusiveRef : Type 0 where
  pub blocked_fut : Option FutureBlockedRefs

-- The constructors of the futures, which start with the flag off. `address` is the place that the
-- caller has for the future.
unfoldable pub new_future_ref : (address : ℕ) → Action FutureRef
new_future_ref address = do
  perform (store_flag address false)
  ret (record { registered = address })

unfoldable pub new_future_blocked : (address : ℕ) → Action FutureBlockedRefs
new_future_blocked address = do
  perform (store_flag address false)
  ret (record { registered = address })

-- `ref_count`
unfoldable pub references : Action ℕ
references = do state ← perform load_count; ret (standard_ref_count state + block_state state)

unfoldable pub no_refs : Action Bool
no_refs = do n ← references; ret (n == 0)

unfoldable pub standard_refs : Action ℕ
standard_refs = do state ← perform load_count; ret (standard_ref_count state)

unfoldable pub no_standard_refs : Action Bool
no_standard_refs = do n ← standard_refs; ret (n == 0)

unfoldable pub raw_state : Action ℕ
raw_state = do state ← perform load_count; ret (block_state state)

unfoldable pub is_blocked : Action Bool
is_blocked = do s ← raw_state; ret (s == 1)

unfoldable pub is_allowed : Action Bool
is_allowed = do s ← raw_state; ret (s == 0)

unfoldable pub state : Action (Option State)
state = do s ← raw_state; ret (State.from_raw s)

unfoldable pub try_block_refs : Action Bool
try_block_refs = do
  loaded ← perform load_count
  let c = masked loaded
  weak_try_block c (blocked c) (ret true) λ c n.
      weak_try_block c n (ret true)
        λ c n. weak_try_block c n (ret true) λ c n. weak_try_update c n (ret true) λ s. ret false

unfoldable pub block_refs : (address : ℕ) → Action (MaybeFuture (Unit {0}) FutureBlockedRefs)
block_refs address = do
  done ← try_block_refs
  if done then ret (ready tt) else (do f ← new_future_blocked address; ret (future f))

-- `Waiter::set_registered`, `wake` and `inner_wake` of src/waiter.rs
unfoldable pub set_registered : Waiter → Bool → Action (Unit {0})
set_registered w is_registered = perform (store_flag w.registered is_registered)

unfoldable pub wake : Waiter → Action (Unit {0})
wake w = set_registered w false >> perform (wake_task w.waker)

unfoldable pub inner_wake : Waiter → Action (Unit {0})
inner_wake w = perform (wake_task w.waker)

-- `slight_spin!` and the waiting of a `Backoff`
abbrev pub slight_spin : ℕ → Action (Unit {0})
slight_spin attempts = on_queue (perform (Queue.spin_loop (Backoff.slight_spin attempts)))

abbrev pub snooze : Backoff → Action Backoff
snooze b = on_queue (Ops.snooze b)

module _ (max_waiting queue_fuel : ℕ) where
  -- `while let Some(waker) = self.waiter_queue.pop() { waker.wake(); }`
  unfoldable pub wake_loop : (wake_fuel : ℕ) → Action (Unit {0})
  wake_loop zero = spinning
  wake_loop (suc fuel) = do
    popped ← on_queue (Ops.pop max_waiting queue_fuel)
    elim popped [ none ↦ ret tt | some w ↦ (do wake w; wake_loop fuel) ]

  unfoldable pub unblock_refs : (wake_fuel : ℕ) → Action (Unit {0})
  unblock_refs wake_fuel = do
    perform (store_count ref_allowed)
    popped ← on_queue (Ops.pop max_waiting queue_fuel)
    elim popped [ none ↦ slight_spin 0 | some w ↦ wake w ]
    wake_loop wake_fuel

  -- The loop of `try_get_exclusive_ref`: `left` rounds to go, the next one with number `i`.
  unfoldable pub await_no_refs : (left i : ℕ) → Action Bool
  await_no_refs zero i = ret false
  await_no_refs (suc left) i = do
    clear ← no_standard_refs
    if clear then ret true else (do slight_spin i; await_no_refs left (i + 1))

  unfoldable pub try_get_exclusive_ref : (wake_fuel : ℕ) → Action (Option ExclusiveRef)
  try_get_exclusive_ref wake_fuel = do
    mine ← try_block_refs
    if mine
        then (do
          clear ← await_no_refs 5 0
          if clear then ret (some exclusive) else (do unblock_refs wake_fuel; ret none))
        else ret none

  -- `Drop for ExclusiveRef`
  unfoldable pub drop_exclusive : (wake_fuel : ℕ) → ExclusiveRef → Action (Unit {0})
  drop_exclusive wake_fuel e = unblock_refs wake_fuel

unfoldable pub get_exclusive_ref :
    (address : ℕ) → Action (MaybeFuture ExclusiveRef FutureExclusiveRef)
get_exclusive_ref address = do
  mine ← try_block_refs
  if mine
      then (do
        clear ← no_standard_refs
        if clear then ret (ready exclusive) else ret (future (record { blocked_fut = none })))
      else (do f ← new_future_blocked address; ret (future (record { blocked_fut = some f })))

-- The two loops of `blocking_get_exclusive_ref`, which share a `Backoff`.
unfoldable pub block_loop : (fuel : ℕ) → Backoff → Action Backoff
block_loop zero b = spinning
block_loop (suc fuel) b = do
  mine ← try_block_refs
  if mine then ret b else (do b' ← snooze b; block_loop fuel b')

unfoldable pub drain_loop : (fuel : ℕ) → Backoff → Action (Unit {0})
drain_loop zero b = spinning
drain_loop (suc fuel) b = do
  clear ← no_standard_refs
  if clear then ret tt else (do b' ← snooze b; drain_loop fuel b')

unfoldable pub blocking_get_exclusive_ref : (fuel : ℕ) → Action ExclusiveRef
blocking_get_exclusive_ref fuel = do
  b ← block_loop fuel Backoff.new
  drain_loop fuel b
  ret exclusive

unfoldable pub get_ref : (address : ℕ) → Action (MaybeFuture Ref FutureRef)
get_ref address = do
  loaded ← perform load_count
  let c = masked loaded
  many_weak_try_incr_refs c (incremented c) (ret (ready ref))
      λ c n. (do f ← new_future_ref address; ret (future f))

unfoldable pub try_get_ref : Action (Option Ref)
try_get_ref = do
  loaded ← perform load_count
  let c = masked loaded
  many_weak_try_incr_refs c (incremented c) (ret (some ref)) λ c n. ret none

unfoldable pub get_ref_loop : (fuel : ℕ) → Backoff → (current next : ℕ) → Action Ref
get_ref_loop zero b c n = spinning
get_ref_loop (suc fuel) b c n =
    many_weak_try_incr_refs c n (ret ref) λ c n. (do b' ← snooze b; get_ref_loop fuel b' c n)

unfoldable pub blocking_get_ref : (fuel : ℕ) → Action Ref
blocking_get_ref fuel = do
  loaded ← perform load_count
  let c = masked loaded
  get_ref_loop fuel Backoff.new c (incremented c)

-- `Drop for Ref`
unfoldable pub drop_ref : Ref → Action (Unit {0})
drop_ref r = do old ← perform (fetch_sub_count ref_incr); ret tt
