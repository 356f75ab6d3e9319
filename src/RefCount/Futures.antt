-- ===== src/RefCount/Futures.antt =====
-- The `poll` functions of src/futures.rs. A poll gets the task's waker and the future, and returns
-- its answer and the future as it has left it.
use ref_count.Common.{ℕ, true, none, some, if◌then◌else◌}
use ref_count.Program.{ret, perform, ◌>>=◌, ◌>>◌}
use ref_count.Queue.Ops
use ref_count.RefCount.Memory.{Action, load_flag, store_flag, wake_task, on_queue}
use ref_count.RefCount.Ops.{
  Ref, ExclusiveRef, exclusive, FutureRef, FutureBlockedRefs, FutureExclusiveRef, try_block_refs,
  is_blocked, no_standard_refs, try_get_ref, wake,
}

-- `core::task::Poll`
pub data Poll (A : Type 0) : Type 0 where
  ready : A → Poll A
  pending : Poll A

module _ (max_waiting queue_fuel : ℕ) where
  -- `try_register_future!`
  unfoldable pub try_register_future : (registered waker : ℕ) → Action (Unit {0})
  try_register_future registered waker = do
    known ← perform (load_flag registered)
    if known then ret tt else (do
      pushed ←
          on_queue
            (Ops.push max_waiting queue_fuel (record { waker = waker; registered = registered }))
      elim pushed [ Ops.ok u ↦ perform (store_flag registered true) | Ops.err w ↦ wake w ])

  unfoldable pub poll_ref : (waker : ℕ) → FutureRef → Action (Poll Ref)
  poll_ref waker f = do
    held ← is_blocked
    if held then (do try_register_future f.registered waker; ret pending) else (do
      got ← try_get_ref
      elim got [ some r ↦ ret (ready r) | none ↦ (do perform (wake_task waker); ret pending) ])

  unfoldable pub poll_blocked : (waker : ℕ) → FutureBlockedRefs → Action (Poll (Unit {0}))
  poll_blocked waker f = do
    mine ← try_block_refs
    if mine then ret (ready tt) else (do
      held ← is_blocked
      if held then try_register_future f.registered waker else perform (wake_task waker)
      ret pending)

  -- the part of `FutureExclusiveRef::poll` that follows once references are blocked
  unfoldable pub poll_unreferenced : (waker : ℕ) → Action (Poll ExclusiveRef)
  poll_unreferenced waker = do
    clear ← no_standard_refs
    if clear then ret (ready exclusive) else (do perform (wake_task waker); ret pending)

  unfoldable pub poll_exclusive :
      (waker : ℕ) → FutureExclusiveRef → Action (Poll ExclusiveRef × FutureExclusiveRef)
  poll_exclusive waker f = elim f.blocked_fut [
    | some blocked_fut ↦ (do
      answer ← poll_blocked waker blocked_fut
      elim answer [
        | ready u ↦ (do r ← poll_unreferenced waker; ret (r, record { blocked_fut = none }))
        | pending ↦ ret (pending, f)
      ])
    | none ↦ (do r ← poll_unreferenced waker; ret (r, f))
  ]
