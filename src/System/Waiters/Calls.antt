-- ===== src/System/Waiters/Calls.antt =====
-- The calls of src/lib.rs and src/futures.rs use the waiter queue by whole calls of `push` and `pop`.
use ref_count.Common.{ℕ, true, false, Option, none, some}
use ref_count.Queue.Ops
use ref_count.RefCount.Memory.{Action}
use ref_count.RefCount.Ops.{
  unblock_refs, no_standard_refs, references, raw_state, is_blocked, try_block_refs, block_refs,
  get_exclusive_ref, blocking_get_exclusive_ref, get_ref, try_get_ref, blocking_get_ref, drop_ref,
  drop_exclusive, FutureRef, FutureBlockedRefs,
}
use ref_count.RefCount.Futures.{
  Poll, try_register_future, poll_ref, poll_blocked, poll_unreferenced, poll_exclusive,
}
use ref_count.Ownership.{Holding}
use ref_count.System.{
  Call, of_get_ref, of_try_get_ref, of_blocking_get_ref, of_poll_ref, of_drop_ref,
  of_get_exclusive_ref, of_blocking_get_exclusive_ref, of_poll_exclusive, of_drop_exclusive,
  of_try_block_refs, of_block_refs, of_poll_blocked, of_no_standard_refs, of_references,
  of_raw_state,
}
use ref_count.System.Waiters.{Tracks-push->>=}
use ref_count.RefCount.Ops.{try_get_exclusive_ref, no_refs, standard_refs, is_allowed, state}
use ref_count.System.Public.{
  PublicCall, of_call, of_try_get_exclusive_ref, of_unblock_refs, of_no_refs, of_standard_refs,
  of_is_blocked, of_is_allowed, of_state,
}
use ref_count.System.Waiters.Functions.{
  Free-try_get_exclusive_ref, Free, Free->>=, Free-wake, Free-no_standard_refs, Free-try_block_refs,
  Free-try_get_ref, Free-get_ref, Free-blocking_get_ref, Free-get_exclusive_ref,
  Free-blocking_get_exclusive_ref, Free-unblock_refs, Free-block_refs,
}

module _ (capacity : ℕ) where
  Free-is_blocked : Free capacity is_blocked
  unfolding is_blocked raw_state
  Free-is_blocked = λ v. tt

  Free-try_register_future :
      (queue_fuel registered waker : ℕ)
      → Free capacity (try_register_future capacity queue_fuel registered waker)
  unfolding try_register_future
  Free-try_register_future queue_fuel registered waker = elim [
    | true ↦ tt
    | false ↦
        Tracks-push->>= capacity queue_fuel (record { waker = waker; registered = registered }) _
          (elim [ Ops.ok u ↦ λ r. tt | Ops.err w ↦ Free-wake capacity w ])
  ]

  Free-poll_ref :
      (queue_fuel waker : ℕ) (f : FutureRef) → Free capacity (poll_ref capacity queue_fuel waker f)
  unfolding poll_ref
  Free-poll_ref queue_fuel waker f = Free->>= capacity is_blocked _ Free-is_blocked (elim [
    | true ↦
        Free->>= capacity (try_register_future capacity queue_fuel f.registered waker) _
          (Free-try_register_future queue_fuel f.registered waker) (λ u. tt)
    | false ↦
        Free->>= capacity try_get_ref _ (Free-try_get_ref capacity)
          (elim [ some r ↦ tt | none ↦ λ r. tt ])
  ])

  Free-poll_blocked :
      (queue_fuel waker : ℕ) (f : FutureBlockedRefs)
      → Free capacity (poll_blocked capacity queue_fuel waker f)
  unfolding poll_blocked
  Free-poll_blocked queue_fuel waker f =
      Free->>= capacity try_block_refs _ (Free-try_block_refs capacity) (elim [
        | true ↦ tt
        | false ↦ Free->>= capacity is_blocked _ Free-is_blocked (elim [
          | true ↦
              Free->>= capacity (try_register_future capacity queue_fuel f.registered waker) _
                (Free-try_register_future queue_fuel f.registered waker) (λ u. tt)
          | false ↦ λ r. tt
        ])
      ])

  Free-poll_unreferenced :
      (queue_fuel waker : ℕ) → Free capacity (poll_unreferenced capacity queue_fuel waker)
  unfolding poll_unreferenced
  Free-poll_unreferenced queue_fuel waker =
      Free->>= capacity no_standard_refs _ (Free-no_standard_refs capacity)
        (elim [ true ↦ tt | false ↦ λ r. tt ])

  Free-poll_exclusive :
      (queue_fuel waker : ℕ) (b : Option FutureBlockedRefs)
      → Free capacity (poll_exclusive capacity queue_fuel waker (record { blocked_fut = b }))
  unfolding poll_exclusive
  Free-poll_exclusive queue_fuel waker none =
      Free->>= capacity (poll_unreferenced capacity queue_fuel waker) _
        (Free-poll_unreferenced queue_fuel waker) (λ r. tt)
  Free-poll_exclusive queue_fuel waker (some b) =
      Free->>= capacity (poll_blocked capacity queue_fuel waker b) _
        (Free-poll_blocked queue_fuel waker b)
        (elim [
          | Poll.ready u ↦
              Free->>= capacity (poll_unreferenced capacity queue_fuel waker) _
                (Free-poll_unreferenced queue_fuel waker) (λ r. tt)
          | Poll.pending ↦ tt
        ])

Call-Free : {capacity : ℕ} {c : Holding} {p : Action Holding} → Call capacity c p → Free capacity p
unfolding drop_exclusive references raw_state drop_ref
Call-Free {capacity} (of_get_ref address) =
    Free->>= capacity (get_ref address) _ (Free-get_ref capacity address) (λ r. tt)
Call-Free {capacity} of_try_get_ref =
    Free->>= capacity try_get_ref _ (Free-try_get_ref capacity) (λ r. tt)
Call-Free {capacity} (of_blocking_get_ref fuel) =
    Free->>= capacity (blocking_get_ref fuel) _ (Free-blocking_get_ref capacity fuel) (λ r. tt)
Call-Free {capacity} (of_poll_ref queue_fuel waker f) =
    Free->>= capacity (poll_ref capacity queue_fuel waker f) _
      (Free-poll_ref capacity queue_fuel waker f) (λ r. tt)
Call-Free of_drop_ref = λ r. tt
Call-Free {capacity} (of_get_exclusive_ref address) =
    Free->>= capacity (get_exclusive_ref address) _ (Free-get_exclusive_ref capacity address)
      (λ r. tt)
Call-Free {capacity} (of_blocking_get_exclusive_ref fuel) =
    Free->>= capacity (blocking_get_exclusive_ref fuel) _
      (Free-blocking_get_exclusive_ref capacity fuel) (λ r. tt)
Call-Free {capacity} (of_poll_exclusive queue_fuel waker f) =
    Free->>= capacity (poll_exclusive capacity queue_fuel waker f) _
      (Free-poll_exclusive capacity queue_fuel waker f.blocked_fut) (λ r. tt)
Call-Free {capacity} (of_drop_exclusive queue_fuel wake_fuel) =
    Free->>= capacity (unblock_refs capacity queue_fuel wake_fuel) _
      (Free-unblock_refs capacity queue_fuel wake_fuel) (λ u. tt)
Call-Free {capacity} of_try_block_refs =
    Free->>= capacity try_block_refs _ (Free-try_block_refs capacity) (λ b. tt)
Call-Free {capacity} (of_block_refs address) =
    Free->>= capacity (block_refs address) _ (Free-block_refs capacity address) (λ r. tt)
Call-Free {capacity} (of_poll_blocked queue_fuel waker f) =
    Free->>= capacity (poll_blocked capacity queue_fuel waker f) _
      (Free-poll_blocked capacity queue_fuel waker f) (λ r. tt)
Call-Free {capacity} of_no_standard_refs =
    Free->>= capacity no_standard_refs _ (Free-no_standard_refs capacity) (λ b. tt)
Call-Free of_references = λ v. tt
Call-Free of_raw_state = λ v. tt

pub PublicCall-Free : {capacity : ℕ} {p : Action Holding} → PublicCall capacity p → Free capacity p
unfolding no_refs references standard_refs is_blocked is_allowed raw_state state
PublicCall-Free (of_call call) = Call-Free call
PublicCall-Free {capacity} (of_try_get_exclusive_ref queue_fuel wake_fuel) =
    Free->>= capacity (try_get_exclusive_ref capacity queue_fuel wake_fuel) _
      (Free-try_get_exclusive_ref capacity queue_fuel wake_fuel) (λ r. tt)
PublicCall-Free {capacity} (of_unblock_refs queue_fuel wake_fuel) =
    Free->>= capacity (unblock_refs capacity queue_fuel wake_fuel) _
      (Free-unblock_refs capacity queue_fuel wake_fuel) (λ u. tt)
PublicCall-Free of_no_refs = λ v. tt
PublicCall-Free of_standard_refs = λ v. tt
PublicCall-Free of_is_blocked = λ v. tt
PublicCall-Free of_is_allowed = λ v. tt
PublicCall-Free of_state = λ v. tt
