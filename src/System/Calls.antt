-- ===== src/System/Calls.antt =====
-- Every call that a thread may make keeps to the discipline of the counter, and ends with what its
-- result says.
use ref_count.Common.{ℕ, ◌≤◌, ◌≡◌, refl, sym, none, some, inl, arith}
use ref_count.RefCount.Memory.{Action}
use ref_count.RefCount.Ops.{
  ref, ExclusiveRef, FutureExclusiveRef, unblock_refs, MaybeFuture, ready, future, references,
  raw_state, get_ref, try_get_ref, blocking_get_ref, drop_ref, get_exclusive_ref,
  blocking_get_exclusive_ref, drop_exclusive, block_refs,
}
use ref_count.RefCount.Futures.{Poll, poll_ref, poll_blocked, poll_exclusive}
use ref_count.Ownership.{Holding, nothing, Keeps}
use ref_count.Ownership.Laws.{Keeps->>=}
use ref_count.Ownership.Blocks.{
  Keeps-try_block_refs->>=, Keeps-no_standard_refs->>=, Keeps-unblock_refs, Acquired,
  Keeps-get_exclusive_ref, Keeps-blocking_get_exclusive_ref, MaybeBlocked, Keeps-block_refs,
}
use ref_count.Ownership.Refs.{
  MaybeCounted, Keeps-get_ref, Counted, Keeps-try_get_ref, Keeps-blocking_get_ref, Keeps-drop_ref,
}
use ref_count.Ownership.Polls.{
  PollCounted, Keeps-poll_ref, PollBlocked, Keeps-poll_blocked, Polled, Keeps-poll_exclusive,
}
use ref_count.System.{
  one_ref, one_block, one_exclusive, in_future, from_maybe_exclusive, from_poll_exclusive, Call,
  of_get_ref, of_try_get_ref, of_blocking_get_ref, of_poll_ref, of_drop_ref, of_get_exclusive_ref,
  of_blocking_get_exclusive_ref, of_poll_exclusive, of_drop_exclusive, of_try_block_refs,
  of_block_refs, of_poll_blocked, of_no_standard_refs, of_references, of_raw_state,
}

-- A call ends with what its result says that the thread holds.
abbrev pub Settled : Holding → Holding → Type 0
Settled h g = h ≡ g

Acquired-Settled :
    (r : MaybeFuture ExclusiveRef FutureExclusiveRef) (g : Holding)
    → Acquired nothing r g
    → Settled (from_maybe_exclusive r) g
Acquired-Settled (ready e) g h = sym h
Acquired-Settled (future f) g h = ground arith

Polled-Settled :
    (max_waiting queue_fuel : ℕ) (r : Poll ExclusiveRef × FutureExclusiveRef) (g : Holding)
    → Polled max_waiting queue_fuel r g
    → Settled (from_poll_exclusive r) g
Polled-Settled max_waiting queue_fuel (Poll.ready e, f) g h = sym h
Polled-Settled max_waiting queue_fuel (Poll.pending, f) g h = sym h

pub Call-Keeps :
    {max_waiting : ℕ} {c : Holding} {p : Action Holding} → Call max_waiting c p → Keeps c p Settled
unfolding drop_exclusive references raw_state
Call-Keeps (of_get_ref address) =
    Keeps->>= nothing (get_ref address) _ (MaybeCounted nothing) Settled
      (Keeps-get_ref address nothing refl)
      (elim [ ready r ↦ λ g e. sym e | future f ↦ λ g e. sym e ])
Call-Keeps of_try_get_ref =
    Keeps->>= nothing try_get_ref _ (Counted nothing) Settled (Keeps-try_get_ref nothing refl)
      (elim [ some r ↦ λ g e. sym e | none ↦ λ g e. sym e ])
Call-Keeps (of_blocking_get_ref fuel) =
    Keeps->>= nothing (blocking_get_ref fuel) _ _ Settled (Keeps-blocking_get_ref fuel nothing refl)
      (λ r g e. sym e)
Call-Keeps {max_waiting} (of_poll_ref queue_fuel waker f) =
    Keeps->>= nothing (poll_ref max_waiting queue_fuel waker f) _
      (PollCounted max_waiting queue_fuel nothing) Settled
      (Keeps-poll_ref max_waiting queue_fuel waker f nothing refl)
      (elim [ Poll.ready r ↦ λ g e. sym e | Poll.pending ↦ λ g e. sym e ])
Call-Keeps of_drop_ref =
    Keeps->>= one_ref (drop_ref ref) _ _ Settled (Keeps-drop_ref ref one_ref (omega arith))
      (λ u g e. sym e)
Call-Keeps (of_get_exclusive_ref address) =
    Keeps->>= nothing (get_exclusive_ref address) _ (Acquired nothing) Settled
      (Keeps-get_exclusive_ref address nothing) Acquired-Settled
Call-Keeps (of_blocking_get_exclusive_ref fuel) =
    Keeps->>= nothing (blocking_get_exclusive_ref fuel) _ _ Settled
      (Keeps-blocking_get_exclusive_ref fuel nothing) (λ r g e. sym e)
Call-Keeps {max_waiting} (of_poll_exclusive queue_fuel waker f) =
    Keeps->>= (in_future f) (poll_exclusive max_waiting queue_fuel waker f) _
      (Polled max_waiting queue_fuel) Settled (Keeps-poll_exclusive max_waiting queue_fuel waker f)
      (Polled-Settled max_waiting queue_fuel)
Call-Keeps {max_waiting} (of_drop_exclusive queue_fuel wake_fuel) =
    Keeps->>= one_exclusive (unblock_refs max_waiting queue_fuel wake_fuel) _ (λ u g. g ≡ nothing)
      Settled
      (Keeps-unblock_refs max_waiting queue_fuel wake_fuel one_exclusive _ (omega arith) refl)
      (λ u g e. sym e)
Call-Keeps of_try_block_refs = Keeps-try_block_refs->>= nothing _ Settled refl refl
Call-Keeps (of_block_refs address) =
    Keeps->>= nothing (block_refs address) _ (MaybeBlocked nothing) Settled
      (Keeps-block_refs address nothing) (elim [ ready r ↦ λ g e. sym e | future f ↦ λ g e. sym e ])
Call-Keeps {max_waiting} (of_poll_blocked queue_fuel waker f) =
    Keeps->>= nothing (poll_blocked max_waiting queue_fuel waker f) _
      (PollBlocked max_waiting queue_fuel nothing) Settled
      (Keeps-poll_blocked max_waiting queue_fuel waker f nothing)
      (elim [ Poll.ready r ↦ λ g e. sym e | Poll.pending ↦ λ g e. sym e ])
Call-Keeps of_no_standard_refs =
    Keeps-no_standard_refs->>= one_block _ Settled (omega arith) refl refl
Call-Keeps of_references = λ v lt. inl refl
Call-Keeps of_raw_state = λ v lt. inl refl

-- A call takes one reference at most.
pub Call-refs :
    {max_waiting : ℕ} {c : Holding} {p : Action Holding} → Call max_waiting c p → c.refs ≤ 1
Call-refs of_drop_ref = omega arith
Call-refs _ = omega arith
