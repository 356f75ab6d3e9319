-- ===== src/System.antt =====
-- Threads that share one `RefCount`: each makes the calls of `Call` to src/lib.rs and src/futures.rs in
-- any order, and their accesses to memory interleave in any order. A weak compare-exchange may
-- fail at any time.
pub mod Calls
pub mod Account
pub mod Invariant
pub mod Safety
pub mod Public
pub mod Waiters
use ref_count.Common.{
  ℕ, ◌+◌, ◌-◌, ◌^◌, ◌≤◌, ◌<◌, ◌≡◌, Bool, true, false, Option, none, some, if◌then◌else◌, update,
  total,
}
use ref_count.Program.{Program, ret, act, ◌>>=◌, ◌>>◌}
use ref_count.RefCount.Memory.{Shared, Access, Response, Action, apply, new}
use ref_count.RefCount.Ops.{
  Ref, ref, ExclusiveRef, exclusive, MaybeFuture, ready, future, FutureRef, FutureBlockedRefs,
  FutureExclusiveRef, get_ref, try_get_ref, blocking_get_ref, drop_ref, get_exclusive_ref,
  blocking_get_exclusive_ref, drop_exclusive, try_block_refs, block_refs, no_standard_refs,
  references, raw_state,
}
use ref_count.RefCount.Futures.{Poll, poll_ref, poll_blocked, poll_exclusive}
use ref_count.Ownership.{Holding, nothing}
use ref_count.Ownership.Polls.{blocks_of}

abbrev pub one_ref : Holding
one_ref = record { refs = 1; blocks = 0; exclusives = 0 }

abbrev pub one_block : Holding
one_block = record { refs = 0; blocks = 1; exclusives = 0 }

abbrev pub one_exclusive : Holding
one_exclusive = record { refs = 0; blocks = 0; exclusives = 1 }

-- What the results of the calls hold.
abbrev pub from_ref : Option Ref → Holding
from_ref (some r) = one_ref
from_ref none = nothing

abbrev pub from_maybe_ref : MaybeFuture Ref FutureRef → Holding
from_maybe_ref (ready r) = one_ref
from_maybe_ref (future f) = nothing

abbrev pub from_poll_ref : Poll Ref → Holding
from_poll_ref (Poll.ready r) = one_ref
from_poll_ref Poll.pending = nothing

abbrev pub in_future : FutureExclusiveRef → Holding
in_future f = record { refs = 0; blocks = blocks_of f; exclusives = 0 }

abbrev pub from_maybe_exclusive : MaybeFuture ExclusiveRef FutureExclusiveRef → Holding
from_maybe_exclusive (ready e) = one_exclusive
from_maybe_exclusive (future f) = in_future f

abbrev pub from_poll_exclusive : Poll ExclusiveRef × FutureExclusiveRef → Holding
from_poll_exclusive (Poll.ready e, f) = one_exclusive
from_poll_exclusive (Poll.pending, f) = in_future f

abbrev pub from_maybe_block : MaybeFuture (Unit {0}) FutureBlockedRefs → Holding
from_maybe_block (ready u) = one_block
from_maybe_block (future f) = nothing

abbrev pub from_poll_block : Poll (Unit {0}) → Holding
from_poll_block (Poll.ready u) = one_block
from_poll_block Poll.pending = nothing

-- The calls that a thread may make, with what each takes from it; the call's result is what it gives
-- back. A block may be given to `no_standard_refs`, and is exclusive if that returns `true`.
-- `drop_exclusive` is `unblock_refs`, so that the holder of a block can release it after
-- `no_standard_refs` has returned `true`. Two uses of public functions are left out, because they store
-- 0 in the word while references are out: `try_get_exclusive_ref` (Solo.Release), and `unblock_refs` by
-- the holder of a block who has not seen a count of 0. System.Public has these too. Left out
-- as well are the unsafe constructors of `Ref` and `ExclusiveRef`, and the observers that, as `raw_state`
-- does, only load the word.
pub data Call (max_waiting : ℕ) : Holding → Action Holding → Type 0 where
  of_get_ref :
      (address : ℕ) → Call max_waiting nothing (do r ← get_ref address; ret (from_maybe_ref r))
  of_try_get_ref : Call max_waiting nothing (do r ← try_get_ref; ret (from_ref r))
  of_blocking_get_ref :
      (fuel : ℕ) → Call max_waiting nothing (do r ← blocking_get_ref fuel; ret one_ref)
  of_poll_ref :
      (queue_fuel waker : ℕ) (f : FutureRef)
      → Call max_waiting nothing
          (do r ← poll_ref max_waiting queue_fuel waker f; ret (from_poll_ref r))
  of_drop_ref : Call max_waiting one_ref (drop_ref ref >> ret nothing)
  of_get_exclusive_ref :
      (address : ℕ)
      → Call max_waiting nothing (do r ← get_exclusive_ref address; ret (from_maybe_exclusive r))
  of_blocking_get_exclusive_ref :
      (fuel : ℕ)
      → Call max_waiting nothing (do r ← blocking_get_exclusive_ref fuel; ret one_exclusive)
  of_poll_exclusive :
      (queue_fuel waker : ℕ) (f : FutureExclusiveRef)
      → Call max_waiting
          (in_future f)
          (do r ← poll_exclusive max_waiting queue_fuel waker f; ret (from_poll_exclusive r))
  of_drop_exclusive :
      (queue_fuel wake_fuel : ℕ)
      → Call max_waiting one_exclusive
          (drop_exclusive max_waiting queue_fuel wake_fuel exclusive >> ret nothing)
  of_try_block_refs :
      Call max_waiting nothing (do b ← try_block_refs; ret (if b then one_block else nothing))
  of_block_refs :
      (address : ℕ) → Call max_waiting nothing (do r ← block_refs address; ret (from_maybe_block r))
  of_poll_blocked :
      (queue_fuel waker : ℕ) (f : FutureBlockedRefs)
      → Call max_waiting nothing
          (do r ← poll_blocked max_waiting queue_fuel waker f; ret (from_poll_block r))
  of_no_standard_refs :
      Call max_waiting one_block
        (do b ← no_standard_refs; ret (if b then one_exclusive else one_block))
  of_references : Call max_waiting nothing (do n ← references; ret nothing)
  of_raw_state : Call max_waiting nothing (do n ← raw_state; ret nothing)

-- A thread between calls runs `ret nothing`, and `scope` is all that it holds; during a call `scope`
-- is what it holds besides.
pub record Thread : Type 0 where
  pub scope : Holding
  pub call : Action Holding

pub record System : Type 0 where
  pub mem : Shared
  pub threads : ℕ → Thread

abbrev pub plus : Holding → Holding → Holding
plus g h = record {
  refs = g.refs + h.refs;
  blocks = g.blocks + h.blocks;
  exclusives = g.exclusives + h.exclusives;
}

abbrev pub minus : Holding → Holding → Holding
minus g h = record {
  refs = g.refs - h.refs;
  blocks = g.blocks - h.blocks;
  exclusives = g.exclusives - h.exclusives;
}

pub record Includes (g h : Holding) : Type 0 where
  pub refs_le : h.refs ≤ g.refs
  pub blocks_le : h.blocks ≤ g.blocks
  pub exclusives_le : h.exclusives ≤ g.exclusives

-- One of the `n` threads starts a call, makes one access, or gets the result of its call.
pub data Step (n max_waiting : ℕ) (s : System) : System → Type 0 where
  begin :
      (i : ℕ) {c : Holding} {p : Action Holding}
      → i < n
      → (s.threads i).call ≡ ret nothing
      → Includes (s.threads i).scope c
      → Call max_waiting c p
      → Step n max_waiting s (record s {
        threads = update s.threads i (record { scope = minus (s.threads i).scope c; call = p });
      })
  access :
      (i : ℕ) (e : Access) {k : Response e → Action Holding} (miss : Bool)
      → i < n
      → (s.threads i).call ≡ act e k
      → Step n max_waiting s (record {
        mem = (apply e miss s.mem).1;
        threads =
            update s.threads i
              (record { scope = (s.threads i).scope; call = k (apply e miss s.mem).0 });
      })
  finish :
      (i : ℕ) {h : Holding}
      → i < n
      → (s.threads i).call ≡ ret h
      → Step n max_waiting s (record s {
        threads =
            update s.threads i (record { scope = plus (s.threads i).scope h; call = ret nothing });
      })

abbrev pub idle : Thread
idle = record { scope = nothing; call = ret nothing }

-- There are fewer than 2^31 references, if each thread may be about to take one.
abbrev pub HasFew : ℕ → System → Type 0
HasFew n s = total (λ (t : Thread). t.scope.refs) n s.threads + n < 2 ^ 31

-- The states that `n` threads reach which start with a new counter and hold nothing.
pub data Reach (n max_waiting : ℕ) : System → Type 0 where
  start :
      {m : Shared}
      → n < 2 ^ 31
      → new max_waiting ≡ some m
      → Reach n max_waiting (record { mem = m; threads = λ i. idle })
  later :
      {s t : System}
      → Reach n max_waiting s
      → Step n max_waiting s t
      → HasFew n t
      → Reach n max_waiting t
