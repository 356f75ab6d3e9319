-- ===== src/Lib.antt =====
-- The crate ref_count: a counter of references that can be blocked, so that one holder gets
-- exclusive access, with a queue in which futures wait for references to be allowed again.
--
-- Parts of the program, and the files that model them:
-- - src/consts.rs, and `standard_ref_count!` and `block_state!` of src/macros.rs: Consts. The counter
--   is one 32-bit word, a block bit below a count of references.
-- - `State` of src/lib.rs: State.
-- - src/backoff.rs and `slight_spin!`: Backoff. A pause is the number of rounds that it spins and
--   whether it comes to `yield_now!`, which yields under loom and with the feature `std`.
-- - src/array_queue.rs: Queue. `Memory` is the two stamps and the slots, `Ops` has each method, with
--   the name that it has in the source; `Drop` is `drop_queue` and `IntoIter::next` is `next`.
--   `mod loom_extra` is Loom.
-- - src/lib.rs with the macros of src/macros.rs, and src/waiter.rs: RefCount.Memory and RefCount.Ops,
--   under the names of the source, save that the methods `ref_count` and `standard_ref_count` are
--   `references` and `standard_refs`, and the `drop`s are `drop_ref` and `drop_exclusive`.
-- - src/futures.rs: RefCount.Futures, with `poll_ref`, `poll_blocked` and `poll_exclusive` for the
--   three `poll`s.
--
-- A function is a `Program`: a tree of the atomic accesses of its body, in order. `run` runs one by
-- itself, with a list that says which accesses fail spuriously if they are weak compare-exchanges.
-- Threads that share a counter are the step relation of System: each step is one access of a thread,
-- or the start or the end of a call. Ownership says what a running call holds after each access (a
-- reference, a block, exclusive access), and System.Invariant adds this up over the threads against
-- the word of the counter. The queue is used by `RefCount` through `on_queue`, which embeds a method
-- of the queue; Solo carries the theorems on the queue over to the functions that use it. System.Public
-- has the threads that make any calls of the public functions; their runs, seen from the waiter queue,
-- are runs of the threads of Linear (System.Waiters), since every function uses the queue by whole calls.
--
-- Threads that share a queue are the step relation of Linear, where the steps are the accesses of
-- `push`, `force_push` and `pop`; the same module has a bounded queue whose calls are atomic.
-- Linear.Claims says what a thread knows of the stamps and which slot is its own, Linear.Calls that the
-- code of the three methods keeps to that, and Linear.Invariant relates the memory, the claims and the
-- atomic queue; its slots are free, being filled, filled, being emptied or having their value replaced
-- (Linear.Slots). A `force_push` on a full queue moves the head first and stores the tail afterwards;
-- Linear.Lag says how the word of the tail lags behind in between. Linear.Discipline composes programs,
-- and Owning, Fits, Moves, Accesses, Wins, Owned and Replaced carry the invariant over each access.
-- `len`, `is_empty` and `is_full` load the two words and change nothing; Linear.Watch has a thread that
-- calls one of them beside the others, and Size, Advance, Shown, Length and Ends what the words show
-- along its call.
--
-- Bounds and fuel: a `loop` takes one unit of fuel for each round, and `spinning` is the end of the
-- fuel. A round that is repeated by a thread that runs alone has met a spurious failure, so fuel
-- above the number of those is enough; the loop over the waiters takes a unit for each waiter and
-- one more. Under interleaving the fuel is any number. The threads of System hold fewer than 2^31
-- references at all times, which is a condition of System: the code does not check for the overflow. The
-- theorems of Linear are about capacities below 2^60 and runs of at most 2^62 steps: the stamps begin
-- anew after 2^63 places or more (Queue.Distinct), and a thread that has slept for all that time would
-- not see it. A step of System.Public is at most three of Linear, so System.Waiters is about 2^60 steps.
--
-- Not modelled: memory orderings, all accesses are sequentially consistent; `CacheLine` of src/pad.rs,
-- which only aligns; `Debug` of `RefCount` and `ArrayQueue`; the feature `alloc`, which boxes the
-- queue; the rest of the configuration `loom`; the end of a future's life, so that the address of a
-- flag stays valid. `Waker` and `Context` of the standard library are a number, and the calls of `wake`
-- and `wake_by_ref` are recorded. The calls of System are without `try_get_exclusive_ref`, and without
-- `unblock_refs` of a block whose holder has not seen a count of 0: both store 0 in the word while
-- references are out, as Solo.Release shows of the first. System.Public has them. The unsafe
-- constructors of `Ref` and `ExclusiveRef` are in neither; their drops are in both. Arithmetic on the
-- stamps and the word wraps around where the source says `wrapping_add`; `head + 1` and `tail + 1` are
-- in bounds of a `usize`, and `slight_spin!(…, fake)` does nothing outside loom.
pub mod Common
pub mod Program
pub mod Backoff
pub mod Queue
pub mod Consts
pub mod State
pub mod RefCount
pub mod Ownership
pub mod System
pub mod Solo
pub mod Linear
pub mod Tests
