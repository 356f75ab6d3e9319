-- ===== src/Tests/Waiting.antt =====
-- Two threads at the waiter queue of src/lib.rs: one registers a future, the other unblocks references, though
-- one is out.
use ref_count.Common.{ℕ, ◌≢◌, refl, false, true, arith}
use ref_count.Consts.{standard_ref_count, block_state, masked, blocked, incremented}
use ref_count.Program.{ret, undefined}
use ref_count.Queue.Memory.{
  load_head, load_tail, cas_head, cas_tail, load_stamp, store_stamp, write_value, take_value,
}
use ref_count.Queue.Ops
use ref_count.Queue.Ops.{push, push_or_else, push_loop, pop, pop_loop}
use ref_count.Queue.Stamp.{one_lap, index_of, next_stamp, next_power_of_two, doubled_to, lap_of}
use ref_count.RefCount.Memory.{
  new, load_count, cas_count, store_count, load_flag, store_flag, queue,
}
use ref_count.RefCount.Ops.{
  try_block_refs, weak_try_block, is_blocked, raw_state, unblock_refs, try_get_ref,
  many_weak_try_incr_refs, weak_try_incr,
}
use ref_count.RefCount.Futures.{poll_ref, try_register_future}
use ref_count.Ownership.{nothing}
use ref_count.System.{of_try_get_ref, of_try_block_refs, of_poll_ref}
use ref_count.System.Public.{
  Sharing, PublicReach, start, later, begin, access, of_call, of_unblock_refs,
}
use ref_count.System.Waiters.Sound.{no_undefined_waiters, no_waiter_race}
use ref_count.Tests.Sharing.{new_counter}
use ref_count.Tests.Places.{shape_of_two}

-- Thread 0 has a reference, has registered one future and is about to write a second waiter; thread 1, which
-- has blocked references and unblocks them, is about to take the first.
two_inside : (s : Sharing) × PublicReach 2 26 s
unfolding new Ops.new try_get_ref many_weak_try_incr_refs weak_try_incr incremented try_block_refs
    weak_try_block masked blocked standard_ref_count poll_ref is_blocked raw_state block_state
    try_register_future push push_or_else push_loop one_lap index_of next_stamp lap_of
    next_power_of_two doubled_to unblock_refs pop pop_loop
two_inside =
    let s0 : PublicReach 2 0 (record { mem = new_counter; calls = λ i. ret nothing }) =
      start refl in
    let s1 = later s0 (begin 0 refl (of_call of_try_get_ref)) in
    let s2 = later s1 (access 0 load_count false refl) in
    let s3 = later s2 (access 0 (cas_count 0 2) false refl) in
    let s4 = later s3 (begin 1 refl (of_call of_try_block_refs)) in
    let s5 = later s4 (access 1 load_count false refl) in
    let s6 = later s5 (access 1 (cas_count 2 3) false refl) in
    let s7 = later s6 (begin 0 refl (of_call (of_poll_ref 1 7 (record { registered = 9 })))) in
    let s8 = later s7 (access 0 load_count false refl) in
    let s9 = later s8 (access 0 (load_flag 9) false refl) in
    let s10 = later s9 (access 0 (queue load_tail) false refl) in
    let s11 = later s10 (access 0 (queue (load_stamp 0)) false refl) in
    let s12 = later s11 (access 0 (queue (cas_tail 0 1)) false refl) in
    let s13 =
      later s12
        (access 0 (queue (write_value 0 (record { waker = 7; registered = 9 }))) false refl) in
    let s14 = later s13 (access 0 (queue (store_stamp 0 1)) false refl) in
    let s15 = later s14 (access 0 (store_flag 9 true) false refl) in
    let s16 = later s15 (begin 0 refl (of_call (of_poll_ref 1 5 (record { registered = 8 })))) in
    let s17 = later s16 (access 0 load_count false refl) in
    let s18 = later s17 (access 0 (load_flag 8) false refl) in
    let s19 = later s18 (access 0 (queue load_tail) false refl) in
    let s20 = later s19 (access 0 (queue (load_stamp 1)) false refl) in
    let s21 = later s20 (access 0 (queue (cas_tail 1 4)) false refl) in
    let s22 = later s21 (begin 1 refl (of_unblock_refs 1 1)) in
    let s23 = later s22 (access 1 (store_count 0) false refl) in
    let s24 = later s23 (access 1 (queue load_head) false refl) in
    let s25 = later s24 (access 1 (queue (load_stamp 0)) false refl) in
    let s26 = later s25 (access 1 (queue (cas_head 0 1)) false refl) in (_, s26)

no_undefined_waiters_example : two_inside.0.calls 1 ≢ undefined
no_undefined_waiters_example =
    no_undefined_waiters shape_of_two (omega arith) two_inside.1 (omega arith) 1

no_waiter_race_example : ◌≢◌ {A = ℕ} 1 0
unfolding two_inside
no_waiter_race_example =
    no_waiter_race shape_of_two (omega arith) two_inside.1 (omega arith) 0 1 1 0
      (write_value 1 (record { waker = 5; registered = 8 })) (take_value 0) (omega arith) refl refl
      refl refl
