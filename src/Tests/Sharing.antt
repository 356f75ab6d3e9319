-- ===== src/Tests/Sharing.antt =====
-- Two threads that share the counter of src/lib.rs, one of which takes an exclusive reference.
use ref_count.Common.{ℕ, ◌≡◌, ◌⊎◌, refl, false, none, [], ◌+◌, arith, total}
use ref_count.Consts.{standard_ref_count, block_state, masked, blocked}
use ref_count.Program.{ret}
use ref_count.Queue.Ops
use ref_count.RefCount.Memory.{Shared, new, load_count, cas_count}
use ref_count.RefCount.Ops.{
  get_exclusive_ref, try_block_refs, weak_try_block, no_standard_refs, standard_refs,
}
use ref_count.Ownership.{nothing}
use ref_count.System.{
  Includes, of_get_exclusive_ref, of_try_get_ref, Thread, System, Step, begin, access, finish, idle,
  HasFew, Reach, start, later,
}
use ref_count.System.Invariant.{Inv, Step-Inv, Reach-Inv}
use ref_count.System.Safety.{mutual_exclusion, count_of_quiet}

abbrev pub new_counter : Shared
new_counter = record {
  count = 0;
  waiter_queue = record { head = 0; tail = 0; stamp = λ i. i; value = λ i. none };
  registered = λ a. false;
  woken = [];
}

-- Thread 0 has called `get_exclusive_ref` on a new counter and got a reference.
exclusive_taken : (s : System) × Reach 2 2 s
unfolding new Ops.new get_exclusive_ref try_block_refs weak_try_block no_standard_refs standard_refs
    masked blocked standard_ref_count total
exclusive_taken =
    let before : Reach 2 2 (record { mem = new_counter; threads = λ i. idle }) =
      start (omega arith) refl in
    let fits : Includes nothing nothing = record {
      refs_le = omega arith;
      blocks_le = omega arith;
      exclusives_le = omega arith;
    } in
    let called =
      later before (begin 0 (omega arith) refl fits (of_get_exclusive_ref 9)) (omega arith) in
    let loaded = later called (access 0 load_count false (omega arith) refl) (omega arith) in
    let swapped = later loaded (access 0 (cas_count 0 1) false (omega arith) refl) (omega arith) in
    let counted = later swapped (access 0 load_count false (omega arith) refl) (omega arith) in
    (_, later counted (finish 0 (omega arith) refl) (omega arith))

mutual_exclusion_example :
    ((exclusive_taken.0.threads 1).scope.refs ≡ 0)
    × ((◌≡◌ {A = ℕ} 0 1)
        ⊎ ((exclusive_taken.0.threads 1).scope.exclusives
              + (exclusive_taken.0.threads 1).scope.blocks
            ≡ 0))
unfolding exclusive_taken
mutual_exclusion_example =
    mutual_exclusion exclusive_taken.1 0 1 (omega arith) (omega arith) (omega arith)

quiet : (i : ℕ) → (exclusive_taken.0.threads i).call ≡ ret nothing
unfolding exclusive_taken
quiet i = ground arith

count_of_quiet_example :
    (standard_ref_count exclusive_taken.0.mem.count
      ≡ total (λ (t : Thread). t.scope.refs) 2 exclusive_taken.0.threads)
    × (block_state exclusive_taken.0.mem.count
        ≡ total (λ (t : Thread). t.scope.blocks) 2 exclusive_taken.0.threads
          + total (λ (t : Thread). t.scope.exclusives) 2 exclusive_taken.0.threads)
count_of_quiet_example = count_of_quiet exclusive_taken.1 quiet

-- Thread 1 asks for a reference next.
ref_asked : (t : System) × Step 2 2 exclusive_taken.0 t × HasFew 2 t
unfolding exclusive_taken total
ref_asked =
    let fits : Includes nothing nothing = record {
      refs_le = omega arith;
      blocks_le = omega arith;
      exclusives_le = omega arith;
    } in
    (_, begin 1 (omega arith) refl fits of_try_get_ref, omega arith)

Step-Inv_example : Inv 2 ref_asked.0
Step-Inv_example = Step-Inv ref_asked.1 ref_asked.2 (Reach-Inv exclusive_taken.1)
