-- ===== src/System/Safety.antt =====
-- What src/lib.rs promises to the threads that share a counter, in every state of System.
use native.Mathlib.Decide.{ℕ_discrete}
use ref_count.Common.{
  ℕ, ◌+◌, ◌<◌, ◌≡◌, refl, ◌⊎◌, inl, inr, arith, total, le-total, add-le-total, total_zero, sym,
}
use ref_count.Program.{ret}
use ref_count.Consts.{standard_ref_count, block_state}
use ref_count.Consts.Bits.{standard_ref_count_lem, block_state_lem}
use ref_count.Ownership.{Holding, nothing}
use ref_count.System.{Thread, System, Reach}
use ref_count.System.Invariant.{refs, blocks, exclusives, Reach-Inv}

-- The scope of a thread counts in the total of all scopes.
abbrev in_scope : (Holding → ℕ) → Thread → ℕ
in_scope w t = w t.scope

-- `n` threads make the calls of System.Call in any order and interleaving; they keep fewer than 2^31
-- references in scope, counting one more for each thread. These calls are not `try_get_exclusive_ref`,
-- not `unblock_refs` of a block whose holder has not seen a count of 0, and not the unsafe constructors
-- of `Ref` and `ExclusiveRef`. While one thread has an `ExclusiveRef` in scope, no thread has a `Ref`
-- in scope, and no other thread has an `ExclusiveRef` or a block.
pub mutual_exclusion :
    {n max_waiting : ℕ} {s : System}
    → Reach n max_waiting s
    → (i j : ℕ) → i < n
    → j < n
    → 0 < (s.threads i).scope.exclusives
    → ((s.threads j).scope.refs ≡ 0)
      × ((i ≡ j) ⊎ ((s.threads j).scope.exclusives + (s.threads j).scope.blocks ≡ 0))
mutual_exclusion {n} {s = s} r i j hi hj h = (none_referenced, others (ℕ_discrete i j))
  where
    open (Reach-Inv r) use {own, account}

    exclusive_lt : 0 < total (in_scope exclusives) n s.threads
    exclusive_lt = omega (arith, le-total (in_scope exclusives) n s.threads i hi)

    none_referenced : (s.threads j).scope.refs ≡ 0
    none_referenced = omega (
      arith,
      account.alone (omega (arith, exclusive_lt)),
      le-total (in_scope refs) n s.threads j hj,
    )

    others :
        Dec (i ≡ j) → (i ≡ j) ⊎ ((s.threads j).scope.exclusives + (s.threads j).scope.blocks ≡ 0)
    others (yes e) = inl e
    others (no ne) = inr (
        omega (
          arith,
          account.single,
          exclusive_lt,
          add-le-total (in_scope exclusives) n s.threads i j hi hj ne,
          le-total (in_scope blocks) n s.threads j hj,
        ))

-- `n` threads make the calls of System.Call in any order and interleaving; they keep fewer than 2^31
-- references in scope, counting one more for each thread. These calls are not `try_get_exclusive_ref`,
-- not `unblock_refs` of a block whose holder has not seen a count of 0, and not the unsafe constructors
-- of `Ref` and `ExclusiveRef`. When no thread is in a call, the word of the counter shows what the
-- threads have in scope: its reference count is the number of `Ref`s, and its block bit the number of
-- blocks and `ExclusiveRef`s.
pub count_of_quiet :
    {n max_waiting : ℕ} {s : System}
    → Reach n max_waiting s
    → ((i : ℕ) → (s.threads i).call ≡ ret nothing)
    → (standard_ref_count s.mem.count ≡ total (λ (t : Thread). t.scope.refs) n s.threads)
      × (block_state s.mem.count
          ≡ total (λ (t : Thread). t.scope.blocks) n s.threads
            + total (λ (t : Thread). t.scope.exclusives) n s.threads)
count_of_quiet {n} {s = s} r quiet = (
  omega (
    arith,
    counts,
    single,
    standard_ref_count_lem s.mem.count,
    calm refs refl,
    calm blocks refl,
    calm exclusives refl,
  ),
  omega (
    arith,
    counts,
    single,
    block_state_lem s.mem.count,
    calm refs refl,
    calm blocks refl,
    calm exclusives refl,
  ),
)
  where
    open (Reach-Inv r) use {own, keeps, account.{counts, single}}

    own_nothing : (i : ℕ) → own i ≡ nothing
    own_nothing i = sym (rw (quiet i) at (keeps i))

    calm : (w : Holding → ℕ) → w nothing ≡ 0 → total w n own ≡ 0
    calm w e = total_zero w n own (λ i. rw (own_nothing i) e)
