-- ===== src/Solo/BlockingExclusive.antt =====
-- `blocking_get_exclusive_ref` of src/lib.rs by a thread that runs alone, on a counter that is free.
use ref_count.Common.{
  ℕ, zero, suc, ◌<◌, ◌≡◌, ap, ◌∙◌, Bool, true, false, List, arith, length, inl, inr, Bool-cases,
}
use ref_count.Backoff
use ref_count.Backoff.{Backoff}
use ref_count.Program.{◌>>=◌, ◌>>◌, ret, returned, later_misses, run}
use ref_count.Program.Laws.{length-later_misses, run->>=, proceed}
use ref_count.Consts.{masked, blocked, standard_ref_count}
use ref_count.Consts.Bits.{blocked_lem, block_state_lem, standard_ref_count_lem}
use ref_count.Queue.Ops
use ref_count.RefCount.Memory.{Shared, Action, apply}
use ref_count.RefCount.Ops.{
  exclusive, weak_try_block, try_block_refs, no_standard_refs, standard_refs, block_loop,
  drain_loop, blocking_get_exclusive_ref,
}
use ref_count.Solo.Queue.{run-on_queue->>=}
use ref_count.Solo.Attempts.{four_misses, masked-even}
use ref_count.Solo.Blocking.{snooze-ends, after_hit, used_up}

pub block-missed :
    {A : Type 0} (f : Bool → Action A) (m : Shared) (misses : List Bool)
    → masked m.count ≡ m.count
    → four_misses (later_misses misses) ≡ true
    → run apply (try_block_refs >>= f) (record { mem = m; misses = misses })
      ≡ run apply (f false) (record {
        mem = m;
        misses = later_misses (later_misses (later_misses (later_misses (later_misses misses))));
      })
unfolding try_block_refs weak_try_block
block-missed f m misses even miss = ground (arith, even, miss)

pub block-hit :
    {A : Type 0} (f : Bool → Action A) (m : Shared) (misses : List Bool)
    → masked m.count ≡ m.count
    → four_misses (later_misses misses) ≡ false
    → run apply (try_block_refs >>= f) (record { mem = m; misses = misses })
      ≡ run apply (f true) (record {
        mem = record m { count = blocked m.count };
        misses = after_hit (later_misses misses);
      })
unfolding try_block_refs weak_try_block
block-hit f m misses even hit = ground (arith, even, hit)

block_loop-ends :
    (fuel : ℕ) (b : Backoff) (m : Shared) (misses : List Bool)
    → masked m.count ≡ m.count
    → length misses < fuel
    → (b' : Backoff) × (rest : List Bool) × (run apply
          (block_loop fuel b)
          (record { mem = m; misses = misses })
        ≡ (returned b', record { mem = record m { count = blocked m.count }; misses = rest }))
unfolding block_loop
block_loop-ends zero b m misses even enough = absurd (omega arith)
block_loop-ends (suc fuel) b m misses even enough =
    elim (Bool-cases (four_misses (later_misses misses))) [
      | inl miss ↦
          let five =
            later_misses (later_misses (later_misses (later_misses (later_misses misses)))) in
          let (rest, e, le) = snooze-ends b m.waiter_queue five in
          let (b', rest', e') =
            block_loop-ends fuel (Backoff.snooze b).1 m rest even
              (omega (arith, used_up (later_misses misses) miss, length-later_misses misses)) in
          (
            b',
            rest',
            block-missed _ m misses even miss ∙ run-on_queue->>= (Ops.snooze b) _ m five e ∙ e',
          )
      | inr hit ↦ (b, after_hit (later_misses misses), block-hit _ m misses even hit)
    ]

drain_loop-ends :
    (fuel : ℕ) (b : Backoff) (m : Shared) (misses : List Bool)
    → standard_ref_count m.count ≡ 0
    → run apply (drain_loop (suc fuel) b) (record { mem = m; misses = misses })
      ≡ (returned tt, record { mem = m; misses = later_misses misses })
unfolding drain_loop no_standard_refs standard_refs
drain_loop-ends fuel b m misses unreferenced = ground (arith, unreferenced)

-- `blocking_get_exclusive_ref` by a thread that runs alone, from a word of 0, returns an
-- `ExclusiveRef` and only sets the block bit, with fuel for one round more than the accesses that may
-- fail spuriously.
pub blocking_get_exclusive_ref_returns :
    (fuel : ℕ) (m : Shared) (misses : List Bool)
    → m.count ≡ 0
    → length misses < fuel
    → (rest : List Bool) × (run apply
          (blocking_get_exclusive_ref fuel)
          (record { mem = m; misses = misses })
        ≡ (returned exclusive, record { mem = record m { count = 1 }; misses = rest }))
unfolding blocking_get_exclusive_ref
blocking_get_exclusive_ref_returns zero m misses free enough = absurd (omega arith)
blocking_get_exclusive_ref_returns (suc fuel) m misses free enough =
    let even : masked m.count ≡ m.count =
      masked-even m.count (omega (arith, free)) (omega (arith, free, block_state_lem m.count)) in
    let set : blocked m.count ≡ 1 = omega (arith, free, blocked_lem m.count) in
    let unreferenced : standard_ref_count (blocked m.count) ≡ 0 =
      omega (arith, set, standard_ref_count_lem (blocked m.count)) in
    let (b, rest, e) = block_loop-ends (suc fuel) Backoff.new m misses even enough in
    (
      later_misses rest,
      run->>= apply (block_loop (suc fuel) Backoff.new)
            (λ b. drain_loop (suc fuel) b >> ret exclusive) (record { mem = m; misses = misses })
          ∙ ap (λ end. proceed apply end (λ b. drain_loop (suc fuel) b >> ret exclusive)) e
          ∙ run->>= apply (drain_loop (suc fuel) b) (λ u. ret exclusive)
              (record { mem = record m { count = blocked m.count }; misses = rest })
          ∙ ap (λ end. proceed apply end (λ u. ret exclusive))
              (drain_loop-ends fuel b (record m { count = blocked m.count }) rest unreferenced)
          ∙ ap
              (λ c. (
                returned exclusive,
                record { mem = record m { count = c }; misses = later_misses rest },
              ))
              set,
    )
