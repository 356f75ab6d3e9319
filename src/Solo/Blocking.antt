-- ===== src/Solo/Blocking.antt =====
-- `blocking_get_ref` of src/lib.rs by a thread that runs alone, with references allowed.
use ref_count.Common.{
  ℕ, zero, suc, ◌+◌, ◌^◌, ◌≤◌, ◌<◌, ◌≡◌, refl, ap, ◌∙◌, Bool, true, false, List, arith, length, inl,
  inr, Bool-cases, if◌then◌else◌,
}
use ref_count.Backoff
use ref_count.Backoff.{Backoff}
use ref_count.Program.{ret, returned, next_miss, later_misses, run}
use ref_count.Program.Laws.{length-later_misses, length-later_misses_of_miss}
use ref_count.Consts.{masked, incremented, block_state}
use ref_count.Consts.Bits.{incremented_lem}
use ref_count.Queue.Memory as Queue
use ref_count.Queue.Ops
use ref_count.RefCount.Memory.{Waiter, Shared, Action, apply}
use ref_count.RefCount.Ops.{
  ref, weak_try_incr, many_weak_try_incr_refs, get_ref_loop, blocking_get_ref,
}
use ref_count.Solo.Queue.{run-on_queue->>=}
use ref_count.Solo.Attempts.{four_misses, masked-even}

-- A snooze only waits.
pub snooze-ends :
    (b : Backoff) (q : Queue.Memory Waiter) (misses : List Bool)
    → (rest : List Bool) × (run Queue.apply (Ops.snooze b) (record { mem = q; misses = misses })
        ≡ (returned (Backoff.snooze b).1, record { mem = q; misses = rest }))
      × (length rest ≤ length misses)
snooze-ends b q misses = elim (Bool-cases (Backoff.snooze b).0.at_yield) [
  | inl yields ↦ (
    later_misses (later_misses misses),
    rw yields refl,
    omega (arith, length-later_misses misses, length-later_misses (later_misses misses)),
  )
  | inr not_yet ↦ (later_misses misses, rw not_yet refl, length-later_misses misses)
]

-- the accesses that the attempts up to the first success use up
abbrev pub after_hit : List Bool → List Bool
after_hit misses = later_misses (
    if next_miss misses
    then if next_miss (later_misses misses)
      then if next_miss (later_misses (later_misses misses))
        then later_misses (later_misses (later_misses misses))
        else later_misses (later_misses misses)
      else later_misses misses
    else misses)

after_hit_le : (misses : List Bool) → length (after_hit misses) ≤ length misses
after_hit_le misses = ground (
  arith,
  length-later_misses misses,
  length-later_misses (later_misses misses),
  length-later_misses (later_misses (later_misses misses)),
  length-later_misses (later_misses (later_misses (later_misses misses))),
)

many-missed :
    {A : Type 0} (done : Action A) (f : (current next : ℕ) → Action A) (m : Shared)
    (misses : List Bool)
    → masked m.count ≡ m.count
    → four_misses misses ≡ true
    → run apply
        (many_weak_try_incr_refs m.count (incremented m.count) done f)
        (record { mem = m; misses = misses })
      ≡ run apply (f m.count (incremented m.count)) (record {
        mem = m;
        misses = later_misses (later_misses (later_misses (later_misses misses)));
      })
unfolding many_weak_try_incr_refs weak_try_incr
many-missed done f m misses even miss = ground (arith, even, miss)

many-hit :
    {A : Type 0} (done : Action A) (f : (current next : ℕ) → Action A) (m : Shared)
    (misses : List Bool)
    → masked m.count ≡ m.count
    → four_misses misses ≡ false
    → run apply
        (many_weak_try_incr_refs m.count (incremented m.count) done f)
        (record { mem = m; misses = misses })
      ≡ run apply done
          (record { mem = record m { count = incremented m.count }; misses = after_hit misses })
unfolding many_weak_try_incr_refs weak_try_incr
many-hit done f m misses even hit = ground (arith, even, hit)

pub used_up :
    (misses : List Bool)
    → four_misses misses ≡ true
    → length (later_misses (later_misses (later_misses (later_misses misses)))) < length misses
used_up misses miss = ground (
  arith,
  miss,
  length-later_misses_of_miss misses,
  length-later_misses (later_misses misses),
  length-later_misses (later_misses (later_misses misses)),
  length-later_misses (later_misses (later_misses (later_misses misses))),
)

get_ref_loop-ends :
    (fuel : ℕ) (b : Backoff) (m : Shared) (misses : List Bool)
    → masked m.count ≡ m.count
    → length misses < fuel
    → (rest : List Bool) × (run apply
          (get_ref_loop fuel b m.count (incremented m.count))
          (record { mem = m; misses = misses })
        ≡ (returned ref, record { mem = record m { count = incremented m.count }; misses = rest }))
unfolding get_ref_loop
get_ref_loop-ends zero b m misses even enough = absurd (omega arith)
get_ref_loop-ends (suc fuel) b m misses even enough = elim (Bool-cases (four_misses misses)) [
  | inl miss ↦
      let four = later_misses (later_misses (later_misses (later_misses misses))) in
      let (rest, e, le) = snooze-ends b m.waiter_queue four in
      let (rest', e') =
        get_ref_loop-ends fuel (Backoff.snooze b).1 m rest even
          (omega (arith, used_up misses miss)) in
      (
        rest',
        many-missed (ret ref) _ m misses even miss
            ∙ run-on_queue->>= (Ops.snooze b) _ m four e
            ∙ e',
      )
  | inr hit ↦ (after_hit misses, many-hit (ret ref) _ m misses even hit)
]

-- `blocking_get_ref` by a thread that runs alone, with the block bit clear and room for one more
-- reference, returns a reference and adds 2 to the word of the counter, with fuel for one round more
-- than the accesses that may fail spuriously.
pub blocking_get_ref_returns :
    (fuel : ℕ) (m : Shared) (misses : List Bool)
    → m.count + 2 < 2 ^ 32
    → block_state m.count ≡ 0
    → length misses < fuel
    → (rest : List Bool) × (run apply (blocking_get_ref fuel) (record { mem = m; misses = misses })
        ≡ (returned ref, record { mem = record m { count = m.count + 2 }; misses = rest }))
unfolding blocking_get_ref
blocking_get_ref_returns fuel m misses room open_to_refs enough =
    let even : masked m.count ≡ m.count = masked-even m.count (omega arith) open_to_refs in
    let (rest, e) =
      get_ref_loop-ends fuel Backoff.new m (later_misses misses) even
        (omega (arith, length-later_misses misses)) in
    let next : incremented m.count ≡ m.count + 2 = omega (arith, incremented_lem m.count) in
    (
      rest,
      ap
            (λ c.
              run apply (get_ref_loop fuel Backoff.new c (incremented c))
                (record { mem = m; misses = later_misses misses }))
            even
          ∙ e
          ∙ ap (λ c. (returned ref, record { mem = record m { count = c }; misses = rest })) next,
    )
