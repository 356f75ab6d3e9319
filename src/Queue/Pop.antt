-- ===== src/Queue/Pop.antt =====
-- `pop` of src/array_queue.rs by a thread that runs alone takes the oldest value, or finds none.
use native.Mathlib.Nat.{mod-lt, add-zero}
use ref_count.Common.{
  ℕ, zero, suc, ◌+◌, ◌≤◌, ◌<◌, ◌≡◌, refl, ap, ◌∙◌, Bool, none, some, List, [], ◌∷◌, arith, length,
  Bool-cases, inl, inr, if◌then◌else◌,
}
use ref_count.Backoff
use ref_count.Backoff.{Backoff}
use ref_count.Program.{returned, next_miss, later_misses, run}
use ref_count.Program.Laws.{length-later_misses, length-later_misses_of_miss}
use ref_count.Queue.Memory.{Memory, apply}
use ref_count.Queue.Ops.{pop_loop, pop}
use ref_count.Queue.Shape.{Shape}
use ref_count.Queue.Position.{stamp_of, index_of-stamp, next_stamp-stamp, stamp-add_lap}
use ref_count.Queue.Contents.{Holds, popped, popped-Holds}

module _ {T : Type 0} {capacity bits : ℕ} (shape : Shape capacity bits) where
  -- One round with a value: the compare-exchange of the head decides.
  pop_round :
      (fuel : ℕ) (b : Backoff) (h : ℕ) (x : T) (items : List T) (m : Memory T) (misses : List Bool)
      → Holds capacity bits h (x ∷ items) m
      → run apply
          (pop_loop capacity (suc fuel) b (stamp_of capacity bits h))
          (record { mem = m; misses = misses })
        ≡ (if next_miss (later_misses misses)
            then run apply
                (pop_loop capacity fuel (Backoff.spin b).1 (stamp_of capacity bits h))
                (record { mem = m; misses = later_misses (later_misses (later_misses misses)) })
            else (
              returned (some x),
              record {
                mem = popped capacity bits h m;
                misses = later_misses (later_misses (later_misses (later_misses misses)));
              },
            ))
  unfolding pop_loop Backoff.spin
  pop_round fuel b h x items m misses holds = ground (
    arith,
    holds.head_eq,
    index_of-stamp shape h,
    mod-lt h shape.not_empty,
    add-zero h,
    holds.filled 0 x refl,
    next_stamp-stamp shape h,
    stamp-add_lap shape h,
  )

  pop_loop-some :
      (fuel : ℕ) (b : Backoff) (h : ℕ) (x : T) (items : List T) (m : Memory T) (misses : List Bool)
      → Holds capacity bits h (x ∷ items) m
      → length misses < fuel
      → (rest : List Bool) × (run apply
            (pop_loop capacity fuel b (stamp_of capacity bits h))
            (record { mem = m; misses = misses })
          ≡ (returned (some x), record { mem = popped capacity bits h m; misses = rest }))
        × (length rest ≤ length misses)
  pop_loop-some zero b h x items m misses holds enough = absurd (omega arith)
  pop_loop-some (suc fuel) b h x items m misses holds enough =
      elim (Bool-cases (next_miss (later_misses misses))) [
        | inl miss ↦
            let fewer : length (later_misses (later_misses (later_misses misses))) < length misses =
              omega (
                arith,
                length-later_misses misses,
                length-later_misses_of_miss (later_misses misses) miss,
                length-later_misses (later_misses (later_misses misses)),
              ) in
            let (rest, e, le) =
              pop_loop-some fuel (Backoff.spin b).1 h x items m
                (later_misses (later_misses (later_misses misses))) holds (omega arith) in
            (rest, rw (pop_round fuel b h x items m misses holds, miss) e, omega arith)
        | inr hit ↦ (
          later_misses (later_misses (later_misses (later_misses misses))),
          rw (pop_round fuel b h x items m misses holds, hit) refl,
          omega (
            arith,
            length-later_misses misses,
            length-later_misses (later_misses misses),
            length-later_misses (later_misses (later_misses misses)),
            length-later_misses (later_misses (later_misses (later_misses misses))),
          ),
        )
      ]

  -- On a queue that holds a value, `pop` by a thread that runs alone returns the oldest value and
  -- removes exactly that, with fuel for one round more than the accesses that may fail spuriously.
  pub pop_oldest :
      (fuel h : ℕ) (x : T) (items : List T) (m : Memory T) (misses : List Bool)
      → Holds capacity bits h (x ∷ items) m
      → length misses < fuel
      → (m' : Memory T) × (rest : List Bool) × (run apply
            (pop capacity fuel)
            (record { mem = m; misses = misses })
          ≡ (returned (some x), record { mem = m'; misses = rest }))
        × Holds capacity bits (h + 1) items m'
        × (length rest ≤ length misses)
  unfolding pop
  pop_oldest fuel h x items m misses holds enough =
      let (rest, e, le) =
        pop_loop-some fuel Backoff.new h x items m (later_misses misses) holds
          (omega (arith, length-later_misses misses)) in
      (
        popped capacity bits h m,
        rest,
        ap
              (λ t.
                run apply (pop_loop capacity fuel Backoff.new t)
                  (record { mem = m; misses = later_misses misses }))
              holds.head_eq
            ∙ e,
        popped-Holds capacity bits h x items m holds,
        omega (arith, length-later_misses misses),
      )

  -- On an empty queue, `pop` by a thread that runs alone returns `None` and changes nothing.
  pub pop_empty :
      (fuel h : ℕ) (m : Memory T) (misses : List Bool)
      → Holds capacity bits h [] m
      → 0 < fuel
      → (rest : List Bool) × (run apply (pop capacity fuel) (record { mem = m; misses = misses })
          ≡ (returned none, record { mem = m; misses = rest }))
        × (length rest ≤ length misses)
  unfolding pop pop_loop
  pop_empty zero h m misses holds enough = absurd (omega arith)
  pop_empty (suc fuel) h m misses holds enough = (
    later_misses (later_misses (later_misses (later_misses misses))),
    ground (
      arith,
      holds.head_eq,
      holds.tail_eq,
      index_of-stamp shape h,
      mod-lt h shape.not_empty,
      add-zero h,
      holds.vacant 0 (omega arith) shape.not_empty,
    ),
    omega (
      arith,
      length-later_misses misses,
      length-later_misses (later_misses misses),
      length-later_misses (later_misses (later_misses misses)),
      length-later_misses (later_misses (later_misses (later_misses misses))),
    ),
  )
