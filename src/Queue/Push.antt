-- ===== src/Queue/Push.antt =====
-- `push` of src/array_queue.rs by a thread that runs alone appends to the queue, or refuses.
use native.Mathlib.Nat.{mod-lt, add-mod_right, add-zero}
use ref_count.Common.{
  ℕ, zero, suc, ◌+◌, ◌≤◌, ◌<◌, ◌≡◌, refl, ap, ◌∙◌, ◌≢◌, Bool, List, [], ◌∷◌, ◌++◌, arith, length,
  Bool-cases, inl, inr, if◌then◌else◌,
}
use ref_count.Backoff
use ref_count.Backoff.{Backoff}
use ref_count.Program.{returned, next_miss, later_misses, run}
use ref_count.Queue.Stamp.{one_lap, wrapping_add}
use ref_count.Queue.Memory.{Memory, apply}
use ref_count.Queue.Ops.{OnFull, ok, err, push_loop, push_or_else, when_full, push}
use ref_count.Queue.Shape.{Shape}
use ref_count.Queue.Position.{
  stamp_of, index_of-stamp, next_stamp-stamp, stamp-add_lap, stamp_lt, width_bounds,
}
use ref_count.Queue.Contents.{Holds, pushed, pushed-Holds}
use ref_count.Program.Laws.{length-later_misses, length-later_misses_of_miss}

-- The stamps that a push meets in a full queue.
pub full_stamps :
    {capacity bits : ℕ} (shape : Shape capacity bits) (h : ℕ)
    → (stamp_of capacity bits (h + capacity) ≢ stamp_of capacity bits h + 1)
      × (wrapping_add (stamp_of capacity bits h + 1) (one_lap capacity)
          ≡ stamp_of capacity bits (h + capacity) + 1)
full_stamps {capacity} shape h = omega (
  arith,
  shape.lap_eq,
  width_bounds shape,
  stamp-add_lap shape h,
  stamp_lt shape h,
  stamp_lt shape (h + capacity),
)

module _ {T : Type 0} {capacity bits : ℕ} (shape : Shape capacity bits) where
  -- One round with room: the compare-exchange of the tail decides.
  push_round :
      (fuel : ℕ) (f : OnFull T) (b : Backoff) (h : ℕ) (items : List T) (v : T) (m : Memory T)
      (misses : List Bool)
      → Holds capacity bits h items m
      → length items < capacity
      → run apply
          (push_loop capacity (suc fuel) f b (stamp_of capacity bits (h + length items)) v)
          (record { mem = m; misses = misses })
        ≡ (if next_miss (later_misses misses)
            then run apply
                (push_loop capacity fuel f
                  (Backoff.spin b).1
                  (stamp_of capacity bits (h + length items))
                  v)
                (record { mem = m; misses = later_misses (later_misses (later_misses misses)) })
            else (
              returned (ok tt),
              record {
                mem = pushed capacity bits (h + length items) v m;
                misses = later_misses (later_misses (later_misses (later_misses misses)));
              },
            ))
  unfolding push_loop Backoff.spin
  push_round fuel f b h items v m misses holds room = ground (
    arith,
    holds.tail_eq,
    index_of-stamp shape (h + length items),
    mod-lt (h + length items) shape.not_empty,
    holds.vacant (length items) (omega arith) room,
    next_stamp-stamp shape (h + length items),
  )

  pub push_loop_room :
      (fuel : ℕ) (f : OnFull T) (b : Backoff) (h : ℕ) (items : List T) (v : T) (m : Memory T)
      (misses : List Bool)
      → Holds capacity bits h items m
      → length items < capacity
      → length misses < fuel
      → (rest : List Bool) × (run apply
            (push_loop capacity fuel f b (stamp_of capacity bits (h + length items)) v)
            (record { mem = m; misses = misses })
          ≡ (
            returned (ok tt),
            record { mem = pushed capacity bits (h + length items) v m; misses = rest },
          ))
        × (length rest ≤ length misses)
  push_loop_room zero f b h items v m misses holds room enough = absurd (omega arith)
  push_loop_room (suc fuel) f b h items v m misses holds room enough =
      elim (Bool-cases (next_miss (later_misses misses))) [
        | inl miss ↦
            let (rest, e, le) =
              push_loop_room fuel f (Backoff.spin b).1 h items v m
                (later_misses (later_misses (later_misses misses))) holds room
                (omega (
                  arith,
                  length-later_misses misses,
                  length-later_misses_of_miss (later_misses misses) miss,
                  length-later_misses (later_misses (later_misses misses)),
                )) in
            (
              rest,
              rw (push_round fuel f b h items v m misses holds room, miss) e,
              omega (arith, used_up misses),
            )
        | inr hit ↦ (
          later_misses (later_misses (later_misses (later_misses misses))),
          rw (push_round fuel f b h items v m misses holds room, hit) refl,
          omega (
            arith,
            used_up misses,
            length-later_misses (later_misses (later_misses (later_misses misses))),
          ),
        )
      ]
    where
      used_up :
          (misses : List Bool)
          → length (later_misses (later_misses (later_misses misses))) ≤ length misses
      used_up misses = omega (
        arith,
        length-later_misses misses,
        length-later_misses (later_misses misses),
        length-later_misses (later_misses (later_misses misses)),
      )

  -- On a queue that is not full, `push` by a thread that runs alone returns `Ok(())` and appends the
  -- value, with fuel for one round more than the accesses that may fail spuriously; nothing else is
  -- in the queue than before.
  pub push_room :
      (fuel h : ℕ) (items : List T) (v : T) (m : Memory T) (misses : List Bool)
      → Holds capacity bits h items m
      → length items < capacity
      → length misses < fuel
      → (m' : Memory T) × (rest : List Bool) × (run apply
            (push capacity fuel v)
            (record { mem = m; misses = misses })
          ≡ (returned (ok tt), record { mem = m'; misses = rest }))
        × Holds capacity bits h (items ++ (v ∷ [])) m'
        × (length rest ≤ length misses)
  unfolding push push_or_else
  push_room fuel h items v m misses holds room enough =
      let (rest, e, le) =
        push_loop_room fuel (when_full capacity) Backoff.new h items v m (later_misses misses) holds
          room (omega (arith, length-later_misses misses)) in
      (
        pushed capacity bits (h + length items) v m,
        rest,
        ap
              (λ t.
                run apply (push_loop capacity fuel (when_full capacity) Backoff.new t v)
                  (record { mem = m; misses = later_misses misses }))
              holds.tail_eq
            ∙ e,
        pushed-Holds capacity bits h items v m room holds,
        omega (arith, length-later_misses misses),
      )

  -- On a full queue, `push` by a thread that runs alone gives the value back and changes nothing.
  pub push_full :
      (fuel h : ℕ) (items : List T) (v : T) (m : Memory T) (misses : List Bool)
      → Holds capacity bits h items m
      → length items ≡ capacity
      → 0 < fuel
      → (rest : List Bool) × (run apply (push capacity fuel v) (record { mem = m; misses = misses })
          ≡ (returned (err v), record { mem = m; misses = rest }))
        × (length rest ≤ length misses)
  unfolding push push_or_else push_loop when_full
  push_full zero h items v m misses holds full enough = absurd (omega arith)
  push_full (suc fuel) h [] v m misses holds full enough = absurd (omega (arith, shape.not_empty))
  push_full (suc fuel) h (x ∷ items) v m misses holds full enough = (
    later_misses (later_misses (later_misses (later_misses misses))),
    ground (
      arith,
      holds.head_eq,
      holds.tail_eq,
      ap (λ k. stamp_of capacity bits (h + k)) full,
      index_of-stamp shape (h + capacity),
      mod-lt h shape.not_empty,
      add-mod_right h capacity,
      holds.filled 0 x refl,
      add-zero h,
      stamp-add_lap shape h,
      full_stamps shape h,
    ),
    omega (
      arith,
      length-later_misses misses,
      length-later_misses (later_misses misses),
      length-later_misses (later_misses (later_misses misses)),
      length-later_misses (later_misses (later_misses (later_misses misses))),
    ),
  )
