-- ===== src/Queue/ForcePush.antt =====
-- `force_push` of src/array_queue.rs by a thread that runs alone appends to the queue, in place of the
-- oldest value if the queue is full.
use native.Mathlib.Nat.{mod-lt, add-mod_right, add-zero}
use mathlib.Core.Path.{subst, fun_ext}
use ref_count.Common.{
  ℕ, zero, suc, ◌+◌, ◌%◌, ◌≤◌, ◌<◌, ◌≡◌, refl, ap, sym, ◌∙◌, Bool, Option, none, some, List, [],
  ◌∷◌, ◌++◌, arith, length, update, Bool-cases, inl, inr, if◌then◌else◌,
}
use ref_count.Backoff
use ref_count.Backoff.{Backoff}
use ref_count.Program.{ret, returned, next_miss, later_misses, run}
use ref_count.Program.Laws.{length-later_misses, length-later_misses_of_miss, run->>=, proceed}
use ref_count.Queue.Memory.{Memory, apply}
use ref_count.Queue.Ops.{
  Method, Result, ok, err, push_loop, push_or_else, replace_oldest, force_push,
}
use ref_count.Queue.Shape.{Shape}
use ref_count.Queue.Position.{stamp_of, index_of-stamp, next_stamp-stamp, stamp-sub_lap}
use ref_count.Queue.Contents.{Holds, popped, popped-Holds, pushed, pushed-Holds}
use ref_count.Queue.Push.{push_loop_room, full_stamps}

update_twice : {A : Type 0} (f : ℕ → A) (i : ℕ) (a b : A) → update (update f i a) i b ≡ update f i b
update_twice f i a b = fun_ext (λ j. ground arith)

module _ {T : Type 0} {capacity bits : ℕ} (shape : Shape capacity bits) where
  -- The memory after a replacement in a full queue whose oldest value is at place `h`.
  replaced : (h : ℕ) → T → Memory T → Memory T
  replaced h v m =
      let index = (h + capacity) % capacity in
      record {
        head = stamp_of capacity bits (h + 1);
        tail = stamp_of capacity bits (h + capacity + 1);
        stamp = update m.stamp index (stamp_of capacity bits (h + capacity) + 1);
        value = update (update m.value index none) index (some v);
      }

  replaced-Holds :
      (h : ℕ) (x : T) (items : List T) (v : T) (m : Memory T)
      → Holds capacity bits h (x ∷ items) m
      → length (x ∷ items) ≡ capacity
      → Holds capacity bits (h + 1) (items ++ (v ∷ [])) (replaced h v m)
  unfolding replaced
  replaced-Holds h x items v m holds full =
      let place : h + 1 + length items ≡ h + capacity = omega arith in
      let moved =
        pushed-Holds capacity bits (h + 1) items v (popped capacity bits h m) (omega arith)
          (popped-Holds capacity bits h x items m holds) in
      subst (Holds capacity bits (h + 1) (items ++ (v ∷ [])))
        (ap (λ p. pushed capacity bits p v (popped capacity bits h m)) place
          ∙ ap (λ k. pushed capacity bits (h + capacity) v (popped_at k))
              (sym (add-mod_right h capacity))
          ∙ ap (λ st. record (replaced h v m) { stamp = st })
              (update_twice m.stamp ((h + capacity) % capacity) _ _))
        moved
    where
      popped_at : ℕ → Memory T
      popped_at k = record m {
        head = stamp_of capacity bits (h + 1);
        value = update m.value k none;
        stamp = update m.stamp k (stamp_of capacity bits (h + capacity));
      }

  replace_round :
      (fuel : ℕ) (b : Backoff) (h : ℕ) (x : T) (items : List T) (v : T) (m : Memory T)
      (misses : List Bool)
      → Holds capacity bits h (x ∷ items) m
      → length (x ∷ items) ≡ capacity
      → run apply
          (push_loop capacity
            (suc fuel)
            (replace_oldest capacity)
            b
            (stamp_of capacity bits (h + capacity))
            v)
          (record { mem = m; misses = misses })
        ≡ (if next_miss (later_misses (later_misses misses))
            then run apply
                (push_loop capacity fuel
                  (replace_oldest capacity)
                  (Backoff.spin b).1
                  (stamp_of capacity bits (h + capacity))
                  v)
                (record {
                  mem = m;
                  misses =
                      later_misses
                        (later_misses (later_misses (later_misses (later_misses misses))));
                })
            else (
              returned (err x),
              record {
                mem = replaced h v m;
                misses = later_misses (
                    later_misses (
                      later_misses
                        (later_misses (later_misses (later_misses (later_misses misses))))));
              },
            ))
  unfolding push_loop replace_oldest Backoff.spin replaced
  replace_round fuel b h x items v m misses holds full =
      let around : stamp_of capacity bits (h + capacity + 1)
          ≡ stamp_of capacity bits (h + 1 + capacity) =
        ap (stamp_of capacity bits) (omega arith) in
      ground (
        arith,
        holds.head_eq,
        holds.tail_eq,
        ap (λ k. stamp_of capacity bits (h + k)) full,
        index_of-stamp shape (h + capacity),
        mod-lt h shape.not_empty,
        add-mod_right h capacity,
        holds.filled 0 x refl,
        add-zero h,
        next_stamp-stamp shape (h + capacity),
        stamp-sub_lap shape h,
        stamp-sub_lap shape (h + 1),
        around,
        full_stamps shape h,
      )

  replace_loop :
      (fuel : ℕ) (b : Backoff) (h : ℕ) (x : T) (items : List T) (v : T) (m : Memory T)
      (misses : List Bool)
      → Holds capacity bits h (x ∷ items) m
      → length (x ∷ items) ≡ capacity
      → length misses < fuel
      → (rest : List Bool) × (run apply
            (push_loop capacity fuel
              (replace_oldest capacity)
              b
              (stamp_of capacity bits (h + capacity))
              v)
            (record { mem = m; misses = misses })
          ≡ (returned (err x), record { mem = replaced h v m; misses = rest }))
        × (length rest ≤ length misses)
  replace_loop zero b h x items v m misses holds full enough = absurd (omega arith)
  replace_loop (suc fuel) b h x items v m misses holds full enough =
      let two = later_misses (later_misses misses) in
      let three_le : length (later_misses two) ≤ length misses = omega (
        arith,
        length-later_misses misses,
        length-later_misses (later_misses misses),
        length-later_misses two,
      ) in
      let five_le : length (later_misses (later_misses (later_misses two)))
          ≤ length (later_misses two) =
        omega (
          arith,
          length-later_misses (later_misses two),
          length-later_misses (later_misses (later_misses two)),
        ) in
      elim (Bool-cases (next_miss two)) [
        | inl miss ↦
            let fewer : length (later_misses two) < length misses = omega (
              arith,
              length-later_misses misses,
              length-later_misses (later_misses misses),
              length-later_misses_of_miss two miss,
            ) in
            let (rest, e, le) =
              replace_loop fuel (Backoff.spin b).1 h x items v m
                (later_misses (later_misses (later_misses two))) holds full (omega arith) in
            (rest, rw (replace_round fuel b h x items v m misses holds full, miss) e, omega arith)
        | inr hit ↦ (
          later_misses (later_misses (later_misses (later_misses (later_misses two)))),
          rw (replace_round fuel b h x items v m misses holds full, hit) refl,
          omega (
            arith,
            length-later_misses (later_misses (later_misses (later_misses (later_misses two)))),
            length-later_misses (later_misses (later_misses (later_misses two))),
            length-later_misses (later_misses (later_misses two)),
          ),
        )
      ]

  -- `.err()`
  abbrev conclude : Result (Unit {0}) T → Method T (Option T)
  conclude (ok u) = ret none
  conclude (err old) = ret (some old)

  force_push-conclude :
      (fuel : ℕ) (v : T) (m : Memory T) (misses : List Bool)
      → run apply (force_push capacity fuel v) (record { mem = m; misses = misses })
        ≡ proceed apply
            (run apply
              (push_loop capacity fuel (replace_oldest capacity) Backoff.new m.tail v)
              (record { mem = m; misses = later_misses misses }))
            conclude
  unfolding force_push push_or_else
  force_push-conclude fuel v m misses =
      run->>= apply (push_or_else capacity fuel v (replace_oldest capacity)) conclude
        (record { mem = m; misses = misses })

  -- On a full queue, `force_push` by a thread that runs alone returns the oldest value, which it
  -- removes, and appends the new one, with fuel for one round more than the accesses that may fail
  -- spuriously.
  pub force_push_full :
      (fuel h : ℕ) (x : T) (items : List T) (v : T) (m : Memory T) (misses : List Bool)
      → Holds capacity bits h (x ∷ items) m
      → length (x ∷ items) ≡ capacity
      → length misses < fuel
      → (m' : Memory T) × (rest : List Bool) × (run apply
            (force_push capacity fuel v)
            (record { mem = m; misses = misses })
          ≡ (returned (some x), record { mem = m'; misses = rest }))
        × Holds capacity bits (h + 1) (items ++ (v ∷ [])) m'
        × (length rest ≤ length misses)
  force_push_full fuel h x items v m misses holds full enough =
      let (rest, e, le) =
        replace_loop fuel Backoff.new h x items v m (later_misses misses) holds full
          (omega (arith, length-later_misses misses)) in
      let tail_eq : m.tail ≡ stamp_of capacity bits (h + capacity) =
        holds.tail_eq ∙ ap (λ k. stamp_of capacity bits (h + k)) full in
      (
        replaced h v m,
        rest,
        force_push-conclude fuel v m misses
            ∙ ap (λ end. proceed apply end conclude)
                (ap
                    (λ t.
                      run apply (push_loop capacity fuel (replace_oldest capacity) Backoff.new t v)
                        (record { mem = m; misses = later_misses misses }))
                    tail_eq
                  ∙ e),
        replaced-Holds h x items v m holds full,
        omega (arith, length-later_misses misses),
      )

  -- On a queue that is not full, `force_push` by a thread that runs alone returns `None` and appends
  -- the value, with the same fuel.
  pub force_push_room :
      (fuel h : ℕ) (items : List T) (v : T) (m : Memory T) (misses : List Bool)
      → Holds capacity bits h items m
      → length items < capacity
      → length misses < fuel
      → (m' : Memory T) × (rest : List Bool) × (run apply
            (force_push capacity fuel v)
            (record { mem = m; misses = misses })
          ≡ (returned none, record { mem = m'; misses = rest }))
        × Holds capacity bits h (items ++ (v ∷ [])) m'
        × (length rest ≤ length misses)
  force_push_room fuel h items v m misses holds room enough =
      let (rest, e, le) =
        push_loop_room shape fuel (replace_oldest capacity) Backoff.new h items v m
          (later_misses misses) holds room (omega (arith, length-later_misses misses)) in
      (
        pushed capacity bits (h + length items) v m,
        rest,
        force_push-conclude fuel v m misses
            ∙ ap (λ end. proceed apply end conclude)
                (ap
                    (λ t.
                      run apply (push_loop capacity fuel (replace_oldest capacity) Backoff.new t v)
                        (record { mem = m; misses = later_misses misses }))
                    holds.tail_eq
                  ∙ e),
        pushed-Holds capacity bits h items v m room holds,
        omega (arith, length-later_misses misses),
      )
