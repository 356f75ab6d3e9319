-- ===== src/Linear/Ends.antt =====
-- `is_empty` and `is_full` of src/array_queue.rs while other threads use the queue.
use native.Mathlib.Decide.{ℕ_discrete}
use ref_count.Common.{
  ℕ, ◌+◌, ◌-◌, ◌≡◌, sym, ap, ◌∙◌, Bool, inl, inr, arith, Bool-cases, ◌==◌, ==_iff, ==_refl, ne→==,
}
use ref_count.Queue.Ops.{is_empty, is_full}
use ref_count.Queue.Stamp.{one_lap, wrapping_add}
use ref_count.Queue.Shape.{Shape}
use ref_count.Queue.Position.{stamp_of, stamp-add_lap}
use ref_count.Queue.Distinct.{same_place}
use ref_count.Linear.{Atomic, AtomicRun}
use ref_count.Linear.Claims.{Seen}
use ref_count.Linear.Invariant.{Inv}
use ref_count.Linear.Watch.{Point, Observed, During}
use ref_count.Linear.Size.{word, word_above, word_within, Inv-now}
use ref_count.Linear.Advance.{
  steps_le, Reaches-trans, AtomicRun-Reaches, Early, advance, word_early, still,
}
use ref_count.Linear.Shown.{shown}

module _ {T : Type 0} {capacity bits : ℕ} (shape : Shape capacity bits) where
  pub is_empty_within :
      (b : Bool) {past : Seen} {p q : Point T} {a : Atomic T}
      → Inv capacity bits past p.steps p.system a
      → AtomicRun capacity p.events a
      → Early shape q
      → Observed capacity p (is_empty capacity) b q
      → (n : ℕ) × During capacity p q n × (b ≡ (n == 0))
  unfolding is_empty
  is_empty_within b {p = p} {q = q} inv run early (t1, p1, (t2, p2, (answer, p3))) =
      let early2 : Early shape t2 = omega (arith, early, steps_le p3) in
      let early1 : Early shape t1 = omega (arith, early2, steps_le p2) in
      let (a1, on1, inv1) = advance shape inv p1 early1 in
      let (a2, on2, inv2) = advance shape (Inv-now shape inv1) p2 early2 in
      let run1 = AtomicRun-Reaches run on1 in
      let run2 = AtomicRun-Reaches run1 on2 in
      let n1 = word shape inv1 - inv1.head_place in
      let n2 = word shape inv2 - inv2.head_place in
      elim (Bool-cases (t2.system.mem.tail == t1.system.mem.head)) [
        | inl same ↦
            let meet : word shape inv2 ≡ inv1.head_place =
              same_place shape (word shape inv2) inv1.head_place
                (omega (arith, early2, word_early shape inv2, shape.not_empty))
                (omega (arith, early1, inv1.early, shape.not_empty))
                (sym inv2.tail_eq ∙ (==_iff _ _).0 same ∙ inv1.head_eq) in
            let none_shown : n2 ≡ 0 = omega (arith, meet, inv2.above.head_le) in
            (
              n2,
              shown shape (Reaches-trans p1 p2) p3 early run2 inv2,
              sym answer ∙ same ∙ sym (ap (λ x. x == 0) none_shown),
            )
        | inr other ↦ elim (ℕ_discrete n1 0) [
          | no ne ↦ (
            n1,
            shown shape p1 (Reaches-trans p2 p3) early run1 inv1,
            sym answer ∙ other ∙ sym (ne→== ne),
          )
          | yes none_shown ↦ elim (still shape inv1 run1 p2 early2) [
            | inl (m, a', after, before, run', inv', ne) ↦ (
              word shape inv' - inv'.head_place,
              shown shape (Reaches-trans p1 after) (Reaches-trans before p3) early run' inv',
              sym answer ∙ other ∙ sym (ne→== (λ e. ne (e ∙ sym none_shown))),
            )
            | inr (a', run', inv', same_h, same_w) ↦
                let meet : t2.system.mem.tail ≡ t1.system.mem.head =
                  inv'.tail_eq
                  ∙ ap (stamp_of capacity bits)
                      (omega (arith, same_w, none_shown, word_above shape inv1))
                  ∙ sym inv1.head_eq in
                absurd (ground (arith, other, meet))
          ]
        ]
      ]

  pub is_full_within :
      (b : Bool) {past : Seen} {p q : Point T} {a : Atomic T}
      → Inv capacity bits past p.steps p.system a
      → AtomicRun capacity p.events a
      → Early shape q
      → Observed capacity p (is_full capacity) b q
      → (n : ℕ) × During capacity p q n × (b ≡ (n == capacity))
  unfolding is_full
  is_full_within b {p = p} {q = q} inv run early (t1, p1, (t2, p2, (answer, p3))) =
      let early2 : Early shape t2 = omega (arith, early, steps_le p3) in
      let early1 : Early shape t1 = omega (arith, early2, steps_le p2) in
      let (a1, on1, inv1) = advance shape inv p1 early1 in
      let (a2, on2, inv2) = advance shape (Inv-now shape inv1) p2 early2 in
      let run1 = AtomicRun-Reaches run on1 in
      let run2 = AtomicRun-Reaches run1 on2 in
      let n1 = word shape inv1 - inv1.head_place in
      let n2 = word shape inv2 - inv2.head_place in
      elim (Bool-cases (wrapping_add t2.system.mem.head (one_lap capacity) == t1.system.mem.tail)) [
        | inl same ↦
            let lap_on : inv2.head_place + capacity ≡ word shape inv1 =
              same_place shape (inv2.head_place + capacity) (word shape inv1)
                (omega (arith, early2, inv2.early, shape.not_empty))
                (omega (arith, early1, word_early shape inv1, shape.not_empty))
                (sym (stamp-add_lap shape inv2.head_place)
                  ∙ ap (λ x. wrapping_add x (one_lap capacity)) (sym inv2.head_eq)
                  ∙ (==_iff _ _).0 same
                  ∙ inv1.tail_eq) in
            let all_shown : n2 ≡ capacity =
              omega (arith, lap_on, inv2.above.tail_le, word_within shape inv2) in
            (
              n2,
              shown shape (Reaches-trans p1 p2) p3 early run2 inv2,
              sym answer ∙ same ∙ sym (rw all_shown (==_refl capacity)),
            )
        | inr other ↦ elim (ℕ_discrete n1 capacity) [
          | no ne ↦ (
            n1,
            shown shape p1 (Reaches-trans p2 p3) early run1 inv1,
            sym answer ∙ other ∙ sym (ne→== ne),
          )
          | yes all_shown ↦ elim (still shape inv1 run1 p2 early2) [
            | inl (m, a', after, before, run', inv', ne) ↦ (
              word shape inv' - inv'.head_place,
              shown shape (Reaches-trans p1 after) (Reaches-trans before p3) early run' inv',
              sym answer ∙ other ∙ sym (ne→== (λ e. ne (e ∙ sym all_shown))),
            )
            | inr (a', run', inv', same_h, same_w) ↦
                let lap_on : wrapping_add t2.system.mem.head (one_lap capacity)
                    ≡ t1.system.mem.tail =
                  ap (λ x. wrapping_add x (one_lap capacity)) inv'.head_eq
                  ∙ stamp-add_lap shape inv'.head_place
                  ∙ ap (stamp_of capacity bits)
                      (omega (arith, same_h, all_shown, word_above shape inv1, shape.not_empty))
                  ∙ sym inv1.tail_eq in
                absurd (ground (arith, other, lap_on))
          ]
        ]
      ]
