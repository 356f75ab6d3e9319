-- ===== src/Linear/Length.antt =====
-- `len` of src/array_queue.rs while other threads use the queue.
use mathlib.Core.Path.{subst}
use ref_count.Common.{
  ℕ, zero, suc, ◌+◌, ◌-◌, ◌≤◌, ◌≡◌, sym, ap, ◌∙◌, inl, inr, arith, Bool-cases, if◌then◌else◌, ◌==◌,
  ==_iff,
}
use ref_count.Program.{ret}
use ref_count.Queue.Ops.{queue_size, len}
use ref_count.Queue.Stamp.{index_of, one_lap}
use ref_count.Queue.Shape.{Shape}
use ref_count.Queue.Position.{stamp_of}
use ref_count.Linear.{Atomic, AtomicRun}
use ref_count.Linear.Claims.{Seen}
use ref_count.Linear.Invariant.{Inv}
use ref_count.Linear.Watch.{Point, Reaches, Observed, During}
use ref_count.Linear.Size.{word, word_above, word_within, Inv-now}
use ref_count.Linear.Advance.{steps_le, Reaches-trans, AtomicRun-Reaches, Early, advance, same_word}
use ref_count.Linear.Shown.{Observed-Reaches, queue_size-stamps, shown, earlier}

module _ {T : Type 0} {capacity bits : ℕ} (shape : Shape capacity bits) where
  pub len_within :
      (fuel r : ℕ) {past : Seen} {p q : Point T} {a : Atomic T}
      → Inv capacity bits past p.steps p.system a
      → AtomicRun capacity p.events a
      → Early shape q
      → Observed capacity p (len capacity fuel) r q
      → During capacity p q r
  unfolding len
  len_within zero r inv run early h = absurd h
  len_within (suc fuel) r {p = p} {q = q} inv run early (t1, p1, (t2, p2, (t3, p3, rest))) =
      let test = t3.system.mem.tail == t1.system.mem.tail in
      let size =
        queue_size capacity t2.system.mem.head (index_of (one_lap capacity) t2.system.mem.head)
          t1.system.mem.tail (index_of (one_lap capacity) t1.system.mem.tail) in
      let p4 : Reaches capacity t3 q =
        Observed-Reaches (if test then ret size else len capacity fuel) t3 q r rest in
      let early3 : Early shape t3 = omega (arith, steps_le p4) in
      let early2 : Early shape t2 = omega (arith, early3, steps_le p3) in
      let early1 : Early shape t1 = omega (arith, early2, steps_le p2) in
      let (a1, on1, inv1) = advance shape inv p1 early1 in
      let (a2, on2, inv2) = advance shape (Inv-now shape inv1) p2 early2 in
      let (a3, on3, inv3) = advance shape (Inv-now shape inv2) p3 early3 in
      let run2 = AtomicRun-Reaches (AtomicRun-Reaches run on1) on2 in
      elim (Bool-cases test) [
        | inl same ↦
            let ends : size ≡ r = (rw same at rest).0 in
            let back : word shape inv3 ≡ word shape inv1 =
              same_word shape inv3 inv1 early3 early1 ((==_iff _ _).0 same) in
            let there : word shape inv2 ≡ word shape inv1 =
              omega (arith, back, inv2.above.tail_le, inv3.above.tail_le) in
            let n = word shape inv2 - inv2.head_place in
            let few : n ≤ capacity = omega (arith, word_within shape inv2) in
            let tail_there : t1.system.mem.tail ≡ stamp_of capacity bits (inv2.head_place + n) =
              inv1.tail_eq
              ∙ ap (stamp_of capacity bits) (omega (arith, there, word_above shape inv2)) in
            let n_eq : n ≡ r =
              sym (queue_size-stamps shape inv2.head_place n few)
              ∙ rw (← inv2.head_eq, ← tail_there) ends in
            subst (During capacity p q) n_eq
              (shown shape (Reaches-trans p1 p2) (Reaches-trans p3 p4) early run2 inv2)
        | inr other ↦
            earlier shape (Reaches-trans (Reaches-trans p1 p2) p3)
              (len_within fuel r inv3 (AtomicRun-Reaches run2 on3) early (rw other at rest))
      ]
