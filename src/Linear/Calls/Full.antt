-- ===== src/Linear/Calls/Full.antt =====
-- The closures of `push` and `force_push` of src/array_queue.rs keep to the discipline of Claims.
use ref_count.Common.{
  ℕ, ◌+◌, ◌*◌, ◌%◌, ◌≤◌, ◌≡◌, refl, sym, ap, ◌∙◌, true, arith, inl, inr, none, some, ==_iff, ◌==◌,
  ==_refl,
}
use native.Mathlib.Decide.{ℕ_discrete}
use native.Mathlib.Nat.{add-mod_right}
use ref_count.Program.{perform, ret, ◌>>=◌, ◌>>◌}
use ref_count.Queue.Memory.{fence}
use ref_count.Queue.Stamp.{index_of, one_lap, next_stamp, wrapping_add, wrapping_sub}
use ref_count.Queue.Ops.{Method, Result, OnFull, ok, err, when_full, replace_oldest}
use ref_count.Queue.Shape.{Shape}
use ref_count.Queue.Position.{
  stamp_of, index_of-stamp, next_stamp-stamp, stamp-add_lap, stamp-sub_lap,
}
use ref_count.Queue.Distinct.{same_place}
use ref_count.Linear.{Call, push_of, force_push_of, Reply, from_push, from_force_push}
use ref_count.Linear.Claims.{Claim, Seen, called, done, InRange, Keeps, Appends}
use ref_count.Linear.Calls.{Keeps-if->>=}

-- What `push_or_else` needs of its closure, when the value one lap behind the tail is still there: the
-- closure refuses or tries again.
pub record OnFullKeeps {T : Type 0} (capacity bits : ℕ) (v : T) (f : OnFull T) (call : Call T)
    (reply : Result (Unit {0}) T → Reply T) : Type 1 where
  pub appends : Appends call v (reply (ok tt))
  pub keeps :
      {A : Type 0} (Q : A → Seen → Claim T → Type 0) (seen : Seen) (p q : ℕ)
      (after : Result T T → Method T A)
      → InRange capacity bits p
      → p ≤ seen.tail_low
      → q + capacity ≡ p
      → 2 * q + 1 ≤ seen.version (q % capacity)
      → ((k : Seen) (e : T) → Keeps capacity bits k (done (reply (err e))) (after (err e)) Q)
      → ((k : Seen) → Keeps capacity bits k (called call) (after (ok v)) Q)
      → Keeps capacity bits seen
          (called call)
          (perform fence
            >> f v
                (stamp_of capacity bits p)
                (next_stamp capacity (one_lap capacity) (stamp_of capacity bits p))
                (index_of (one_lap capacity) (stamp_of capacity bits p))
            >>= after)
          Q

module _ {T : Type 0} {capacity bits : ℕ} (shape : Shape capacity bits) (v : T) where
  -- `push` sees whether the queue is full.
  pub when_full-Keeps : OnFullKeeps capacity bits v (when_full capacity) (push_of v) from_push
  unfolding when_full
  when_full-Keeps = record {
    appends = (refl, refl);
    keeps = λ Q seen p q after fits low behind version refused again h fits_h low_h.
        let known : Seen = record seen { head_low = h } in
        let mine : Claim T = called (push_of v) in
        let test =
          wrapping_add (stamp_of capacity bits h) (one_lap capacity) == stamp_of capacity bits p in
        elim (ℕ_discrete (h + capacity) p) [
          | yes e ↦
              let full : test ≡ true =
                rw (stamp-add_lap shape h, e) (==_refl (stamp_of capacity bits p)) in
              (
                done (from_push (err v)),
                inr (v, refl, refl, omega arith),
                Keeps-if->>= capacity bits Q (done (from_push (err v))) known test (ret (err v))
                    (ret (ok v)) after (λ t. refused known v)
                    (λ f. absurd (ground (arith, full, f))),
              )
          | no ne ↦ (
            mine,
            inl refl,
            Keeps-if->>= capacity bits Q mine known test (ret (err v)) (ret (ok v)) after
                (λ t. absurd (
                  ne (
                    same_place shape (h + capacity) p (omega (arith, shape.not_empty))
                      (omega (arith, shape.not_empty))
                      (sym (stamp-add_lap shape h) ∙ (==_iff _ _).0 t))))
                (λ f. again known),
          )
        ];
  }

  -- `force_push` takes the value out, if no one else has moved the head.
  pub replace_oldest-Keeps :
      OnFullKeeps capacity bits v
        (replace_oldest capacity)
        (force_push_of v)
        (elim [ ok u ↦ from_force_push none | err old ↦ from_force_push (some old) ])
  unfolding replace_oldest
  replace_oldest-Keeps = record {
    appends = (refl, refl);
    keeps = λ Q seen p q after fits low behind version refused again.
        let at_q : index_of (one_lap capacity) (stamp_of capacity bits p) ≡ q % capacity =
          index_of-stamp shape p ∙ ap (λ x. x % capacity) (sym behind) ∙ add-mod_right q capacity in
        let next_place : p + 1 ≡ q + 1 + capacity = omega (arith, behind) in
        let next_tail : next_stamp capacity (one_lap capacity) (stamp_of capacity bits p)
            ≡ stamp_of capacity bits (p + 1) =
          next_stamp-stamp shape p in
        (
          λ h fits_h low_h. again (record seen { head_low = h }),
          q,
          omega (arith, behind),
          ap (λ x. wrapping_sub (stamp_of capacity bits x) (one_lap capacity)) (sym behind)
              ∙ stamp-sub_lap shape q,
          ap (λ x. wrapping_sub x (one_lap capacity))
                (next_tail ∙ ap (stamp_of capacity bits) next_place)
              ∙ stamp-sub_lap shape (q + 1),
          version,
          inr (
            v,
            refl,
            omega (arith, behind),
            λ old. (
              q,
              old,
              v,
              refl,
              next_tail ∙ ap (λ x. stamp_of capacity bits (x + 1)) (sym behind),
              (
                q,
                old,
                at_q,
                inr (
                  v,
                  refl,
                  (
                    q,
                    at_q,
                    inr (
                      old,
                      refl,
                      (
                        q,
                        v,
                        at_q,
                        inr (
                            inr (
                              old,
                              refl,
                              ap (λ x. stamp_of capacity bits x + 1) (sym behind),
                              refused seen old,
                            )),
                      ),
                    ),
                  ),
                ),
              ),
            ),
          ),
        );
  }
