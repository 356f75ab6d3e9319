-- ===== src/Linear/Replaced.antt =====
-- The accesses of a `force_push` of src/array_queue.rs that replaces the oldest value, once its slot is claimed.
use ref_count.Common.{
  ℕ, ◌+◌, ◌%◌, ◌<◌, ◌≡◌, ◌∙◌, refl, sym, ap, none, some, length, update, inl, arith, ==_refl, ne→==,
  Option,
}
use mathlib.Core.Path.{subst}
use native.Mathlib.Nat.{le_refl, mod-lt, add-mod_right}
use ref_count.Queue.Ops.{Method}
use ref_count.Queue.Shape.{Shape}
use ref_count.Queue.Position.{stamp_of}
use ref_count.Linear.{Reply, from_force_push, running, System, Atomic}
use ref_count.Linear.Claims.{
  Claim, Seen, replacing, Stage, claimed, advanced, refilled, done, status, Keeps,
}
use ref_count.Linear.Slots.{filled, swapping, Fits, slot_of}
use ref_count.Linear.Invariant.{Inv}
use ref_count.Linear.Lag.{word_le, Lags, Lags-end, claiming}
use ref_count.Linear.Moves.{agrees-claim, alone_in, slot_move, own_move}
use ref_count.Linear.Accesses.{After}

module _ {T : Type 0} {capacity bits n : ℕ} {past : Seen} {s : System T} {a : Atomic T}
    (shape : Shape capacity bits) (inv : Inv capacity bits past n s a) (i : ℕ) where
  open inv use {
    head_place, slots, claims, seen, head_eq, lag, tail_eq, lags, bounded, early, fits, owns,
  }

  abbrev Rest : Seen → Claim T → Method T (Reply T) → Type 0
  Rest known c p = Keeps capacity bits known c p (λ r seen' c'. c' ≡ done r)

  -- The word of the tail is stored, and lags no longer.
  pub advanced-Inv :
      (place tail : ℕ) (old v : T) (p : Method T (Reply T))
      → claims i ≡ replacing place old v claimed
      → tail ≡ stamp_of capacity bits (place + capacity + 1)
      → Rest (seen i) (replacing place old v advanced) p
      → After capacity bits past n a
          (record { mem = record s.mem { tail = tail }; threads = update s.threads i (running p) })
  advanced-Inv place tail old v p mine tail_is follow =
      let x = place % capacity in
      let lt : x < capacity = mod-lt place shape.not_empty in
      let slot_eq : slots x ≡ swapping place i old v claimed = rw mine at (owns i) in
      let fit : Fits capacity bits head_place a.items x (s.mem.stamp x) (s.mem.value x)
          (swapping place i old v claimed) =
        rw slot_eq at (fits x lt) in
      let lag_eq : lag ≡ some place = (lags.only x place lt (ap claiming slot_eq)).0 in
      let at_tail : place + capacity + 1 ≡ head_place + length a.items =
        (lags.here place lag_eq).0 in
      let new = swapping place i old v advanced in
      (
        a,
        inl refl,
        slot_move inv i (running p) (replacing place old v advanced) x new
            (record s.mem { tail = tail }) head_place a.items a.threads none head_eq
            (tail_is ∙ ap (stamp_of capacity bits) at_tail)
            (Lags-end place x new refl refl
              (subst (Lags capacity (head_place + length a.items) slots) lag_eq lags))
            bounded (omega (arith, early)) (le_refl head_place) (word_le lag lags) fit
            (λ j lt_j ne. fits j lt_j) (rw slot_eq (le_refl _)) (λ j ne. rw slot_eq (λ e. ne (cc)))
            (rw (==_refl x) refl) (λ j e. (cc, refl))
            (alone_in inv i (running p) (replacing place old v advanced)
              (swapping place i old v claimed) (ap (slot_of i) mine))
            follow
            (agrees-claim inv i (running p) (replacing place old v advanced) (ap status mine)),
      )

  pub emptied-Inv :
      (place : ℕ) (old v : T) (k : Option T → Method T (Reply T))
      → claims i ≡ replacing place old v advanced
      → Rest (seen i) (replacing place old v Stage.emptied) (k (some old))
      → After capacity bits past n a (record {
        mem = record s.mem { value = update s.mem.value (place % capacity) none };
        threads = update s.threads i (running (k (s.mem.value (place % capacity))));
      })
  emptied-Inv place old v k mine follow =
      let x = place % capacity in
      let lt : x < capacity = mod-lt place shape.not_empty in
      let slot_eq : slots x ≡ swapping place i old v advanced = rw mine at (owns i) in
      let fit : Fits capacity bits head_place a.items x (s.mem.stamp x) (s.mem.value x)
          (swapping place i old v advanced) =
        rw slot_eq at (fits x lt) in
      (
        a,
        inl refl,
        own_move inv i (running (k (s.mem.value x))) (replacing place old v Stage.emptied)
            (replacing place old v advanced) (swapping place i old v advanced)
            (swapping place i old v Stage.emptied)
            (record s.mem { value = update s.mem.value x none }) mine refl refl lt slot_eq refl refl
            (fit.0, fit.1, fit.2, fit.3, fit.4, tt)
            (λ j ne. (refl, rw (ne→== (λ e. ne (sym e))) refl)) (le_refl _) refl refl
            (rw (==_refl x) refl) (λ j e. (cc, refl))
            (subst (λ w. Rest (seen i) (replacing place old v Stage.emptied) (k w)) (sym fit.5)
              follow)
            (ap status mine),
      )

  pub refilled-Inv :
      (place : ℕ) (old v : T) (p : Method T (Reply T))
      → claims i ≡ replacing place old v Stage.emptied
      → Rest (seen i) (replacing place old v refilled) p
      → After capacity bits past n a (record {
        mem = record s.mem { value = update s.mem.value (place % capacity) (some v) };
        threads = update s.threads i (running p);
      })
  refilled-Inv place old v p mine follow =
      let x = place % capacity in
      let lt : x < capacity = mod-lt place shape.not_empty in
      let slot_eq : slots x ≡ swapping place i old v Stage.emptied = rw mine at (owns i) in
      let fit : Fits capacity bits head_place a.items x (s.mem.stamp x) (s.mem.value x)
          (swapping place i old v Stage.emptied) =
        rw slot_eq at (fits x lt) in
      (
        a,
        inl refl,
        own_move inv i (running p) (replacing place old v refilled)
            (replacing place old v Stage.emptied) (swapping place i old v Stage.emptied)
            (swapping place i old v refilled)
            (record s.mem { value = update s.mem.value x (some v) }) mine refl refl lt slot_eq refl
            refl (fit.0, fit.1, fit.2, fit.3, fit.4, rw (==_refl x) refl)
            (λ j ne. (refl, rw (ne→== (λ e. ne (sym e))) refl)) (le_refl _) refl refl
            (rw (==_refl x) refl) (λ j e. (cc, refl)) follow (ap status mine),
      )

  pub finished-Inv :
      (place stamp : ℕ) (old v : T) (p : Method T (Reply T))
      → claims i ≡ replacing place old v refilled
      → stamp ≡ stamp_of capacity bits (place + capacity) + 1
      → Rest (seen i) (done (from_force_push (some old))) p
      → After capacity bits past n a (record {
        mem = record s.mem { stamp = update s.mem.stamp (place % capacity) stamp };
        threads = update s.threads i (running p);
      })
  finished-Inv place stamp old v p mine stamp_eq follow =
      let x = place % capacity in
      let lt : x < capacity = mod-lt place shape.not_empty in
      let slot_eq : slots x ≡ swapping place i old v refilled = rw mine at (owns i) in
      let fit : Fits capacity bits head_place a.items x (s.mem.stamp x) (s.mem.value x)
          (swapping place i old v refilled) =
        rw slot_eq at (fits x lt) in
      (
        a,
        inl refl,
        own_move inv i (running p) (done (from_force_push (some old)))
            (replacing place old v refilled) (swapping place i old v refilled)
            (filled (place + capacity) v) (record s.mem { stamp = update s.mem.stamp x stamp }) mine
            refl refl lt slot_eq refl refl
            (
              add-mod_right place capacity,
              rw (==_refl x) stamp_eq,
              fit.3,
              omega (arith, fit.2),
              fit.4,
              fit.5,
            )
            (λ j ne. (rw (ne→== (λ e. ne (sym e))) refl, refl)) (omega arith) refl refl tt
            (λ j e. absurd (cc)) follow (ap status mine),
      )
