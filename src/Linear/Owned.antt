-- ===== src/Linear/Owned.antt =====
-- The accesses of a thread to the slot that it fills or empties.
use ref_count.Common.{
  ℕ, ◌+◌, ◌%◌, ◌<◌, ◌≡◌, refl, sym, ap, none, some, update, inl, arith, ==_refl, ne→==, true, false,
  Option,
}
use mathlib.Core.Path.{subst}
use native.Mathlib.Nat.{le_refl, mod-lt, add-mod_right}
use ref_count.Queue.Ops.{Method}
use ref_count.Queue.Shape.{Shape}
use ref_count.Queue.Position.{stamp_of}
use ref_count.Linear.{Reply, from_pop, running, System, Atomic}
use ref_count.Linear.Claims.{Claim, Seen, pushing, written, popping, taken, done, status, Keeps}
use ref_count.Linear.Slots.{free, filling, filled, emptying, Fits}
use ref_count.Linear.Invariant.{Inv}
use ref_count.Linear.Moves.{own_move}
use ref_count.Linear.Accesses.{After}

module _ {T : Type 0} {capacity bits n : ℕ} {past : Seen} {s : System T} {a : Atomic T}
    (shape : Shape capacity bits) (inv : Inv capacity bits past n s a) (i : ℕ) where
  open inv use {
    head_place, slots, claims, seen, head_eq, lag, tail_eq, lags, bounded, early, fits, owns,
  }

  abbrev Rest : Seen → Claim T → Method T (Reply T) → Type 0
  Rest known c p = Keeps capacity bits known c p (λ r seen' c'. c' ≡ done r)

  pub written-Inv :
      (place : ℕ) (v : T) (r : Reply T) (p : Method T (Reply T))
      → claims i ≡ pushing place v r
      → Rest (seen i) (written place v r) p
      → After capacity bits past n a (record {
        mem = record s.mem { value = update s.mem.value (place % capacity) (some v) };
        threads = update s.threads i (running p);
      })
  written-Inv place v r p mine follow =
      let x = place % capacity in
      let lt : x < capacity = mod-lt place shape.not_empty in
      let slot_eq : slots x ≡ filling place i v false = rw mine at (owns i) in
      let fit : Fits capacity bits head_place a.items x (s.mem.stamp x) (s.mem.value x)
          (filling place i v false) =
        rw slot_eq at (fits x lt) in
      (
        a,
        inl refl,
        own_move inv i (running p) (written place v r) (pushing place v r) (filling place i v false)
            (filling place i v true) (record s.mem { value = update s.mem.value x (some v) }) mine
            refl refl lt slot_eq refl refl
            (fit.0, fit.1, fit.2, fit.3, fit.4, λ w. rw (==_refl x) refl)
            (λ j ne. (refl, rw (ne→== (λ e. ne (sym e))) refl)) (le_refl _) refl refl
            (rw (==_refl x) refl) (λ j e. (cc, refl)) follow (ap status mine),
      )

  pub taken-Inv :
      (place : ℕ) (v : T) (k : Option T → Method T (Reply T))
      → claims i ≡ popping place v
      → Rest (seen i) (taken place v) (k (some v))
      → After capacity bits past n a (record {
        mem = record s.mem { value = update s.mem.value (place % capacity) none };
        threads = update s.threads i (running (k (s.mem.value (place % capacity))));
      })
  taken-Inv place v k mine follow =
      let x = place % capacity in
      let lt : x < capacity = mod-lt place shape.not_empty in
      let slot_eq : slots x ≡ emptying place i v false = rw mine at (owns i) in
      let fit : Fits capacity bits head_place a.items x (s.mem.stamp x) (s.mem.value x)
          (emptying place i v false) =
        rw slot_eq at (fits x lt) in
      (
        a,
        inl refl,
        own_move inv i (running (k (s.mem.value x))) (taken place v) (popping place v)
            (emptying place i v false) (emptying place i v true)
            (record s.mem { value = update s.mem.value x none }) mine refl refl lt slot_eq refl refl
            (fit.0, fit.1, fit.2, fit.3, λ w. cc)
            (λ j ne. (refl, rw (ne→== (λ e. ne (sym e))) refl)) (le_refl _) refl refl
            (rw (==_refl x) refl) (λ j e. (cc, refl))
            (subst (λ w. Rest (seen i) (taken place v) (k w)) (sym (fit.4 refl)) follow)
            (ap status mine),
      )

  pub filled-Inv :
      (place stamp : ℕ) (v : T) (r : Reply T) (p : Method T (Reply T))
      → claims i ≡ written place v r
      → stamp ≡ stamp_of capacity bits place + 1
      → Rest (seen i) (done r) p
      → After capacity bits past n a (record {
        mem = record s.mem { stamp = update s.mem.stamp (place % capacity) stamp };
        threads = update s.threads i (running p);
      })
  filled-Inv place stamp v r p mine stamp_eq follow =
      let x = place % capacity in
      let lt : x < capacity = mod-lt place shape.not_empty in
      let slot_eq : slots x ≡ filling place i v true = rw mine at (owns i) in
      let fit : Fits capacity bits head_place a.items x (s.mem.stamp x) (s.mem.value x)
          (filling place i v true) =
        rw slot_eq at (fits x lt) in
      (
        a,
        inl refl,
        own_move inv i (running p) (done r) (written place v r) (filling place i v true)
            (filled place v) (record s.mem { stamp = update s.mem.stamp x stamp }) mine refl refl lt
            slot_eq refl refl (fit.0, rw (==_refl x) stamp_eq, fit.2, fit.3, fit.4, fit.5 refl)
            (λ j ne. (rw (ne→== (λ e. ne (sym e))) refl, refl)) (omega arith) refl refl tt
            (λ j e. absurd (cc)) follow (ap status mine),
      )

  pub freed-Inv :
      (place stamp : ℕ) (v : T) (p : Method T (Reply T))
      → claims i ≡ taken place v
      → stamp ≡ stamp_of capacity bits (place + capacity)
      → Rest (seen i) (done (from_pop (some v))) p
      → After capacity bits past n a (record {
        mem = record s.mem { stamp = update s.mem.stamp (place % capacity) stamp };
        threads = update s.threads i (running p);
      })
  freed-Inv place stamp v p mine stamp_eq follow =
      let x = place % capacity in
      let lt : x < capacity = mod-lt place shape.not_empty in
      let slot_eq : slots x ≡ emptying place i v true = rw mine at (owns i) in
      let fit : Fits capacity bits head_place a.items x (s.mem.stamp x) (s.mem.value x)
          (emptying place i v true) =
        rw slot_eq at (fits x lt) in
      (
        a,
        inl refl,
        own_move inv i (running p) (done (from_pop (some v))) (taken place v)
            (emptying place i v true) (free (place + capacity))
            (record s.mem { stamp = update s.mem.stamp x stamp }) mine refl refl lt slot_eq refl
            refl
            (add-mod_right place capacity, rw (==_refl x) stamp_eq, fit.3, omega (arith, fit.2))
            (λ j ne. (rw (ne→== (λ e. ne (sym e))) refl, refl)) (omega (arith, shape.not_empty))
            refl refl tt (λ j e. absurd (cc)) follow (ap status mine),
      )
