-- ===== src/Linear/Wins.antt =====
-- A compare-exchange on the head or the tail that succeeds: the call is carried out, and the thread owns
-- the slot of its place.
use ref_count.Common.{
  ℕ, suc, ◌+◌, ◌-◌, ◌*◌, ◌%◌, ◌≤◌, ◌<◌, ◌≡◌, refl, ap, ◌∙◌, some, List, [], ◌∷◌, ◌++◌, length,
  length-append, get_elem?, update, inr, none, sym, arith, ==_refl, false,
}
use mathlib.Core.Path.{subst}
use native.Mathlib.Nat.{le_refl, le_trans, mod-lt, add-mod_right}
use ref_count.Queue.Ops.{Method}
use ref_count.Queue.Shape.{Shape}
use ref_count.Queue.Position.{laps, stamp_of}
use ref_count.Linear.{
  Call, force_push_of, pop_of, Reply, from_force_push, from_pop, running, System, Atomic, answered,
}
use ref_count.Linear.Claims.{
  Claim, Seen, called, pushing, popping, replacing, claimed, done, status, Keeps, Appends,
}
use ref_count.Linear.Slots.{free, filling, filled, emptying, swapping, Fits, slot_of}
use ref_count.Linear.Fits.{free_at_tail, filled_at_head, Fits-tail, Fits-head}
use ref_count.Linear.Atomically.{replied, commit_push, commit_pop, commit_displaced}
use ref_count.Linear.Invariant.{Inv}
use ref_count.Linear.Moves.{agrees-update, none_owned, slot_move}
use ref_count.Linear.Accesses.{After}
use ref_count.Linear.Lag.{
  word_place, word_le, Lags, Lags-update, Lags-tail, Lags-begin, settled_of_le, claiming,
}

first_item :
    {T : Type 0} (l : List T) (v : T) → get_elem? l 0 ≡ some v → (rest : List T) × (l ≡ v ∷ rest)
first_item [] v e = absurd (cc)
first_item (x ∷ xs) v e = (xs, cc)

last_item :
    {T : Type 0} (l : List T) (v : T) (j : ℕ) → j ≡ length l → get_elem? (l ++ (v ∷ [])) j ≡ some v
last_item [] v j e = rw e refl
last_item (x ∷ xs) v j e = rw e (last_item xs v (length xs) refl)

module _ {T : Type 0} {capacity bits n : ℕ} {past : Seen} {s : System T} {a : Atomic T}
    (shape : Shape capacity bits) (room : n + capacity + capacity ≤ capacity * laps bits)
    (inv : Inv capacity bits past n s a) (i : ℕ) where
  open inv use {
    head_place, slots, claims, seen, head_eq, lag, tail_eq, lags, bounded, early, fits, owns, below,
    follows, agrees,
  }

  abbrev Rest : Seen → Claim T → Method T (Reply T) → Type 0
  Rest known c p = Keeps capacity bits known c p (λ r seen' c'. c' ≡ done r)

  pub won_head :
      (next : ℕ) (p : Method T (Reply T))
      → next ≡ stamp_of capacity bits (head_place + 1)
      → claims i ≡ called pop_of
      → 2 * head_place + 1 ≤ (seen i).version (head_place % capacity)
      → ((v : T) → Rest (seen i) (popping head_place v) p)
      → After capacity bits past n a
          (record { mem = record s.mem { head = next }; threads = update s.threads i (running p) })
  won_head next p next_eq waits low follow =
      let k = head_place % capacity in
      let lt : k < capacity = mod-lt head_place shape.not_empty in
      let (v, slot_eq, first, value) =
        filled_at_head capacity bits head_place a.items k (s.mem.stamp k) (s.mem.value k) (slots k)
          refl (fits k lt) (omega (arith, (below i).version_le k lt)) in
      let (rest, items_eq) = first_item a.items v first in
      let size : length a.items ≡ suc (length rest) = ap length items_eq in
      let same_tail : head_place + length a.items ≡ head_place + 1 + length rest =
        omega (arith, size) in
      let fit : Fits capacity bits head_place a.items k (s.mem.stamp k) (s.mem.value k)
          (filled head_place v) =
        rw slot_eq at (fits k lt) in
      (
        replied a i rest (from_pop (some v)),
        inr (commit_pop capacity a i v rest items_eq (agrees i ∙ ap status waits)),
        slot_move inv i (running p) (popping head_place v) k (emptying head_place i v false)
            (record s.mem { head = next }) (head_place + 1) rest _ lag next_eq
            (tail_eq ∙ ap (λ t. stamp_of capacity bits (word_place capacity t lag)) same_tail)
            (subst (λ t. Lags capacity t (update slots k (emptying head_place i v false)) lag)
              same_tail
              (Lags-update k (emptying head_place i v false) (ap claiming slot_eq) refl lags))
            (omega (arith, bounded, size)) (omega (arith, early, size)) (omega arith)
            (subst
              (λ t.
                word_place capacity (head_place + length a.items) lag ≤ word_place capacity t lag)
              same_tail (le_refl _))
            (refl, fit.1, omega arith, omega (arith, bounded, size), λ w. value)
            (λ j lt_j ne.
              Fits-head capacity bits head_place v rest j (s.mem.stamp j) (s.mem.value j) (slots j)
                ne
                (subst
                  (λ l. Fits capacity bits head_place l j (s.mem.stamp j) (s.mem.value j) (slots j))
                  items_eq (fits j lt_j)))
            (rw slot_eq (le_refl _)) (λ j ne. rw slot_eq (λ e. cc)) (rw (==_refl k) refl)
            (λ j e. (cc, refl))
            (λ l lt_l e.
              none_owned inv i (running p) (called pop_of) (ap (slot_of i) waits) l k lt_l e)
            (follow v)
            (agrees-update inv i (running p) (popping head_place v) (answered (from_pop (some v)))
              refl),
      )

  pub won_tail :
      (next : ℕ) (p : Method T (Reply T)) (call : Call T) (v : T) (r : Reply T)
      → next ≡ stamp_of capacity bits (head_place + length a.items + 1)
      → lag ≡ none
      → claims i ≡ called call
      → Appends call v r
      → 2 * (head_place + length a.items)
        ≤ (seen i).version ((head_place + length a.items) % capacity)
      → Rest (seen i) (pushing (head_place + length a.items) v r) p
      → After capacity bits past n a
          (record { mem = record s.mem { tail = next }; threads = update s.threads i (running p) })
  won_tail next p call v r next_eq up waits appends low follow =
      let t = head_place + length a.items in
      let k = t % capacity in
      let lt : k < capacity = mod-lt t shape.not_empty in
      let (slot_eq, space) =
        free_at_tail capacity bits head_place a.items t k (s.mem.stamp k) (s.mem.value k) (slots k)
          refl bounded refl (fits k lt) (omega (arith, (below i).version_le k lt)) in
      let more : length (a.items ++ (v ∷ [])) ≡ length a.items + 1 =
        length-append a.items (v ∷ []) in
      let fit : Fits capacity bits head_place a.items k (s.mem.stamp k) (s.mem.value k) (free t) =
        rw slot_eq at (fits k lt) in
      (
        replied a i (a.items ++ (v ∷ [])) r,
        inr (commit_push capacity a i call v r appends space (agrees i ∙ ap status waits)),
        slot_move inv i (running p) (pushing t v r) k (filling t i v false)
            (record s.mem { tail = next }) head_place (a.items ++ (v ∷ [])) _ none head_eq
            (next_eq ∙ ap (stamp_of capacity bits) (omega (arith, more)))
            (Lags-tail (head_place + length (a.items ++ (v ∷ []))) (
              Lags-update k (filling t i v false) (ap claiming slot_eq) refl
                (subst (Lags capacity t slots) up lags)))
            (omega (arith, more)) (omega (arith, early, more)) (le_refl head_place)
            (le_trans (word_le lag lags) (omega (arith, more)))
            (
              refl,
              fit.1,
              omega arith,
              fit.3,
              last_item a.items v (t - head_place) (omega arith),
              λ w. cc,
            )
            (λ j lt_j ne.
              Fits-tail capacity bits head_place a.items v j (s.mem.stamp j) (s.mem.value j)
                (slots j) ne (fits j lt_j))
            (rw slot_eq (le_refl _)) (λ j ne. rw slot_eq (λ e. cc)) (rw (==_refl k) refl)
            (λ j e. (cc, refl))
            (λ l lt_l e.
              none_owned inv i (running p) (called call) (ap (slot_of i) waits) l k lt_l e)
            follow (agrees-update inv i (running p) (pushing t v r) (answered r) refl),
      )

  -- The oldest value goes out and the new one comes in, while the word of the tail stays behind.
  pub won_force :
      (next : ℕ) (p : Method T (Reply T)) (v : T)
      → next ≡ stamp_of capacity bits (head_place + 1)
      → claims i ≡ called (force_push_of v)
      → 2 * head_place + 1 ≤ (seen i).version (head_place % capacity)
      → head_place + capacity ≤ (seen i).tail_low
      → ((x : T) → Rest (seen i) (replacing head_place x v claimed) p)
      → After capacity bits past n a
          (record { mem = record s.mem { head = next }; threads = update s.threads i (running p) })
  won_force next p v next_eq waits low at_tail follow =
      let k = head_place % capacity in
      let t = head_place + length a.items in
      let lt : k < capacity = mod-lt head_place shape.not_empty in
      let reached : head_place + capacity ≤ word_place capacity t lag =
        le_trans at_tail (below i).tail_le in
      let full : length a.items ≡ capacity = omega (arith, bounded, reached, word_le lag lags) in
      let up : lag ≡ none =
        settled_of_le lag lags
          (subst (λ l. head_place + l ≤ word_place capacity t lag) (sym full) reached) in
      let (x, slot_eq, first, value) =
        filled_at_head capacity bits head_place a.items k (s.mem.stamp k) (s.mem.value k) (slots k)
          refl (fits k lt) (omega (arith, (below i).version_le k lt)) in
      let (rest, items_eq) = first_item a.items x first in
      let size : length a.items ≡ suc (length rest) = ap length items_eq in
      let more : length (rest ++ (v ∷ [])) ≡ length rest + 1 = length-append rest (v ∷ []) in
      let fit : Fits capacity bits head_place a.items k (s.mem.stamp k) (s.mem.value k)
          (filled head_place x) =
        rw slot_eq at (fits k lt) in
      let mine = swapping head_place i x v claimed in
      let lap_on : head_place + 1 + length rest ≡ head_place + capacity =
        omega (arith, size, full) in
      (
        replied a i (rest ++ (v ∷ [])) (from_force_push (some x)),
        inr (
            commit_displaced capacity a i v x rest items_eq (λ less. absurd (omega (arith, full)))
              (agrees i ∙ ap status waits)),
        slot_move inv i (running p) (replacing head_place x v claimed) k mine
            (record s.mem { head = next }) (head_place + 1) (rest ++ (v ∷ [])) _ (some head_place)
            next_eq (tail_eq ∙ ap (stamp_of capacity bits) (rw (up, full) refl))
            (Lags-begin head_place k (head_place + 1 + length (rest ++ (v ∷ []))) mine refl
              (omega (arith, size, full, more)) refl (subst (Lags capacity t slots) up lags))
            (omega (arith, more, size, full)) (omega (arith, early, size, more)) (omega arith)
            (le_trans (word_le lag lags) (omega (arith, full)))
            (
              refl,
              fit.1,
              omega arith,
              omega (arith, shape.not_empty),
              last_item rest v (head_place + capacity - (head_place + 1))
                  (omega (arith, size, full)),
              value,
            )
            (λ j lt_j ne.
              Fits-tail capacity bits (head_place + 1) rest v j (s.mem.stamp j) (s.mem.value j)
                (slots j)
                (λ e. ne (e ∙ ap (λ q. q % capacity) lap_on ∙ add-mod_right head_place capacity))
                (Fits-head capacity bits head_place x rest j (s.mem.stamp j) (s.mem.value j)
                  (slots j) ne
                  (subst
                    (λ l.
                      Fits capacity bits head_place l j (s.mem.stamp j) (s.mem.value j) (slots j))
                    items_eq (fits j lt_j))))
            (rw slot_eq (le_refl _)) (λ j ne. rw slot_eq (λ e. cc)) (rw (==_refl k) refl)
            (λ j e. (cc, refl))
            (λ l lt_l e.
              none_owned inv i (running p) (called (force_push_of v)) (ap (slot_of i) waits) l k
                lt_l e)
            (follow x)
            (agrees-update inv i (running p) (replacing head_place x v claimed)
              (answered (from_force_push (some x))) refl),
      )
