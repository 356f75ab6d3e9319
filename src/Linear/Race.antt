-- ===== src/Linear/Race.antt =====
-- The accesses of src/array_queue.rs that are not atomic: those to the `value` of a slot.
use mathlib.Core.Path.{subst}
use ref_count.Common.{
  ℕ, ◌^◌, ◌<◌, ◌%◌, ◌≤◌, ◌≡◌, ◌≢◌, List, Option, none, some, sym, inl, inr, ap, ◌∙◌,
}
use ref_count.Program.{act, undefined}
use ref_count.Queue.Memory.{
  Access, Response, take_value, write_value, load_head, load_tail, store_head, store_tail, cas_head,
  cas_tail, load_stamp, store_stamp, fence, spin_loop, yield_now,
}
use ref_count.Queue.Ops.{Method}
use ref_count.Queue.Shape.{Shape}
use ref_count.Queue.Distinct.{places_suffice}
use ref_count.Linear.{Reply, Event, running, System, Run}
use ref_count.Linear.Claims.{Claim, Seen}
use ref_count.Linear.Slots.{Slot, owner, Owns}
use ref_count.Linear.Invariant.{Follows}
use ref_count.Linear.Simulation.{Run-Inv}

module _ {T : Type 0} where
  -- The slot whose value the access reads or writes.
  abbrev pub touches : Access T → Option ℕ
  touches (take_value x) = some x
  touches (write_value x v) = some x
  touches _ = none

  touched_slot :
      (capacity bits : ℕ) (slots : ℕ → Slot T) (i x : ℕ) (seen : Seen) (c : Claim T) (e : Access T)
      (k : Response e → Method T (Reply T))
      → Owns capacity slots i c
      → Follows capacity bits seen c (running (act e k))
      → touches e ≡ some x
      → owner (slots x) ≡ some i
  touched_slot capacity bits slots i x seen c (take_value l) k own (p, v, place, h) e =
      let same : p % capacity ≡ x = sym place ∙ (cc) in
      ap (λ q. owner (slots q)) (sym same) ∙ elim h [
        | inl (mine, rest) ↦ ap owner (rw mine at own)
        | inr (new, mine, rest) ↦ ap owner (rw mine at own)
      ]
  touched_slot capacity bits slots i x seen c (write_value l v) k own (p, place, h) e =
      let same : p % capacity ≡ x = sym place ∙ (cc) in
      ap (λ q. owner (slots q)) (sym same) ∙ elim h [
        | inl (r, mine, rest) ↦ ap owner (rw mine at own)
        | inr (old, mine, rest) ↦ ap owner (rw mine at own)
      ]
  touched_slot capacity bits slots i x seen c load_head k own h e = absurd (cc)
  touched_slot capacity bits slots i x seen c load_tail k own h e = absurd (cc)
  touched_slot capacity bits slots i x seen c (store_head y) k own h e = absurd (cc)
  touched_slot capacity bits slots i x seen c (store_tail y) k own h e = absurd (cc)
  touched_slot capacity bits slots i x seen c (cas_head y z) k own h e = absurd (cc)
  touched_slot capacity bits slots i x seen c (cas_tail y z) k own h e = absurd (cc)
  touched_slot capacity bits slots i x seen c (load_stamp y) k own h e = absurd (cc)
  touched_slot capacity bits slots i x seen c (store_stamp y z) k own h e = absurd (cc)
  touched_slot capacity bits slots i x seen c fence k own h e = absurd (cc)
  touched_slot capacity bits slots i x seen c (spin_loop y) k own h e = absurd (cc)
  touched_slot capacity bits slots i x seen c yield_now k own h e = absurd (cc)

-- While threads call `push`, `force_push` and `pop` on a new queue with a capacity below 2^60 in any order
-- and interleaving, no two of them are about to read or write the value of the same slot, at least for the
-- first 2^62 steps.
pub no_data_race :
    {T : Type 0} {capacity bits steps : ℕ} {es : List (Event T)} {s : System T}
    → Shape capacity bits
    → capacity < 2 ^ 60
    → steps ≤ 2 ^ 62
    → Run capacity steps es s
    → (i j x y : ℕ) (e e' : Access T) {k : Response e → Method T (Reply T)}
      {k' : Response e' → Method T (Reply T)}
    → i ≢ j
    → s.threads i ≡ running (act e k)
    → s.threads j ≡ running (act e' k')
    → touches e ≡ some x
    → touches e' ≡ some y
    → x ≢ y
no_data_race {capacity} {bits} {steps} shape small few run i j x y e e' {k} {k'} other runs_i runs_j
      at_x at_y same =
    let (a, atomic, inv) = Run-Inv shape (places_suffice shape steps small few) run in
    let of_i : owner (inv.slots x) ≡ some i =
      touched_slot capacity bits inv.slots i x (inv.seen i) (inv.claims i) e k (inv.owns i)
        (subst (Follows capacity bits (inv.seen i) (inv.claims i)) runs_i (inv.follows i)) at_x in
    let of_j : owner (inv.slots y) ≡ some j =
      touched_slot capacity bits inv.slots j y (inv.seen j) (inv.claims j) e' k' (inv.owns j)
        (subst (Follows capacity bits (inv.seen j) (inv.claims j)) runs_j (inv.follows j)) at_y in
    let both : some i ≡ some j = sym of_i ∙ ap (λ q. owner (inv.slots q)) same ∙ of_j in other (cc)

-- While threads call `push`, `force_push` and `pop` on a new queue with a capacity below 2^60 in any order
-- and interleaving, no thread comes to an index outside the buffer or takes a value out of a slot that has
-- none, at least for the first 2^62 steps.
pub no_undefined :
    {T : Type 0} {capacity bits steps : ℕ} {es : List (Event T)} {s : System T}
    → Shape capacity bits
    → capacity < 2 ^ 60
    → steps ≤ 2 ^ 62
    → Run capacity steps es s
    → (i : ℕ) → s.threads i ≢ running undefined
no_undefined {capacity} {bits} {steps} shape small few run i e =
    let (a, atomic, inv) = Run-Inv shape (places_suffice shape steps small few) run in
    subst (Follows capacity bits (inv.seen i) (inv.claims i)) e (inv.follows i)
