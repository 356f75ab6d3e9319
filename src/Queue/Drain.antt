-- ===== src/Queue/Drain.antt =====
-- `Drop` and `IntoIter::next` of src/array_queue.rs: each value in the queue is taken out once.
use native.Mathlib.Nat.{mod-lt, add-zero, add-mod_right}
use mathlib.Core.Path.{ap₂}
use ref_count.Common.{
  ℕ, suc, ◌+◌, ◌-◌, ◌%◌, ◌≤◌, ◌<◌, ◌≡◌, refl, ap, ◌∙◌, Bool, true, false, some, none, List, [], ◌∷◌,
  arith, length, get_elem?, ◌⊎◌, inl, inr, get_elem?_lt, update, ltb, if◌then◌else◌, ==_refl,
}
use ref_count.Program.{ret, ◌>>=◌, returned, World, later_misses, run}
use ref_count.Program.Laws.{run->>=, proceed}
use ref_count.Queue.Memory.{Memory, apply}
use ref_count.Queue.Ops.{drop_loop, drop_queue, next, queue_size}
use ref_count.Queue.Stamp.{one_lap, index_of}
use ref_count.Queue.Shape.{Shape}
use ref_count.Queue.Position.{stamp_of, index_of-stamp, next_stamp-stamp}
use ref_count.Queue.Contents.{Holds, update-ne}
use ref_count.Queue.Observers.{index-add, ends_apart}

-- The index that the loop of `Drop` computes.
drop_index :
    {capacity : ℕ} (h i : ℕ)
    → 0 < capacity
    → i < capacity
    → (if ltb (h % capacity + i) capacity then h % capacity + i else h % capacity + i - capacity)
      ≡ (h + i) % capacity
drop_index {capacity} h i pos lt = ground (arith, index-add h i capacity)

-- `queue_size!` of the two ends of a queue with `n` values.
queue_size_of_ends :
    {capacity bits : ℕ} (shape : Shape capacity bits) (h n : ℕ)
    → n ≤ capacity
    → queue_size capacity
        (stamp_of capacity bits h)
        (h % capacity)
        (stamp_of capacity bits (h + n))
        ((h + n) % capacity)
      ≡ n
unfolding queue_size
queue_size_of_ends {capacity} shape h n le = ground (
  arith,
  (ends_apart shape h n le).0,
  index-add h n capacity le shape.not_empty,
  mod-lt h shape.not_empty,
  add-zero h,
  add-mod_right h capacity,
)

module _ {T : Type 0} {capacity bits : ℕ} (shape : Shape capacity bits) where
  -- The values lie in their slots from place `p` on.
  pub Stored : (p : ℕ) → List T → Memory T → Type 0
  Stored p items m =
      (j : ℕ) (x : T) → get_elem? items j ≡ some x → m.value ((p + j) % capacity) ≡ some x

  taken : (p : ℕ) → Memory T → Memory T
  taken p m = record m { value = update m.value (p % capacity) none }

  taken-Stored :
      (p : ℕ) (x : T) (items : List T) (m : Memory T)
      → Stored p (x ∷ items) m
      → length (x ∷ items) ≤ capacity
      → Stored (p + 1) items (taken p m)
  unfolding Stored taken
  taken-Stored p x items m stored le j y e =
      let lt : j < length items = get_elem?_lt items j e in
      let place : p + 1 + j ≡ p + suc j = omega arith in
      rw
        (
          place,
          update-ne capacity m.value p (p + suc j) none (omega arith) (omega arith) (omega arith),
        )
        (stored (suc j) y e)

  drop_round :
      (n h i : ℕ) (x : T) (m : Memory T) (misses : List Bool)
      → m.value ((h + i) % capacity) ≡ some x
      → i < capacity
      → run apply
          (drop_loop capacity (suc n) i (h % capacity))
          (record { mem = m; misses = misses })
        ≡ run apply
            (drop_loop capacity n (i + 1) (h % capacity) >>= λ xs. ret (x ∷ xs))
            (record { mem = taken (h + i) m; misses = later_misses misses })
  unfolding drop_loop taken
  drop_round n h i x m misses stored lt =
      ground (arith, drop_index h i shape.not_empty lt, mod-lt (h + i) shape.not_empty)

  drop_loop-all :
      (items : List T) (h i : ℕ) (m : Memory T) (misses : List Bool)
      → Stored (h + i) items m
      → i + length items ≤ capacity
      → (w : World (Memory T)) × (run apply
            (drop_loop capacity (length items) i (h % capacity))
            (record { mem = m; misses = misses })
          ≡ (returned items, w))
  unfolding drop_loop Stored
  drop_loop-all [] h i m misses stored le = (record { mem = m; misses = misses }, refl)
  drop_loop-all (x ∷ items) h i m misses stored le =
      let place : h + i + 1 ≡ h + (i + 1) = omega arith in
      let (w, e) =
        drop_loop-all items h (i + 1) (taken (h + i) m) (later_misses misses)
          (rw (← place) (taken-Stored (h + i) x items m stored (omega arith))) (omega arith) in
      (
        w,
        drop_round (length items) h i x m misses (rw (add-zero (h + i)) at (stored 0 x refl))
              (omega arith)
            ∙ run->>= apply (drop_loop capacity (length items) (i + 1) (h % capacity))
                (λ xs. ret (x ∷ xs)) _
            ∙ ap (λ end. proceed apply end (λ xs. ret (x ∷ xs))) e,
      )

  -- `Drop` of a queue of values that need dropping drops exactly the values in it, oldest first; of
  -- other values it drops none.
  pub drop_queue_all :
      (h : ℕ) (items : List T) (m : Memory T) (misses : List Bool) (needs_drop : Bool)
      → Holds capacity bits h items m
      → (w : World (Memory T)) × (run apply
            (drop_queue capacity needs_drop)
            (record { mem = m; misses = misses })
          ≡ (returned (if needs_drop then items else []), w))
  unfolding drop_queue Stored
  drop_queue_all h items m misses false holds = (record { mem = m; misses = misses }, refl)
  drop_queue_all h items m misses true holds =
      let (w, e) =
        drop_loop-all items h 0 m (later_misses (later_misses misses))
          (λ j x at_j. rw (add-zero h) (holds.filled j x at_j).1) (omega (arith, holds.bounded)) in
      let head_idx : index_of (one_lap capacity) m.head ≡ h % capacity =
        ap (index_of (one_lap capacity)) holds.head_eq ∙ index_of-stamp shape h in
      let tail_idx : index_of (one_lap capacity) m.tail ≡ (h + length items) % capacity =
        ap (index_of (one_lap capacity)) holds.tail_eq ∙ index_of-stamp shape (h + length items) in
      let size : queue_size capacity m.head (index_of (one_lap capacity) m.head) m.tail
            (index_of (one_lap capacity) m.tail)
          ≡ length items =
        rw (head_idx, tail_idx, holds.head_eq, holds.tail_eq)
          (queue_size_of_ends shape h (length items) holds.bounded) in
      (
        w,
        ap₂
              (λ n k.
                run apply (drop_loop capacity n 0 k)
                  (record { mem = m; misses = later_misses (later_misses misses) }))
              size head_idx
            ∙ e,
      )

  -- A queue inside an `IntoIter`: the stamps no longer count.
  pub record Remaining (h : ℕ) (items : List T) (m : Memory T) : Type 0 where
    pub head_eq : m.head ≡ stamp_of capacity bits h
    pub tail_eq : m.tail ≡ stamp_of capacity bits (h + length items)
    pub bounded : length items ≤ capacity
    pub stored : Stored h items m

  -- `into_iter` keeps the queue.
  pub Holds-Remaining :
      (h : ℕ) (items : List T) (m : Memory T) → Holds capacity bits h items m → Remaining h items m
  unfolding Stored
  Holds-Remaining h items m holds = record {
    head_eq = holds.head_eq;
    tail_eq = holds.tail_eq;
    bounded = holds.bounded;
    stored = λ j x e. (holds.filled j x e).1;
  }

  -- `IntoIter::next` returns the oldest value that remains and removes exactly that, whose slot then
  -- holds no value; when none remains it returns `None` and changes nothing.
  pub next_oldest :
      (h : ℕ) (items : List T) (m : Memory T) (misses : List Bool)
      → Remaining h items m
      → (m' : Memory T) × (rest : List Bool) × (((items ≡ [])
            × (m' ≡ m)
            × (run apply (next capacity) (record { mem = m; misses = misses })
                ≡ (returned none, record { mem = m'; misses = rest })))
          ⊎ (x : T) × (others : List T) × (items ≡ x ∷ others)
            × Remaining (h + 1) others m'
            × (run apply (next capacity) (record { mem = m; misses = misses })
                ≡ (returned (some x), record { mem = m'; misses = rest }))
            × (m'.value (h % capacity) ≡ none))
  unfolding next Stored taken
  next_oldest h [] m misses remaining = (
    m,
    later_misses (later_misses misses),
    inl (refl, refl, ground (arith, remaining.head_eq, remaining.tail_eq, add-zero h)),
  )
  next_oldest h (x ∷ items) m misses remaining =
      let oldest : m.value (h % capacity) ≡ some x =
        rw (add-zero h) at (remaining.stored 0 x refl) in
      let moved : Memory T = record (taken h m) { head = stamp_of capacity bits (h + 1) } in
      (
        moved,
        later_misses (later_misses (later_misses (later_misses misses))),
        inr (
          x,
          items,
          refl,
          record {
            head_eq = refl;
            tail_eq = remaining.tail_eq ∙ ap (stamp_of capacity bits) (omega arith);
            bounded = omega (arith, remaining.bounded);
            stored = taken-Stored h x items m remaining.stored remaining.bounded;
          },
          ground (
            arith,
            remaining.head_eq,
            remaining.tail_eq,
            (ends_apart shape h (length (x ∷ items)) remaining.bounded).0,
            index_of-stamp shape h,
            mod-lt h shape.not_empty,
            add-zero h,
            oldest,
            next_stamp-stamp shape h,
          ),
          rw (==_refl (h % capacity)) refl,
        ),
      )
