-- ===== src/Queue/Loom.antt =====
-- `mod loom_extra` of src/array_queue.rs: under the configuration `loom`, exclusive access to the head
-- or the tail is a value that is read from the atomic and stored back when it is dropped.
use ref_count.Common.{
  ℕ, ◌≡◌, refl, Bool, true, false, Option, none, some, List, [], ltb, ◌==◌, if◌then◌else◌, update,
  inl, inr, Bool-cases,
}
use ref_count.Program.{ret, perform, ◌>>=◌, ◌>>◌, run}
use ref_count.Queue.Memory.{Memory, apply, load_head, load_tail, store_head, store_tail, take_value}
use ref_count.Queue.Stamp.{index_of, next_stamp}
use ref_count.Queue.Ops.{
  Method, lap, assume_init, in_bounds, queue_size, drop_loop, drop_queue, next,
}

-- the `AtomicUsize` that is borrowed
pub data Cell : Type 0 where
  head : Cell
  tail : Cell

pub record AtomicUsizeMutRef : Type 0 where
  pub src : Cell
  pub value : ℕ

abbrev pub deref : AtomicUsizeMutRef → ℕ
deref r = r.value

-- what an assignment through `deref_mut` leaves
abbrev pub deref_mut : AtomicUsizeMutRef → ℕ → AtomicUsizeMutRef
deref_mut r value = record r { value = value }

-- `PartialEq`
abbrev pub eq : AtomicUsizeMutRef → AtomicUsizeMutRef → Bool
eq r other = r.value == other.value

module _ {T : Type 0} where
  abbrev pub load : Cell → Method T ℕ
  load head = perform load_head
  load tail = perform load_tail

  abbrev pub store : Cell → ℕ → Method T (Unit {0})
  store head v = perform (store_head v)
  store tail v = perform (store_tail v)

  unfoldable pub get_mut : Cell → Method T AtomicUsizeMutRef
  get_mut src = do v ← load src; ret (record { src = src; value = v })

  -- `Drop`
  unfoldable pub drop_mut_ref : AtomicUsizeMutRef → Method T (Unit {0})
  drop_mut_ref r = store r.src r.value

  -- `*src.get_mut()` and `*src.get_mut() = value`; the borrow ends with the statement.
  unfoldable pub read_mut : Cell → Method T ℕ
  read_mut src = do r ← get_mut src; drop_mut_ref r; ret (deref r)

  unfoldable pub assign_mut : Cell → ℕ → Method T (Unit {0})
  assign_mut src value = do r ← get_mut src; drop_mut_ref (deref_mut r value)

  -- `Drop::drop` and `IntoIter::next` of the queue with these borrows. Those of the comparison in
  -- `next` end in reverse order.
  unfoldable pub drop_queue_loom : (capacity : ℕ) → (needs_drop : Bool) → Method T (List T)
  drop_queue_loom capacity false = ret []
  drop_queue_loom capacity true = do
    h ← read_mut head
    t ← read_mut tail
    let head_idx = index_of (lap capacity) h
    let tail_idx = index_of (lap capacity) t
    drop_loop capacity (queue_size capacity h head_idx t tail_idx) 0 head_idx

  unfoldable pub next_loom : (capacity : ℕ) → Method T (Option T)
  next_loom capacity = do
    h ← read_mut head
    a ← get_mut head
    b ← get_mut tail
    drop_mut_ref b
    drop_mut_ref a
    if eq a b
        then ret none
        else in_bounds capacity (index_of (lap capacity) h) (do
          val ← perform (take_value (index_of (lap capacity) h))
          assume_init val
              (λ v. do assign_mut head (next_stamp capacity (lap capacity) h); ret (some v)))

module _ {T : Type 0} (capacity : ℕ) where
  stored_equal :
      (n : ℕ) (o : Option T) (m : Memory T)
      → run apply
          (assume_init o (λ v. assign_mut head n >> ret (some v)))
          (record { mem = m; misses = [] })
        ≡ run apply
            (assume_init o (λ v. perform (store_head n) >> ret (some v)))
            (record { mem = m; misses = [] })
  unfolding assign_mut get_mut drop_mut_ref
  stored_equal n none m = refl
  stored_equal n (some v) m = refl

  next_equal :
      (m : Memory T)
      → run apply (next_loom capacity) (record { mem = m; misses = [] })
        ≡ run apply (next capacity) (record { mem = m; misses = [] })
  unfolding next_loom next read_mut get_mut drop_mut_ref
  next_equal m =
      let i = index_of (lap capacity) m.head in
      elim (Bool-cases (m.head == m.tail)) [
        | inl empty ↦ rw (empty, run) refl
        | inr more ↦ elim (Bool-cases (ltb i capacity)) [
          | inr outside ↦ rw (more, outside, run) refl
          | inl inside ↦
              rw (more, inside, run)
                (stored_equal (next_stamp capacity (lap capacity) m.head) (m.value i)
                  (record m { value = update m.value i none }))
        ]
      ]

  -- With the borrows of the configuration `loom`, `Drop::drop` and `IntoIter::next` return what they
  -- return with plain exclusive access, and leave the same memory.
  pub loom_equal :
      (needs_drop : Bool) (m : Memory T)
      → (run apply (drop_queue_loom capacity needs_drop) (record { mem = m; misses = [] })
          ≡ run apply (drop_queue capacity needs_drop) (record { mem = m; misses = [] }))
        × (run apply (next_loom capacity) (record { mem = m; misses = [] })
            ≡ run apply (next capacity) (record { mem = m; misses = [] }))
  unfolding drop_queue_loom drop_queue read_mut get_mut drop_mut_ref
  loom_equal false m = (refl, next_equal m)
  loom_equal true m = (refl, next_equal m)
