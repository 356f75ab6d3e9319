-- ===== src/Linear/Shown.antt =====
-- The moments at which the head and the tail of src/array_queue.rs show a number of values.
use native.Mathlib.Nat.{mod-lt, add-zero}
use ref_count.Common.{ℕ, ◌+◌, ◌-◌, ◌≤◌, ◌≡◌, arith}
use ref_count.Program.{ret, act, spinning, undefined}
use ref_count.Queue.Memory.{
  load_head, load_tail, store_head, store_tail, cas_head, cas_tail, load_stamp, store_stamp,
  take_value, write_value, fence, spin_loop, yield_now,
}
use ref_count.Queue.Ops.{Method, queue_size}
use ref_count.Queue.Observers.{index-add, ends_apart}
use ref_count.Queue.Stamp.{index_of, one_lap}
use ref_count.Queue.Shape.{Shape}
use ref_count.Queue.Position.{stamp_of, index_of-stamp}
use ref_count.Linear.{Atomic, AtomicRun}
use ref_count.Linear.Claims.{Seen}
use ref_count.Linear.Invariant.{Inv}
use ref_count.Linear.Watch.{Point, Reaches, Observed, During}
use ref_count.Linear.Size.{word, word-Visible}
use ref_count.Linear.Advance.{Reaches-trans, Early, advance}

module _ {T A : Type 0} {capacity : ℕ} where
  pub Observed-Reaches :
      (m : Method T A) (p q : Point T) (r : A) → Observed capacity p m r q → Reaches capacity p q
  Observed-Reaches (ret a) p q r (e, path) = path
  Observed-Reaches (act load_head k) p q r (t, path, rest) =
      Reaches-trans path (Observed-Reaches (k t.system.mem.head) t q r rest)
  Observed-Reaches (act load_tail k) p q r (t, path, rest) =
      Reaches-trans path (Observed-Reaches (k t.system.mem.tail) t q r rest)
  Observed-Reaches (act (store_head x) k) p q r h = absurd h
  Observed-Reaches (act (store_tail x) k) p q r h = absurd h
  Observed-Reaches (act (cas_head x y) k) p q r h = absurd h
  Observed-Reaches (act (cas_tail x y) k) p q r h = absurd h
  Observed-Reaches (act (load_stamp x) k) p q r h = absurd h
  Observed-Reaches (act (store_stamp x y) k) p q r h = absurd h
  Observed-Reaches (act (take_value x) k) p q r h = absurd h
  Observed-Reaches (act (write_value x v) k) p q r h = absurd h
  Observed-Reaches (act fence k) p q r h = absurd h
  Observed-Reaches (act (spin_loop x) k) p q r h = absurd h
  Observed-Reaches (act yield_now k) p q r h = absurd h
  Observed-Reaches spinning p q r h = absurd h
  Observed-Reaches undefined p q r h = absurd h

module _ {capacity bits : ℕ} (shape : Shape capacity bits) where
  -- `queue_size!` of the stamps of two places.
  pub queue_size-stamps :
      (h n : ℕ)
      → n ≤ capacity
      → queue_size capacity
          (stamp_of capacity bits h)
          (index_of (one_lap capacity) (stamp_of capacity bits h))
          (stamp_of capacity bits (h + n))
          (index_of (one_lap capacity) (stamp_of capacity bits (h + n)))
        ≡ n
  unfolding queue_size
  queue_size-stamps h n le = ground (
    arith,
    (ends_apart shape h n le).0,
    le,
    index_of-stamp shape h,
    index_of-stamp shape (h + n),
    index-add h n capacity le shape.not_empty,
    mod-lt h shape.not_empty,
    add-zero h,
  )

module _ {T : Type 0} {capacity bits : ℕ} (shape : Shape capacity bits) where
  pub shown :
      {past : Seen} {p m q : Point T} {a : Atomic T}
      → Reaches capacity p m
      → Reaches capacity m q
      → Early shape q
      → AtomicRun capacity m.events a
      → (inv : Inv capacity bits past m.steps m.system a)
      → During capacity p q (word shape inv - inv.head_place)
  shown {m = m} {a = a} after before early run inv =
      let (b, on, inv_b) = advance shape inv before early in
      record {
        moment = m;
        after = after;
        before = before;
        atomic = a;
        run = run;
        visible = word-Visible shape inv;
        end = b;
        goes_on = on;
      }

  pub earlier :
      {p m q : Point T} {n : ℕ}
      → Reaches capacity p m
      → During capacity m q n
      → During capacity p q n
  earlier path during = record {
    moment = during.moment;
    after = Reaches-trans path during.after;
    before = during.before;
    atomic = during.atomic;
    run = during.run;
    visible = during.visible;
    end = during.end;
    goes_on = during.goes_on;
  }
