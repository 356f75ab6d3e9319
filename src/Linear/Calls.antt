-- ===== src/Linear/Calls.antt =====
-- Why `push`, `force_push` and `pop` of src/array_queue.rs keep to the discipline of Claims.
pub mod Push
pub mod Full
pub mod Pop
pub mod Serve
use ref_count.Common.{
  ℕ, zero, suc, ◌+◌, ◌*◌, ◌%◌, ◌≤◌, ◌<◌, ◌≡◌, ◌⊎◌, refl, sym, ap, ◌∙◌, Bool, true, false, Option,
  none, some, arith, inl, inr, update, ltb, ==_iff, ◌==◌, ==_refl, lt→ltb, if◌then◌else◌,
}
use native.Mathlib.Nat.{mod-lt, le_refl, add-mod_right, add-zero}
use native.Mathlib.Decide.{ℕ_discrete}
use ref_count.Backoff
use ref_count.Backoff.{Backoff, Pause}
use ref_count.Program
use ref_count.Program.{ret, perform, ◌>>=◌, ◌>>◌}
use ref_count.Queue.Memory.{yield_now, load_head, load_tail, fence}
use ref_count.Queue.Stamp.{index_of, one_lap, next_stamp, wrapping_add}
use ref_count.Queue.Ops.{
  Method, Result, ok, err, OnFull, pause, spin, snooze, in_bounds, push_loop, push_or_else,
  when_full, push, pop_loop, pop,
}
use ref_count.Queue.Shape.{Shape}
use ref_count.Queue.Position.{
  laps, stamp_of, stamp_lt, index_of-stamp, next_stamp-stamp, stamp-add_lap,
}
use ref_count.Queue.Distinct.{same_place, filled-ne-free}
use ref_count.Linear.{Call, push_of, pop_of, from_push, from_pop, serve}
use ref_count.Linear.Claims.{
  Claim, Seen, called, pushing, written, popping, taken, done, InRange, Keeps,
}
use ref_count.Linear.Discipline.{Keeps->>=}

-- The ways in which the methods branch and wait.
module _ {T A : Type 0} (capacity bits : ℕ) (Q : A → Seen → Claim T → Type 0) (c : Claim T)
    (seen : Seen) where
  pub Keeps-if :
      (b : Bool) (m n : Method T A)
      → (b ≡ true → Keeps capacity bits seen c m Q)
      → (b ≡ false → Keeps capacity bits seen c n Q)
      → Keeps capacity bits seen c (if b then m else n) Q
  Keeps-if true m n h k = h refl
  Keeps-if false m n h k = k refl

  pub Keeps-in_bounds :
      (i : ℕ) (m : Method T A)
      → i < capacity
      → Keeps capacity bits seen c m Q
      → Keeps capacity bits seen c (in_bounds capacity i m) Q
  Keeps-in_bounds i m lt h =
      Keeps-if (ltb i capacity) m Program.undefined (λ e. h) (λ e. absurd (ground (arith, e)))

  pub Keeps-if->>= :
      {B : Type 0} (b : Bool) (m n : Method T B) (f : B → Method T A)
      → (b ≡ true → Keeps capacity bits seen c (m >>= f) Q)
      → (b ≡ false → Keeps capacity bits seen c (n >>= f) Q)
      → Keeps capacity bits seen c ((if b then m else n) >>= f) Q
  Keeps-if->>= true m n f h k = h refl
  Keeps-if->>= false m n f h k = k refl

  -- Waiting changes nothing.
  pub Keeps-pause->>= :
      (p : Pause) (b : Backoff) (f : Backoff → Method T A)
      → Keeps capacity bits seen c (f b) Q
      → Keeps capacity bits seen c ((pause p >> ret b) >>= f) Q
  Keeps-pause->>= p b f h = wait p.at_yield
    where
      wait :
          (y : Bool)
          → Keeps capacity bits seen c
              (((if y then perform yield_now else ret tt) >> ret b) >>= f)
              Q
      wait true = h
      wait false = h

module _ {capacity bits : ℕ} (shape : Shape capacity bits) where
  -- A loaded stamp that a push or a pop waits for is that of its own place.
  pub free_place :
      (p q filled : ℕ)
      → InRange capacity bits p
      → q + capacity < capacity * laps bits
      → q % capacity ≡ p % capacity
      → filled ≤ 1
      → stamp_of capacity bits p ≡ stamp_of capacity bits q + filled
      → p ≡ q
  free_place p q zero hp hq same le e =
      same_place shape p q (omega (arith, shape.not_empty)) (omega (arith, shape.not_empty))
        (omega arith)
  free_place p q (suc zero) hp hq same le e = absurd (filled-ne-free shape q p same (sym e))
  free_place p q (suc (suc n)) hp hq same le e = absurd (omega arith)

  pub filled_place :
      (p q filled : ℕ)
      → InRange capacity bits p
      → q + capacity < capacity * laps bits
      → q % capacity ≡ p % capacity
      → filled ≤ 1
      → stamp_of capacity bits p + 1 ≡ stamp_of capacity bits q + filled
      → (p ≡ q) × (filled ≡ 1)
  filled_place p q zero hp hq same le e = absurd (filled-ne-free shape p q (sym same) (omega arith))
  filled_place p q (suc zero) hp hq same le e = (
    same_place shape p q (omega (arith, shape.not_empty)) (omega (arith, shape.not_empty))
        (omega arith),
    omega arith,
  )
  filled_place p q (suc (suc n)) hp hq same le e = absurd (omega arith)

  -- The stamp of a value that is one lap behind a push.
  filled-add_lap :
      (q : ℕ)
      → wrapping_add (stamp_of capacity bits q + 1) (one_lap capacity)
        ≡ stamp_of capacity bits (q + capacity) + 1
  filled-add_lap q = omega (arith, stamp-add_lap shape q, stamp_lt shape (q + capacity))

  pub behind_place :
      (p q filled : ℕ)
      → InRange capacity bits p
      → q + capacity < capacity * laps bits
      → q % capacity ≡ p % capacity
      → filled ≤ 1
      → wrapping_add (stamp_of capacity bits q + filled) (one_lap capacity)
        ≡ stamp_of capacity bits p + 1
      → (q + capacity ≡ p) × (filled ≡ 1)
  behind_place p q zero hp hq same le e = absurd (
      filled-ne-free shape p (q + capacity) (sym same ∙ sym (add-mod_right q capacity)) (
        sym e
        ∙ ap (λ x. wrapping_add x (one_lap capacity)) (add-zero (stamp_of capacity bits q))
        ∙ stamp-add_lap shape q))
  behind_place p q (suc zero) hp hq same le e = (
    same_place shape (q + capacity) p (omega arith) (omega (arith, shape.not_empty))
        (omega (arith, filled-add_lap q)),
    refl,
  )
  behind_place p q (suc (suc n)) hp hq same le e = absurd (omega arith)

  pub index_lt : (p : ℕ) → index_of (one_lap capacity) (stamp_of capacity bits p) < capacity
  index_lt p = rw (index_of-stamp shape p) (mod-lt p shape.not_empty)
