-- ===== src/Solo/Registration.antt =====
-- `poll` of `FutureRef` in src/futures.rs by a thread that runs alone while references are blocked:
-- the future registers in the waiter queue.
use ref_count.Common.{
  ℕ, ◌<◌, ◌≡◌, ◌⊎◌, refl, ap, ◌∙◌, Bool, true, false, List, [], ◌∷◌, ◌++◌, arith, length, inl, inr,
  Bool-cases, update,
}
use native.Mathlib.Decide.{dec_lt}
use ref_count.Program.{ret, ◌>>◌, returned, later_misses, run}
use ref_count.Program.Laws.{length-later_misses, run->>=, proceed}
use ref_count.Consts.{block_state}
use ref_count.Queue.Ops
use ref_count.Queue.Shape.{Shape}
use ref_count.Queue.Contents.{Holds}
use ref_count.Queue.Push.{push_room, push_full}
use ref_count.RefCount.Memory.{Waiter, Shared, apply}
use ref_count.RefCount.Ops.{FutureRef, is_blocked, raw_state, wake, set_registered}
use ref_count.RefCount.Futures.{Poll, try_register_future, poll_ref}
use ref_count.Solo.Queue.{run-on_queue->>=}

module _ {capacity bits : ℕ} (shape : Shape capacity bits) (queue_fuel : ℕ) where
  -- What the registration of a future with the flag at `address` does to the memory: nothing if the
  -- flag is set; else its waiter is the last of the queue and the flag is set, or, with a full queue,
  -- its task is woken and the flag clear.
  unfoldable pub Registered : (address waker h : ℕ) → List Waiter → Shared → Shared → Type 0
  Registered address waker h ws m m' =
      ((m.registered address ≡ true) × (m' ≡ m))
      ⊎ ((m.registered address ≡ false)
          × Holds capacity bits h (ws ++ ((record { waker = waker; registered = address }) ∷ []))
              m'.waiter_queue
          × (m'.registered ≡ update m.registered address true)
          × (m'.count ≡ m.count)
          × (m'.woken ≡ m.woken))
      ⊎ ((m.registered address ≡ false)
          × (length ws ≡ capacity)
          × (m' ≡ record m {
            registered = update m.registered address false;
            woken = m.woken ++ (waker ∷ []);
          }))

  pub register-Registered :
      (address waker h : ℕ) (ws : List Waiter) (m : Shared) (misses : List Bool)
      → Holds capacity bits h ws m.waiter_queue
      → length misses < queue_fuel
      → (m' : Shared) × (rest : List Bool) × (run apply
            (try_register_future capacity queue_fuel address waker)
            (record { mem = m; misses = misses })
          ≡ (returned tt, record { mem = m'; misses = rest }))
        × Registered address waker h ws m m'
  unfolding try_register_future Registered wake set_registered
  register-Registered address waker h ws m misses holds enough =
      elim (Bool-cases (m.registered address)) [
        | inl known ↦ (m, later_misses misses, rw known refl, inl (known, refl))
        | inr unknown ↦ elim (dec_lt (length ws) capacity) [
          | yes room ↦
              let (q, rest, e, holds', le) =
                push_room shape queue_fuel h ws (record { waker = waker; registered = address })
                  m.waiter_queue (later_misses misses) holds room
                  (omega (arith, length-later_misses misses)) in
              (
                record m { waiter_queue = q; registered = update m.registered address true },
                later_misses rest,
                rw unknown (
                    run-on_queue->>=
                      (Ops.push capacity queue_fuel
                        (record { waker = waker; registered = address }))
                      _ m (later_misses misses) e),
                inr (inl (unknown, holds', refl, refl, refl)),
              )
          | no full ↦
              let (rest, e, le) =
                push_full shape queue_fuel h ws (record { waker = waker; registered = address })
                  m.waiter_queue (later_misses misses) holds (omega (arith, holds.bounded))
                  (omega arith) in
              (
                record m {
                  registered = update m.registered address false;
                  woken = m.woken ++ (waker ∷ []);
                },
                later_misses (later_misses rest),
                rw unknown (
                    run-on_queue->>=
                      (Ops.push capacity queue_fuel
                        (record { waker = waker; registered = address }))
                      _ m (later_misses misses) e),
                inr (inr (unknown, omega (arith, holds.bounded), refl)),
              )
        ]
      ]

  poll-registration :
      (waker : ℕ) (f : FutureRef) (m : Shared) (misses : List Bool)
      → block_state m.count ≡ 1
      → run apply (poll_ref capacity queue_fuel waker f) (record { mem = m; misses = misses })
        ≡ run apply
            (try_register_future capacity queue_fuel f.registered waker >> ret Poll.pending)
            (record { mem = m; misses = later_misses misses })
  unfolding poll_ref is_blocked raw_state
  poll-registration waker f m misses closed = ground (arith, closed)

  -- `poll` of a `FutureRef` by a thread that runs alone while references are blocked returns `Pending`
  -- and leaves the future's waiter in the queue with its flag set, or, when the queue is full, wakes
  -- the task; a future whose flag is set it leaves as it is. The fuel is one round more than the
  -- accesses that may fail spuriously.
  pub poll_ref_registers :
      (waker h : ℕ) (f : FutureRef) (ws : List Waiter) (m : Shared) (misses : List Bool)
      → Holds capacity bits h ws m.waiter_queue
      → block_state m.count ≡ 1
      → length misses < queue_fuel
      → (m' : Shared) × (rest : List Bool) × (run apply
            (poll_ref capacity queue_fuel waker f)
            (record { mem = m; misses = misses })
          ≡ (returned Poll.pending, record { mem = m'; misses = rest }))
        × Registered f.registered waker h ws m m'
  poll_ref_registers waker h f ws m misses holds closed enough =
      let (m', rest, e, r) =
        register-Registered f.registered waker h ws m (later_misses misses) holds
          (omega (arith, length-later_misses misses)) in
      (
        m',
        rest,
        poll-registration waker f m misses closed
            ∙ run->>= apply (try_register_future capacity queue_fuel f.registered waker)
                (λ u. ret Poll.pending) (record { mem = m; misses = later_misses misses })
            ∙ ap (λ end. proceed apply end (λ u. ret Poll.pending)) e,
        r,
      )
