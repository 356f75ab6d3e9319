-- ===== src/Solo/PollBlocked.antt =====
-- `poll` of `FutureBlockedRefs` in src/futures.rs by a thread that runs alone.
use ref_count.Common.{
  ℕ, ◌+◌, ◌^◌, ◌<◌, ◌≡◌, ◌⊎◌, refl, ap, ◌∙◌, Bool, true, false, List, [], ◌∷◌, ◌++◌, arith, length,
  inl, inr, Bool-cases, if◌then◌else◌,
}
use ref_count.Program.{ret, perform, ◌>>=◌, ◌>>◌, returned, later_misses, run}
use ref_count.Program.Laws.{length-later_misses, run->>=, proceed}
use ref_count.Consts.{block_state}
use ref_count.Queue.Shape.{Shape}
use ref_count.Queue.Contents.{Holds}
use ref_count.RefCount.Memory.{Waiter, Shared, Action, apply, wake_task}
use ref_count.RefCount.Ops.{FutureBlockedRefs, is_blocked, raw_state}
use ref_count.RefCount.Futures.{Poll, poll_blocked, try_register_future}
use ref_count.Solo.Attempts.{gets_through, block_state-cases}
use ref_count.Solo.GetExclusive.{block-through, block-stopped}
use ref_count.Solo.Registration.{Registered, register-Registered}

module _ {capacity bits : ℕ} (shape : Shape capacity bits) (queue_fuel : ℕ) where
  -- The rest of the poll after an attempt.
  abbrev after_attempt : (waker : ℕ) → FutureBlockedRefs → Bool → Action (Poll (Unit {0}))
  after_attempt waker f mine = if mine then ret (Poll.ready tt) else (do
    held ← is_blocked
    if held
        then try_register_future capacity queue_fuel f.registered waker
        else perform (wake_task waker)
    ret Poll.pending)

  looked_closed :
      (waker : ℕ) (f : FutureBlockedRefs) (m : Shared) (misses : List Bool)
      → block_state m.count ≡ 1
      → run apply (after_attempt waker f false) (record { mem = m; misses = misses })
        ≡ run apply
            (try_register_future capacity queue_fuel f.registered waker >> ret Poll.pending)
            (record { mem = m; misses = later_misses misses })
  unfolding is_blocked raw_state
  looked_closed waker f m misses closed = ground (arith, closed)

  looked_open :
      (waker : ℕ) (f : FutureBlockedRefs) (m : Shared) (misses : List Bool)
      → block_state m.count ≡ 0
      → run apply (after_attempt waker f false) (record { mem = m; misses = misses }) ≡ (
        returned Poll.pending,
        record {
          mem = record m { woken = m.woken ++ (waker ∷ []) };
          misses = later_misses (later_misses misses);
        },
      )
  unfolding is_blocked raw_state
  looked_open waker f m misses open_to_refs = ground (arith, open_to_refs)

  -- The ends of `poll` of a `FutureBlockedRefs` by a thread that runs alone. It is ready, with the
  -- block bit set, exactly if the bit was clear and not all four compare-exchanges failed spuriously.
  -- Otherwise it is pending: with the bit set before, the waiter is registered as by `poll` of a
  -- `FutureRef`; else the task is woken to try again.
  pub poll_blocked_alone :
      (waker h : ℕ) (f : FutureBlockedRefs) (ws : List Waiter) (m : Shared) (misses : List Bool)
      → Holds capacity bits h ws m.waiter_queue
      → m.count < 2 ^ 32
      → length misses < queue_fuel
      → (m' : Shared) × (rest : List Bool) × (run apply
            (poll_blocked capacity queue_fuel waker f)
            (record { mem = m; misses = misses })
          ≡ (
            returned (if gets_through m misses then Poll.ready tt else Poll.pending),
            record { mem = m'; misses = rest },
          ))
        × (((gets_through m misses ≡ true) × (m' ≡ record m { count = m.count + 1 }))
            ⊎ ((block_state m.count ≡ 1) × Registered shape queue_fuel f.registered waker h ws m m')
            ⊎ ((block_state m.count ≡ 0)
                × (gets_through m misses ≡ false)
                × (m' ≡ record m { woken = m.woken ++ (waker ∷ []) })))
  unfolding poll_blocked
  poll_blocked_alone waker h f ws m misses holds lt enough =
      elim (Bool-cases (gets_through m misses)) [
        | inl through ↦
            let (rest, e) = block-through (after_attempt waker f) m misses lt through in
            (record m { count = m.count + 1 }, rest, rw through e, inl (through, refl))
        | inr stopped ↦
            let (rest, e, le) = block-stopped (after_attempt waker f) m misses lt stopped in
            elim (block_state-cases m.count) [
              | inl open_to_refs ↦ (
                record m { woken = m.woken ++ (waker ∷ []) },
                later_misses (later_misses rest),
                rw stopped (e ∙ looked_open waker f m rest open_to_refs),
                inr (inr (open_to_refs, stopped, refl)),
              )
              | inr closed ↦
                  let (m', left, e', r) =
                    register-Registered shape queue_fuel f.registered waker h ws m
                      (later_misses rest) holds (omega (arith, length-later_misses rest)) in
                  (
                    m',
                    left,
                    rw stopped (
                        e
                        ∙ looked_closed waker f m rest closed
                        ∙ run->>= apply (try_register_future capacity queue_fuel f.registered waker)
                            (λ u. ret Poll.pending) (record { mem = m; misses = later_misses rest })
                        ∙ ap (λ end. proceed apply end (λ u. ret Poll.pending)) e'),
                    inr (inl (closed, r)),
                  )
            ]
      ]
