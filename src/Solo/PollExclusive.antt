-- ===== src/Solo/PollExclusive.antt =====
-- `poll` of `FutureExclusiveRef` in src/futures.rs by a thread that runs alone, before references are
-- blocked.
use ref_count.Common.{
  ℕ, ◌+◌, ◌^◌, ◌<◌, ◌≡◌, ◌⊎◌, refl, ap, ◌∙◌, Bool, true, false, List, [], ◌∷◌, ◌++◌, arith, length,
  none, some, inl, inr, Bool-cases, if◌then◌else◌, ◌==◌,
}
use ref_count.Program.{ret, ◌>>=◌, returned, later_misses, run}
use ref_count.Program.Laws.{run->>=, proceed}
use ref_count.Consts.{block_state, standard_ref_count}
use ref_count.Queue.Shape.{Shape}
use ref_count.Queue.Contents.{Holds}
use ref_count.RefCount.Memory.{Waiter, Shared, Action, apply}
use ref_count.RefCount.Ops.{
  ExclusiveRef, exclusive, FutureBlockedRefs, FutureExclusiveRef, no_standard_refs, standard_refs,
}
use ref_count.RefCount.Futures.{Poll, poll_blocked, poll_exclusive, poll_unreferenced}
use ref_count.Solo.Attempts.{gets_through}
use ref_count.Solo.PollBlocked.{poll_blocked_alone}
use ref_count.Solo.Registration.{Registered}

module _ {capacity bits : ℕ} (shape : Shape capacity bits) (queue_fuel : ℕ) where
  -- Once references are blocked the poll is ready if none is left, and else wakes its task.
  counted :
      {A : Type 0} (waker : ℕ) (f : Poll ExclusiveRef → Action A) (m : Shared) (misses : List Bool)
      (clear : Bool)
      → (standard_ref_count m.count == 0) ≡ clear
      → (rest : List Bool) × (run apply
            (poll_unreferenced capacity queue_fuel waker >>= f)
            (record { mem = m; misses = misses })
          ≡ run apply (f (if clear then Poll.ready exclusive else Poll.pending)) (record {
            mem = if clear then m else record m { woken = m.woken ++ (waker ∷ []) };
            misses = rest;
          }))
  unfolding poll_unreferenced no_standard_refs standard_refs
  counted waker f m misses true e = (later_misses misses, ground (arith, e))
  counted waker f m misses false e = (later_misses (later_misses misses), ground (arith, e))

  -- The rest of the poll after that of the future that blocks references.
  abbrev after_blocked :
      (waker : ℕ)
      → FutureExclusiveRef
      → Poll (Unit {0})
      → Action (Poll ExclusiveRef × FutureExclusiveRef)
  after_blocked waker f (Poll.ready u) = do
    r ← poll_unreferenced capacity queue_fuel waker
    ret (r, record { blocked_fut = none })
  after_blocked waker f Poll.pending = ret (Poll.pending, f)

  split :
      (waker : ℕ) (b : FutureBlockedRefs) (m : Shared) (misses : List Bool)
      → run apply
          (poll_exclusive capacity queue_fuel waker (record { blocked_fut = some b }))
          (record { mem = m; misses = misses })
        ≡ proceed apply
            (run apply
              (poll_blocked capacity queue_fuel waker b)
              (record { mem = m; misses = misses }))
            (after_blocked waker (record { blocked_fut = some b }))
  unfolding poll_exclusive
  split waker b m misses =
      run->>= apply (poll_blocked capacity queue_fuel waker b)
        (after_blocked waker (record { blocked_fut = some b }))
        (record { mem = m; misses = misses })

  -- The ends of the first polls of a `FutureExclusiveRef` whose `get_exclusive_ref` could not block
  -- references, by a thread that runs alone. If the attempt to block fails, the poll is pending and
  -- ends as that of the future for blocked references, which it keeps. If it succeeds, the poll is
  -- ready exactly if no reference is out, and else wakes its task; the future has then become one that
  -- waits for the references only.
  pub poll_exclusive_alone :
      (waker h : ℕ) (b : FutureBlockedRefs) (ws : List Waiter) (m : Shared) (misses : List Bool)
      → Holds capacity bits h ws m.waiter_queue
      → m.count < 2 ^ 32
      → length misses < queue_fuel
      → (m' : Shared) × (rest : List Bool) × (answer : Poll ExclusiveRef)
        × (left : FutureExclusiveRef) × (run apply
              (poll_exclusive capacity queue_fuel waker (record { blocked_fut = some b }))
              (record { mem = m; misses = misses })
            ≡ (returned (answer, left), record { mem = m'; misses = rest }))
        × (((gets_through m misses ≡ true)
              × (left ≡ record { blocked_fut = none })
              × (answer ≡ (
                  if standard_ref_count (m.count + 1) == 0
                  then Poll.ready exclusive
                  else Poll.pending))
              × (m' ≡ (
                  if standard_ref_count (m.count + 1) == 0
                  then record m { count = m.count + 1 }
                  else record m { count = m.count + 1; woken = m.woken ++ (waker ∷ []) })))
            ⊎ ((gets_through m misses ≡ false)
                × (left ≡ record { blocked_fut = some b })
                × (answer ≡ Poll.pending)
                × (((block_state m.count ≡ 1)
                      × Registered shape queue_fuel b.registered waker h ws m m')
                    ⊎ ((block_state m.count ≡ 0)
                        × (m' ≡ record m { woken = m.woken ++ (waker ∷ []) })))))
  poll_exclusive_alone waker h b ws m misses holds lt enough =
      let (m₁, rest, e, ends) =
        poll_blocked_alone shape queue_fuel waker h b ws m misses holds lt enough in
      let f : FutureExclusiveRef = record { blocked_fut = some b } in
      let first = split waker b m misses in
      let taken : Shared = record m { count = m.count + 1 } in
      let answered : Poll ExclusiveRef → Action (Poll ExclusiveRef × FutureExclusiveRef) =
        λ r. ret (r, record { blocked_fut = none }) in
      elim (Bool-cases (gets_through m misses)) [
        | inl through ↦
            let same : m₁ ≡ taken = elim ends [
              | inl (t, eq) ↦ eq
              | inr (inl (closed, r)) ↦ absurd (ground (arith, through, closed))
              | inr (inr (o, stopped, eq)) ↦ absurd (ground (arith, through, stopped))
            ] in
            let begun =
              first ∙ ap (λ o. proceed apply o (after_blocked waker f)) (rw (through, same) at e) in
            elim (Bool-cases (standard_ref_count (m.count + 1) == 0)) [
              | inl none_out ↦
                  let (rest', c) = counted waker answered taken rest true none_out in
                  (
                    _,
                    rest',
                    _,
                    _,
                    begun ∙ c,
                    inl (through, refl, rw none_out refl, rw none_out refl),
                  )
              | inr out ↦
                  let (rest', c) = counted waker answered taken rest false out in
                  (_, rest', _, _, begun ∙ c, inl (through, refl, rw out refl, rw out refl))
            ]
        | inr stopped ↦
            let begun =
              first ∙ ap (λ o. proceed apply o (after_blocked waker f)) (rw stopped at e) in
            elim ends [
              | inl (through, eq) ↦ absurd (ground (arith, through, stopped))
              | inr (inl (closed, r)) ↦
                  (m₁, rest, Poll.pending, f, begun, inr (stopped, refl, refl, inl (closed, r)))
              | inr (inr (o, s, eq)) ↦
                  (m₁, rest, Poll.pending, f, begun, inr (stopped, refl, refl, inr (o, eq)))
            ]
      ]
