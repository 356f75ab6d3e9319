-- ===== src/System/Waiters/Functions.antt =====
-- The functions of src/lib.rs use the waiter queue by whole calls of `push` and `pop`.
use ref_count.Common.{ℕ, zero, suc, ◌+◌, if◌then◌else◌, inl, Bool, true, false, none, some}
use ref_count.Backoff
use ref_count.Backoff.{Backoff}
use ref_count.Program.{ret, ◌>>=◌, swapped, failed, perform, ◌>>◌}
use ref_count.Queue.Memory as Queue
use ref_count.RefCount.Memory.{Waiter, Action, on_queue}
use ref_count.RefCount.Ops.{
  weak_try_incr, weak_try_block, many_weak_try_incr_refs, set_registered, wake, wake_loop,
  unblock_refs, snooze, standard_refs, no_standard_refs, try_block_refs, block_refs,
  new_future_blocked, new_future_ref, get_exclusive_ref, block_loop, drain_loop,
  blocking_get_exclusive_ref, get_ref, try_get_ref, get_ref_loop, blocking_get_ref, await_no_refs,
  try_get_exclusive_ref,
}
use ref_count.Linear
use ref_count.System.Waiters.{Tracks, Tracks->>=, Tracks-pop->>=}

module _ (capacity : ℕ) where
  -- The program is not inside a call of the queue.
  abbrev pub Free : {A : Type 0} → Action A → Type 0
  Free p = Tracks capacity p Linear.Thread.idle

  pub Free->>= :
      {A B : Type 0} (m : Action A) (f : A → Action B)
      → Free m
      → ((a : A) → Free (f a))
      → Free (m >>= f)
  Free->>= m f h k = Tracks->>= capacity m f Linear.Thread.idle h k

  pub Free-weak_try_incr :
      {A : Type 0} (c n : ℕ) (done : Action A) (rest : (c n : ℕ) → Action A)
      → Free done
      → ((c n : ℕ) → Free (rest c n))
      → Free (weak_try_incr c n done rest)
  unfolding weak_try_incr
  Free-weak_try_incr c n done rest hd hr = elim [ swapped ↦ hd | failed s ↦ hr _ _ ]

  pub Free-many_weak_try_incr_refs :
      {A : Type 0} (c n : ℕ) (done : Action A) (rest : (c n : ℕ) → Action A)
      → Free done
      → ((c n : ℕ) → Free (rest c n))
      → Free (many_weak_try_incr_refs c n done rest)
  unfolding many_weak_try_incr_refs
  Free-many_weak_try_incr_refs c n done rest hd hr = Free-weak_try_incr c n done _ hd λ c n.
      Free-weak_try_incr c n done _ hd
        λ c n. Free-weak_try_incr c n done _ hd λ c n. elim [ swapped ↦ hd | failed s ↦ hr c n ]

  pub Free-weak_try_block :
      (c n : ℕ) (rest : (c n : ℕ) → Action Bool)
      → ((c n : ℕ) → Free (rest c n))
      → Free (weak_try_block c n (ret true) rest)
  unfolding weak_try_block
  Free-weak_try_block c n rest hr = elim [ swapped ↦ tt | failed s ↦ hr _ _ ]

  pub Free-try_block_refs : Free try_block_refs
  unfolding try_block_refs
  Free-try_block_refs = λ v. Free-weak_try_block _ _ _ λ c n.
      Free-weak_try_block c n _
        λ c n. Free-weak_try_block c n _ λ c n. elim [ swapped ↦ tt | failed s ↦ tt ]

  pub Free-snooze : (b : Backoff) → Free (snooze b)
  Free-snooze b = wait (Backoff.snooze b).0.at_yield
    where
      wait :
          (y : Bool)
          → Free (
              on_queue (
                (perform (Queue.spin_loop (Backoff.snooze b).0.rounds)
                  >> (if y then perform Queue.yield_now else ret tt))
                >> ret (Backoff.snooze b).1))
      wait true = inl (tt, λ r. inl (tt, λ r. tt))
      wait false = inl (tt, λ r. tt)

  pub Free-no_standard_refs : Free no_standard_refs
  unfolding no_standard_refs standard_refs
  Free-no_standard_refs = λ v. tt

  pub Free-wake : (w : Waiter) → Free (wake w)
  unfolding wake set_registered
  Free-wake w = λ r. λ r. tt

  pub Free-wake_loop : (queue_fuel fuel : ℕ) → Free (wake_loop capacity queue_fuel fuel)
  unfolding wake_loop
  Free-wake_loop queue_fuel zero = tt
  Free-wake_loop queue_fuel (suc fuel) = Tracks-pop->>= capacity queue_fuel _ (elim [
    | none ↦ tt
    | some w ↦ Free->>= (wake w) _ (Free-wake w) (λ u. Free-wake_loop queue_fuel fuel)
  ])

  pub Free-unblock_refs : (queue_fuel fuel : ℕ) → Free (unblock_refs capacity queue_fuel fuel)
  unfolding unblock_refs
  Free-unblock_refs queue_fuel fuel = λ r. Tracks-pop->>= capacity queue_fuel _ (elim [
    | none ↦ inl (tt, λ r. Free-wake_loop queue_fuel fuel)
    | some w ↦ Free->>= (wake w) _ (Free-wake w) (λ u. Free-wake_loop queue_fuel fuel)
  ])

  pub Free-block_loop : (fuel : ℕ) (b : Backoff) → Free (block_loop fuel b)
  unfolding block_loop
  Free-block_loop zero b = tt
  Free-block_loop (suc fuel) b = Free->>= try_block_refs _ Free-try_block_refs (elim [
    | true ↦ tt
    | false ↦ Free->>= (snooze b) _ (Free-snooze b) (λ b'. Free-block_loop fuel b')
  ])

  pub Free-drain_loop : (fuel : ℕ) (b : Backoff) → Free (drain_loop fuel b)
  unfolding drain_loop
  Free-drain_loop zero b = tt
  Free-drain_loop (suc fuel) b = Free->>= no_standard_refs _ Free-no_standard_refs (elim [
    | true ↦ tt
    | false ↦ Free->>= (snooze b) _ (Free-snooze b) (λ b'. Free-drain_loop fuel b')
  ])

  pub Free-blocking_get_exclusive_ref : (fuel : ℕ) → Free (blocking_get_exclusive_ref fuel)
  unfolding blocking_get_exclusive_ref
  Free-blocking_get_exclusive_ref fuel =
      Free->>= (block_loop fuel Backoff.new) _ (Free-block_loop fuel Backoff.new)
        (λ b. Free->>= (drain_loop fuel b) _ (Free-drain_loop fuel b) (λ u. tt))

  pub Free-get_exclusive_ref : (address : ℕ) → Free (get_exclusive_ref address)
  unfolding get_exclusive_ref new_future_blocked
  Free-get_exclusive_ref address = Free->>= try_block_refs _ Free-try_block_refs (elim [
    | true ↦ Free->>= no_standard_refs _ Free-no_standard_refs (elim [ true ↦ tt | false ↦ tt ])
    | false ↦ λ r. tt
  ])

  pub Free-block_refs : (address : ℕ) → Free (block_refs address)
  unfolding block_refs new_future_blocked
  Free-block_refs address =
      Free->>= try_block_refs _ Free-try_block_refs (elim [ true ↦ tt | false ↦ λ r. tt ])

  pub Free-get_ref_loop : (fuel : ℕ) (b : Backoff) (c n : ℕ) → Free (get_ref_loop fuel b c n)
  unfolding get_ref_loop
  Free-get_ref_loop zero b c n = tt
  Free-get_ref_loop (suc fuel) b c n =
      Free-many_weak_try_incr_refs c n _ _ tt
        λ c n. Free->>= (snooze b) _ (Free-snooze b) (λ b'. Free-get_ref_loop fuel b' c n)

  pub Free-blocking_get_ref : (fuel : ℕ) → Free (blocking_get_ref fuel)
  unfolding blocking_get_ref
  Free-blocking_get_ref fuel = λ v. Free-get_ref_loop fuel Backoff.new _ _

  pub Free-get_ref : (address : ℕ) → Free (get_ref address)
  unfolding get_ref new_future_ref
  Free-get_ref address = λ v. Free-many_weak_try_incr_refs _ _ _ _ tt λ c n. λ r. tt

  pub Free-try_get_ref : Free try_get_ref
  unfolding try_get_ref
  Free-try_get_ref = λ v. Free-many_weak_try_incr_refs _ _ _ _ tt λ c n. tt

  Free-await_no_refs : (queue_fuel left i : ℕ) → Free (await_no_refs capacity queue_fuel left i)
  unfolding await_no_refs
  Free-await_no_refs queue_fuel zero i = tt
  Free-await_no_refs queue_fuel (suc left) i =
      Free->>= no_standard_refs _ Free-no_standard_refs
        (elim [ true ↦ tt | false ↦ inl (tt, λ r. Free-await_no_refs queue_fuel left (i + 1)) ])

  pub Free-try_get_exclusive_ref :
      (queue_fuel fuel : ℕ) → Free (try_get_exclusive_ref capacity queue_fuel fuel)
  unfolding try_get_exclusive_ref
  Free-try_get_exclusive_ref queue_fuel fuel = Free->>= try_block_refs _ Free-try_block_refs (elim [
    | true ↦
        Free->>= (await_no_refs capacity queue_fuel 5 0) _ (Free-await_no_refs queue_fuel 5 0)
          (elim [
            | true ↦ tt
            | false ↦
                Free->>= (unblock_refs capacity queue_fuel fuel) _
                  (Free-unblock_refs queue_fuel fuel) (λ u. tt)
          ])
    | false ↦ tt
  ])
