-- ===== src/Ownership/Polls.antt =====
-- The polls of src/futures.rs keep to the discipline of the counter.
use ref_count.Common.{ℕ, ◌≡◌, refl, ◌<◌, Bool, true, false, Option, none, some, inl, arith}
use ref_count.Program.{◌>>=◌}
use ref_count.Queue.Ops
use ref_count.RefCount.Memory.{Action}
use ref_count.RefCount.Ops.{
  Ref, ExclusiveRef, FutureRef, FutureBlockedRefs, FutureExclusiveRef, wake, set_registered,
  is_blocked, raw_state, try_get_ref,
}
use ref_count.RefCount.Futures.{
  Poll, ready, pending, try_register_future, poll_ref, poll_blocked, poll_unreferenced,
  poll_exclusive,
}
use ref_count.Ownership.{Holding, add_ref, add_block, promote, nothing, Keeps}
use ref_count.Ownership.Laws.{Keeps->>=, Keeps-on_queue->>=}
use ref_count.Ownership.Blocks.{Keeps-try_block_refs->>=, Keeps-no_standard_refs->>=}
use ref_count.Ownership.Refs.{Counted, Keeps-try_get_ref}

Keeps-is_blocked->>= :
    {A : Type 0} (g : Holding) (f : Bool → Action A) (Q : A → Holding → Type 0)
    → ((b : Bool) → Keeps g (f b) Q)
    → Keeps g (is_blocked >>= f) Q
unfolding is_blocked raw_state
Keeps-is_blocked->>= g f Q h = λ v lt. inl (h _)

-- Whether a `FutureExclusiveRef` has the block is written in it.
abbrev pub blocks_of : FutureExclusiveRef → ℕ
blocks_of f = elim f.blocked_fut [ none ↦ 1 | some b ↦ 0 ]

module _ (max_waiting queue_fuel : ℕ) where
  Keeps-try_register_future :
      (registered waker : ℕ) (g : Holding)
      → Keeps g (try_register_future max_waiting queue_fuel registered waker) (λ u g'. g' ≡ g)
  unfolding try_register_future wake set_registered
  Keeps-try_register_future registered waker g = elim [
    | true ↦ refl
    | false ↦
        Keeps-on_queue->>= g
          (Ops.push max_waiting queue_fuel (record { waker = waker; registered = registered })) _
          (λ u g'. g' ≡ g) (elim [ Ops.ok u ↦ refl | Ops.err w ↦ refl ])
  ]

  -- A poll of a `FutureRef` that is ready has counted its reference.
  abbrev pub PollCounted : Holding → Poll Ref → Holding → Type 0
  PollCounted g (ready r) g' = g' ≡ add_ref g
  PollCounted g pending g' = g' ≡ g

  pub Keeps-poll_ref :
      (waker : ℕ) (f : FutureRef) (g : Holding)
      → g.refs ≡ 0
      → Keeps g (poll_ref max_waiting queue_fuel waker f) (PollCounted g)
  unfolding poll_ref
  Keeps-poll_ref waker f g h = Keeps-is_blocked->>= g _ (PollCounted g) (elim [
    | true ↦
        Keeps->>= g (try_register_future max_waiting queue_fuel f.registered waker) _
          (λ u g'. g' ≡ g) (PollCounted g) (Keeps-try_register_future f.registered waker g)
          (λ u g' e. e)
    | false ↦
        Keeps->>= g try_get_ref _ (Counted g) (PollCounted g) (Keeps-try_get_ref g h)
          (elim [ some r ↦ λ g' e. e | none ↦ λ g' e. e ])
  ])

  -- A poll of a `FutureBlockedRefs` that is ready has taken the block.
  abbrev pub PollBlocked : Holding → Poll (Unit {0}) → Holding → Type 0
  PollBlocked g (ready u) g' = g' ≡ add_block g
  PollBlocked g pending g' = g' ≡ g

  pub Keeps-poll_blocked :
      (waker : ℕ) (f : FutureBlockedRefs) (g : Holding)
      → Keeps g (poll_blocked max_waiting queue_fuel waker f) (PollBlocked g)
  unfolding poll_blocked
  Keeps-poll_blocked waker f g = Keeps-try_block_refs->>= g _ (PollBlocked g) refl (
      Keeps-is_blocked->>= g _ (PollBlocked g) (elim [
        | true ↦
            Keeps->>= g (try_register_future max_waiting queue_fuel f.registered waker) _
              (λ u g'. g' ≡ g) (PollBlocked g) (Keeps-try_register_future f.registered waker g)
              (λ u g' e. e)
        | false ↦ refl
      ]))

  -- A poll of a future that has the block: ready, it has made the block exclusive.
  abbrev pub PollPromoted : Holding → Poll ExclusiveRef → Holding → Type 0
  PollPromoted g (ready e) g' = g' ≡ promote g
  PollPromoted g pending g' = g' ≡ g

  Keeps-poll_unreferenced :
      (waker : ℕ) (g : Holding)
      → 0 < g.blocks
      → Keeps g (poll_unreferenced max_waiting queue_fuel waker) (PollPromoted g)
  unfolding poll_unreferenced
  Keeps-poll_unreferenced waker g h = Keeps-no_standard_refs->>= g _ (PollPromoted g) h refl refl

  -- What a thread holds that polls such a future, and after the poll.
  abbrev pub Polled : Poll ExclusiveRef × FutureExclusiveRef → Holding → Type 0
  Polled (ready e, f) g' = g' ≡ record { refs = 0; blocks = 0; exclusives = 1 }
  Polled (pending, f) g' = g' ≡ record { refs = 0; blocks = blocks_of f; exclusives = 0 }

  Keeps-poll_exclusive_parts :
      (waker : ℕ) (b : Option FutureBlockedRefs)
      → let f : FutureExclusiveRef = record { blocked_fut = b } in
        Keeps
          (record { refs = 0; blocks = blocks_of f; exclusives = 0 })
          (poll_exclusive max_waiting queue_fuel waker f)
          Polled
  unfolding poll_exclusive
  Keeps-poll_exclusive_parts waker none =
      Keeps->>= held (poll_unreferenced max_waiting queue_fuel waker) _ (PollPromoted held) Polled
        (Keeps-poll_unreferenced waker held (omega arith))
        (elim [ ready e ↦ λ g' e'. e' | pending ↦ λ g' e'. e' ])
    where
      held : Holding
      held = record { refs = 0; blocks = 1; exclusives = 0 }
  Keeps-poll_exclusive_parts waker (some b) =
      Keeps->>= nothing (poll_blocked max_waiting queue_fuel waker b) _ (PollBlocked nothing) Polled
        (Keeps-poll_blocked waker b nothing)
        (elim [
          | ready u ↦ λ g' e. rw e (
              Keeps->>= (add_block nothing) (poll_unreferenced max_waiting queue_fuel waker) _
                (PollPromoted (add_block nothing)) Polled
                (Keeps-poll_unreferenced waker (add_block nothing) (omega arith))
                (elim [ ready x ↦ λ g'' e'. e' | pending ↦ λ g'' e'. e' ]))
          | pending ↦ λ g' e. e
        ])

  -- A poll of a `FutureExclusiveRef` by a thread that holds nothing but what is written in it.
  pub Keeps-poll_exclusive :
      (waker : ℕ) (f : FutureExclusiveRef)
      → Keeps
          (record { refs = 0; blocks = blocks_of f; exclusives = 0 })
          (poll_exclusive max_waiting queue_fuel waker f)
          Polled
  Keeps-poll_exclusive waker f = Keeps-poll_exclusive_parts waker f.blocked_fut
