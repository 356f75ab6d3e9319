-- ===== src/Ownership/Blocks.antt =====
-- The functions of src/lib.rs that block references, take exclusive references and return them keep
-- to the discipline of the counter.
use ref_count.Common.{
  ℕ, zero, suc, ◌+◌, ◌^◌, ◌≡◌, refl, ◌<◌, Bool, true, false, none, some, inl, inr, arith,
  Bool-cases, ==_iff, ◌==◌,
}
use ref_count.Backoff
use ref_count.Backoff.{Backoff}
use ref_count.Consts.{masked, blocked, standard_ref_count}
use ref_count.Consts.Bits.{masked_lem, blocked_lem, standard_ref_count_lem}
use ref_count.Program.{ret, ◌>>=◌}
use ref_count.Queue.Ops
use ref_count.RefCount.Memory.{Action}
use ref_count.RefCount.Ops.{
  weak_try_block, try_block_refs, wake, set_registered, wake_loop, unblock_refs, no_standard_refs,
  standard_refs, ExclusiveRef, snooze, new_future_blocked, block_loop, drain_loop,
  blocking_get_exclusive_ref, get_exclusive_ref, block_refs, MaybeFuture, ready, future,
  FutureExclusiveRef, FutureBlockedRefs,
}
use ref_count.Ownership.{Holding, add_block, promote, drop_one_exclusive, IsFree, Keeps}
use ref_count.Ownership.Laws.{Keeps->>=, Keeps-on_queue->>=}

pub masked-IsFree : (v : ℕ) → v < 2 ^ 32 → IsFree (masked v)
masked-IsFree v lt = omega (arith, masked_lem v lt)

blocked-IsFree : (c : ℕ) → IsFree c → blocked c ≡ c + 1
blocked-IsFree c free = omega (arith, blocked_lem c)

-- One attempt to block, and what follows it if it fails.
Keeps-weak_try_block :
    {A : Type 0} (g : Holding) (c n : ℕ) (done : Action A) (rest : (c n : ℕ) → Action A)
    (Q : A → Holding → Type 0)
    → IsFree c
    → n ≡ c + 1
    → Keeps (add_block g) done Q
    → ((c n : ℕ) → IsFree c → n ≡ c + 1 → Keeps g (rest c n) Q)
    → Keeps g (weak_try_block c n done rest) Q
unfolding weak_try_block
Keeps-weak_try_block g c n done rest Q free e hd hr = (
  free,
  inr (e, hd),
  λ v lt. hr (masked v) _ (masked-IsFree v lt) (blocked-IsFree _ (masked-IsFree v lt)),
)

-- `try_block_refs` returns whether it has taken the block.
abbrev pub Blocked : Holding → Bool → Holding → Type 0
Blocked g true g' = g' ≡ add_block g
Blocked g false g' = g' ≡ g

pub Keeps-try_block_refs : (g : Holding) → Keeps g try_block_refs (Blocked g)
unfolding try_block_refs
Keeps-try_block_refs g = λ v lt. inl (
    attempt _ _ _ (masked-IsFree v lt) (blocked-IsFree _ (masked-IsFree v lt)) λ c n f e.
      attempt c n _ f e λ c n f e. attempt c n _ f e λ c n f e. (f, inr (e, refl), λ v lt. refl))
  where
    attempt :
        (c n : ℕ) (rest : (c n : ℕ) → Action Bool)
        → IsFree c
        → n ≡ c + 1
        → ((c n : ℕ) → IsFree c → n ≡ c + 1 → Keeps g (rest c n) (Blocked g))
        → Keeps g (weak_try_block c n (ret true) rest) (Blocked g)
    attempt c n rest f e h = Keeps-weak_try_block g c n (ret true) rest (Blocked g) f e refl h

pub Keeps-try_block_refs->>= :
    {A : Type 0} (g : Holding) (f : Bool → Action A) (Q : A → Holding → Type 0)
    → Keeps (add_block g) (f true) Q
    → Keeps g (f false) Q
    → Keeps g (try_block_refs >>= f) Q
Keeps-try_block_refs->>= g f Q yes_case no_case =
    Keeps->>= g try_block_refs f (Blocked g) Q (Keeps-try_block_refs g)
      (elim [ true ↦ λ g' e. rw e yes_case | false ↦ λ g' e. rw e no_case ])

-- `no_standard_refs`, called by the holder of a block: if it returns `true`, that block is exclusive
-- from then on.
pub Keeps-no_standard_refs->>= :
    {A : Type 0} (g : Holding) (f : Bool → Action A) (Q : A → Holding → Type 0)
    → 0 < g.blocks
    → Keeps (promote g) (f true) Q
    → Keeps g (f false) Q
    → Keeps g (no_standard_refs >>= f) Q
unfolding no_standard_refs standard_refs
Keeps-no_standard_refs->>= g f Q h yes_case no_case = λ v lt.
    elim (Bool-cases (standard_ref_count v == 0)) [
      | inl e ↦ inr (omega (arith, standard_ref_count_lem v, (==_iff _ _).0 e), h, rw e yes_case)
      | inr e ↦ inl (rw e no_case)
    ]

module _ (max_waiting queue_fuel : ℕ) where
  pub Keeps-wake_loop :
      (fuel : ℕ) (g : Holding) (Q : Unit {0} → Holding → Type 0)
      → Q tt g
      → Keeps g (wake_loop max_waiting queue_fuel fuel) Q
  unfolding wake_loop wake set_registered
  Keeps-wake_loop zero g Q h = tt
  Keeps-wake_loop (suc fuel) g Q h =
      Keeps-on_queue->>= g (Ops.pop max_waiting queue_fuel) _ Q
        (elim [ none ↦ h | some w ↦ Keeps-wake_loop fuel g Q h ])

  -- `unblock_refs` gives an exclusive reference back.
  pub Keeps-unblock_refs :
      (fuel : ℕ) (g : Holding) (Q : Unit {0} → Holding → Type 0)
      → 0 < g.exclusives
      → Q tt (drop_one_exclusive g)
      → Keeps g (unblock_refs max_waiting queue_fuel fuel) Q
  unfolding unblock_refs wake set_registered
  Keeps-unblock_refs fuel g Q pos h = (
    refl,
    pos,
    Keeps-on_queue->>= _ (Ops.pop max_waiting queue_fuel) _ Q
        (elim [ none ↦ λ r. Keeps-wake_loop fuel _ Q h | some w ↦ Keeps-wake_loop fuel _ Q h ]),
  )

pub Keeps-snooze->>= :
    {A : Type 0} (b : Backoff) (g : Holding) (f : Backoff → Action A) (Q : A → Holding → Type 0)
    → ((b' : Backoff) → Keeps g (f b') Q)
    → Keeps g (snooze b >>= f) Q
Keeps-snooze->>= b g f Q h = Keeps-on_queue->>= g (Ops.snooze b) f Q h

Keeps-block_loop :
    (fuel : ℕ) (b : Backoff) (g : Holding) → Keeps g (block_loop fuel b) (λ b' g'. g' ≡ add_block g)
unfolding block_loop
Keeps-block_loop zero b g = tt
Keeps-block_loop (suc fuel) b g =
    Keeps-try_block_refs->>= g _ _ refl
      (Keeps-snooze->>= b g _ _ (λ b'. Keeps-block_loop fuel b' g))

Keeps-drain_loop :
    (fuel : ℕ) (b : Backoff) (g : Holding)
    → 0 < g.blocks
    → Keeps g (drain_loop fuel b) (λ u g'. g' ≡ promote g)
unfolding drain_loop
Keeps-drain_loop zero b g h = tt
Keeps-drain_loop (suc fuel) b g h =
    Keeps-no_standard_refs->>= g _ _ h refl
      (Keeps-snooze->>= b g _ _ (λ b'. Keeps-drain_loop fuel b' g h))

-- `blocking_get_exclusive_ref` ends, if it does, with one more exclusive reference.
pub Keeps-blocking_get_exclusive_ref :
    (fuel : ℕ) (g : Holding)
    → Keeps g (blocking_get_exclusive_ref fuel) (λ e g'. g' ≡ promote (add_block g))
unfolding blocking_get_exclusive_ref
Keeps-blocking_get_exclusive_ref fuel g =
    Keeps->>= g (block_loop fuel Backoff.new) _ (λ b g'. g' ≡ add_block g) _
      (Keeps-block_loop fuel Backoff.new g)
      (λ b g' e. rw e (
        Keeps->>= (add_block g) (drain_loop fuel b) _ (λ u g''. g'' ≡ promote (add_block g)) _
          (Keeps-drain_loop fuel b (add_block g) (omega arith)) (λ u g'' e'. e')))

-- A future of `get_exclusive_ref` that has the block holds it until it is polled again.
abbrev pub Acquired : Holding → MaybeFuture ExclusiveRef FutureExclusiveRef → Holding → Type 0
Acquired g (ready e) g' = g' ≡ promote (add_block g)
Acquired g (future f) g' = elim f.blocked_fut [ none ↦ g' ≡ add_block g | some b ↦ g' ≡ g ]

pub Keeps-get_exclusive_ref :
    (address : ℕ) (g : Holding) → Keeps g (get_exclusive_ref address) (Acquired g)
unfolding get_exclusive_ref new_future_blocked
Keeps-get_exclusive_ref address g =
    Keeps-try_block_refs->>= g _ (Acquired g)
      (Keeps-no_standard_refs->>= (add_block g) _ (Acquired g) (omega arith) refl refl) refl

-- `block_refs` that is ready has taken the block.
abbrev pub MaybeBlocked : Holding → MaybeFuture (Unit {0}) FutureBlockedRefs → Holding → Type 0
MaybeBlocked g (ready e) g' = g' ≡ add_block g
MaybeBlocked g (future f) g' = g' ≡ g

pub Keeps-block_refs : (address : ℕ) (g : Holding) → Keeps g (block_refs address) (MaybeBlocked g)
unfolding block_refs new_future_blocked
Keeps-block_refs address g = Keeps-try_block_refs->>= g _ (MaybeBlocked g) refl refl
