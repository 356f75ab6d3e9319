-- ===== src/Solo/Release.antt =====
-- `try_get_exclusive_ref` of src/lib.rs by a thread that runs alone, with no spurious failures.
use native.Mathlib.Decide.{ℕ_discrete}
use ref_count.Common.{
  ◌≤◌, ◌∷◌, ℕ, zero, suc, ◌+◌, ◌^◌, ◌<◌, ◌≡◌, ◌⊎◌, refl, ap, ◌∙◌, Bool, true, false, Option, none,
  some, List, [], arith, inl, inr, ◌==◌, ne→==, length,
}
use ref_count.Program
use ref_count.Program.{◌>>=◌, returned, next_miss, later_misses, run}
use ref_count.Program.Laws.{proceed, run->>=}
use ref_count.Consts.{blocked, block_state, standard_ref_count}
use ref_count.Consts.Bits.{blocked_lem, block_state_lem, standard_ref_count_lem}
use ref_count.Queue.Shape.{Shape}
use ref_count.Queue.Contents.{Holds}
use ref_count.RefCount.Memory.{Waiter, Shared, Action, apply}
use ref_count.RefCount.Ops.{
  ExclusiveRef, exclusive, weak_try_block, try_block_refs, no_standard_refs, standard_refs,
  await_no_refs, try_get_exclusive_ref, unblock_refs,
}
use ref_count.Solo.Attempts.{masked-even, masked-odd, block_state-cases}
use ref_count.Solo.Wake.{Drained, unblock_refs-Drained}

-- `try_block_refs` followed by anything, with the bit clear and with the bit set
block-then :
    {A : Type 0} (f : Bool → Action A) (m : Shared)
    → m.count < 2 ^ 32
    → block_state m.count ≡ 0
    → run apply (try_block_refs >>= f) (record { mem = m; misses = [] })
      ≡ run apply (f true) (record { mem = record m { count = blocked m.count }; misses = [] })
unfolding try_block_refs weak_try_block
block-then f m lt e = ground (arith, masked-even m.count lt e)

no-block-then :
    {A : Type 0} (f : Bool → Action A) (m : Shared)
    → m.count < 2 ^ 32
    → block_state m.count ≡ 1
    → run apply (try_block_refs >>= f) (record { mem = m; misses = [] })
      ≡ run apply (f false) (record { mem = m; misses = [] })
unfolding try_block_refs weak_try_block
no-block-then f m lt e = ground (arith, masked-odd m.count lt e)

none_left : (l : List Bool) → length l ≤ 0 → l ≡ []
none_left [] h = refl
none_left (b ∷ bs) h = absurd (omega arith)

module _ (capacity queue_fuel : ℕ) where
  -- the rounds of waiting, with references and without
  await-referenced :
      {A : Type 0} (f : Bool → Action A) (m : Shared) (left i : ℕ)
      → (standard_ref_count m.count == 0) ≡ false
      → run apply (await_no_refs capacity queue_fuel left i >>= f) (record { mem = m; misses = [] })
        ≡ run apply (f false) (record { mem = m; misses = [] })
  unfolding await_no_refs no_standard_refs standard_refs
  await-referenced f m zero i h = refl
  await-referenced f m (suc left) i h = ground (arith, h, await-referenced f m left (i + 1) h)

  await-unreferenced :
      {A : Type 0} (f : Bool → Action A) (m : Shared) (left i : ℕ)
      → (standard_ref_count m.count == 0) ≡ true
      → run apply
          (await_no_refs capacity queue_fuel (suc left) i >>= f)
          (record { mem = m; misses = [] })
        ≡ run apply (f true) (record { mem = m; misses = [] })
  unfolding await_no_refs no_standard_refs standard_refs
  await-unreferenced f m left i h = ground (arith, h)

  exclusive-blocked :
      (wake_fuel : ℕ) (m : Shared)
      → m.count < 2 ^ 32
      → block_state m.count ≡ 1
      → run apply
          (try_get_exclusive_ref capacity queue_fuel wake_fuel)
          (record { mem = m; misses = [] })
        ≡ (returned none, record { mem = m; misses = [] })
  unfolding try_get_exclusive_ref
  exclusive-blocked wake_fuel m lt e = no-block-then _ m lt e

  exclusive-unreferenced :
      (wake_fuel : ℕ) (m : Shared)
      → m.count ≡ 0
      → run apply
          (try_get_exclusive_ref capacity queue_fuel wake_fuel)
          (record { mem = m; misses = [] })
        ≡ (returned (some exclusive), record { mem = record m { count = 1 }; misses = [] })
  unfolding try_get_exclusive_ref
  exclusive-unreferenced wake_fuel m e =
      let unreferenced : standard_ref_count (blocked m.count) ≡ 0 =
        omega (arith, blocked_lem m.count, e, standard_ref_count_lem (blocked m.count)) in
      block-then _ m (omega (arith, e)) (omega (arith, block_state_lem m.count, e))
      ∙ await-unreferenced _ (record m { count = blocked m.count }) 4 0
          (ap (λ n. n == 0) unreferenced)
      ∙ ap (λ c. (returned (some exclusive), record { mem = record m { count = c }; misses = [] }))
          (omega (arith, e, blocked_lem m.count))

  exclusive-referenced :
      (wake_fuel : ℕ) (m : Shared)
      → m.count < 2 ^ 32
      → block_state m.count ≡ 0
      → 0 < m.count
      → run apply
          (try_get_exclusive_ref capacity queue_fuel wake_fuel)
          (record { mem = m; misses = [] })
        ≡ run apply
            (unblock_refs capacity queue_fuel wake_fuel >>= λ u. Program.ret none)
            (record { mem = record m { count = blocked m.count }; misses = [] })
  unfolding try_get_exclusive_ref
  exclusive-referenced wake_fuel m lt open_to_refs e =
      block-then _ m lt open_to_refs
      ∙ await-referenced _ (record m { count = blocked m.count }) 5 0
          (ne→== (λ none_left. omega (
            arith,
            none_left,
            e,
            block_state_lem m.count,
            blocked_lem m.count,
            standard_ref_count_lem (blocked m.count),
          )))

module _ {capacity bits : ℕ} (shape : Shape capacity bits) (queue_fuel : ℕ) where
  exclusive-lost :
      (wake_fuel h : ℕ) (ws : List Waiter) (m : Shared)
      → m.count < 2 ^ 32
      → block_state m.count ≡ 0
      → 0 < m.count
      → Holds capacity bits h ws m.waiter_queue
      → 0 < queue_fuel
      → length ws < wake_fuel
      → (m' : Shared) × (run apply
            (try_get_exclusive_ref capacity queue_fuel wake_fuel)
            (record { mem = m; misses = [] })
          ≡ (returned none, record { mem = m'; misses = [] }))
        × Drained capacity bits ws (record m { count = 0 }) m'
  exclusive-lost wake_fuel h ws m lt open_to_refs counted holds queue_room wake_room =
      let (m', rest, e, d, le) =
        unblock_refs-Drained shape queue_fuel wake_fuel h ws (record m { count = blocked m.count })
          [] holds queue_room wake_room in
      (
        m',
        exclusive-referenced capacity queue_fuel wake_fuel m lt open_to_refs counted
            ∙ run->>= apply (unblock_refs capacity queue_fuel wake_fuel) _ _
            ∙ ap (λ end. proceed apply end (λ u. Program.ret none)) e
            ∙ ap (λ l. (returned none, record { mem = m'; misses = l })) (none_left rest le),
        d,
      )

  -- `try_get_exclusive_ref` by a thread that runs alone, with no spurious failures, on a queue that
  -- holds the waiters `ws`, returns. With the block bit set it returns `None` and changes nothing;
  -- from a word of 0 it returns an `ExclusiveRef` and only sets the block bit; with the bit clear and
  -- references outstanding it returns `None`, and has woken all waiters and set the word to 0.
  pub try_get_exclusive_ref_alone :
      (wake_fuel h : ℕ) (ws : List Waiter) (m : Shared)
      → m.count < 2 ^ 32
      → Holds capacity bits h ws m.waiter_queue
      → 0 < queue_fuel
      → length ws < wake_fuel
      → (got : Option ExclusiveRef) × (m' : Shared) × (run apply
            (try_get_exclusive_ref capacity queue_fuel wake_fuel)
            (record { mem = m; misses = [] })
          ≡ (returned got, record { mem = m'; misses = [] }))
        × (((block_state m.count ≡ 1) × (got ≡ none) × (m' ≡ m))
            ⊎ ((m.count ≡ 0) × (got ≡ some exclusive) × (m' ≡ record m { count = 1 }))
            ⊎ ((block_state m.count ≡ 0)
                × (0 < standard_ref_count m.count)
                × (got ≡ none)
                × Drained capacity bits ws (record m { count = 0 }) m'))
  try_get_exclusive_ref_alone wake_fuel h ws m lt holds queue_room wake_room =
      elim (block_state-cases m.count) [
        | inr closed ↦ (
          none,
          m,
          exclusive-blocked capacity queue_fuel wake_fuel m lt closed,
          inl (closed, refl, refl),
        )
        | inl open_to_refs ↦ elim (ℕ_discrete m.count 0) [
          | yes e ↦ (
            some exclusive,
            record m { count = 1 },
            exclusive-unreferenced capacity queue_fuel wake_fuel m e,
            inr (inl (e, refl, refl)),
          )
          | no ne ↦
              let (m', e, d) =
                exclusive-lost wake_fuel h ws m lt open_to_refs (omega arith) holds queue_room
                  wake_room in
              (
                none,
                m',
                e,
                inr (
                    inr (
                      open_to_refs,
                      omega (arith, block_state_lem m.count, standard_ref_count_lem m.count),
                      refl,
                      d,
                    )),
              )
        ]
      ]

  -- A call of `try_get_exclusive_ref` that fails because of outstanding references forgets them: the
  -- next call by the same thread alone returns an `ExclusiveRef`, whatever their number was.
  pub try_get_exclusive_ref_forgets :
      (wake_fuel h : ℕ) (ws : List Waiter) (m : Shared)
      → m.count < 2 ^ 32
      → block_state m.count ≡ 0
      → 0 < standard_ref_count m.count
      → Holds capacity bits h ws m.waiter_queue
      → 0 < queue_fuel
      → length ws < wake_fuel
      → (m' m'' : Shared) × (run apply
            (try_get_exclusive_ref capacity queue_fuel wake_fuel)
            (record { mem = m; misses = [] })
          ≡ (returned none, record { mem = m'; misses = [] }))
        × (run apply
              (try_get_exclusive_ref capacity queue_fuel wake_fuel)
              (record { mem = m'; misses = [] })
            ≡ (returned (some exclusive), record { mem = m''; misses = [] }))
        × (standard_ref_count m''.count ≡ 0)
  try_get_exclusive_ref_forgets wake_fuel h ws m lt open_to_refs referenced holds queue_room
        wake_room =
      let (m', e, d) =
        exclusive-lost wake_fuel h ws m lt open_to_refs
          (omega (arith, standard_ref_count_lem m.count)) holds queue_room wake_room in
      (
        m',
        record m' { count = 1 },
        e,
        exclusive-unreferenced capacity queue_fuel wake_fuel m' d.count_eq,
        standard_ref_count_lem 1,
      )
