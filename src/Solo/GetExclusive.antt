-- ===== src/Solo/GetExclusive.antt =====
-- `get_exclusive_ref` and `block_refs` of src/lib.rs by a thread that runs alone.
use ref_count.Common.{
  ℕ, ◌+◌, ◌^◌, ◌<◌, ◌≡◌, ap, ◌∙◌, Bool, true, false, List, arith, length, ◌≤◌, none, some, inl, inr,
  Bool-cases, update, if◌then◌else◌, ◌==◌,
}
use ref_count.Program.{ret, ◌>>=◌, returned, later_misses, run}
use ref_count.Program.Laws.{length-later_misses}
use ref_count.Consts.{standard_ref_count, block_state, blocked}
use ref_count.Consts.Bits.{standard_ref_count_lem, block_state_lem, blocked_lem}
use ref_count.RefCount.Memory.{Shared, Action, apply}
use ref_count.RefCount.Ops.{
  MaybeFuture, ExclusiveRef, FutureExclusiveRef, FutureBlockedRefs, ready, future, exclusive,
  try_block_refs, block_refs, get_exclusive_ref, no_standard_refs, standard_refs,
  new_future_blocked, weak_try_block,
}
use ref_count.Solo.Attempts.{four_misses, gets_through, masked-even, masked-odd, block_state-cases}
use ref_count.Solo.Blocking.{after_hit}
use ref_count.Solo.BlockingExclusive.{block-hit, block-missed}

-- the accesses of an attempt that fails
abbrev five_later : List Bool → List Bool
five_later misses = later_misses (later_misses (later_misses (later_misses (later_misses misses))))

five_later_le : (misses : List Bool) → length (five_later misses) ≤ length misses
five_later_le misses = omega (
  arith,
  length-later_misses misses,
  length-later_misses (later_misses misses),
  length-later_misses (later_misses (later_misses misses)),
  length-later_misses (later_misses (later_misses (later_misses misses))),
  length-later_misses (later_misses (later_misses (later_misses (later_misses misses)))),
)

block-odd :
    {A : Type 0} (f : Bool → Action A) (m : Shared) (misses : List Bool)
    → m.count < 2 ^ 32
    → block_state m.count ≡ 1
    → run apply (try_block_refs >>= f) (record { mem = m; misses = misses })
      ≡ run apply (f false) (record { mem = m; misses = five_later misses })
unfolding try_block_refs weak_try_block
block-odd f m misses lt closed = ground (arith, masked-odd m.count lt closed)

-- A look at the number of references, with what follows it.
counted :
    {A : Type 0} (f : Bool → Action A) (m : Shared) (misses : List Bool) (clear : Bool)
    → (standard_ref_count m.count == 0) ≡ clear
    → run apply (no_standard_refs >>= f) (record { mem = m; misses = misses })
      ≡ run apply (f clear) (record { mem = m; misses = later_misses misses })
unfolding no_standard_refs standard_refs
counted f m misses clear e =
    ap (λ b. run apply (f b) (record { mem = m; misses = later_misses misses })) e

-- What follows an attempt to block references that succeeds, and one that fails.
pub block-through :
    {A : Type 0} (f : Bool → Action A) (m : Shared) (misses : List Bool)
    → m.count < 2 ^ 32
    → gets_through m misses ≡ true
    → (rest : List Bool) × (run apply (try_block_refs >>= f) (record { mem = m; misses = misses })
        ≡ run apply (f true) (record { mem = record m { count = m.count + 1 }; misses = rest }))
block-through f m misses lt through =
    let open_to_refs : block_state m.count ≡ 0 = ground (arith, through) in
    let hit : four_misses (later_misses misses) ≡ false = ground (arith, through) in
    let word : blocked m.count ≡ m.count + 1 =
      omega (arith, blocked_lem m.count, block_state_lem m.count, open_to_refs) in
    (
      after_hit (later_misses misses),
      rw (← word) (block-hit f m misses (masked-even m.count lt open_to_refs) hit),
    )

pub block-stopped :
    {A : Type 0} (f : Bool → Action A) (m : Shared) (misses : List Bool)
    → m.count < 2 ^ 32
    → gets_through m misses ≡ false
    → (rest : List Bool) × (run apply (try_block_refs >>= f) (record { mem = m; misses = misses })
        ≡ run apply (f false) (record { mem = m; misses = rest }))
      × (length rest ≤ length misses)
block-stopped f m misses lt stopped = elim (block_state-cases m.count) [
  | inr closed ↦ (five_later misses, block-odd f m misses lt closed, five_later_le misses)
  | inl open_to_refs ↦
      let missed : four_misses (later_misses misses) ≡ true =
        ground (arith, stopped, open_to_refs) in
      (
        five_later misses,
        block-missed f m misses (masked-even m.count lt open_to_refs) missed,
        five_later_le misses,
      )
]

-- `block_refs` by a thread that runs alone blocks references exactly if the block bit is clear and not
-- all of the four compare-exchanges fail spuriously; else it returns a future whose flag, at the given
-- address, is off, and changes nothing else.
pub block_refs_alone :
    (address : ℕ) (m : Shared) (misses : List Bool)
    → m.count < 2 ^ 32
    → (rest : List Bool) × (run apply (block_refs address) (record { mem = m; misses = misses }) ≡ (
        if gets_through m misses
        then (returned (ready tt), record { mem = record m { count = m.count + 1 }; misses = rest })
        else (
          returned (future (record { registered = address })),
          record {
            mem = record m { registered = update m.registered address false };
            misses = rest;
          },
        )))
unfolding block_refs new_future_blocked
block_refs_alone address m misses lt =
    let after : Bool → Action (MaybeFuture (Unit {0}) FutureBlockedRefs) = λ mine.
      if mine then ret (ready tt) else (new_future_blocked address >>= λ f. ret (future f)) in
    elim (Bool-cases (gets_through m misses)) [
      | inl through ↦
          let (rest, e) = block-through after m misses lt through in (rest, rw through e)
      | inr stopped ↦
          let (rest, e, le) = block-stopped after m misses lt stopped in
          (later_misses rest, rw stopped e)
    ]

-- `get_exclusive_ref` by a thread that runs alone. If the block bit is set, or all four
-- compare-exchanges fail spuriously, it returns a future that will block references, whose flag is
-- off, and changes nothing else. Otherwise it sets the block bit, and returns an `ExclusiveRef` exactly
-- if no reference is out, else a future that waits for them.
pub get_exclusive_ref_alone :
    (address : ℕ) (m : Shared) (misses : List Bool)
    → m.count < 2 ^ 32
    → (rest : List Bool) × (run apply
          (get_exclusive_ref address)
          (record { mem = m; misses = misses })
        ≡ (if gets_through m misses
            then (
              returned (
                  if standard_ref_count m.count == 0
                  then ready exclusive
                  else future (record { blocked_fut = none })),
              record { mem = record m { count = m.count + 1 }; misses = rest },
            )
            else (
              returned (future (record { blocked_fut = some (record { registered = address }) })),
              record {
                mem = record m { registered = update m.registered address false };
                misses = rest;
              },
            )))
unfolding get_exclusive_ref new_future_blocked
get_exclusive_ref_alone address m misses lt =
    let waiting : Bool → Action (MaybeFuture ExclusiveRef FutureExclusiveRef) = λ clear.
      if clear then ret (ready exclusive) else ret (future (record { blocked_fut = none })) in
    let after : Bool → Action (MaybeFuture ExclusiveRef FutureExclusiveRef) = λ mine.
      if mine
      then (no_standard_refs >>= waiting)
      else (new_future_blocked address >>= λ f. ret (future (record { blocked_fut = some f }))) in
    elim (Bool-cases (gets_through m misses)) [
      | inl through ↦
          let (rest, e) = block-through after m misses lt through in
          let open_to_refs : block_state m.count ≡ 0 = ground (arith, through) in
          let same : standard_ref_count (m.count + 1) ≡ standard_ref_count m.count = omega (
            arith,
            standard_ref_count_lem m.count,
            standard_ref_count_lem (m.count + 1),
            block_state_lem m.count,
            open_to_refs,
          ) in
          let look =
            λ (clear : Bool). counted waiting (record m { count = m.count + 1 }) rest clear in
          elim (Bool-cases (standard_ref_count m.count == 0)) [
            | inl clear ↦ (later_misses rest, rw (through, clear) (e ∙ look true (rw same clear)))
            | inr held ↦ (later_misses rest, rw (through, held) (e ∙ look false (rw same held)))
          ]
      | inr stopped ↦
          let (rest, e, le) = block-stopped after m misses lt stopped in
          (later_misses rest, rw stopped e)
    ]
