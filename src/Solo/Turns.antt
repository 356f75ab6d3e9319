-- ===== src/Solo/Turns.antt =====
-- `get_exclusive_ref` of src/lib.rs, drops of references and `poll` of `FutureExclusiveRef` of
-- src/futures.rs, with no other thread in between.
use mathlib.Core.Path.{subst}
use ref_count.Common.{
  ℕ, zero, suc, ◌+◌, ◌-◌, ◌*◌, ◌%◌, ◌^◌, ◌≤◌, ◌<◌, ◌≡◌, sym, ap, ◌∙◌, Bool, true, false, List, [],
  ◌∷◌, ◌++◌, arith, none, inl, inr, if◌then◌else◌, ◌==◌, Bool-cases,
}
use ref_count.Program.{ret, ◌>>◌, returned, later_misses, run}
use ref_count.Consts.{standard_ref_count, block_state}
use ref_count.Consts.Bits.{standard_ref_count_lem, block_state_lem}
use ref_count.RefCount.Memory.{Shared, Action, apply}
use ref_count.RefCount.Ops.{
  ref, exclusive, future, drop_ref, get_exclusive_ref, no_standard_refs, standard_refs,
}
use ref_count.RefCount.Futures.{Poll, poll_exclusive, poll_unreferenced}
use ref_count.Solo.Attempts.{four_misses, gets_through}
use ref_count.Solo.GetExclusive.{get_exclusive_ref_alone}

-- `j` drops of a `Ref`
abbrev pub drops : ℕ → Action (Unit {0})
drops zero = ret tt
drops (suc j) = drop_ref ref >> drops j

drops-count :
    (j : ℕ) (m : Shared) (misses : List Bool)
    → 2 * j ≤ m.count
    → m.count < 2 ^ 32
    → (rest : List Bool) × (run apply (drops j) (record { mem = m; misses = misses })
        ≡ (returned tt, record { mem = record m { count = m.count - 2 * j }; misses = rest }))
unfolding drop_ref
drops-count zero m misses le lt =
    let none_less : m.count ≡ m.count - 2 * 0 = omega arith in
    (
      misses,
      ap (λ n. (returned tt, record { mem = record m { count = n }; misses = misses })) none_less,
    )
drops-count (suc j) m misses le lt =
    let less : (m.count + 2 ^ 32 - 2) % 2 ^ 32 ≡ m.count - 2 = omega arith in
    let (rest, e) =
      drops-count j (record m { count = m.count - 2 }) (later_misses misses) (omega arith)
        (omega arith) in
    let fewer : m.count - 2 - 2 * j ≡ m.count - 2 * suc j = omega arith in
    (
      rest,
      subst
          (λ n.
            run apply (drops j)
              (record { mem = record m { count = n }; misses = later_misses misses })
            ≡ (
              returned tt,
              record { mem = record m { count = m.count - 2 * suc j }; misses = rest },
            ))
          (sym less)
          (e
            ∙ ap (λ n. (returned tt, record { mem = record m { count = n }; misses = rest }))
                fewer),
    )

get_exclusive_ref-referenced :
    (address : ℕ) (m : Shared) (misses : List Bool)
    → m.count < 2 ^ 32
    → block_state m.count ≡ 0
    → 0 < standard_ref_count m.count
    → four_misses (later_misses misses) ≡ false
    → (rest : List Bool) × (run apply
          (get_exclusive_ref address)
          (record { mem = m; misses = misses })
        ≡ (
          returned (future (record { blocked_fut = none })),
          record { mem = record m { count = m.count + 1 }; misses = rest },
        ))
get_exclusive_ref-referenced address m misses lt open_to_refs held hit =
    let through : gets_through m misses ≡ true = ground (arith, open_to_refs, hit) in
    let some_left : (standard_ref_count m.count == 0) ≡ false = ground (arith, held) in
    let (rest, e) = get_exclusive_ref_alone address m misses lt in
    (rest, rw (through, some_left) at e)

poll_exclusive-clear :
    (capacity queue_fuel waker : ℕ) (m : Shared) (misses : List Bool)
    → (standard_ref_count m.count == 0) ≡ true
    → run apply
        (poll_exclusive capacity queue_fuel waker (record { blocked_fut = none }))
        (record { mem = m; misses = misses })
      ≡ (
        returned (Poll.ready exclusive, record { blocked_fut = none }),
        record { mem = m; misses = later_misses misses },
      )
unfolding poll_exclusive poll_unreferenced no_standard_refs standard_refs
poll_exclusive-clear capacity queue_fuel waker m misses clear = ground (arith, clear)

poll_exclusive-held :
    (capacity queue_fuel waker : ℕ) (m : Shared) (misses : List Bool)
    → (standard_ref_count m.count == 0) ≡ false
    → run apply
        (poll_exclusive capacity queue_fuel waker (record { blocked_fut = none }))
        (record { mem = m; misses = misses })
      ≡ (
        returned (Poll.pending, record { blocked_fut = none }),
        record {
          mem = record m { woken = m.woken ++ (waker ∷ []) };
          misses = later_misses (later_misses misses);
        },
      )
unfolding poll_exclusive poll_unreferenced no_standard_refs standard_refs
poll_exclusive-held capacity queue_fuel waker m misses held = ground (arith, held)

module _ (capacity queue_fuel waker address : ℕ) where
  polled-after :
      (j : ℕ) (m : Shared) (misses : List Bool)
      → block_state m.count ≡ 0
      → j ≤ standard_ref_count m.count
      → (rest : List Bool) × (run apply
            (poll_exclusive capacity queue_fuel waker (record { blocked_fut = none }))
            (record { mem = record m { count = m.count + 1 - 2 * j }; misses = misses })
          ≡ (
            returned (
              if j == standard_ref_count m.count then Poll.ready exclusive else Poll.pending,
              record { blocked_fut = none },
            ),
            record {
              mem = record m {
                count = m.count + 1 - 2 * j;
                woken =
                    if j == standard_ref_count m.count then m.woken else m.woken ++ (waker ∷ []);
              };
              misses = rest;
            },
          ))
  polled-after j m misses open_to_refs le =
      let left = m.count + 1 - 2 * j in
      let after : Shared = record m { count = left } in
      let count_eq : standard_ref_count left ≡ standard_ref_count m.count - j = omega (
        arith,
        standard_ref_count_lem m.count,
        standard_ref_count_lem left,
        block_state_lem m.count,
        open_to_refs,
      ) in
      elim (Bool-cases (j == standard_ref_count m.count)) [
        | inl all ↦
            let clear : (standard_ref_count left == 0) ≡ true = ground (arith, all, count_eq) in
            (
              later_misses misses,
              rw all (poll_exclusive-clear capacity queue_fuel waker after misses clear),
            )
        | inr some_left ↦
            let held : (standard_ref_count left == 0) ≡ false =
              ground (arith, some_left, count_eq, le) in
            (
              later_misses (later_misses misses),
              rw some_left (poll_exclusive-held capacity queue_fuel waker after misses held),
            )
      ]

  -- `get_exclusive_ref` by a thread that runs alone, while references are out and none is blocked,
  -- blocks references and returns a future, unless all four compare-exchanges fail spuriously. After
  -- `j` of the references have been dropped, a poll of that future is ready exactly if those were all
  -- of them; else it is pending and wakes its task, to be polled again.
  pub exclusive_after_drops :
      (j : ℕ) (m : Shared) (misses : List Bool)
      → m.count < 2 ^ 32
      → block_state m.count ≡ 0
      → 0 < standard_ref_count m.count
      → j ≤ standard_ref_count m.count
      → four_misses (later_misses misses) ≡ false
      → (called dropped polled : List Bool) × (run apply
            (get_exclusive_ref address)
            (record { mem = m; misses = misses })
          ≡ (
            returned (future (record { blocked_fut = none })),
            record { mem = record m { count = m.count + 1 }; misses = called },
          ))
        × (run apply (drops j) (record { mem = record m { count = m.count + 1 }; misses = called })
            ≡ (
              returned tt,
              record { mem = record m { count = m.count + 1 - 2 * j }; misses = dropped },
            ))
        × (run apply
              (poll_exclusive capacity queue_fuel waker (record { blocked_fut = none }))
              (record { mem = record m { count = m.count + 1 - 2 * j }; misses = dropped })
            ≡ (
              returned (
                if j == standard_ref_count m.count then Poll.ready exclusive else Poll.pending,
                record { blocked_fut = none },
              ),
              record {
                mem = record m {
                  count = m.count + 1 - 2 * j;
                  woken =
                      if j == standard_ref_count m.count then m.woken else m.woken ++ (waker ∷ []);
                };
                misses = polled;
              },
            ))
  exclusive_after_drops j m misses lt open_to_refs held le hit =
      let (called, get_eq) =
        get_exclusive_ref-referenced address m misses lt open_to_refs held hit in
      let few : 2 * j ≤ m.count = omega (arith, standard_ref_count_lem m.count) in
      let room : m.count + 1 < 2 ^ 32 = omega (arith, block_state_lem m.count, open_to_refs) in
      let (dropped, drop_eq) =
        drops-count j (record m { count = m.count + 1 }) called (omega arith) room in
      let (polled, poll_eq) = polled-after j m dropped open_to_refs le in
      (called, dropped, polled, get_eq, drop_eq, poll_eq)
