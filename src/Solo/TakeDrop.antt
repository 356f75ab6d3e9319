-- ===== src/Solo/TakeDrop.antt =====
-- `try_get_ref` of src/lib.rs and the drop of its `Ref`, with no other thread in between.
use ref_count.Common.{
  ◌+◌, ◌-◌, ◌%◌, ◌^◌, ◌<◌, ◌≡◌, refl, ◌∙◌, Bool, true, false, List, arith, Option, none, some,
  if◌then◌else◌,
}
use ref_count.Program.{Outcome, ret, ◌>>=◌, returned, World, later_misses, run}
use ref_count.Program.Laws.{run->>=, proceed}
use ref_count.RefCount.Memory.{Shared, Action, apply}
use ref_count.RefCount.Ops.{Ref, ref, try_get_ref, drop_ref}
use ref_count.Solo.Attempts.{gets_through, try_get_ref_alone}

-- the drop of an `Option<Ref>`
abbrev pub drop_got : Option Ref → Action (Unit {0})
drop_got none = ret tt
drop_got (some r) = drop_ref r

dropped :
    (got : Bool) (m : Shared) (o : Outcome (Option Ref)) (w : World Shared)
    → m.count + 2 < 2 ^ 32
    → o ≡ returned (if got then some ref else none)
    → w.mem ≡ (if got then record m { count = m.count + 2 } else m)
    → (rest : List Bool) × (proceed apply (o, w) drop_got
        ≡ (returned tt, record { mem = m; misses = rest }))
unfolding drop_ref
dropped true m o w room e mem_eq =
    let back : (m.count + 2 + 2 ^ 32 - 2) % 2 ^ 32 ≡ m.count = omega arith in
    (later_misses w.misses, rw (e, mem_eq, back) refl)
dropped false m o w room e mem_eq = (w.misses, rw (e, ← mem_eq) refl)

-- `try_get_ref` and the drop of what it returns, if it does, leave the counter and all else as they
-- were, whichever compare-exchanges fail spuriously. The word has room for one more reference.
pub ref_taken_and_dropped :
    (m : Shared) (misses : List Bool)
    → m.count + 2 < 2 ^ 32
    → (rest : List Bool) × (run apply
          (try_get_ref >>= drop_got)
          (record { mem = m; misses = misses })
        ≡ (returned tt, record { mem = m; misses = rest }))
ref_taken_and_dropped m misses room =
    let w : World Shared = record { mem = m; misses = misses } in
    let end = run apply try_get_ref w in
    let (got, mem_eq) = try_get_ref_alone m misses room in
    let (rest, e) = dropped (gets_through m misses) m end.0 end.1 room got mem_eq in
    (rest, run->>= apply try_get_ref drop_got w ∙ e)
