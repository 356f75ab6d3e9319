-- ===== src/System/Public.antt =====
-- Threads that share one `RefCount` of src/lib.rs and call any of its functions, with no condition on
-- what a thread holds: also those that System leaves out.
use ref_count.Common.{ℕ, suc, ◌≡◌, Bool, some, update}
use ref_count.Program.{ret, act, ◌>>=◌, ◌>>◌}
use ref_count.RefCount.Memory.{Shared, Access, Response, Action, apply, new}
use ref_count.RefCount.Ops.{
  try_get_exclusive_ref, unblock_refs, no_refs, standard_refs, is_blocked, is_allowed, state,
}
use ref_count.Ownership.{Holding, nothing}
use ref_count.System.{Call}

-- The public functions of `RefCount`, the drops of `Ref` and `ExclusiveRef`, and the polls of the
-- futures. Those of System.Call need not get what they take there.
pub data PublicCall (max_waiting : ℕ) : Action Holding → Type 0 where
  of_call : {c : Holding} {p : Action Holding} → Call max_waiting c p → PublicCall max_waiting p
  of_try_get_exclusive_ref :
      (queue_fuel wake_fuel : ℕ)
      → PublicCall max_waiting
          (do r ← try_get_exclusive_ref max_waiting queue_fuel wake_fuel; ret nothing)
  of_unblock_refs :
      (queue_fuel wake_fuel : ℕ)
      → PublicCall max_waiting (unblock_refs max_waiting queue_fuel wake_fuel >> ret nothing)
  of_no_refs : PublicCall max_waiting (do b ← no_refs; ret nothing)
  of_standard_refs : PublicCall max_waiting (do n ← standard_refs; ret nothing)
  of_is_blocked : PublicCall max_waiting (do b ← is_blocked; ret nothing)
  of_is_allowed : PublicCall max_waiting (do b ← is_allowed; ret nothing)
  of_state : PublicCall max_waiting (do r ← state; ret nothing)

pub record Sharing : Type 0 where
  pub mem : Shared
  pub calls : ℕ → Action Holding

-- A thread whose call has a result starts another, or one makes an access.
pub data PublicStep (max_waiting : ℕ) (s : Sharing) : Sharing → Type 0 where
  begin :
      (i : ℕ) {h : Holding} {p : Action Holding}
      → s.calls i ≡ ret h
      → PublicCall max_waiting p
      → PublicStep max_waiting s (record s { calls = update s.calls i p })
  access :
      (i : ℕ) (e : Access) {k : Response e → Action Holding} (miss : Bool)
      → s.calls i ≡ act e k
      → PublicStep max_waiting s (record {
        mem = (apply e miss s.mem).1;
        calls = update s.calls i (k (apply e miss s.mem).0);
      })

-- What threads that share a new counter reach in some number of steps.
pub data PublicReach (max_waiting : ℕ) : (steps : ℕ) → Sharing → Type 0 where
  start :
      {m : Shared}
      → new max_waiting ≡ some m
      → PublicReach max_waiting 0 (record { mem = m; calls = λ i. ret nothing })
  later :
      {n : ℕ} {s t : Sharing}
      → PublicReach max_waiting n s
      → PublicStep max_waiting s t
      → PublicReach max_waiting (suc n) t
