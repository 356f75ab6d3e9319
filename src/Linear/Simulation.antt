-- ===== src/Linear/Simulation.antt =====
-- The steps of threads in `push`, `force_push` and `pop` of src/array_queue.rs, with those of the atomic
-- queue beside them.
use native.Mathlib.Nat.{mod-eq_of_lt, zero-add}
use mathlib.Core.Path.{subst}
use ref_count.Common.{
  ℕ, suc, ◌+◌, ◌*◌, ◌≤◌, ◌≡◌, ◌⊎◌, refl, sym, ap, ◌∙◌, List, [], ◌++◌, inl, inr, arith, some, none,
}
use ref_count.Queue.Memory.{Memory}
use ref_count.Queue.Ops.{new}
use ref_count.Queue.Shape.{Shape}
use ref_count.Queue.Position.{laps}
use ref_count.Queue.Contents.{new-Holds}
use ref_count.Linear.{
  Event, idle, running, System, Status, waiting, Atomic, serve, Step, begin, access, finish, Run,
  start, later, AtomicStep, AtomicRun,
}
use ref_count.Linear.Calls.Serve.{serve-Keeps}
use ref_count.Linear.Claims.{Claim, Seen, called, done, status, nothing_seen}
use ref_count.Linear.Slots.{free, slot_of}
use ref_count.Linear.Invariant.{Follows, Inv}
use ref_count.Linear.Moves.{agrees-update, thread_move}
use ref_count.Linear.Progress.{access-Inv}

start-Inv :
    {T : Type 0} (capacity bits : ℕ) {m : Memory T}
    → Shape capacity bits
    → new capacity ≡ some m
    → Inv capacity bits nothing_seen 0
        (record { mem = m; threads = λ i. idle })
        (record { items = []; threads = λ i. Status.idle })
start-Inv capacity bits shape e =
    let holds = new-Holds capacity bits shape e in
    record {
      head_place = 0;
      slots = λ i. free i;
      claims = λ j. Claim.idle;
      seen = λ j. nothing_seen;
      head_eq = holds.head_eq;
      lag = none;
      tail_eq = holds.tail_eq;
      lags = record { here = λ p e. absurd (cc); only = λ k p lt e. absurd (cc) };
      bounded = omega arith;
      early = omega arith;
      fits = λ i lt. (
        mod-eq_of_lt lt,
        rw (zero-add i, mod-eq_of_lt lt) at (holds.vacant i (omega arith) lt),
        omega arith,
        omega arith,
      );
      owns = λ j. tt;
      owned = λ k j lt e. absurd (cc);
      below = λ j. record {
        head_le = omega arith;
        tail_le = omega arith;
        version_le = λ i lt. omega arith;
      };
      above = record {
        head_le = omega arith;
        tail_le = omega arith;
        version_le = λ i lt. omega arith;
      };
      follows = λ j. refl;
      agrees = λ j. refl;
    }

module _ {T : Type 0} {capacity bits n : ℕ} {past : Seen} {s : System T} {a : Atomic T}
    (shape : Shape capacity bits) (room : n + capacity + capacity ≤ capacity * laps bits)
    (inv : Inv capacity bits past n s a) where
  open inv use {head_place, slots, claims, seen, owns, below, follows, agrees}

  -- The atomic queue answers an access by at most one step, a call and a reply by the same.
  pub step-Inv :
      {events : List (Event T)} {t : System T}
      → Step capacity s events t
      → (b : Atomic T) × ((b ≡ a) × (events ≡ []) ⊎ AtomicStep capacity a events b)
        × Inv capacity bits past (suc n) t b
  step-Inv (begin i fuel call quiet) =
      let at_rest : claims i ≡ Claim.idle =
        subst (Follows capacity bits (seen i) (claims i)) quiet (follows i) in
      let t = running (serve capacity fuel call) in
      (
        _,
        inr (AtomicStep.begin i call (agrees i ∙ ap status at_rest)),
        thread_move inv i t (called call) (seen i) _
            (agrees-update inv i t (called call) (waiting call) refl) tt
            (ap (slot_of i) (sym at_rest)) (below i) (serve-Keeps shape fuel call (seen i)),
      )
  step-Inv (access i e {k} miss runs) =
      let on = subst (Follows capacity bits (seen i) (claims i)) runs (follows i) in
      let (b, change, next) = access-Inv shape room inv i e miss k on in
      (b, elim change [ inl same ↦ inl (same, refl) | inr step ↦ inr step ], next)
  step-Inv (finish i {reply} runs) =
      let over : claims i ≡ done reply =
        subst (Follows capacity bits (seen i) (claims i)) runs (follows i) in
      (
        _,
        inr (AtomicStep.finish i reply (agrees i ∙ ap status over)),
        thread_move inv i idle Claim.idle (seen i) _
            (agrees-update inv i idle Claim.idle Status.idle refl) tt (ap (slot_of i) (sym over))
            (below i) refl,
      )

-- The atomic queue's run goes on by that.
pub run_on :
    {T : Type 0} {capacity : ℕ} {es events : List (Event T)} {a b : Atomic T}
    → AtomicRun capacity es a
    → (b ≡ a) × (events ≡ []) ⊎ AtomicStep capacity a events b
    → AtomicRun capacity (events ++ es) b
run_on {capacity = capacity} {es = es} {b = b} run (inl (same, silent)) =
    subst (λ ev. AtomicRun capacity (ev ++ es) b) (sym silent)
      (subst (AtomicRun capacity es) (sym same) run)
run_on run (inr move) = AtomicRun.later run move

-- The invariant holds throughout a run, beside a run of the atomic queue with the same events.
pub Run-Inv :
    {T : Type 0} {capacity bits n : ℕ} {es : List (Event T)} {s : System T}
    → Shape capacity bits
    → n + capacity + capacity ≤ capacity * laps bits
    → Run capacity n es s
    → (a : Atomic T) × AtomicRun capacity es a × Inv capacity bits nothing_seen n s a
Run-Inv {capacity} {bits} shape room (start e) =
    (_, AtomicRun.start, start-Inv capacity bits shape e)
Run-Inv {capacity} {bits} shape room (later {n} {es} {events} before step) =
    let (a, atomic, inv) = Run-Inv shape (omega arith) before in
    let (b, change, next) = step-Inv shape (omega arith) inv step in (b, run_on atomic change, next)
