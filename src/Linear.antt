-- ===== src/Linear.antt =====
-- Threads that call `push`, `force_push` and `pop` of one `ArrayQueue` of src/array_queue.rs in any order, with their
-- accesses to memory interleaved in any order, and a bounded queue whose calls are atomic. Both have
-- the same events, so that their runs can be compared.
pub mod Claims
pub mod Discipline
pub mod Calls
pub mod Slots
pub mod Fits
pub mod Lag
pub mod Atomically
pub mod Invariant
pub mod Owning
pub mod Moves
pub mod Accesses
pub mod Wins
pub mod Owned
pub mod Replaced
pub mod Progress
pub mod Simulation
pub mod Quiet
pub mod Linearizable
pub mod Watch
pub mod Size
pub mod Advance
pub mod Shown
pub mod Length
pub mod Ends
pub mod Observers
pub mod Race
use ref_count.Common.{
  ℕ, zero, suc, ◌≡◌, Bool, Option, none, some, List, [], ◌∷◌, ◌++◌, ltb, length, update,
  if◌then◌else◌,
}
use ref_count.Program.{ret, act, ◌>>=◌}
use ref_count.Queue.Memory.{Memory, Access, Response, apply}
use ref_count.Queue.Ops.{Method, Result, ok, err, new, push, force_push, pop}

module _ (T : Type 0) where
  pub data Call : Type 0 where
    push_of : T → Call
    force_push_of : T → Call
    pop_of : Call

  pub data Reply : Type 0 where
    from_push : Result (Unit {0}) T → Reply
    from_force_push : Option T → Reply
    from_pop : Option T → Reply

  -- What can be seen of a run: calls and their replies, with the thread that makes them.
  pub data Event : Type 0 where
    called : (thread : ℕ) → Call → Event
    returned : (thread : ℕ) → Reply → Event

  pub data Thread : Type 0 where
    idle : Thread
    running : Method T Reply → Thread

  pub record System : Type 0 where
    pub mem : Memory T
    pub threads : ℕ → Thread

  -- A call of the atomic queue waits, is carried out at one moment, and then has its reply.
  pub data Status : Type 0 where
    idle : Status
    waiting : Call → Status
    answered : Reply → Status

  pub record Atomic : Type 0 where
    pub items : List T
    pub threads : ℕ → Status

module _ {T : Type 0} (capacity : ℕ) where
  abbrev pub serve : (fuel : ℕ) → Call T → Method T (Reply T)
  serve fuel (push_of v) = do r ← push capacity fuel v; ret (from_push r)
  serve fuel (force_push_of v) = do r ← force_push capacity fuel v; ret (from_force_push r)
  serve fuel pop_of = do r ← pop capacity fuel; ret (from_pop r)

  pub data Step (s : System T) : List (Event T) → System T → Type 0 where
    begin :
        (i fuel : ℕ) (call : Call T)
        → s.threads i ≡ Thread.idle
        → Step s
            (called i call ∷ [])
            (record s { threads = update s.threads i (running (serve fuel call)) })
    access :
        (i : ℕ) (e : Access T) {k : Response e → Method T (Reply T)} (miss : Bool)
        → s.threads i ≡ running (act e k)
        → Step s [] (record {
          mem = (apply e miss s.mem).1;
          threads = update s.threads i (running (k (apply e miss s.mem).0));
        })
    finish :
        (i : ℕ) {reply : Reply T}
        → s.threads i ≡ running (ret reply)
        → Step s (returned i reply ∷ []) (record s { threads = update s.threads i Thread.idle })

  -- A run of some number of steps from a new queue, with its events, the latest first.
  pub data Run : (steps : ℕ) → List (Event T) → System T → Type 0 where
    start :
        {m : Memory T}
        → new capacity ≡ some m
        → Run 0 [] (record { mem = m; threads = λ i. Thread.idle })
    later :
        {n : ℕ} {es events : List (Event T)} {s t : System T}
        → Run n es s
        → Step s events t
        → Run (suc n) (events ++ es) t

  -- The value goes to the end of a full list, and the oldest one out.
  abbrev pub displaced : T → List T → Reply T × List T
  displaced v [] = (from_force_push none, v ∷ [])
  displaced v (x ∷ items) = (from_force_push (some x), items ++ (v ∷ []))

  -- The call on a list, oldest value first.
  abbrev pub answer : Call T → List T → Reply T × List T
  answer (push_of v) items =
      if ltb (length items) capacity
      then (from_push (ok tt), items ++ (v ∷ []))
      else (from_push (err v), items)
  answer (force_push_of v) items =
      if ltb (length items) capacity
      then (from_force_push none, items ++ (v ∷ []))
      else displaced v items
  answer pop_of [] = (from_pop none, [])
  answer pop_of (x ∷ items) = (from_pop (some x), items)

  pub data AtomicStep (a : Atomic T) : List (Event T) → Atomic T → Type 0 where
    begin :
        (i : ℕ) (call : Call T)
        → a.threads i ≡ Status.idle
        → AtomicStep a
            (called i call ∷ [])
            (record a { threads = update a.threads i (waiting call) })
    commit :
        (i : ℕ) (call : Call T)
        → a.threads i ≡ waiting call
        → AtomicStep a [] (record {
          items = (answer call a.items).1;
          threads = update a.threads i (answered (answer call a.items).0);
        })
    finish :
        (i : ℕ) (reply : Reply T)
        → a.threads i ≡ answered reply
        → AtomicStep a
            (returned i reply ∷ [])
            (record a { threads = update a.threads i Status.idle })

  pub data AtomicRun : List (Event T) → Atomic T → Type 0 where
    start : AtomicRun [] (record { items = []; threads = λ i. Status.idle })
    later :
        {es events : List (Event T)} {a b : Atomic T}
        → AtomicRun es a
        → AtomicStep a events b
        → AtomicRun (events ++ es) b
