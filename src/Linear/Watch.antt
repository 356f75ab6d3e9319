-- ===== src/Linear/Watch.antt =====
-- A thread that calls `len`, `is_empty` or `is_full` of src/array_queue.rs while the threads of Linear go
-- on. These methods only load the head and the tail, so that they change no one else's run.
use ref_count.Common.{ℕ, suc, ◌+◌, ◌==◌, Bool, ◌≡◌, ◌⊎◌, some, List, ◌++◌, length}
use ref_count.Program.{ret, act, spinning, undefined}
use ref_count.Queue.Memory.{load_head, load_tail}
use ref_count.Queue.Ops.{Method, len, is_empty, is_full}
use ref_count.Linear.{Event, System, Step, Atomic, AtomicStep, AtomicRun, answered, from_force_push}

-- The methods that only look, with their results.
pub data Observer : Type 0 where
  len_of : (fuel : ℕ) → Observer
  is_empty_of : Observer
  is_full_of : Observer

abbrev pub Answer : Observer → Type 0
Answer (len_of fuel) = ℕ
Answer is_empty_of = Bool
Answer is_full_of = Bool

abbrev pub look : {T : Type 0} (capacity : ℕ) (o : Observer) → Method T (Answer o)
look capacity (len_of fuel) = len capacity fuel
look capacity is_empty_of = is_empty capacity
look capacity is_full_of = is_full capacity

-- The right answer about a queue of `n` values.
abbrev pub right : (capacity : ℕ) (o : Observer) → ℕ → Answer o
right capacity (len_of fuel) n = n
right capacity is_empty_of n = n == 0
right capacity is_full_of n = n == capacity

-- What a run has come to after some number of steps.
pub record Point (T : Type 0) : Type 0 where
  pub steps : ℕ
  pub events : List (Event T)
  pub system : System T

module _ {T : Type 0} (capacity : ℕ) where
  -- A run goes on.
  pub data Reaches (p : Point T) : Point T → Type 0 where
    here : Reaches p p
    further :
        {q : Point T} {events : List (Event T)} {s : System T}
        → Reaches p q
        → Step capacity q.system events s
        → Reaches p (record { steps = suc q.steps; events = events ++ q.events; system = s })

  pub data AtomicReaches (es : List (Event T)) (a : Atomic T)
      : List (Event T) → Atomic T → Type 0 where
    here : AtomicReaches es a es a
    further :
        {fs events : List (Event T)} {b c : Atomic T}
        → AtomicReaches es a fs b
        → AtomicStep capacity b events c
        → AtomicReaches es a (events ++ fs) c

  -- The method, begun at the point `p`, has returned `r` at the point `q`. The other threads may make
  -- any steps before each of its loads, and before it returns.
  abbrev pub Observed : {A : Type 0} → Point T → Method T A → A → Point T → Type 0
  Observed p (ret a) r q = (a ≡ r) × Reaches p q
  Observed p (act load_head k) r q =
      (t : Point T) × Reaches p t × Observed t (k t.system.mem.head) r q
  Observed p (act load_tail k) r q =
      (t : Point T) × Reaches p t × Observed t (k t.system.mem.tail) r q
  Observed p (act _ k) r q = ⊥
  Observed p spinning r q = ⊥
  Observed p undefined r q = ⊥

  -- The number of values that the head and the tail show. While a `force_push` that has taken out the
  -- oldest value has not returned, it may be one less than the queue holds.
  abbrev pub Visible : Atomic T → ℕ → Type 0
  Visible a n =
      (length a.items ≡ n)
      ⊎ ((length a.items ≡ n + 1)
          × (j : ℕ) × (old : T) × (a.threads j ≡ answered (from_force_push (some old))))

  -- Between two points the queue has shown `n` values: the atomic queue has a run with the same events
  -- up to that moment, and one that goes on from there.
  pub record During (p q : Point T) (n : ℕ) : Type 0 where
    pub moment : Point T
    pub after : Reaches p moment
    pub before : Reaches moment q
    pub atomic : Atomic T
    pub run : AtomicRun capacity moment.events atomic
    pub visible : Visible atomic n
    pub end : Atomic T
    pub goes_on : AtomicReaches moment.events atomic q.events end
