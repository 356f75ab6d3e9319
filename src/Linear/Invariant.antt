-- ===== src/Linear/Invariant.antt =====
-- What holds of a queue of src/array_queue.rs that threads share and of the atomic queue beside it.
use ref_count.Common.{ℕ, ◌+◌, ◌≤◌, ◌<◌, ◌≡◌, Option, some, length}
use ref_count.Queue.Position.{stamp_of}
use ref_count.Linear.{Thread, running, System, Atomic}
use ref_count.Linear.Claims.{Claim, Seen, Keeps, done, status}
use ref_count.Linear.Lag.{word_place, Lags}
use ref_count.Linear.Slots.{Slot, Owns, Fits, Below, owner, slot_of}

module _ {T : Type 0} (capacity bits : ℕ) where
  -- A thread's call keeps to the discipline.
  abbrev pub Follows : Seen → Claim T → Thread T → Type 0
  Follows seen c Thread.idle = c ≡ Claim.idle
  Follows seen c (running p) = Keeps capacity bits seen c p (λ r seen' c'. c' ≡ done r)

  -- After `steps` steps: the places of head and tail, the lag of the tail's word, the slots, and each thread's claim.
  pub record Inv (past : Seen) (steps : ℕ) (s : System T) (a : Atomic T) : Type 0 where
    pub head_place : ℕ
    pub slots : ℕ → Slot T
    pub claims : ℕ → Claim T
    pub seen : ℕ → Seen
    pub head_eq : s.mem.head ≡ stamp_of capacity bits head_place
    pub lag : Option ℕ
    pub tail_eq :
        s.mem.tail ≡ stamp_of capacity bits (word_place capacity (head_place + length a.items) lag)
    pub lags : Lags capacity (head_place + length a.items) slots lag
    pub bounded : length a.items ≤ capacity
    pub early : head_place + length a.items ≤ steps
    pub fits :
        (i : ℕ)
        → i < capacity
        → Fits capacity bits head_place a.items i (s.mem.stamp i) (s.mem.value i) (slots i)
    pub owns : (j : ℕ) → Owns capacity slots j (claims j)
    pub owned :
        (k j : ℕ) → k < capacity → owner (slots k) ≡ some j → slot_of j (claims j) ≡ some (slots k)
    pub below :
        (j : ℕ)
        → Below capacity head_place
            (word_place capacity (head_place + length a.items) lag)
            slots
            (seen j)
    pub above :
        Below capacity head_place (word_place capacity (head_place + length a.items) lag) slots past
    pub follows : (j : ℕ) → Follows (seen j) (claims j) (s.threads j)
    pub agrees : (j : ℕ) → a.threads j ≡ status (claims j)
