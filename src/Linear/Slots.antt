-- ===== src/Linear/Slots.antt =====
-- The slots of the queue of src/array_queue.rs while threads are inside its methods.
use ref_count.Common.{
  ℕ, ◌+◌, ◌-◌, ◌*◌, ◌%◌, ◌≤◌, ◌<◌, ◌≡◌, Bool, true, false, Option, none, some, List, length,
  get_elem?,
}
use ref_count.Queue.Position.{stamp_of}
use ref_count.Linear.Claims.{
  Claim, pushing, written, popping, taken, replacing, Stage, claimed, advanced, refilled, Seen,
}

-- What a slot is used for: it is free for the place that comes next, owned by the thread that pushes
-- at a place, filled with the value of a place, owned by the thread that pops there,
-- or owned by the thread that replaces its value by that of the place one lap on.
pub data Slot (T : Type 0) : Type 0 where
  free : (place : ℕ) → Slot T
  filling : (place thread : ℕ) → T → (wrote : Bool) → Slot T
  filled : (place : ℕ) → T → Slot T
  emptying : (place thread : ℕ) → T → (took : Bool) → Slot T
  swapping : (place thread : ℕ) (old new : T) → Stage → Slot T

module _ {T : Type 0} where
  abbrev pub version_of : Slot T → ℕ
  version_of (free p) = 2 * p
  version_of (filling p j v w) = 2 * p
  version_of (filled p v) = 2 * p + 1
  version_of (emptying p j v w) = 2 * p + 1
  version_of (swapping p j old v stage) = 2 * p + 1

  abbrev pub owner : Slot T → Option ℕ
  owner (filling p j v w) = some j
  owner (emptying p j v w) = some j
  owner (swapping p j old v stage) = some j
  owner _ = none

  abbrev pub place_in : Slot T → ℕ
  place_in (free p) = p
  place_in (filling p j v w) = p
  place_in (filled p v) = p
  place_in (emptying p j v w) = p
  place_in (swapping p j old v stage) = p

  abbrev pub slot_of : (thread : ℕ) → Claim T → Option (Slot T)
  slot_of j (pushing p v r) = some (filling p j v false)
  slot_of j (written p v r) = some (filling p j v true)
  slot_of j (popping p v) = some (emptying p j v false)
  slot_of j (taken p v) = some (emptying p j v true)
  slot_of j (replacing p old v stage) = some (swapping p j old v stage)
  slot_of j _ = none

  -- The slot that a thread's claim gives it.
  abbrev pub Owns : (capacity : ℕ) → (ℕ → Slot T) → (thread : ℕ) → Claim T → Type 0
  Owns capacity slots j (pushing p v r) = slots (p % capacity) ≡ filling p j v false
  Owns capacity slots j (written p v r) = slots (p % capacity) ≡ filling p j v true
  Owns capacity slots j (popping p v) = slots (p % capacity) ≡ emptying p j v false
  Owns capacity slots j (taken p v) = slots (p % capacity) ≡ emptying p j v true
  Owns capacity slots j (replacing p old v stage) = slots (p % capacity) ≡ swapping p j old v stage
  Owns capacity slots j _ = Unit

  -- The value in a slot where one replaces another.
  abbrev pub Contains : Stage → (old new : T) → Option T → Type 0
  Contains claimed old v value = value ≡ some old
  Contains advanced old v value = value ≡ some old
  Contains Stage.emptied old v value = Unit
  Contains refilled old v value = value ≡ some v

  -- The slot's two fields, for a queue with its head at place `h` that holds `items`.
  abbrev pub Fits : (capacity bits h : ℕ) → List T → (index stamp : ℕ) → Option T → Slot T → Type 0
  Fits capacity bits h items i stamp value (free p) =
      (p % capacity ≡ i)
      × (stamp ≡ stamp_of capacity bits p)
      × (h + length items ≤ p)
      × (p < h + capacity)
  Fits capacity bits h items i stamp value (filling p j v w) =
      (p % capacity ≡ i)
      × (stamp ≡ stamp_of capacity bits p)
      × (h ≤ p)
      × (p < h + capacity)
      × (get_elem? items (p - h) ≡ some v)
      × (w ≡ true → value ≡ some v)
  Fits capacity bits h items i stamp value (filled p v) =
      (p % capacity ≡ i)
      × (stamp ≡ stamp_of capacity bits p + 1)
      × (h ≤ p)
      × (p < h + capacity)
      × (get_elem? items (p - h) ≡ some v)
      × (value ≡ some v)
  Fits capacity bits h items i stamp value (emptying p j v w) =
      (p % capacity ≡ i)
      × (stamp ≡ stamp_of capacity bits p + 1)
      × (p < h)
      × (h + length items ≤ p + capacity)
      × (w ≡ false → value ≡ some v)
  Fits capacity bits h items i stamp value (swapping p j old v stage) =
      (p % capacity ≡ i)
      × (stamp ≡ stamp_of capacity bits p + 1)
      × (p < h)
      × (h ≤ p + capacity)
      × (get_elem? items (p + capacity - h) ≡ some v)
      × Contains stage old v value

  -- What a thread has seen is still below the state.
  pub record Below (capacity h tail : ℕ) (slots : ℕ → Slot T) (seen : Seen) : Type 0 where
    pub head_le : seen.head_low ≤ h
    pub tail_le : seen.tail_low ≤ tail
    pub version_le : (i : ℕ) → i < capacity → seen.version i ≤ version_of (slots i)
