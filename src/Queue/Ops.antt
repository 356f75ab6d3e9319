-- ===== src/Queue/Ops.antt =====
-- The methods of `ArrayQueue` in src/array_queue.rs, each with the accesses of its body in order.
-- A `loop` takes fuel, one unit for each round.
use ref_count.Common.{
  ℕ, zero, suc, ◌+◌, ◌-◌, Bool, true, false, Option, none, some, List, [], ◌∷◌, ltb, ◌==◌,
  if◌then◌else◌,
}
use ref_count.Program.{Program, ret, spinning, undefined, perform, ◌>>=◌, ◌>>◌, swapped, failed}
use ref_count.Backoff
use ref_count.Backoff.{Backoff, Pause}
use ref_count.Queue.Memory.{
  Memory, Access, Response, load_head, load_tail, store_head, store_tail, cas_head, cas_tail,
  load_stamp, store_stamp, take_value, write_value, fence, spin_loop, yield_now,
}
use ref_count.Queue.Stamp.{one_lap, index_of, next_stamp, wrapping_add, wrapping_sub}

-- A method of a queue of `T`s.
abbrev pub Method : Type 0 → Type 0 → Type 0
Method T A = Program (Access T) Response A

-- `Result<(), E>` and `Result<V, E>` with the same type on both sides
pub data Result (A : Type 0) (B : Type 0) : Type 0 where
  ok : A → Result A B
  err : B → Result A B

-- `ArrayQueue::new`; `none` is its panic.
unfoldable pub new : {T : Type 0} → ℕ → Option (Memory T)
new capacity =
    if capacity == 0
    then none
    else some (record { head = 0; tail = 0; stamp = λ i. i; value = λ i. none })

-- `assume_init` of a value that is taken out
abbrev pub assume_init : {T A : Type 0} → Option T → (T → Method T A) → Method T A
assume_init none k = undefined
assume_init (some v) k = k v

-- The waiting of `Backoff::spin` and `Backoff::snooze`.
abbrev pub pause : {T : Type 0} → Pause → Method T (Unit {0})
pause p = do perform (spin_loop p.rounds); if p.at_yield then perform yield_now else ret tt

abbrev pub spin : {T : Type 0} → Backoff → Method T Backoff
spin b = let (p, b') = Backoff.spin b in pause p >> ret b'

abbrev pub snooze : {T : Type 0} → Backoff → Method T Backoff
snooze b = let (p, b') = Backoff.snooze b in pause p >> ret b'

-- The closures that `push` and `force_push` hand to `push_or_else`.
abbrev pub OnFull : Type 0 → Type 0
OnFull T = (value : T) (tail new_tail index : ℕ) → Method T (Result T T)

-- the field `one_lap`
abbrev pub lap : (capacity : ℕ) → ℕ
lap capacity = one_lap capacity

-- `queue_size!`
unfoldable pub queue_size : (capacity head head_idx tail tail_idx : ℕ) → ℕ
queue_size capacity head head_idx tail tail_idx =
    if ltb head_idx tail_idx
    then tail_idx - head_idx
    else if ltb tail_idx head_idx
    then capacity - head_idx + tail_idx
    else if tail == head
    then 0
    else capacity

module _ {T : Type 0} (capacity : ℕ) where
  -- `get_unchecked(index)`
  abbrev pub in_bounds : {A : Type 0} → ℕ → Method T A → Method T A
  in_bounds index k = if ltb index capacity then k else undefined

  unfoldable pub push_loop :
      (fuel : ℕ) → OnFull T → Backoff → (tail : ℕ) → T → Method T (Result (Unit {0}) T)
  push_loop zero f b tail value = spinning
  push_loop (suc fuel) f b tail value =
      let index = index_of (lap capacity) tail in
      let new_tail = next_stamp capacity (lap capacity) tail in
      in_bounds index (do
        stamp ← perform (load_stamp index)
        if tail == stamp
            then (perform (cas_tail tail new_tail) >>= λ r. elim r [
              | swapped ↦ do
                perform (write_value index value)
                perform (store_stamp index (tail + 1))
                ret (ok tt)
              | failed t ↦ (do b' ← spin b; push_loop fuel f b' t value)
            ])
            else if wrapping_add stamp (lap capacity) == tail + 1
            then (perform fence >> f value tail new_tail index >>= λ r. elim r [
              | err e ↦ ret (err e)
              | ok v ↦ (do b' ← spin b; tail' ← perform load_tail; push_loop fuel f b' tail' v)
            ])
            else (do b' ← snooze b; tail' ← perform load_tail; push_loop fuel f b' tail' value))

  unfoldable pub push_or_else : (fuel : ℕ) → T → OnFull T → Method T (Result (Unit {0}) T)
  push_or_else fuel value f = do tail ← perform load_tail; push_loop fuel f Backoff.new tail value

  unfoldable pub when_full : (value : T) (tail new_tail index : ℕ) → Method T (Result T T)
  when_full v tail new_tail index = do
    head ← perform load_head
    if wrapping_add head (lap capacity) == tail then ret (err v) else ret (ok v)

  unfoldable pub push : (fuel : ℕ) → T → Method T (Result (Unit {0}) T)
  push fuel value = push_or_else fuel value when_full

  unfoldable pub replace_oldest : (value : T) (tail new_tail index : ℕ) → Method T (Result T T)
  replace_oldest v tail new_tail index = do
    moved ←
        perform (cas_head (wrapping_sub tail (lap capacity)) (wrapping_sub new_tail (lap capacity)))
    elim moved [
      | swapped ↦ do
        perform (store_tail new_tail)
        old ← perform (take_value index)
        perform (write_value index v)
        assume_init old (λ o. perform (store_stamp index (tail + 1)) >> ret (err o))
      | failed h ↦ ret (ok v)
    ]

  unfoldable pub force_push : (fuel : ℕ) → T → Method T (Option T)
  force_push fuel value = do
    r ← push_or_else fuel value replace_oldest
    elim r [ ok u ↦ ret none | err old ↦ ret (some old) ]

  unfoldable pub pop_loop : (fuel : ℕ) → Backoff → (head : ℕ) → Method T (Option T)
  pop_loop zero b head = spinning
  pop_loop (suc fuel) b head =
      let index = index_of (lap capacity) head in
      in_bounds index (do
        stamp ← perform (load_stamp index)
        if head + 1 == stamp
            then (perform (cas_head head (next_stamp capacity (lap capacity) head)) >>= λ r.
                elim r [
                  | swapped ↦ do
                    msg ← perform (take_value index)
                    assume_init msg (λ v. do
                      perform (store_stamp index (wrapping_add head (lap capacity)))
                      ret (some v))
                  | failed h ↦ (do b' ← spin b; pop_loop fuel b' h)
                ])
            else if stamp == head
            then (do
              perform fence
              tail ← perform load_tail
              if tail == head
                  then ret none
                  else (do b' ← spin b; head' ← perform load_head; pop_loop fuel b' head'))
            else (do b' ← snooze b; head' ← perform load_head; pop_loop fuel b' head'))

  unfoldable pub pop : (fuel : ℕ) → Method T (Option T)
  pop fuel = do head ← perform load_head; pop_loop fuel Backoff.new head

  unfoldable pub is_empty : Method T Bool
  is_empty = do head ← perform load_head; tail ← perform load_tail; ret (tail == head)

  unfoldable pub is_full : Method T Bool
  is_full = do
    tail ← perform load_tail
    head ← perform load_head
    ret (wrapping_add head (lap capacity) == tail)

  unfoldable pub len : (fuel : ℕ) → Method T ℕ
  len zero = spinning
  len (suc fuel) = do
    tail ← perform load_tail
    head ← perform load_head
    again ← perform load_tail
    if again == tail
        then ret (
            queue_size capacity head (index_of (lap capacity) head) tail
              (index_of (lap capacity) tail))
        else len fuel

  -- The rounds of the loop in `Drop::drop`, `left` of them still to go; the result lists the values
  -- that are dropped.
  unfoldable pub drop_loop : (left i head_idx : ℕ) → Method T (List T)
  drop_loop zero i head_idx = ret []
  drop_loop (suc left) i head_idx =
      let index = if ltb (head_idx + i) capacity then head_idx + i else head_idx + i - capacity in
      in_bounds index (do
        v ← perform (take_value index)
        assume_init v (λ x. (do xs ← drop_loop left (i + 1) head_idx; ret (x ∷ xs))))

  unfoldable pub drop_queue : (needs_drop : Bool) → Method T (List T)
  drop_queue false = ret []
  drop_queue true = do
    head ← perform load_head
    tail ← perform load_tail
    let head_idx = index_of (lap capacity) head
    let tail_idx = index_of (lap capacity) tail
    drop_loop (queue_size capacity head head_idx tail tail_idx) 0 head_idx

  -- `IntoIter::next`
  unfoldable pub next : Method T (Option T)
  next = do
    head ← perform load_head
    tail ← perform load_tail
    if head == tail
        then ret none
        else in_bounds (index_of (lap capacity) head) (do
          val ← perform (take_value (index_of (lap capacity) head))
          assume_init val (λ v. do
            perform (store_head (next_stamp capacity (lap capacity) head))
            ret (some v)))
