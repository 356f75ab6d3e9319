-- ===== src/Linear/Claims.antt =====
-- The discipline of `push`, `force_push` and `pop` of src/array_queue.rs under any interleaving: what a thread knows
-- of the queue, which slot it owns, and which accesses it may make.
use ref_count.Common.{ℕ, ◌+◌, ◌*◌, ◌%◌, ◌≤◌, ◌<◌, ◌≡◌, ◌⊎◌, none, some, update}
use ref_count.Program.{ret, act, spinning, undefined, swapped, failed}
use ref_count.Queue.Memory.{
  Access, Response, load_head, load_tail, store_tail, cas_head, cas_tail, load_stamp, store_stamp,
  take_value, write_value, fence, spin_loop, yield_now,
}
use ref_count.Queue.Ops.{Method, ok, err}
use ref_count.Queue.Position.{laps, stamp_of}
use ref_count.Linear.{
  Call, push_of, force_push_of, pop_of, Reply, from_push, from_force_push, from_pop, Status,
  waiting, answered,
}

-- How far a `force_push` has come that replaces the oldest value: its slot is claimed, the tail has been
-- advanced, the old value taken out, the new one written.
pub data Stage : Type 0 where
  claimed : Stage
  advanced : Stage
  emptied : Stage
  refilled : Stage

module _ (T : Type 0) where
  -- How far a thread's call has come. After its compare-exchange it owns the slot of a place, until it
  -- stores that slot's stamp.
  pub data Claim : Type 0 where
    idle : Claim
    called : Call T → Claim
    pushing : (place : ℕ) → T → Reply T → Claim
    written : (place : ℕ) → T → Reply T → Claim
    popping : (place : ℕ) → T → Claim
    taken : (place : ℕ) → T → Claim
    replacing : (place : ℕ) (old new : T) → Stage → Claim
    done : Reply T → Claim

-- The call of the atomic queue is carried out with the compare-exchange.
abbrev pub status : {T : Type 0} → Claim T → Status T
status Claim.idle = Status.idle
status (called c) = waiting c
status (pushing p v r) = answered r
status (written p v r) = answered r
status (popping p v) = answered (from_pop (some v))
status (taken p v) = answered (from_pop (some v))
status (replacing p old new stage) = answered (from_force_push (some old))
status (done r) = answered r

-- The value that a call appends, and its reply if there is room.
abbrev pub Appends : {T : Type 0} → Call T → T → Reply T → Type 0
Appends (push_of w) v r = (w ≡ v) × (r ≡ from_push (ok tt))
Appends (force_push_of w) v r = (w ≡ v) × (r ≡ from_force_push none)
Appends pop_of v r = ⊥

-- Lower bounds that stay true: the places that the words of head and tail name, and the version of each slot,
-- which is twice its place, and one more when it is filled.
pub record Seen : Type 0 where
  pub head_low : ℕ
  pub tail_low : ℕ
  pub version : ℕ → ℕ

abbrev pub nothing_seen : Seen
nothing_seen = record { head_low = 0; tail_low = 0; version = λ i. 0 }

module _ (capacity bits : ℕ) where
  -- The places up to two laps on have stamps of their own.
  abbrev pub InRange : ℕ → Type 0
  InRange p = p + capacity + capacity ≤ capacity * laps bits

  module _ {T : Type 0} where
    -- A read of the head shows a push that the queue is full, a read of the tail shows a pop that it
    -- is empty; the call may be carried out then.
    abbrev pub Refuses : (p : ℕ) → Seen → Claim T → Claim T → Type 0
    Refuses p seen c c' =
        (v : T) × (c ≡ called (push_of v))
        × (c' ≡ done (from_push (err v)))
        × (p + capacity ≤ seen.tail_low)

    abbrev pub FindsNone : (p : ℕ) → Seen → Claim T → Claim T → Type 0
    FindsNone p seen c c' =
        (c ≡ called pop_of)
        × (c' ≡ done (from_pop none))
        × (p ≤ seen.head_low)
        × (2 * p ≤ seen.version (p % capacity))

    -- The accesses that a thread may make, and what it knows and owns after them.
    abbrev pub Allows :
        (e : Access T) → Seen → Claim T → (Response e → Seen → Claim T → Type 0) → Type 0
    Allows load_head seen c Q =
        (p : ℕ)
        → InRange p
        → seen.head_low ≤ p
        → (c' : Claim T) × (c' ≡ c ⊎ Refuses p seen c c')
          × Q (stamp_of capacity bits p) (record seen { head_low = p }) c'
    Allows load_tail seen c Q =
        (p : ℕ)
        → InRange p
        → seen.tail_low ≤ p
        → (c' : Claim T) × (c' ≡ c ⊎ FindsNone p seen c c')
          × Q (stamp_of capacity bits p) (record seen { tail_low = p }) c'
    Allows (cas_head s s') seen c Q =
        ((p : ℕ)
          → InRange p
          → seen.head_low ≤ p
          → Q (failed (stamp_of capacity bits p)) (record seen { head_low = p }) c)
        × (p : ℕ) × InRange p
        × (s ≡ stamp_of capacity bits p)
        × (s' ≡ stamp_of capacity bits (p + 1))
        × (2 * p + 1 ≤ seen.version (p % capacity))
        × (((c ≡ called pop_of) × ((v : T) → Q swapped seen (popping p v)))
            ⊎ ((v : T) × (c ≡ called (force_push_of v))
                × (p + capacity ≤ seen.tail_low)
                × ((old : T) → Q swapped seen (replacing p old v claimed))))
    Allows (cas_tail s s') seen c Q =
        ((p : ℕ)
          → InRange p
          → seen.tail_low ≤ p
          → Q (failed (stamp_of capacity bits p)) (record seen { tail_low = p }) c)
        × (p : ℕ) × (v : T) × (call : Call T) × (r : Reply T) × InRange p
        × (c ≡ called call)
        × Appends call v r
        × (s ≡ stamp_of capacity bits p)
        × (s' ≡ stamp_of capacity bits (p + 1))
        × (2 * p ≤ seen.version (p % capacity))
        × Q swapped seen (pushing p v r)
    Allows (load_stamp i) seen c Q =
        (i < capacity)
        × ((p filled : ℕ)
            → p % capacity ≡ i
            → p + capacity < capacity * laps bits
            → filled ≤ 1
            → Q (stamp_of capacity bits p + filled)
                (record seen { version = update seen.version i (2 * p + filled) }) c)
    Allows (store_stamp i s) seen c Q =
        (p : ℕ) × (v : T) × (i ≡ p % capacity)
        × (((r : Reply T) × (c ≡ written p v r)
              × (s ≡ stamp_of capacity bits p + 1)
              × Q tt seen (done r))
            ⊎ ((c ≡ taken p v)
                × (s ≡ stamp_of capacity bits (p + capacity))
                × Q tt seen (done (from_pop (some v))))
            ⊎ ((old : T) × (c ≡ replacing p old v refilled)
                × (s ≡ stamp_of capacity bits (p + capacity) + 1)
                × Q tt seen (done (from_force_push (some old)))))
    Allows (store_tail s) seen c Q =
        (p : ℕ) × (old v : T) × (c ≡ replacing p old v claimed)
        × (s ≡ stamp_of capacity bits (p + capacity + 1))
        × Q tt seen (replacing p old v advanced)
    Allows (take_value i) seen c Q =
        (p : ℕ) × (v : T) × (i ≡ p % capacity)
        × (((c ≡ popping p v) × Q (some v) seen (taken p v))
            ⊎ ((new : T) × (c ≡ replacing p v new advanced)
                × Q (some v) seen (replacing p v new emptied)))
    Allows (write_value i v) seen c Q =
        (p : ℕ) × (i ≡ p % capacity)
        × (((r : Reply T) × (c ≡ pushing p v r) × Q tt seen (written p v r))
            ⊎ ((old : T) × (c ≡ replacing p old v emptied)
                × Q tt seen (replacing p old v refilled)))
    Allows fence seen c Q = Q tt seen c
    Allows (spin_loop n) seen c Q = Q tt seen c
    Allows yield_now seen c Q = Q tt seen c
    Allows _ seen c Q = ⊥

    abbrev pub Keeps :
        {A : Type 0} → Seen → Claim T → Method T A → (A → Seen → Claim T → Type 0) → Type 0
    Keeps seen c (ret a) Q = Q a seen c
    Keeps seen c (act e k) Q = Allows e seen c (λ r seen' c'. Keeps seen' c' (k r) Q)
    Keeps seen c spinning Q = Unit
    Keeps seen c undefined Q = ⊥
