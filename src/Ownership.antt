-- ===== src/Ownership.antt =====
-- Which part of the counter of src/lib.rs each thread accounts for: a discipline that the crate's
-- functions keep whatever the other threads do.
pub mod Laws
pub mod Blocks
pub mod Refs
pub mod Polls
use ref_count.Common.{ℕ, zero, ◌+◌, ◌-◌, ◌%◌, ◌/◌, ◌^◌, ◌≡◌, ◌<◌, ◌≤◌, ◌⊎◌}
use ref_count.Program.{Program, ret, act, spinning, undefined, swapped, failed}
use ref_count.RefCount.Memory.{
  Access, Response, load_count, store_count, fetch_sub_count, cas_count, queue, load_flag,
  store_flag, wake_task, Action,
}

-- What a thread holds: `Ref`s, blocks (`try_block_refs` has returned `true`) and `ExclusiveRef`s. An
-- exclusive reference is a block whose holder has seen no references after blocking.
pub record Holding : Type 0 where
  pub refs : ℕ
  pub blocks : ℕ
  pub exclusives : ℕ

abbrev pub nothing : Holding
nothing = record { refs = 0; blocks = 0; exclusives = 0 }

abbrev pub add_ref : Holding → Holding
add_ref g = record g { refs = g.refs + 1 }

abbrev pub drop_one_ref : Holding → Holding
drop_one_ref g = record g { refs = g.refs - 1 }

abbrev pub add_block : Holding → Holding
add_block g = record g { blocks = g.blocks + 1 }

abbrev pub promote : Holding → Holding
promote g = record g { blocks = g.blocks - 1; exclusives = g.exclusives + 1 }

abbrev pub drop_one_exclusive : Holding → Holding
drop_one_exclusive g = record g { exclusives = g.exclusives - 1 }

-- The word that a thread expects in a compare-exchange has the block bit clear.
abbrev pub IsFree : ℕ → Type 0
IsFree word = (word < 2 ^ 32) × (word % 2 ≡ 0)

-- What a thread that holds `g` may do to the counter, and what it holds after that: a
-- compare-exchange takes one reference (at most one at a time) or the block of an unblocked counter,
-- a subtraction returns a reference, a store returns an exclusive reference, and the holder of a
-- block that reads a count of 0 may go on as the exclusive holder.
abbrev pub Allows : (e : Access) → Holding → (Response e → Holding → Type 0) → Type 0
Allows load_count g Q =
    (v : ℕ) → v < 2 ^ 32 → Q v g ⊎ ((v / 2 ≡ 0) × (0 < g.blocks) × Q v (promote g))
Allows (cas_count c n) g Q =
    IsFree c
    × (((n ≡ (c + 2) % 2 ^ 32) × (g.refs ≡ 0) × Q swapped (add_ref g))
        ⊎ ((n ≡ c + 1) × Q swapped (add_block g)))
    × ((v : ℕ) → v < 2 ^ 32 → Q (failed v) g)
Allows (store_count n) g Q = (n ≡ 0) × (0 < g.exclusives) × Q tt (drop_one_exclusive g)
Allows (fetch_sub_count n) g Q = (n ≡ 2) × (0 < g.refs) × ((v : ℕ) → Q v (drop_one_ref g))
Allows (queue e) g Q = (r : Response (queue e)) → Q r g
Allows (load_flag a) g Q = (r : Response (load_flag a)) → Q r g
Allows (store_flag a b) g Q = Q tt g
Allows (wake_task w) g Q = Q tt g

-- Started by a thread that holds `g`, the program keeps to the rules up to its end, where its result
-- and what the thread then holds satisfy `Q`.
abbrev pub Keeps : {A : Type 0} → Holding → Action A → (A → Holding → Type 0) → Type 0
Keeps g (ret a) Q = Q a g
Keeps g (act e k) Q = Allows e g (λ r g'. Keeps g' (k r) Q)
Keeps g spinning Q = Unit
Keeps g undefined Q = Unit
