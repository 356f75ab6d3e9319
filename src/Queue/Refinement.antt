-- ===== src/Queue/Refinement.antt =====
-- The queue of src/array_queue.rs as a bounded first-in, first-out list: a thread that runs alone
-- gets from any sequence of calls the replies that the list gives.
use native.Mathlib.Decide.{dec_lt}
use ref_count.Common.{
  ℕ, ◌+◌, ◌≤◌, ◌<◌, ◌≡◌, refl, ap, ◌∙◌, Bool, Option, none, some, List, [], ◌∷◌, ◌++◌, arith,
  length, ltb, lt→ltb, not-lt→ltb, if◌then◌else◌,
}
use ref_count.Program.{ret, ◌>>=◌, returned, World, run}
use ref_count.Program.Laws.{run->>=, proceed}
use ref_count.Queue.Memory.{Memory, apply}
use ref_count.Queue.Ops.{Method, Result, ok, err, new, push, force_push, pop}
use ref_count.Queue.Shape.{Shape}
use ref_count.Queue.Contents.{Holds, new-Holds}
use ref_count.Queue.Push.{push_room, push_full}
use ref_count.Queue.ForcePush.{force_push_room, force_push_full}
use ref_count.Queue.Pop.{pop_oldest, pop_empty}

-- A call, and what it returns.
pub data Request (T : Type 0) : Type 0 where
  push_of : T → Request T
  force_push_of : T → Request T
  pop_of : Request T

pub data Reply (T : Type 0) : Type 0 where
  from_push : Result (Unit {0}) T → Reply T
  from_force_push : Option T → Reply T
  from_pop : Option T → Reply T

module _ {T : Type 0} (capacity : ℕ) where
  -- The list's side, oldest value first.
  abbrev pub replace_first : T → List T → Reply T × List T
  replace_first v [] = (from_force_push none, v ∷ [])
  replace_first v (x ∷ items) = (from_force_push (some x), items ++ (v ∷ []))

  abbrev pub serve_list : Request T → List T → Reply T × List T
  serve_list (push_of v) items =
      if ltb (length items) capacity
      then (from_push (ok tt), items ++ (v ∷ []))
      else (from_push (err v), items)
  serve_list (force_push_of v) items =
      if ltb (length items) capacity
      then (from_force_push none, items ++ (v ∷ []))
      else replace_first v items
  serve_list pop_of [] = (from_pop none, [])
  serve_list pop_of (x ∷ items) = (from_pop (some x), items)

  abbrev pub replies : List (Request T) → List T → List (Reply T)
  replies [] items = []
  replies (r ∷ rs) items = let (reply, items') = serve_list r items in reply ∷ replies rs items'

  -- The queue's side.
  abbrev pub serve : (fuel : ℕ) → Request T → Method T (Reply T)
  serve fuel (push_of v) = do r ← push capacity fuel v; ret (from_push r)
  serve fuel (force_push_of v) = do r ← force_push capacity fuel v; ret (from_force_push r)
  serve fuel pop_of = do r ← pop capacity fuel; ret (from_pop r)

  abbrev pub serve_all : (fuel : ℕ) → List (Request T) → Method T (List (Reply T))
  serve_all fuel [] = ret []
  serve_all fuel (r ∷ rs) = do
    reply ← serve fuel r
    others ← serve_all fuel rs
    ret (reply ∷ others)

-- What follows a call whose end is known.
and_then :
    {T A B : Type 0} (p : Method T A) (f : A → Method T B) (w : World (Memory T)) {a : A}
    {w' : World (Memory T)}
    → run apply p w ≡ (returned a, w')
    → run apply (p >>= f) w ≡ run apply (f a) w'
and_then p f w e = run->>= apply p f w ∙ ap (λ end. proceed apply end f) e

module _ {T : Type 0} {capacity bits : ℕ} (shape : Shape capacity bits) where
  serve-serve_list :
      (fuel h : ℕ) (r : Request T) (items : List T) (m : Memory T) (misses : List Bool)
      → Holds capacity bits h items m
      → length misses < fuel
      → (h' : ℕ) × (m' : Memory T) × (rest : List Bool) × (run apply
            (serve capacity fuel r)
            (record { mem = m; misses = misses })
          ≡ (returned (serve_list capacity r items).0, record { mem = m'; misses = rest }))
        × Holds capacity bits h' (serve_list capacity r items).1 m'
        × (length rest ≤ length misses)
  serve-serve_list fuel h (push_of v) items m misses holds enough =
      elim (dec_lt (length items) capacity) [
        | yes room ↦
            let (m', rest, e, holds', le) =
              push_room shape fuel h items v m misses holds room enough in
            rw (lt→ltb (length items) capacity room) (
              h,
              m',
              rest,
              and_then (push capacity fuel v) (λ r. ret (from_push r)) _ e,
              holds',
              le,
            )
        | no full ↦
            let (rest, e, le) =
              push_full shape fuel h items v m misses holds (omega (arith, holds.bounded))
                (omega arith) in
            rw (not-lt→ltb (length items) capacity full)
              (h, m, rest, and_then (push capacity fuel v) (λ r. ret (from_push r)) _ e, holds, le)
      ]
  serve-serve_list fuel h (force_push_of v) items m misses holds enough =
      elim (dec_lt (length items) capacity) [
        | yes room ↦
            let (m', rest, e, holds', le) =
              force_push_room shape fuel h items v m misses holds room enough in
            rw (lt→ltb (length items) capacity room) (
              h,
              m',
              rest,
              and_then (force_push capacity fuel v) (λ r. ret (from_force_push r)) _ e,
              holds',
              le,
            )
        | no full ↦
            rw (not-lt→ltb (length items) capacity full)
              (replacing fuel h v items m misses holds full enough)
      ]
    where
      replacing :
          (fuel h : ℕ) (v : T) (items : List T) (m : Memory T) (misses : List Bool)
          → Holds capacity bits h items m
          → ¬ (length items < capacity)
          → length misses < fuel
          → (h' : ℕ) × (m' : Memory T) × (rest : List Bool) × (run apply
                (serve capacity fuel (force_push_of v))
                (record { mem = m; misses = misses })
              ≡ (returned (replace_first capacity v items).0, record { mem = m'; misses = rest }))
            × Holds capacity bits h' (replace_first capacity v items).1 m'
            × (length rest ≤ length misses)
      replacing fuel h v [] m misses holds full enough = absurd (omega (arith, shape.not_empty))
      replacing fuel h v (x ∷ items) m misses holds full enough =
          let (m', rest, e, holds', le) =
            force_push_full shape fuel h x items v m misses holds (omega (arith, holds.bounded))
              enough in
          (
            h + 1,
            m',
            rest,
            and_then (force_push capacity fuel v) (λ r. ret (from_force_push r)) _ e,
            holds',
            le,
          )
  serve-serve_list fuel h pop_of [] m misses holds enough =
      let (rest, e, le) = pop_empty shape fuel h m misses holds (omega arith) in
      (h, m, rest, and_then (pop capacity fuel) (λ r. ret (from_pop r)) _ e, holds, le)
  serve-serve_list fuel h pop_of (x ∷ items) m misses holds enough =
      let (m', rest, e, holds', le) = pop_oldest shape fuel h x items m misses holds enough in
      (h + 1, m', rest, and_then (pop capacity fuel) (λ r. ret (from_pop r)) _ e, holds', le)

  replies_from :
      (fuel h : ℕ) (rs : List (Request T)) (items : List T) (m : Memory T) (misses : List Bool)
      → Holds capacity bits h items m
      → length misses < fuel
      → (w : World (Memory T)) × (run apply
            (serve_all capacity fuel rs)
            (record { mem = m; misses = misses })
          ≡ (returned (replies capacity rs items), w))
  replies_from fuel h [] items m misses holds enough = (record { mem = m; misses = misses }, refl)
  replies_from fuel h (r ∷ rs) items m misses holds enough =
      let (h', m', rest, e, holds', le) = serve-serve_list fuel h r items m misses holds enough in
      let (w, e') =
        replies_from fuel h' rs (serve_list capacity r items).1 m' rest holds' (omega arith) in
      (
        w,
        and_then (serve capacity fuel r)
              (λ reply. serve_all capacity fuel rs >>= λ others. ret (reply ∷ others)) _ e
            ∙ and_then (serve_all capacity fuel rs)
                (λ others. ret ((serve_list capacity r items).0 ∷ others)) _ e',
      )

  -- A new queue answers any sequence of calls of `push`, `force_push` and `pop` by a thread that runs
  -- alone as a list of at most `capacity` values does, oldest first; each call returns, with fuel for
  -- one round more than the accesses that may fail spuriously in all.
  pub fifo_refinement :
      (fuel : ℕ) (requests : List (Request T)) {m : Memory T} (misses : List Bool)
      → new capacity ≡ some m
      → length misses < fuel
      → (w : World (Memory T)) × (run apply
            (serve_all capacity fuel requests)
            (record { mem = m; misses = misses })
          ≡ (returned (replies capacity requests []), w))
  fifo_refinement fuel requests {m} misses e enough =
      replies_from fuel 0 requests [] m misses (new-Holds capacity bits shape e) enough
