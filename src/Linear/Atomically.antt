-- ===== src/Linear/Atomically.antt =====
-- The moments at which the atomic queue carries a call out.
use ref_count.Common.{
  ℕ, ◌<◌, ◌≡◌, refl, none, some, List, [], ◌∷◌, ◌++◌, length, update, lt→ltb, not-lt→ltb, ap, sym,
  ◌∙◌,
}
use mathlib.Core.Path.{subst}
use ref_count.Queue.Ops.{err}
use ref_count.Linear.Claims.{Appends}
use ref_count.Linear.{
  Call, push_of, force_push_of, pop_of, displaced, Reply, from_push, from_force_push, from_pop,
  Atomic, waiting, answered, AtomicStep, commit, answer,
}

-- The atomic queue after the reply of thread `i`, with what it holds then.
abbrev pub replied : {T : Type 0} (a : Atomic T) (i : ℕ) → List T → Reply T → Atomic T
replied a i items r = record { items = items; threads = update a.threads i (answered r) }

module _ {T : Type 0} (capacity : ℕ) (a : Atomic T) (i : ℕ) where
  commit_as :
      (call : Call T) (r : Reply T × List T)
      → answer capacity call a.items ≡ r
      → a.threads i ≡ waiting call
      → AtomicStep capacity a [] (replied a i r.1 r.0)
  commit_as call r e h =
      subst (λ r. AtomicStep capacity a [] (replied a i r.1 r.0)) e (commit i call h)

  pub commit_push :
      (call : Call T) (v : T) (r : Reply T)
      → Appends call v r
      → length a.items < capacity
      → a.threads i ≡ waiting call
      → AtomicStep capacity a [] (replied a i (a.items ++ (v ∷ [])) r)
  commit_push (push_of w) v r (same, reply) room =
      commit_as (push_of w) (r, a.items ++ (v ∷ []))
        (rw (lt→ltb (length a.items) capacity room, same, reply) refl)
  commit_push (force_push_of w) v r (same, reply) room =
      commit_as (force_push_of w) (r, a.items ++ (v ∷ []))
        (rw (lt→ltb (length a.items) capacity room, same, reply) refl)
  commit_push pop_of v r h room = absurd h

  pub commit_displaced :
      (v x : T) (items : List T)
      → a.items ≡ x ∷ items
      → ¬ (length a.items < capacity)
      → a.threads i ≡ waiting (force_push_of v)
      → AtomicStep capacity a [] (replied a i (items ++ (v ∷ [])) (from_force_push (some x)))
  commit_displaced v x items e full =
      commit_as (force_push_of v) (from_force_push (some x), items ++ (v ∷ []))
        (rw (not-lt→ltb (length a.items) capacity full) (ap (displaced capacity v) e))

  pub commit_full :
      (v : T)
      → ¬ (length a.items < capacity)
      → a.threads i ≡ waiting (push_of v)
      → AtomicStep capacity a [] (replied a i a.items (from_push (err v)))
  commit_full v full =
      commit_as (push_of v) (from_push (err v), a.items)
        (rw (not-lt→ltb (length a.items) capacity full) refl)

  pub commit_pop :
      (x : T) (items : List T)
      → a.items ≡ x ∷ items
      → a.threads i ≡ waiting pop_of
      → AtomicStep capacity a [] (replied a i items (from_pop (some x)))
  commit_pop x items e = commit_as pop_of (from_pop (some x), items) (ap (answer capacity pop_of) e)

  pub commit_none :
      a.items ≡ []
      → a.threads i ≡ waiting pop_of
      → AtomicStep capacity a [] (replied a i a.items (from_pop none))
  commit_none e =
      commit_as pop_of (from_pop none, a.items)
        (ap (answer capacity pop_of) e ∙ ap (λ l. (from_pop none, l)) (sym e))
