-- ===== src/Linear/Calls/Serve.antt =====
-- The calls of Linear keep to the discipline of Claims.
use ref_count.Common.{ℕ, ◌≡◌, Option, refl, inl, none, some}
use native.Mathlib.Nat.{le_refl}
use ref_count.Backoff
use ref_count.Backoff.{Backoff, Pause}
use ref_count.Program.{ret, ◌>>=◌}
use ref_count.Queue.Ops.{
  Method, Result, ok, err, OnFull, push_or_else, when_full, replace_oldest, push, force_push,
  pop_loop, pop,
}
use ref_count.Queue.Shape.{Shape}
use ref_count.Queue.Position.{stamp_of}
use ref_count.Linear.{
  Call, push_of, force_push_of, pop_of, Reply, from_push, from_force_push, from_pop, serve,
}
use ref_count.Linear.Claims.{Seen, called, done, Keeps}
use ref_count.Linear.Discipline.{Keeps->>=}
use ref_count.Linear.Calls.Full.{OnFullKeeps, when_full-Keeps, replace_oldest-Keeps}
use ref_count.Linear.Calls.Push.{push_loop-Keeps}
use ref_count.Linear.Calls.Pop.{Popped, pop_loop-Keeps}

module _ {T : Type 0} {capacity bits : ℕ} (shape : Shape capacity bits) (fuel : ℕ) where
  push_or_else-Keeps :
      (v : T) (f : OnFull T) (call : Call T) (reply : Result (Unit {0}) T → Reply T)
      → OnFullKeeps capacity bits v f call reply
      → (seen : Seen)
      → Keeps capacity bits seen
          (called call)
          (push_or_else capacity fuel v f)
          (λ r k c. c ≡ done (reply r))
  unfolding push_or_else
  push_or_else-Keeps v f call reply closure seen = λ p fits low. (
    called call,
    inl refl,
    push_loop-Keeps shape v f call reply closure fuel Backoff.new (record seen { tail_low = p }) p
        fits (le_refl p),
  )

  -- A call that has been carried out returns its reply and owns no slot.
  pub serve-Keeps :
      (call : Call T) (seen : Seen)
      → Keeps capacity bits seen (called call) (serve capacity fuel call) (λ r k c. c ≡ done r)
  unfolding push force_push pop
  serve-Keeps (push_of v) seen =
      Keeps->>= capacity bits seen (called (push_of v))
        (push_or_else capacity fuel v (when_full capacity)) (λ r. ret (from_push r))
        (λ r k c. c ≡ done (from_push r)) (λ r k c. c ≡ done r)
        (push_or_else-Keeps v (when_full capacity) (push_of v) from_push (when_full-Keeps shape v)
          seen)
        (λ r k c e. e)
  serve-Keeps (force_push_of v) seen =
      let mine = called (force_push_of v) in
      let attempt = push_or_else capacity fuel v (replace_oldest capacity) in
      let displaced : Result (Unit {0}) T → Method T (Option T) = elim [
        | ok u ↦ ret none
        | err old ↦ ret (some old)
      ] in
      let reply : Result (Unit {0}) T → Reply T = elim [
        | ok u ↦ from_force_push none
        | err old ↦ from_force_push (some old)
      ] in
      Keeps->>= capacity bits seen mine (attempt >>= displaced) (λ r. ret (from_force_push r))
        (λ r k c. c ≡ done (from_force_push r)) (λ r k c. c ≡ done r)
        (Keeps->>= capacity bits seen mine attempt displaced (λ r k c. c ≡ done (reply r))
          (λ r k c. c ≡ done (from_force_push r))
          (push_or_else-Keeps v (replace_oldest capacity) (force_push_of v) reply
            (replace_oldest-Keeps shape v) seen)
          (elim [ ok u ↦ λ k c e. e | err old ↦ λ k c e. e ]))
        (λ r k c e. e)
  serve-Keeps pop_of seen = λ p fits low. (
    called pop_of,
    inl refl,
    Keeps->>= capacity bits (record seen { head_low = p }) (called pop_of)
        (pop_loop capacity fuel Backoff.new (stamp_of capacity bits p)) (λ r. ret (from_pop r))
        (Popped T shape) (λ r k c. c ≡ done r)
        (pop_loop-Keeps T shape fuel Backoff.new (record seen { head_low = p }) p fits (le_refl p))
        (λ r k c e. e),
  )
