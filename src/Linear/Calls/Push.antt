-- ===== src/Linear/Calls/Push.antt =====
-- `push_or_else` of src/array_queue.rs keeps to the discipline of Claims.
use ref_count.Common.{
  ℕ, zero, suc, ◌+◌, ◌*◌, ◌%◌, ◌≤◌, ◌≡◌, refl, sym, ◌∙◌, arith, inl, update, ==_iff, ◌==◌,
}
use mathlib.Core.Path.{subst}
use native.Mathlib.Nat.{le_refl}
use ref_count.Backoff
use ref_count.Backoff.{Backoff, Pause}
use ref_count.Program.{Exchange, ret, perform, act, swapped, failed, ◌>>=◌, ◌>>◌}
use ref_count.Queue.Memory.{load_tail, fence, cas_tail, write_value, store_stamp}
use ref_count.Queue.Stamp.{index_of, one_lap, next_stamp, wrapping_add}
use ref_count.Queue.Ops.{Method, Result, ok, err, spin, snooze, push_loop, OnFull}
use ref_count.Queue.Shape.{Shape}
use ref_count.Queue.Position.{stamp_of, index_of-stamp, next_stamp-stamp}
use ref_count.Linear.{Call, Reply}
use ref_count.Linear.Claims.{Claim, Seen, called, done, InRange, Keeps, Appends}
use ref_count.Linear.Calls.Full.{OnFullKeeps}
use ref_count.Linear.Calls.{
  Keeps-if, Keeps-in_bounds, Keeps-pause->>=, free_place, behind_place, index_lt,
}

module _ {T : Type 0} {capacity bits : ℕ} (shape : Shape capacity bits) (v : T) (call : Call T)
    (reply : Result (Unit {0}) T → Reply T) (appends : Appends call v (reply (ok tt))) (seen : Seen)
    (p : ℕ) (fits : InRange capacity bits p) where
  abbrev mine : Claim T
  mine = called call

  -- A compare-exchange that succeeds gives the thread its slot, which it fills.
  filling-Keeps :
      (i : ℕ) (next : Exchange → Method T (Result (Unit {0}) T))
      → i ≡ p % capacity
      → 2 * p ≤ seen.version i
      → ((q : ℕ)
          → InRange capacity bits q
          → Keeps capacity bits
              (record seen { tail_low = q })
              mine
              (next (failed (stamp_of capacity bits q)))
              (λ r k c. c ≡ done (reply r)))
      → next swapped ≡ (
          perform (write_value i v)
          >> perform (store_stamp i (stamp_of capacity bits p + 1))
          >> ret (ok tt))
      → Keeps capacity bits seen mine
          (act
            (cas_tail
              (stamp_of capacity bits p)
              (next_stamp capacity (one_lap capacity) (stamp_of capacity bits p)))
            next)
          (λ r k c. c ≡ done (reply r))
  filling-Keeps i next at_p version lost won = (
    λ q fits_q low_q. lost q fits_q,
    p,
    v,
    call,
    reply (ok tt),
    fits,
    refl,
    appends,
    refl,
    next_stamp-stamp shape p,
    rw (← at_p) version,
    rw won
        (p, at_p, inl (reply (ok tt), refl, (p, v, at_p, inl (reply (ok tt), refl, refl, refl)))),
  )

module _ {T : Type 0} {capacity bits : ℕ} (shape : Shape capacity bits) (v : T) (f : OnFull T)
    (call : Call T) (reply : Result (Unit {0}) T → Reply T)
    (closure : OnFullKeeps capacity bits v f call reply) where
  abbrev pub Pushed : Result (Unit {0}) T → Seen → Claim T → Type 0
  Pushed r seen c = c ≡ done (reply r)

  pub push_loop-Keeps :
      (fuel : ℕ) (b : Backoff) (seen : Seen) (p : ℕ)
      → InRange capacity bits p
      → p ≤ seen.tail_low
      → Keeps capacity bits seen
          (called call)
          (push_loop capacity fuel f b (stamp_of capacity bits p) v)
          Pushed
  unfolding push_loop
  push_loop-Keeps zero b seen p fits low = tt
  push_loop-Keeps (suc fuel) b seen p fits low =
      let s = stamp_of capacity bits p in
      let i = index_of (one_lap capacity) s in
      let mine : Claim T = called call in
      let loop = λ (b' : Backoff) (t : ℕ). push_loop capacity fuel f b' t v in
      let again : Backoff → Method T (Result (Unit {0}) T) = λ b'. perform load_tail >>= loop b' in
      let after : Result T T → Method T (Result (Unit {0}) T) = elim [
        | err e ↦ ret (err e)
        | ok v' ↦ spin b >>= λ b'. perform load_tail >>= λ t. push_loop capacity fuel f b' t v'
      ] in
      let moved : Exchange → Method T (Result (Unit {0}) T) = elim [
        | swapped ↦ perform (write_value i v) >> perform (store_stamp i (s + 1)) >> ret (ok tt)
        | failed t ↦ spin b >>= λ b'. loop b' t
      ] in
      Keeps-in_bounds capacity bits Pushed mine seen i _ (index_lt shape p) (
        index_lt shape p,
        λ q filled same hq le.
            let known : Seen = record seen { version = update seen.version i (2 * q + filled) } in
            let restart : (k : Seen) (b' : Backoff) → Keeps capacity bits k mine (again b') Pushed =
              λ k b' p' fits' low'. (
                mine,
                inl refl,
                push_loop-Keeps fuel b' (record k { tail_low = p' }) p' fits' (le_refl p'),
              ) in
            let loaded = stamp_of capacity bits q + filled in
            Keeps-if capacity bits Pushed mine known (s == loaded) _ _
              (λ hit.
                let here : p ≡ q =
                  free_place shape p q filled fits hq (same ∙ index_of-stamp shape p) le
                    ((==_iff _ _).0 hit) in
                filling-Keeps shape v call reply closure.appends known p fits i moved
                  (index_of-stamp shape p) (ground (arith, here))
                  (λ p' fits'.
                    Keeps-pause->>= capacity bits Pushed mine (record known { tail_low = p' })
                      (Backoff.spin b).0 (Backoff.spin b).1
                      (λ b'. loop b' (stamp_of capacity bits p'))
                      (push_loop-Keeps fuel (Backoff.spin b).1 (record known { tail_low = p' }) p'
                        fits' (le_refl p')))
                  refl)
              (λ miss.
                Keeps-if capacity bits Pushed mine known
                  (wrapping_add loaded (one_lap capacity) == s + 1)
                  (perform fence >> f v s (next_stamp capacity (one_lap capacity) s) i >>= after)
                  (snooze b >>= again)
                  (λ behind.
                    let old : (q + capacity ≡ p) × (filled ≡ 1) =
                      behind_place shape p q filled fits hq (same ∙ index_of-stamp shape p) le
                        ((==_iff _ _).0 behind) in
                    let new : 2 * q + 1 ≤ known.version i = ground (arith, old.1) in
                    closure.keeps Pushed known p q after fits low old.0
                      (subst (λ x. 2 * q + 1 ≤ known.version x) (sym same) new) (λ k e. refl)
                      (λ k.
                        Keeps-pause->>= capacity bits Pushed mine k (Backoff.spin b).0
                          (Backoff.spin b).1 again (restart k (Backoff.spin b).1)))
                  (λ stale.
                    Keeps-pause->>= capacity bits Pushed mine known (Backoff.snooze b).0
                      (Backoff.snooze b).1 again (restart known (Backoff.snooze b).1))),
      )
