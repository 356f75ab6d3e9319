-- ===== src/Linear/Calls/Pop.antt =====
-- `pop` of src/array_queue.rs keeps to the discipline of Claims.
use ref_count.Common.{
  ℕ, zero, suc, ◌+◌, ◌*◌, ◌%◌, ◌≤◌, ◌≡◌, refl, sym, ◌∙◌, true, Option, none, some, arith, inl, inr,
  update, ==_iff, ◌==◌, ==_refl, if◌then◌else◌,
}
use mathlib.Core.Path.{subst}
use native.Mathlib.Nat.{le_refl}
use native.Mathlib.Decide.{ℕ_discrete}
use ref_count.Backoff
use ref_count.Backoff.{Backoff, Pause}
use ref_count.Program.{Exchange, ret, perform, act, swapped, failed, ◌>>=◌, ◌>>◌}
use ref_count.Queue.Memory.{load_head, load_tail, fence, cas_head, store_stamp, take_value}
use ref_count.Queue.Stamp.{index_of, one_lap, next_stamp, wrapping_add}
use ref_count.Queue.Ops.{Method, spin, snooze, pop_loop, assume_init}
use ref_count.Queue.Shape.{Shape}
use ref_count.Queue.Position.{stamp_of, index_of-stamp, next_stamp-stamp, stamp-add_lap}
use ref_count.Queue.Distinct.{same_place}
use ref_count.Linear.{pop_of, from_pop}
use ref_count.Linear.Claims.{Claim, Seen, called, done, InRange, Keeps}
use ref_count.Linear.Calls.{
  Keeps-if, Keeps-in_bounds, Keeps-pause->>=, free_place, filled_place, index_lt,
}

module _ {T : Type 0} {capacity bits : ℕ} (shape : Shape capacity bits) (seen : Seen) (p : ℕ)
    (fits : InRange capacity bits p) where
  abbrev mine : Claim T
  mine = called pop_of

  -- A read of the tail shows whether the queue is empty.
  find_none-Keeps :
      (again : Method T (Option T))
      → p ≤ seen.head_low
      → 2 * p ≤ seen.version (p % capacity)
      → ((k : Seen) → Keeps capacity bits k mine again (λ r k c. c ≡ done (from_pop r)))
      → Keeps capacity bits seen mine
          (perform load_tail >>= λ t. if t == stamp_of capacity bits p then ret none else again)
          (λ r k c. c ≡ done (from_pop r))
  find_none-Keeps again low new other t fits_t low_t =
      let known : Seen = record seen { tail_low = t } in
      let s = stamp_of capacity bits p in
      let Popped : Option T → Seen → Claim T → Type 0 = λ r k c. c ≡ done (from_pop r) in
      let test = stamp_of capacity bits t == s in
      elim (ℕ_discrete t p) [
        | yes e ↦
            let empty : test ≡ true = rw e (==_refl s) in
            (
              done (from_pop none),
              inr (refl, refl, omega arith, rw e new),
              Keeps-if capacity bits Popped (done (from_pop none)) known test (ret none) again
                  (λ t. refl) (λ f. absurd (ground (arith, empty, f))),
            )
        | no ne ↦ (
          mine,
          inl refl,
          Keeps-if capacity bits Popped mine known test (ret none) again
              (λ same_tail. absurd (
                ne (
                  same_place shape t p (omega (arith, shape.not_empty))
                    (omega (arith, shape.not_empty)) ((==_iff _ _).0 same_tail))))
              (λ f. other known),
        )
      ]

  -- A compare-exchange that succeeds gives the thread its slot, which it empties.
  emptying-Keeps :
      (i : ℕ) (next : Exchange → Method T (Option T))
      → i ≡ p % capacity
      → 2 * p + 1 ≤ seen.version i
      → ((q : ℕ)
          → InRange capacity bits q
          → Keeps capacity bits
              (record seen { head_low = q })
              mine
              (next (failed (stamp_of capacity bits q)))
              (λ r k c. c ≡ done (from_pop r)))
      → next swapped ≡ (
          perform (take_value i) >>= λ o. assume_init o (λ v.
            perform (store_stamp i (wrapping_add (stamp_of capacity bits p) (one_lap capacity)))
            >> ret (some v)))
      → Keeps capacity bits seen mine
          (act
            (cas_head
              (stamp_of capacity bits p)
              (next_stamp capacity (one_lap capacity) (stamp_of capacity bits p)))
            next)
          (λ r k c. c ≡ done (from_pop r))
  emptying-Keeps i next at_p version lost won = (
    λ q fits_q low_q. lost q fits_q,
    p,
    fits,
    refl,
    next_stamp-stamp shape p,
    rw (← at_p) version,
    inl (
      refl,
      λ v.
          rw won
            (p, v, at_p, inl (refl, (p, v, at_p, inr (inl (refl, stamp-add_lap shape p, refl))))),
    ),
  )

module _ (T : Type 0) {capacity bits : ℕ} (shape : Shape capacity bits) where
  abbrev pub Popped : Option T → Seen → Claim T → Type 0
  Popped r seen c = c ≡ done (from_pop r)

  pub pop_loop-Keeps :
      (fuel : ℕ) (b : Backoff) (seen : Seen) (p : ℕ)
      → InRange capacity bits p
      → p ≤ seen.head_low
      → Keeps capacity bits seen
          (called pop_of)
          (pop_loop capacity fuel b (stamp_of capacity bits p))
          Popped
  unfolding pop_loop
  pop_loop-Keeps zero b seen p fits low = tt
  pop_loop-Keeps (suc fuel) b seen p fits low =
      let s = stamp_of capacity bits p in
      let i = index_of (one_lap capacity) s in
      let mine : Claim T = called pop_of in
      let loop : Backoff → ℕ → Method T (Option T) = λ b' h. pop_loop capacity fuel b' h in
      let again : Backoff → Method T (Option T) = λ b'. perform load_head >>= loop b' in
      let moved : Exchange → Method T (Option T) = elim [
        | swapped ↦ perform (take_value i) >>= λ o.
            assume_init o
              (λ v. perform (store_stamp i (wrapping_add s (one_lap capacity))) >> ret (some v))
        | failed t ↦ spin b >>= λ b'. loop b' t
      ] in
      Keeps-in_bounds capacity bits Popped mine seen i _ (index_lt shape p) (
        index_lt shape p,
        λ q filled same hq le.
            let known : Seen = record seen { version = update seen.version i (2 * q + filled) } in
            let restart : (k : Seen) (b' : Backoff) → Keeps capacity bits k mine (again b') Popped =
              λ k b' p' fits' low'. (
                mine,
                inl refl,
                pop_loop-Keeps fuel b' (record k { head_low = p' }) p' fits' (le_refl p'),
              ) in
            let loaded = stamp_of capacity bits q + filled in
            Keeps-if capacity bits Popped mine known (s + 1 == loaded) _ _
              (λ hit.
                let here =
                  filled_place shape p q filled fits hq (same ∙ index_of-stamp shape p) le
                    ((==_iff _ _).0 hit) in
                emptying-Keeps shape known p fits i moved (index_of-stamp shape p)
                  (ground (arith, here))
                  (λ p' fits'.
                    Keeps-pause->>= capacity bits Popped mine (record known { head_low = p' })
                      (Backoff.spin b).0 (Backoff.spin b).1
                      (λ b'. loop b' (stamp_of capacity bits p'))
                      (pop_loop-Keeps fuel (Backoff.spin b).1 (record known { head_low = p' }) p'
                        fits' (le_refl p')))
                  refl)
              (λ miss.
                Keeps-if capacity bits Popped mine known (loaded == s)
                  (perform fence >> perform load_tail >>= λ t.
                    if t == s then ret none else (spin b >>= again))
                  (snooze b >>= again)
                  (λ free.
                    let here : p ≡ q =
                      free_place shape p q filled fits hq (same ∙ index_of-stamp shape p) le
                        (sym ((==_iff _ _).0 free)) in
                    let new : 2 * p ≤ known.version i = ground (arith, here) in
                    find_none-Keeps shape known p fits (spin b >>= again) low
                      (subst (λ x. 2 * p ≤ known.version x) (index_of-stamp shape p) new)
                      (λ k.
                        Keeps-pause->>= capacity bits Popped mine k (Backoff.spin b).0
                          (Backoff.spin b).1 again (restart k (Backoff.spin b).1)))
                  (λ stale.
                    Keeps-pause->>= capacity bits Popped mine known (Backoff.snooze b).0
                      (Backoff.snooze b).1 again (restart known (Backoff.snooze b).1))),
      )
