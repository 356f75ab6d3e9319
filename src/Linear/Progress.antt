-- ===== src/Linear/Progress.antt =====
-- Every access of a thread that keeps to the discipline keeps the invariant.
use ref_count.Common.{
  ℕ, none, some, ◌+◌, ◌*◌, ◌%◌, ◌≤◌, ◌≡◌, ◌⊎◌, refl, sym, ap, ◌∙◌, length, update, inl, inr, arith,
  Bool-cases, ◌==◌, ==_iff, Bool, true, false,
}
use mathlib.Core.Path.{subst}
use native.Mathlib.Nat.{le_trans, mod-lt}
use ref_count.Program.{act, Exchange, swapped, failed, exchange}
use ref_count.Queue.Memory.{
  Memory, Access, Response, apply, load_head, load_tail, store_head, store_tail, cas_head, cas_tail,
  load_stamp, store_stamp, take_value, write_value, fence, spin_loop, yield_now,
}
use ref_count.Queue.Ops.{Method}
use ref_count.Queue.Shape.{Shape}
use ref_count.Queue.Position.{laps, stamp_of}
use ref_count.Queue.Distinct.{same_place}
use ref_count.Linear.{Reply, running, System, Atomic}
use ref_count.Linear.Claims.{Claim, Seen, done, Keeps, claimed}
use ref_count.Linear.Invariant.{Inv}
use ref_count.Linear.Accesses.{
  After, load_head-Inv, load_tail-Inv, wait-Inv, load_stamp-Inv, lost_head, lost_tail,
}
use ref_count.Linear.Wins.{won_head, won_tail, won_force}
use ref_count.Linear.Owned.{written-Inv, taken-Inv, filled-Inv, freed-Inv}
use ref_count.Linear.Replaced.{advanced-Inv, emptied-Inv, refilled-Inv, finished-Inv}
use ref_count.Linear.Lag.{word_place, word_le, settled}

-- A compare-exchange fails and leaves the value, or finds the expected value and replaces it.
exchange-cases :
    (miss : Bool) (current next old : ℕ)
    → (exchange miss current next old ≡ (failed old, old))
      ⊎ ((old ≡ current) × (exchange miss current next old ≡ (swapped, next)))
exchange-cases true current next old = inl refl
exchange-cases false current next old = elim (Bool-cases (old == current)) [
  | inl here ↦ inr ((==_iff old current).0 here, rw here refl)
  | inr other ↦ inl (rw other refl)
]

module _ {T : Type 0} {capacity bits n : ℕ} {past : Seen} {s : System T} {a : Atomic T}
    (shape : Shape capacity bits) (room : n + capacity + capacity ≤ capacity * laps bits)
    (inv : Inv capacity bits past n s a) (i : ℕ) where
  open inv use {
    head_place, slots, claims, seen, head_eq, lag, tail_eq, lags, bounded, early, fits, owns, below,
    follows, agrees,
  }

  abbrev Rest : Seen → Claim T → Method T (Reply T) → Type 0
  Rest known c p = Keeps capacity bits known c p (λ r seen' c'. c' ≡ done r)

  -- The next state when the access gave `r` and left the memory `m`.
  abbrev Then : Memory T → Method T (Reply T) → Type 0
  Then m p =
      After capacity bits past n a (record { mem = m; threads = update s.threads i (running p) })

  cas_head-Inv :
      (current next : ℕ) (miss : Bool) (k : Exchange → Method T (Reply T))
      → Rest (seen i) (claims i) (act (cas_head current next) k)
      → Then
          (apply (cas_head current next) miss s.mem).1
          (k (apply (cas_head current next) miss s.mem).0)
  cas_head-Inv current next miss k (lost, p, range, at_p, next_eq, version, won) =
      elim (exchange-cases miss current next s.mem.head) [
        | inl fails ↦
            subst (λ (x : Exchange × ℕ). Then (record s.mem { head = x.1 }) (k x.0)) (sym fails)
              (lost_head shape room inv i k
                (lost head_place (omega (arith, early)) (below i).head_le))
        | inr (same, wins) ↦
            let here : head_place ≡ p =
              same_place shape head_place p (omega (arith, early, shape.not_empty))
                (omega (arith, shape.not_empty)) (sym head_eq ∙ same ∙ at_p) in
            subst (λ (x : Exchange × ℕ). Then (record s.mem { head = x.1 }) (k x.0)) (sym wins)
              (elim won [
                | inl (waits, rest) ↦
                    won_head shape room inv i next (k swapped) (rw here next_eq) waits
                      (subst (λ q. 2 * q + 1 ≤ (seen i).version (q % capacity)) (sym here) version)
                      (subst (λ q. (v : T) → Rest (seen i) (Claim.popping q v) (k swapped))
                        (sym here) rest)
                | inr (v, waits, full, rest) ↦
                    won_force shape room inv i next (k swapped) v (rw here next_eq) waits
                      (subst (λ q. 2 * q + 1 ≤ (seen i).version (q % capacity)) (sym here) version)
                      (rw here full)
                      (subst
                        (λ q. (x : T) → Rest (seen i) (Claim.replacing q x v claimed) (k swapped))
                        (sym here) rest)
              ])
      ]

  cas_tail-Inv :
      (current next : ℕ) (miss : Bool) (k : Exchange → Method T (Reply T))
      → Rest (seen i) (claims i) (act (cas_tail current next) k)
      → Then
          (apply (cas_tail current next) miss s.mem).1
          (k (apply (cas_tail current next) miss s.mem).0)
  cas_tail-Inv current next miss k
        (lost, p, v, call, r, range, waits, appends, at_p, next_eq, version, won) =
      let tail = head_place + length a.items in
      let word = word_place capacity tail lag in
      let word_early : word ≤ n = le_trans (word_le lag lags) early in
      elim (exchange-cases miss current next s.mem.tail) [
        | inl fails ↦
            subst (λ (x : Exchange × ℕ). Then (record s.mem { tail = x.1 }) (k x.0)) (sym fails)
              (lost_tail shape room inv i k
                (lost word (omega (arith, word_early)) (below i).tail_le))
        | inr (same, wins) ↦
            let at_word : word ≡ p =
              same_place shape word p (omega (arith, word_early, shape.not_empty))
                (omega (arith, shape.not_empty)) (sym tail_eq ∙ same ∙ at_p) in
            let up : lag ≡ none = settled lag lags shape.not_empty (
              le_trans (subst (λ q. 2 * q ≤ (seen i).version (q % capacity)) (sym at_word) version)
                ((below i).version_le (word % capacity) (mod-lt word shape.not_empty))) in
            let at_tail : word ≡ tail = rw up refl in
            let here : tail ≡ p = sym at_tail ∙ at_word in
            subst (λ (x : Exchange × ℕ). Then (record s.mem { tail = x.1 }) (k x.0)) (sym wins)
              (won_tail shape room inv i next (k swapped) call v r
                (next_eq ∙ ap (λ q. stamp_of capacity bits (q + 1)) (sym here)) up waits appends
                (subst (λ q. 2 * q ≤ (seen i).version (q % capacity)) (sym here) version)
                (subst (λ q. Rest (seen i) (Claim.pushing q v r) (k swapped)) (sym here) won))
      ]

  store_stamp-Inv :
      (x stamp : ℕ) (k : Unit {0} → Method T (Reply T))
      → Rest (seen i) (claims i) (act (store_stamp x stamp) k)
      → Then (record s.mem { stamp = update s.mem.stamp x stamp }) (k tt)
  store_stamp-Inv x stamp k (p, v, place, h) =
      subst (λ x. Then (record s.mem { stamp = update s.mem.stamp x stamp }) (k tt)) (sym place)
        (elim h [
          | inl (r, mine, e, rest) ↦ filled-Inv shape inv i p stamp v r (k tt) mine e rest
          | inr (inl (mine, e, rest)) ↦ freed-Inv shape inv i p stamp v (k tt) mine e rest
          | inr (inr (old, mine, e, rest)) ↦
              finished-Inv shape inv i p stamp old v (k tt) mine e rest
        ])

  pub access-Inv :
      (e : Access T) (miss : Bool) (k : Response e → Method T (Reply T))
      → Rest (seen i) (claims i) (act e k)
      → Then (apply e miss s.mem).1 (k (apply e miss s.mem).0)
  access-Inv load_head miss k h = load_head-Inv shape room inv i k h
  access-Inv load_tail miss k h = load_tail-Inv shape room inv i k h
  access-Inv (store_head x) miss k h = absurd h
  access-Inv (store_tail x) miss k (p, old, v, mine, e, rest) =
      advanced-Inv shape inv i p x old v (k tt) mine e rest
  access-Inv (cas_head c x) miss k h = cas_head-Inv c x miss k h
  access-Inv (cas_tail c x) miss k h = cas_tail-Inv c x miss k h
  access-Inv (load_stamp l) miss k h = load_stamp-Inv shape room inv i l k h
  access-Inv (store_stamp l x) miss k h = store_stamp-Inv l x k h
  access-Inv (take_value l) miss k (p, v, place, h) =
      subst (λ l. Then (record s.mem { value = update s.mem.value l none }) (k (s.mem.value l)))
        (sym place)
        (elim h [
          | inl (mine, rest) ↦ taken-Inv shape inv i p v k mine rest
          | inr (new, mine, rest) ↦ emptied-Inv shape inv i p v new k mine rest
        ])
  access-Inv (write_value l v) miss k (p, place, h) =
      subst (λ l. Then (record s.mem { value = update s.mem.value l (some v) }) (k tt)) (sym place)
        (elim h [
          | inl (r, mine, rest) ↦ written-Inv shape inv i p v r (k tt) mine rest
          | inr (old, mine, rest) ↦ refilled-Inv shape inv i p old v (k tt) mine rest
        ])
  access-Inv fence miss k h = wait-Inv shape room inv i (k tt) h
  access-Inv (spin_loop x) miss k h = wait-Inv shape room inv i (k tt) h
  access-Inv yield_now miss k h = wait-Inv shape room inv i (k tt) h
