-- ===== src/Linear/Advance.antt =====
-- The invariant of Linear along a part of a run, and what the head and the tail show there.
use mathlib.Core.Path.{subst}
use native.Mathlib.Nat.{le_refl, le_trans}
use native.Mathlib.Decide.{ℕ_discrete}
use ref_count.Common.{
  ℕ, suc, ◌+◌, ◌-◌, ◌*◌, ◌≤◌, ◌≡◌, ◌≢◌, ◌⊎◌, refl, sym, ◌∙◌, Bool, List, [], ◌++◌, inl, inr, arith,
}
use ref_count.Queue.Memory.{
  Memory, Access, apply, load_head, load_tail, store_head, store_tail, cas_head, cas_tail,
  load_stamp, store_stamp, take_value, write_value, fence, spin_loop, yield_now,
}
use ref_count.Queue.Shape.{Shape}
use ref_count.Queue.Position.{laps}
use ref_count.Queue.Distinct.{same_place}
use ref_count.Linear.{Event, System, Step, begin, access, finish, Atomic, AtomicStep, AtomicRun}
use ref_count.Linear.Claims.{Seen}
use ref_count.Linear.Invariant.{Inv}
use ref_count.Linear.Lag.{word_le}
use ref_count.Linear.Simulation.{step-Inv, run_on}
use ref_count.Linear.Watch.{Point, Reaches, AtomicReaches, here, further}
use ref_count.Linear.Size.{word, word_above}

module _ {T : Type 0} where
  -- No access changes both the head and the tail.
  apply-one :
      (e : Access T) (miss : Bool) (m : Memory T)
      → ((apply e miss m).1.head ≡ m.head) ⊎ ((apply e miss m).1.tail ≡ m.tail)
  apply-one load_head miss m = inl refl
  apply-one load_tail miss m = inl refl
  apply-one (store_head x) miss m = inr refl
  apply-one (store_tail x) miss m = inl refl
  apply-one (cas_head x y) miss m = inr refl
  apply-one (cas_tail x y) miss m = inl refl
  apply-one (load_stamp x) miss m = inl refl
  apply-one (store_stamp x y) miss m = inl refl
  apply-one (take_value x) miss m = inl refl
  apply-one (write_value x v) miss m = inl refl
  apply-one fence miss m = inl refl
  apply-one (spin_loop x) miss m = inl refl
  apply-one yield_now miss m = inl refl

  Step-one :
      {capacity : ℕ} {events : List (Event T)} {s t : System T}
      → Step capacity s events t
      → (t.mem.head ≡ s.mem.head) ⊎ (t.mem.tail ≡ s.mem.tail)
  Step-one (begin i fuel call quiet) = inl refl
  Step-one {s = s} (access i e miss runs) = apply-one e miss s.mem
  Step-one (finish i runs) = inl refl

module _ {T : Type 0} {capacity : ℕ} where
  pub steps_le : {p q : Point T} → Reaches capacity p q → p.steps ≤ q.steps
  steps_le here = le_refl _
  steps_le (further path step) = le_trans (steps_le path) (omega arith)

  pub Reaches-trans :
      {p q r : Point T} → Reaches capacity p q → Reaches capacity q r → Reaches capacity p r
  Reaches-trans path here = path
  Reaches-trans path (further on step) = further (Reaches-trans path on) step

  pub AtomicRun-Reaches :
      {es : List (Event T)} {a : Atomic T} {fs : List (Event T)} {b : Atomic T}
      → AtomicRun capacity es a
      → AtomicReaches capacity es a fs b
      → AtomicRun capacity fs b
  AtomicRun-Reaches run here = run
  AtomicRun-Reaches run (further on step) = AtomicRun.later (AtomicRun-Reaches run on) step

  Reaches_on :
      {es fs events : List (Event T)} {a b c : Atomic T}
      → AtomicReaches capacity es a fs b
      → (c ≡ b) × (events ≡ []) ⊎ AtomicStep capacity b events c
      → AtomicReaches capacity es a (events ++ fs) c
  Reaches_on {es} {fs} {a = a} {c = c} on (inl (same, silent)) =
      subst (λ ev. AtomicReaches capacity es a (ev ++ fs) c) (sym silent)
        (subst (AtomicReaches capacity es a fs) (sym same) on)
  Reaches_on on (inr move) = further on move

module _ {T : Type 0} {capacity bits : ℕ} (shape : Shape capacity bits) where
  -- So many steps that the stamps of two places are different.
  abbrev pub Early : Point T → Type 0
  Early p = p.steps + capacity + capacity ≤ capacity * laps bits

  -- The invariant at a point, with a run of the atomic queue up to there.
  abbrev pub Related : Seen → Point T → Atomic T → Type 0
  Related past p a = AtomicRun capacity p.events a × Inv capacity bits past p.steps p.system a

  pub advance :
      {past : Seen} {p q : Point T} {a : Atomic T}
      → Inv capacity bits past p.steps p.system a
      → Reaches capacity p q
      → Early q
      → (b : Atomic T) × AtomicReaches capacity p.events a q.events b
        × Inv capacity bits past q.steps q.system b
  advance inv here early = (_, here, inv)
  advance inv (further path step) early =
      let (b, on, inv_b) = advance inv path (omega arith) in
      let (c, change, inv_c) = step-Inv shape (omega arith) inv_b step in
      (c, Reaches_on on change, inv_c)

  -- Places with the same stamp are the same.
  pub same_head :
      {past past' : Seen} {m n : ℕ} {s t : System T} {a b : Atomic T}
      (inv : Inv capacity bits past m s a) (inv' : Inv capacity bits past' n t b)
      → m + capacity + capacity ≤ capacity * laps bits
      → n + capacity + capacity ≤ capacity * laps bits
      → s.mem.head ≡ t.mem.head
      → inv.head_place ≡ inv'.head_place
  same_head inv inv' early early' e =
      same_place shape inv.head_place inv'.head_place (omega (arith, inv.early, shape.not_empty))
        (omega (arith, inv'.early, shape.not_empty)) (sym inv.head_eq ∙ e ∙ inv'.head_eq)

  pub word_early :
      {past : Seen} {n : ℕ} {s : System T} {a : Atomic T} (inv : Inv capacity bits past n s a)
      → word shape inv ≤ n
  word_early inv = le_trans (word_le inv.lag inv.lags) inv.early

  pub same_word :
      {past past' : Seen} {m n : ℕ} {s t : System T} {a b : Atomic T}
      (inv : Inv capacity bits past m s a) (inv' : Inv capacity bits past' n t b)
      → m + capacity + capacity ≤ capacity * laps bits
      → n + capacity + capacity ≤ capacity * laps bits
      → s.mem.tail ≡ t.mem.tail
      → word shape inv ≡ word shape inv'
  same_word inv inv' early early' e =
      same_place shape (word shape inv) (word shape inv')
        (omega (arith, word_early inv, shape.not_empty))
        (omega (arith, word_early inv', shape.not_empty)) (sym inv.tail_eq ∙ e ∙ inv'.tail_eq)

  -- A moment at which another number of values was shown.
  abbrev pub Changed : Seen → Point T → Point T → ℕ → Type 0
  Changed past p q d =
      (m : Point T) × (a : Atomic T) × Reaches capacity p m
      × Reaches capacity m q
      × AtomicRun capacity m.events a
      × (inv : Inv capacity bits past m.steps m.system a) × (word shape inv - inv.head_place ≢ d)

  -- The head and the tail stay the same as long as they show the same number of values.
  pub still :
      {past : Seen} {p q : Point T} {a : Atomic T} (inv : Inv capacity bits past p.steps p.system a)
      → AtomicRun capacity p.events a
      → Reaches capacity p q
      → Early q
      → Changed past p q (word shape inv - inv.head_place)
        ⊎ ((b : Atomic T) × AtomicRun capacity q.events b
            × (inv' : Inv capacity bits past q.steps q.system b) × (inv'.head_place
                ≡ inv.head_place)
            × (word shape inv' ≡ word shape inv))
  still {a = a} inv run here early = inr (a, run, inv, refl, refl)
  still inv run (further {q} {events} {s} path step) early =
      let early_q : Early q = omega arith in
      elim (still inv run path early_q) [
        | inl (m, b, after, before, run_b, inv_b, ne) ↦
            inl (m, b, after, further before step, run_b, inv_b, ne)
        | inr (b, run_b, inv_b, same_h, same_w) ↦
            let (c, change, inv_c) = step-Inv shape early_q inv_b step in
            elim (ℕ_discrete (word shape inv_c - inv_c.head_place)
              (word shape inv - inv.head_place)) [
                | no ne ↦ inl (
                  record { steps = suc q.steps; events = events ++ q.events; system = s },
                  c,
                  further path step,
                  here,
                  run_on run_b change,
                  inv_c,
                  ne,
                )
                | yes e ↦ elim (Step-one step) [
                  | inl head ↦
                      let h_eq : inv_c.head_place ≡ inv.head_place =
                        same_head inv_c inv_b early early_q head ∙ same_h in
                      inr (
                        c,
                        run_on run_b change,
                        inv_c,
                        h_eq,
                        omega (arith, e, h_eq, word_above shape inv_c, word_above shape inv),
                      )
                  | inr tail ↦
                      let w_eq : word shape inv_c ≡ word shape inv =
                        same_word inv_c inv_b early early_q tail ∙ same_w in
                      inr (
                        c,
                        run_on run_b change,
                        inv_c,
                        omega (arith, e, w_eq, word_above shape inv_c, word_above shape inv),
                        w_eq,
                      )
                ]
              ]
      ]
