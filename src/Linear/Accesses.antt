-- ===== src/Linear/Accesses.antt =====
-- Each access of a thread that keeps to the discipline keeps the invariant, beside at most one step of
-- the atomic queue.
use ref_count.Common.{
  ℕ, suc, ◌+◌, ◌*◌, ◌%◌, ◌≤◌, ◌≡◌, ◌⊎◌, refl, sym, ap, ◌∙◌, none, List, [], ◌∷◌, length, update,
  inl, inr, arith, Bool-cases, ◌==◌, ==_iff,
}
use mathlib.Core.Path.{subst}
use native.Mathlib.Nat.{le_refl, le_trans, mod-lt}
use ref_count.Program.{act, Exchange, failed}
use ref_count.Queue.Memory.{load_head, load_tail, load_stamp}
use ref_count.Queue.Ops.{Method, err}
use ref_count.Queue.Shape.{Shape}
use ref_count.Queue.Position.{laps, stamp_of}
use ref_count.Linear.{Reply, from_push, from_pop, running, System, Atomic, answered, AtomicStep}
use ref_count.Linear.Claims.{Claim, Seen, done, status, Keeps}
use ref_count.Linear.Slots.{Below, slot_of}
use ref_count.Linear.Fits.{stamp_found}
use ref_count.Linear.Atomically.{replied, commit_full, commit_none}
use ref_count.Linear.Invariant.{Inv}
use ref_count.Linear.Lag.{word_place, word_le, settled}
use ref_count.Linear.Moves.{agrees-claim, agrees-update, thread_move}

-- The state after a step of a thread, and the atomic queue after at most one step beside it.
abbrev pub After :
    {T : Type 0} (capacity bits : ℕ) (past : Seen) (n : ℕ) → Atomic T → System T → Type 0
After {T} capacity bits past n a s =
    (b : Atomic T) × (b ≡ a ⊎ AtomicStep capacity a [] b) × Inv capacity bits past (suc n) s b

module _ {T : Type 0} {capacity bits n : ℕ} {past : Seen} {s : System T} {a : Atomic T}
    (shape : Shape capacity bits) (room : n + capacity + capacity ≤ capacity * laps bits)
    (inv : Inv capacity bits past n s a) (i : ℕ) where
  open inv use {
    head_place, slots, claims, seen, head_eq, lag, tail_eq, lags, bounded, early, fits, owns, below,
    follows, agrees,
  }

  -- The place that the word of the tail names.
  abbrev word : ℕ
  word = word_place capacity (head_place + length a.items) lag

  word_early : word ≤ n
  word_early = le_trans (word_le lag lags) early

  -- What the rest of the thread's program keeps to.
  abbrev Rest : Seen → Claim T → Method T (Reply T) → Type 0
  Rest known c p = Keeps capacity bits known c p (λ r seen' c'. c' ≡ done r)

  -- The thread has read something and may have been answered by that.
  pub load_head-Inv :
      (k : ℕ → Method T (Reply T))
      → Rest (seen i) (claims i) (act load_head k)
      → After capacity bits past n a
          (record s { threads = update s.threads i (running (k s.mem.head)) })
  load_head-Inv k follow =
      let (c, change, rest) = follow head_place (omega (arith, early)) (below i).head_le in
      let known : Seen = record (seen i) { head_low = head_place } in
      let low : Below capacity head_place word slots known = record {
        head_le = le_refl head_place;
        tail_le = (below i).tail_le;
        version_le = (below i).version_le;
      } in
      let on : Rest known c (k s.mem.head) = subst (λ x. Rest known c (k x)) (sym head_eq) rest in
      elim change [
        | inl same ↦ (
          a,
          inl refl,
          thread_move inv i (running (k s.mem.head)) c known a.threads
              (agrees-claim inv i (running (k s.mem.head)) c (ap status (sym same)))
              (rw same (owns i)) (ap (slot_of i) same) low on,
        )
        | inr (v, waits, answers, full) ↦ (
          replied a i a.items (from_push (err v)),
          inr (
              commit_full capacity a i v
                (λ lt. absurd (omega (arith, (below i).tail_le, word_le lag lags)))
                (agrees i ∙ ap status waits)),
          thread_move inv i (running (k s.mem.head)) c known _
              (agrees-update inv i (running (k s.mem.head)) c (answered (from_push (err v)))
                (ap status (sym answers)))
              (rw answers tt) (ap (slot_of i) answers ∙ sym (ap (slot_of i) waits)) low on,
        )
      ]

  pub load_tail-Inv :
      (k : ℕ → Method T (Reply T))
      → Rest (seen i) (claims i) (act load_tail k)
      → After capacity bits past n a
          (record s { threads = update s.threads i (running (k s.mem.tail)) })
  load_tail-Inv k follow =
      let (c, change, rest) = follow word (omega (arith, word_early)) (below i).tail_le in
      let known : Seen = record (seen i) { tail_low = word } in
      let low : Below capacity head_place word slots known = record {
        head_le = (below i).head_le;
        tail_le = le_refl word;
        version_le = (below i).version_le;
      } in
      let on : Rest known c (k s.mem.tail) = subst (λ x. Rest known c (k x)) (sym tail_eq) rest in
      elim change [
        | inl same ↦ (
          a,
          inl refl,
          thread_move inv i (running (k s.mem.tail)) c known a.threads
              (agrees-claim inv i (running (k s.mem.tail)) c (ap status (sym same)))
              (rw same (owns i)) (ap (slot_of i) same) low on,
        )
        | inr (waits, answers, empty, new) ↦ (
          replied a i a.items (from_pop none),
          inr (commit_none capacity a i (none_left empty new) (agrees i ∙ ap status waits)),
          thread_move inv i (running (k s.mem.tail)) c known _
              (agrees-update inv i (running (k s.mem.tail)) c (answered (from_pop none))
                (ap status (sym answers)))
              (rw answers tt) (ap (slot_of i) answers ∙ sym (ap (slot_of i) waits)) low on,
        )
      ]
    where
      no_items : (l : List T) → length l ≤ 0 → l ≡ []
      no_items [] h = refl
      no_items (x ∷ xs) h = absurd (omega arith)

      none_left :
          word ≤ (seen i).head_low → 2 * word ≤ (seen i).version (word % capacity) → a.items ≡ []
      none_left empty new =
          let up : lag ≡ none =
            settled lag lags shape.not_empty (
              le_trans new
                ((below i).version_le (word % capacity) (mod-lt word shape.not_empty))) in
          let at_tail : word ≡ head_place + length a.items = rw up refl in
          no_items a.items (omega (arith, (below i).head_le))

  -- The thread goes on with what it knew.
  pub wait-Inv :
      (p : Method T (Reply T))
      → Rest (seen i) (claims i) p
      → After capacity bits past n a (record s { threads = update s.threads i (running p) })
  wait-Inv p rest = (
    a,
    inl refl,
    thread_move inv i (running p) (claims i) (seen i) a.threads
        (agrees-claim inv i (running p) (claims i) refl) (owns i) refl (below i) rest,
  )

  pub load_stamp-Inv :
      (l : ℕ) (k : ℕ → Method T (Reply T))
      → Rest (seen i) (claims i) (act (load_stamp l) k)
      → After capacity bits past n a
          (record s { threads = update s.threads i (running (k (s.mem.stamp l))) })
  load_stamp-Inv l k (lt, follow) =
      let (p, full, same, near, le, found, version) =
        stamp_found capacity bits head_place a.items l (s.mem.stamp l) (s.mem.value l) (slots l)
          (fits l lt) in
      let known : Seen = record (seen i) { version = update (seen i).version l (2 * p + full) } in
      let low : Below capacity head_place word slots known = record {
        head_le = (below i).head_le;
        tail_le = (below i).tail_le;
        version_le = λ j lt_j. elim (Bool-cases (l == j)) [
          | inl here ↦ rw (here, ← (==_iff l j).0 here) (omega (arith, version))
          | inr other ↦ rw other ((below i).version_le j lt_j)
        ];
      } in
      (
        a,
        inl refl,
        thread_move inv i (running (k (s.mem.stamp l))) (claims i) known a.threads
            (agrees-claim inv i (running (k (s.mem.stamp l))) (claims i) refl) (owns i) refl low
            (subst (λ x. Rest known (claims i) (k x)) (sym found)
              (follow p full same (omega (arith, early)) le)),
      )

  -- A compare-exchange that has failed shows the head, or the tail.
  pub lost_head :
      (k : Exchange → Method T (Reply T))
      → Rest
          (record (seen i) { head_low = head_place })
          (claims i)
          (k (failed (stamp_of capacity bits head_place)))
      → After capacity bits past n a
          (record s { threads = update s.threads i (running (k (failed s.mem.head))) })
  lost_head k follow =
      let known : Seen = record (seen i) { head_low = head_place } in
      (
        a,
        inl refl,
        thread_move inv i (running (k (failed s.mem.head))) (claims i) known a.threads
            (agrees-claim inv i (running (k (failed s.mem.head))) (claims i) refl) (owns i) refl
            (record {
              head_le = le_refl head_place;
              tail_le = (below i).tail_le;
              version_le = (below i).version_le;
            })
            (subst (λ x. Rest known (claims i) (k (failed x))) (sym head_eq) follow),
      )

  pub lost_tail :
      (k : Exchange → Method T (Reply T))
      → Rest
          (record (seen i) { tail_low = word })
          (claims i)
          (k (failed (stamp_of capacity bits word)))
      → After capacity bits past n a
          (record s { threads = update s.threads i (running (k (failed s.mem.tail))) })
  lost_tail k follow =
      let known : Seen = record (seen i) { tail_low = word } in
      (
        a,
        inl refl,
        thread_move inv i (running (k (failed s.mem.tail))) (claims i) known a.threads
            (agrees-claim inv i (running (k (failed s.mem.tail))) (claims i) refl) (owns i) refl
            (record {
              head_le = (below i).head_le;
              tail_le = le_refl word;
              version_le = (below i).version_le;
            })
            (subst (λ x. Rest known (claims i) (k (failed x))) (sym tail_eq) follow),
      )
