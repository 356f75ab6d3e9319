-- ===== src/Linear/Size.antt =====
-- How many values the words of head and tail show, in the states of Linear.Invariant.
use native.Mathlib.Nat.{le_refl, mod-lt}
use ref_count.Common.{
  ℕ, ◌+◌, ◌-◌, ◌%◌, ◌≤◌, ◌<◌, ◌≡◌, refl, ap, ◌∙◌, Option, none, some, length, inl, inr, arith,
}
use ref_count.Queue.Shape.{Shape}
use ref_count.Linear.{System, Atomic, answered, from_force_push}
use ref_count.Linear.Claims.{
  Claim, Seen, called, pushing, written, popping, taken, replacing, done, Stage, claimed, status,
}
use ref_count.Linear.Slots.{Slot, swapping, free, filling, filled, emptying, owner, slot_of, Fits}
use ref_count.Linear.Lag.{word_place, word_le, claiming, Lags}
use ref_count.Linear.Invariant.{Inv}
use ref_count.Linear.Watch.{Visible}

module _ {T : Type 0} where
  claimed_by :
      (slot : Slot T) (p : ℕ)
      → claiming slot ≡ some p
      → (j : ℕ) × (old v : T) × (slot ≡ swapping p j old v claimed)
  claimed_by (swapping q j old v claimed) p e =
      let same : q ≡ p = cc in (j, old, v, ap (λ q. swapping q j old v claimed) same)
  claimed_by (swapping q j old v Stage.advanced) p e = absurd (cc)
  claimed_by (swapping q j old v Stage.emptied) p e = absurd (cc)
  claimed_by (swapping q j old v Stage.refilled) p e = absurd (cc)
  claimed_by (free q) p e = absurd (cc)
  claimed_by (filling q j v w) p e = absurd (cc)
  claimed_by (filled q v) p e = absurd (cc)
  claimed_by (emptying q j v w) p e = absurd (cc)

  status-swapping :
      (c : Claim T) (p i j : ℕ) (old v : T) (stage : Stage)
      → slot_of i c ≡ some (swapping p j old v stage)
      → status c ≡ answered (from_force_push (some old))
  status-swapping (replacing q x y stage') p i j old v stage e =
      let same : x ≡ old = cc in ap (λ x. answered (from_force_push (some x))) same
  status-swapping Claim.idle p i j old v stage e = absurd (cc)
  status-swapping (called call) p i j old v stage e = absurd (cc)
  status-swapping (pushing q w r) p i j old v stage e = absurd (cc)
  status-swapping (written q w r) p i j old v stage e = absurd (cc)
  status-swapping (popping q w) p i j old v stage e = absurd (cc)
  status-swapping (taken q w) p i j old v stage e = absurd (cc)
  status-swapping (done r) p i j old v stage e = absurd (cc)

module _ {T : Type 0} {capacity bits n : ℕ} {past : Seen} {s : System T} {a : Atomic T}
    (shape : Shape capacity bits) (inv : Inv capacity bits past n s a) where
  open inv use {
    head_place, slots, claims, seen, head_eq, lag, tail_eq, lags, bounded, early, fits, owns, owned,
    below, follows, agrees,
  }

  abbrev pub word : ℕ
  word = word_place capacity (head_place + length a.items) lag

  -- The bounds of the tail's word, and what it shows.
  pub word_within : word ≤ head_place + capacity
  word_within = omega (arith, word_le lag lags, bounded)

  word_shows :
      (l : Option ℕ)
      → Lags capacity (head_place + length a.items) slots l
      → (head_place ≤ word_place capacity (head_place + length a.items) l)
        × Visible capacity a (word_place capacity (head_place + length a.items) l - head_place)
  word_shows none at = (omega arith, inl (omega arith))
  word_shows (some p) at =
      let k = p % capacity in
      let lt : k < capacity = mod-lt p shape.not_empty in
      let (at_tail, claim) = at.here p refl in
      let (j, old, v, slot_eq) = claimed_by (slots k) p claim in
      let fit : Fits capacity bits head_place a.items k (s.mem.stamp k) (s.mem.value k)
          (swapping p j old v claimed) =
        rw slot_eq at (fits k lt) in
      let own = owned k j lt (ap owner slot_eq) ∙ ap some slot_eq in
      (
        fit.3,
        inr (
          omega (arith, at_tail, fit.3),
          j,
          old,
          agrees j ∙ status-swapping (claims j) p j j old v claimed own,
        ),
      )

  pub word_above : head_place ≤ word
  word_above = (word_shows lag lags).0

  pub word-Visible : Visible capacity a (word - head_place)
  word-Visible = (word_shows lag lags).1

  -- What a thread that looks now has seen.
  abbrev pub now : Seen
  now = record { head_low = head_place; tail_low = word; version = λ i. 0 }

  pub Inv-now : Inv capacity bits now n s a
  Inv-now = record {
    head_place = head_place;
    slots = slots;
    claims = claims;
    seen = seen;
    head_eq = head_eq;
    lag = lag;
    tail_eq = tail_eq;
    lags = lags;
    bounded = bounded;
    early = early;
    fits = fits;
    owns = owns;
    owned = owned;
    below = below;
    above = record {
      head_le = le_refl head_place;
      tail_le = le_refl word;
      version_le = λ i lt. omega arith;
    };
    follows = follows;
    agrees = agrees;
  }
