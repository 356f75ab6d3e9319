-- ===== src/Linear/Moves.antt =====
-- How the invariant passes to the next state: a move of one thread that changes no slot, and one that
-- changes a slot that is that thread's, or no one's.
use ref_count.Common.{
  ℕ, suc, ◌+◌, ◌%◌, ◌≤◌, ◌<◌, ◌≡◌, ◌≢◌, sym, ap, ◌∙◌, Option, none, some, List, length, update, inl,
  inr, arith, Bool-cases, ◌==◌, ==_iff, ==_refl, ne→==,
}
use native.Mathlib.Nat.{le_refl, le_trans}
use ref_count.Queue.Memory.{Memory}
use ref_count.Queue.Position.{stamp_of}
use ref_count.Linear.{Thread, System, Atomic, Status}
use ref_count.Linear.Claims.{Claim, Seen, status}
use ref_count.Linear.Slots.{Slot, Owns, Fits, Below, version_of, owner, slot_of, place_in}
use ref_count.Linear.Fits.{home}
use ref_count.Linear.Invariant.{Follows, Inv}
use ref_count.Linear.Lag.{word_place, Lags, Lags-update, claiming}
use ref_count.Linear.Owning.{Owns-update}

module _ {T : Type 0} {capacity bits n : ℕ} {past : Seen} {s : System T} {a : Atomic T}
    (inv : Inv capacity bits past n s a) (i : ℕ) (t : Thread T) (c : Claim T) where
  open inv use {
    head_place, slots, claims, seen, head_eq, lag, tail_eq, lags, bounded, early, fits, owns, owned,
    below, above, follows, agrees,
  }

  -- The statuses agree with the claims after thread `i` has got the claim `c`.
  pub agrees-claim :
      status (claims i) ≡ status c → (j : ℕ) → a.threads j ≡ status (update claims i c j)
  agrees-claim e j = elim (Bool-cases (i == j)) [
    | inl here ↦ rw here (ap a.threads (sym ((==_iff i j).0 here)) ∙ agrees i ∙ e)
    | inr other ↦ rw other (agrees j)
  ]

  pub agrees-update :
      (st : Status T)
      → st ≡ status c
      → (j : ℕ) → update a.threads i st j ≡ status (update claims i c j)
  agrees-update st e j = elim (Bool-cases (i == j)) [
    | inl here ↦ rw here e
    | inr other ↦ rw other (agrees j)
  ]

  pub thread_move :
      (known : Seen) (atoms : ℕ → Status T)
      → ((j : ℕ) → atoms j ≡ status (update claims i c j))
      → Owns capacity slots i c
      → slot_of i c ≡ slot_of i (claims i)
      → Below capacity head_place
          (word_place capacity (head_place + length a.items) lag)
          slots
          known
      → Follows capacity bits known c t
      → Inv capacity bits past
          (suc n)
          (record s { threads = update s.threads i t })
          (record a { threads = atoms })
  thread_move known atoms agree own same_slot low follow = record {
    head_place = head_place;
    slots = slots;
    claims = update claims i c;
    seen = update seen i known;
    head_eq = head_eq;
    lag = lag;
    tail_eq = tail_eq;
    lags = lags;
    bounded = bounded;
    early = omega (arith, early);
    fits = fits;
    owns = λ j. elim (Bool-cases (i == j)) [
      | inl here ↦ rw (here, ← (==_iff i j).0 here) own
      | inr other ↦ rw other (owns j)
    ];
    owned = λ k j lt e. elim (Bool-cases (i == j)) [
      | inl here ↦
          rw (here, ← (==_iff i j).0 here)
            (same_slot ∙ owned k i lt (e ∙ ap some (sym ((==_iff i j).0 here))))
      | inr other ↦ rw other (owned k j lt e)
    ];
    below =
        λ j. elim (Bool-cases (i == j)) [ inl here ↦ rw here low | inr other ↦ rw other (below j) ];
    above = above;
    follows = λ j. elim (Bool-cases (i == j)) [
      | inl here ↦ rw here follow
      | inr other ↦ rw other (follows j)
    ];
    agrees = agree;
  }

  -- A thread owns no second slot.
  pub alone_in :
      (mine : Slot T)
      → slot_of i (claims i) ≡ some mine
      → (l : ℕ) → l < capacity
      → owner (slots l) ≡ some i
      → l ≡ place_in mine % capacity
  alone_in mine e l lt own =
      let mine_eq : some (slots l) ≡ some mine = sym (owned l i lt own) ∙ e in
      let same : slots l ≡ mine = cc in
      sym (
        home capacity bits head_place a.items l (s.mem.stamp l) (s.mem.value l) (slots l)
          (fits l lt))
      ∙ ap (λ x. place_in x % capacity) same

  pub none_owned :
      slot_of i (claims i) ≡ none → (l k : ℕ) → l < capacity → owner (slots l) ≡ some i → l ≡ k
  none_owned e l k lt own =
      let clash : some (slots l) ≡ none = sym (owned l i lt own) ∙ e in absurd (cc)

  pub slot_move :
      (k : ℕ) (new : Slot T) (m : Memory T) (h : ℕ) (items : List T) (atoms : ℕ → Status T)
      (lag' : Option ℕ)
      → m.head ≡ stamp_of capacity bits h
      → m.tail ≡ stamp_of capacity bits (word_place capacity (h + length items) lag')
      → Lags capacity (h + length items) (update slots k new) lag'
      → length items ≤ capacity
      → h + length items ≤ suc n
      → head_place ≤ h
      → word_place capacity (head_place + length a.items) lag
        ≤ word_place capacity (h + length items) lag'
      → Fits capacity bits h items k (m.stamp k) (m.value k) new
      → ((j : ℕ)
          → j < capacity
          → j ≢ k
          → Fits capacity bits h items j (m.stamp j) (m.value j) (slots j))
      → version_of (slots k) ≤ version_of new
      → ((j : ℕ) → j ≢ i → owner (slots k) ≢ some j)
      → Owns capacity (update slots k new) i c
      → ((j : ℕ) → owner new ≡ some j → (j ≡ i) × (slot_of i c ≡ some new))
      → ((l : ℕ) → l < capacity → owner (slots l) ≡ some i → l ≡ k)
      → Follows capacity bits (seen i) c t
      → ((j : ℕ) → atoms j ≡ status (update claims i c j))
      → Inv capacity bits past
          (suc n)
          (record { mem = m; threads = update s.threads i t })
          (record { items = items; threads = atoms })
  slot_move k new m h items atoms lag' head tail lags' few soon on_head on_tail fit others newer
        free_of own given alone follow agree =
      record {
        head_place = h;
        slots = update slots k new;
        claims = update claims i c;
        seen = seen;
        head_eq = head;
        lag = lag';
        tail_eq = tail;
        lags = lags';
        bounded = few;
        early = soon;
        fits = λ j lt. elim (Bool-cases (k == j)) [
          | inl here ↦ rw (here, ← (==_iff k j).0 here) fit
          | inr other ↦ rw other (others j lt (λ e. ground (arith, e, other)))
        ];
        owns = λ j. elim (Bool-cases (i == j)) [
          | inl here ↦ rw (here, ← (==_iff i j).0 here) own
          | inr other ↦ rw other (
              Owns-update capacity slots k new j (claims j)
                (free_of j (λ e. ground (arith, e, other))) (owns j))
        ];
        owned = λ l j lt e. elim (Bool-cases (k == l)) [
          | inl at_k ↦
              let (mine, is_new) = given j (rw at_k at e) in rw (at_k, mine, ==_refl i) is_new
          | inr not_k ↦
              let e' : owner (slots l) ≡ some j = rw not_k at e in
              let ne : i ≢ j = λ e_i. ground (arith, not_k, alone l lt (e' ∙ ap some (sym e_i))) in
              rw (not_k, ne→== ne) (owned l j lt e')
        ];
        below = λ j. still_below (below j);
        above = still_below above;
        follows = λ j. elim (Bool-cases (i == j)) [
          | inl here ↦ rw (here, ← (==_iff i j).0 here) follow
          | inr other ↦ rw other (follows j)
        ];
        agrees = agree;
      }
    where
      still_below :
          {known : Seen}
          → Below capacity head_place
              (word_place capacity (head_place + length a.items) lag)
              slots
              known
          → Below capacity h
              (word_place capacity (h + length items) lag')
              (update slots k new)
              known
      still_below {known} low = record {
        head_le = le_trans low.head_le on_head;
        tail_le = le_trans low.tail_le on_tail;
        version_le = λ l lt. elim (Bool-cases (k == l)) [
          | inl here ↦
              rw (here, ← (==_iff k l).0 here)
                (le_trans (low.version_le k (rw (← (==_iff k l).0 here) at lt)) newer)
          | inr other ↦ rw other (low.version_le l lt)
        ];
      }

  -- The thread changes its own slot and nothing else.
  pub own_move :
      (c₀ : Claim T) (mine new : Slot T) (m : Memory T)
      → claims i ≡ c₀
      → slot_of i c₀ ≡ some mine
      → owner mine ≡ some i
      → place_in mine % capacity < capacity
      → slots (place_in mine % capacity) ≡ mine
      → m.head ≡ s.mem.head
      → m.tail ≡ s.mem.tail
      → Fits capacity bits head_place a.items
          (place_in mine % capacity)
          (m.stamp (place_in mine % capacity))
          (m.value (place_in mine % capacity))
          new
      → ((j : ℕ)
          → j ≢ place_in mine % capacity
          → (m.stamp j ≡ s.mem.stamp j) × (m.value j ≡ s.mem.value j))
      → version_of mine ≤ version_of new
      → claiming mine ≡ none
      → claiming new ≡ none
      → Owns capacity (update slots (place_in mine % capacity) new) i c
      → ((j : ℕ) → owner new ≡ some j → (j ≡ i) × (slot_of i c ≡ some new))
      → Follows capacity bits (seen i) c t
      → status (claims i) ≡ status c
      → Inv capacity bits past (suc n) (record { mem = m; threads = update s.threads i t }) a
  own_move c₀ mine new m claim_eq slot_claim my_own lt slot_eq head tail fit others newer before
        after own given follow same =
      let k = place_in mine % capacity in
      slot_move k new m head_place a.items a.threads lag (head ∙ head_eq) (tail ∙ tail_eq)
        (Lags-update k new (ap claiming slot_eq ∙ before) after lags) bounded (omega (arith, early))
        (le_refl head_place) (le_refl _) fit
        (λ j lt_j ne. rw ((others j ne).0, (others j ne).1) (fits j lt_j)) (rw slot_eq newer)
        (λ j ne e. ne (cc (ap owner slot_eq, my_own, e))) own given
        (alone_in mine (ap (slot_of i) claim_eq ∙ slot_claim)) follow (agrees-claim same)
