-- ===== src/System/Invariant.antt =====
-- In every reachable state the counter of src/lib.rs accounts for what the threads hold.
use ref_count.Common.{
  ℕ, ◌+◌, ◌-◌, ◌^◌, ◌≤◌, ◌<◌, ◌≡◌, refl, Bool, Bool-cases, inl, inr, ◌==◌, some, arith, update,
  total, total-update, total-le, le-total, total_const,
}
use ref_count.Program.{ret, act}
use ref_count.RefCount.Memory.{Shared, Access, Response, Action, apply, new}
use ref_count.Ownership.{Holding, nothing, Keeps}
use ref_count.System.{
  one_ref, Call, Thread, System, plus, minus, Includes, Step, begin, access, finish, idle, HasFew,
  Reach, start, later,
}
use ref_count.System.Calls.{Settled, Call-Keeps, Call-refs}
use ref_count.System.Account.{Account, After, access-Account}

-- What `n` threads hold, of the kind that `w` counts: what is in scope, and what their calls hold.
abbrev pub held : (Holding → ℕ) → ℕ → (ℕ → Thread) → (ℕ → Holding) → ℕ
held w n threads own = total (λ (t : Thread). w t.scope) n threads + total w n own

abbrev pub refs : Holding → ℕ
refs g = g.refs

abbrev pub blocks : Holding → ℕ
blocks g = g.blocks

abbrev pub exclusives : Holding → ℕ
exclusives g = g.exclusives

-- `own i` is what the running call of thread `i` holds.
pub record Inv (n : ℕ) (s : System) : Type 0 where
  pub own : ℕ → Holding
  pub keeps : (i : ℕ) → Keeps (own i) (s.threads i).call Settled
  pub at_most_one : (i : ℕ) → (own i).refs ≤ 1
  pub account :
      Account s.mem.count
        (held refs n s.threads own)
        (held blocks n s.threads own)
        (held exclusives n s.threads own)

Account-cong :
    {c r b x r' b' x' : ℕ} → r ≡ r' → b ≡ b' → x ≡ x' → Account c r b x → Account c r' b' x'
Account-cong p q o a = rw (← p, ← q, ← o) a

-- Thread `i` goes over to `t` and its call to what `g` holds.
held-update :
    (w : Holding → ℕ) (n : ℕ) (threads : ℕ → Thread) (own : ℕ → Holding) (i : ℕ) (t : Thread)
    (g : Holding)
    → i < n
    → held w n (update threads i t) (update own i g) + w (threads i).scope + w (own i)
      ≡ held w n threads own + w t.scope + w g
held-update w n threads own i t g lt =
    omega (
      arith,
      total-update (λ (t : Thread). w t.scope) n threads i t lt,
      total-update w n own i g lt,
    )

module _ {n : ℕ} {s : System} (inv : Inv n s) (i : ℕ) (lt : i < n) where
  open inv use {own, keeps, at_most_one, account}

  update-Keeps :
      (t : Thread) (g : Holding)
      → Keeps g t.call Settled
      → (j : ℕ) → Keeps (update own i g j) (update s.threads i t j).call Settled
  update-Keeps t g k j = elim (Bool-cases (i == j)) [ inl e ↦ rw e k | inr e ↦ rw e (keeps j) ]

  -- Thread `i` only moves what it holds between its scope and its call.
  regroup :
      (t : Thread) (g : Holding)
      → Keeps g t.call Settled
      → g.refs ≤ 1
      → (t.scope.refs + g.refs ≡ (s.threads i).scope.refs + (own i).refs)
        × (t.scope.blocks + g.blocks ≡ (s.threads i).scope.blocks + (own i).blocks)
        × (t.scope.exclusives + g.exclusives ≡ (s.threads i).scope.exclusives + (own i).exclusives)
      → Inv n (record s { threads = update s.threads i t })
  regroup t g k few same = record {
    own = update own i g;
    keeps = update-Keeps t g k;
    at_most_one = λ j. ground (arith, at_most_one j);
    account = omega (
      arith,
      account,
      held-update refs n s.threads own i t g lt,
      held-update blocks n s.threads own i t g lt,
      held-update exclusives n s.threads own i t g lt,
    );
  }

  begin-Inv :
      {max_waiting : ℕ} {c : Holding} {p : Action Holding}
      → (s.threads i).call ≡ ret nothing
      → Includes (s.threads i).scope c
      → Call max_waiting c p
      → Inv n (record s {
        threads = update s.threads i (record { scope = minus (s.threads i).scope c; call = p });
      })
  begin-Inv {c = c} {p = p} e fits call =
      let settled : nothing ≡ own i = rw e at (keeps i) in
      regroup (record { scope = minus (s.threads i).scope c; call = p }) c (Call-Keeps call)
        (Call-refs call) (ground arith, ground arith, ground arith)

  finish-Inv :
      {h : Holding}
      → (s.threads i).call ≡ ret h
      → Inv n (record s {
        threads =
            update s.threads i (record { scope = plus (s.threads i).scope h; call = ret nothing });
      })
  finish-Inv {h} e =
      let settled : h ≡ own i = rw e at (keeps i) in
      regroup (record { scope = plus (s.threads i).scope h; call = ret nothing }) nothing refl
        (omega arith) (ground arith, ground arith, ground arith)

  access-Inv :
      (e : Access) {k : Response e → Action Holding} (miss : Bool)
      → (s.threads i).call ≡ act e k
      → let t : System = record {
        mem = (apply e miss s.mem).1;
        threads =
            update s.threads i
              (record { scope = (s.threads i).scope; call = k (apply e miss s.mem).0 });
      } in
        HasFew n t → Inv n t
  access-Inv e {k} miss h few = record {
    own = update own i g';
    keeps = update-Keeps t g' done.1;
    at_most_one = λ j. ground (arith, at_most_one j, done.2);
    account = Account-cong (regrouped refs) (regrouped blocks) (regrouped exclusives) done.3;
  }
    where
      t : Thread
      t = record { scope = (s.threads i).scope; call = k (apply e miss s.mem).0 }

      others : (Holding → ℕ) → ℕ
      others w = held w n s.threads own - w (own i)

      taken_out : (w : Holding → ℕ) → held w n s.threads own ≡ others w + w (own i)
      taken_out w = omega (arith, le-total w n own i lt)

      room : others refs + 1 < 2 ^ 31
      room = omega (
        arith,
        total-le refs n (update own i one_ref) (λ j. ground (arith, at_most_one j)),
        total-update refs n own i one_ref lt,
        total-update (λ (t : Thread). t.scope.refs) n s.threads i t lt,
        le-total refs n own i lt,
      )

      done :
          After
            (others refs)
            (others blocks)
            (others exclusives)
            room
            e
            s.mem
            miss
            (λ r g. Keeps g (k r) Settled)
      done =
          access-Account (others refs) (others blocks) (others exclusives) room e s.mem miss (own i)
            (λ r g. Keeps g (k r) Settled) (at_most_one i)
            (Account-cong (taken_out refs) (taken_out blocks) (taken_out exclusives) account)
            (rw h at (keeps i))

      g' : Holding
      g' = done.0

      regrouped :
          (w : Holding → ℕ) → others w + w g' ≡ held w n (update s.threads i t) (update own i g')
      regrouped w = omega (arith, le-total w n own i lt, held-update w n s.threads own i t g' lt)

-- Every step of a thread in a call of System.Call, which is not `try_get_exclusive_ref`, not
-- `unblock_refs` of a block whose holder has not seen a count of 0, and not an unsafe constructor of
-- `Ref` or `ExclusiveRef`, keeps the invariant, if fewer than 2^31 references are in scope after it,
-- counting one more for each thread.
pub Step-Inv :
    {n max_waiting : ℕ} {s t : System} → Step n max_waiting s t → HasFew n t → Inv n s → Inv n t
Step-Inv (begin i lt e fits call) few inv = begin-Inv inv i lt e fits call
Step-Inv (access i e miss lt h) few inv = access-Inv inv i lt e miss h few
Step-Inv (finish i lt e) few inv = finish-Inv inv i lt e

count-new : (max_waiting : ℕ) {m : Shared} → new max_waiting ≡ some m → m.count ≡ 0
unfolding new
count-new max_waiting e = ground arith

start-Inv :
    (n max_waiting : ℕ) (m : Shared)
    → n < 2 ^ 31
    → new max_waiting ≡ some m
    → Inv n (record { mem = m; threads = λ i. idle })
start-Inv n max_waiting m few e = record {
  own = λ i. nothing;
  keeps = λ i. refl;
  at_most_one = λ i. omega arith;
  account = omega (
    arith,
    count-new max_waiting e,
    total_const (λ (t : Thread). t.scope.refs) n idle refl,
    total_const (λ (t : Thread). t.scope.blocks) n idle refl,
    total_const (λ (t : Thread). t.scope.exclusives) n idle refl,
    total_const refs n nothing refl,
    total_const blocks n nothing refl,
    total_const exclusives n nothing refl,
  );
}

pub Reach-Inv : {n max_waiting : ℕ} {s : System} → Reach n max_waiting s → Inv n s
Reach-Inv (start few e) = start-Inv _ _ _ few e
Reach-Inv (later r st few) = Step-Inv st few (Reach-Inv r)
