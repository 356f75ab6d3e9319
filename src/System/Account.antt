-- ===== src/System/Account.antt =====
-- What the counter of src/lib.rs says about all threads together, and that an access which keeps to
-- the discipline keeps it true.
use ref_count.Common.{
  ℕ, ◌+◌, ◌*◌, ◌^◌, ◌≤◌, ◌<◌, ◌≡◌, inl, inr, Bool, true, false, arith, ◌==◌, Bool-cases, ==_iff,
}
use ref_count.RefCount.Memory.{
  Shared, Access, Response, load_count, store_count, fetch_sub_count, cas_count, queue, load_flag,
  store_flag, wake_task, apply,
}
use ref_count.Ownership.{
  Holding, Allows, add_ref, add_block, promote, drop_one_ref, drop_one_exclusive,
}

-- The counter counts all references twice and all blocks and exclusive references once; there is at
-- most one of the latter, and no reference beside an exclusive one.
pub record Account (count refs blocks exclusives : ℕ) : Type 0 where
  pub counts : count ≡ 2 * refs + blocks + exclusives
  pub few : refs < 2 ^ 31
  pub single : blocks + exclusives ≤ 1
  pub alone : 0 < exclusives → refs ≡ 0

-- The account of a thread that holds `g` beside `r`, `b` and `x` held otherwise.
abbrev pub AccountWith : ℕ → ℕ → ℕ → ℕ → Holding → Type 0
AccountWith count r b x g = Account count (r + g.refs) (b + g.blocks) (x + g.exclusives)

module _ (r b x : ℕ) (room : r + 1 < 2 ^ 31) where
  -- After the access the thread holds some `g'` with which its rest satisfies what the rules ask for.
  abbrev pub After : (e : Access) (m : Shared) → Bool → (Response e → Holding → Type 0) → Type 0
  After e m miss Q =
      (g' : Holding) × Q (apply e miss m).0 g'
      × (g'.refs ≤ 1)
      × AccountWith (apply e miss m).1.count r b x g'

  access_cas :
      (c n : ℕ) (m : Shared) (miss : Bool) (g : Holding)
      (Q : Response (cas_count c n) → Holding → Type 0)
      → g.refs ≤ 1
      → AccountWith m.count r b x g
      → Allows (cas_count c n) g Q
      → After (cas_count c n) m miss Q
  access_cas c n m true g Q h a rule = (g, rule.2 m.count (omega arith), h, a)
  access_cas c n m false g Q h a rule = elim (Bool-cases (m.count == c)) [
    | inl e ↦ elim rule.1 [
      | inl q ↦ rw e (add_ref g, q.2, omega arith, ground (arith, (==_iff _ _).0 e))
      | inr q ↦ rw e (add_block g, q.1, h, ground (arith, (==_iff _ _).0 e))
    ]
    | inr e ↦ rw e (g, rule.2 m.count (omega arith), h, a)
  ]

  pub access-Account :
      (e : Access) (m : Shared) (miss : Bool) (g : Holding) (Q : Response e → Holding → Type 0)
      → g.refs ≤ 1
      → AccountWith m.count r b x g
      → Allows e g Q
      → After e m miss Q
  access-Account load_count m miss g Q h a rule = elim (rule m.count (omega arith)) [
    | inl q ↦ (g, q, h, a)
    | inr q ↦ (promote g, q.2, h, ground arith)
  ]
  access-Account (store_count n) m miss g Q h a rule =
      (drop_one_exclusive g, rule.2, h, ground arith)
  access-Account (fetch_sub_count n) m miss g Q h a rule =
      (drop_one_ref g, rule.2 m.count, omega arith, ground arith)
  access-Account (cas_count c n) m miss g Q h a rule = access_cas c n m miss g Q h a rule
  access-Account (queue e) m miss g Q h a rule = (g, rule _, h, a)
  access-Account (load_flag f) m miss g Q h a rule = (g, rule _, h, a)
  access-Account (store_flag f v) m miss g Q h a rule = (g, rule, h, a)
  access-Account (wake_task w) m miss g Q h a rule = (g, rule, h, a)
