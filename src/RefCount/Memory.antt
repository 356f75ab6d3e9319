-- ===== src/RefCount/Memory.antt =====
-- What the threads of a program share through one `RefCount` of src/lib.rs, and the accesses that
-- the crate's functions make to it. All accesses are sequentially consistent here.
use mathlib.Core.Option
use ref_count.Common.{ℕ, ◌+◌, ◌-◌, ◌%◌, Bool, false, Option, List, [], ◌∷◌, ◌++◌, update}
use ref_count.Consts.{u32_mod}
use ref_count.Program.{Program, Exchange, exchange, embed}
use ref_count.Queue.Memory as Queue
use ref_count.Queue.Ops
use ref_count.Queue.Ops.{Method}

-- `struct Waiter` of src/waiter.rs: the task to wake, and the address of the flag in its future.
pub record Waiter : Type 0 where
  pub waker : ℕ
  pub registered : ℕ

-- `struct RefCount`, the `registered` flags of the futures by their address, and the calls of
-- `Waker::wake` and `wake_by_ref` so far, the latest last.
pub record Shared : Type 0 where
  pub count : ℕ
  pub waiter_queue : Queue.Memory Waiter
  pub registered : ℕ → Bool
  pub woken : List ℕ

pub data Access : Type 0 where
  load_count : Access
  store_count : ℕ → Access
  fetch_sub_count : ℕ → Access
  cas_count : (current next : ℕ) → Access
  queue : Queue.Access Waiter → Access
  load_flag : (address : ℕ) → Access
  store_flag : (address : ℕ) → Bool → Access
  wake_task : (waker : ℕ) → Access

abbrev pub Response : Access → Type 0
Response load_count = ℕ
Response (fetch_sub_count n) = ℕ
Response (cas_count c n) = Exchange
Response (queue e) = Queue.Response e
Response (load_flag a) = Bool
Response _ = Unit {0}

abbrev pub apply : (e : Access) → Bool → Shared → Response e × Shared
apply load_count miss m = (m.count, m)
apply (store_count n) miss m = (tt, record m { count = n })
apply (fetch_sub_count n) miss m = (m.count, record m { count = (m.count + u32_mod - n) % u32_mod })
apply (cas_count c n) miss m =
    let (r, count) = exchange miss c n m.count in (r, record m { count = count })
apply (queue e) miss m =
    let (r, q) = Queue.apply e miss m.waiter_queue in (r, record m { waiter_queue = q })
apply (load_flag a) miss m = (m.registered a, m)
apply (store_flag a b) miss m = (tt, record m { registered = update m.registered a b })
apply (wake_task w) miss m = (tt, record m { woken = m.woken ++ (w ∷ []) })

-- A function of the crate.
abbrev pub Action : Type 0 → Type 0
Action A = Program Access Response A

-- A call of a method of `waiter_queue`.
abbrev pub on_queue : {A : Type 0} → Method Waiter A → Action A
on_queue m = embed queue (λ e r. r) m

-- `RefCount::new`; `none` is the panic of `ArrayQueue::new`.
unfoldable pub new : (max_waiting : ℕ) → Option Shared
unfolding Ops.new
new max_waiting =
    Option.map (λ q. record { count = 0; waiter_queue = q; registered = λ a. false; woken = [] })
      (Ops.new max_waiting)
