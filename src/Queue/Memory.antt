-- ===== src/Queue/Memory.antt =====
-- The fields of `ArrayQueue` in src/array_queue.rs, the accesses that its methods make to them, and
-- what each access does. All accesses are sequentially consistent here. `yield_now` is the macro
-- `yield_now!` of src/backoff.rs, which changes no memory whether or not it yields.
use ref_count.Common.{ℕ, Bool, Option, none, some, update}
use ref_count.Program.{Exchange, exchange}

-- `struct ArrayQueue` with its `buffer` of `struct Slot`s as two arrays. A value is `none` where the
-- slot's `MaybeUninit` holds nothing that may be taken out.
pub record Memory (T : Type 0) : Type 0 where
  pub head : ℕ
  pub tail : ℕ
  pub stamp : ℕ → ℕ
  pub value : ℕ → Option T

pub data Access (T : Type 0) : Type 0 where
  load_head : Access T
  load_tail : Access T
  store_head : ℕ → Access T
  store_tail : ℕ → Access T
  cas_head : (current next : ℕ) → Access T
  cas_tail : (current next : ℕ) → Access T
  load_stamp : (index : ℕ) → Access T
  store_stamp : (index new : ℕ) → Access T
  take_value : (index : ℕ) → Access T
  write_value : (index : ℕ) → T → Access T
  fence : Access T
  spin_loop : (rounds : ℕ) → Access T
  yield_now : Access T

abbrev pub Response : {T : Type 0} → Access T → Type 0
Response load_head = ℕ
Response load_tail = ℕ
Response (cas_head c n) = Exchange
Response (cas_tail c n) = Exchange
Response (load_stamp i) = ℕ
Response {T} (take_value i) = Option T
Response _ = Unit {0}

-- The flag says whether a weak compare-exchange fails spuriously.
module _ {T : Type 0} where
  abbrev pub apply : (e : Access T) → Bool → Memory T → Response e × Memory T
  apply load_head miss m = (m.head, m)
  apply load_tail miss m = (m.tail, m)
  apply (store_head h) miss m = (tt, record m { head = h })
  apply (store_tail t) miss m = (tt, record m { tail = t })
  apply (cas_head c n) miss m = let (r, h) = exchange miss c n m.head in (r, record m { head = h })
  apply (cas_tail c n) miss m = let (r, t) = exchange miss c n m.tail in (r, record m { tail = t })
  apply (load_stamp i) miss m = (m.stamp i, m)
  apply (store_stamp i s) miss m = (tt, record m { stamp = update m.stamp i s })
  apply (take_value i) miss m = (m.value i, record m { value = update m.value i none })
  apply (write_value i v) miss m = (tt, record m { value = update m.value i (some v) })
  apply fence miss m = (tt, m)
  apply (spin_loop n) miss m = (tt, m)
  apply yield_now miss m = (tt, m)
