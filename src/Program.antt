-- ===== src/Program.antt =====
-- The language in which the crate's functions are written down: a program is a tree of its accesses
-- to shared memory. `spinning` is a loop whose fuel ran out, `undefined` is undefined behaviour
-- (an access out of bounds, a read of memory that holds no value).
pub mod Laws
use ref_count.Common.{ℕ, Bool, true, false, List, [], ◌∷◌, ◌==◌, if◌then◌else◌}

-- `E` is the type of the atomic accesses and `R e` what the access `e` returns.
pub data Program (E : Type 0) (R : E → Type 0) (A : Type 0) : Type 0 where
  ret : A → Program E R A
  act : (e : E) → (R e → Program E R A) → Program E R A
  spinning : Program E R A
  undefined : Program E R A

module _ {E : Type 0} {R : E → Type 0} where
  infixl 5 ◌>>=◌ ◌>>◌
  abbrev pub ◌>>=◌ : {A B : Type 0} → Program E R A → (A → Program E R B) → Program E R B
  ret a >>= f = f a
  act e k >>= f = act e (λ r. k r >>= f)
  spinning >>= f = spinning
  undefined >>= f = undefined

  abbrev pub ◌>>◌ : {B : Type 0} → Program E R (Unit {0}) → Program E R B → Program E R B
  m >> k = m >>= λ _. k

  -- One access.
  abbrev pub perform : (e : E) → Program E R (R e)
  perform e = act e ret

-- The `Result` of a compare-exchange; the old value of a success is ignored everywhere.
pub data Exchange : Type 0 where
  swapped : Exchange
  failed : (old : ℕ) → Exchange

-- `compare_exchange_weak(current, next)` on a cell that holds `old`: with `miss` it fails although
-- the values agree, as the processor may let it.
abbrev pub exchange : (miss : Bool) → (current next old : ℕ) → Exchange × ℕ
exchange true current next old = (failed old, old)
exchange false current next old = if old == current then (swapped, next) else (failed old, old)

-- How a run of a program by itself ends.
pub data Outcome (A : Type 0) : Type 0 where
  returned : A → Outcome A
  ran_out : Outcome A
  faulted : Outcome A

-- A memory, and which of the next accesses fail spuriously if they are weak compare-exchanges.
pub record World (M : Type 0) : Type 0 where
  pub mem : M
  pub misses : List Bool

abbrev pub next_miss : List Bool → Bool
next_miss [] = false
next_miss (b ∷ bs) = b

abbrev pub later_misses : List Bool → List Bool
later_misses [] = []
later_misses (b ∷ bs) = bs

-- The program runs alone.
module _ {E : Type 0} {R : E → Type 0} {M : Type 0} (apply : (e : E) → Bool → M → R e × M) where
  abbrev pub run : {A : Type 0} → Program E R A → World M → Outcome A × World M
  run (ret a) w = (returned a, w)
  run (act e k) w =
      let (r, m) = apply e (next_miss w.misses) w.mem in
      run (k r) (record { mem = m; misses = later_misses w.misses })
  run spinning w = (ran_out, w)
  run undefined w = (faulted, w)

-- The same program over a larger set of accesses.
module _ {E E' : Type 0} {R : E → Type 0} {R' : E' → Type 0} where
  abbrev pub embed :
      {A : Type 0} (f : E → E') → ((e : E) → R' (f e) → R e) → Program E R A → Program E' R' A
  embed f back (ret a) = ret a
  embed f back (act e k) = act (f e) (λ r. embed f back (k (back e r)))
  embed f back spinning = spinning
  embed f back undefined = undefined
