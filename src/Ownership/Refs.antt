-- ===== src/Ownership/Refs.antt =====
-- The functions of src/lib.rs that take and return standard references keep to the discipline of the
-- counter.
use ref_count.Common.{ℕ, zero, suc, ◌+◌, ◌%◌, ◌^◌, ◌≡◌, refl, ◌<◌, Option, none, some, inl}
use ref_count.Backoff
use ref_count.Backoff.{Backoff}
use ref_count.Consts.{masked}
use ref_count.Consts.Bits.{incremented_lem}
use ref_count.RefCount.Memory.{Action}
use ref_count.RefCount.Ops.{
  weak_try_incr, many_weak_try_incr_refs, Ref, MaybeFuture, ready, future, FutureRef,
  new_future_ref, get_ref, try_get_ref, get_ref_loop, blocking_get_ref, drop_ref,
}
use ref_count.Ownership.{Holding, add_ref, drop_one_ref, IsFree, Keeps}
use ref_count.Ownership.Blocks.{masked-IsFree, Keeps-snooze->>=}

abbrev IsNext : ℕ → ℕ → Type 0
IsNext c n = n ≡ (c + 2) % 2 ^ 32

module _ {A : Type 0} (g : Holding) (none_yet : g.refs ≡ 0) (Q : A → Holding → Type 0) where
  Keeps-weak_try_incr :
      (c n : ℕ) (done : Action A) (rest : (c n : ℕ) → Action A)
      → IsFree c
      → IsNext c n
      → Keeps (add_ref g) done Q
      → ((c n : ℕ) → IsFree c → IsNext c n → Keeps g (rest c n) Q)
      → Keeps g (weak_try_incr c n done rest) Q
  unfolding weak_try_incr
  Keeps-weak_try_incr c n done rest free e hd hr = (
    free,
    inl (e, none_yet, hd),
    λ v lt. hr (masked v) _ (masked-IsFree v lt) (incremented_lem (masked v)),
  )

  -- Four attempts to count one reference more, and what follows them if all fail.
  pub Keeps-many_weak_try_incr_refs :
      (c n : ℕ) (done : Action A) (rest : (c n : ℕ) → Action A)
      → IsFree c
      → IsNext c n
      → Keeps (add_ref g) done Q
      → ((c n : ℕ) → IsFree c → IsNext c n → Keeps g (rest c n) Q)
      → Keeps g (many_weak_try_incr_refs c n done rest) Q
  unfolding many_weak_try_incr_refs
  Keeps-many_weak_try_incr_refs c n done rest f e hd hr =
      Keeps-weak_try_incr c n done _ f e hd λ c n f e.
        Keeps-weak_try_incr c n done _ f e hd λ c n f e.
          Keeps-weak_try_incr c n done _ f e hd
            λ c n f e. (f, inl (e, none_yet, hd), λ v lt. hr c n f e)

-- `get_ref` that is ready has counted its reference.
abbrev pub MaybeCounted : Holding → MaybeFuture Ref FutureRef → Holding → Type 0
MaybeCounted g (ready r) g' = g' ≡ add_ref g
MaybeCounted g (future f) g' = g' ≡ g

pub Keeps-get_ref :
    (address : ℕ) (g : Holding) → g.refs ≡ 0 → Keeps g (get_ref address) (MaybeCounted g)
unfolding get_ref new_future_ref
Keeps-get_ref address g h = λ v lt. inl (
    Keeps-many_weak_try_incr_refs g h (MaybeCounted g) _ _ _ _ (masked-IsFree v lt)
      (incremented_lem (masked v)) refl λ c n f e. refl)

abbrev pub Counted : Holding → Option Ref → Holding → Type 0
Counted g (some r) g' = g' ≡ add_ref g
Counted g none g' = g' ≡ g

pub Keeps-try_get_ref : (g : Holding) → g.refs ≡ 0 → Keeps g try_get_ref (Counted g)
unfolding try_get_ref
Keeps-try_get_ref g h = λ v lt. inl (
    Keeps-many_weak_try_incr_refs g h (Counted g) _ _ _ _ (masked-IsFree v lt)
      (incremented_lem (masked v)) refl λ c n f e. refl)

Keeps-get_ref_loop :
    (fuel : ℕ) (b : Backoff) (c n : ℕ) (g : Holding)
    → g.refs ≡ 0
    → IsFree c
    → IsNext c n
    → Keeps g (get_ref_loop fuel b c n) (λ r g'. g' ≡ add_ref g)
unfolding get_ref_loop
Keeps-get_ref_loop zero b c n g h f e = tt
Keeps-get_ref_loop (suc fuel) b c n g h f e =
    Keeps-many_weak_try_incr_refs g h _ c n _ _ f e refl
      λ c n f e. Keeps-snooze->>= b g _ _ (λ b'. Keeps-get_ref_loop fuel b' c n g h f e)

pub Keeps-blocking_get_ref :
    (fuel : ℕ) (g : Holding) → g.refs ≡ 0 → Keeps g (blocking_get_ref fuel) (λ r g'. g' ≡ add_ref g)
unfolding blocking_get_ref
Keeps-blocking_get_ref fuel g h = λ v lt.
    inl (
      Keeps-get_ref_loop fuel Backoff.new _ _ g h (masked-IsFree v lt) (incremented_lem (masked v)))

-- Dropping a `Ref` gives its reference back.
pub Keeps-drop_ref :
    (r : Ref) (g : Holding) → 0 < g.refs → Keeps g (drop_ref r) (λ u g'. g' ≡ drop_one_ref g)
unfolding drop_ref
Keeps-drop_ref r g h = (refl, h, λ v. refl)
