-- ===== src/Solo/Equal.antt =====
-- The attempts of `get_ref` and `try_get_ref` of src/lib.rs.
use mathlib.Core.Path.{fun_ext}
use ref_count.Common.{ℕ, ◌≡◌, refl, sym, ap, none, some}
use ref_count.Consts.{masked, incremented}
use ref_count.Program.{Exchange, swapped, failed, ret, act, ◌>>=◌}
use ref_count.RefCount.Memory.{Action, cas_count, load_count}
use ref_count.RefCount.Ops.{
  ready, future, get_ref, try_get_ref, new_future_ref, weak_try_update, weak_try_incr,
  many_weak_try_incr_refs,
}

-- What follows an attempt can be moved into its two ends.
module _ {A B : Type 0} (done : Action A) (f : A → Action B) where
  weak_try_update->>= :
      (current next : ℕ) (lost : ℕ → Action A) (lost' : ℕ → Action B)
      → ((s : ℕ) → (lost s >>= f) ≡ lost' s)
      → (weak_try_update current next done lost >>= f)
        ≡ weak_try_update current next (done >>= f) lost'
  weak_try_update->>= current next lost lost' e = ap (act (cas_count current next)) (fun_ext answer)
    where
      answer :
          (r : Exchange)
          → (elim r [ swapped ↦ done | failed s ↦ lost s ] >>= f)
            ≡ elim r [ swapped ↦ done >>= f | failed s ↦ lost' s ]
      answer swapped = refl
      answer (failed s) = e s

  weak_try_incr->>= :
      (current next : ℕ) (rest : (current next : ℕ) → Action A)
      (rest' : (current next : ℕ) → Action B)
      → ((c n : ℕ) → (rest c n >>= f) ≡ rest' c n)
      → (weak_try_incr current next done rest >>= f) ≡ weak_try_incr current next (done >>= f) rest'
  unfolding weak_try_incr
  weak_try_incr->>= current next rest rest' e =
      weak_try_update->>= current next _ _ (λ s. e (masked s) (incremented (masked s)))

  many_weak_try_incr_refs->>= :
      (current next : ℕ) (rest : (current next : ℕ) → Action A)
      (rest' : (current next : ℕ) → Action B)
      → ((c n : ℕ) → (rest c n >>= f) ≡ rest' c n)
      → (many_weak_try_incr_refs current next done rest >>= f)
        ≡ many_weak_try_incr_refs current next (done >>= f) rest'
  unfolding many_weak_try_incr_refs
  many_weak_try_incr_refs->>= current next rest rest' e = weak_try_incr->>= current next _ _ λ c n.
      weak_try_incr->>= c n _ _
        λ c n. weak_try_incr->>= c n _ _ λ c n. weak_try_update->>= c n _ _ λ s. e c n

-- `get_ref` makes exactly the accesses of `try_get_ref`, in the same order under every reply of the
-- memory, and then returns the reference or makes a future.
pub get_ref-try_get_ref :
    (address : ℕ)
    → get_ref address ≡ (
        try_get_ref >>= elim [
          | some r ↦ ret (ready r)
          | none ↦ (do f ← new_future_ref address; ret (future f))
        ])
unfolding get_ref try_get_ref
get_ref-try_get_ref address = ap (act load_count) (
    fun_ext λ loaded. sym (
      many_weak_try_incr_refs->>= _ _ (masked loaded) (incremented (masked loaded)) _ _
        (λ c n. refl)))
