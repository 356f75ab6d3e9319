-- ===== src/Program/Laws.antt =====
-- Runs of composed programs, and the list of spurious failures that is used up.
use ref_count.Common.{Bool, true, ◌≤◌, ◌<◌, ◌≡◌, refl, List, [], ◌∷◌, length, arith}
use ref_count.Program.{
  Program, ret, act, spinning, undefined, Outcome, returned, ran_out, faulted, World, next_miss,
  later_misses, ◌>>=◌, run,
}

pub length-later_misses : (misses : List Bool) → length (later_misses misses) ≤ length misses
length-later_misses [] = omega arith
length-later_misses (b ∷ bs) = omega arith

-- A spurious failure uses up an entry of the list.
pub length-later_misses_of_miss :
    (misses : List Bool) → next_miss misses ≡ true → length (later_misses misses) < length misses
length-later_misses_of_miss [] h = absurd (cc)
length-later_misses_of_miss (b ∷ bs) h = omega arith

module _ {E : Type 0} {R : E → Type 0} {M : Type 0} (apply : (e : E) → Bool → M → R e × M) where
  -- What follows a run that ended as given.
  abbrev pub proceed :
      {A B : Type 0} → Outcome A × World M → (A → Program E R B) → Outcome B × World M
  proceed (returned a, w) f = run apply (f a) w
  proceed (ran_out, w) f = (ran_out, w)
  proceed (faulted, w) f = (faulted, w)

  pub run->>= :
      {A B : Type 0} (m : Program E R A) (f : A → Program E R B) (w : World M)
      → run apply (m >>= f) w ≡ proceed (run apply m w) f
  run->>= (ret a) f w = refl
  run->>= (act e k) f w =
      let (r, m) = apply e (next_miss w.misses) w.mem in
      run->>= (k r) f (record { mem = m; misses = later_misses w.misses })
  run->>= spinning f w = refl
  run->>= undefined f w = refl

  -- A run uses the list up from the front.
  pub length-misses :
      {A : Type 0} (m : Program E R A) (w : World M)
      → length (run apply m w).1.misses ≤ length w.misses
  length-misses (ret a) w = omega arith
  length-misses (act e k) w =
      let (r, m) = apply e (next_miss w.misses) w.mem in
      omega (
        arith,
        length-misses (k r) (record { mem = m; misses = later_misses w.misses }),
        length-later_misses w.misses,
      )
  length-misses spinning w = omega arith
  length-misses undefined w = omega arith
