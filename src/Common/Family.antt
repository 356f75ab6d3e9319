-- ===== src/Common/Family.antt =====
-- Functions on indices as arrays: a write at one index, and a weighted sum over the first `n`.
use Prim.Native.Nat.{ℕ, zero, suc, ◌+◌, ◌≤◌, ◌<◌}
use mathlib.Core.Path.{◌≡◌, refl}
use mathlib.Core.Logic.{◌≢◌}
use native.Mathlib.Omega.{arith}
use ref_count.Common.Logic.{◌==◌, if◌then◌else◌}

abbrev pub update {ℓ} : {A : Type ℓ} (array : ℕ → A) (index : ℕ) → A → ℕ → A
update array index new j = if index == j then new else array j

module _ {ℓ} {A : Type ℓ} (weight : A → ℕ) where
  unfoldable pub total : (n : ℕ) (array : ℕ → A) → ℕ
  total zero array = 0
  total (suc n) array = total n array + weight (array n)

  pub le-total : (n : ℕ) (array : ℕ → A) (k : ℕ) → k < n → weight (array k) ≤ total n array
  unfolding total
  le-total zero array k h = absurd (omega arith)
  le-total (suc n) array k h = ground (arith, le-total n array k)

  -- Two members count separately.
  pub add-le-total :
      (n : ℕ) (array : ℕ → A) (j k : ℕ)
      → j < n
      → k < n
      → j ≢ k
      → weight (array j) + weight (array k) ≤ total n array
  unfolding total
  add-le-total zero array j k hj hk ne = absurd (omega arith)
  add-le-total (suc n) array j k hj hk ne =
      ground (arith, add-le-total n array j k, le-total n array j, le-total n array k)

  pub total_const : (n : ℕ) (x : A) → weight x ≡ 0 → total n (λ _. x) ≡ 0
  unfolding total
  total_const zero x h = refl
  total_const (suc n) x h = omega (arith, total_const n x h)

  pub total_zero : (n : ℕ) (array : ℕ → A) → ((k : ℕ) → weight (array k) ≡ 0) → total n array ≡ 0
  unfolding total
  total_zero zero array h = refl
  total_zero (suc n) array h = omega (arith, total_zero n array h, h n)

  pub total-le : (n : ℕ) (array : ℕ → A) → ((k : ℕ) → weight (array k) ≤ 1) → total n array ≤ n
  unfolding total
  total-le zero array h = omega arith
  total-le (suc n) array h = omega (arith, total-le n array h, h n)

  -- A write outside of the sum, and one inside, where the old member's weight goes out.
  beyond :
      (k : ℕ) (x : A) (n : ℕ) (array : ℕ → A) → n ≤ k → total n (update array k x) ≡ total n array
  unfolding total
  beyond k x zero array h = refl
  beyond k x (suc n) array h = ground (arith, beyond k x n array)

  pub total-update :
      (n : ℕ) (array : ℕ → A) (k : ℕ) (x : A)
      → k < n
      → total n (update array k x) + weight (array k) ≡ total n array + weight x
  unfolding total
  total-update zero array k x h = absurd (omega arith)
  total-update (suc n) array k x h = ground (arith, total-update n array k x, beyond k x n array)
