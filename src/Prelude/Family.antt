-- ===== src/Prelude/Family.antt =====
-- Families of numbers indexed by handles: the update of one member, and the sum over the first `n`.
use Prim.Native.Nat.{ℕ, zero, suc, ◌+◌, ◌≤◌, ◌<◌}
use mathlib.Core.Path.{◌≡◌, refl}
use mathlib.Core.Logic.{◌≢◌}
use native.Mathlib.Omega.{arith}
use sqlite.Prelude.Tests.{◌==◌, if◌then◌else◌}

abbrev pub update {ℓ} : {A : Type ℓ} → (ℕ → A) → ℕ → A → ℕ → A
update f i v j = if j == i then v else f j

-- The sum of `w (f i)` over `i < n`.
pub total {ℓ} : {A : Type ℓ} → (A → ℕ) → ℕ → (ℕ → A) → ℕ
total w zero f = 0
total w (suc n) f = w (f n) + total w n f

module _ {ℓ} {A : Type ℓ} (w : A → ℕ) where
  pub total-update_out :
      (n : ℕ) (f : ℕ → A) (i : ℕ) (v : A) → n ≤ i → total w n (update f i v) ≡ total w n f
  unfolding total
  total-update_out zero f i v h = refl
  total-update_out (suc n) f i v h = ground (arith, total-update_out n f i v)

  pub total-update :
      (n : ℕ) (f : ℕ → A) (i : ℕ) (v : A)
      → i < n
      → total w n (update f i v) + w (f i) ≡ total w n f + w v
  unfolding total
  total-update zero f i v h = elim h [ ]
  total-update (suc n) f i v h = ground (arith, total-update n f i v, total-update_out n f i v)

  -- A member is at most the sum, and two members together are too.
  pub le-total : (n : ℕ) (f : ℕ → A) (i : ℕ) → i < n → w (f i) ≤ total w n f
  unfolding total
  le-total zero f i h = elim h [ ]
  le-total (suc n) f i h = ground (arith, le-total n f i)

  pub two-le-total :
      (n : ℕ) (f : ℕ → A) (i j : ℕ) → i < n → j < n → i ≢ j → w (f i) + w (f j) ≤ total w n f
  unfolding total
  two-le-total zero f i j h k ne = elim h [ ]
  two-le-total (suc n) f i j h k ne =
      ground (arith, two-le-total n f i j, le-total n f i, le-total n f j)

  pub total-eq-zero : (n : ℕ) (f : ℕ → A) → ((i : ℕ) → i < n → w (f i) ≡ 0) → total w n f ≡ 0
  unfolding total
  total-eq-zero zero f h = refl
  total-eq-zero (suc n) f h =
      omega (arith, h n (omega arith), total-eq-zero n f (λ i lt. h i (omega arith)))
