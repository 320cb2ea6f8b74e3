-- ===== src/Base/Family.antt =====
-- Families `ℕ → A`: memory, page tables and tables of pointers. An update at one index, and the
-- sum of a weight over the first `n` indices.
use Prim.Native.Nat.{ℕ, zero, suc, ◌+◌, ◌≤◌, ◌<◌}
use mathlib.Core.Path.{◌≡◌, refl, ap₂}
use mathlib.Core.Logic.{◌≢◌}
use native.Mathlib.Omega.{arith}
use native.Mathlib.Decide.{ℕ_discrete}
use operating_system_osv.Base.Tests.{◌==◌, if◌then◌else◌}

module _ {ℓ} {A : Type ℓ} where
  abbrev pub update : (ℕ → A) → ℕ → A → ℕ → A
  update f i a j = if i == j then a else f j

  pub update_self : (f : ℕ → A) (i : ℕ) (a : A) → update f i a i ≡ a
  update_self f i a = ground arith

  pub update_ne : (f : ℕ → A) (i : ℕ) (a : A) (j : ℕ) → i ≢ j → update f i a j ≡ f j
  update_ne f i a j h = ground arith

unfoldable pub sum_below : ℕ → (ℕ → ℕ) → ℕ
sum_below zero f = 0
sum_below (suc n) f = sum_below n f + f n

pub sum_below_congr :
    (n : ℕ) (f g : ℕ → ℕ) → ((i : ℕ) → i < n → f i ≡ g i) → sum_below n f ≡ sum_below n g
unfolding sum_below
sum_below_congr zero f g h = refl
sum_below_congr (suc n) f g h =
    ap₂ ◌+◌ (sum_below_congr n f g (λ i lt. h i (omega arith))) (h n (omega arith))

sum_below-update_le :
    (n : ℕ) (f : ℕ → ℕ) (i a : ℕ) → n ≤ i → sum_below n (update f i a) ≡ sum_below n f
unfolding sum_below
sum_below-update_le zero f i a h = refl
sum_below-update_le (suc n) f i a h = ground (arith, sum_below-update_le n f i a)

pub sum_below-update :
    (n : ℕ) (f : ℕ → ℕ) (i a : ℕ) → i < n → sum_below n (update f i a) + f i ≡ sum_below n f + a
unfolding sum_below
sum_below-update zero f i a h = absurd (omega arith)
sum_below-update (suc n) f i a h = elim (ℕ_discrete i n) [
  | yes e ↦ ground (arith, sum_below-update_le n f i a)
  | no ne ↦ ground (arith, sum_below-update n f i a)
]
