-- ===== src/Prelude/Arrays.antt =====
-- Fixed arrays as functions of the index.
use Prim.Native.Nat.{ℕ}
use mathlib.Core.Path.{◌≡◌, refl}
use mathlib.Core.Logic.{◌≢◌}
use axi_interconnect_kit.Prelude.Tests.{if◌then◌else◌, ◌==◌, ==_self, ==_ne}

module _ {ℓ} {A : Type ℓ} where
  -- One element changed.
  unfoldable pub update : (ℕ → A) → ℕ → (A → A) → ℕ → A
  update f i g j = if i == j then g (f j) else f j

  pub update_self : (f : ℕ → A) (i : ℕ) (g : A → A) → update f i g i ≡ g (f i)
  unfolding update
  update_self f i g = rw (==_self i) refl

  pub update_ne : (f : ℕ → A) (i j : ℕ) (g : A → A) → i ≢ j → update f i g j ≡ f j
  unfolding update
  update_ne f i j g h = rw (==_ne i j h) refl
