-- ===== src/Base/Maps.antt =====
-- Memory and tables as functions from addresses or indices.
use Prim.Native.Nat.{ℕ}
use mathlib.Core.Path.{◌≡◌, ◌∙◌}
use mathlib.Core.Logic.{◌≢◌}
use native.Mathlib.Omega.{arith}
use liha_linux.Base.Tests.{◌==◌, if◌then◌else◌}

module _ {ℓ} {A : Type ℓ} where
  -- `f[i] = x`.
  abbrev pub update : (ℕ → A) → ℕ → A → ℕ → A
  update f i x j = if j == i then x else f j

  pub update_self : (f : ℕ → A) (i : ℕ) (x : A) → update f i x i ≡ x
  update_self f i x = ground arith

  pub update_ne : (f : ℕ → A) (i j : ℕ) (x : A) → j ≢ i → update f i x j ≡ f j
  update_ne f i j x h = ground arith

  -- Two writes at different places.
  module _ (f : ℕ → A) (i j : ℕ) (x y : A) where
    pub update_two_first : i ≢ j → update (update f i x) j y i ≡ x
    update_two_first h = update_ne (update f i x) j i y h ∙ update_self f i x

    pub update_two_other : (k : ℕ) → k ≢ i → k ≢ j → update (update f i x) j y k ≡ f k
    update_two_other k p q = update_ne (update f i x) j k y q ∙ update_ne f i k x p
