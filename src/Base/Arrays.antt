-- ===== src/Base/Arrays.antt =====
-- Arrays of fixed size as functions of the index: every access of the program is taken modulo
-- the size of the array.
use Prim.Native.Nat.{ℕ}
use mathlib.Core.Path.{◌≡◌, fun_ext}
use mathlib.Core.Logic.{◌≢◌}
use native.Mathlib.Omega.{arith}
use dubuframework.Base.Tests.{◌==◌, if◌then◌else◌}

-- `a[i] = v`
abbrev pub update {ℓ} : {A : Type ℓ} → (ℕ → A) → ℕ → A → ℕ → A
update a i v j = if i == j then v else a j

module _ {ℓ} {A : Type ℓ} (a : ℕ → A) (i : ℕ) (v : A) where
  pub update_self : update a i v i ≡ v
  update_self = ground arith

  pub update_ne : (j : ℕ) → i ≢ j → update a i v j ≡ a j
  update_ne j h = ground arith

-- Writing what is there already changes nothing.
pub update-same {ℓ} : {A : Type ℓ} (a : ℕ → A) (i : ℕ) → update a i (a i) ≡ a
update-same a i = fun_ext (λ j. ground arith)
