-- ===== src/Float.antt =====
-- Go's `float64`, as a type of numbers with the operations that the program uses. The type and the
-- operations are parameters of the model; the proofs use no law but those of `IsOrdered`, which
-- IEEE 754 gives for all values, NaN among them.
use vpsie_k8s_capi_autoscale.Base.{ℕ, ℤ, pos, ◌≡◌, Bool, true, false}

-- `ratio m n` is the constant that the source writes as the decimal fraction m/n. `to_int` is the
-- conversion `int(x)`.
pub record Float64 (F : Type 0) : Type 0 where
  pub lt : F → F → Bool
  pub le : F → F → Bool
  pub add : F → F → F
  pub sub : F → F → F
  pub mul : F → F → F
  pub div : F → F → F
  pub of_int : ℤ → F
  pub to_int : F → ℤ
  pub ratio : ℕ → ℕ → F

pub record IsOrdered (F : Type 0) ⦃f : Float64 F⦄ : Type 0 where
  pub lt_irrefl : (x : F) → f.lt x x ≡ false
  pub lt_trans : (x y z : F) → f.lt x y ≡ true → f.lt y z ≡ true → f.lt x z ≡ true

abbrev pub nought : {F : Type 0} ⦃f : Float64 F⦄ → F
nought ⦃f⦄ = f.of_int (pos 0)
