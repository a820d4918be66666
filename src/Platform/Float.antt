-- ===== src/Platform/Float.antt =====
-- What the sources do with a `float`: IEEE 754 binary32, with the literals that they name. `W` is
-- the type of floats.
use kiwi_network_patches.Prelude.{◌≡◌, Bool, true}

pub record FloatOps (W : Type 0) : Type 0 where
  -- The conversion of the `int` 1.
  pub one : W
  -- `0.1f` and `0.8f`.
  pub one_tenth : W
  pub four_fifths : W
  pub add : W → W → W
  pub sub : W → W → W
  pub mul : W → W → W
  -- The comparison with the `double` 0.3, behind the promotion to `double`.
  pub exceeds_three_tenths : W → Bool

-- Behaviour of the standard: operations with a constant that is positive and finite round
-- monotonically, and so does the promotion. The last laws are values of the arithmetic.
pub record IsRounded {W : Type 0} (ops : FloatOps W) : Type 1 where
  pub Le : W → W → Type 0
  pub zero : W
  pub le_refl : (x : W) → Le x x
  pub le_trans : (x y z : W) → Le x y → Le y z → Le x z
  pub add-le : (x y : W) → Le x y → Le (ops.add x ops.one_tenth) (ops.add y ops.one_tenth)
  pub mul-le :
      (x y : W)
      → Le x y
      → Le (ops.mul (ops.sub ops.one ops.one_tenth) x) (ops.mul (ops.sub ops.one ops.one_tenth) y)
  pub le-add : (x : W) → Le zero x → Le x (ops.add x ops.one_tenth)
  pub exceeds-le :
      (x y : W) → Le x y → ops.exceeds_three_tenths x ≡ true → ops.exceeds_three_tenths y ≡ true
  pub mul-zero : Le zero (ops.mul (ops.sub ops.one ops.one_tenth) zero)
  pub mul-one : Le (ops.mul (ops.sub ops.one ops.one_tenth) ops.one) ops.one
  pub full : Le (ops.add (ops.mul (ops.sub ops.one ops.one_tenth) ops.one) ops.one_tenth) ops.one
  pub zero_le : Le zero ops.four_fifths
  pub le_one : Le ops.four_fifths ops.one
