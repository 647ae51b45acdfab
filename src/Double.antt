-- ===== src/Double.antt =====
-- What the code does with a `double` (and with `<cmath>`), as an interface: the arithmetic itself is
-- the compiler's and the C library's, so every definition of the model takes it as a parameter.
pub mod Fixed
use ant_hoc_net.Prelude.{Bool, false, not, true, ℕ, ◌≡◌}

pub record Double (W : Type 0) : Type 0 where
  -- `literal m e` is the constant m / 10 ^ e of the source
  pub literal : ℕ → ℕ → W
  -- static_cast<double> of an unsigned number
  pub of_nat : ℕ → W
  pub infinity : W
  pub nan : W
  pub neg : W → W
  pub add : W → W → W
  pub sub : W → W → W
  pub mul : W → W → W
  pub div : W → W → W
  pub pow : W → W → W
  pub exp : W → W
  pub sqrt : W → W
  pub fabs : W → W
  pub lt : W → W → Bool
  pub le : W → W → Bool
  pub eq : W → W → Bool
  pub is_nan : W → Bool
  pub is_finite : W → Bool

module _ {W : Type 0} ⦃d : Double W⦄ where
  open d use {literal, lt, le, is_nan}

  abbrev pub nought : W
  nought = literal 0 0

  abbrev pub one : W
  one = literal 1 0

  -- a > b and a >= b
  abbrev pub gt : W → W → Bool
  gt a b = lt b a

  abbrev pub ge : W → W → Bool
  ge a b = le b a

-- The order of IEEE 754: a comparison with NaN fails, and away from NaN the order is total.
pub record IsOrdered (W : Type 0) ⦃d : Double W⦄ : Type 0 where
  pub nought_number : d.is_nan (d.literal 0 0) ≡ false
  pub le_refl : (a : W) → d.is_nan a ≡ false → d.le a a ≡ true
  pub le_trans : (a b c : W) → d.le a b ≡ true → d.le b c ≡ true → d.le a c ≡ true
  pub le_total :
      (a b : W) → d.is_nan a ≡ false → d.is_nan b ≡ false → d.le a b ≡ false → d.le b a ≡ true
  pub lt_iff : (a b : W) → d.is_nan a ≡ false → d.is_nan b ≡ false → d.lt a b ≡ not (d.le b a)
  pub lt_nan : (a b : W) → d.lt a b ≡ true → (d.is_nan a ≡ false) × (d.is_nan b ≡ false)
  pub le_nan : (a b : W) → d.le a b ≡ true → (d.is_nan a ≡ false) × (d.is_nan b ≡ false)
