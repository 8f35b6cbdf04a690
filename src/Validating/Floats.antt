-- ===== src/Validating/Floats.antt =====
-- Floating-point numbers as the scoring code uses them: an interface with the monotonicity that
-- IEEE arithmetic has on finite numbers, and an instance in fixed point.
pub mod FixedPoint
use sentinel_subnet.Base.{Bool, false, true, ℕ, ◌≡◌}

pub record Floats : Type 1 where
  pub F : Type 0
  pub zero : F
  pub one : F
  -- `n / d`, a literal
  pub ratio : (n d : ℕ) → F
  -- `a <= b`
  pub le : F → F → Bool
  pub add : F → F → F
  pub sub : F → F → F
  pub mul : F → F → F
  pub div : F → F → F
  pub le_refl : (a : F) → le a a ≡ true
  pub le_trans : (a b c : F) → le a b ≡ true → le b c ≡ true → le a c ≡ true
  pub le_total : (a b : F) → le a b ≡ false → le b a ≡ true
  pub zero-lt-one : le one zero ≡ false
  pub ratio_nonneg : (n d : ℕ) → le zero (ratio n d) ≡ true
  pub add_mono : (a b c d : F) → le a b ≡ true → le c d ≡ true → le (add a c) (add b d) ≡ true
  pub add_nonneg : (a b : F) → le zero a ≡ true → le zero b ≡ true → le zero (add a b) ≡ true
  pub le-add_left : (a b : F) → le zero b ≡ true → le a (add a b) ≡ true
  pub le-add_right : (a b : F) → le zero a ≡ true → le b (add a b) ≡ true
  pub mul_mono : (w a b : F) → le zero w ≡ true → le a b ≡ true → le (mul w a) (mul w b) ≡ true
  pub sub_mono : (a b c : F) → le a b ≡ true → le (sub a c) (sub b c) ≡ true
  pub sub_anti : (a b c : F) → le a b ≡ true → le (sub c b) (sub c a) ≡ true
  pub sub_nonneg : (a b : F) → le a b ≡ true → le zero (sub b a) ≡ true
  pub sub-le : (a b : F) → le zero b ≡ true → le (sub a b) a ≡ true
  pub sub_pos : (a b : F) → le b a ≡ false → le (sub b a) zero ≡ false
  pub div_mono : (a b d : F) → le d zero ≡ false → le a b ≡ true → le (div a d) (div b d) ≡ true
  pub div_nonneg : (a d : F) → le d zero ≡ false → le zero a ≡ true → le zero (div a d) ≡ true
  pub div-self-le-one : (d : F) → le d zero ≡ false → le (div d d) one ≡ true
