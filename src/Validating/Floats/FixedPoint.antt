-- ===== src/Validating/Floats/FixedPoint.antt =====
-- Ten thousandths, rounded down: numbers from 0 on that satisfy the interface.
use native.Mathlib.Nat.{le-div_iff_mul-le, div-mul-le_self, div-le_of_le-mul, le_refl}
use sentinel_subnet.Validating.Floats.{Floats}
use sentinel_subnet.Base.{arith, leb, refl, ℕ, ◌*◌, ◌+◌, ◌-◌, ◌/◌, ◌<◌, ◌≤◌}

abbrev scale : ℕ
scale = 10000

pub mul_mono_lem : (w a b : ℕ) → a ≤ b → w * a / 10000 ≤ w * b / 10000
mul_mono_lem w a b h = let p : w * a ≤ w * b = grind arith in omega arith

pub div_mono_lem : (a b d : ℕ) → 0 < d → a ≤ b → a * 10000 / d ≤ b * 10000 / d
div_mono_lem a b d p h = (le-div_iff_mul-le p).1 (omega (arith, div-mul-le_self (a * 10000) d))

pub div_self_lem : (d : ℕ) → d * 10000 / d ≤ 10000
div_self_lem d = div-le_of_le-mul d (le_refl (d * 10000))

abbrev pub fixed_point : Floats
fixed_point = record {
  F = ℕ;
  zero = 0;
  one = 10000;
  ratio = λ n d. n * 10000 / d;
  le = leb;
  add = ◌+◌;
  sub = ◌-◌;
  mul = λ w a. w * a / 10000;
  div = λ a d. a * 10000 / d;
  le_refl = λ a. ground arith;
  le_trans = λ a b c h k. ground arith;
  le_total = λ a b h. ground arith;
  zero-lt-one = refl;
  ratio_nonneg = λ n d. ground arith;
  add_mono = λ a b c d h k. ground arith;
  add_nonneg = λ a b h k. ground arith;
  le-add_left = λ a b h. ground arith;
  le-add_right = λ a b h. ground arith;
  mul_mono = λ w a b h k. ground (arith, mul_mono_lem w a b);
  sub_mono = λ a b c h. ground arith;
  sub_anti = λ a b c h. ground arith;
  sub_nonneg = λ a b h. ground arith;
  sub-le = λ a b h. ground arith;
  sub_pos = λ a b h. ground arith;
  div_mono = λ a b d p h. ground (arith, div_mono_lem a b d);
  div_nonneg = λ a d p h. ground arith;
  div-self-le-one = λ d p. ground (arith, div_self_lem d);
}
