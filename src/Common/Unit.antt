-- ===== src/Common/Unit.antt =====
-- Numbers between 0 and 1: the laws that keep a weighted mean there, and fixed-point numbers that
-- have them.
use Prim.Native.Nat.{ℕ, ◌+◌, ◌-◌, ◌*◌, ◌/◌, ◌≤◌}
use mathlib.Core.Path.{◌≡◌}
use mathlib.Core.Bool.{true, false}
use native.Mathlib.Omega.{arith}
use intelli_route_team.Common.Tests.{leb}
use intelli_route_team.Common.Float.{Float, IsFloat, IsWhole}

-- Doubles have these too: rounding is monotone, and a + (1 - a) with a rounded difference is within
-- half a unit in the last place of 1, and rounds to it.
pub record IsUnitFloat (F : Type 0) ⦃fl : Float F⦄ : Type 0 where
  pub ratio_nonneg : (n d : ℕ) → fl.fle (fl.ratio 0 1) (fl.ratio n d) ≡ true
  pub add_mono :
      (a b c d : F)
      → fl.fle a b ≡ true
      → fl.fle c d ≡ true
      → fl.fle (fl.add a c) (fl.add b d) ≡ true
  pub mul_shrinks :
      (a b : F)
      → fl.fle (fl.ratio 0 1) a ≡ true
      → fl.fle b (fl.ratio 1 1) ≡ true
      → fl.fle (fl.mul a b) a ≡ true
  pub complement :
      (a : F)
      → fl.fle (fl.ratio 0 1) a ≡ true
      → fl.fle a (fl.ratio 1 1) ≡ true
      → fl.fle (fl.add a (fl.sub (fl.ratio 1 1) a)) (fl.ratio 1 1) ≡ true
  pub div_nonneg :
      (a b : F)
      → fl.fle (fl.ratio 0 1) a ≡ true
      → fl.fle (fl.ratio 0 1) b ≡ true
      → fl.fle (fl.ratio 0 1) (fl.div a b) ≡ true
  pub div_unit :
      (a b : F)
      → fl.fle (fl.ratio 0 1) a ≡ true
      → fl.fle a b ≡ true
      → fl.fle b (fl.ratio 0 1) ≡ false
      → fl.fle (fl.div a b) (fl.ratio 1 1) ≡ true

module _ {F : Type 0} ⦃fl : Float F⦄ where
  -- Between 0 and 1.
  pub record InUnit (x : F) : Type 0 where
    pub nonneg : fl.fle (fl.ratio 0 1) x ≡ true
    pub le_one : fl.fle x (fl.ratio 1 1) ≡ true

  -- `alpha * x + (1 - alpha) * e`
  abbrev pub ema : F → F → F → F
  ema alpha x e = fl.add (fl.mul alpha x) (fl.mul (fl.sub (fl.ratio 1 1) alpha) e)

  module _ (laws : IsFloat F) (unit : IsUnitFloat F) where
    open laws use {fle_trans, add_grows, sub_nonneg, mul_nonneg}

    pub ema-InUnit : (alpha x e : F) → InUnit alpha → InUnit x → InUnit e → InUnit (ema alpha x e)
    ema-InUnit alpha x e a h k =
        let one = fl.ratio 1 1 in
        let zero = fl.ratio 0 1 in
        let rest = fl.sub one alpha in
        let rest_nonneg = sub_nonneg one alpha a.le_one in
        let new_part = fl.mul alpha x in
        let old_part = fl.mul rest e in
        let top = fl.add alpha rest in
        record {
          nonneg =
              fle_trans zero new_part (fl.add new_part old_part)
                (mul_nonneg alpha x a.nonneg h.nonneg)
                (add_grows new_part old_part (mul_nonneg rest e rest_nonneg k.nonneg));
          le_one =
              fle_trans (fl.add new_part old_part) top one
                (unit.add_mono new_part alpha old_part rest
                  (unit.mul_shrinks alpha x a.nonneg h.le_one)
                  (unit.mul_shrinks rest e rest_nonneg k.le_one))
                (unit.complement alpha a.nonneg a.le_one);
        }

-- Thousandths, with products and quotients cut.
abbrev pub milli : Float ℕ
milli = record {
  ratio = λ n d. n * 1000 / d;
  add = ◌+◌;
  sub = ◌-◌;
  mul = λ a b. a * b / 1000;
  div = λ a b. a * 1000 / b;
  fle = leb;
  trunc = λ a. a / 1000;
  round_to = λ n x. x;
  round_int = λ a. (a + 500) / 1000;
}

milli_mul : (a b : ℕ) → b ≤ 1000 → a * b / 1000 ≤ a
milli_mul a b h = grind arith

milli_div : (a b : ℕ) → a ≤ b → 1 ≤ b → a * 1000 / b ≤ 1000
milli_div a b h k = grind arith

pub milli-IsFloat : IsFloat ℕ ⦃fl = milli⦄
milli-IsFloat = record {
  fle_refl = λ a. ground arith;
  fle_trans = λ a b c h k. ground arith;
  fle_total = λ a b h. ground arith;
  fle_antisymm = λ a b h k. ground arith;
  add_grows = λ a b h. ground arith;
  sub_nonneg = λ a b h. ground arith;
  sub_shrinks = λ a b h. ground arith;
  mul_nonneg = λ a b h k. ground arith;
}

pub milli-IsUnitFloat : IsUnitFloat ℕ ⦃fl = milli⦄
milli-IsUnitFloat = record {
  ratio_nonneg = λ n d. ground arith;
  add_mono = λ a b c d h k. ground arith;
  mul_shrinks = λ a b h k. ground (arith, milli_mul a b);
  complement = λ a h k. ground arith;
  div_nonneg = λ a b h k. ground arith;
  div_unit = λ a b h k l. ground (arith, milli_div a b);
}

product_of_thousands : (m n : ℕ) → m * 1000 * (n * 1000) ≡ m * n * 1000 * 1000
product_of_thousands m n = grind arith

milli_mul_of : (m n : ℕ) → m * 1000 / 1 * (n * 1000 / 1) / 1000 ≡ m * n * 1000 / 1
milli_mul_of m n =
    let left : m * 1000 / 1 ≡ m * 1000 = omega arith in
    let right : n * 1000 / 1 ≡ n * 1000 = omega arith in
    rw (left, right) (omega (arith, product_of_thousands m n))

pub milli-IsWhole : IsWhole ℕ ⦃fl = milli⦄
milli-IsWhole = record {
  trunc_of = λ n. omega arith;
  mul_of = milli_mul_of;
  le_of = λ m n. ground arith;
}
