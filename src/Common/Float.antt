-- ===== src/Common/Float.antt =====
-- Python's `float`: the operations that the program applies, and what IEEE 754 says of them.
use Prim.Native.Nat.{ℕ, ◌+◌, ◌-◌, ◌*◌, ◌/◌}
use mathlib.Core.Path.{◌≡◌}
use mathlib.Core.Bool.{Bool, true, false, not}
use native.Mathlib.Omega.{arith}
use intelli_route_team.Common.Tests.{leb, if◌then◌else◌}
use intelli_route_team.Common.Int.{ℤ, pos, pos_part, ◌+ℤ◌, ◌-ℤ◌, ◌*ℤ◌, leb_ℤ}

-- `ratio n d` is the double nearest to n / d, as a literal or an int is read; `trunc` is `int` on
-- a value of at least 0, `round_to n x` is `round(x, n)`, and `round_int` is `round` to an int on a
-- value of at least 0.
pub record Float (F : Type 0) : Type 0 where
  pub ratio : ℕ → ℕ → F
  pub add : F → F → F
  pub sub : F → F → F
  pub mul : F → F → F
  pub div : F → F → F
  pub fle : F → F → Bool
  pub trunc : F → ℕ
  pub round_to : ℕ → F → F
  pub round_int : F → ℕ

module _ {F : Type 0} ⦃fl : Float F⦄ where
  open fl use {ratio, fle}

  abbrev pub nought : F
  nought = ratio 0 1

  -- `float(n)`
  abbrev pub of_ℕ : ℕ → F
  of_ℕ n = ratio n 1

  -- `a < b`, since no value is NaN
  abbrev pub flt : F → F → Bool
  flt a b = not (fle b a)

  -- `a == b`
  abbrev pub feq : F → F → Bool
  feq a b = if fle a b then fle b a else false

  -- `max(a, b)` and `min(a, b)`: the first of two equal values
  abbrev pub fmax : F → F → F
  fmax a b = if flt a b then b else a

  abbrev pub fmin : F → F → F
  fmin a b = if flt b a then b else a

-- Doubles other than NaN, the two zeros taken as one: rounding is monotone, so each of these holds
-- of the rounded operations too.
pub record IsFloat (F : Type 0) ⦃fl : Float F⦄ : Type 0 where
  pub fle_refl : (a : F) → fl.fle a a ≡ true
  pub fle_trans : (a b c : F) → fl.fle a b ≡ true → fl.fle b c ≡ true → fl.fle a c ≡ true
  pub fle_total : (a b : F) → fl.fle a b ≡ false → fl.fle b a ≡ true
  pub fle_antisymm : (a b : F) → fl.fle a b ≡ true → fl.fle b a ≡ true → a ≡ b
  pub add_grows : (a b : F) → fl.fle (fl.ratio 0 1) b ≡ true → fl.fle a (fl.add a b) ≡ true
  pub sub_nonneg : (a b : F) → fl.fle b a ≡ true → fl.fle (fl.ratio 0 1) (fl.sub a b) ≡ true
  pub sub_shrinks : (a b : F) → fl.fle (fl.ratio 0 1) b ≡ true → fl.fle (fl.sub a b) a ≡ true
  pub mul_nonneg :
      (a b : F)
      → fl.fle (fl.ratio 0 1) a ≡ true
      → fl.fle (fl.ratio 0 1) b ≡ true
      → fl.fle (fl.ratio 0 1) (fl.mul a b) ≡ true

-- Numbers whose sums and differences are not rounded.
pub record IsExact (F : Type 0) ⦃fl : Float F⦄ : Type 0 where
  pub add_comm : (a b : F) → fl.add a b ≡ fl.add b a
  pub add_assoc : (a b c : F) → fl.add (fl.add a b) c ≡ fl.add a (fl.add b c)
  pub sub_add : (a b : F) → fl.add (fl.sub a b) b ≡ a
  pub le_sub : (a b c : F) → fl.fle a (fl.sub b c) ≡ fl.fle (fl.add a c) b

-- Numbers that calculate with whole numbers exactly, as doubles do up to 2 ^ 53.
pub record IsWhole (F : Type 0) ⦃fl : Float F⦄ : Type 0 where
  pub trunc_of : (n : ℕ) → fl.trunc (fl.ratio n 1) ≡ n
  pub mul_of : (m n : ℕ) → fl.mul (fl.ratio m 1) (fl.ratio n 1) ≡ fl.ratio (m * n) 1
  pub le_of : (m n : ℕ) → fl.fle (fl.ratio m 1) (fl.ratio n 1) ≡ leb m n

-- Whole numbers, which doubles hold exactly up to 2 ^ 53; a quotient is cut to a whole number.
abbrev pub div_ℤ : ℤ → ℤ → ℤ
div_ℤ a b = pos (pos_part a / pos_part b)

instance abbrev pub int_float : Float ℤ
int_float = record {
  ratio = λ n d. pos (n / d);
  add = ◌+ℤ◌;
  sub = ◌-ℤ◌;
  mul = ◌*ℤ◌;
  div = div_ℤ;
  fle = leb_ℤ;
  trunc = pos_part;
  round_to = λ n x. x;
  round_int = pos_part;
}

mul_ℤ_nonneg :
    (a b : ℤ) → leb_ℤ (pos 0) a ≡ true → leb_ℤ (pos 0) b ≡ true → leb_ℤ (pos 0) (a *ℤ b) ≡ true
unfolding ◌*ℤ◌
mul_ℤ_nonneg a b h k = ground arith

pub int-IsFloat : IsFloat ℤ
unfolding ◌+ℤ◌ ◌-ℤ◌
int-IsFloat = record {
  fle_refl = λ a. ground arith;
  fle_trans = λ a b c h k. ground arith;
  fle_total = λ a b h. ground arith;
  fle_antisymm = λ a b h k. ground arith;
  add_grows = λ a b h. ground arith;
  sub_nonneg = λ a b h. ground arith;
  sub_shrinks = λ a b h. ground arith;
  mul_nonneg = mul_ℤ_nonneg;
}

-- Hundredths, with exact sums and differences; a product or a quotient is cut to one of at least 0.
abbrev pub hundredths : Float ℤ
hundredths = record {
  ratio = λ n d. pos (n * 100 / d);
  add = ◌+ℤ◌;
  sub = ◌-ℤ◌;
  mul = λ a b. div_ℤ (a *ℤ b) (pos 100);
  div = λ a b. div_ℤ (a *ℤ pos 100) b;
  fle = leb_ℤ;
  trunc = λ a. pos_part a / 100;
  round_to = λ n x. x;
  round_int = λ a. (pos_part a + 50) / 100;
}

pub hundredths-IsFloat : IsFloat ℤ ⦃fl = hundredths⦄
unfolding ◌+ℤ◌ ◌-ℤ◌
hundredths-IsFloat = record {
  fle_refl = λ a. ground arith;
  fle_trans = λ a b c h k. ground arith;
  fle_total = λ a b h. ground arith;
  fle_antisymm = λ a b h k. ground arith;
  add_grows = λ a b h. ground arith;
  sub_nonneg = λ a b h. ground arith;
  sub_shrinks = λ a b h. ground arith;
  mul_nonneg = λ a b h k. ground arith;
}

pub hundredths-IsExact : IsExact ℤ ⦃fl = hundredths⦄
unfolding ◌+ℤ◌ ◌-ℤ◌
hundredths-IsExact = record {
  add_comm = λ a b. ground arith;
  add_assoc = λ a b c. ground arith;
  sub_add = λ a b. ground arith;
  le_sub = λ a b c. ground arith;
}

-- Whole numbers of at least 0, for code that takes a difference only where it is at least 0 or cuts
-- it at 0.
instance abbrev pub nat_float : Float ℕ
nat_float = record {
  ratio = λ n d. n / d;
  add = ◌+◌;
  sub = ◌-◌;
  mul = ◌*◌;
  div = ◌/◌;
  fle = leb;
  trunc = λ n. n;
  round_to = λ n x. x;
  round_int = λ n. n;
}

pub nat-IsFloat : IsFloat ℕ
nat-IsFloat = record {
  fle_refl = λ a. ground arith;
  fle_trans = λ a b c h k. ground arith;
  fle_total = λ a b h. ground arith;
  fle_antisymm = λ a b h k. ground arith;
  add_grows = λ a b h. ground arith;
  sub_nonneg = λ a b h. ground arith;
  sub_shrinks = λ a b h. ground arith;
  mul_nonneg = λ a b h k. ground arith;
}

module _ {F : Type 0} ⦃fl : Float F⦄ (laws : IsFloat F) where
  open fl use {fle}
  open laws use {fle_refl, fle_trans, fle_total}

  pub le-fmax : (a b : F) → fle a (fmax a b) ≡ true
  le-fmax a b = ground (arith, fle_refl a, fle_total b a)

  pub fmin-le : (a b : F) → fle (fmin a b) a ≡ true
  fmin-le a b = ground (arith, fle_refl a, fle_total a b)

  pub fmin-le_right : (a b : F) → fle (fmin a b) b ≡ true
  fmin-le_right a b = ground (arith, fle_refl b, fle_total b a)

  pub le-fmin : (a b c : F) → fle c a ≡ true → fle c b ≡ true → fle c (fmin a b) ≡ true
  le-fmin a b c h k = ground arith
