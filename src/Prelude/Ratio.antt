-- ===== src/Prelude/Ratio.antt =====
-- Exact ratios that are not negative, as `big.Rat` computes them. A ratio need not be in lowest
-- terms: what the code does with a `big.Rat` does not depend on it.
use Prim.Native.Nat.{ℕ, suc, ◌+◌, ◌-◌, ◌*◌, ◌/◌, ◌%◌, ◌≤◌, ◌<◌}
use mathlib.Core.Path.{◌≡◌, ap}
use mathlib.Core.Bool.{Bool, not}
use mathlib.Core.Logic.{inl, inr}
use native.Mathlib.Nat.{
  mul-le-mul_right, mul-pos, le_of_mul-le-mul_right, div-mul-le_self, div-add-mod', mod-lt,
  zero-lt-suc,
}
use native.Mathlib.Omega.{arith}
use venuewire.Prelude.Tests.{leb, ◌==◌, ==_iff, if◌then◌else◌, Bool-cases}

pub record Ratio : Type 0 where
  pub num : ℕ
  pub den : ℕ
  pub den_pos : 0 < den

unfoldable pub whole : ℕ → Ratio
whole n = record { num = n; den = 1; den_pos = zero-lt-suc 0 }

-- `Cmp`.
abbrev pub leb_ratio : Ratio → Ratio → Bool
leb_ratio a b = leb (a.num * b.den) (b.num * a.den)

abbrev pub ltb_ratio : Ratio → Ratio → Bool
ltb_ratio a b = not (leb_ratio b a)

infix 50 ◌≤R◌
abbrev pub ◌≤R◌ : Ratio → Ratio → Type 0
a ≤R b = a.num * b.den ≤ b.num * a.den

unfoldable pub mul : Ratio → Ratio → Ratio
mul a b = record { num = a.num * b.num; den = a.den * b.den; den_pos = mul-pos a.den_pos b.den_pos }

unfoldable pub add : Ratio → Ratio → Ratio
add a b = record {
  num = a.num * b.den + b.num * a.den;
  den = a.den * b.den;
  den_pos = mul-pos a.den_pos b.den_pos;
}

-- `Sub`, of a number that is not larger.
unfoldable pub sub : Ratio → Ratio → Ratio
sub a b = record {
  num = a.num * b.den - b.num * a.den;
  den = a.den * b.den;
  den_pos = mul-pos a.den_pos b.den_pos;
}

-- `Quo`, by a positive number.
unfoldable pub quo : Ratio → Ratio → Ratio
quo a b = record { num = a.num * b.den; den = suc (a.den * b.num - 1); den_pos = zero-lt-suc _ }

-- `Int.Quo` of the numerator by the denominator, and the same rounded up.
unfoldable pub floor : Ratio → ℕ
floor a = a.num / a.den

unfoldable pub ceil : Ratio → ℕ
ceil a = a.num / a.den + (if a.num % a.den == 0 then 0 else 1)

abbrev pub min_ratio : Ratio → Ratio → Ratio
min_ratio a b = if leb_ratio a b then a else b

pub ≤R_refl : (a : Ratio) → a ≤R a
≤R_refl a = omega arith

pub ≤R_trans : (a b c : Ratio) → a ≤R b → b ≤R c → a ≤R c
≤R_trans a b c h h' =
    le_of_mul-le-mul_right {k = b.den}
      (omega (arith, mul-le-mul_right c.den h, mul-le-mul_right a.den h')) b.den_pos

pub mul-≤R : (a b c : Ratio) → a ≤R b → mul a c ≤R mul b c
unfolding mul
mul-≤R a b c h = omega (arith, mul-le-mul_right (c.num * c.den) h)

pub mul-≤R_right : (a b c : Ratio) → a ≤R b → mul c a ≤R mul c b
unfolding mul
mul-≤R_right a b c h = omega (arith, mul-le-mul_right (c.num * c.den) h)

pub mul_comm-≤R : (a b : Ratio) → mul a b ≤R mul b a
unfolding mul
mul_comm-≤R a b = omega arith

pub mul_assoc-≤R : (a b c : Ratio) → mul (mul a b) c ≤R mul a (mul b c)
unfolding mul
mul_assoc-≤R a b c = omega arith

pub add-≤R : (a b c d : Ratio) → a ≤R b → c ≤R d → add a c ≤R add b d
unfolding add
add-≤R a b c d h h' =
    omega (arith, mul-le-mul_right (c.den * d.den) h, mul-le-mul_right (a.den * b.den) h')

den-quo : (a b : Ratio) → 0 < b.num → (quo a b).den ≡ a.den * b.num
unfolding quo
den-quo a b h = omega (arith, mul-pos a.den_pos h)

-- Multiplying back gives the same number.
pub quo-mul : (a b : Ratio) → 0 < b.num → mul (quo a b) b ≤R a
unfolding quo mul
quo-mul a b h = omega (arith, ap (λ (t : ℕ). a.num * (t * b.den)) (den-quo a b h))

pub mul-quo : (a b : Ratio) → 0 < b.num → a ≤R mul (quo a b) b
unfolding quo mul
mul-quo a b h = omega (arith, ap (λ (t : ℕ). a.num * (t * b.den)) (den-quo a b h))

pub floor-≤R : (a : Ratio) → whole (floor a) ≤R a
unfolding whole floor
floor-≤R a = omega (arith, div-mul-le_self a.num a.den)

pub ≤R-ceil : (a : Ratio) → a ≤R whole (ceil a)
unfolding whole ceil
≤R-ceil a = elim (Bool-cases (a.num % a.den == 0)) [
  | inl exact ↦
      let z : a.num % a.den ≡ 0 = (==_iff (a.num % a.den) 0).0 exact in
      rw exact (omega (arith, div-add-mod' a.num a.den))
  | inr more ↦ rw more (omega (arith, div-add-mod' a.num a.den, mod-lt a.num a.den_pos))
]

-- What is taken and what remains are what there was.
pub take-≤R : (f t r : Ratio) → t ≤R r → add (add f t) (sub r t) ≤R add f r
unfolding add sub
take-≤R f t r h =
    let x = r.num * t.den - t.num * r.den in
    let back : x + t.num * r.den ≡ r.num * t.den = omega arith in
    omega (arith, ap (λ (y : ℕ). y * (f.den * t.den * f.den * r.den)) back)
