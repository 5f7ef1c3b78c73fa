-- ===== src/Base/Decimal.antt =====
-- `decimal.Decimal` for the prices, sizes, fractions and dollars of the program, none of which is
-- negative. A value is a number of units of 10^-12. Sums, differences, orders and remainders are
-- exact; a product or a quotient is cut at the twelfth digit, so a product of two values with at
-- most six digits each is exact. `decimal` keeps 28 significant digits, rounded half to even
-- (Base.Decimal.Context): the two agree on a result that has at most twelve digits after the point
-- and 28 in all.
pub mod Context
use Prim.Native.Nat.{ℕ, ◌+◌, ◌*◌, ◌/◌, ◌≤◌}
use mathlib.Core.Path.{◌≡◌}
use native.Mathlib.Omega.{arith}

abbrev pub Decimal : Type 0
Decimal = ℕ

-- Decimal("1")
abbrev pub one : Decimal
one = 1_000_000_000_000

-- a * b
unfoldable pub mul : Decimal → Decimal → Decimal
mul a b = a * b / one

-- a / b
unfoldable pub div : Decimal → Decimal → Decimal
div a b = a * one / b

pub mul_mono_right : (a b c : Decimal) → b ≤ c → mul a b ≤ mul a c
unfolding mul
mul_mono_right a b c h = grind arith

pub mul_mono_left : (a b c : Decimal) → a ≤ b → mul a c ≤ mul b c
unfolding mul
mul_mono_left a b c h = grind arith

-- A share of at most one is at most the whole.
pub mul-le : (a f : Decimal) → f ≤ one → mul a f ≤ a
unfolding mul
mul-le a f h = grind arith

pub mul-zero : (a : Decimal) → mul a 0 ≡ 0
unfolding mul
mul-zero a = grind arith

-- Cutting never gains: shares of one total at most what is divided.
pub mul-add-le : (a f g : Decimal) → mul a f + mul a g ≤ mul a (f + g)
unfolding mul
mul-add-le a f g = grind arith
