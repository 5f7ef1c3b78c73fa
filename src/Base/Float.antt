-- ===== src/Base/Float.antt =====
-- The sum of two times, which the code holds in float seconds: a number of units of 2^-60 seconds,
-- which each float of 2^-7 or more is a multiple of. A sum has 53 significant bits, rounded half to
-- even.
use Prim.Native.Nat.{ℕ, zero, suc, ◌+◌, ◌*◌, ◌/◌, ◌≤◌, ◌<◌}
use mathlib.Core.Path.{◌≡◌, refl}
use native.Mathlib.Nat.{div-mul-le_self, lt-div-mul-add}
use polymarket_event_quant.Base.{ltb, if◌then◌else◌, arith, Bool-cases, inl, inr, ◌⊎◌}
use polymarket_event_quant.Base.Decimal.Context.{half_even}

abbrev pub Time : Type 0
Time = ℕ

-- the weight of the 53rd bit, on fuel for the bits after it
unfoldable pub last_bit : ℕ → ℕ → ℕ
last_bit zero n = 1
last_bit (suc fuel) n =
    let more = last_bit fuel (n / 2) in if ltb n 9_007_199_254_740_992 then 1 else 2 * more

-- a + b; 100 bits are left for the fuel, more than any clock has
unfoldable pub float_sum : Time → Time → Time
float_sum a b = let weight = last_bit 100 (a + b) in half_even (a + b) weight * weight

last_bit-weight :
    (fuel n : ℕ) → (last_bit fuel n ≡ 1) ⊎ (last_bit fuel n * 4_503_599_627_370_496 ≤ n)
unfolding last_bit
last_bit-weight zero n = inl refl
last_bit-weight (suc fuel) n = elim (Bool-cases (ltb n 9_007_199_254_740_992)) [
  | inl e ↦ rw e (inl refl)
  | inr e ↦ rw e (
      inr (elim (last_bit-weight fuel (n / 2)) [
        | inl one ↦ rw one (ground (arith, e))
        | inr le ↦ grind (arith, le, div-mul-le_self n 2)
      ]))
]

last_bit-pos : (fuel n : ℕ) → 0 < last_bit fuel n
unfolding last_bit
last_bit-pos zero n = omega arith
last_bit-pos (suc fuel) n = ground (arith, last_bit-pos fuel (n / 2))

half_even-cases : (n d : ℕ) → (half_even n d ≡ n / d) ⊎ (half_even n d ≡ n / d + 1)
half_even-cases n d = ground arith

half_even-near : (n d : ℕ) → 0 < d → (half_even n d * d ≤ n + d) × (n ≤ half_even n d * d + d)
half_even-near n d h = elim (half_even-cases n d) [
  | inl e ↦ rw e (
    grind (arith, div-mul-le_self n d, lt-div-mul-add h),
    grind (arith, div-mul-le_self n d, lt-div-mul-add h),
  )
  | inr e ↦ rw e (
    grind (arith, div-mul-le_self n d, lt-div-mul-add h),
    grind (arith, div-mul-le_self n d, lt-div-mul-add h),
  )
]

-- 2^42 units are four millionths of a second
pub float_sum-near :
    (a b : Time)
    → a + b < 19_807_040_628_566_084_398_385_987_584
    → (float_sum a b ≤ a + b + 4_398_046_511_104) × (a + b ≤ float_sum a b + 4_398_046_511_104)
unfolding float_sum
float_sum-near a b h =
    let near = half_even-near (a + b) (last_bit 100 (a + b)) (last_bit-pos 100 (a + b)) in
    let small : last_bit 100 (a + b) ≤ 4_398_046_511_104 = elim (last_bit-weight 100 (a + b)) [
      | inl e ↦ omega (arith, e)
      | inr le ↦ omega (arith, le, h)
    ] in
    (omega (arith, near.0, small), omega (arith, near.1, small))
