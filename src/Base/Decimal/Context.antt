-- ===== src/Base/Decimal/Context.antt =====
-- The products and quotients of `decimal.Decimal` in its default context: 28 significant digits,
-- rounded half to even. A result is a number of units of 10^-40, which hold every digit of a result
-- of 10^-12 or more.
use Prim.Native.Nat.{ℕ, zero, suc, ◌+◌, ◌*◌, ◌/◌, ◌%◌}
use polymarket_event_quant.Base.{ltb, if◌then◌else◌}
use polymarket_event_quant.Base.Decimal.{Decimal, one}

abbrev pub Rounded : Type 0
Rounded = ℕ

-- Decimal("1")
abbrev pub rounded_one : Rounded
rounded_one = 10_000_000_000_000_000_000_000_000_000_000_000_000_000

-- the whole number that is nearest to n / d, the even one of two that are
abbrev pub half_even : ℕ → ℕ → ℕ
half_even n d =
    let q = n / d in
    let twice = n % d * 2 in if ltb twice d then q else if ltb d twice then q + 1 else q + q % 2

-- the weight of the 28th digit of n, a power of ten, on fuel for the digits after the 28th
unfoldable pub last_digit : ℕ → ℕ → ℕ
last_digit zero n = 1
last_digit (suc fuel) n =
    let more = last_digit fuel (n / 10) in
    if ltb n 10_000_000_000_000_000_000_000_000_000 then 1 else 10 * more

-- n / d in 28 significant digits; 100 digits are left for the fuel, more than any value here has
abbrev pub round_digits : ℕ → ℕ → ℕ
round_digits n d = let weight = last_digit 100 (n / d) in half_even n (d * weight) * weight

-- a / b
abbrev pub quotient : Decimal → Decimal → Rounded
quotient a b = round_digits (a * rounded_one) b

-- a * b, where a has been rounded already
abbrev pub product : Rounded → Decimal → Rounded
product a b = round_digits (a * b) one
