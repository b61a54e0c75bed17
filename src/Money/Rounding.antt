-- ===== src/Money/Rounding.antt =====
-- `value.quantize(MONEY_QUANT, rounding=ROUND_HALF_UP)` on a quotient of ticks.
use native.Mathlib.Nat.{div-add-mod, mod-lt, le-div_iff_mul-le, div-mul-le_self}
use taurus_agent.Base.{
  ℕ, zero, suc, ◌+◌, ◌-◌, ◌*◌, ◌/◌, ◌≤◌, ◌<◌, ◌≡◌, refl, arith, leb, if◌then◌else◌,
}
use taurus_agent.Base.Int.{ℤ, pos, negsuc}

-- One basis point is 1 / RATE_DENOMINATOR, and rates count ten-thousandths of it.
abbrev pub rate_unit : ℕ
rate_unit = 100_000_000

-- n / d to the nearest whole number of ticks, halves away from zero.
unfoldable pub round_half_up : ℕ → ℕ → ℕ
round_half_up n d = (2 * n + d) / (2 * d)

abbrev pub negate : ℕ → ℤ
negate zero = pos 0
negate (suc n) = negsuc n

unfoldable pub round_signed : ℤ → ℕ → ℤ
unfolding round_half_up
round_signed (pos n) d = pos (round_half_up n d)
round_signed (negsuc n) d = negate (round_half_up (suc n) d)

-- `abs(a - b)`
abbrev pub abs_diff : ℕ → ℕ → ℕ
abs_diff a b = if leb a b then b - a else a - b

div_bounds : (n k : ℕ) → 0 < k → (n / k * k ≤ n) × (n < n / k * k + k)
div_bounds n k h = (omega (arith, div-add-mod n k), omega (arith, div-add-mod n k, mod-lt n h))

-- Two multiples of d that differ by less than d are the same.
eq_of_near : (a b d : ℕ) → 0 < d → a * d < b * d + d → b * d < a * d + d → a ≡ b
eq_of_near a b d h p q = grind arith

-- The rounded value is within half a tick of the exact one.
pub round_half_up_bounds :
    (n d : ℕ)
    → 0 < d
    → (2 * (round_half_up n d * d) ≤ 2 * n + d) × (2 * n < 2 * (round_half_up n d * d) + d)
unfolding round_half_up
round_half_up_bounds n d h =
    let (low, high) = div_bounds (2 * n + d) (2 * d) (omega arith) in
    let e : (2 * n + d) / (2 * d) * (2 * d) ≡ 2 * ((2 * n + d) / (2 * d) * d) = omega arith in
    (omega arith, omega arith)

pub round_half_up_exact : (n d : ℕ) → 0 < d → round_half_up (n * d) d ≡ n
round_half_up_exact n d h =
    let (low, high) = round_half_up_bounds (n * d) d h in
    eq_of_near (round_half_up (n * d) d) n d h (omega arith) (omega arith)

pub round_half_up_mono : (n m d : ℕ) → n ≤ m → round_half_up n d ≤ round_half_up m d
unfolding round_half_up
round_half_up_mono n m zero h = omega arith
round_half_up_mono n m (suc d) h =
    (le-div_iff_mul-le (omega arith)).1 (omega (arith, div-mul-le_self (2 * n + suc d) (2 * suc d)))

pub round_signed_nonneg : (n d : ℕ) → round_signed (pos n) d ≡ pos (round_half_up n d)
unfolding round_signed
round_signed_nonneg n d = refl
