-- ===== src/Money/Context.antt =====
-- The default decimal context: results carry 28 significant digits, halves to even. The amounts
-- of the program stay exact in it but for one quotient, `Decimal(affordable) /
-- Decimal(requested_quantity)` of `_affordable_quantity`, and the products with it.
use taurus_agent.Base.{
  ℕ, zero, suc, ◌+◌, ◌*◌, ◌/◌, ◌%◌, ◌^◌, ◌≡◌, refl, true, false, ltb, leb, if◌then◌else◌,
}
use taurus_agent.Money.Rounding.{round_half_up}

-- The smallest and the first too large coefficient of 28 digits.
abbrev min_coefficient : ℕ
min_coefficient = 10 ^ 27

abbrev pub max_coefficient : ℕ
max_coefficient = 10 ^ 28

unfoldable pub round_half_even : ℕ → ℕ → ℕ
round_half_even n d =
    let q = n / d in
    let r = n % d in if ltb (2 * r) d then q else if ltb d (2 * r) then q + 1 else q + q % 2

-- The decimal places that give n / d a coefficient of 28 digits.
unfoldable pub places : ℕ → ℕ → ℕ → ℕ
places zero n d = 0
places (suc fuel) n d = elim (leb (d * min_coefficient) n) [
  | true ↦ 0
  | false ↦ suc (places fuel (10 * n) d)
]

-- A value with more than 28 digits loses its last ones; `unit` is the weight of the last kept digit.
unfoldable pub round_context : ℕ → ℕ → ℕ → ℕ
unfolding round_half_even
round_context zero unit c = round_half_even c unit * unit
round_context (suc fuel) unit c = elim (ltb c (max_coefficient * unit)) [
  | true ↦ round_half_even c unit * unit
  | false ↦ round_context fuel (10 * unit) c
]

-- `_money(amount * (Decimal(part) / Decimal(whole)))` for an amount in ticks and part ≤ whole.
unfoldable pub scale_amount : ℕ → ℕ → ℕ → ℕ
unfolding places round_half_even round_context round_half_up
scale_amount amount part whole =
    let e = places (28 + whole) part whole in
    let scaled = round_half_even (part * 10 ^ e) whole in
    round_half_up (round_context 28 1 (amount * scaled)) (10 ^ e)

-- 0.051 * (11 / 60) is 0.00935, which would round up, but the quotient was cut to
-- 0.1833333333333333333333333333 before.
scale_amount_inexact : scale_amount 510 11 60 ≡ 93
unfolding scale_amount
scale_amount_inexact = refl

scale_amount_half : scale_amount 3 1 2 ≡ 2
unfolding scale_amount
scale_amount_half = refl
