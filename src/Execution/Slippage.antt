-- ===== src/Execution/Slippage.antt =====
-- execution/slippage.py: the price at which a simulated order fills.
pub mod Bounds
use taurus_agent.Base.{
  ℕ, zero, suc, ◌+◌, ◌-◌, ◌*◌, ◌≤◌, ◌<◌, ◌≡◌, refl, true, false, arith, Result, ok, err, leb,
  if◌then◌else◌, nonpositive_reference,
}
use taurus_agent.Base.Int.{ℤ, pos, negsuc, sub_ℕ, ◌*ℤ◌, ◌-ℤ◌, pos_part, neg_part}
use taurus_agent.Money.{round_half_up, round_signed, negate, rate_unit}
use taurus_agent.Execution.Schemas.{OrderSide, buy, sell}
use taurus_agent.Execution.Config.{Settings}

-- `Decimal("1") + direction * slippage_bps / RATE_DENOMINATOR`, over `rate_unit`.
abbrev pub multiplier : ℕ → OrderSide → ℤ
multiplier bps buy = pos (rate_unit + bps)
multiplier bps sell = sub_ℕ rate_unit bps

-- `FixedBpsSlippageModel.fill_price`
unfoldable pub fill_price : Settings → ℕ → OrderSide → Result ℤ
unfolding round_signed ◌*ℤ◌
fill_price s zero side = err nonpositive_reference
fill_price s (suc r) side =
    ok (round_signed (pos (suc r) *ℤ multiplier s.slippage_bps side) rate_unit)

-- `FixedBpsSlippageModel.slippage_value`; the product of whole ticks needs no rounding.
unfoldable pub slippage_value : ℕ → ℤ → ℕ → ℕ
unfolding ◌-ℤ◌
slippage_value reference price quantity =
    let d = price -ℤ pos reference in (pos_part d + neg_part d) * quantity
