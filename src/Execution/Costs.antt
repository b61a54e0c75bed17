-- ===== src/Execution/Costs.antt =====
-- execution/costs.py: the cost model of a simulated fill.
pub mod Bounds
use taurus_agent.Base.{
  ℕ, ◌+◌, ◌*◌, ◌≤◌, ◌<◌, ◌≡◌, refl, true, false, arith, Result, ok, err, Error, negative_gross,
}
use taurus_agent.Base.Int.{ℤ, pos, negsuc}
use taurus_agent.Money.{round_half_up, round_half_up_bounds, round_half_up_mono, rate_unit}
use taurus_agent.Execution.Config.{Settings}

pub record CostBreakdown : Type 0 where
  pub brokerage_inr : ℕ
  pub exchange_txn_charge_inr : ℕ
  pub tax_levy_inr : ℕ

-- `CostBreakdown.total_inr`
unfoldable pub total_inr : CostBreakdown → ℕ
total_inr c = c.brokerage_inr + c.exchange_txn_charge_inr + c.tax_levy_inr

-- `_money(gross_value_inr * bps / RATE_DENOMINATOR)`
unfoldable pub levy : ℕ → ℕ → ℕ
levy gross bps = round_half_up (gross * bps) rate_unit

-- `IndiaPaperCostModel.calculate`
unfoldable pub calculate : Settings → ℤ → Result CostBreakdown
unfolding levy
calculate s (negsuc _) = err negative_gross
calculate s (pos gross) = ok (record {
  brokerage_inr = levy gross s.brokerage_bps;
  exchange_txn_charge_inr = levy gross s.exchange_txn_charge_bps;
  tax_levy_inr = levy gross s.tax_levy_bps;
})
