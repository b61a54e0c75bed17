-- ===== src/Execution/Costs/Bounds.antt =====
-- The charges of a fill against the exact rates.
use taurus_agent.Base.{ℕ, ◌+◌, ◌*◌, ◌≤◌, ◌<◌, ◌≡◌, refl, arith, ok}
use taurus_agent.Base.Int.{pos}
use taurus_agent.Money.{round_half_up_bounds, rate_unit}
use taurus_agent.Execution.Config.{Settings}
use taurus_agent.Execution.Costs.{CostBreakdown, total_inr, levy, calculate}

-- The sum of the three rates.
abbrev pub total_bps : Settings → ℕ
total_bps s = s.brokerage_bps + s.exchange_txn_charge_bps + s.tax_levy_bps

levy_bounds :
    (gross bps : ℕ)
    → (2 * (levy gross bps * rate_unit) ≤ 2 * (gross * bps) + rate_unit)
      × (2 * (gross * bps) < 2 * (levy gross bps * rate_unit) + rate_unit)
unfolding levy
levy_bounds gross bps = round_half_up_bounds (gross * bps) rate_unit (omega arith)

-- A fill of a non-negative value is charged, and the total is within a tick and a half of the exact
-- charge at the sum of the three rates.
pub calculate_bounds :
    (s : Settings) (gross : ℕ)
    → (c : CostBreakdown) × (calculate s (pos gross) ≡ ok c)
      × (2 * (total_inr c * rate_unit) ≤ 2 * (gross * total_bps s) + 3 * rate_unit)
      × (2 * (gross * total_bps s) < 2 * (total_inr c * rate_unit) + 3 * rate_unit)
unfolding calculate total_inr
calculate_bounds s gross =
    let a = levy_bounds gross s.brokerage_bps in
    let b = levy_bounds gross s.exchange_txn_charge_bps in
    let c = levy_bounds gross s.tax_levy_bps in
    (
      record {
        brokerage_inr = levy gross s.brokerage_bps;
        exchange_txn_charge_inr = levy gross s.exchange_txn_charge_bps;
        tax_levy_inr = levy gross s.tax_levy_bps;
      },
      refl,
      omega (arith, a, b, c),
      omega (arith, a, b, c),
    )
