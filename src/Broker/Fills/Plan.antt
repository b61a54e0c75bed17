-- ===== src/Broker/Fills/Plan.antt =====
-- The parts of a fill plan.
use taurus_agent.Base.{ℕ, ◌≤◌, ◌≡◌, arith, sum_by, All, length}
use taurus_agent.Execution.{Settings, IsValidSettings}
use taurus_agent.Broker.Fills.{fill_plan}

-- The parts of a plan are positive, at most two, and add up to the quantity.
pub fill_plan_parts :
    (s : Settings) (quantity : ℕ)
    → IsValidSettings s
    → (sum_by (λ q. q) (fill_plan s quantity) ≡ quantity)
      × All (λ q. 1 ≤ q) (fill_plan s quantity)
      × (length (fill_plan s quantity) ≤ 2)
unfolding fill_plan
fill_plan_parts s quantity valid = ground arith
