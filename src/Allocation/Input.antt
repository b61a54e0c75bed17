-- ===== src/Allocation/Input.antt =====
-- portfolio/active_allocation.py: what an allocation reads. Labels of groups are numbers, the empty
-- label being none, and a strategy's score counts hundred-millionths.
use taurus_agent.Base.{ℕ, List, Option}
use taurus_agent.Base.Int.{ℤ}
use taurus_agent.Store.{Candle}
use taurus_agent.Risk.{TraderProposal}

pub record ActiveAllocationPosition : Type 0 where
  pub symbol : ℕ
  pub quantity : ℕ
  pub market_value_inr : ℕ

-- `SleeveAllocationSnapshot`, without the turnover.
pub record SleeveAllocationSnapshot : Type 0 where
  pub sleeve_id : ℕ
  pub starting_nav_estimate_inr : ℕ
  pub current_exposure_inr : ℕ
  pub realized_pnl_inr : ℤ
  pub unrealized_pnl_inr : ℤ
  pub open_position_count : ℕ
  pub open_trade_risk_inr : ℕ

-- `ActiveAllocationInput`, less the rank, which is only recorded.
pub record ActiveAllocationInput : Type 0 where
  pub proposal : TraderProposal
  pub strategy_name : ℕ
  pub nav_inr : ℤ
  pub available_cash_inr : ℤ
  pub portfolio_starting_nav_estimate_inr : Option ℕ
  pub current_positions : List ActiveAllocationPosition
  pub sleeve_snapshots : List SleeveAllocationSnapshot
  pub core_basket_symbols : List ℕ
  pub history : List Candle
  pub strategy_score : Option ℤ
  pub strategy_score_component_override : Option ℤ
  pub buy_price_buffer_pct : ℕ
  pub sleeve_capacity_overrides_inr : ℕ → Option ℕ
  pub sector_by_symbol : ℕ → Option ℕ
  pub graph_cluster_by_symbol : ℕ → Option ℕ
  pub recent_sleeve_performance_score : Option ℕ

-- `_liquidity_score` and `_realized_volatility`, means and a deviation in binary floating point, as
-- functions of the history: a score, and a ratio in ten-thousandths.
pub record HistoryStatistics : Type 0 where
  pub liquidity_score : List Candle → ℕ
  pub realized_volatility : List Candle → ℕ
