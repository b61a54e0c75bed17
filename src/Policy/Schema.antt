-- ===== src/Policy/Schema.antt =====
-- portfolio/money_management.py: the sections of `MoneyManagementPolicy`, without names and roles.
-- Sleeve ids are numbers, of which the code names five. Percentages are in ten-thousandths of a
-- percent, scores and weights in ten-thousandths, amounts in ticks.
use taurus_agent.Base.{ℕ, Bool, List, Option}
use taurus_agent.Base.Int.{ℤ}

-- The ids that stand for no sleeve, "settings_fallback" and "unmapped".
abbrev pub settings_fallback : ℕ
settings_fallback = 5

abbrev pub unmapped : ℕ
unmapped = 6

-- The ids "cash_buffer", "active_strategy", "core_shariah", "diversifying_strategy" and
-- "experimental_models".
abbrev pub cash_buffer : ℕ
cash_buffer = 0

abbrev pub active_strategy : ℕ
active_strategy = 1

abbrev pub core_shariah : ℕ
core_shariah = 2

abbrev pub diversifying_strategy : ℕ
diversifying_strategy = 3

abbrev pub experimental_models : ℕ
experimental_models = 4

pub record SleevePolicy : Type 0 where
  pub sleeve_id : ℕ
  pub target_weight_pct : ℕ
  pub drawdown_reduce_threshold_pct : Option ℕ
  pub drawdown_reduce_size_pct : ℕ
  pub drawdown_freeze_threshold_pct : Option ℕ
  pub new_entry_risk_cap_pct_nav : Option ℕ

pub record StrategySleeveMapping : Type 0 where
  pub strategy_name : ℕ
  pub sleeve_id : ℕ

pub record ExposureLimitsPolicy : Type 0 where
  pub max_stock_pct_nav : ℕ
  pub max_stock_hard_cap_pct_nav : ℕ
  pub max_sector_pct_nav : ℕ
  pub max_graph_cluster_pct_nav : ℕ
  pub max_open_positions : ℕ

pub record TradeRiskDefaultsPolicy : Type 0 where
  pub normal_trade_risk_pct_nav : ℕ
  pub strong_trade_risk_pct_nav : ℕ
  pub max_single_trade_risk_pct_nav : ℕ
  pub max_total_open_trade_risk_pct_nav : ℕ

pub record AllocationScoreWeightsPolicy : Type 0 where
  pub strategy_score : ℕ
  pub trader_confidence : ℕ
  pub liquidity : ℕ
  pub volatility : ℕ
  pub diversification : ℕ
  pub recent_sleeve_performance : ℕ

pub record AllocationScoreBandsPolicy : Type 0 where
  pub reject_below : ℕ
  pub half_normal_below : ℕ
  pub normal_below : ℕ

pub record AllocationScoringPolicy : Type 0 where
  pub weights : AllocationScoreWeightsPolicy
  pub score_bands : AllocationScoreBandsPolicy

pub data DrawdownGovernorAction : Type 0 where
  reduce_new_position_sizes_25_pct reduce_new_position_sizes_50_pct : DrawdownGovernorAction
  stop_experimental_new_entries freeze_new_buys_allow_exits : DrawdownGovernorAction

pub record DrawdownGovernorPolicy : Type 0 where
  pub drawdown_pct : ℕ
  pub action : DrawdownGovernorAction

-- `RebalanceThresholdPolicy`, without the frequencies.
pub record RebalanceThresholdPolicy : Type 0 where
  pub sleeve_drift_threshold_pct : ℕ
  pub min_rebalance_notional_inr : ℕ
  pub min_trade_drift_pct_nav : ℕ
  pub score_below_exit_threshold : ℤ
  pub score_below_trim_threshold : ℤ
  pub over_hard_cap_trim_enabled : Bool
  pub stale_unmapped_exit_enabled : Bool

pub record RebalanceCapacityPolicy : Type 0 where
  pub hard_cash_reserve_pct_nav : ℕ
  pub same_run_proceeds_haircut_pct : ℕ
  pub buy_price_buffer_pct : ℕ
  pub soft_borrowing_enabled : Bool
  pub borrowable_sleeve_ids : List ℕ
  pub borrower_sleeve_ids : List ℕ
  pub max_borrowed_capacity_pct_nav : Option ℕ
  pub max_borrowed_capacity_inr : Option ℕ
  pub repay_priority_sleeve_ids : List ℕ

pub record MoneyManagementPolicy : Type 0 where
  pub sleeves : List SleevePolicy
  pub strategy_mappings : List StrategySleeveMapping
  pub limits : ExposureLimitsPolicy
  pub trade_risk : TradeRiskDefaultsPolicy
  pub allocation_scoring : AllocationScoringPolicy
  pub drawdown_governors : List DrawdownGovernorPolicy
  pub rebalance : RebalanceThresholdPolicy
  pub rebalance_capacity : RebalanceCapacityPolicy
