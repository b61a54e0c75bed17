-- ===== src/Tests/Allocation.antt =====
-- The sizing of a purchase at sample inputs.
use taurus_agent.Base.{ℕ, ◌≡◌, refl, [], ◌∷◌, Option, none, some, Result, ok, arith}
use taurus_agent.Base.Int.{pos, ◌-ℤ◌}
use taurus_agent.Risk.{TraderProposal, AllocationStatus, hold}
use taurus_agent.Allocation.Input.{ActiveAllocationInput, HistoryStatistics}
use taurus_agent.Allocation.Decisions.{mapped_sleeve, allocatable_sleeve, rejected_buy}
use taurus_agent.Allocation.Service.{
  allocate, allocate_in, keep_proposal, allocate_buy, priced_buy, sizing_of, allocate_sized,
  caps_of, sized_buy, target_position,
}
use taurus_agent.Base.{err}
use taurus_agent.Allocation.Governors.{evaluate_governors}
use taurus_agent.Allocation.Rooms.{
  least_room, sleeve_capacity_of, current_active_notional, existing_risk, cash_buffer_target_pct,
  sleeve_trade_risk_cap_room, stock_exposure_room, sleeve_capacity_room, cash_buffer_room,
  total_trade_risk_room, open_position_room, group_room,
}
use taurus_agent.Money.Paise.{quantize_paise}
use taurus_agent.Allocation.Score.{candidate_score, score_band, volatility_factor}
use taurus_agent.Allocation.Prices.{
  share_of, requested_increase_notional, latest_close, buffered_price, risk_per_share,
  risk_to_notional,
}
use taurus_agent.Allocation.Limits.{IsWithinLimits, allocation-IsWithinLimits}
use taurus_agent.Allocation.Brakes.{IsBraked, evaluate_governors-IsBraked}
use taurus_agent.Risk.{AllocationDecision}
use taurus_agent.Tests.Policy.{filled_policy, sleeve_of}
use taurus_agent.Tests.Approval.{entry}

-- A net asset value of 1,000,000 rupees, all in cash, and a share at 100 rupees.
abbrev request : ActiveAllocationInput
request = record {
  proposal = entry;
  strategy_name = 21;
  nav_inr = pos 10_000_000_000;
  available_cash_inr = pos 10_000_000_000;
  portfolio_starting_nav_estimate_inr = some 10_000_000_000;
  current_positions = record { symbol = 9; quantity = 100; market_value_inr = 300_000_000 } ∷ [];
  sleeve_snapshots = [];
  core_basket_symbols = [];
  history = record { trade_date = 5; open_price = 990_000; close_price = 1_000_000 } ∷ [];
  strategy_score = some (pos 20_000_000);
  strategy_score_component_override = none;
  buy_price_buffer_pct = 50_000;
  sleeve_capacity_overrides_inr = λ _. none;
  sector_by_symbol = λ _. some 1;
  graph_cluster_by_symbol = λ _. none;
  recent_sleeve_performance_score = none;
}

-- Full liquidity and a volatility of 0.2.
abbrev pub statistics : HistoryStatistics
statistics = record { liquidity_score = λ _. 1_000_000; realized_volatility = λ _. 2_000 }

unfoldable pub allocation : Unit {0}
unfolding allocate mapped_sleeve allocatable_sleeve allocate_in keep_proposal allocate_buy
    priced_buy evaluate_governors rejected_buy sizing_of allocate_sized caps_of least_room sized_buy
    cash_buffer_target_pct share_of requested_increase_notional latest_close buffered_price
    risk_per_share candidate_score score_band volatility_factor quantize_paise risk_to_notional
    sleeve_trade_risk_cap_room stock_exposure_room sleeve_capacity_room cash_buffer_room
    total_trade_risk_room open_position_room group_room target_position sleeve_capacity_of
    current_active_notional existing_risk ◌-ℤ◌
allocation = tt

allocated : Result TraderProposal
unfolding allocation
allocated = allocate statistics filled_policy request

abbrev position_of : Result TraderProposal → Option ℕ
position_of (err e) = none
position_of (ok p) = some p.target_position_pct_nav

-- 5 percent at the buffered price of 105 rupees buys 476 shares.
allocated_position : position_of allocated ≡ some 47_600
unfolding allocated
allocated_position = refl

abbrev no_decision : AllocationDecision
no_decision = record {
  symbol = 0;
  action = hold;
  strategy_name = 0;
  sleeve_id = 0;
  status = AllocationStatus.rejected;
  candidate_score = none;
  score_band = none;
  requested_position_pct_nav = 0;
  approved_position_pct_nav = 0;
  requested_notional_inr = 0;
  approved_notional_inr = 0;
  approved_quantity = 0;
  allowed_risk_inr = 0;
  estimated_risk_inr = 0;
  volatility_used = none;
  governor_scale_factor = 0;
  portfolio_drawdown_pct = none;
  sleeve_drawdown_pct = none;
  binding_constraint = none;
}

abbrev proposal_of : Result TraderProposal → TraderProposal
proposal_of (err e) = entry
proposal_of (ok p) = p

abbrev decision_of : Option AllocationDecision → AllocationDecision
decision_of none = no_decision
decision_of (some d) = d

bought : TraderProposal
unfolding allocated
bought = proposal_of allocated

decided : AllocationDecision
unfolding bought
decided = decision_of bought.allocation_decision

allocate-bought : allocate statistics filled_policy request ≡ ok bought
unfolding bought
allocate-bought = refl

bought-decided : bought.allocation_decision ≡ some decided
unfolding decided
bought-decided = refl

decided_quantity : decided.approved_quantity ≡ 476
unfolding decided
decided_quantity = refl

allocation-IsWithinLimits_example : IsWithinLimits filled_policy request decided
allocation-IsWithinLimits_example =
    allocation-IsWithinLimits statistics filled_policy request allocate-bought bought-decided
      (omega (arith, decided_quantity))

evaluate_governors-IsBraked_example : IsBraked request (sleeve_of 1 500_000) filled_policy
evaluate_governors-IsBraked_example =
    evaluate_governors-IsBraked request (sleeve_of 1 500_000) filled_policy
