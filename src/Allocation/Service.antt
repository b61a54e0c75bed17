-- ===== src/Allocation/Service.antt =====
-- portfolio/active_allocation.py: `PortfolioAllocationService.allocate`.
use taurus_agent.Base.{
  ℕ, ◌+◌, ◌*◌, ◌/◌, Bool, true, false, ◌||◌, List, [], ◌∷◌, Option, none, some, ◌==◌, ltb,
  if◌then◌else◌, Result, ok, ◌>>=◌,
}
use taurus_agent.Base.Int.{ℤ, pos, negsuc}
use taurus_agent.Money.Paise.{quantize_paise, quantize_ratio}
use taurus_agent.Policy.Schema.{SleevePolicy, MoneyManagementPolicy, unmapped}
use taurus_agent.Policy.Sections.{hundred}
use taurus_agent.Risk.{
  AllocationStatus, ScoreBand, BindingConstraint, AllocationDecision, TraderProposal,
  strategy_unmapped, strategy_not_allocatable_sleeve, lifecycle_action_not_new_risk,
  governor_freeze, invalid_stop_loss_or_price, candidate_score_below_entry_floor, cash_buffer,
  graph_concentration, open_positions, requested_notional, sector_concentration, sleeve_capacity,
  sleeve_trade_risk_cap, stock_exposure, total_open_trade_risk, trade_risk,
}
use taurus_agent.Risk.Engine.{is_buy}
use taurus_agent.Allocation.Input.{ActiveAllocationInput, HistoryStatistics}
use taurus_agent.Allocation.Prices.{
  share_of, pct_to_notional, requested_increase_notional, latest_close, buffered_price,
  risk_per_share, risk_to_notional,
}
use taurus_agent.Allocation.Governors.{GovernorEvaluation, evaluate_governors}
use taurus_agent.Allocation.Score.{candidate_score, score_band, volatility_factor}
use taurus_agent.Allocation.Rooms.{
  Room, stock_exposure_room, sleeve_capacity_room, sleeve_trade_risk_cap_room,
  cash_buffer_target_pct, cash_buffer_room, total_trade_risk_room, open_position_room, group_room,
  least_room,
}
use taurus_agent.Allocation.Decisions.{
  mapped_sleeve, allocatable_sleeve, checked_decision, with_decision, zero_buy_target,
  unchanged_decision, Sizing, rejected_buy,
}

-- The caps of a purchase after the first, which is the requested notional.
unfoldable pub caps_of :
    ActiveAllocationInput → MoneyManagementPolicy → Sizing → (buffer_pct : ℕ) → List Room
caps_of i policy s buffer_pct =
    (trade_risk, risk_to_notional s.allowed_risk s.latest_price s.risk)
    ∷ (sleeve_trade_risk_cap, sleeve_trade_risk_cap_room i s.sleeve s.sizing_price s.risk)
    ∷ (stock_exposure, stock_exposure_room i policy s.current_notional)
    ∷ (sleeve_capacity, sleeve_capacity_room i s.sleeve)
    ∷ (cash_buffer, cash_buffer_room i buffer_pct)
    ∷ (total_open_trade_risk, total_trade_risk_room i policy s.sizing_price s.risk)
    ∷ (open_positions, open_position_room i policy)
    ∷ (sector_concentration, group_room i i.sector_by_symbol policy.limits.max_sector_pct_nav)
    ∷ (
      graph_concentration,
      group_room i i.graph_cluster_by_symbol policy.limits.max_graph_cluster_pct_nav,
    )
    ∷ []

-- `(current + approved) / nav * 100`
unfoldable pub target_position : (notional : ℕ) → ℤ → ℕ
unfolding quantize_ratio
target_position notional (negsuc n) = 0
target_position notional (pos n) = if n == 0 then 0 else quantize_ratio notional n hundred

unfoldable pub sized_decision :
    ActiveAllocationInput
    → Sizing
    → (binding : BindingConstraint) → (quantity : ℕ) → AllocationDecision
sized_decision i s binding quantity =
    let approved = quantize_paise (s.latest_price * quantity) 1 in
    record {
      symbol = i.proposal.symbol;
      action = i.proposal.action;
      strategy_name = i.strategy_name;
      sleeve_id = s.sleeve.sleeve_id;
      status = if ltb 0 quantity then AllocationStatus.approved else AllocationStatus.rejected;
      candidate_score = some s.score;
      score_band = some s.band;
      requested_position_pct_nav = i.proposal.requested_position_pct_nav;
      approved_position_pct_nav = target_position (s.current_notional + approved) i.nav_inr;
      requested_notional_inr = s.requested;
      approved_notional_inr = approved;
      approved_quantity = quantity;
      allowed_risk_inr = s.allowed_risk;
      estimated_risk_inr = quantize_paise (s.risk * quantity) 1;
      volatility_used = some s.volatility;
      governor_scale_factor = s.governor.brake.scale_factor;
      portfolio_drawdown_pct = some s.governor.portfolio_drawdown_pct;
      sleeve_drawdown_pct = some s.governor.sleeve_drawdown_pct;
      binding_constraint = some binding;
    }

-- The proposal with the quantity that its caps leave.
unfoldable pub sized_buy : ActiveAllocationInput → Sizing → Room → Result TraderProposal
unfolding sized_decision checked_decision zero_buy_target
sized_buy i s (binding, approved) = do
  let quantity = approved / s.sizing_price
  d ← checked_decision (sized_decision i s binding quantity)
  ok (
      if quantity == 0
      then zero_buy_target i.proposal d
      else with_decision
          (record i.proposal { target_position_pct_nav = d.approved_position_pct_nav }) d)

-- The part of `allocate` after the score.
unfoldable pub allocate_sized :
    ActiveAllocationInput → MoneyManagementPolicy → Sizing → Result TraderProposal
allocate_sized i policy s = do
  buffer_pct ← cash_buffer_target_pct policy
  sized_buy i s (least_room (requested_notional, s.requested) (caps_of i policy s buffer_pct))

abbrev pub is_reject : ScoreBand → Bool
is_reject ScoreBand.reject = true
is_reject ScoreBand.half_normal = false
is_reject ScoreBand.normal = false
is_reject ScoreBand.strong = false
is_reject ScoreBand.governor_freeze = false
is_reject ScoreBand.invalid_stop_loss = false
is_reject ScoreBand.fallback_dynamic = false
is_reject ScoreBand.fallback_lifecycle = false

unfoldable pub sizing_of :
    HistoryStatistics
    → ActiveAllocationInput
    → MoneyManagementPolicy
    → SleevePolicy
    → GovernorEvaluation
    → Sizing
sizing_of stats i policy sleeve governor =
    let latest = latest_close i.history in
    let price = buffered_price latest i.buy_price_buffer_pct in
    let score = candidate_score stats i policy.allocation_scoring.weights in
    let (band, base) = score_band score policy.allocation_scoring.score_bands policy.trade_risk in
    let volatility = stats.realized_volatility i.history in
    record {
      sleeve = sleeve;
      governor = governor;
      latest_price = latest;
      sizing_price = price;
      risk = risk_per_share price i.proposal.stop_loss_pct;
      requested = requested_increase_notional i.proposal i.nav_inr;
      current_notional = pct_to_notional i.proposal.current_position_pct_nav i.nav_inr;
      score = score;
      band = band;
      volatility = volatility;
      allowed_risk =
          quantize_paise
            (share_of base (2 * hundred) i.nav_inr
              * volatility_factor volatility
              * governor.brake.scale_factor)
            100_000_000;
    }

abbrev pub or_freeze : Option BindingConstraint → BindingConstraint
or_freeze none = governor_freeze
or_freeze (some reason) = reason

-- The part of `allocate` after the governors.
unfoldable pub priced_buy :
    ActiveAllocationInput → MoneyManagementPolicy → Sizing → Result TraderProposal
priced_buy i policy s =
    if s.latest_price == 0 || s.risk == 0
    then rejected_buy i s.sleeve s.governor none ScoreBand.invalid_stop_loss none
        invalid_stop_loss_or_price
    else if is_reject s.band
    then rejected_buy i s.sleeve s.governor (some s.score) s.band (some s.volatility)
        candidate_score_below_entry_floor
    else allocate_sized i policy s

-- The part of `allocate` for a purchase in a sleeve that takes new risk.
unfoldable pub allocate_buy :
    HistoryStatistics
    → ActiveAllocationInput
    → MoneyManagementPolicy
    → SleevePolicy
    → Result TraderProposal
allocate_buy stats i policy sleeve =
    let governor = evaluate_governors i sleeve policy in
    if governor.brake.frozen
    then rejected_buy i sleeve governor none ScoreBand.governor_freeze none
        (or_freeze governor.brake.binding_constraint)
    else priced_buy i policy (sizing_of stats i policy sleeve governor)

abbrev pub unmapped_reason : Option ℕ → BindingConstraint
unmapped_reason none = strategy_unmapped
unmapped_reason (some _) = strategy_not_allocatable_sleeve

-- `mapped_sleeve or "unmapped"`
abbrev pub or_unmapped : Option ℕ → ℕ
or_unmapped none = unmapped
or_unmapped (some id) = id

unfoldable pub keep_proposal : ActiveAllocationInput → ℕ → BindingConstraint → Result TraderProposal
unfolding unchanged_decision checked_decision
keep_proposal i sleeve_id reason = do
  d ← checked_decision (unchanged_decision i sleeve_id reason)
  ok (with_decision i.proposal d)

-- `allocate` with the sleeve that the strategy maps to.
unfoldable pub allocate_in :
    HistoryStatistics
    → MoneyManagementPolicy
    → ActiveAllocationInput
    → (mapped : Option ℕ) → Option SleevePolicy
    → Result TraderProposal
allocate_in stats policy i mapped none =
    keep_proposal i (or_unmapped mapped) (unmapped_reason mapped)
allocate_in stats policy i mapped (some sleeve) =
    if is_buy i.proposal.action
    then allocate_buy stats i policy sleeve
    else keep_proposal i sleeve.sleeve_id lifecycle_action_not_new_risk

-- `PortfolioAllocationService.allocate`
unfoldable pub allocate :
    HistoryStatistics → MoneyManagementPolicy → ActiveAllocationInput → Result TraderProposal
allocate stats policy i =
    let mapped = mapped_sleeve policy i.strategy_name in
    allocate_in stats policy i mapped (allocatable_sleeve policy mapped)
