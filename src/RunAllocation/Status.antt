-- ===== src/RunAllocation/Status.antt =====
-- portfolio/run_allocation.py: the statuses of a run, and what they make of a proposal.
use taurus_agent.Base.{
  ℕ, ◌+◌, Bool, true, false, ◌&&◌, List, Option, some, ◌==◌, ltb, length, keep_if, if◌then◌else◌,
  Result, or_raise, decision_required,
}
use taurus_agent.Risk.{
  hold, no_trade, TraderOrderType, AllocationStatus, BindingConstraint, AllocationDecision,
  TraderProposal, cash_buffer, graph_concentration, open_positions, requested_notional,
  sector_concentration, sleeve_capacity, sleeve_trade_risk_cap, stock_exposure,
  total_open_trade_risk, trade_risk, available_cash,
}
use taurus_agent.Risk.Engine.{is_buy}
use taurus_agent.RunAllocation.Input.{RunAllocationInput, AllocationLedgerEntry}

abbrev pub is_approved : AllocationStatus → Bool
is_approved AllocationStatus.approved = true
is_approved _ = false

-- `SELECTED_LEDGER_STATUSES`
abbrev pub is_selected : AllocationStatus → Bool
is_selected AllocationStatus.selected = true
is_selected AllocationStatus.allocation_reduced = true
is_selected _ = false

abbrev pub is_requested : Option BindingConstraint → Bool
is_requested (some requested_notional) = true
is_requested _ = false

-- `RUN_LEVEL_RESOURCE_CONSTRAINTS`
abbrev pub is_resource : Option BindingConstraint → Bool
is_resource (some cash_buffer) = true
is_resource (some open_positions) = true
is_resource (some sector_concentration) = true
is_resource (some graph_concentration) = true
is_resource (some sleeve_capacity) = true
is_resource (some sleeve_trade_risk_cap) = true
is_resource (some stock_exposure) = true
is_resource (some total_open_trade_risk) = true
is_resource (some trade_risk) = true
is_resource _ = false

-- `_money_management_buy_status`
unfoldable pub money_management_buy_status : AllocationDecision → AllocationStatus
money_management_buy_status d =
    if is_approved d.status && ltb 0 d.approved_quantity
    then (if is_requested d.binding_constraint
        then AllocationStatus.selected
        else AllocationStatus.allocation_reduced)
    else if is_resource d.binding_constraint
    then AllocationStatus.not_selected
    else AllocationStatus.allocation_rejected

-- The resources of the fallback policy.
abbrev pub is_fallback_resource : Option BindingConstraint → Bool
is_fallback_resource (some available_cash) = true
is_fallback_resource (some open_positions) = true
is_fallback_resource (some stock_exposure) = true
is_fallback_resource _ = false

-- `_fallback_buy_status`
unfoldable pub fallback_buy_status : AllocationDecision → AllocationStatus
fallback_buy_status d =
    if ltb 0 d.approved_quantity
    then (if is_requested d.binding_constraint
        then AllocationStatus.selected
        else AllocationStatus.allocation_reduced)
    else if is_fallback_resource d.binding_constraint
    then AllocationStatus.not_selected
    else AllocationStatus.allocation_rejected

-- `_lifecycle_status`
unfoldable pub lifecycle_status : TraderProposal → AllocationStatus
lifecycle_status p =
    if ltb 0 p.current_position_quantity
    then AllocationStatus.open_position_management
    else AllocationStatus.unchanged_lifecycle

-- `_require_decision`
unfoldable pub require_decision : TraderProposal → Result AllocationDecision
require_decision p = or_raise p.allocation_decision decision_required

-- The purchase that a run does not select.
abbrev pub unselected : TraderProposal → AllocationDecision → TraderProposal
unselected p d = record p {
  action = if ltb 0 p.current_position_quantity then hold else no_trade;
  target_position_pct_nav = p.current_position_pct_nav;
  order_type = TraderOrderType.no_order;
  allocation_decision = some d;
}

-- `_with_run_status`, for the decision that the proposal carries.
unfoldable pub with_run_status :
    TraderProposal → AllocationDecision → AllocationStatus → TraderProposal
with_run_status p decision status =
    let d = record decision { status = status } in
    if is_buy decision.action
    then (if is_selected status
        then record p {
          target_position_pct_nav = decision.approved_position_pct_nav;
          allocation_decision = some d;
        }
        else unselected p d)
    else record p { allocation_decision = some d }

-- `_fallback_updated_proposal`
unfoldable pub fallback_updated_proposal :
    TraderProposal → AllocationDecision → AllocationStatus → TraderProposal
fallback_updated_proposal p decision status =
    let d = record decision { status = status } in
    if is_selected status
    then record p {
      target_position_pct_nav = decision.approved_position_pct_nav;
      allocation_decision = some d;
    }
    else if is_buy p.action
    then unselected p d
    else record p { allocation_decision = some d }

-- `_ledger_entry`, for the decision that the updated proposal carries.
unfoldable pub ledger_entry :
    RunAllocationInput
    → TraderProposal
    → AllocationDecision
    → AllocationStatus
    → AllocationLedgerEntry
ledger_entry i p d status = record {
  symbol = p.symbol;
  proposal_id = p.proposal_id;
  action = d.action;
  status = status;
  selected = is_selected status;
  strategy_rank = i.strategy_rank_by_symbol p.symbol;
  strategy_score = i.strategy_score_by_symbol p.symbol;
  trader_confidence = p.confidence;
  candidate_score = d.candidate_score;
  score_band = d.score_band;
  requested_position_pct_nav = d.requested_position_pct_nav;
  approved_position_pct_nav = d.approved_position_pct_nav;
  requested_notional_inr = d.requested_notional_inr;
  approved_notional_inr = d.approved_notional_inr;
  approved_quantity = d.approved_quantity;
  binding_constraint = d.binding_constraint;
}

-- The counts of `_result`, of which the statuses that `summary` does not name have none.
pub record RunSummary : Type 0 where
  pub proposal_count : ℕ
  pub selected_count : ℕ
  pub not_selected_count : ℕ
  pub allocation_reduced_count : ℕ
  pub allocation_rejected_count : ℕ
  pub unchanged_lifecycle_count : ℕ
  pub open_position_management_count : ℕ

abbrev pub status_code : AllocationStatus → ℕ
status_code AllocationStatus.approved = 0
status_code AllocationStatus.rejected = 1
status_code AllocationStatus.unchanged = 2
status_code AllocationStatus.selected = 3
status_code AllocationStatus.not_selected = 4
status_code AllocationStatus.unchanged_lifecycle = 5
status_code AllocationStatus.allocation_rejected = 6
status_code AllocationStatus.allocation_reduced = 7
status_code AllocationStatus.open_position_management = 8

-- `status_counts[status]`
abbrev pub count_status : AllocationStatus → List AllocationLedgerEntry → ℕ
count_status status ledger =
    length (keep_if (λ e. status_code e.status == status_code status) ledger)

unfoldable pub summary_of : List AllocationLedgerEntry → RunSummary
summary_of ledger = record {
  proposal_count = length ledger;
  selected_count =
      count_status AllocationStatus.selected ledger
      + count_status AllocationStatus.allocation_reduced ledger;
  not_selected_count = count_status AllocationStatus.not_selected ledger;
  allocation_reduced_count = count_status AllocationStatus.allocation_reduced ledger;
  allocation_rejected_count = count_status AllocationStatus.allocation_rejected ledger;
  unchanged_lifecycle_count = count_status AllocationStatus.unchanged_lifecycle ledger;
  open_position_management_count = count_status AllocationStatus.open_position_management ledger;
}
