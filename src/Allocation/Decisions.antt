-- ===== src/Allocation/Decisions.antt =====
-- portfolio/active_allocation.py: the sleeve of a purchase, and the decisions that take no risk.
use taurus_agent.Base.{
  ℕ, Bool, not, ◌&&◌, List, [], ◌∷◌, Option, none, some, ◌==◌, ltb, leb, if◌then◌else◌, keep_if,
  last_of, Result, ok, raise_if, ◌>>=◌, ◌>>◌, allocation_out_of_range,
}
use taurus_agent.Policy.Schema.{
  SleevePolicy, MoneyManagementPolicy, core_shariah, active_strategy, diversifying_strategy,
  experimental_models,
}
use taurus_agent.Policy.{is_member}
use taurus_agent.Policy.Sections.{hundred, is_percent_or_none}
use taurus_agent.Risk.{
  hold, no_trade, TraderOrderType, AllocationStatus, ScoreBand, BindingConstraint,
  AllocationDecision, TraderProposal,
}
use taurus_agent.Allocation.Input.{ActiveAllocationInput}
use taurus_agent.Allocation.Prices.{requested_increase_notional}
use taurus_agent.Allocation.Governors.{GovernorEvaluation}

-- `ALLOCATABLE_SLEEVE_IDS`
abbrev pub allocatable_sleeve_ids : List ℕ
allocatable_sleeve_ids =
    core_shariah ∷ active_strategy ∷ diversifying_strategy ∷ experimental_models ∷ []

-- `strategy_to_sleeve.get(strategy_name)`: the last mapping of a name counts.
unfoldable pub mapped_sleeve : MoneyManagementPolicy → ℕ → Option ℕ
mapped_sleeve policy strategy_name =
    elim (last_of (keep_if (λ m. m.strategy_name == strategy_name) policy.strategy_mappings)) [
      | none ↦ none
      | some m ↦ some m.sleeve_id
    ]

-- `sleeves_by_id.get(sleeve_id)`
unfoldable pub sleeve_by_id : MoneyManagementPolicy → ℕ → Option SleevePolicy
sleeve_by_id policy sleeve_id = last_of (keep_if (λ s. s.sleeve_id == sleeve_id) policy.sleeves)

-- The sleeve of a strategy that takes new risk.
unfoldable pub allocatable_sleeve : MoneyManagementPolicy → Option ℕ → Option SleevePolicy
unfolding sleeve_by_id
allocatable_sleeve policy none = none
allocatable_sleeve policy (some id) =
    if is_member id allocatable_sleeve_ids then sleeve_by_id policy id else none

-- The constraints of `AllocationDecision` on its fields.
unfoldable pub decision_in_range : AllocationDecision → Bool
decision_in_range d =
    leb d.requested_position_pct_nav hundred
    && leb d.approved_position_pct_nav hundred
    && is_percent_or_none d.candidate_score
    && leb d.governor_scale_factor 10_000

unfoldable pub checked_decision : AllocationDecision → Result AllocationDecision
unfolding decision_in_range
checked_decision d = do raise_if (not (decision_in_range d)) allocation_out_of_range; ok d

-- `_with_decision`
abbrev pub with_decision : TraderProposal → AllocationDecision → TraderProposal
with_decision p d = record p { allocation_decision = some d }

-- `_zero_buy_target`
unfoldable pub zero_buy_target : TraderProposal → AllocationDecision → TraderProposal
zero_buy_target p d =
    if ltb 0 p.current_position_quantity
    then with_decision
        (record p {
          action = hold;
          target_position_pct_nav = p.current_position_pct_nav;
          order_type = TraderOrderType.no_order;
        })
        d
    else with_decision
        (record p {
          action = no_trade;
          target_position_pct_nav = 0;
          order_type = TraderOrderType.no_order;
        })
        d

-- The decision of a proposal that asks for no new risk here.
unfoldable pub unchanged_decision :
    ActiveAllocationInput → ℕ → BindingConstraint → AllocationDecision
unfolding requested_increase_notional
unchanged_decision i sleeve_id reason = record {
  symbol = i.proposal.symbol;
  action = i.proposal.action;
  strategy_name = i.strategy_name;
  sleeve_id = sleeve_id;
  status = AllocationStatus.unchanged;
  candidate_score = none;
  score_band = none;
  requested_position_pct_nav = i.proposal.requested_position_pct_nav;
  approved_position_pct_nav = i.proposal.target_position_pct_nav;
  requested_notional_inr = requested_increase_notional i.proposal i.nav_inr;
  approved_notional_inr = 0;
  approved_quantity = 0;
  allowed_risk_inr = 0;
  estimated_risk_inr = 0;
  volatility_used = none;
  governor_scale_factor = 10_000;
  portfolio_drawdown_pct = none;
  sleeve_drawdown_pct = none;
  binding_constraint = some reason;
}

-- What the sizing of a purchase has found before a cap binds.
pub record Sizing : Type 0 where
  pub sleeve : SleevePolicy
  pub governor : GovernorEvaluation
  pub latest_price : ℕ
  pub sizing_price : ℕ
  pub risk : ℕ
  pub requested : ℕ
  pub current_notional : ℕ
  pub score : ℕ
  pub band : ScoreBand
  pub volatility : ℕ
  pub allowed_risk : ℕ

-- The decision of `_rejected_buy`.
unfoldable pub rejected_decision :
    ActiveAllocationInput
    → SleevePolicy
    → GovernorEvaluation
    → (score : Option ℕ) → ScoreBand
    → (volatility : Option ℕ) → BindingConstraint
    → AllocationDecision
unfolding requested_increase_notional
rejected_decision i sleeve governor score band volatility reason = record {
  symbol = i.proposal.symbol;
  action = i.proposal.action;
  strategy_name = i.strategy_name;
  sleeve_id = sleeve.sleeve_id;
  status = AllocationStatus.rejected;
  candidate_score = score;
  score_band = some band;
  requested_position_pct_nav = i.proposal.requested_position_pct_nav;
  approved_position_pct_nav = i.proposal.current_position_pct_nav;
  requested_notional_inr = requested_increase_notional i.proposal i.nav_inr;
  approved_notional_inr = 0;
  approved_quantity = 0;
  allowed_risk_inr = 0;
  estimated_risk_inr = 0;
  volatility_used = volatility;
  governor_scale_factor = governor.brake.scale_factor;
  portfolio_drawdown_pct = some governor.portfolio_drawdown_pct;
  sleeve_drawdown_pct = some governor.sleeve_drawdown_pct;
  binding_constraint = some reason;
}

-- `_rejected_buy`
unfoldable pub rejected_buy :
    ActiveAllocationInput
    → SleevePolicy
    → GovernorEvaluation
    → (score : Option ℕ) → ScoreBand
    → (volatility : Option ℕ) → BindingConstraint
    → Result TraderProposal
unfolding rejected_decision checked_decision zero_buy_target
rejected_buy i sleeve governor score band volatility reason = do
  d ← checked_decision (rejected_decision i sleeve governor score band volatility reason)
  ok (zero_buy_target i.proposal d)
