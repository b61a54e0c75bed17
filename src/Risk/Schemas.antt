-- ===== src/Risk/Schemas.antt =====
-- risk/schemas.py and the parts of research/schemas.py that approval and execution read.
-- Percentages of NAV are whole numbers of ten-thousandths, as `SCORE_QUANT` rounds them.
use taurus_agent.Base.{ℕ, Bool, true, false, List, Option}

pub data TraderAction : Type 0 where
  buy sell hold no_trade reduce exit : TraderAction

-- `TraderOrderType`: "LIMIT", "MARKET" and "NONE".
pub data TraderOrderType : Type 0 where
  limit market no_order : TraderOrderType

pub data EvaluationMode : Type 0 where
  after_close market_hours : EvaluationMode

pub data RiskRuleStatus : Type 0 where
  passed warn reduced rejected blocked : RiskRuleStatus

pub data RiskReviewStatus : Type 0 where
  approved approved_with_reduction rejected blocked : RiskReviewStatus

pub data FinalDecisionStatus : Type 0 where
  approved_for_paper no_action rejected blocked : FinalDecisionStatus

-- allocation_schemas.py: the status of an allocation.
pub data AllocationStatus : Type 0 where
  approved rejected unchanged selected not_selected unchanged_lifecycle : AllocationStatus
  allocation_rejected allocation_reduced open_position_management : AllocationStatus

pub data ScoreBand : Type 0 where
  reject half_normal normal strong governor_freeze invalid_stop_loss : ScoreBand
  fallback_dynamic fallback_lifecycle : ScoreBand

-- The texts of `binding_constraint`. The caps of a purchase stand in alphabetical order.
pub data BindingConstraint : Type 0 where
  strategy_unmapped strategy_not_allocatable_sleeve : BindingConstraint
  lifecycle_action_not_new_risk : BindingConstraint
  experimental_portfolio_drawdown_freeze portfolio_drawdown_freeze : BindingConstraint
  sleeve_drawdown_freeze governor_freeze : BindingConstraint
  invalid_stop_loss_or_price candidate_score_below_entry_floor : BindingConstraint
  cash_buffer graph_concentration open_positions requested_notional : BindingConstraint
  sector_concentration sleeve_capacity sleeve_trade_risk_cap stock_exposure : BindingConstraint
  total_open_trade_risk trade_risk : BindingConstraint
  invalid_latest_price candidate_score_below_fallback_floor available_cash : BindingConstraint

-- `AllocationDecision`, without its texts and the fields that only the portfolio plan fills.
pub record AllocationDecision : Type 0 where
  pub symbol : ℕ
  pub action : TraderAction
  pub strategy_name : ℕ
  pub sleeve_id : ℕ
  pub status : AllocationStatus
  pub candidate_score : Option ℕ
  pub score_band : Option ScoreBand
  pub requested_position_pct_nav : ℕ
  pub approved_position_pct_nav : ℕ
  pub requested_notional_inr : ℕ
  pub approved_notional_inr : ℕ
  pub approved_quantity : ℕ
  pub allowed_risk_inr : ℕ
  pub estimated_risk_inr : ℕ
  pub volatility_used : Option ℕ
  pub governor_scale_factor : ℕ
  pub portfolio_drawdown_pct : Option ℕ
  pub sleeve_drawdown_pct : Option ℕ
  pub binding_constraint : Option BindingConstraint

-- `TraderProposal`, without its texts and prices. Its confidence is in ten-thousandths.
pub record TraderProposal : Type 0 where
  pub proposal_id : ℕ
  pub run_id : ℕ
  pub portfolio_id : ℕ
  pub symbol : ℕ
  pub as_of : ℕ
  pub action : TraderAction
  pub confidence : ℕ
  pub order_type : TraderOrderType
  pub stop_loss_pct : ℕ
  pub requested_position_pct_nav : ℕ
  pub current_position_quantity : ℕ
  pub current_position_pct_nav : ℕ
  pub target_position_pct_nav : ℕ
  pub evaluation_mode : EvaluationMode
  pub source_report_ids : List ℕ
  pub allocation_decision : Option AllocationDecision

-- `RiskReview`, without its texts, its persona reviews and the constant `is_order` and
-- `can_send_to_broker`.
pub record RiskReview : Type 0 where
  pub risk_check_id : ℕ
  pub decision_id : ℕ
  pub run_id : ℕ
  pub portfolio_id : ℕ
  pub symbol : ℕ
  pub proposal_id : ℕ
  pub as_of : ℕ
  pub status : RiskReviewStatus
  pub requested_position_pct_nav : ℕ
  pub approved_position_pct_nav : ℕ
  pub hard_rule_results : List RiskRuleStatus
  pub source_report_ids : List ℕ
  pub allocation_decision : Option AllocationDecision

-- The texts that `FinalDecision.reason` takes before the language model adds to them.
pub data DecisionReason : Type 0 where
  rejected_by_risk : RiskReviewStatus → DecisionReason
  blocked_by_risk approved_for_paper no_order_expected : DecisionReason
  allocation_not_selected allocation_rejected : DecisionReason
  no_positive_sell no_positive_quantity : DecisionReason

pub record FinalDecision : Type 0 where
  pub final_decision_id : ℕ
  pub decision_id : ℕ
  pub run_id : ℕ
  pub portfolio_id : ℕ
  pub symbol : ℕ
  pub proposal_id : ℕ
  pub risk_check_id : ℕ
  pub as_of : ℕ
  pub final_action : TraderAction
  pub status : FinalDecisionStatus
  pub approved_quantity : ℕ
  pub approved_position_pct_nav : ℕ
  pub reason : DecisionReason
  pub can_send_to_broker : Bool

-- `status == "APPROVED_FOR_PAPER"`
abbrev pub is_approved_for_paper : FinalDecisionStatus → Bool
is_approved_for_paper FinalDecisionStatus.approved_for_paper = true
is_approved_for_paper FinalDecisionStatus.no_action = false
is_approved_for_paper FinalDecisionStatus.rejected = false
is_approved_for_paper FinalDecisionStatus.blocked = false
