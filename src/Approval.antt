-- ===== src/Approval.antt =====
-- agents/portfolio_manager.py: the final decision on a reviewed proposal. Loading and storing rows and
-- the language model's text, which changes the reason only, are left out.
pub mod Fields
pub mod Quantity
use taurus_agent.Base.{
  ℕ, ◌+◌, ◌-◌, ◌*◌, Bool, true, false, not, ◌&&◌, List, Option, none, some, ◌==◌, ltb,
  if◌then◌else◌, Result, ok, err, raise_if, or_raise, ◌>>=◌, ◌>>◌, symbol_mismatch,
  proposal_missing,
}
use taurus_agent.Base.Int.{ℤ, pos, ◌-ℤ◌, pos_part}
use taurus_agent.Execution.{Settings, IdScheme}
use taurus_agent.Risk.{
  TraderAction, buy, sell, hold, no_trade, reduce, exit, RiskReviewStatus, approved_with_reduction,
  FinalDecisionStatus, TraderProposal, RiskReview, AllocationDecision, AllocationStatus,
  DecisionReason, FinalDecision,
}
use taurus_agent.Risk.Engine.{paper_safe, is_buy}
use taurus_agent.Store.{Session, Candle}
use taurus_agent.Store.Queries.{latest_candle, latest_account_by_portfolio, resolve_runtime_profile}
use taurus_agent.Broker.Place.Decide.{target_quantity}

-- `_RuleDecisionFields`
pub record RuleDecisionFields : Type 0 where
  pub final_action : TraderAction
  pub status : FinalDecisionStatus
  pub approved_quantity : ℕ
  pub approved_position_pct_nav : ℕ
  pub reason : DecisionReason
  pub can_send_to_broker : Bool

-- The equity of the latest account of the profile, or its starting corpus.
unfoldable pub equity_for : Settings → Session → Result ℤ
equity_for s db = elim (latest_account_by_portfolio db s.profile_id) [
  | some account ↦ ok account.equity_inr
  | none ↦ resolve_runtime_profile db s.profile_id >>= λ corpus. ok (pos corpus)
]

-- `_target_quantity` on the latest close.
unfoldable pub quantity_at_close : Settings → Session → (approved_pct close : ℕ) → Result ℤ
quantity_at_close s db approved_pct close =
    if close == 0
    then ok (pos 0)
    else equity_for s db >>= λ equity. ok (target_quantity equity approved_pct close)

-- The cases of `_target_quantity` on the latest candle.
unfoldable pub quantity_on : Settings → Session → (approved_pct : ℕ) → Option Candle → Result ℤ
quantity_on s db approved_pct none = ok (pos 0)
quantity_on s db approved_pct (some candle) = quantity_at_close s db approved_pct candle.close_price

-- `_target_quantity`
unfoldable pub target_quantity_for : Settings → Session → (symbol approved_pct : ℕ) → Result ℤ
target_quantity_for s db symbol approved_pct =
    if approved_pct == 0
    then ok (pos 0)
    else quantity_on s db approved_pct (latest_candle db symbol)

-- `_approved_quantity`, by the action. Only for a purchase and a reduction is a target computed that
-- is used; an exception of the computation stands also for `SELL`.
unfoldable pub quantity_for :
    TraderAction → Settings → Session → (symbol current_quantity approved_pct : ℕ) → Result ℕ
quantity_for hold s db symbol current approved_pct = ok 0
quantity_for no_trade s db symbol current approved_pct = ok 0
quantity_for exit s db symbol current approved_pct = ok current
quantity_for buy s db symbol current approved_pct =
    target_quantity_for s db symbol approved_pct >>= λ target. ok (pos_part (target -ℤ pos current))
quantity_for reduce s db symbol current approved_pct =
    target_quantity_for s db symbol approved_pct >>= λ target. ok (pos_part (pos current -ℤ target))
quantity_for sell s db symbol current approved_pct =
    target_quantity_for s db symbol approved_pct >>= λ target. ok 0

-- `_approved_quantity`
unfoldable pub approved_quantity :
    Settings → Session → TraderProposal → (approved_pct : ℕ) → Result ℕ
approved_quantity s db p approved_pct =
    quantity_for p.action s db p.symbol p.current_position_quantity approved_pct

-- The reason of an allocation that traded nothing, for a purchase.
abbrev pub status_reason : AllocationStatus → Option DecisionReason
status_reason AllocationStatus.not_selected = some DecisionReason.allocation_not_selected
status_reason AllocationStatus.allocation_rejected = some DecisionReason.allocation_rejected
status_reason AllocationStatus.approved = none
status_reason AllocationStatus.rejected = none
status_reason AllocationStatus.unchanged = none
status_reason AllocationStatus.selected = none
status_reason AllocationStatus.unchanged_lifecycle = none
status_reason AllocationStatus.allocation_reduced = none
status_reason AllocationStatus.open_position_management = none

-- `_allocation_no_trade_reason`
unfoldable pub allocation_no_trade_reason : Option AllocationDecision → Option DecisionReason
allocation_no_trade_reason none = none
allocation_no_trade_reason (some a) = if is_buy a.action then status_reason a.status else none

-- `a or b`
abbrev pub or_else :
    Option AllocationDecision → Option AllocationDecision → Option AllocationDecision
or_else none b = b
or_else (some a) b = some a

abbrev pub reason_or : Option DecisionReason → DecisionReason → DecisionReason
reason_or none r = r
reason_or (some reason) r = reason

-- A decision that is not sent.
abbrev pub refused :
    TraderAction → FinalDecisionStatus → (quantity pct : ℕ) → DecisionReason → RuleDecisionFields
refused action status quantity pct reason = record {
  final_action = action;
  status = status;
  approved_quantity = quantity;
  approved_position_pct_nav = pct;
  reason = reason;
  can_send_to_broker = false;
}

-- The decision on an approved action that trades, for a quantity.
unfoldable pub traded_fields :
    TraderAction → (sells : Bool) → (safe : Bool) → (quantity pct : ℕ) → RuleDecisionFields
traded_fields action sells safe quantity pct =
    if ltb 0 quantity && safe
    then record {
      final_action = action;
      status = FinalDecisionStatus.approved_for_paper;
      approved_quantity = quantity;
      approved_position_pct_nav = pct;
      reason = DecisionReason.approved_for_paper;
      can_send_to_broker = true;
    }
    else if sells
    then refused action FinalDecisionStatus.no_action quantity pct DecisionReason.no_positive_sell
    else refused action FinalDecisionStatus.rejected quantity pct
        DecisionReason.no_positive_quantity

-- The branches under an approving status, by the action.
unfoldable pub approved_fields :
    TraderAction → (safe : Bool) → (quantity pct : ℕ) → Option DecisionReason → RuleDecisionFields
approved_fields hold safe quantity pct reason =
    refused hold FinalDecisionStatus.no_action 0 pct
      (reason_or reason DecisionReason.no_order_expected)
approved_fields no_trade safe quantity pct reason =
    refused no_trade FinalDecisionStatus.no_action 0 pct
      (reason_or reason DecisionReason.no_order_expected)
approved_fields reduce safe quantity pct reason = traded_fields reduce true safe quantity pct
approved_fields exit safe quantity pct reason = traded_fields exit true safe quantity pct
approved_fields buy safe quantity pct reason = traded_fields buy false safe quantity pct
approved_fields sell safe quantity pct reason = traded_fields sell false safe quantity pct

-- The fields under an approving status.
unfoldable pub fields_when_approved :
    Settings → Session → TraderProposal → RiskReview → Result RuleDecisionFields
fields_when_approved s db p r = approved_quantity s db p r.approved_position_pct_nav >>= λ quantity.
    ok (
      approved_fields p.action (paper_safe s) quantity r.approved_position_pct_nav
        (allocation_no_trade_reason (or_else p.allocation_decision r.allocation_decision)))

-- `_rule_decision_fields`, by the status of the review.
unfoldable pub fields_for :
    RiskReviewStatus → Settings → Session → TraderProposal → RiskReview → Result RuleDecisionFields
fields_for RiskReviewStatus.blocked s db p r =
    ok (refused no_trade FinalDecisionStatus.blocked 0 0 DecisionReason.blocked_by_risk)
fields_for RiskReviewStatus.rejected s db p r = ok (
    refused no_trade FinalDecisionStatus.rejected 0 0
      (DecisionReason.rejected_by_risk RiskReviewStatus.rejected))
fields_for RiskReviewStatus.approved s db p r = fields_when_approved s db p r
fields_for approved_with_reduction s db p r = fields_when_approved s db p r

-- `_rule_decision_fields`
unfoldable pub rule_decision_fields :
    Settings → Session → TraderProposal → RiskReview → Result RuleDecisionFields
rule_decision_fields s db p r = fields_for r.status s db p r

-- `_rule_final_decision`
unfoldable pub rule_final_decision :
    IdScheme
    → Settings
    → Session
    → (symbol : ℕ) → TraderProposal
    → RiskReview
    → Result FinalDecision
rule_final_decision ids s db symbol p r = do
  fields ← rule_decision_fields s db p r
  ok (record {
    final_decision_id = ids.final_decision_id r.run_id symbol r.proposal_id r.risk_check_id;
    decision_id = r.decision_id;
    run_id = r.run_id;
    portfolio_id = r.portfolio_id;
    symbol = symbol;
    proposal_id = r.proposal_id;
    risk_check_id = r.risk_check_id;
    as_of = r.as_of;
    final_action = fields.final_action;
    status = fields.status;
    approved_quantity = fields.approved_quantity;
    approved_position_pct_nav = fields.approved_position_pct_nav;
    reason = fields.reason;
    can_send_to_broker = fields.can_send_to_broker;
  })

-- The decision of `PortfolioManagerAgent.run` on a review that is given.
unfoldable pub decide :
    IdScheme
    → Settings
    → Session
    → (proposals : ℕ → Option TraderProposal) → (symbol : ℕ) → RiskReview
    → Result FinalDecision
decide ids s db proposals symbol r = do
  raise_if (not (r.symbol == symbol)) symbol_mismatch
  proposal ← or_raise (proposals r.proposal_id) proposal_missing
  rule_final_decision ids s db symbol proposal r
