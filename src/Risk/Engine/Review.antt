-- ===== src/Risk/Engine/Review.antt =====
-- risk/review_service.py: the review that `RiskReviewService.run` stores for a proposal. Loading the
-- proposal, the personas' texts, the deletion of older artifacts and the alerts are left out.
use taurus_agent.Base.{ℕ, not, ◌==◌, leb, sort_by, Result, ok, raise_if, ◌>>◌, symbol_mismatch}
use taurus_agent.Execution.{IdScheme}
use taurus_agent.Risk.Schemas.{TraderProposal, RiskReview}
use taurus_agent.Risk.Engine.{RiskSession, RiskEngine, evaluate}

-- `RiskReviewService.run` for a proposal that is given. A hashed id is never empty, so the engine's
-- trace rule asks for a proposal id only.
unfoldable pub review :
    IdScheme
    → RiskSession
    → RiskEngine
    → (now : ℕ) → (symbol : ℕ) → TraderProposal
    → Result RiskReview
review ids db engine now symbol proposal = do
  raise_if (not (proposal.symbol == symbol)) symbol_mismatch
  let result = evaluate db engine now proposal (not (proposal.proposal_id == 0))
  ok (record {
    risk_check_id =
        ids.risk_review_id proposal.run_id symbol proposal.proposal_id
          (sort_by leb proposal.source_report_ids);
    decision_id = ids.decision_id_for_proposal proposal.run_id symbol proposal.proposal_id;
    run_id = proposal.run_id;
    portfolio_id = proposal.portfolio_id;
    symbol = symbol;
    proposal_id = proposal.proposal_id;
    as_of = proposal.as_of;
    status = result.status;
    requested_position_pct_nav = proposal.requested_position_pct_nav;
    approved_position_pct_nav = result.approved_position_pct_nav;
    hard_rule_results = result.hard_rule_results;
    source_report_ids = proposal.source_report_ids;
    allocation_decision = proposal.allocation_decision;
  })
