-- ===== src/Router.antt =====
-- execution/order_router.py: `ExecutionRouter`.
pub mod Routed
pub mod Pipeline
use taurus_agent.Base.{
  ℕ, ◌<◌, Bool, true, false, not, ◌&&◌, ◌||◌, List, [], ◌∷◌, Option, none, some, ◌==◌, ltb, leb,
  if◌then◌else◌, keep_if, head_of, sort_by, Result, ok, err, or_raise, ◌>>=◌, ◌>>◌,
  decision_missing,
}
use taurus_agent.Base.Int.{ℤ}
use taurus_agent.Execution.{
  ExecutionPolicy, immediate, next_open, PaperOrder, Settings, IdScheme, is_paper_broker,
}
use taurus_agent.Risk.{
  TraderAction, buy, sell, hold, no_trade, reduce, exit, FinalDecision, TraderProposal,
  EvaluationMode, market_hours, after_close, is_approved_for_paper,
}
use taurus_agent.Store.{Session}
use taurus_agent.Broker.Place.{place_order}

-- A row of the final decisions.
pub record FinalDecisionRow : Type 0 where
  pub decision : FinalDecision
  pub created_at : ℕ

-- What the router reads beside the broker's tables: the proposals, the runs with their
-- `run_after_market_close`, and the final decisions.
pub record RunTables : Type 0 where
  pub proposals : ℕ → Option TraderProposal
  pub runs : ℕ → Option Bool
  pub final_decisions : List FinalDecisionRow

-- `final_action in {"BUY", "REDUCE", "EXIT"}`
abbrev pub is_routable_action : TraderAction → Bool
is_routable_action buy = true
is_routable_action reduce = true
is_routable_action exit = true
is_routable_action sell = false
is_routable_action hold = false
is_routable_action no_trade = false

-- `_is_paper_routable`
unfoldable pub is_paper_routable : Settings → FinalDecision → Bool
is_paper_routable s d =
    not s.live_trading_enabled
    && (is_paper_broker s.broker_provider
        && (is_approved_for_paper d.status
            && (d.can_send_to_broker
                && (ltb 0 d.approved_quantity && is_routable_action d.final_action))))

-- The policy of an evaluation mode.
abbrev pub policy_of_mode : EvaluationMode → ExecutionPolicy
policy_of_mode market_hours = immediate
policy_of_mode after_close = next_open

-- The policy of a run.
abbrev pub policy_of_run : Option Bool → ExecutionPolicy
policy_of_run none = immediate
policy_of_run (some true) = next_open
policy_of_run (some false) = immediate

-- `_execution_policy_for_decision`; a proposal's mode is one of the two that it tests.
unfoldable pub execution_policy_for_decision : RunTables → FinalDecision → ExecutionPolicy
execution_policy_for_decision tables d = elim (tables.proposals d.proposal_id) [
  | some p ↦ policy_of_mode p.evaluation_mode
  | none ↦ policy_of_run (tables.runs d.run_id)
]

-- `execution_policy or self._execution_policy_for_decision(decision)`
unfoldable pub chosen_policy : RunTables → FinalDecision → Option ExecutionPolicy → ExecutionPolicy
chosen_policy tables d none = execution_policy_for_decision tables d
chosen_policy tables d (some policy) = policy

-- An order that was placed, with its session.
abbrev pub placed : Result (PaperOrder × Session) → Result (Option PaperOrder × Session)
placed r = r >>= λ x. ok (some x.0, x.1)

-- `route_decision`
unfoldable pub route_decision :
    IdScheme
    → Settings
    → RunTables
    → Session
    → FinalDecision
    → Option ExecutionPolicy
    → (submitted_at : Option ℕ) → (pending_affordability_cash_inr : Option ℤ)
    → Result (Option PaperOrder × Session)
route_decision ids s tables db d policy submitted_at cash =
    if is_paper_routable s d
    then placed (place_order ids s db d (chosen_policy tables d policy) submitted_at cash)
    else ok (none, db)

-- (as_of descending, created_at descending) in order
abbrev latest_before : FinalDecisionRow → FinalDecisionRow → Bool
latest_before a b =
    ltb b.decision.as_of a.decision.as_of
    || (a.decision.as_of == b.decision.as_of && leb b.created_at a.created_at)

-- `latest_final_decision`
unfoldable pub latest_final_decision : RunTables → (run_id symbol : ℕ) → Option FinalDecisionRow
latest_final_decision tables run_id symbol = head_of (
    sort_by latest_before (
      keep_if (λ r. r.decision.run_id == run_id && r.decision.symbol == symbol)
        tables.final_decisions))

-- `route_latest_for_symbol`
unfoldable pub route_latest_for_symbol :
    IdScheme
    → Settings
    → RunTables
    → Session
    → (symbol run_id : ℕ) → Option ExecutionPolicy
    → Result (Option PaperOrder × Session)
route_latest_for_symbol ids s tables db symbol run_id policy = do
  row ← or_raise (latest_final_decision tables run_id symbol) decision_missing
  route_decision ids s tables db row.decision policy none none
