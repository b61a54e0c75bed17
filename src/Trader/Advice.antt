-- ===== src/Trader/Advice.antt =====
-- agents/trader_agent.py: what the trader takes of the language model's advice, and the proposal.
use taurus_agent.Base.{
  ℕ, Bool, true, false, not, ◌&&◌, ◌||◌, List, [], ◌∷◌, Option, none, ◌==◌, ltb, leb, if◌then◌else◌,
  min, Result, ok, raise_if, ◌>>=◌, ◌>>◌, or_raise, length, map, sort_by, symbol_mismatch,
  reports_missing, debate_missing, proposal_out_of_range,
}
use taurus_agent.Policy.Sections.{hundred}
use taurus_agent.Risk.{
  TraderAction, buy, sell, hold, no_trade, reduce, exit, TraderOrderType, EvaluationMode,
  TraderProposal,
}
use taurus_agent.Store.{Session}
use taurus_agent.Trader.Context.{
  LifecycleTrigger, stop_loss, DebateReport, PortfolioContext, ProposalDecision, portfolio_context,
}
use taurus_agent.Trader.Lifecycle.{
  reduced_target, allowed_actions, target_for_action, deterministic_decision,
}

-- The fields of `LLMTraderOutput` that decide.
pub record LlmTraderOutput : Type 0 where
  pub action : TraderAction
  pub confidence : ℕ
  pub target_position_pct_nav : ℕ

-- What comes of asking the provider: there is none, it raises `LLMProviderError` or `ValueError`, or
-- it returns an output. Any other exception of the provider is an `err` of `Result Answer`.
pub data Answer : Type 0 where
  no_provider provider_failed : Answer
  returned : (output : LlmTraderOutput) → Answer

abbrev pub action_code : TraderAction → ℕ
action_code buy = 0
action_code sell = 1
action_code hold = 2
action_code no_trade = 3
action_code reduce = 4
action_code exit = 5

-- `action in allowed_actions`
abbrev pub is_allowed : TraderAction → List TraderAction → Bool
is_allowed action [] = false
is_allowed action (a ∷ allowed) = action_code a == action_code action || is_allowed action allowed

-- `_target_is_valid`
unfoldable pub target_is_valid : TraderAction → (target : ℕ) → PortfolioContext → Bool
target_is_valid buy target c = ltb c.current_position_pct_nav target && ltb 0 target
target_is_valid reduce target c =
    ltb 0 c.current_quantity && ltb 0 target && ltb target c.current_position_pct_nav
target_is_valid exit target c = ltb 0 c.current_quantity && target == 0
target_is_valid hold target c = ltb 0 c.current_quantity
target_is_valid no_trade target c = c.current_quantity == 0
target_is_valid sell target c = false

abbrev pub is_purchase : TraderAction → Bool
is_purchase buy = true
is_purchase _ = false

module _ (max_requested_position_pct_nav : ℕ) where
  -- `_clamped_target`
  unfoldable pub clamped_target : TraderAction → (target : ℕ) → PortfolioContext → ℕ
  clamped_target buy target c = min max_requested_position_pct_nav target
  clamped_target hold target c = c.current_position_pct_nav
  clamped_target exit target c = 0
  clamped_target no_trade target c = 0
  clamped_target _ target c = min target (reduced_target c.current_position_pct_nav)

  -- `_validated_llm_decision`
  unfoldable pub validated_llm_decision :
      LlmTraderOutput → List TraderAction → PortfolioContext → ProposalDecision → ProposalDecision
  validated_llm_decision output allowed c fallback =
      let target = clamped_target output.action output.target_position_pct_nav c in
      if not (is_allowed output.action allowed)
      then fallback
      else if not (target_is_valid output.action output.target_position_pct_nav c)
      then fallback
      else if is_purchase output.action && leb target c.current_position_pct_nav
      then fallback
      else record {
        action = output.action;
        confidence = output.confidence;
        target_position_pct_nav = target;
        lifecycle_trigger = fallback.lifecycle_trigger;
      }

  -- What the trader makes of an answer.
  unfoldable pub advised :
      Answer → List TraderAction → PortfolioContext → ProposalDecision → ProposalDecision
  advised no_provider allowed c fallback = fallback
  advised provider_failed allowed c fallback = fallback
  advised (returned output) allowed c fallback = validated_llm_decision output allowed c fallback

  -- `_advisory_llm_decision`, which passes on the exceptions that it does not catch.
  unfoldable pub advisory_llm_decision :
      Result Answer
      → List TraderAction
      → PortfolioContext
      → ProposalDecision
      → Result ProposalDecision
  advisory_llm_decision asked allowed c fallback = do
    answer ← asked
    ok (advised answer allowed c fallback)

  -- The decision of `run`.
  unfoldable pub run_decision :
      Result Answer → (reports : List ℕ) → DebateReport → PortfolioContext → Result ProposalDecision
  run_decision asked reports debate c =
      let fallback = deterministic_decision max_requested_position_pct_nav reports debate c in
      advisory_llm_decision asked (allowed_actions fallback.lifecycle_trigger debate c) c fallback

  -- The decision of `run_market_hours_trigger`, for a trigger that it supports.
  unfoldable pub market_hours_decision :
      Result Answer
      → LifecycleTrigger
      → (confidence : ℕ) → DebateReport
      → PortfolioContext
      → Result ProposalDecision
  market_hours_decision asked trigger confidence debate c =
      let action = if is_stop trigger then exit else reduce in
      let fallback : ProposalDecision = record {
        action = action;
        confidence = confidence;
        target_position_pct_nav = target_for_action max_requested_position_pct_nav action debate c;
        lifecycle_trigger = trigger;
      } in
      advisory_llm_decision asked (allowed_actions trigger debate c) c fallback
    where
      is_stop : LifecycleTrigger → Bool
      is_stop stop_loss = true
      is_stop _ = false

-- `_order_type`
abbrev pub order_type_of : TraderAction → TraderOrderType
order_type_of hold = TraderOrderType.no_order
order_type_of no_trade = TraderOrderType.no_order
order_type_of _ = TraderOrderType.limit

-- `STOP_LOSS_PCT`
abbrev pub stop_loss_pct : ℕ
stop_loss_pct = 60_000

-- The constraints of `TraderProposal` on its shares and its confidence.
unfoldable pub proposal_in_range : TraderProposal → Bool
proposal_in_range p =
    leb p.requested_position_pct_nav hundred
    && leb p.current_position_pct_nav hundred
    && leb p.target_position_pct_nav hundred
    && leb p.confidence 10_000

-- The proposal of `run`, from the reports' ids and the decision.
unfoldable pub proposal_of :
    (proposal_id run_id portfolio_id : ℕ)
    → (report_ids : List ℕ) → DebateReport
    → PortfolioContext
    → ProposalDecision
    → TraderProposal
proposal_of proposal_id run_id portfolio_id report_ids debate c d = record {
  proposal_id = proposal_id;
  run_id = run_id;
  portfolio_id = portfolio_id;
  symbol = debate.symbol;
  as_of = debate.as_of;
  action = d.action;
  confidence = d.confidence;
  order_type = order_type_of d.action;
  stop_loss_pct = stop_loss_pct;
  requested_position_pct_nav = d.target_position_pct_nav;
  current_position_quantity = c.current_quantity;
  current_position_pct_nav = c.current_position_pct_nav;
  target_position_pct_nav = d.target_position_pct_nav;
  evaluation_mode = EvaluationMode.after_close;
  source_report_ids = report_ids;
  allocation_decision = none;
}

-- What a call is given of the stored payloads, each validated or else an exception: the reports of
-- the run by their ids and confidences, the debate that is passed or found, and the account and the
-- position, whose rows the session holds.
pub record Loaded : Type 0 where
  pub reports : Result (List (ℕ × ℕ))
  pub debate : Result (Option DebateReport)
  pub portfolio : Result (Unit {0})

-- `run` from its check of the debate on, up to the proposal, which it then stores.
unfoldable pub after_debate :
    Session
    → (max_requested_position_pct_nav : ℕ) → (proposal_id run_id portfolio_id symbol : ℕ) → Loaded
    → (asked : Result Answer) → (reports : List (ℕ × ℕ)) → DebateReport
    → Result TraderProposal
after_debate db max_pct proposal_id run_id portfolio_id symbol loaded asked reports debate = do
  raise_if (not (debate.symbol == symbol)) symbol_mismatch
  validated ← loaded.portfolio
  let c = portfolio_context db portfolio_id symbol none
  d ← run_decision max_pct asked (map (λ r. r.1) reports) debate c
  let ids = sort_by leb (map (λ r. r.0) reports)
  let p = proposal_of proposal_id run_id portfolio_id ids debate c d
  raise_if (not (proposal_in_range p)) proposal_out_of_range
  ok p

-- `run` up to the proposal.
unfoldable pub propose :
    Session
    → (max_requested_position_pct_nav : ℕ) → (proposal_id run_id portfolio_id symbol : ℕ) → Loaded
    → (asked : Result Answer) → Result TraderProposal
propose db max_pct proposal_id run_id portfolio_id symbol loaded asked = do
  reports ← loaded.reports
  raise_if (length reports == 0) reports_missing
  found ← loaded.debate
  debate ← or_raise found debate_missing
  after_debate db max_pct proposal_id run_id portfolio_id symbol loaded asked reports debate
