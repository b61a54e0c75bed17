-- ===== src/Tests/Approval.antt =====
-- The theorems on risk, approval and routing at sample inputs.
use taurus_agent.Base.{
  ℕ, ◌+◌, ◌≤◌, ◌<◌, ◌==◌, ◌≡◌, refl, true, false, not, List, [], ◌∷◌, Option, none, some, arith,
}
use taurus_agent.Base.Int.{pos}
use taurus_agent.Execution.{PaperOrder}
use taurus_agent.Risk.{
  buy, exit, TraderProposal, TraderOrderType, RiskReview, FinalDecision, EvaluationMode,
  RiskReviewStatus,
}
use taurus_agent.Risk.Graph.{
  Category, basic_industry, product_group, customer_industry, dependency, risk_category,
  correlated_cluster, GraphFacts, GraphSettings, ExposureValue, normalize_exposures, policies,
  static_group, static_exposure_groups, groups_for, existing_exposure, status_and_approved,
  decision_for_group, decision_before, decide_exposure, apply_policy, apply_policies,
  evaluate_graph_concentration,
}
use taurus_agent.Risk.Graph.Respected.{NoneRejects, FitsAll, graph_limits_respected}
use taurus_agent.Risk.Engine.{
  RiskSession, RiskEngine, LimitSettings, EventType, position_limits_for_settings, event_sentiment,
  action_is_valid, data_is_fresh_enough, list_events, severe_negative_event, paper_safe,
  graph_rules, conclude_on, conclude, scalar_rules, evaluate,
}
use taurus_agent.Risk.Engine.Approved.{IsApprovedAt, evaluate_approved}
use taurus_agent.Risk.Engine.Passed.{evaluate_other_approved}
use taurus_agent.Risk.Engine.Review.{review}
use taurus_agent.Money.Context.{round_half_even}
use taurus_agent.Store.{Session}
use taurus_agent.Approval.{
  RuleDecisionFields, equity_for, quantity_at_close, quantity_on, target_quantity_for, quantity_for,
  approved_quantity, allocation_no_trade_reason, traded_fields, approved_fields,
  fields_when_approved, fields_for, rule_decision_fields, rule_final_decision,
}
use taurus_agent.Approval.Fields.{IsApprovedForPaper, Trades, rule_decision_fields_approved}
use taurus_agent.Approval.Quantity.{FitsEquity, purchase_within_equity}
use taurus_agent.Router.{
  RunTables, is_paper_routable, execution_policy_for_decision, chosen_policy, route_decision,
}
use taurus_agent.Router.Routed.{IsRouted, route_decision_routes}
use taurus_agent.Router.Pipeline.{approved_decision_routable, routed_order_approved}
use taurus_agent.Tests.Samples.{settings, ids, session, decision}
use taurus_agent.Tests.Runs.{program, value_of, no_order}

approval : Unit {0}
unfolding program normalize_exposures policies static_group static_exposure_groups groups_for
    existing_exposure status_and_approved decision_for_group decision_before decide_exposure
    apply_policy apply_policies evaluate_graph_concentration position_limits_for_settings
    event_sentiment action_is_valid data_is_fresh_enough list_events severe_negative_event
    paper_safe graph_rules conclude_on conclude scalar_rules evaluate review round_half_even
    equity_for quantity_at_close quantity_on target_quantity_for quantity_for approved_quantity
    allocation_no_trade_reason traded_fields approved_fields fields_when_approved fields_for
    rule_decision_fields rule_final_decision is_paper_routable execution_policy_for_decision
    chosen_policy route_decision
approval = tt

-- Symbols 7 and 9 share industry 1; no other exposure is known.
abbrev industry : Category → ℕ → List ExposureValue
industry basic_industry symbol = record { key = 1; label = 1 } ∷ []
industry product_group symbol = []
industry customer_industry symbol = []
industry dependency symbol = []
industry risk_category symbol = []
industry correlated_cluster symbol = []

abbrev graph : GraphFacts
graph = record {
  values_for_symbol = industry;
  related_symbols = λ symbol. [];
  cluster_label = λ symbol. symbol;
}

-- At most 10 percent in one industry.
abbrev graph_settings : GraphSettings
graph_settings = record {
  taurus_graph_risk_enabled = true;
  max_basic_industry_exposure_pct = 100_000;
  max_product_group_exposure_pct = 250_000;
  max_customer_industry_exposure_pct = 250_000;
  max_dependency_exposure_pct = 250_000;
  max_risk_category_exposure_pct = 250_000;
  max_correlated_cluster_exposure_pct = 250_000;
  concentration_warning_fraction = 8_000;
}

abbrev limits : LimitSettings
limits = record {
  taurus_money_management_enabled = false;
  policy_limits = record { max_stock_pct_nav = 50_000; max_open_positions = 8 };
  taurus_max_position_pct = 50_000;
  taurus_max_open_positions = 5;
}

abbrev engine : RiskEngine
engine = record {
  settings = settings;
  limits = limits;
  graph_settings = graph_settings;
  kill_switch_enabled = false;
  current_open_positions = 1;
  current_position_exposures_pct_nav = (9, pos 70_000) ∷ [];
  daily_loss_pct = pos 0;
}

abbrev risk_session : RiskSession
risk_session = record {
  instruments = λ symbol. some true;
  events =
      record {
        event_id = 1;
        symbol = 9;
        event_type = EventType.regulatory_probe;
        event_time = 900;
        severity = 8_000;
      }
      ∷ [];
  graph = graph;
}

-- A proposal to hold 6 percent of symbol 7, and one to sell all of 60 units.
abbrev pub entry : TraderProposal
entry = record {
  proposal_id = 4;
  run_id = 3;
  portfolio_id = 1;
  symbol = 7;
  as_of = 5_000;
  action = buy;
  confidence = 7_500;
  order_type = TraderOrderType.market;
  stop_loss_pct = 60_000;
  requested_position_pct_nav = 60_000;
  current_position_quantity = 0;
  current_position_pct_nav = 0;
  target_position_pct_nav = 60_000;
  evaluation_mode = EvaluationMode.market_hours;
  source_report_ids = 11 ∷ [];
  allocation_decision = none;
}

abbrev pub leave : TraderProposal
leave = record {
  proposal_id = 5;
  run_id = 3;
  portfolio_id = 1;
  symbol = 7;
  as_of = 5_000;
  action = exit;
  confidence = 7_500;
  order_type = TraderOrderType.market;
  stop_loss_pct = 60_000;
  requested_position_pct_nav = 0;
  current_position_quantity = 60;
  current_position_pct_nav = 600_000;
  target_position_pct_nav = 0;
  evaluation_mode = EvaluationMode.market_hours;
  source_report_ids = 11 ∷ [];
  allocation_decision = none;
}

-- The cap takes 6 percent down to 5, and the industry, to 3.
evaluate-entry :
    ((evaluate risk_session engine 6_000 entry true).status
      ≡ RiskReviewStatus.approved_with_reduction)
    × ((evaluate risk_session engine 6_000 entry true).approved_position_pct_nav ≡ 30_000)
unfolding approval
evaluate-entry = (refl, refl)

evaluate_approved_example :
    IsApprovedAt risk_session engine 6_000 entry true
      (evaluate risk_session engine 6_000 entry true).approved_position_pct_nav
unfolding approval
evaluate_approved_example = evaluate_approved risk_session engine 6_000 entry true refl

evaluate_other_approved_example :
    ((evaluate risk_session engine 6_000 leave true).status ≡ RiskReviewStatus.approved)
    × ((evaluate risk_session engine 6_000 leave true).approved_position_pct_nav ≡ 0)
unfolding approval
evaluate_other_approved_example =
    evaluate_other_approved risk_session engine 6_000 leave true refl (record {
      safe = refl;
      switch_clear = refl;
      supported = refl;
      traced = refl;
      valid = refl;
      fresh = refl;
    })

graph_limits_respected_example :
    let r = evaluate_graph_concentration graph graph_settings 7 50_000 ((9, pos 70_000) ∷ []) in
    (r.0 ≤ 50_000)
    × (NoneRejects r.1
        → (0 < r.0)
          × FitsAll graph 7
              (normalize_exposures ((9, pos 70_000) ∷ []))
              r.0
              (policies graph_settings))
graph_limits_respected_example =
    graph_limits_respected graph graph_settings 7 50_000 ((9, pos 70_000) ∷ []) refl (omega arith)

no_review : RiskReview
no_review = record {
  risk_check_id = 0;
  decision_id = 0;
  run_id = 0;
  portfolio_id = 0;
  symbol = 0;
  proposal_id = 0;
  as_of = 0;
  status = RiskReviewStatus.rejected;
  requested_position_pct_nav = 0;
  approved_position_pct_nav = 0;
  hard_rule_results = [];
  source_report_ids = [];
  allocation_decision = none;
}

reviewed : RiskReview
unfolding approval no_review
reviewed = value_of no_review (review ids risk_session engine 6_000 7 entry)

decided : FinalDecision
unfolding approval no_review reviewed
decided =
    value_of (decision 0 7 buy 0 0) (rule_final_decision ids settings session 7 entry reviewed)

fields : RuleDecisionFields
unfolding approval no_review reviewed
fields =
    value_of (approved_fields exit false 0 0 none)
      (rule_decision_fields settings session entry reviewed)

abbrev tables : RunTables
tables = record { proposals = λ id. some entry; runs = λ id. none; final_decisions = [] }

routed : Option PaperOrder × Session
unfolding approval no_review reviewed decided
routed =
    value_of (none, session) (route_decision ids settings tables session decided none none none)

abbrev order_of : Option PaperOrder → PaperOrder
order_of none = no_order
order_of (some o) = o

decided_quantity : decided.approved_quantity ≡ 2
unfolding approval no_review reviewed decided
decided_quantity = refl

rule_decision_fields_approved_example : IsApprovedForPaper settings session entry reviewed fields
unfolding approval no_review reviewed fields
rule_decision_fields_approved_example =
    rule_decision_fields_approved settings session entry reviewed refl refl

purchase_within_equity_example : FitsEquity settings session 7 30_000 (0 + 2)
unfolding approval
purchase_within_equity_example =
    purchase_within_equity settings session 7 0 30_000 2 refl (omega arith)

approved_decision_routable_example : is_paper_routable settings decided ≡ true
unfolding approval no_review reviewed decided
approved_decision_routable_example =
    approved_decision_routable ids settings session 7 entry reviewed refl refl

route_decision_routes_example :
    IsRouted ids settings tables session decided none none none routed.0 routed.1
unfolding approval no_review reviewed decided routed
route_decision_routes_example =
    route_decision_routes ids settings tables session decided none none none refl

routed_order_approved_example :
    (decided.final_action ≡ buy)
    × Trades decided.final_action
    × IsApprovedAt risk_session engine 6_000 entry (not (4 == 0)) decided.approved_position_pct_nav
unfolding approval no_review reviewed decided routed
routed_order_approved_example =
    routed_order_approved ids settings risk_session engine 6_000 tables session 7 entry none none
      none {r = reviewed} {d = decided} {o = order_of routed.0} {db' = routed.1} refl refl refl
