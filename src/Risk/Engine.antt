-- ===== src/Risk/Engine.antt =====
-- risk/engine.py: `RiskEngine.evaluate`. The results of the hard rules are their statuses, in the
-- order in which the engine appends them; their texts are left out.
pub mod Rules
pub mod Approved
pub mod Passed
pub mod Review
use taurus_agent.Base.{
  ℕ, zero, suc, ◌+◌, ◌-◌, ◌/◌, Bool, true, false, not, ◌&&◌, ◌||◌, List, [], ◌∷◌, ◌++◌, Option,
  none, some, ◌==◌, ltb, leb, if◌then◌else◌, any_of, keep_if, head_of, sort_by,
}
use taurus_agent.Base.Int.{ℤ, pos, negsuc, ltb_ℤ}
use taurus_agent.Execution.{Settings, is_paper_broker, is_paper_mode}
use taurus_agent.Risk.Schemas.{
  TraderAction, buy, sell, hold, no_trade, reduce, exit, RiskRuleStatus, passed, reduced, rejected,
  blocked, RiskReviewStatus, approved_with_reduction, TraderProposal,
}
use taurus_agent.Risk.Graph.{
  GraphFacts, GraphSettings, status_severity, evaluate_graph_concentration,
}

-- `PositionLimitPolicy` of portfolio/money_management.py, without its source.
pub record PositionLimitPolicy : Type 0 where
  pub max_stock_pct_nav : ℕ
  pub max_open_positions : ℕ

-- The settings of the position limits; the policy is the loaded money-management file's.
pub record LimitSettings : Type 0 where
  pub taurus_money_management_enabled : Bool
  pub policy_limits : PositionLimitPolicy
  pub taurus_max_position_pct : ℕ
  pub taurus_max_open_positions : ℕ

-- `position_limits_for_settings`
unfoldable pub position_limits_for_settings : LimitSettings → PositionLimitPolicy
position_limits_for_settings s =
    if s.taurus_money_management_enabled then s.policy_limits else record {
      max_stock_pct_nav = s.taurus_max_position_pct;
      max_open_positions = s.taurus_max_open_positions;
    }

-- The event types of intelligence/event_scoring.py, and all others.
pub data EventType : Type 0 where
  earnings_beat guidance_raise large_deal order_win asset_quality_improvement : EventType
  tariff_hike capacity_expansion analyst_upgrade neutral_filing management_change : EventType
  demand_softness margin_pressure regulatory_observation regulatory_probe other : EventType

-- `EVENT_SENTIMENT`, in hundredths, with the default for other types.
unfoldable pub event_sentiment : EventType → ℤ
event_sentiment earnings_beat = pos 65
event_sentiment guidance_raise = pos 58
event_sentiment large_deal = pos 50
event_sentiment order_win = pos 48
event_sentiment asset_quality_improvement = pos 43
event_sentiment tariff_hike = pos 36
event_sentiment capacity_expansion = pos 30
event_sentiment analyst_upgrade = pos 32
event_sentiment neutral_filing = pos 0
event_sentiment management_change = negsuc 9
event_sentiment demand_softness = negsuc 33
event_sentiment margin_pressure = negsuc 41
event_sentiment regulatory_observation = negsuc 57
event_sentiment regulatory_probe = negsuc 71
event_sentiment other = pos 0

-- A row of the company events; severity is in ten-thousandths.
pub record CompanyEvent : Type 0 where
  pub event_id : ℕ
  pub symbol : ℕ
  pub event_type : EventType
  pub event_time : ℕ
  pub severity : ℕ

-- What the engine reads of the session: the instruments with their active flag, the events, and the
-- exposure graph.
pub record RiskSession : Type 0 where
  pub instruments : ℕ → Option Bool
  pub events : List CompanyEvent
  pub graph : GraphFacts

-- The engine's fields.
pub record RiskEngine : Type 0 where
  pub settings : Settings
  pub limits : LimitSettings
  pub graph_settings : GraphSettings
  pub kill_switch_enabled : Bool
  pub current_open_positions : ℕ
  pub current_position_exposures_pct_nav : List (ℕ × ℤ)
  pub daily_loss_pct : ℤ

-- `settings.taurus_kill_switch_enabled if kill_switch_enabled is None else kill_switch_enabled`
abbrev pub effective_kill_switch : Settings → Option Bool → Bool
effective_kill_switch s none = s.kill_switch_enabled
effective_kill_switch s (some flag) = flag

pub record RiskEngineResult : Type 0 where
  pub status : RiskReviewStatus
  pub approved_position_pct_nav : ℕ
  pub hard_rule_results : List RiskRuleStatus

abbrev pub is_buy : TraderAction → Bool
is_buy buy = true
is_buy sell = false
is_buy hold = false
is_buy no_trade = false
is_buy reduce = false
is_buy exit = false

-- `_action_is_valid`, without the text.
unfoldable pub action_is_valid :
    TraderAction → (target_position current_position : ℕ) → (has_existing_position : Bool) → Bool
action_is_valid buy target current existing = ltb current target && ltb 0 target
action_is_valid reduce target current existing = existing && (ltb 0 target && ltb target current)
action_is_valid exit target current existing = existing && target == 0
action_is_valid hold target current existing = existing && target == current
action_is_valid no_trade target current existing = not existing && target == 0
action_is_valid sell target current existing = false

-- `_data_is_fresh_enough`, at `now` in seconds; a day has 86,400 of them.
unfoldable pub data_is_fresh_enough : (now : ℕ) → TraderProposal → Bool
data_is_fresh_enough now proposal = elim proposal.source_report_ids [
  | [] ↦ false
  | _ ∷ _ ↦ leb ((now - proposal.as_of) / 86_400) 730
]

-- (event_time descending, event_id) in order
abbrev listed_before : CompanyEvent → CompanyEvent → Bool
listed_before a b =
    ltb b.event_time a.event_time || (a.event_time == b.event_time && leb a.event_id b.event_id)

-- The first rows of a select with a limit.
abbrev pub limit_rows : ℕ → List CompanyEvent → List CompanyEvent
limit_rows zero rows = []
limit_rows (suc n) [] = []
limit_rows (suc n) (row ∷ rows) = row ∷ limit_rows n rows

-- `list_events(symbol=symbol, limit=20)`
unfoldable pub list_events : List CompanyEvent → (symbol : ℕ) → List CompanyEvent
list_events events symbol =
    limit_rows 20 (sort_by listed_before (keep_if (λ e. e.symbol == symbol) events))

-- `sentiment < 0 and event.severity >= SEVERE_NEGATIVE_EVENT_THRESHOLD`
abbrev pub is_severe : CompanyEvent → Bool
is_severe e = ltb_ℤ (event_sentiment e.event_type) (pos 0) && leb 5_500 e.severity

-- (event_time, severity, event_id) in descending order
abbrev severe_before : CompanyEvent → CompanyEvent → Bool
severe_before a b =
    ltb b.event_time a.event_time
    || (a.event_time == b.event_time
        && (ltb b.severity a.severity || (a.severity == b.severity && leb b.event_id a.event_id)))

-- `_severe_negative_event`
unfoldable pub severe_negative_event : List CompanyEvent → (symbol : ℕ) → Option CompanyEvent
severe_negative_event events symbol =
    head_of (sort_by severe_before (keep_if is_severe (list_events events symbol)))

abbrev pub is_none : Option CompanyEvent → Bool
is_none none = true
is_none (some _) = false

-- `instrument is not None and instrument.active`
abbrev pub is_supported : Option Bool → Bool
is_supported none = false
is_supported (some active) = active

-- `"passed" if ok else worse`
abbrev pub rule : Bool → RiskRuleStatus → RiskRuleStatus
rule true worse = passed
rule false worse = worse

-- `live_safe`, and `_paper_safe` of the portfolio manager.
unfoldable pub paper_safe : Settings → Bool
paper_safe s =
    not s.live_trading_enabled && (is_paper_broker s.broker_provider && is_paper_mode s.taurus_mode)

-- The position after the cap on one stock.
abbrev pub capped_position : (action : TraderAction) → (target max_position : ℕ) → ℕ
capped_position action target max_position =
    if is_buy action && ltb max_position target then max_position else target

-- The graph rules run for a purchase that raises the exposure; else one passed rule stands for them.
unfoldable pub graph_rules :
    RiskSession → RiskEngine → TraderProposal → (approved_position : ℕ) → ℕ × List RiskRuleStatus
graph_rules db e p approved_position =
    if is_buy p.action && ltb p.current_position_pct_nav approved_position
    then evaluate_graph_concentration db.graph e.graph_settings p.symbol approved_position
        e.current_position_exposures_pct_nav
    else (approved_position, passed ∷ [])

abbrev pub has_status : RiskRuleStatus → List RiskRuleStatus → Bool
has_status status = any_of (λ s. status_severity s == status_severity status)

-- The returns at the end of `evaluate`, by whether a rule has blocked, rejected or reduced.
unfoldable pub conclude_on :
    (any_blocked any_rejected any_reduced : Bool)
    → (approved_position : ℕ) → List RiskRuleStatus
    → RiskEngineResult
conclude_on true any_rejected any_reduced approved_position results = record {
  status = RiskReviewStatus.blocked;
  approved_position_pct_nav = 0;
  hard_rule_results = results;
}
conclude_on false true any_reduced approved_position results = record {
  status = RiskReviewStatus.rejected;
  approved_position_pct_nav = 0;
  hard_rule_results = results;
}
conclude_on false false true approved_position results = record {
  status = approved_with_reduction;
  approved_position_pct_nav = approved_position;
  hard_rule_results = results;
}
conclude_on false false false approved_position results = record {
  status = RiskReviewStatus.approved;
  approved_position_pct_nav = approved_position;
  hard_rule_results = results;
}

unfoldable pub conclude : (approved_position : ℕ) → List RiskRuleStatus → RiskEngineResult
conclude approved_position results =
    conclude_on (has_status blocked results) (has_status rejected results)
      (has_status reduced results) approved_position results

-- The rules before the graph's, in their order.
unfoldable pub scalar_rules :
    RiskSession → RiskEngine → (now : ℕ) → TraderProposal → (trace_ok : Bool) → List RiskRuleStatus
scalar_rules db e now p trace_ok =
    let limits = position_limits_for_settings e.limits in
    let existing = ltb 0 p.current_position_quantity in
    let approved_position =
      capped_position p.action p.target_position_pct_nav limits.max_stock_pct_nav in
    rule (paper_safe e.settings) blocked
    ∷ rule (not e.kill_switch_enabled) blocked
    ∷ rule (is_supported (db.instruments p.symbol)) rejected
    ∷ rule trace_ok rejected
    ∷ rule (action_is_valid p.action p.target_position_pct_nav p.current_position_pct_nav existing)
        rejected
    ∷ rule (not (is_buy p.action && ltb limits.max_stock_pct_nav p.target_position_pct_nav)) reduced
    ∷ rule (not (is_buy p.action && leb approved_position p.current_position_pct_nav)) rejected
    ∷ rule
        (not (is_buy p.action)
          || (existing
              || (approved_position == 0
                  || ltb e.current_open_positions limits.max_open_positions)))
        rejected
    ∷ rule (not (is_buy p.action) || ltb_ℤ e.daily_loss_pct (pos e.settings.max_daily_loss_pct))
        blocked
    ∷ rule (data_is_fresh_enough now p) rejected
    ∷ rule (not (is_buy p.action) || is_none (severe_negative_event db.events p.symbol)) blocked
    ∷ []

-- `RiskEngine.evaluate`; `trace_ok` says that the decision, proposal and risk check ids are not empty.
unfoldable pub evaluate :
    RiskSession → RiskEngine → (now : ℕ) → TraderProposal → (trace_ok : Bool) → RiskEngineResult
evaluate db e now p trace_ok =
    let limits = position_limits_for_settings e.limits in
    let capped = capped_position p.action p.target_position_pct_nav limits.max_stock_pct_nav in
    let (approved_position, graph_results) = graph_rules db e p capped in
    conclude approved_position (scalar_rules db e now p trace_ok ++ graph_results)
