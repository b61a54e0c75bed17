-- ===== src/Router/Pipeline.antt =====
-- From a proposal to an order: the risk engine, the portfolio manager and the router together.
use mathlib.Core.Path.{subst}
use taurus_agent.Base.{
  ℕ, ◌<◌, ◌==◌, ◌≡◌, refl, sym, ap, ◌∙◌, Bool, true, false, not, ◌&&◌, Option, some, ltb, ok,
  >>=-eq-ok, ok_injective, raise_if-eq-ok, symbol_mismatch, arith,
}
use taurus_agent.Base.Int.{ℤ}
use taurus_agent.Execution.{ExecutionPolicy, PaperOrder, Settings, IdScheme, is_paper_broker}
use taurus_agent.Risk.{
  FinalDecision, TraderAction, TraderProposal, RiskReview, buy, sell, hold, no_trade, reduce, exit,
  is_approved_for_paper,
}
use taurus_agent.Risk.Engine.{RiskSession, RiskEngine, evaluate, paper_safe}
use taurus_agent.Risk.Engine.Rules.{is_approval}
use taurus_agent.Risk.Engine.Approved.{IsApprovedAt, evaluate_approved}
use taurus_agent.Risk.Engine.Review.{review}
use taurus_agent.Store.{Session}
use taurus_agent.Approval.{RuleDecisionFields, rule_decision_fields, rule_final_decision}
use taurus_agent.Approval.Fields.{Trades, rule_decision_fields_approved}
use taurus_agent.Router.{RunTables, is_paper_routable, is_routable_action, route_decision}
use taurus_agent.Router.Routed.{route_decision_routes}

routable_action : (action : TraderAction) → Trades action → is_routable_action action ≡ true
routable_action buy h = refl
routable_action reduce h = refl
routable_action exit h = refl
routable_action sell h = absurd h
routable_action hold h = absurd h
routable_action no_trade h = absurd h

paper_safe-parts :
    (s : Settings)
    → paper_safe s ≡ true
    → (s.live_trading_enabled ≡ false) × (is_paper_broker s.broker_provider ≡ true)
unfolding paper_safe
paper_safe-parts s h = safe_parts s.live_trading_enabled _ _ h
  where
    safe_parts : (a b c : Bool) → (not a && (b && c)) ≡ true → (a ≡ false) × (b ≡ true)
    safe_parts a b c h = ground arith

-- The decision's fields are those that the rules give.
decision_fields :
    (ids : IdScheme) (s : Settings) (db : Session) (symbol : ℕ) (p : TraderProposal)
    (r : RiskReview) {d : FinalDecision}
    → rule_final_decision ids s db symbol p r ≡ ok d
    → (f : RuleDecisionFields) × (rule_decision_fields s db p r ≡ ok f)
      × (d.can_send_to_broker ≡ f.can_send_to_broker)
      × (d.status ≡ f.status)
      × (d.final_action ≡ f.final_action)
      × (d.approved_quantity ≡ f.approved_quantity)
      × (d.approved_position_pct_nav ≡ f.approved_position_pct_nav)
unfolding rule_final_decision
decision_fields ids s db symbol p r h =
    let (f, found, e) = >>=-eq-ok (rule_decision_fields s db p r) _ h in
    let same = sym (ok_injective e) in
    (
      f,
      found,
      ap (λ d. d.can_send_to_broker) same,
      ap (λ d. d.status) same,
      ap (λ d. d.final_action) same,
      ap (λ d. d.approved_quantity) same,
      ap (λ d. d.approved_position_pct_nav) same,
    )

routable_and :
    (a b c d e f : Bool)
    → a ≡ false
    → b ≡ true
    → c ≡ true
    → d ≡ true
    → e ≡ true
    → f ≡ true
    → (not a && (b && (c && (d && (e && f))))) ≡ true
routable_and a b c d e f ha hb hc hd he hf = rw (ha, hb, hc, hd, he, hf) refl

above_zero : (n : ℕ) → 0 < n → ltb 0 n ≡ true
above_zero n h = ground arith

-- A decision of the portfolio manager that may be sent is one that the router takes for routable: an
-- approved decision is never dropped on the way to the broker.
pub approved_decision_routable :
    (ids : IdScheme) (s : Settings) (db : Session) (symbol : ℕ) (p : TraderProposal)
    (r : RiskReview) {d : FinalDecision}
    → rule_final_decision ids s db symbol p r ≡ ok d
    → d.can_send_to_broker ≡ true
    → is_paper_routable s d ≡ true
unfolding is_paper_routable
approved_decision_routable ids s db symbol p r {d} h sent =
    let (f, found, can, status, action, quantity, pct) = decision_fields ids s db symbol p r h in
    let a = rule_decision_fields_approved s db p r found (sym can ∙ sent) in
    let (not_live, paper) = paper_safe-parts s a.safe in
    routable_and _ _ _ _ _ _ not_live paper (ap is_approved_for_paper status ∙ a.status) sent
      (ap (ltb 0) quantity ∙ above_zero f.approved_quantity a.positive)
      (ap is_routable_action action ∙ routable_action f.final_action a.trades)

-- The review carries the engine's result.
review_result :
    (ids : IdScheme) (rdb : RiskSession) (engine : RiskEngine) (now symbol : ℕ) (p : TraderProposal)
    {r : RiskReview}
    → review ids rdb engine now symbol p ≡ ok r
    → let result = evaluate rdb engine now p (not (p.proposal_id == 0)) in
      (r.status ≡ result.status) × (r.approved_position_pct_nav ≡ result.approved_position_pct_nav)
unfolding review
review_result ids rdb engine now symbol p h =
    let (_, e) = raise_if-eq-ok (not (p.symbol == symbol)) symbol_mismatch _ h in
    let same = sym (ok_injective e) in
    (ap (λ r. r.status) same, ap (λ r. r.approved_position_pct_nav) same)

-- Where the router places an order for the portfolio manager's decision on the risk engine's review
-- of a proposal, the decision carries out the proposal's action, a purchase, a reduction or an exit,
-- and all that an approval of the risk engine guarantees holds at the decision's position: an order
-- never reaches the broker past the kill switch or any other hard rule.
pub routed_order_approved :
    (ids : IdScheme) (s : Settings) (rdb : RiskSession) (engine : RiskEngine) (now : ℕ)
    (tables : RunTables) (db : Session) (symbol : ℕ) (p : TraderProposal)
    (policy : Option ExecutionPolicy) (at : Option ℕ) (cash : Option ℤ) {r : RiskReview}
    {d : FinalDecision} {o : PaperOrder} {db' : Session}
    → review ids rdb engine now symbol p ≡ ok r
    → rule_final_decision ids s db symbol p r ≡ ok d
    → route_decision ids s tables db d policy at cash ≡ ok (some o, db')
    → (d.final_action ≡ p.action)
      × Trades d.final_action
      × IsApprovedAt rdb engine now p (not (p.proposal_id == 0)) d.approved_position_pct_nav
routed_order_approved ids s rdb engine now tables db symbol p policy at cash {r} {d} reviewed
      decided routed =
    let (conditions, _) = route_decision_routes ids s tables db d policy at cash routed in
    let (f, found, can, status, action, quantity, pct) =
      decision_fields ids s db symbol p r decided in
    let a = rule_decision_fields_approved s db p r found (sym can ∙ conditions.sendable) in
    let (same_status, same_pct) = review_result ids rdb engine now symbol p reviewed in
    let approved =
      evaluate_approved rdb engine now p (not (p.proposal_id == 0))
        (sym (ap is_approval same_status) ∙ a.reviewed) in
    (
      action ∙ a.same_action,
      subst Trades (sym action) a.trades,
      subst (IsApprovedAt rdb engine now p (not (p.proposal_id == 0)))
          (sym (pct ∙ a.position ∙ same_pct)) approved,
    )
