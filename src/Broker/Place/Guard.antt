-- ===== src/Broker/Place/Guard.antt =====
-- What `_validate_decision` lets through.
use taurus_agent.Base.{
  ◌<◌, ◌≡◌, refl, ◌↔◌, true, false, not, arith, ◌==◌, ok, raise_if-eq-ok, live_trading_on,
  broker_not_paper, decision_not_approved, decision_not_routable, quantity_not_positive,
  profile_mismatch,
}
use taurus_agent.Execution.{OrderSide, is_paper_broker, Settings}
use taurus_agent.Risk.{
  FinalDecision, TraderAction, buy, sell, hold, no_trade, reduce, exit, is_approved_for_paper,
}
use taurus_agent.Broker.Place.Decide.{side_for_action, validate_decision}

-- The side on which an action trades, if it trades.
abbrev pub IsSideOf : TraderAction → OrderSide → Type 0
IsSideOf buy OrderSide.buy = Unit
IsSideOf buy OrderSide.sell = ⊥
IsSideOf reduce OrderSide.buy = ⊥
IsSideOf reduce OrderSide.sell = Unit
IsSideOf exit OrderSide.buy = ⊥
IsSideOf exit OrderSide.sell = Unit
IsSideOf sell side = ⊥
IsSideOf hold side = ⊥
IsSideOf no_trade side = ⊥

side_for_action_iff :
    (action : TraderAction) (side : OrderSide)
    → (side_for_action action ≡ ok side) ↔ IsSideOf action side
unfolding side_for_action
side_for_action_iff buy OrderSide.buy = (λ h. tt, λ h. refl)
side_for_action_iff buy OrderSide.sell = (λ h. cc, λ h. absurd h)
side_for_action_iff reduce OrderSide.buy = (λ h. cc, λ h. absurd h)
side_for_action_iff reduce OrderSide.sell = (λ h. tt, λ h. refl)
side_for_action_iff exit OrderSide.buy = (λ h. cc, λ h. absurd h)
side_for_action_iff exit OrderSide.sell = (λ h. tt, λ h. refl)
side_for_action_iff sell side = (λ h. cc, λ h. absurd h)
side_for_action_iff hold side = (λ h. cc, λ h. absurd h)
side_for_action_iff no_trade side = (λ h. cc, λ h. absurd h)

-- Paper trading is on, and the decision is an approved one of the profile for a positive quantity.
pub record IsRoutable (s : Settings) (decision : FinalDecision) (side : OrderSide) : Type 0 where
  pub not_live : s.live_trading_enabled ≡ false
  pub paper : is_paper_broker s.broker_provider ≡ true
  pub approved : is_approved_for_paper decision.status ≡ true
  pub sendable : decision.can_send_to_broker ≡ true
  pub positive : 0 < decision.approved_quantity
  pub profile : decision.portfolio_id ≡ s.profile_id
  pub trades : IsSideOf decision.final_action side

module _ (s : Settings) (decision : FinalDecision) (side : OrderSide) where
  pub validate_decision-IsRoutable :
      validate_decision s decision ≡ ok side → IsRoutable s decision side
  unfolding validate_decision
  validate_decision-IsRoutable h =
      let (a, h) = raise_if-eq-ok s.live_trading_enabled live_trading_on _ h in
      let (b, h) = raise_if-eq-ok (not (is_paper_broker s.broker_provider)) broker_not_paper _ h in
      let (c, h) =
        raise_if-eq-ok (not (is_approved_for_paper decision.status)) decision_not_approved _ h in
      let (d, h) = raise_if-eq-ok (not decision.can_send_to_broker) decision_not_routable _ h in
      let (e, h) = raise_if-eq-ok (decision.approved_quantity == 0) quantity_not_positive _ h in
      let (f, h) =
        raise_if-eq-ok (not (decision.portfolio_id == s.profile_id)) profile_mismatch _ h in
      record {
        not_live = a;
        paper = ground arith;
        approved = ground arith;
        sendable = ground arith;
        positive = ground arith;
        profile = ground arith;
        trades = (side_for_action_iff decision.final_action side).0 h;
      }

  IsRoutable-validate_decision : IsRoutable s decision side → validate_decision s decision ≡ ok side
  unfolding validate_decision
  IsRoutable-validate_decision r =
      let positive : (decision.approved_quantity == 0) ≡ false = ground arith in
      let profile : (decision.portfolio_id == s.profile_id) ≡ true = ground arith in
      rw (r.not_live, r.paper, r.approved, r.sendable, positive, profile)
        ((side_for_action_iff decision.final_action side).1 r.trades)

-- The broker's guard lets a decision through, and names the side, exactly where paper trading is on,
-- the decision is approved, may be sent, is for a positive quantity and is of the configured
-- profile, and its action is one that trades on that side.
pub validate_decision_iff :
    (s : Settings) (decision : FinalDecision) (side : OrderSide)
    → (validate_decision s decision ≡ ok side) ↔ IsRoutable s decision side
validate_decision_iff s decision side =
    (validate_decision-IsRoutable s decision side, IsRoutable-validate_decision s decision side)
