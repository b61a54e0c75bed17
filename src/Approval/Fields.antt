-- ===== src/Approval/Fields.antt =====
-- What an approval for paper trading implies.
use mathlib.Core.Path.{subst}
use taurus_agent.Base.{
  ℕ, ◌<◌, ◌≡◌, refl, sym, Bool, true, false, ◌&&◌, Option, ltb, if◌then◌else◌, ok, >>=-eq-ok,
  ok_injective, arith, Bool-cases, inl, inr,
}
use taurus_agent.Execution.{Settings}
use taurus_agent.Risk.{
  TraderAction, buy, sell, hold, no_trade, reduce, exit, RiskReviewStatus, approved_with_reduction,
  FinalDecisionStatus, TraderProposal, RiskReview, DecisionReason, is_approved_for_paper,
}
use taurus_agent.Risk.Engine.{paper_safe}
use taurus_agent.Risk.Engine.Rules.{is_approval}
use taurus_agent.Store.{Session}
use taurus_agent.Approval.{
  RuleDecisionFields, approved_quantity, quantity_for, target_quantity_for, refused, traded_fields,
  approved_fields, fields_when_approved, fields_for, rule_decision_fields,
}

-- The actions that an order carries out.
abbrev pub Trades : TraderAction → Type 0
Trades buy = Unit
Trades reduce = Unit
Trades exit = Unit
Trades sell = ⊥
Trades hold = ⊥
Trades no_trade = ⊥

-- What `APPROVED_FOR_PAPER` means.
pub record IsApprovedForPaper (s : Settings) (db : Session) (p : TraderProposal) (r : RiskReview)
    (f : RuleDecisionFields) : Type 0 where
  pub reviewed : is_approval r.status ≡ true
  pub status : is_approved_for_paper f.status ≡ true
  pub same_action : f.final_action ≡ p.action
  pub trades : Trades f.final_action
  pub safe : paper_safe s ≡ true
  pub positive : 0 < f.approved_quantity
  pub quantity : approved_quantity s db p r.approved_position_pct_nav ≡ ok f.approved_quantity
  pub position : f.approved_position_pct_nav ≡ r.approved_position_pct_nav

refused_unsent : false ≡ true → ⊥
refused_unsent h = cc

traded_approved :
    (action : TraderAction) (sells safe : Bool) (quantity pct : ℕ)
    → (traded_fields action sells safe quantity pct).can_send_to_broker ≡ true
    → (0 < quantity)
      × (safe ≡ true)
      × (is_approved_for_paper (traded_fields action sells safe quantity pct).status ≡ true)
      × ((traded_fields action sells safe quantity pct).approved_quantity ≡ quantity)
      × ((traded_fields action sells safe quantity pct).final_action ≡ action)
      × ((traded_fields action sells safe quantity pct).approved_position_pct_nav ≡ pct)
unfolding traded_fields
traded_approved action sells safe quantity pct h = elim (Bool-cases (ltb 0 quantity && safe)) [
  | inl go ↦ rw go (ground arith, ground arith, refl, refl, refl, refl)
  | inr stop ↦ absurd (never sells (rw stop at h))
]
  where
    never :
        (sells : Bool)
        → (if sells
            then refused action FinalDecisionStatus.no_action quantity pct
                DecisionReason.no_positive_sell
            else refused action FinalDecisionStatus.rejected quantity pct
                DecisionReason.no_positive_quantity).can_send_to_broker
          ≡ true
        → ⊥
    never true h = cc
    never false h = cc

-- What the fields of an action say when they may be sent.
record IsSent (action : TraderAction) (safe : Bool) (quantity pct : ℕ) (f : RuleDecisionFields)
    : Type 0 where
  pub status : is_approved_for_paper f.status ≡ true
  pub same_action : f.final_action ≡ action
  pub trades : Trades action
  pub is_safe : safe ≡ true
  pub same_quantity : f.approved_quantity ≡ quantity
  pub positive : 0 < quantity
  pub position : f.approved_position_pct_nav ≡ pct

traded-IsSent :
    (action : TraderAction) (sells safe : Bool) (quantity pct : ℕ)
    → Trades action
    → (traded_fields action sells safe quantity pct).can_send_to_broker ≡ true
    → IsSent action safe quantity pct (traded_fields action sells safe quantity pct)
traded-IsSent action sells safe quantity pct trades h =
    let (positive, is_safe, status, same_quantity, same_action, position) =
      traded_approved action sells safe quantity pct h in
    record {
      status = status;
      same_action = same_action;
      trades = trades;
      is_safe = is_safe;
      same_quantity = same_quantity;
      positive = positive;
      position = position;
    }

-- A `SELL` has no quantity, so it is given apart.
approved-IsSent :
    (action : TraderAction) (safe : Bool) (quantity pct : ℕ) (reason : Option DecisionReason)
    → (action ≡ sell → quantity ≡ 0)
    → (approved_fields action safe quantity pct reason).can_send_to_broker ≡ true
    → IsSent action safe quantity pct (approved_fields action safe quantity pct reason)
unfolding approved_fields
approved-IsSent hold safe quantity pct reason none_sold h = cc
approved-IsSent no_trade safe quantity pct reason none_sold h = cc
approved-IsSent buy safe quantity pct reason none_sold h =
    traded-IsSent buy false safe quantity pct tt h
approved-IsSent reduce safe quantity pct reason none_sold h =
    traded-IsSent reduce true safe quantity pct tt h
approved-IsSent exit safe quantity pct reason none_sold h =
    traded-IsSent exit true safe quantity pct tt h
approved-IsSent sell safe quantity pct reason none_sold h =
    let positive = (traded_approved sell false safe quantity pct h).0 in
    let none_left = none_sold refl in absurd (omega arith)

sell_quantity :
    (action : TraderAction) (s : Settings) (db : Session) (symbol current pct : ℕ) {n : ℕ}
    → quantity_for action s db symbol current pct ≡ ok n
    → action ≡ sell
    → n ≡ 0
unfolding quantity_for
sell_quantity action s db symbol current pct {n} h e =
    let h' = subst (λ a. quantity_for a s db symbol current pct ≡ ok n) e h in
    let (target, _, last) = >>=-eq-ok (target_quantity_for s db symbol pct) _ h' in
    sym (ok_injective last)

when_approved :
    (s : Settings) (db : Session) (p : TraderProposal) (r : RiskReview) {f : RuleDecisionFields}
    → is_approval r.status ≡ true
    → fields_when_approved s db p r ≡ ok f
    → f.can_send_to_broker ≡ true
    → IsApprovedForPaper s db p r f
unfolding fields_when_approved approved_quantity
when_approved s db p r {f} reviewed h sent =
    let (quantity, found, e) =
      >>=-eq-ok (approved_quantity s db p r.approved_position_pct_nav) _ h in
    let same = ok_injective e in
    let none_sold =
      sell_quantity p.action s db p.symbol p.current_position_quantity r.approved_position_pct_nav
        found in
    let sent' =
      approved-IsSent p.action (paper_safe s) quantity r.approved_position_pct_nav _ none_sold
        (subst (λ g. g.can_send_to_broker ≡ true) (sym same) sent) in
    let i =
      subst (IsSent p.action (paper_safe s) quantity r.approved_position_pct_nav) same sent' in
    record {
      reviewed = reviewed;
      status = i.status;
      same_action = i.same_action;
      trades = subst Trades (sym i.same_action) i.trades;
      safe = i.is_safe;
      positive = rw i.same_quantity i.positive;
      quantity = rw i.same_quantity found;
      position = i.position;
    }

fields_for-IsApprovedForPaper :
    (status : RiskReviewStatus) (s : Settings) (db : Session) (p : TraderProposal) (r : RiskReview)
    {f : RuleDecisionFields}
    → r.status ≡ status
    → fields_for status s db p r ≡ ok f
    → f.can_send_to_broker ≡ true
    → IsApprovedForPaper s db p r f
unfolding fields_for
fields_for-IsApprovedForPaper RiskReviewStatus.approved s db p r e h sent =
    when_approved s db p r (rw e refl) h sent
fields_for-IsApprovedForPaper approved_with_reduction s db p r e h sent =
    when_approved s db p r (rw e refl) h sent
fields_for-IsApprovedForPaper RiskReviewStatus.rejected s db p r e h sent =
    absurd (refused_unsent (subst (λ f. f.can_send_to_broker ≡ true) (sym (ok_injective h)) sent))
fields_for-IsApprovedForPaper RiskReviewStatus.blocked s db p r e h sent =
    absurd (refused_unsent (subst (λ f. f.can_send_to_broker ≡ true) (sym (ok_injective h)) sent))

-- Fields that may be sent are those of an approving review of a purchase, a reduction or an exit,
-- with the proposal's action and the review's position; paper trading is configured, and the
-- quantity is the one that the action needs, and positive.
pub rule_decision_fields_approved :
    (s : Settings) (db : Session) (p : TraderProposal) (r : RiskReview) {f : RuleDecisionFields}
    → rule_decision_fields s db p r ≡ ok f
    → f.can_send_to_broker ≡ true
    → IsApprovedForPaper s db p r f
unfolding rule_decision_fields
rule_decision_fields_approved s db p r h sent =
    fields_for-IsApprovedForPaper r.status s db p r refl h sent
